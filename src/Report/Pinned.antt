-- ===== src/Report/Pinned.antt =====
-- What the agent of internal/ipfs_agent/local_file_agent.go has pinned, and the records that its files hold.
use apron_gateway_p2p.Prelude.{
  ℕ, ◌≡◌, refl, sym, ap, ◌∙◌, Option, none, some, List, [], ◌∷◌, ◌++◌, append-nil, append_assoc,
  Bytes, concat, map, codes,
}
use apron_gateway_p2p.Outcome.{Outcome, ok, err, panic, ◌>>=◌, check_error}
use apron_gateway_p2p.Models.{NodeReport, ApronUsageRecord}
use apron_gateway_p2p.Usage.{
  UsageRecordManager, export_all_usage, export_loop, export_one, finish_export,
}
use apron_gateway_p2p.Ipfs.{
  FileSystem, LocalFileAgent, pin_content, prepare_storage, storage_path, or_default,
}

-- what a pin of content comes to, if it returns: one more file, with that content
abbrev pub Pins : Bytes → List (Bytes × Bytes) → Outcome (Bytes × LocalFileAgent) → Type 0
Pins content files (ok (name, a)) = a.files ≡ files ++ (name, content) ∷ []
Pins content files (err e) = Unit
Pins content files (panic e) = Unit

module _ (fs : FileSystem) (content : Bytes) where
  written-Pins :
      (a : LocalFileAgent) (name : Bytes) (o : Outcome (Unit {0}))
      → Pins content a.files
          (do w ← check_error o; ok (name, record a { files = a.files ++ (name, content) ∷ [] }))
  written-Pins a name (ok u) = refl
  written-Pins a name (err e) = tt
  written-Pins a name (panic e) = tt

  named-Pins :
      (a : LocalFileAgent) (o : Outcome Bytes)
      → Pins content a.files (do
        name ← check_error o
        w ← check_error (fs.write name content)
        ok (name, record a { files = a.files ++ (name, content) ∷ [] }))
  named-Pins a (ok name) = written-Pins a name (fs.write name content)
  named-Pins a (err e) = tt
  named-Pins a (panic e) = tt

  pub pin_content-Pins : (a : LocalFileAgent) → Pins content a.files (pin_content fs a content)
  unfolding pin_content prepare_storage
  pin_content-Pins a =
      let key = or_default (codes "agTestKey") a.api_key in
      let secret = or_default (codes "agTestSecret") a.api_secret in
      let base = storage_path key secret in from key secret base (fs.mkdir_all base)
    where
      from :
          (key secret base : Bytes) (o : Outcome (Unit {0}))
          → Pins content a.files (do
            prepared ← (do
              made ← check_error o
              ok (record a { api_key = key; api_secret = secret; storage_base = base }))
            name ← check_error (fs.temp_file prepared.storage_base (codes "apron-") prepared.files)
            w ← check_error (fs.write name content)
            ok (name, record prepared { files = prepared.files ++ (name, content) ∷ [] }))
      from key secret base (ok u) =
          let b = record a { api_key = key; api_secret = secret; storage_base = base } in
          named-Pins b (fs.temp_file b.storage_base (codes "apron-") b.files)
      from key secret base (err e) = tt
      from key secret base (panic e) = tt

-- `ExportAllUsage` returns an error in no case.
abbrev pub NoError {ℓ} : {A : Type ℓ} → Outcome A → Type 0
NoError (ok a) = Unit
NoError (err e) = ⊥
NoError (panic e) = Unit

bind-NoError {ℓ κ} :
    {A : Type ℓ} {B : Type κ} (o : Outcome A) (f : A → Outcome B)
    → NoError o
    → ((a : A) → NoError (f a))
    → NoError (o >>= f)
bind-NoError (ok a) f h k = k a
bind-NoError (err e) f h k = h
bind-NoError (panic e) f h k = tt

export_one-NoError :
    (now : ℕ) (key : Bytes) (lock : Option (Unit {0})) (rcd : Option ApronUsageRecord)
    (s : List ApronUsageRecord × UsageRecordManager)
    → NoError (export_one now key lock rcd s)
unfolding export_one
export_one-NoError now key none rcd s = tt
export_one-NoError now key (some lock) none s = tt
export_one-NoError now key (some lock) (some rcd) s = tt

export_loop-NoError :
    (now : Bytes → ℕ) (keys : List Bytes) (s : List ApronUsageRecord × UsageRecordManager)
    → NoError (export_loop now keys s)
unfolding export_loop
export_loop-NoError now [] s = tt
export_loop-NoError now (key ∷ keys) s =
    bind-NoError (export_one (now key) key (s.1.locks key) (s.1.records key) s)
      (export_loop now keys) (export_one-NoError (now key) key (s.1.locks key) (s.1.records key) s)
      (export_loop-NoError now keys)

pub export_all_usage-NoError :
    (m : UsageRecordManager) (node_id : Bytes) (now : Bytes → ℕ) (keys : List Bytes)
    → NoError (export_all_usage m node_id now keys)
unfolding export_all_usage finish_export
export_all_usage-NoError m node_id now keys =
    bind-NoError (export_loop now keys ([], m)) (finish_export node_id)
      (export_loop-NoError now keys ([], m)) (λ s. tt)

-- the records of a report, and of all reports among files
abbrev pub records_of : Outcome NodeReport → List ApronUsageRecord
records_of (ok report) = report.records
records_of (err e) = []
records_of (panic e) = []

abbrev pub all_records : List NodeReport → List ApronUsageRecord
all_records reports = concat (map (λ (r : NodeReport). r.records) reports)

module _ (unmarshal : Bytes → Outcome NodeReport) where
  unfoldable pub kept : List (Bytes × Bytes) → List ApronUsageRecord
  kept [] = []
  kept ((name, content) ∷ files) = records_of (unmarshal content) ++ kept files

  -- every file has a report
  abbrev pub Readable : List (Bytes × Bytes) → Type 0
  Readable [] = Unit
  Readable ((name, content) ∷ files) =
      ((r : NodeReport) × (unmarshal content ≡ ok r)) × Readable files

  kept-append : (xs ys : List (Bytes × Bytes)) → kept (xs ++ ys) ≡ kept xs ++ kept ys
  unfolding kept
  kept-append [] ys = refl
  kept-append ((name, content) ∷ xs) ys =
      ap (λ t. records_of (unmarshal content) ++ t) (kept-append xs ys)
      ∙ sym (append_assoc (records_of (unmarshal content)) (kept xs) (kept ys))

  Readable-append : (xs ys : List (Bytes × Bytes)) → Readable xs → Readable ys → Readable (xs ++ ys)
  Readable-append [] ys h k = k
  Readable-append ((name, content) ∷ xs) ys (r, h) k = (r, Readable-append xs ys h k)

  -- the files of an agent hold these records
  abbrev pub Holds : List ApronUsageRecord → List (Bytes × Bytes) → Type 0
  Holds p files = (kept files ≡ p) × Readable files

  pub Holds-pin :
      (p : List ApronUsageRecord) (files files' : List (Bytes × Bytes)) (name content : Bytes)
      (r : NodeReport)
      → Holds p files
      → unmarshal content ≡ ok r
      → files' ≡ files ++ (name, content) ∷ []
      → Holds (p ++ r.records) files'
  unfolding kept
  Holds-pin p files files' name content r (e, readable) parses grown = rw grown (
    kept-append files ((name, content) ∷ []) ∙ rw (parses, e, append-nil r.records) refl,
    Readable-append files ((name, content) ∷ []) readable ((r, parses), tt),
  )
