-- ===== src/Usage/Export.antt =====
-- `ExportAllUsage` of internal/models/usage_record_manager.go: it returns, empties the manager, and
-- reports every record once.
use apron_gateway_p2p.Prelude.{
  ℕ, ◌+◌, ◌≡◌, refl, ap, sym, ◌∙◌, Bool, true, false, ◌||◌, Option, none, some, inl, inr, List, [],
  ◌∷◌, ◌++◌, Bytes, contains, bytes_eq, bytes_eq_iff, IsRange, has-some, has-none, not-has,
  has-elim, delete, get-delete, Option-cases, arith, if◌then◌else◌,
}
use mathlib.Core.Path.{subst}
use apron_gateway_p2p.Outcome.{Outcome, ok, err, panic, ◌>>=◌, ok-injective}
use apron_gateway_p2p.Models.{ApronUsageRecord, NodeReport}
use apron_gateway_p2p.Usage.{
  UsageRecordManager, stamp, export_one, export_loop, export_all_usage, finish_export,
}
use apron_gateway_p2p.Usage.Keeps.{IsValid, drop-IsValid}
use apron_gateway_p2p.Usage.Totals.{Meter, total, held, reported, reading_of, export_one-total}

abbrev Exported : Type 0
Exported = List ApronUsageRecord × UsageRecordManager

-- One round, by whether the key is still there.
pub export_one-there :
    (now : ℕ) (key : Bytes) (out : List ApronUsageRecord) (m : UsageRecordManager)
    (r : ApronUsageRecord)
    → IsValid m
    → m.records key ≡ some r
    → export_one now key (m.locks key) (m.records key) (out, m)
      ≡ ok (
        out ++ stamp now r ∷ [],
        record { records = delete key m.records; locks = delete key m.locks },
      )
unfolding export_one
export_one-there now key out m r v e =
    let (lock, there) = has-elim m.locks key (v.paired key ∙ has-some m.records key r e) in
    rw (there, e) refl

pub export_one-gone :
    (now : ℕ) (key : Bytes) (out : List ApronUsageRecord) (m : UsageRecordManager)
    → IsValid m
    → m.records key ≡ none
    → export_one now key (m.locks key) (m.records key) (out, m) ≡ ok (out, m)
unfolding export_one
export_one-gone now key out m v e =
    rw (not-has m.locks key (v.paired key ∙ has-none m.records key e)) refl

-- What a run of the loop has done: it returned; the keys visited are gone and the others as they
-- were; the records of the keys visited are behind those reported before.
pub record Visited (keys : List Bytes) (out : List ApronUsageRecord) (m : UsageRecordManager)
    (out' : List ApronUsageRecord) (m' : UsageRecordManager) : Type 0 where
  pub valid : IsValid m'
  pub left : (k : Bytes) → m'.records k ≡ (if contains keys k then none else m.records k)
  pub totals : (x : Meter) (k : Bytes) → total x k (out', m') ≡ total x k (out, m)

abbrev pub Visits : List Bytes → Exported → Outcome Exported → Type 0
Visits keys (out, m) (ok (out', m')) = Visited keys out m out' m'
Visits keys s (err e) = ⊥
Visits keys s (panic e) = ⊥

if_both {ℓ} :
    {A : Type ℓ} (b c : Bool) (o o' : Option A)
    → o' ≡ (if b then none else o)
    → (if c then none else o') ≡ (if b || c then none else o)
if_both true true o o' e = refl
if_both true false o o' e = e
if_both false true o o' e = refl
if_both false false o o' e = e

if_absent {ℓ} :
    {A : Type ℓ} (b c : Bool) (o : Option A)
    → (b ≡ true → o ≡ none)
    → (if c then none else o) ≡ (if b || c then none else o)
if_absent true true o e = refl
if_absent true false o e = e refl
if_absent false true o e = refl
if_absent false false o e = refl

left_none {ℓ} :
    {A : Type ℓ} (c : Bool) (o : Option A) → (c ≡ false → o ≡ none) → (if c then none else o) ≡ none
left_none true o e = refl
left_none false o e = e refl

module _ (now : Bytes → ℕ) (key : Bytes) (keys : List Bytes) (out : List ApronUsageRecord)
    (m : UsageRecordManager) (v : IsValid m) where
  export_step-there :
      (r : ApronUsageRecord) (o : Outcome Exported)
      → m.records key ≡ some r
      → Visits keys
          (
            out ++ stamp (now key) r ∷ [],
            record { records = delete key m.records; locks = delete key m.locks },
          )
          o
      → Visits (key ∷ keys) (out, m) o
  unfolding contains
  export_step-there r (ok (out', m')) e x = record {
    valid = x.valid;
    left = λ k.
        x.left k
        ∙ if_both (bytes_eq key k) (contains keys k) (m.records k) (delete key m.records k)
            (get-delete key k m.records);
    totals = λ y k.
        x.totals y k
        ∙ export_one-total y k (now key) key out m
            (
              out ++ stamp (now key) r ∷ [],
              record { records = delete key m.records; locks = delete key m.locks },
            )
            (m.locks key) (m.records key) v refl (export_one-there (now key) key out m r v e);
  }
  export_step-there r (err z) e x = x
  export_step-there r (panic z) e x = x

  export_step-gone :
      (o : Outcome Exported)
      → m.records key ≡ none
      → Visits keys (out, m) o
      → Visits (key ∷ keys) (out, m) o
  unfolding contains
  export_step-gone (ok (out', m')) e x = record {
    valid = x.valid;
    left = λ k.
        x.left k
        ∙ if_absent (bytes_eq key k) (contains keys k) (m.records k)
            (λ t. sym (ap m.records ((bytes_eq_iff key k).0 t)) ∙ e);
    totals = x.totals;
  }
  export_step-gone (err z) e x = x
  export_step-gone (panic z) e x = x

export_loop-Visits :
    (now : Bytes → ℕ) (keys : List Bytes) (out : List ApronUsageRecord) (m : UsageRecordManager)
    → IsValid m
    → Visits keys (out, m) (export_loop now keys (out, m))
unfolding export_loop contains
export_loop-Visits now [] out m v = record { valid = v; left = λ k. refl; totals = λ x k. refl }
export_loop-Visits now (key ∷ keys) out m v = elim (Option-cases (m.records key)) [
  | inl e ↦ rw (ap (λ o. o >>= export_loop now keys) (export_one-gone (now key) key out m v e)) (
      export_step-gone now key keys out m v (export_loop now keys (out, m)) e
        (export_loop-Visits now keys out m v))
  | inr (r, e) ↦
      rw (ap (λ o. o >>= export_loop now keys) (export_one-there (now key) key out m r v e)) (
        export_step-there now key keys out m v r
          (export_loop now keys (
            out ++ stamp (now key) r ∷ [],
            record { records = delete key m.records; locks = delete key m.locks },
          ))
          e
          (export_loop-Visits now keys (out ++ stamp (now key) r ∷ [])
            (record { records = delete key m.records; locks = delete key m.locks })
            (drop-IsValid m v key)))
]

-- What `ExportAllUsage` owes its caller: it returns, names the node, reports every counter of every
-- key, and leaves an empty, well-formed manager.
pub record Exports (node_id : Bytes) (m : UsageRecordManager) (report : NodeReport)
    (m' : UsageRecordManager) : Type 0 where
  pub named : report.node_id ≡ node_id
  pub complete : (x : Meter) (k : Bytes) → reported x k report.records ≡ held x k m
  pub no_record : (k : Bytes) → m'.records k ≡ none
  pub no_lock : (k : Bytes) → m'.locks k ≡ none
  pub valid : IsValid m'

abbrev pub ExportResult :
    Bytes → UsageRecordManager → Outcome (NodeReport × UsageRecordManager) → Type 0
ExportResult node_id m (ok (report, m')) = Exports node_id m report m'
ExportResult node_id m (err e) = ⊥
ExportResult node_id m (panic e) = ⊥

reported-nil : (x : Meter) (k : Bytes) → reported x k [] ≡ 0
unfolding reported
reported-nil x k = refl

module _ (node_id : Bytes) (m : UsageRecordManager) (v : IsValid m) (keys : List Bytes)
    (range : IsRange keys m.locks) where
  export-result :
      (o : Outcome Exported)
      → Visits keys ([], m) o
      → ExportResult node_id m (o >>= finish_export node_id)
  unfolding finish_export
  export-result (ok (out, m')) x =
      let gone : (k : Bytes) → m'.records k ≡ none = λ k.
        x.left k
        ∙ left_none (contains keys k) (m.records k)
            (λ f. not-has m.records k (sym (v.paired k) ∙ sym (range k) ∙ f)) in
      record {
        named = refl;
        complete = λ y k. omega (arith, x.totals y k, ap (reading_of y) (gone k), reported-nil y k);
        no_record = gone;
        no_lock = λ k. not-has m'.locks k (x.valid.paired k ∙ has-none m'.records k (gone k));
        valid = x.valid;
      }
  export-result (err z) x = x
  export-result (panic z) x = x

-- Over a well-formed manager and any order of its keys the export returns, reports every counter
-- of every key and leaves the manager empty.
pub export_all_usage-ExportResult :
    (m : UsageRecordManager) (node_id : Bytes) (now : Bytes → ℕ) (keys : List Bytes)
    → IsValid m
    → IsRange keys m.locks
    → ExportResult node_id m (export_all_usage m node_id now keys)
unfolding export_all_usage
export_all_usage-ExportResult m node_id now keys v range =
    export-result node_id m v keys range (export_loop now keys ([], m))
      (export_loop-Visits now keys [] m v)

-- A record of an export, for any keys: what it reports and what it leaves make up what there was.
pub export_all_usage-total :
    (m m' : UsageRecordManager) (node_id : Bytes) (now : Bytes → ℕ) (keys : List Bytes)
    (report : NodeReport)
    → IsValid m
    → export_all_usage m node_id now keys ≡ ok (report, m')
    → IsValid m'
      × ((x : Meter) (k : Bytes) → reported x k report.records + held x k m' ≡ held x k m)
unfolding export_all_usage
export_all_usage-total m m' node_id now keys report v h =
    from (export_loop now keys ([], m)) (export_loop-Visits now keys [] m v) h
  where
    from :
        (o : Outcome Exported)
        → Visits keys ([], m) o
        → (o >>= finish_export node_id) ≡ ok (report, m')
        → IsValid m'
          × ((x : Meter) (k : Bytes) → reported x k report.records + held x k m' ≡ held x k m)
    from (ok (out, n)) x e =
        subst
          (λ (q : NodeReport × UsageRecordManager).
            IsValid q.1
            × ((y : Meter) (k : Bytes) → reported y k q.0.records + held y k q.1 ≡ held y k m))
          (ok-injective e) (x.valid, λ y k. omega (arith, x.totals y k, reported-nil y k))
    from (err z) x e = absurd x
    from (panic z) x e = absurd x

abbrev pub ExportReturns : Outcome (NodeReport × UsageRecordManager) → Type 0
ExportReturns (ok (report, m)) = IsValid m
ExportReturns (err e) = ⊥
ExportReturns (panic e) = ⊥

-- The export of a well-formed manager returns for any list of keys.
pub export_all_usage-returns :
    (m : UsageRecordManager) (node_id : Bytes) (now : Bytes → ℕ) (keys : List Bytes)
    → IsValid m
    → ExportReturns (export_all_usage m node_id now keys)
unfolding export_all_usage
export_all_usage-returns m node_id now keys v =
    from (export_loop now keys ([], m)) (export_loop-Visits now keys [] m v)
  where
    from :
        (o : Outcome Exported) → Visits keys ([], m) o → ExportReturns (o >>= finish_export node_id)
    from (ok (out, n)) x = x.valid
    from (err z) x = x
    from (panic z) x = x
