-- ===== src/Report/EndToEnd.antt =====
-- Usage from the calls that record it to the reports that are read back: the manager of
-- internal/models/usage_record_manager.go, the task of internal/trans_network/node_user_report.go over
-- the agent of internal/ipfs_agent/local_file_agent.go, and cmd/report_generator/main.go.
use apron_gateway_p2p.Prelude.{
  ℕ, ◌+◌, ◌%◌, ◌≡◌, ◌<◌, refl, sym, ap, ◌∙◌, List, [], ◌∷◌, Bytes, length, arith,
}
use mathlib.Core.List.{Perm, foldr}
use mathlib.Core.List.Perm
use native.Mathlib.Nat.{ℕ_set}
use apron_gateway_p2p.Outcome.{Outcome, ok, err, panic, ◌>>=◌}
use apron_gateway_p2p.Models.{NodeReport, ApronUsageRecord}
use apron_gateway_p2p.Usage.{u64}
use apron_gateway_p2p.Usage.Totals.{Meter, reported, reported-append, held}
use apron_gateway_p2p.Usage.Ledger.{Call, run, start, worth_all, run-account}
use apron_gateway_p2p.Ipfs.{FileSystem}
use apron_gateway_p2p.Report.{generate_report, report_generator, base_dir, printed}
use apron_gateway_p2p.Report.System.{System, system_run, new_system}
use apron_gateway_p2p.Report.Pinned.{kept, records_of, all_records, Readable}
use apron_gateway_p2p.Report.Stored.{run-base_dir}
use apron_gateway_p2p.Report.Follows.{Follows, run-Follows}

-- What the generator prints of readable files is what they hold, but for reports without records.
reported-printed :
    (x : Meter) (k : Bytes) (rs : List ApronUsageRecord) (report : NodeReport)
    (rest : List NodeReport)
    → report.records ≡ rs
    → reported x k (all_records (printed rs report rest))
      ≡ reported x k report.records + reported x k (all_records rest)
unfolding reported
reported-printed x k [] report rest e = rw e (omega arith)
reported-printed x k (r ∷ rs) report rest e = reported-append x k report.records (all_records rest)

module _ (unmarshal : Bytes → Outcome NodeReport) where
  -- sums over files, which do not depend on their order
  abbrev sum_of : (Bytes × Bytes → ℕ) → List (Bytes × Bytes) → ℕ
  sum_of f = foldr (λ x n. f x + n) 0

  sum_of-perm :
      (f : Bytes × Bytes → ℕ) {xs ys : List (Bytes × Bytes)}
      → Perm xs ys
      → sum_of f xs ≡ sum_of f ys
  sum_of-perm f p = Perm.foldr-eq ℕ_set (λ x n. f x + n) (λ x y n. omega arith) p 0

  abbrev is_bad : Outcome NodeReport → ℕ
  is_bad (ok r) = 0
  is_bad (err e) = 1
  is_bad (panic e) = 1

  abbrev bad : List (Bytes × Bytes) → ℕ
  bad = sum_of (λ f. is_bad (unmarshal f.1))

  abbrev recorded : Meter → Bytes → List (Bytes × Bytes) → ℕ
  recorded x k = sum_of (λ f. reported x k (records_of (unmarshal f.1)))

  bad-Readable : (files : List (Bytes × Bytes)) → Readable unmarshal files → bad files ≡ 0
  bad-Readable [] h = refl
  bad-Readable ((name, content) ∷ files) ((r, e), h) =
      rw e (let ih = bad-Readable files h in omega arith)

  recorded-kept :
      (x : Meter) (k : Bytes) (files : List (Bytes × Bytes))
      → recorded x k files ≡ reported x k (kept unmarshal files)
  unfolding kept reported
  recorded-kept x k [] = refl
  recorded-kept x k ((name, content) ∷ files) = omega (
    arith,
    recorded-kept x k files,
    reported-append x k (records_of (unmarshal content)) (kept unmarshal files),
  )

  -- what the generator makes of files that can all be read
  abbrev pub Generates : List (Bytes × Bytes) → Type 0
  Generates files =
      (reports : List NodeReport) × (generate_report unmarshal files ≡ ok reports)
      × ((x : Meter) (k : Bytes) → reported x k (all_records reports) ≡ recorded x k files)

  generate_one :
      (path content : Bytes) (files : List (Bytes × Bytes)) (o : Outcome NodeReport)
      → unmarshal content ≡ o
      → is_bad o ≡ 0
      → Generates files
      → Generates ((path, content) ∷ files)
  unfolding generate_report
  generate_one path content files (ok r) e h (reports, made, totals) = (
    printed r.records r reports,
    rw (e, made) refl,
    λ x k. rw e (omega (arith, reported-printed x k r.records r reports refl, totals x k)),
  )
  generate_one path content files (err z) e h g = absurd (omega arith)
  generate_one path content files (panic z) e h g = absurd (omega arith)

  generate_report-Generates : (files : List (Bytes × Bytes)) → bad files ≡ 0 → Generates files
  unfolding generate_report reported
  generate_report-Generates [] h = ([], refl, λ x k. refl)
  generate_report-Generates ((path, content) ∷ files) h =
      generate_one path content files (unmarshal content) refl (omega arith)
        (generate_report-Generates files (omega arith))

-- For a node and a generator that are given the same key and secret, neither of them empty: after any
-- calls of the manager's methods and rounds of the upload task, one after another, that all return, and once
-- a report has been pinned, the generator, over any order in which it walks its directory, returns, and for
-- every key and each of the three counters, what it prints and what the manager still holds add up to what
-- the calls charged to the key, modulo 2^64. For this a walk of the directory of the node's agent finds the
-- files that the agent has made in it and no others, and `proto.Unmarshal` gives back what `proto.Marshal` has encoded.
pub system_run-account :
    (fs : FileSystem) (marshal : NodeReport → Outcome Bytes)
    (unmarshal : Bytes → Outcome NodeReport) (walk : Bytes → Outcome (List (Bytes × Bytes)))
    (api_key api_secret : Bytes) (cs : List Call) (s : System) (walked : List (Bytes × Bytes))
    → 0 < length api_key
    → 0 < length api_secret
    → ((r : NodeReport) (b : Bytes) → marshal r ≡ ok b → unmarshal b ≡ ok r)
    → system_run fs marshal (new_system api_key api_secret) cs ≡ ok s
    → 0 < length s.agent.files
    → walk s.agent.storage_base ≡ ok walked
    → Perm walked s.agent.files
    → (reports : List NodeReport) × (report_generator walk unmarshal api_key api_secret
        ≡ ok reports)
      × ((x : Meter) (k : Bytes)
          → (reported x k (all_records reports) + held x k s.manager) % u64
            ≡ worth_all x k cs % u64)
unfolding kept report_generator
system_run-account fs marshal unmarshal walk api_key api_secret cs s walked given given' decodes e
      made_some walks order =
    let f : Follows fs marshal unmarshal decodes (run start cs) (ok s) =
      rw e at (
        run-Follows fs marshal unmarshal decodes cs (new_system api_key api_secret) []
          (refl, tt)) in
    let (p, ran, (holds, readable)) = f in
    let (reports, made, totals) = generate_report-Generates unmarshal walked (
      sum_of-perm unmarshal (λ g. is_bad unmarshal (unmarshal g.1)) order
      ∙ bad-Readable unmarshal s.agent.files readable) in
    let there : walk (base_dir api_key api_secret) ≡ ok walked =
      ap walk (sym (run-base_dir fs marshal api_key api_secret cs s given given' e made_some))
      ∙ walks in
    (
      reports,
      ap (λ (o : Outcome (List (Bytes × Bytes))). o >>= generate_report unmarshal) there ∙ made,
      λ x k. omega (
        arith,
        totals x k,
        sum_of-perm unmarshal (λ g. reported x k (records_of (unmarshal g.1))) order,
        recorded-kept unmarshal x k s.agent.files,
        ap (reported x k) holds,
        run-account cs (record { manager = s.manager; pinned = p }) ran x k,
      ),
    )
