-- ===== src/Report/Stored.antt =====
-- Where the agent of a node's upload task keeps its files (internal/ipfs_agent/local_file_agent.go), and
-- that cmd/report_generator/main.go walks the same directory.
use apron_gateway_p2p.Prelude.{
  ◌≡◌, ◌<◌, refl, ap, ◌∙◌, ◌⊎◌, inl, inr, List, [], ◌∷◌, Bytes, codes, length, arith,
}
use apron_gateway_p2p.Outcome.{Outcome, ok, err, panic, ◌>>=◌, check_error}
use apron_gateway_p2p.Models.{NodeReport, ApronUsageRecord}
use apron_gateway_p2p.Usage.{
  UsageRecordManager, export_all_usage, record_usage_from_init_http_proxy_request,
  record_usage_from_socket, record_usage_http_proxy_data,
}
use apron_gateway_p2p.Usage.Ledger.{Call, http_init, http_data, socket_init, export}
use apron_gateway_p2p.Ipfs.{
  FileSystem, LocalFileAgent, pin_content, prepare_storage, local_file_agent, storage_path,
  or_default,
}
use apron_gateway_p2p.Report.{upload_usage_report, upload_report, pin_report, base_dir}
use apron_gateway_p2p.Report.System.{System, system_call, system_run, new_system}

abbrev key_or_default : Bytes → Bytes
key_or_default = or_default (codes "agTestKey")

abbrev secret_or_default : Bytes → Bytes
secret_or_default = or_default (codes "agTestSecret")

-- An agent of this key and secret, whose files, if it has any, are in their directory.
abbrev pub Stored : Bytes → Bytes → LocalFileAgent → Type 0
Stored key secret a =
    (key_or_default a.api_key ≡ key_or_default key)
    × (secret_or_default a.api_secret ≡ secret_or_default secret)
    × ((a.files ≡ [])
        ⊎ (a.storage_base ≡ storage_path (key_or_default key) (secret_or_default secret)))

key_again : (key : Bytes) → key_or_default (key_or_default key) ≡ key_or_default key
key_again [] = refl
key_again (c ∷ cs) = refl

secret_again :
    (secret : Bytes) → secret_or_default (secret_or_default secret) ≡ secret_or_default secret
secret_again [] = refl
secret_again (c ∷ cs) = refl

both_given :
    (key secret : Bytes)
    → 0 < length key
    → 0 < length secret
    → storage_path (key_or_default key) (secret_or_default secret) ≡ base_dir key secret
both_given [] secret h h' = absurd (omega arith)
both_given (c ∷ cs) [] h h' = absurd (omega arith)
both_given (c ∷ cs) (d ∷ ds) h h' = refl

-- A property of the agent in what is returned, if it is returned.
abbrev If : {A : Type 0} → (A → Type 0) → Outcome A → Type 0
If P (ok t) = P t
If P (err e) = Unit
If P (panic e) = Unit

bind-If :
    {A B : Type 0} (P : A → Type 0) (Q : B → Type 0) (o : Outcome A) (k : A → Outcome B)
    → If P o
    → ((a : A) → P a → If Q (k a))
    → If Q (o >>= k)
bind-If P Q (ok a) k h next = next a h
bind-If P Q (err e) k h next = tt
bind-If P Q (panic e) k h next = tt

any-If :
    {A B : Type 0} (Q : B → Type 0) (o : Outcome A) (k : A → Outcome B)
    → ((a : A) → If Q (k a))
    → If Q (o >>= k)
any-If Q (ok a) k next = next a
any-If Q (err e) k next = tt
any-If Q (panic e) k next = tt

check_error-If : {A : Type 0} (P : A → Type 0) (o : Outcome A) → If P o → If P (check_error o)
check_error-If P (ok a) h = h
check_error-If P (err e) h = tt
check_error-If P (panic e) h = tt

module _ (fs : FileSystem) (marshal : NodeReport → Outcome Bytes) (key secret : Bytes) where
  -- an agent that is prepared
  abbrev Prepared : LocalFileAgent → Type 0
  Prepared a =
      (key_or_default a.api_key ≡ key_or_default key)
      × (secret_or_default a.api_secret ≡ secret_or_default secret)
      × (a.storage_base ≡ storage_path (key_or_default key) (secret_or_default secret))

  prepare_storage-Prepared :
      (a : LocalFileAgent) → Stored key secret a → If Prepared (prepare_storage fs a)
  unfolding prepare_storage
  prepare_storage-Prepared a (k, s, x) =
      let key' = key_or_default a.api_key in
      let secret' = secret_or_default a.api_secret in
      any-If Prepared (check_error (fs.mkdir_all (storage_path key' secret'))) _ (λ made. (
        key_again a.api_key ∙ k,
        secret_again a.api_secret ∙ s,
        ap (λ (c : Bytes). storage_path c secret') k ∙ ap (storage_path (key_or_default key)) s,
      ))

  pin_content-Stored :
      (a : LocalFileAgent) (content : Bytes)
      → Stored key secret a
      → If (λ (p : Bytes × LocalFileAgent). Stored key secret p.1) (pin_content fs a content)
  unfolding pin_content
  pin_content-Stored a content h =
      let Q : Bytes × LocalFileAgent → Type 0 = λ p. Stored key secret p.1 in
      bind-If Prepared Q (prepare_storage fs a) _ (prepare_storage-Prepared a h) λ b (k, s, based).
        any-If Q (check_error (fs.temp_file b.storage_base (codes "apron-") b.files)) _
          λ name. any-If Q (check_error (fs.write name content)) _ (λ written. (k, s, inr based))

  pin_report-Stored :
      (report : NodeReport) (a : LocalFileAgent) (rs : List ApronUsageRecord)
      → Stored key secret a
      → If (Stored key secret) (pin_report (local_file_agent fs) marshal report a rs)
  unfolding pin_report
  pin_report-Stored report a [] h = h
  pin_report-Stored report a (r ∷ rs) h =
      any-If (Stored key secret) (check_error (marshal report)) _ λ content.
        bind-If (λ (p : Bytes × LocalFileAgent). Stored key secret p.1) (Stored key secret)
          (check_error (pin_content fs a content)) _
          (check_error-If (λ (p : Bytes × LocalFileAgent). Stored key secret p.1)
            (pin_content fs a content) (pin_content-Stored a content h))
          (λ p x. x)

  abbrev SystemStored : System → Type 0
  SystemStored t = Stored key secret t.agent

  upload-Stored :
      (m : UsageRecordManager) (a : LocalFileAgent) (o : Outcome (NodeReport × UsageRecordManager))
      → Stored key secret a
      → If
          (λ (p : LocalFileAgent × UsageRecordManager). Stored key secret p.0)
          (upload_report (local_file_agent fs) marshal m a o)
  unfolding upload_report
  upload-Stored m a (ok (report, m')) h =
      bind-If (Stored key secret)
        (λ (p : LocalFileAgent × UsageRecordManager). Stored key secret p.0)
        (pin_report (local_file_agent fs) marshal report a report.records) _
        (pin_report-Stored report a report.records h) (λ b x. x)
  upload-Stored m a (err e) h = h
  upload-Stored m a (panic e) h = tt

  call-Stored :
      (s : System) (c : Call) → SystemStored s → If SystemStored (system_call fs marshal s c)
  unfolding system_call upload_usage_report
  call-Stored s (http_init now req detail) h =
      any-If SystemStored (record_usage_from_init_http_proxy_request s.manager now req detail) _
        (λ m. h)
  call-Stored s (http_data d up) h =
      any-If SystemStored (record_usage_http_proxy_data s.manager d up) _ (λ m. h)
  call-Stored s (socket_init now req) h =
      any-If SystemStored (record_usage_from_socket s.manager now req) _ (λ m. h)
  call-Stored s (export node_id now keys) h =
      bind-If (λ (p : LocalFileAgent × UsageRecordManager). Stored key secret p.0) SystemStored
        (upload_report (local_file_agent fs) marshal s.manager s.agent
          (export_all_usage s.manager node_id now keys))
        _ (upload-Stored s.manager s.agent (export_all_usage s.manager node_id now keys) h)
        (λ r x. x)

  run-If :
      (cs : List Call) (s : System) → SystemStored s → If SystemStored (system_run fs marshal s cs)
  unfolding system_run
  run-If [] s h = h
  run-If (c ∷ cs) s h =
      bind-If SystemStored SystemStored (system_call fs marshal s c) _ (call-Stored s c h)
        (λ t x. run-If cs t x)

  -- Once a report has been pinned, the files of a node that was given a key and a secret are in the directory
  -- that the generator walks for them.
  pub run-base_dir :
      (cs : List Call) (t : System)
      → 0 < length key
      → 0 < length secret
      → system_run fs marshal (new_system key secret) cs ≡ ok t
      → 0 < length t.agent.files
      → t.agent.storage_base ≡ base_dir key secret
  run-base_dir cs t hk hs e some_file =
      let stored : If SystemStored (ok t) =
        rw e at (run-If cs (new_system key secret) (refl, refl, inl refl)) in
      elim stored.2 [
        | inl none_made ↦ absurd (omega (arith, ap length none_made))
        | inr based ↦ based ∙ both_given key secret hk hs
      ]
