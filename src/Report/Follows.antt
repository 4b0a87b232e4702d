-- ===== src/Report/Follows.antt =====
-- A node with its upload task does what a run of the manager's calls does, with the reported records in
-- the files (internal/trans_network/node_user_report.go, internal/ipfs_agent/local_file_agent.go).
use apron_gateway_p2p.Prelude.{◌≡◌, refl, ap, List, [], ◌∷◌, ◌++◌, append-nil, Bytes}
use apron_gateway_p2p.Outcome.{Outcome, ok, err, panic, ◌>>=◌, check_error}
use apron_gateway_p2p.Models.{NodeReport, ApronUsageRecord}
use apron_gateway_p2p.Usage.{
  UsageRecordManager, export_all_usage, record_usage_from_init_http_proxy_request,
  record_usage_from_socket, record_usage_http_proxy_data,
}
use apron_gateway_p2p.Usage.Ledger.{
  Call, http_init, http_data, socket_init, export, Ledger, call, run,
}
use apron_gateway_p2p.Ipfs.{FileSystem, LocalFileAgent, pin_content, local_file_agent}
use apron_gateway_p2p.Report.{upload_usage_report, upload_report, pin_report}
use apron_gateway_p2p.Report.System.{System, with_manager, system_call, system_run}
use apron_gateway_p2p.Report.Pinned.{
  Pins, pin_content-Pins, NoError, export_all_usage-NoError, Holds, Holds-pin,
}

module _ (fs : FileSystem) (marshal : NodeReport → Outcome Bytes)
    (unmarshal : Bytes → Outcome NodeReport)
    (decodes : (r : NodeReport) (b : Bytes) → marshal r ≡ ok b → unmarshal b ≡ ok r) where
  -- A run of the calls that reaches the same manager and the records that the files hold.
  abbrev pub Follows : Outcome Ledger → Outcome System → Type 0
  Follows o (ok s) =
      (p : List ApronUsageRecord) × (o ≡ ok (record { manager = s.manager; pinned = p }))
      × Holds unmarshal p s.agent.files
  Follows o (err e) = Unit
  Follows o (panic e) = Unit

  keep-Follows :
      (m : UsageRecordManager) (a : LocalFileAgent) (p : List ApronUsageRecord)
      → Holds unmarshal p a.files
      → (r : Outcome UsageRecordManager)
      → Follows
          (do m' ← r; ok (record { manager = m'; pinned = p }))
          (with_manager (record { manager = m; agent = a }) r)
  keep-Follows m a p h (ok m') = (p, refl, h)
  keep-Follows m a p h (err e) = tt
  keep-Follows m a p h (panic e) = tt

  abbrev stored : Outcome (LocalFileAgent × UsageRecordManager) → Outcome System
  stored o = o >>= λ r. ok (record { manager = r.1; agent = r.0 })

  pinned-Follows :
      (m' : UsageRecordManager) (files : List (Bytes × Bytes)) (p : List ApronUsageRecord)
      (report : NodeReport) (content : Bytes)
      → Holds unmarshal p files
      → unmarshal content ≡ ok report
      → (o : Outcome (Bytes × LocalFileAgent)) → Pins content files o
      → Follows
          (ok (record { manager = m'; pinned = p ++ report.records }))
          (stored (do s' ← (do q ← check_error o; ok q.1); ok (s', m')))
  pinned-Follows m' files p report content h parses (ok (name, a)) grown = (
    p ++ report.records,
    refl,
    Holds-pin unmarshal p files a.files name content report h parses grown,
  )
  pinned-Follows m' files p report content h parses (err e) x = tt
  pinned-Follows m' files p report content h parses (panic e) x = tt

  pin_report-Follows :
      (m' : UsageRecordManager) (a : LocalFileAgent) (p : List ApronUsageRecord)
      (report : NodeReport)
      → Holds unmarshal p a.files
      → (rs : List ApronUsageRecord) → report.records ≡ rs
      → (encoded : Outcome Bytes) → marshal report ≡ encoded
      → Follows
          (ok (record { manager = m'; pinned = p ++ report.records }))
          (stored (do s' ← pin_report (local_file_agent fs) marshal report a rs; ok (s', m')))
  unfolding pin_report
  pin_report-Follows m' a p report h [] e encoded f =
      (p, ap (λ t. ok (record { manager = m'; pinned = t })) (rw e (append-nil p)), h)
  pin_report-Follows m' a p report h (r ∷ rs) e (ok content) f = rw f (
      pinned-Follows m' a.files p report content h (decodes report content f)
        (pin_content fs a content) (pin_content-Pins fs content a))
  pin_report-Follows m' a p report h (r ∷ rs) e (err z) f = rw f tt
  pin_report-Follows m' a p report h (r ∷ rs) e (panic z) f = rw f tt

  upload-Follows :
      (m : UsageRecordManager) (a : LocalFileAgent) (p : List ApronUsageRecord)
      → Holds unmarshal p a.files
      → (o : Outcome (NodeReport × UsageRecordManager)) → NoError o
      → Follows
          (o >>= λ q. ok (record { manager = q.1; pinned = p ++ q.0.records }))
          (stored (upload_report (local_file_agent fs) marshal m a o))
  unfolding upload_report
  upload-Follows m a p h (ok (report, m')) n =
      pin_report-Follows m' a p report h report.records refl (marshal report) refl
  upload-Follows m a p h (err e) n = absurd n
  upload-Follows m a p h (panic e) n = tt

  call-Follows :
      (s : System) (p : List ApronUsageRecord)
      → Holds unmarshal p s.agent.files
      → (c : Call)
      → Follows (call (record { manager = s.manager; pinned = p }) c) (system_call fs marshal s c)
  unfolding call system_call upload_usage_report
  call-Follows s p h (http_init now req detail) =
      keep-Follows s.manager s.agent p h
        (record_usage_from_init_http_proxy_request s.manager now req detail)
  call-Follows s p h (http_data d up) =
      keep-Follows s.manager s.agent p h (record_usage_http_proxy_data s.manager d up)
  call-Follows s p h (socket_init now req) =
      keep-Follows s.manager s.agent p h (record_usage_from_socket s.manager now req)
  call-Follows s p h (export node_id now keys) =
      upload-Follows s.manager s.agent p h (export_all_usage s.manager node_id now keys)
        (export_all_usage-NoError s.manager node_id now keys)

  bind-Follows :
      (cs : List Call) (o : Outcome Ledger) (q : Outcome System)
      → Follows o q
      → ((t : System) (p : List ApronUsageRecord)
          → Holds unmarshal p t.agent.files
          → Follows
              (run (record { manager = t.manager; pinned = p }) cs)
              (system_run fs marshal t cs))
      → Follows (o >>= λ t. run t cs) (q >>= λ t. system_run fs marshal t cs)
  bind-Follows cs o (ok t) (p, e, h) next = rw e (next t p h)
  bind-Follows cs o (err e) x next = tt
  bind-Follows cs o (panic e) x next = tt

  pub run-Follows :
      (cs : List Call) (s : System) (p : List ApronUsageRecord)
      → Holds unmarshal p s.agent.files
      → Follows (run (record { manager = s.manager; pinned = p }) cs) (system_run fs marshal s cs)
  unfolding run system_run
  run-Follows [] s p h = (p, refl, h)
  run-Follows (c ∷ cs) s p h =
      bind-Follows cs (call (record { manager = s.manager; pinned = p }) c)
        (system_call fs marshal s c) (call-Follows s p h c) (λ t p' h'. run-Follows cs t p' h')
