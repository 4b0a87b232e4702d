-- ===== src/Usage/Returns.antt =====
-- When the methods of `UsageRecordManager` return and when they panic
-- (internal/models/usage_record_manager.go).
use apron_gateway_p2p.Prelude.{
  ℕ, ◌≤◌, ◌<◌, ◌≡◌, refl, Bool, none, List, [], ◌∷◌, ◌++◌, Bytes, length, has-none, IsRange, arith,
}
use apron_gateway_p2p.Outcome.{Outcome, ok, err, panic, ◌>>=◌}
use apron_gateway_p2p.Models.{ApronServiceData, NodeReport}
use apron_gateway_p2p.RequestId.{extract_service_info_from_request_id, generate_usage_record_key}
use apron_gateway_p2p.RequestId.Split.{count_dots, Extracts, extract-Extracts}
use apron_gateway_p2p.Usage.{
  UsageRecordManager, count_access, charge_data, export_all_usage,
  record_usage_from_init_http_proxy_request, record_usage_from_socket, record_usage_http_proxy_data,
}
use apron_gateway_p2p.Usage.Keeps.{IsValid, Keeps, count_access-Keeps, Charges, charge_data-Charges}
use apron_gateway_p2p.Usage.Export.{
  ExportResult, ExportReturns, export_all_usage-ExportResult, export_all_usage-returns,
}
use apron_gateway_p2p.Usage.Ledger.{
  Call, http_init, http_data, socket_init, export, Ledger, call, run,
}

-- the outcome of recording data of a request id, by what the id is taken apart into
abbrev pub DataOutcome :
    UsageRecordManager → Bytes → Outcome (Bytes × Bytes) → Outcome UsageRecordManager → Type 0
DataOutcome m id (ok (u, s)) o = Charges m (generate_usage_record_key s u) o
DataOutcome m id (err e) o = ⊥
DataOutcome m id (panic e) o = (o ≡ panic e) × (count_dots id < 2)

module _ (m : UsageRecordManager) (v : IsValid m) (d : ApronServiceData) (up : Bool) where
  data_outcome :
      (info : Outcome (Bytes × Bytes))
      → Extracts d.request_id info
      → DataOutcome m d.request_id info
          (info >>= λ p. charge_data m (generate_usage_record_key p.1 p.0) (length d.raw_data) up)
  data_outcome (ok (u, s)) x =
      charge_data-Charges m v (generate_usage_record_key s u) (length d.raw_data) up
  data_outcome (err e) x = x
  data_outcome (panic e) x = (refl, x)

  -- Recording data with a well-formed manager returns, and leaves it well-formed, if the request id
  -- has two dots or more and its key has a record; in every other case it panics.
  pub record_usage_http_proxy_data-DataOutcome :
      DataOutcome m d.request_id
        (extract_service_info_from_request_id d.request_id)
        (record_usage_http_proxy_data m d up)
  unfolding record_usage_http_proxy_data
  record_usage_http_proxy_data-DataOutcome =
      data_outcome (extract_service_info_from_request_id d.request_id)
        (extract-Extracts d.request_id)

abbrev pub Panics {ℓ} : {A : Type ℓ} → Outcome A → Type 0
Panics (ok a) = ⊥
Panics (err e) = ⊥
Panics (panic e) = Unit

empty-Panics :
    (m : UsageRecordManager)
    → ((k : Bytes) → m.records k ≡ none)
    → (id : Bytes) (info : Outcome (Bytes × Bytes)) (o : Outcome UsageRecordManager)
    → DataOutcome m id info o
    → Panics o
empty-Panics m e id (ok (u, s)) (ok m') x =
    cc (has-none m.records (generate_usage_record_key s u) (e (generate_usage_record_key s u)), x.1)
empty-Panics m e id (ok (u, s)) (err z) x = x
empty-Panics m e id (ok (u, s)) (panic z) x = tt
empty-Panics m e id (err z) o x = absurd x
empty-Panics m e id (panic z) o x = rw x.0 tt

-- Right behind an export of a well-formed manager, over any order of its keys, recording data panics,
-- whichever request the data is of.
pub data_after_export :
    (m m' : UsageRecordManager) (node_id : Bytes) (now : Bytes → ℕ) (keys : List Bytes)
    (report : NodeReport) (d : ApronServiceData) (up : Bool)
    → IsValid m
    → IsRange keys m.locks
    → export_all_usage m node_id now keys ≡ ok (report, m')
    → Panics (record_usage_http_proxy_data m' d up)
data_after_export m m' node_id now keys report d up v range e =
    let x : ExportResult node_id m (ok (report, m')) =
      rw e at (export_all_usage-ExportResult m node_id now keys v range) in
    empty-Panics m' x.no_record d.request_id (extract_service_info_from_request_id d.request_id)
      (record_usage_http_proxy_data m' d up)
      (record_usage_http_proxy_data-DataOutcome m' x.valid d up)

-- A call that does not depend on earlier ones: an access of a well-formed request id, or an export.
abbrev pub IsSafe : Call → Type 0
IsSafe (http_init now req detail) = 2 ≤ count_dots req.request_id
IsSafe (http_data d up) = ⊥
IsSafe (socket_init now req) = 2 ≤ count_dots req.request_id
IsSafe (export node_id now keys) = Unit

abbrev pub AllSafe : List Call → Type 0
AllSafe [] = Unit
AllSafe (c ∷ cs) = IsSafe c × AllSafe cs

abbrev pub Succeeds : Outcome Ledger → Type 0
Succeeds (ok t) = IsValid t.manager
Succeeds (err e) = ⊥
Succeeds (panic e) = ⊥

Succeeds-keep :
    (s : Ledger) (r : Outcome UsageRecordManager)
    → Keeps r
    → Succeeds (do m ← r; ok (record s { manager = m }))
Succeeds-keep s (ok m) k = k
Succeeds-keep s (err e) k = k
Succeeds-keep s (panic e) k = k

access-Succeeds :
    (s : Ledger)
    → IsValid s.manager
    → (id : Bytes) (now up : ℕ) (info : Outcome (Bytes × Bytes)) → Extracts id info
    → 2 ≤ count_dots id
    → Succeeds (do
      m ← (info >>= λ p. count_access s.manager p.0 p.1 now up)
      ok (record s { manager = m }))
access-Succeeds s v id now up (ok (u, i)) x h =
    Succeeds-keep s (count_access s.manager u i now up) (count_access-Keeps s.manager v u i now up)
access-Succeeds s v id now up (err e) x h = x
access-Succeeds s v id now up (panic e) x h = omega arith

export-Succeeds :
    (s : Ledger) (o : Outcome (NodeReport × UsageRecordManager))
    → ExportReturns o
    → Succeeds (o >>= λ q. ok (record { manager = q.1; pinned = s.pinned ++ q.0.records }))
export-Succeeds s (ok (report, m)) x = x
export-Succeeds s (err e) x = x
export-Succeeds s (panic e) x = x

call-Succeeds : (s : Ledger) → IsValid s.manager → (c : Call) → IsSafe c → Succeeds (call s c)
unfolding call record_usage_from_init_http_proxy_request record_usage_from_socket
call-Succeeds s v (http_init now req detail) h =
    access-Succeeds s v req.request_id now (length detail.request_body)
      (extract_service_info_from_request_id req.request_id) (extract-Extracts req.request_id) h
call-Succeeds s v (http_data d up) h = absurd h
call-Succeeds s v (socket_init now req) h =
    access-Succeeds s v req.request_id now 0 (extract_service_info_from_request_id req.request_id)
      (extract-Extracts req.request_id) h
call-Succeeds s v (export node_id now keys) h =
    export-Succeeds s (export_all_usage s.manager node_id now keys)
      (export_all_usage-returns s.manager node_id now keys v)

bind-Succeeds :
    (r : Outcome Ledger) (cs : List Call)
    → Succeeds r
    → ((t : Ledger) → IsValid t.manager → Succeeds (run t cs))
    → Succeeds (r >>= λ t. run t cs)
bind-Succeeds (ok t) cs v next = next t v
bind-Succeeds (err e) cs v next = v
bind-Succeeds (panic e) cs v next = v

-- From any well-formed manager, accesses of request ids with two dots or more and exports, in any order,
-- each called once the one before it has returned, all return, and leave a well-formed manager.
pub run-Succeeds :
    (s : Ledger) (cs : List Call) → IsValid s.manager → AllSafe cs → Succeeds (run s cs)
unfolding run
run-Succeeds s [] v h = v
run-Succeeds s (c ∷ cs) v (h, hs) =
    bind-Succeeds (call s c) cs (call-Succeeds s v c h) (λ t w. run-Succeeds t cs w hs)
