-- ===== src/Usage/Ledger.antt =====
-- Sequential runs of a node's `UsageRecordManager` (internal/models/usage_record_manager.go): accesses and
-- data are recorded, and the reports taken by `ExportAllUsage` are kept, as
-- internal/trans_network/node_user_report.go pins them.
use apron_gateway_p2p.Prelude.{
  ℕ, ◌+◌, ◌%◌, ◌≡◌, refl, Bool, true, false, List, [], ◌∷◌, ◌++◌, Bytes, length, if◌then◌else◌,
  arith,
}
use mathlib.Core.Path.{subst}
use apron_gateway_p2p.Outcome.{Outcome, ok, err, panic, ◌>>=◌, ok-injective}
use apron_gateway_p2p.Models.{
  ApronServiceRequest, ApronServiceData, ApronSocketInitRequest, ApronUsageRecord, NodeReport,
}
use apron_gateway_p2p.RequestDetail.{RequestDetail}
use apron_gateway_p2p.RequestId.{extract_service_info_from_request_id, generate_usage_record_key}
use apron_gateway_p2p.Usage.{
  UsageRecordManager, u64, init, count_access, charge_data, export_all_usage,
  record_usage_from_init_http_proxy_request, record_usage_from_socket, record_usage_http_proxy_data,
}
use apron_gateway_p2p.Usage.Keeps.{
  IsValid, IsValid-init, Keeps, count_access-Keeps, Charges, charge_data-Charges,
}
use apron_gateway_p2p.Usage.Totals.{
  Meter, pick, at_key, held, reported, reported-append, Moves, charge-Moves, count_found-Moves,
}
use apron_gateway_p2p.Usage.Export.{export_all_usage-total}

-- a call of a method, with the time or times that it reads
pub data Call : Type 0 where
  http_init : ℕ → ApronServiceRequest → RequestDetail → Call
  http_data : ApronServiceData → Bool → Call
  socket_init : ℕ → ApronSocketInitRequest → Call
  export : Bytes → (Bytes → ℕ) → List Bytes → Call

-- the manager, and the records of the reports taken so far
pub record Ledger : Type 0 where
  pub manager : UsageRecordManager
  pub pinned : List ApronUsageRecord

abbrev keep : Ledger → Outcome UsageRecordManager → Outcome Ledger
keep s r = do m ← r; ok (record s { manager = m })

unfoldable pub call : Ledger → Call → Outcome Ledger
call s (http_init now req detail) =
    keep s (record_usage_from_init_http_proxy_request s.manager now req detail)
call s (http_data d up) = keep s (record_usage_http_proxy_data s.manager d up)
call s (socket_init now req) = keep s (record_usage_from_socket s.manager now req)
call s (export node_id now keys) = do
  r ← export_all_usage s.manager node_id now keys
  ok (record { manager = r.1; pinned = s.pinned ++ r.0.records })

unfoldable pub run : Ledger → List Call → Outcome Ledger
unfolding call
run s [] = ok s
run s (c ∷ cs) = call s c >>= λ t. run t cs

-- what an access or data of a user and a service charges to a key
abbrev pub at_info : Outcome (Bytes × Bytes) → Bytes → ℕ → ℕ
at_info (ok (u, s)) k n = at_key (generate_usage_record_key s u) k n
at_info (err e) k n = 0
at_info (panic e) k n = 0

abbrev pub at_request : Bytes → Bytes → ℕ → ℕ
at_request request_id = at_info (extract_service_info_from_request_id request_id)

-- What a call is worth to a key: one access and the size of the body for an HTTP request, one access
-- for a socket, the size of the data for data.
unfoldable pub worth : Meter → Bytes → Call → ℕ
worth x k (http_init now req detail) =
    at_request req.request_id k (pick x 1 (length detail.request_body) 0)
worth x k (http_data d true) = at_request d.request_id k (pick x 0 (length d.raw_data) 0)
worth x k (http_data d false) = at_request d.request_id k (pick x 0 0 (length d.raw_data))
worth x k (socket_init now req) = at_request req.request_id k (pick x 1 0 0)
worth x k (export node_id now keys) = 0

unfoldable pub worth_all : Meter → Bytes → List Call → ℕ
worth_all x k [] = 0
worth_all x k (c ∷ cs) = worth x k c + worth_all x k cs

-- all that is known of a key
abbrev pub account : Meter → Bytes → Ledger → ℕ
account x k s = reported x k s.pinned + held x k s.manager

-- A call that returns keeps the invariant and adds what it is worth.
abbrev Adds : Ledger → (Meter → Bytes → ℕ) → Outcome Ledger → Type 0
Adds s n (ok t) =
    IsValid t.manager
    × ((x : Meter) (k : Bytes) → account x k t % u64 ≡ (account x k s + n x k) % u64)
Adds s n (err e) = Unit
Adds s n (panic e) = Unit

keep-Adds :
    (s : Ledger) (n : Meter → Bytes → ℕ) (r : Outcome UsageRecordManager)
    → ((m : UsageRecordManager)
        → r ≡ ok m
        → IsValid m × ((x : Meter) (k : Bytes) → Moves x k (n x k) s.manager m))
    → Adds s n (keep s r)
keep-Adds s n (ok m) h = let (v, moves) = h m refl in (v, λ x k. omega (arith, moves x k))
keep-Adds s n (err e) h = tt
keep-Adds s n (panic e) h = tt

Keeps-IsValid :
    (r : Outcome UsageRecordManager) (m : UsageRecordManager) → Keeps r → r ≡ ok m → IsValid m
Keeps-IsValid (ok m') m k e = subst IsValid (ok-injective e) k
Keeps-IsValid (err z) m k e = absurd k
Keeps-IsValid (panic z) m k e = absurd k

access-Adds :
    (s : Ledger)
    → IsValid s.manager
    → (now up : ℕ) (info : Outcome (Bytes × Bytes))
    → Adds s
        (λ x k. at_info info k (pick x 1 up 0))
        (keep s (info >>= λ p. count_access s.manager p.0 p.1 now up))
unfolding count_access
access-Adds s v now up (ok (u, i)) =
    let key = generate_usage_record_key i u in
    keep-Adds s (λ x k. at_key key k (pick x 1 up 0)) (count_access s.manager u i now up)
      λ m e. (
        Keeps-IsValid (count_access s.manager u i now up) m
            (count_access-Keeps s.manager v u i now up) e,
        λ x k. count_found-Moves x k s.manager m u i now up (s.manager.records key) refl e,
      )
access-Adds s v now up (err e) = tt
access-Adds s v now up (panic e) = tt

Charges-IsValid :
    (m : UsageRecordManager) (key : Bytes) (r : Outcome UsageRecordManager)
    (m' : UsageRecordManager)
    → Charges m key r
    → r ≡ ok m'
    → IsValid m'
Charges-IsValid m key (ok n) m' c e = subst IsValid (ok-injective e) c.0
Charges-IsValid m key (err z) m' c e = absurd c
Charges-IsValid m key (panic z) m' c e = cc

data-Adds :
    (s : Ledger)
    → IsValid s.manager
    → (up : Bool) (size : ℕ) (info : Outcome (Bytes × Bytes))
    → Adds s
        (λ x k. at_info info k (if up then pick x 0 size 0 else pick x 0 0 size))
        (keep s (info >>= λ p. charge_data s.manager (generate_usage_record_key p.1 p.0) size up))
data-Adds s v true size (ok (u, i)) =
    let key = generate_usage_record_key i u in
    keep-Adds s (λ x k. at_key key k (pick x 0 size 0)) (charge_data s.manager key size true)
      λ m e. (
        Charges-IsValid s.manager key (charge_data s.manager key size true) m
            (charge_data-Charges s.manager v key size true) e,
        λ x k.
            charge-Moves x k s.manager m key (s.manager.locks key) (s.manager.records key) 0 size 0
              refl (unfold charge_data in e),
      )
data-Adds s v false size (ok (u, i)) =
    let key = generate_usage_record_key i u in
    keep-Adds s (λ x k. at_key key k (pick x 0 0 size)) (charge_data s.manager key size false)
      λ m e. (
        Charges-IsValid s.manager key (charge_data s.manager key size false) m
            (charge_data-Charges s.manager v key size false) e,
        λ x k.
            charge-Moves x k s.manager m key (s.manager.locks key) (s.manager.records key) 0 0 size
              refl (unfold charge_data in e),
      )
data-Adds s v up size (err e) = tt
data-Adds s v up size (panic e) = tt

export-Adds :
    (s : Ledger)
    → IsValid s.manager
    → (node_id : Bytes) (now : Bytes → ℕ) (keys : List Bytes)
      (r : Outcome (NodeReport × UsageRecordManager))
    → export_all_usage s.manager node_id now keys ≡ r
    → Adds s (λ x k. 0) (r >>= λ q. ok (record { manager = q.1; pinned = s.pinned ++ q.0.records }))
export-Adds s v node_id now keys (ok (report, m)) e =
    let (v', totals) = export_all_usage-total s.manager m node_id now keys report v e in
    (v', λ x k. omega (arith, totals x k, reported-append x k s.pinned report.records))
export-Adds s v node_id now keys (err z) e = tt
export-Adds s v node_id now keys (panic z) e = tt

call-Adds : (s : Ledger) → IsValid s.manager → (c : Call) → Adds s (λ x k. worth x k c) (call s c)
unfolding call worth record_usage_from_init_http_proxy_request record_usage_from_socket
    record_usage_http_proxy_data
call-Adds s v (http_init now req detail) =
    access-Adds s v now (length detail.request_body)
      (extract_service_info_from_request_id req.request_id)
call-Adds s v (http_data d true) =
    data-Adds s v true (length d.raw_data) (extract_service_info_from_request_id d.request_id)
call-Adds s v (http_data d false) =
    data-Adds s v false (length d.raw_data) (extract_service_info_from_request_id d.request_id)
call-Adds s v (socket_init now req) =
    access-Adds s v now 0 (extract_service_info_from_request_id req.request_id)
call-Adds s v (export node_id now keys) =
    export-Adds s v node_id now keys (export_all_usage s.manager node_id now keys) refl

run-Adds-cons :
    (s : Ledger) (c : Call) (cs : List Call) (r : Outcome Ledger)
    → Adds s (λ x k. worth x k c) r
    → ((t : Ledger) → IsValid t.manager → Adds t (λ x k. worth_all x k cs) (run t cs))
    → Adds s (λ x k. worth_all x k (c ∷ cs)) (r >>= λ t. run t cs)
unfolding worth_all
run-Adds-cons s c cs (ok t) (v, adds) ih = weaken (run t cs) (ih t v)
  where
    weaken :
        (o : Outcome Ledger)
        → Adds t (λ x k. worth_all x k cs) o
        → Adds s (λ x k. worth x k c + worth_all x k cs) o
    weaken (ok q) (w, more) = (w, λ x k. omega (arith, adds x k, more x k))
    weaken (err z) h = tt
    weaken (panic z) h = tt
run-Adds-cons s c cs (err z) h ih = tt
run-Adds-cons s c cs (panic z) h ih = tt

run-Adds :
    (s : Ledger)
    → IsValid s.manager
    → (cs : List Call) → Adds s (λ x k. worth_all x k cs) (run s cs)
unfolding run worth_all
run-Adds s v [] = (v, λ x k. omega arith)
run-Adds s v (c ∷ cs) = run-Adds-cons s c cs (call s c) (call-Adds s v c) (λ t w. run-Adds t w cs)

abbrev pub start : Ledger
start = record { manager = init; pinned = [] }

-- After any calls of the manager's methods that run one after another, each called once the one before it
-- has returned, and that all return: for every key and each of the three counters, what has been reported
-- and what is still held add up to what the calls charged to the key, modulo 2^64.
pub run-account :
    (cs : List Call) (t : Ledger)
    → run start cs ≡ ok t
    → (x : Meter) (k : Bytes) → account x k t % u64 ≡ worth_all x k cs % u64
unfolding reported init
run-account cs t e x k =
    omega (
      arith,
      (subst (Adds start (λ y j. worth_all y j cs)) e (run-Adds start IsValid-init cs)).1 x k,
    )
