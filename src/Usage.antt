-- ===== src/Usage.antt =====
-- internal/models/usage_record.go and usage_record_manager.go: the usage records of a node.
-- A method is given as it runs alone, from its start to its end. Nothing in the code makes it run so: a
-- method looks its record up before it takes the record's lock, and the maps are not guarded. The calls of
-- the methods that record are commented out in internal/trans_network/node_proxy_handler.go (lines 43,
-- 161, 166, 189, 214, 287 and 294), so that only the export runs in the program; `Overlap` has what
-- calls that overlap would do. A lock is present or not, and to take one that is not there panics, as
-- does a write through a nil record.
-- `time.Now().UnixMilli()` is an argument.
pub mod Keeps
pub mod Totals
pub mod Export
pub mod Ledger
pub mod Returns
pub mod Overlap
use apron_gateway_p2p.Prelude.{
  ℕ, ◌+◌, ◌%◌, ◌^◌, Bool, true, false, Option, none, some, List, [], ◌∷◌, ◌++◌, Bytes, codes,
  length, GoMap, empty, insert, delete, has, if◌then◌else◌,
}
use apron_gateway_p2p.Outcome.{Outcome, ok, err, panic, ◌>>=◌}
use apron_gateway_p2p.Models.{
  ApronServiceRequest, ApronServiceData, ApronSocketInitRequest, ApronUsageRecord, NodeReport,
}
use apron_gateway_p2p.RequestDetail.{RequestDetail}
use apron_gateway_p2p.RequestId.{extract_service_info_from_request_id, generate_usage_record_key}

abbrev pub u64 : ℕ
u64 = 2 ^ 64

-- `(*ApronUsageRecord).DoRecord`
unfoldable pub do_record : ApronUsageRecord → ℕ → ℕ → ℕ → ApronUsageRecord
do_record r count up_size dw_size = record r {
  access_count = (r.access_count + count) % u64;
  upload_traffic = (r.upload_traffic + up_size) % u64;
  download_traffic = (r.download_traffic + dw_size) % u64;
}

pub record UsageRecordManager : Type 0 where
  pub records : GoMap ApronUsageRecord
  pub locks : GoMap (Unit {0})

-- `Init`
unfoldable pub init : UsageRecordManager
init = record { records = empty; locks = empty }

abbrev pub nil_dereference {ℓ} : {A : Type ℓ} → Outcome A
nil_dereference = panic (codes "runtime error: invalid memory address or nil pointer dereference")

-- `m.locks[key].Lock()` and then `rcd.DoRecord(…)` through the pointer that `m.records[key]` gave
unfoldable pub charge :
    UsageRecordManager
    → Bytes
    → Option (Unit {0})
    → Option ApronUsageRecord
    → ℕ
    → ℕ
    → ℕ
    → Outcome UsageRecordManager
charge m key (some lock) (some rcd) count up_size dw_size =
    ok (record m { records = insert key (do_record rcd count up_size dw_size) m.records })
charge m key _ _ count up_size dw_size = nil_dereference

-- a first access: a new lock and a new record
unfoldable pub open_record : UsageRecordManager → Bytes → Bytes → Bytes → ℕ → ℕ → UsageRecordManager
open_record m key user_key service_id now up_size = record {
  records =
      insert key
        (record {
          user_key = user_key;
          service_id = service_id;
          start_ts = now;
          end_ts = 0;
          access_count = 1;
          upload_traffic = up_size % u64;
          download_traffic = 0;
        })
        m.records;
  locks = insert key tt m.locks;
}

-- behind `rcd, ok := m.records[recordKey]`
unfoldable pub count_found :
    UsageRecordManager
    → Bytes
    → Bytes
    → ℕ
    → ℕ
    → Option ApronUsageRecord
    → Outcome UsageRecordManager
unfolding charge open_record do_record
count_found m user_key service_id now up_size (some rcd) =
    let key = generate_usage_record_key service_id user_key in
    charge m key (m.locks key) (some rcd) 1 up_size 0
count_found m user_key service_id now up_size none =
    ok (
      open_record m (generate_usage_record_key service_id user_key) user_key service_id now up_size)

-- the body shared by the two methods that count an access
unfoldable pub count_access :
    UsageRecordManager → Bytes → Bytes → ℕ → ℕ → Outcome UsageRecordManager
unfolding count_found
count_access m user_key service_id now up_size =
    count_found m user_key service_id now up_size
      (m.records (generate_usage_record_key service_id user_key))

-- `RecordUsageFromInitHttpProxyRequest`
unfoldable pub record_usage_from_init_http_proxy_request :
    UsageRecordManager → ℕ → ApronServiceRequest → RequestDetail → Outcome UsageRecordManager
unfolding count_access
record_usage_from_init_http_proxy_request m now proxy_req req_detail = do
  info ← extract_service_info_from_request_id proxy_req.request_id
  count_access m info.0 info.1 now (length req_detail.request_body)

-- `RecordUsageFromSocket`
unfoldable pub record_usage_from_socket :
    UsageRecordManager → ℕ → ApronSocketInitRequest → Outcome UsageRecordManager
unfolding count_access
record_usage_from_socket m now socket_init_req = do
  info ← extract_service_info_from_request_id socket_init_req.request_id
  count_access m info.0 info.1 now 0

unfoldable pub charge_data : UsageRecordManager → Bytes → ℕ → Bool → Outcome UsageRecordManager
unfolding charge do_record
charge_data m key size is_client_to_service =
    if is_client_to_service
    then charge m key (m.locks key) (m.records key) 0 size 0
    else charge m key (m.locks key) (m.records key) 0 0 size

-- `RecordUsageHttpProxyData`
unfoldable pub record_usage_http_proxy_data :
    UsageRecordManager → ApronServiceData → Bool → Outcome UsageRecordManager
unfolding charge_data
record_usage_http_proxy_data m proxy_data is_client_to_service = do
  info ← extract_service_info_from_request_id proxy_data.request_id
  charge_data m (generate_usage_record_key info.1 info.0) (length proxy_data.raw_data)
      is_client_to_service

abbrev pub stamp : ℕ → ApronUsageRecord → ApronUsageRecord
stamp now r = record r { end_ts = now }

-- One round of the loop of `ExportAllUsage`, on the lock and the record of the key; a key that is
-- gone is not visited, and a write to the clone of a missing record panics.
unfoldable pub export_one :
    ℕ
    → Bytes
    → Option (Unit {0})
    → Option ApronUsageRecord
    → List ApronUsageRecord × UsageRecordManager
    → Outcome (List ApronUsageRecord × UsageRecordManager)
export_one now key none rcd s = ok s
export_one now key (some lock) none s = nil_dereference
export_one now key (some lock) (some rcd) (out, m) = ok (
  out ++ stamp now rcd ∷ [],
  record { records = delete key m.records; locks = delete key m.locks },
)

-- the loop, over an order of the keys of `m.locks`, each visited at its own time
unfoldable pub export_loop :
    (Bytes → ℕ)
    → List Bytes
    → List ApronUsageRecord × UsageRecordManager
    → Outcome (List ApronUsageRecord × UsageRecordManager)
unfolding export_one
export_loop now [] s = ok s
export_loop now (key ∷ keys) s =
    export_one (now key) key (s.1.locks key) (s.1.records key) s >>= export_loop now keys

-- what is returned behind the loop
unfoldable pub finish_export :
    Bytes → List ApronUsageRecord × UsageRecordManager → Outcome (NodeReport × UsageRecordManager)
finish_export node_id (out, m) = ok (record { node_id = node_id; records = out }, m)

-- `ExportAllUsage`: the report, and the manager that is left
unfoldable pub export_all_usage :
    UsageRecordManager
    → Bytes
    → (Bytes → ℕ)
    → List Bytes
    → Outcome (NodeReport × UsageRecordManager)
unfolding export_loop finish_export
export_all_usage m node_id now keys = export_loop now keys ([], m) >>= finish_export node_id
