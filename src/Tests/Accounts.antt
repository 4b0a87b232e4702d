-- ===== src/Tests/Accounts.antt =====
-- Usage records of one user and one service, through internal/models/usage_record_manager.go.
use apron_gateway_p2p.Prelude.{
  ℕ, ◌%◌, ◌≡◌, refl, true, false, none, Bool-cases, inl, inr, List, [], ◌∷◌, Bytes, codes, empty,
  insert, delete, has, contains, bytes_eq, IsRange, arith,
}
use apron_gateway_p2p.Outcome.{ok, ◌>>=◌}
use apron_gateway_p2p.Models.{ApronServiceRequest, ApronServiceData, ApronUsageRecord, NodeReport}
use apron_gateway_p2p.RequestDetail.{RequestDetail, no_detail}
use apron_gateway_p2p.RequestId.{extract_service_info_from_request_id, generate_usage_record_key}
use apron_gateway_p2p.RequestId.Split.{count_dots}
use apron_gateway_p2p.Usage.{
  UsageRecordManager, init, u64, count_access, count_found, charge, nil_dereference,
  export_all_usage, record_usage_http_proxy_data, record_usage_from_init_http_proxy_request,
}
use apron_gateway_p2p.Usage.Keeps.{IsValid, IsValid-init, count_access-Keeps}
use apron_gateway_p2p.Usage.Totals.{accesses, uploads, held}
use apron_gateway_p2p.Usage.Export.{ExportResult, export_all_usage-ExportResult}
use apron_gateway_p2p.Usage.Ledger.{
  Call, http_init, http_data, export, Ledger, run, call, start, account, worth_all, run-account,
}
use apron_gateway_p2p.Usage.Overlap.{opened_twice, first_accesses_overlap, overtaken_by_export}
use apron_gateway_p2p.Usage.Returns.{
  Panics, DataOutcome, record_usage_http_proxy_data-DataOutcome, data_after_export, Succeeds,
  run-Succeeds,
}

abbrev user : Bytes
user = codes "user"

abbrev service : Bytes
service = codes "service"

abbrev request_id : Bytes
request_id = codes "user.service.7"

abbrev pub record_key : Bytes
record_key = codes "service.user"

abbrev opened_record : ApronUsageRecord
opened_record = record {
  user_key = user;
  service_id = service;
  start_ts = 5;
  end_ts = 0;
  access_count = 1;
  upload_traffic = 10;
  download_traffic = 0;
}

-- the manager behind a first access
abbrev one_record : UsageRecordManager
one_record = record {
  records = insert record_key opened_record empty;
  locks = insert record_key tt empty;
}

one_record-IsValid : IsValid one_record
unfolding count_access init generate_usage_record_key
one_record-IsValid = count_access-Keeps init IsValid-init user service 5 10

one_key : IsRange (record_key ∷ []) one_record.locks
unfolding contains has insert
one_key k = elim (Bool-cases (bytes_eq record_key k)) [ inl e ↦ rw e refl | inr e ↦ rw e refl ]

abbrev at_nine : Bytes → ℕ
at_nine k = 9

abbrev the_report : NodeReport
the_report = record { node_id = codes "node"; records = record opened_record { end_ts = 9 } ∷ [] }

abbrev emptied : UsageRecordManager
emptied = record {
  records = delete record_key one_record.records;
  locks = delete record_key one_record.locks;
}

exported :
    export_all_usage one_record (codes "node") at_nine (record_key ∷ []) ≡ ok (the_report, emptied)
unfolding export_all_usage insert bytes_eq
exported = refl

export_all_usage-ExportResult_example :
    ExportResult
      (codes "node")
      one_record
      (export_all_usage one_record (codes "node") at_nine (record_key ∷ []))
export_all_usage-ExportResult_example =
    export_all_usage-ExportResult one_record (codes "node") at_nine (record_key ∷ [])
      one_record-IsValid one_key

abbrev some_data : ApronServiceData
some_data = record { request_id = request_id; raw_data = codes "abc" }

data_after_export_example : Panics (record_usage_http_proxy_data emptied some_data true)
data_after_export_example =
    data_after_export one_record emptied (codes "node") at_nine (record_key ∷ []) the_report
      some_data true one_record-IsValid one_key exported

record_usage_http_proxy_data-DataOutcome_example :
    DataOutcome one_record request_id
      (extract_service_info_from_request_id request_id)
      (record_usage_http_proxy_data one_record some_data false)
record_usage_http_proxy_data-DataOutcome_example =
    record_usage_http_proxy_data-DataOutcome one_record one_record-IsValid some_data false

overtaken_by_export_example :
    (count_found emptied user service 3 7 (one_record.records record_key) ≡ nil_dereference)
    × (charge emptied record_key (emptied.locks record_key) (one_record.records record_key) 0 7 0
        ≡ nil_dereference)
unfolding insert bytes_eq generate_usage_record_key
overtaken_by_export_example =
    overtaken_by_export one_record emptied (codes "node") at_nine (record_key ∷ []) the_report user
      service opened_record 3 7 0 one_record-IsValid one_key refl exported

first_accesses_overlap_example :
    ((count_found init user service 3 7 none >>= λ a. count_found a user service 4 5 none)
      ≡ ok (opened_twice init user service 3 4 7 5))
    × (held accesses record_key (opened_twice init user service 3 4 7 5) ≡ 1)
    × (held uploads record_key (opened_twice init user service 3 4 7 5) ≡ 5)
    × ((a : UsageRecordManager) × ((count_access init user service 3 7 >>= λ b.
            count_access b user service 4 5)
          ≡ ok a)
        × (held accesses record_key a ≡ 2)
        × (held uploads record_key a ≡ 12))
unfolding init generate_usage_record_key
first_accesses_overlap_example = first_accesses_overlap init user service 3 4 7 5 refl

abbrev a_request : ApronServiceRequest
a_request = record {
  service_id = service;
  request_id = request_id;
  peer_id = codes "client";
  is_ws_request = false;
  raw_request = [];
}

abbrev a_detail : RequestDetail
a_detail = record no_detail { request_body = codes "0123456789" }

-- an access, data up, and an export
abbrev pub some_calls : List Call
some_calls =
    http_init 5 a_request a_detail
    ∷ http_data some_data true
    ∷ export (codes "node") at_nine (record_key ∷ [])
    ∷ []

abbrev pub some_ledger : Ledger
some_ledger = record {
  manager = record {
    records =
        delete record_key
          (insert record_key (record opened_record { upload_traffic = 13 }) one_record.records);
    locks = delete record_key one_record.locks;
  };
  pinned = record opened_record { upload_traffic = 13; end_ts = 9 } ∷ [];
}

some_calls-run : run start some_calls ≡ ok some_ledger
unfolding run call init extract_service_info_from_request_id generate_usage_record_key insert
    bytes_eq record_usage_from_init_http_proxy_request record_usage_http_proxy_data export_all_usage
some_calls-run = refl

run-account_example :
    account uploads record_key some_ledger % u64 ≡ worth_all uploads record_key some_calls % u64
run-account_example = run-account some_calls some_ledger some_calls-run uploads record_key

run-Succeeds_example :
    Succeeds (run start (http_init 5 a_request a_detail ∷ export (codes "node") at_nine [] ∷ []))
unfolding count_dots
run-Succeeds_example =
    run-Succeeds start (http_init 5 a_request a_detail ∷ export (codes "node") at_nine [] ∷ [])
      IsValid-init (omega arith, (tt, tt))
