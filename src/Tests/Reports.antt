-- ===== src/Tests/Reports.antt =====
-- The accounts of a node with its upload task, on a run with one report (internal/trans_network/node_user_report.go
-- and cmd/report_generator/main.go), with a codec of reports that writes numbers as single values.
use apron_gateway_p2p.Prelude.{
  ℕ, zero, suc, ◌+◌, ◌%◌, ◌≡◌, refl, ap, ◌∙◌, List, [], ◌∷◌, ◌++◌, Bytes, codes, length, take, drop,
  get_or, insert, bytes_eq, take-length-append, drop-length-append, if◌then◌else◌, arith,
}
use mathlib.Core.List.Perm
use apron_gateway_p2p.Outcome.{Outcome, ok, panic, ok-injective}
use apron_gateway_p2p.Models.{NodeReport, ApronUsageRecord}
use apron_gateway_p2p.RequestId.{extract_service_info_from_request_id, generate_usage_record_key}
use apron_gateway_p2p.Usage.{
  u64, init, export_all_usage, record_usage_http_proxy_data,
  record_usage_from_init_http_proxy_request,
}
use apron_gateway_p2p.Usage.Totals.{Meter, reported, held}
use apron_gateway_p2p.Usage.Ledger.{worth_all}
use apron_gateway_p2p.Ipfs.{FileSystem, pin_content}
use apron_gateway_p2p.Report.{report_generator, upload_usage_report}
use apron_gateway_p2p.Report.System.{System, new_system, system_run, system_call}
use apron_gateway_p2p.Report.Pinned.{all_records}
use apron_gateway_p2p.Report.EndToEnd.{system_run-account}
use apron_gateway_p2p.Tests.Accounts.{some_calls, some_ledger}

-- text with its length before it
abbrev put_text : Bytes → Bytes → Bytes
put_text t rest = length t ∷ (t ++ rest)

abbrev text_of : Bytes → Bytes
text_of bs = take (get_or bs 0 0) (drop 1 bs)

abbrev behind_text : Bytes → Bytes
behind_text bs = drop (get_or bs 0 0) (drop 1 bs)

text_of-put_text : (t rest : Bytes) → text_of (put_text t rest) ≡ t
text_of-put_text t rest = take-length-append t rest

behind_text-put_text : (t rest : Bytes) → behind_text (put_text t rest) ≡ rest
behind_text-put_text t rest = drop-length-append t rest

abbrev put_record : ApronUsageRecord → Bytes → Bytes
put_record r rest =
    r.start_ts
    ∷ r.end_ts
    ∷ r.access_count
    ∷ r.upload_traffic
    ∷ r.download_traffic
    ∷ put_text r.user_key (put_text r.service_id rest)

abbrev record_of : Bytes → ApronUsageRecord
record_of bs =
    let texts : Bytes = drop 5 bs in
    record {
      user_key = text_of texts;
      service_id = text_of (behind_text texts);
      start_ts = get_or bs 0 0;
      end_ts = get_or bs 1 0;
      access_count = get_or bs 2 0;
      upload_traffic = get_or bs 3 0;
      download_traffic = get_or bs 4 0;
    }

abbrev behind_record : Bytes → Bytes
behind_record bs = behind_text (behind_text (drop 5 bs))

abbrev put_records : List ApronUsageRecord → Bytes
put_records [] = []
put_records (r ∷ rs) = put_record r (put_records rs)

abbrev records_in : ℕ → Bytes → List ApronUsageRecord
records_in zero bs = []
records_in (suc n) bs = record_of bs ∷ records_in n (behind_record bs)

records_in-put_records : (rs : List ApronUsageRecord) → records_in (length rs) (put_records rs) ≡ rs
records_in-put_records [] = refl
records_in-put_records (r ∷ rs) =
    let rest : Bytes = put_records rs in
    let after_key = behind_text-put_text r.user_key (put_text r.service_id rest) in
    let key = text_of-put_text r.user_key (put_text r.service_id rest) in
    let service = ap text_of after_key ∙ text_of-put_text r.service_id rest in
    let after = ap behind_text after_key ∙ behind_text-put_text r.service_id rest in
    let more = ap (records_in (length rs)) after ∙ records_in-put_records rs in
    λ i. record r { user_key = key i; service_id = service i } ∷ more i

abbrev encode : NodeReport → Outcome Bytes
encode r = ok (put_text r.node_id (length r.records ∷ put_records r.records))

abbrev decode : Bytes → Outcome NodeReport
decode bs =
    let counted : Bytes = behind_text bs in
    ok (record { node_id = text_of bs; records = records_in (get_or counted 0 0) (drop 1 counted) })

decode-encode : (r : NodeReport) (b : Bytes) → encode r ≡ ok b → decode b ≡ ok r
decode-encode r b e =
    let counted : Bytes = length r.records ∷ put_records r.records in
    let id = text_of-put_text r.node_id counted in
    let after = behind_text-put_text r.node_id counted in
    let records =
      ap (λ (bs : Bytes). records_in (get_or bs 0 0) (drop 1 bs)) after
      ∙ records_in-put_records r.records in
    rw (← ok-injective e) (λ i. ok (record { node_id = id i; records = records i }))

-- a file system whose new files are all named alike
abbrev a_file_system : FileSystem
a_file_system = record {
  mkdir_all = λ path. ok tt;
  temp_file = λ dir pattern files. ok (codes "report");
  write = λ name content. ok tt;
  read_file = λ name. ok [];
}

abbrev reported_node : System
reported_node = record {
  manager = some_ledger.manager;
  agent = record {
    api_key = codes "key";
    api_secret = codes "secret";
    storage_base = codes "/tmp/key/secret";
    files =
        (
          codes "report",
          put_text (codes "node") (length some_ledger.pinned ∷ put_records some_ledger.pinned),
        )
        ∷ [];
  };
}

reported_node-run :
    system_run a_file_system encode (new_system (codes "key") (codes "secret")) some_calls
    ≡ ok reported_node
unfolding system_run system_call upload_usage_report pin_content init
    extract_service_info_from_request_id generate_usage_record_key insert bytes_eq
    record_usage_from_init_http_proxy_request record_usage_http_proxy_data export_all_usage
reported_node-run = refl

-- the walk of the one directory that there is
abbrev walk_tmp : Bytes → Outcome (List (Bytes × Bytes))
walk_tmp dir =
    if bytes_eq dir (codes "/tmp/key/secret") then ok reported_node.agent.files else panic []

walked_tmp : walk_tmp (codes "/tmp/key/secret") ≡ ok reported_node.agent.files
unfolding bytes_eq
walked_tmp = refl

system_run-account_example :
    (reports : List NodeReport) × (report_generator walk_tmp decode (codes "key") (codes "secret")
      ≡ ok reports)
    × ((x : Meter) (k : Bytes)
        → (reported x k (all_records reports) + held x k reported_node.manager) % u64
          ≡ worth_all x k some_calls % u64)
system_run-account_example =
    system_run-account a_file_system encode decode walk_tmp (codes "key") (codes "secret")
      some_calls reported_node reported_node.agent.files (omega arith) (omega arith) decode-encode
      reported_node-run (omega arith) walked_tmp (Perm.refl reported_node.agent.files)
