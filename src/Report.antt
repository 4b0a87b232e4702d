-- ===== src/Report.antt =====
-- The reports of usage: `StartUploadUsageReportTask` of internal/trans_network/node_user_report.go, which
-- pins them, and cmd/report_generator/main.go, which reads what the `LocalFileAgent` of
-- cmd/gateway/main.go has pinned. `proto.Marshal` and `proto.Unmarshal` of a report are parameters.
pub mod System
pub mod Pinned
pub mod Follows
pub mod Stored
pub mod EndToEnd
use apron_gateway_p2p.Prelude.{ℕ, List, [], ◌∷◌, ◌++◌, Bytes, codes}
use apron_gateway_p2p.Outcome.{Outcome, ok, err, panic, ◌>>=◌, check_error}
use apron_gateway_p2p.Models.{NodeReport, ApronUsageRecord}
use apron_gateway_p2p.Usage.{UsageRecordManager, export_all_usage}
use apron_gateway_p2p.Ipfs.{IpfsAgent}

module _ {S : Type 0} (agent : IpfsAgent S) (marshal : NodeReport → Outcome Bytes) where
  -- a report with records is pinned
  unfoldable pub pin_report : NodeReport → S → List ApronUsageRecord → Outcome S
  pin_report report s [] = ok s
  pin_report report s (r ∷ rs) = do
    content ← check_error (marshal report)
    pinned ← check_error (agent.pin_content s content)
    ok pinned.1

  -- behind the export; its error is printed
  unfoldable pub upload_report :
      UsageRecordManager
      → S
      → Outcome (NodeReport × UsageRecordManager)
      → Outcome (S × UsageRecordManager)
  unfolding pin_report
  upload_report m s (ok (report, m')) = do s' ← pin_report report s report.records; ok (s', m')
  upload_report m s (err e) = ok (s, m)
  upload_report m s (panic e) = panic e

  -- One round of the loop of `StartUploadUsageReportTask`, on the agent's state and the manager.
  unfoldable pub upload_usage_report :
      Bytes → (Bytes → ℕ) → List Bytes → S × UsageRecordManager → Outcome (S × UsageRecordManager)
  unfolding upload_report
  upload_usage_report node_id now keys (s, m) =
      upload_report m s (export_all_usage m node_id now keys)

-- what the generator prints of a report
abbrev pub printed : List ApronUsageRecord → NodeReport → List NodeReport → List NodeReport
printed [] report rest = rest
printed (r ∷ rs) report rest = report ∷ rest

-- The walk of cmd/report_generator over the files, in its order: the reports that it prints. An error
-- ends it, and the process.
unfoldable pub generate_report :
    (Bytes → Outcome NodeReport) → List (Bytes × Bytes) → Outcome (List NodeReport)
generate_report unmarshal [] = ok []
generate_report unmarshal ((path, content) ∷ files) = do
  report ← check_error (unmarshal content)
  rest ← generate_report unmarshal files
  ok (printed report.records report rest)

-- `fmt.Sprintf("/tmp/%s/%s", *apiKey, *apiSecret)`
abbrev pub base_dir : Bytes → Bytes → Bytes
base_dir api_key api_secret = codes "/tmp/" ++ (api_key ++ (codes "/" ++ api_secret))

-- `main` of cmd/report_generator with its two flags. `walk` stands for `filepath.Walk` and `os.ReadFile`: the
-- files of a directory and their contents, in its order; where it has no directory, the `info` of the
-- callback is nil, and `info.IsDir()` panics.
unfoldable pub report_generator :
    (Bytes → Outcome (List (Bytes × Bytes)))
    → (Bytes → Outcome NodeReport)
    → Bytes
    → Bytes
    → Outcome (List NodeReport)
unfolding generate_report
report_generator walk unmarshal api_key api_secret = do
  files ← walk (base_dir api_key api_secret)
  generate_report unmarshal files
