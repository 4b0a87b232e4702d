-- ===== src/Report/System.antt =====
-- A node with its upload task: the manager of internal/models/usage_record_manager.go, and the task of
-- internal/trans_network/node_user_report.go over the agent of internal/ipfs_agent/local_file_agent.go, as
-- cmd/gateway/main.go sets them up.
use apron_gateway_p2p.Prelude.{List, [], ◌∷◌, Bytes}
use apron_gateway_p2p.Outcome.{Outcome, ok, ◌>>=◌}
use apron_gateway_p2p.Models.{NodeReport}
use apron_gateway_p2p.Usage.{
  UsageRecordManager, init, record_usage_from_init_http_proxy_request, record_usage_from_socket,
  record_usage_http_proxy_data,
}
use apron_gateway_p2p.Usage.Ledger.{Call, http_init, http_data, socket_init, export}
use apron_gateway_p2p.Ipfs.{FileSystem, LocalFileAgent, local_file_agent}
use apron_gateway_p2p.Report.{upload_usage_report}

-- a node's manager and the agent of its upload task
pub record System : Type 0 where
  pub manager : UsageRecordManager
  pub agent : LocalFileAgent

abbrev pub with_manager : System → Outcome UsageRecordManager → Outcome System
with_manager s r = do m ← r; ok (record s { manager = m })

-- The last clause is a round of the upload task.
unfoldable pub system_call :
    FileSystem → (NodeReport → Outcome Bytes) → System → Call → Outcome System
system_call fs marshal s (http_init now req detail) =
    with_manager s (record_usage_from_init_http_proxy_request s.manager now req detail)
system_call fs marshal s (http_data d up) =
    with_manager s (record_usage_http_proxy_data s.manager d up)
system_call fs marshal s (socket_init now req) =
    with_manager s (record_usage_from_socket s.manager now req)
system_call fs marshal s (export node_id now keys) = do
  r ← upload_usage_report (local_file_agent fs) marshal node_id now keys (s.agent, s.manager)
  ok (record { manager = r.1; agent = r.0 })

unfoldable pub system_run :
    FileSystem → (NodeReport → Outcome Bytes) → System → List Call → Outcome System
system_run fs marshal s [] = ok s
system_run fs marshal s (c ∷ cs) = system_call fs marshal s c >>= λ t. system_run fs marshal t cs

-- a new node, with an agent that has made no file
abbrev pub new_system : Bytes → Bytes → System
new_system api_key api_secret = record {
  manager = init;
  agent = record { api_key = api_key; api_secret = api_secret; storage_base = []; files = [] };
}
