-- ===== src/Socks5/Session.antt =====
-- A client's connection at the client agent: `serveConnection` in client mode of
-- internal/ext_protocols/socks5/apron_agent_server.go, and `connectToCsgwAndSendInitRequest` of
-- apron_client_agent.go. All sessions share `agentConfig.RemoteSocketConn`, which each sets when it connects
-- and reads again later; the code is cut where it waits in between.
use apron_gateway_p2p.Prelude.{Option, none, some, List, [], ◌∷◌, ◌++◌, Bytes, codes, map}
use apron_gateway_p2p.Outcome.{Outcome, ok, err, panic}
use apron_gateway_p2p.Models.{ApronSocketInitRequest}
use apron_gateway_p2p.Node.{Conn}
use apron_gateway_p2p.RequestId.{new_request_id}
use apron_gateway_p2p.Wire.Frame.{write_bytes_via_stream}
use apron_gateway_p2p.Socks5.Const.{ApronSocks5ConnectRequest}
use apron_gateway_p2p.Socks5.Agent.{AgentEnv, send_connect_message}

-- what the sessions of a client agent write
pub data Wrote : Type 0 where
  to_gateway : Conn → Bytes → Wrote
  to_client : Bytes → Wrote

-- `agentConfig.RemoteSocketConn`, and all that has been written
pub record Shared : Type 0 where
  pub remote : Option Conn
  pub wrote : List Wrote

-- `os.LookupEnv("APRON_SOCKS_SERVICE_ID")`, `net.Dial`, `uuid.New` and `proto.Marshal` of the init request
pub record CsgwEnv : Type 0 where
  pub lookup_env : Option Bytes
  pub dial : Outcome Conn
  pub uuid : Bytes
  pub marshal_init : ApronSocketInitRequest → Outcome Bytes

abbrev pub service_id_of : Option Bytes → Bytes
service_id_of none = codes "apron_hello_socks5"
service_id_of (some id) = id

-- `requestBytes, _ := proto.Marshal(…)`
abbrev pub bytes_or_nil : Outcome Bytes → Bytes
bytes_or_nil (ok bytes) = bytes
bytes_or_nil (err e) = []
bytes_or_nil (panic e) = []

abbrev pub add_writes : Shared → List Wrote → Shared
add_writes s ws = record s { wrote = s.wrote ++ ws }

-- behind the dial
unfoldable pub send_init_request : CsgwEnv → Shared → Outcome Conn → Outcome Bytes × Shared
send_init_request env s (ok conn) =
    let service_id = service_id_of env.lookup_env in
    let request_id = new_request_id (codes "shouldBeUid") service_id env.uuid in
    let request : ApronSocketInitRequest = record {
      service_id = service_id;
      request_id = request_id;
      peer_id = [];
      user_id = [];
    } in
    (
      ok request_id,
      record {
        remote = some conn;
        wrote =
            s.wrote
            ++ map (to_gateway conn)
                (write_bytes_via_stream (bytes_or_nil (env.marshal_init request)));
      },
    )
send_init_request env s (err e) = (err e, s)
send_init_request env s (panic e) = (panic e, s)

-- `connectToCsgwAndSendInitRequest`
unfoldable pub connect_to_csgw_and_send_init_request : CsgwEnv → Shared → Outcome Bytes × Shared
unfolding send_init_request
connect_to_csgw_and_send_init_request env s = send_init_request env s env.dial

-- the answer to the client's SOCKS5 request, before anything is known of the service
abbrev pub socks5_success : Bytes
socks5_success = 5 ∷ 0 ∷ 0 ∷ 1 ∷ 0 ∷ 0 ∷ 0 ∷ 0 ∷ 0 ∷ 0 ∷ []

-- a write to `RemoteSocketConn`, which panics on nil
unfoldable pub write_remote : List Bytes → Shared → Option Conn → Outcome (Unit {0}) × Shared
write_remote frames s none =
    (panic (codes "runtime error: invalid memory address or nil pointer dereference"), s)
write_remote frames s (some conn) =
    (ok tt, add_writes s (map (to_gateway conn) frames ++ to_client socks5_success ∷ []))

-- behind the marshalling, whose errors panic
unfoldable pub write_connect_message : Shared → Outcome (List Bytes) → Outcome (Unit {0}) × Shared
unfolding write_remote
write_connect_message s (ok frames) = write_remote frames s s.remote
write_connect_message s (err e) = (panic e, s)
write_connect_message s (panic e) = (panic e, s)

-- The rest of the client mode, on what `buildSocks5ConnectRequest` gives: a request and what it has
-- written to the client, or an error, which panics.
unfoldable pub serve_client_request :
    AgentEnv
    → Bytes
    → Outcome (ApronSocks5ConnectRequest × Bytes)
    → Shared
    → Outcome (Unit {0}) × Shared
unfolding write_connect_message send_connect_message
serve_client_request env request_id (ok (req, answer)) s =
    write_connect_message (add_writes s (to_client answer ∷ []))
      (send_connect_message env request_id req)
serve_client_request env request_id (err e) s = (panic e, s)
serve_client_request env request_id (panic e) s = (panic e, s)

-- the two goroutines of `proxyDataFromClient` are given the connection as it is when they start
abbrev pub proxy_data_conn : Shared → Option Conn
proxy_data_conn s = s.remote
