-- ===== src/Socks5/Agent.antt =====
-- The messages of the SOCKS5 agents: one round of the loops of `serveConnection` in server mode and of
-- `proxyDataFromClient` of internal/ext_protocols/socks5. `proto.Marshal`, `proto.Unmarshal`, and the
-- binary codec of a connect request are parameters, as are UUIDs and the connection to the service.
use apron_gateway_p2p.Prelude.{
  ℕ, false, Option, none, some, List, [], ◌∷◌, Bytes, codes, GoMap, insert, bytes_eq, ◌==◌,
  if◌then◌else◌,
}
use apron_gateway_p2p.Outcome.{Outcome, ok, err, panic, check_error, ◌>>=◌}
use apron_gateway_p2p.Models.{ApronService, ExtServiceData}
use apron_gateway_p2p.Node.{Conn}
use apron_gateway_p2p.Wire.Bufio.{eof}
use apron_gateway_p2p.Wire.Frame.{Send, data_ch, err_ch, write_bytes_via_stream}
use apron_gateway_p2p.Socks5.Const.{
  ApronSocks5ConnectRequest, socks5_service_name, socks5_connect_message, socks5_data_message,
}

-- the service that `prepareAgent` registers in server mode
unfoldable pub agent_service : Bytes → Bytes → ApronService
agent_service agent_id listen_addr = record {
  id = agent_id;
  name = agent_id;
  desc = [];
  logo = [];
  usage = [];
  user_id = [];
  providers =
      (record {
        id = agent_id;
        name = agent_id;
        desc = [];
        created_at = 0;
        updated_at = 0;
        extra_detail = [];
        base_url = listen_addr;
        schema = codes "tcp";
        network_type = 0;
      })
      ∷ [];
  is_deleted = false;
}

pub record AgentEnv : Type 0 where
  pub uuid : Bytes
  pub marshal : ExtServiceData → Outcome Bytes
  pub unmarshal : Bytes → Outcome ExtServiceData
  pub encode_connect : ApronSocks5ConnectRequest → Outcome Bytes
  pub decode_connect : Bytes → Outcome ApronSocks5ConnectRequest
  -- `connectToSocks5Service`, with its dial
  pub connect : ApronSocks5ConnectRequest → Outcome Conn

-- what an agent writes: to a connection with the service, or to the other end of its own connection
pub data Output : Type 0 where
  to_service : Conn → Bytes → Output
  to_peer : Bytes → Output

-- whether a loop goes on
pub data Next : Type 0 where
  again stop : Next

module _ (env : AgentEnv) where
  abbrev pub message : Bytes → ℕ → Bytes → ExtServiceData
  message request_id content_type content = record {
    service_name = socks5_service_name;
    request_id = request_id;
    msg_id = env.uuid;
    content_type = content_type;
    content = content;
  }

  -- the first message of a connection, framed to the client side gateway
  unfoldable pub send_connect_message : Bytes → ApronSocks5ConnectRequest → Outcome (List Bytes)
  send_connect_message request_id req = do
    content ← check_error (env.encode_connect req)
    bytes ← check_error (env.marshal (message request_id socks5_connect_message content))
    ok (write_bytes_via_stream bytes)

  -- a write to the connection of a request, which panics on a missing one
  unfoldable pub write_service : Option Conn → Bytes → Outcome (List Output)
  write_service none content =
      panic (codes "runtime error: invalid memory address or nil pointer dereference")
  write_service (some c) content = ok (to_service c content ∷ [])

  abbrev pub Connections : Type 0
  Connections = GoMap Conn

  -- the `switch` on the content type
  unfoldable pub dispatch : Connections → ExtServiceData → Outcome (Connections × List Output)
  unfolding write_service
  dispatch conns d =
      if d.content_type == socks5_connect_message
      then (do
        req ← check_error (env.decode_connect d.content)
        conn ← check_error (env.connect req)
        ok (insert d.request_id conn conns, []))
      else if d.content_type == socks5_data_message
      then (do out ← write_service (conns d.request_id) d.content; ok (conns, out))
      else ok (conns, [])

  -- one round of the server agent's loop
  unfoldable pub server_round : Connections → Send → Outcome (Connections × List Output)
  unfolding dispatch
  server_round conns (err_ch e) = panic (codes "got error message while reading data from stream")
  server_round conns (data_ch bytes) = do
    d ← check_error (env.unmarshal bytes)
    if bytes_eq d.service_name socks5_service_name
        then dispatch conns d
        else panic (codes "wrong service name")

  -- A round of its goroutine for a service: the response is written unframed.
  unfoldable pub forward_service_response : Bytes → Outcome Bytes → Outcome (List Output)
  forward_service_response request_id received = do
    content ← check_error received
    bytes ← check_error (env.marshal (message request_id socks5_data_message content))
    ok (to_peer bytes ∷ [])

  -- an error in a loop of `proxyDataFromClient`: only EOF ends it
  abbrev pub after_error : Bytes → Next
  after_error e = if bytes_eq e eof then stop else again

  unfoldable pub client_marshalled : Outcome Bytes → Outcome (Next × List Bytes)
  client_marshalled (ok bytes) = ok (again, write_bytes_via_stream bytes)
  client_marshalled (err e) = ok (after_error e, [])
  client_marshalled (panic e) = panic e

  -- a round of the loop from the client to the gateway: what is written to the gateway
  unfoldable pub client_to_gateway : Bytes → Outcome Bytes → Outcome (Next × List Bytes)
  unfolding client_marshalled
  client_to_gateway request_id (ok content) =
      client_marshalled (env.marshal (message request_id socks5_data_message content))
  client_to_gateway request_id (err e) = ok (after_error e, [])
  client_to_gateway request_id (panic e) = panic e

  unfoldable pub client_unmarshalled : Outcome ExtServiceData → Outcome (Next × List Bytes)
  client_unmarshalled (ok d) = ok (again, d.content ∷ [])
  client_unmarshalled (err e) = ok (after_error e, [])
  client_unmarshalled (panic e) = panic e

  -- a round of the loop from the gateway to the client, on a frame: what is written to the client
  unfoldable pub gateway_to_client : Outcome Bytes → Outcome (Next × List Bytes)
  unfolding client_unmarshalled
  gateway_to_client (ok bytes) = client_unmarshalled (env.unmarshal bytes)
  gateway_to_client (err e) = ok (after_error e, [])
  gateway_to_client (panic e) = panic e
