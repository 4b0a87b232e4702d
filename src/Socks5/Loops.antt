-- ===== src/Socks5/Loops.antt =====
-- The loops of the SOCKS5 agents (internal/ext_protocols/socks5), and a session between a client agent and a
-- server agent through the two gateways of internal/trans_network, cut into the way up and the way down.
use apron_gateway_p2p.Prelude.{ℕ, zero, suc, List, [], ◌∷◌, ◌++◌, Bytes, length, map, GoMap}
use apron_gateway_p2p.Outcome.{Outcome, ok, ◌>>=◌}
use apron_gateway_p2p.Node.{Conn}
use apron_gateway_p2p.Wire.Frame.{
  Send, IoReader, stream, buffered, read_one_frame_data_from_stream, read_bytes_via_stream,
}
use apron_gateway_p2p.Act.{World, Stream}
use apron_gateway_p2p.Gateway.Env.{
  Env, proxy_socket_data_from_client_side, proxy_socket_data_from_service_side,
}
use apron_gateway_p2p.Gateway.Socket.{forward_client_frames}
use apron_gateway_p2p.Gateway.Service.{
  proxy_socket_data_handler, serve_sends, forward_socket_responses,
}
use apron_gateway_p2p.Gateway.Written.{stream_pieces, conn_pieces, added}
use apron_gateway_p2p.Socks5.Const.{ApronSocks5ConnectRequest}
use apron_gateway_p2p.Socks5.Agent.{
  AgentEnv, Output, to_service, to_peer, Next, again, stop, send_connect_message, server_round,
  forward_service_response, client_to_gateway, gateway_to_client,
}

-- a round of a loop of `proxyDataFromClient`, and the rounds that follow it
abbrev pub and_on : Outcome (List Bytes) → Next × List Bytes → Outcome (List Bytes)
and_on rest (again, out) = do more ← rest; ok (out ++ more)
and_on rest (stop, out) = ok out

module _ (env : AgentEnv) where
  -- The loop from the client to the gateway, on what it reads of the client: what it writes.
  unfoldable pub client_to_gateway_loop : Bytes → List (Outcome Bytes) → Outcome (List Bytes)
  unfolding client_to_gateway
  client_to_gateway_loop request_id [] = ok []
  client_to_gateway_loop request_id (chunk ∷ chunks) =
      client_to_gateway env request_id chunk >>= and_on (client_to_gateway_loop request_id chunks)

  -- The first rounds of the loop from the gateway to the client, each with a reader of its own: what it
  -- writes.
  unfoldable pub gateway_to_client_loop : ℕ → ℕ → IoReader → Outcome (List Bytes)
  unfolding gateway_to_client read_one_frame_data_from_stream
  gateway_to_client_loop max_alloc zero rd = ok []
  gateway_to_client_loop max_alloc (suc n) rd =
      let (frame, rd') = read_one_frame_data_from_stream max_alloc rd in
      gateway_to_client env frame >>= and_on (gateway_to_client_loop max_alloc n rd')

  -- The server agent's loop over what its `select` receives: its connections and what it writes.
  unfoldable pub server_loop : GoMap Conn → List Send → Outcome (GoMap Conn × List Output)
  unfolding server_round
  server_loop conns [] = ok (conns, [])
  server_loop conns (x ∷ xs) = do
    (conns', out) ← server_round env conns x
    (conns'', more) ← server_loop conns' xs
    ok (conns'', out ++ more)

  -- The goroutine of the server agent for a service, on what it reads of it: what it writes to its peer.
  unfoldable pub service_loop : Bytes → List (Outcome Bytes) → Outcome (List Output)
  unfolding forward_service_response
  service_loop request_id [] = ok []
  service_loop request_id (chunk ∷ chunks) = do
    out ← forward_service_response env request_id chunk
    more ← service_loop request_id chunks
    ok (out ++ more)

-- the pieces that a server agent writes to its peer
abbrev pub peer_pieces : List Output → List Bytes
peer_pieces [] = []
peer_pieces (to_service c bytes ∷ os) = peer_pieces os
peer_pieces (to_peer bytes ∷ os) = bytes ∷ peer_pieces os

-- A session has an id of the client agent, `id`, and one of the client side gateway, `request_id`.
module _ (client server : AgentEnv) (env : Env) (max_alloc : ℕ) (id request_id : Bytes)
    (conn c : Conn) (s r : Stream) where
  -- The way up, between the connections `conn` of the client agent and `c` of the server agent and over the
  -- stream `s`: from a SOCKS5 request and what the client sends to what the server agent writes.
  unfoldable pub socks_up :
      World
      → World
      → GoMap Conn
      → ApronSocks5ConnectRequest
      → List Bytes
      → Outcome (GoMap Conn × List Output)
  unfolding client_to_gateway_loop server_loop forward_client_frames proxy_socket_data_handler
      serve_sends send_connect_message
  socks_up w v conns req chunks =
      let n = suc (length chunks) in
      do
        first ← send_connect_message client id req
        more ← client_to_gateway_loop client id (map ok chunks)
        let w₁ =
            (forward_client_frames env max_alloc conn request_id s n (stream (first ++ more)) w).1
        let up = read_bytes_via_stream max_alloc n (stream (stream_pieces s (added w w₁)))
        let v₁ =
            (serve_sends (proxy_socket_data_handler env proxy_socket_data_from_client_side) up v).1
        server_loop server conns (
            read_bytes_via_stream max_alloc n
              (buffered (record { held = []; source = conn_pieces c (added v v₁) })))

  -- The way down, over the stream `r`: from what the service sends to what the client agent writes to
  -- its client.
  unfoldable pub socks_down : World → World → List Bytes → Outcome (List Bytes)
  unfolding gateway_to_client_loop service_loop forward_socket_responses proxy_socket_data_handler
      serve_sends
  socks_down w v chunks =
      let n = length chunks in
      do
        out ← service_loop server id (map ok chunks)
        let v₁ =
            (forward_socket_responses env (ok r) request_id n
              (record { held = []; source = peer_pieces out }) v).1
        let down = read_bytes_via_stream max_alloc n (stream (stream_pieces r (added v v₁)))
        let w₁ =
            (serve_sends (proxy_socket_data_handler env proxy_socket_data_from_service_side) down
              w).1
        gateway_to_client_loop client max_alloc n (stream (conn_pieces conn (added w w₁)))
