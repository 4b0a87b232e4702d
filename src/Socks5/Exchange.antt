-- ===== src/Socks5/Exchange.antt =====
-- A SOCKS5 session between its agents (internal/ext_protocols/socks5), through the two gateways of
-- internal/trans_network: the client's request and data on the way up, and the service's answers on the way
-- down.
use apron_gateway_p2p.Prelude.{
  ℕ, suc, ◌≡◌, sym, ap, ◌∙◌, some, List, [], ◌∷◌, append-nil, Bytes, length, map, length-map, GoMap,
  insert, drop-length-append,
}
use apron_gateway_p2p.Outcome.{ok}
use apron_gateway_p2p.Node.{Conn}
use apron_gateway_p2p.Wire.Frame.{data_ch, buffered, read_bytes_via_stream}
use apron_gateway_p2p.Wire.Pieces.{writes}
use apron_gateway_p2p.Wire.RoundTrip.{Fit, written, read_bytes-write_bytes}
use apron_gateway_p2p.Act.{World, Stream}
use apron_gateway_p2p.Gateway.Env.{Env}
use apron_gateway_p2p.Gateway.Written.{stream_pieces-wrote, conn_pieces-wrote}
use apron_gateway_p2p.Gateway.Transport.{
  Chunks, Encodes, Sendable, stream_writes, conn_writes, client_messages_arrive,
  service_writes_arrive,
}
use apron_gateway_p2p.Socks5.Const.{
  ApronSocks5ConnectRequest, socks5_connect_message, socks5_data_message,
}
use apron_gateway_p2p.Socks5.Agent.{AgentEnv, to_service}
use apron_gateway_p2p.Socks5.Loops.{socks_up, socks_down}
use apron_gateway_p2p.Socks5.Rounds.{
  Packs, concat-writes, client_loop-writes, first-writes, server_loop-session, service_loop-peer,
  gateway_loop-datas, peer_pieces-to_peer,
}

module _ (max_alloc : ℕ) (id request_id : Bytes) (env : Env) (conn c : Conn) (s r : Stream)
    (encode : Bytes → Bytes) (encodes : Encodes env max_alloc request_id encode)
    (pack : ℕ → Bytes → Bytes) (client server : AgentEnv) (w v : World) where
  -- what the server agent's reader sends of the pieces of its connection
  agent_sends :
      (ms : List Bytes) (n : ℕ)
      → length ms ≡ n
      → Fit max_alloc ms
      → read_bytes_via_stream max_alloc n
          (buffered (record { held = []; source = writes max_alloc ms }))
        ≡ map data_ch ms
  agent_sends ms n count fit = rw (← count) (
      read_bytes-write_bytes max_alloc ms [] (record { held = []; source = writes max_alloc ms })
        fit (concat-writes max_alloc ms ∙ sym (append-nil (written max_alloc ms))))

  -- A client's SOCKS5 request and what it sends behind it reach its service: the server agent connects
  -- as requested, keeps the connection under the client agent's id of the session, and writes to it each chunk that the client
  -- agent has read, as it was and in order. For this the connection of the gateways' request id is `c` at the
  -- service side gateway, protobuf and the codec of the request give back what they pack, packed
  -- messages are not empty and can be allocated, and each write of a sender to a gateway arrives as a
  -- piece of its own.
  pub socks_up-arrives :
      (sc : Conn) (req : ApronSocks5ConnectRequest) (content : Bytes) (chunks : List Bytes)
      (conns : GoMap Conn)
      → Packs client server id pack
      → client.encode_connect req ≡ ok content
      → server.decode_connect content ≡ ok req
      → server.connect req ≡ ok sc
      → v.node.service_socket_conns request_id ≡ some c
      → Sendable max_alloc
          (pack socks5_connect_message content ∷ map (pack socks5_data_message) chunks)
      → Sendable max_alloc
          (map encode (pack socks5_connect_message content ∷ map (pack socks5_data_message) chunks))
      → socks_up client server env max_alloc id request_id conn c s r w v conns req chunks
        ≡ ok (insert id sc conns, map (to_service sc) chunks)
  unfolding socks_up
  socks_up-arrives sc req content chunks conns packs enc dec connects at fits packed =
      let ms = pack socks5_connect_message content ∷ map (pack socks5_data_message) chunks in
      let n = suc (length chunks) in
      let count : length ms ≡ n = ap suc (length-map (pack socks5_data_message) chunks) in
      let (sent, served) =
        client_messages_arrive env max_alloc request_id encode encodes conn c s ms n w v count at
          fits packed in
      rw
        (
          first-writes max_alloc id pack client server packs req content enc,
          client_loop-writes max_alloc id pack client server packs chunks,
          sent,
          drop-length-append w.effects (stream_writes max_alloc s (map encode ms)),
          stream_pieces-wrote s (writes max_alloc (map encode ms)),
          served,
          drop-length-append v.effects (conn_writes max_alloc c ms),
          conn_pieces-wrote c (writes max_alloc ms),
          agent_sends ms n count fits.0,
        )
        (server_loop-session max_alloc id pack client server packs sc req content chunks conns dec
          connects)

  -- What the service sends goes back to the client: the client agent writes to it each chunk that the server
  -- agent has read of the service, as it was and in order. For this the connection of the gateways' request id is
  -- `conn` at the client side gateway, protobuf gives back what it packs, packed messages are of 1 to 40960
  -- bytes and can be allocated, and each write of a sender arrives as a piece of its own.
  pub socks_down-arrives :
      (chunks : List Bytes)
      → Packs server client id pack
      → w.node.client_socket_conns request_id ≡ some conn
      → Chunks (map (pack socks5_data_message) chunks)
      → Sendable max_alloc (map (pack socks5_data_message) chunks)
      → Sendable max_alloc (map encode (map (pack socks5_data_message) chunks))
      → socks_down client server env max_alloc id request_id conn c s r w v chunks ≡ ok chunks
  unfolding socks_down
  socks_down-arrives chunks packs at small fits packed =
      let ms = map (pack socks5_data_message) chunks in
      let count = length-map (pack socks5_data_message) chunks in
      let (answered, returned) =
        service_writes_arrive env max_alloc request_id encode encodes conn r ms (length chunks) w v
          count at small packed in
      let read = gateway_loop-datas max_alloc id pack server client packs chunks [] fits in
      rw
        (
          service_loop-peer max_alloc id pack server client packs chunks,
          peer_pieces-to_peer ms,
          answered,
          drop-length-append v.effects (stream_writes max_alloc r (map encode ms)),
          stream_pieces-wrote r (writes max_alloc (map encode ms)),
          returned,
          drop-length-append w.effects (conn_writes max_alloc conn ms),
          conn_pieces-wrote conn (writes max_alloc ms),
        )
        (rw (append-nil (writes max_alloc ms)) at read)
