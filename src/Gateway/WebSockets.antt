-- ===== src/Gateway/WebSockets.antt =====
-- Messages of a WebSocket connection through the two gateways: the loops of
-- internal/trans_network/csgw_http.go and node_proxy_handler.go.
use apron_gateway_p2p.Prelude.{
  ℕ, ◌≡◌, ap, ◌∙◌, some, List, [], ◌∷◌, ◌++◌, Bytes, length, map, bytes_eq,
}
use apron_gateway_p2p.Outcome.{ok, err}
use apron_gateway_p2p.Node.{Conn}
use apron_gateway_p2p.Wire.Frame.{data_ch, stream, write_bytes_via_stream, read_bytes_via_stream}
use apron_gateway_p2p.Wire.Pieces.{writes}
use apron_gateway_p2p.Act.{
  WsMessage, text_message, World, Effect, Exit, Stream, wrote, sent_ws, closed, done, returned,
}
use apron_gateway_p2p.Gateway.Env.{
  Env, proxy_ws_data_from_client_side, proxy_ws_data_from_service_side,
}
use apron_gateway_p2p.Gateway.Routing.{add_effects}
use apron_gateway_p2p.Gateway.Http.{forward_ws_message, forward_ws_messages}
use apron_gateway_p2p.Gateway.Service.{
  proxy_ws_data_handler, serve_sends, forward_service_message, forward_service_messages,
}
use apron_gateway_p2p.Gateway.Transport.{
  Encodes, Sendable, stream_writes, through, ended, no_more, grown, wrote_more, sends-each,
  add_effects_assoc,
}

abbrev pub content : WsMessage → Bytes
content (kind, bytes) = bytes

-- an effect for each message
abbrev each_sent : Conn → List Bytes → List Effect
each_sent c ds = map (sent_ws c text_message) ds

sent_grown :
    (c : Conn) (w : World) (d : Bytes) (ds : List Bytes)
    → through (add_effects (add_effects w (sent_ws c text_message d ∷ [])) (each_sent c ds))
      ≡ through (add_effects w (each_sent c (d ∷ ds)))
sent_grown c w d ds =
    ap through (add_effects_assoc w (sent_ws c text_message d ∷ []) (each_sent c ds))

module _ (env : Env) (max_alloc : ℕ) (id : Bytes) (encode : Bytes → Bytes)
    (encodes : Encodes env max_alloc id encode) where
  -- the end of the client's loop, by an error of its read
  abbrev closing : Conn → World → Exit (Unit {0}) × World
  closing conn w = (returned, add_effects w (closed conn ∷ []))

  client-each :
      (conn : Conn) (s : Stream) (ms : List WsMessage) (e : Bytes) (w : World)
      → forward_ws_messages env conn (some s) id (map ok ms ++ err e ∷ []) w
        ≡ closing conn (add_effects w (stream_writes max_alloc s (map encode (map content ms))))
  unfolding forward_ws_messages forward_ws_message
  client-each conn s [] e w = ap (closing conn) (no_more w)
  client-each conn s ((kind, d) ∷ ms) e w = rw ((encodes d).0) (
      client-each conn s ms e (add_effects w (map (wrote s) (write_bytes_via_stream (encode d))))
      ∙ ap (closing conn)
          (wrote_more max_alloc (wrote s) w (encode d) (map encode (map content ms))))

  service-each :
      (s : Stream) (ms : List WsMessage) (w : World)
      → forward_service_messages env s id (map ok ms) w
        ≡ through (add_effects w (stream_writes max_alloc s (map encode (map content ms))))
  unfolding forward_service_messages forward_service_message
  service-each s [] w = ended w
  service-each s ((kind, d) ∷ ms) w = rw ((encodes d).0) (
      service-each s ms (add_effects w (map (wrote s) (write_bytes_via_stream (encode d))))
      ∙ grown max_alloc (wrote s) w (encode d) (map encode (map content ms)))

  to_service-each :
      (c : Conn) (ds : List Bytes) (w : World)
      → w.node.service_ws_conns id ≡ some c
      → serve_sends
          (proxy_ws_data_handler env proxy_ws_data_from_client_side)
          (map data_ch (map encode ds))
          w
        ≡ through (add_effects w (each_sent c ds))
  unfolding serve_sends proxy_ws_data_handler bytes_eq
  to_service-each c [] w h = ended w
  to_service-each c (d ∷ ds) w h = rw ((encodes d).1) (
      rw h (
        to_service-each c ds (add_effects w (sent_ws c text_message d ∷ [])) h
        ∙ sent_grown c w d ds))

  to_client-each :
      (c : Conn) (ds : List Bytes) (w : World)
      → w.node.client_ws_conns id ≡ some c
      → serve_sends
          (proxy_ws_data_handler env proxy_ws_data_from_service_side)
          (map data_ch (map encode ds))
          w
        ≡ through (add_effects w (each_sent c ds))
  unfolding serve_sends proxy_ws_data_handler bytes_eq
  to_client-each c [] w h = ended w
  to_client-each c (d ∷ ds) w h = rw ((encodes d).1) (
      rw h (
        to_client-each c ds (add_effects w (sent_ws c text_message d ∷ [])) h
        ∙ sent_grown c w d ds))

  -- Messages of a WebSocket client reach the service, and those of the service the client: the client side
  -- gateway writes what it reads of the client to its stream, until a read fails and it closes the
  -- connection, and the service side gateway, reading what was written, sends on the connection of the
  -- request, in order, a message with the bytes of each; and likewise back. Whatever type a message
  -- had, it arrives as a text message. For this the connections of the request are `c` and `conn`,
  -- protobuf gives back what it packs, packed messages are not empty and can be allocated, and each write to
  -- a stream arrives as a piece of its own.
  pub ws_messages_arrive :
      (conn c : Conn) (s r : Stream) (up down : List WsMessage) (e : Bytes) (w v : World)
      → v.node.service_ws_conns id ≡ some c
      → w.node.client_ws_conns id ≡ some conn
      → Sendable max_alloc (map encode (map content up))
      → Sendable max_alloc (map encode (map content down))
      → (forward_ws_messages env conn (some s) id (map ok up ++ err e ∷ []) w ≡ (
        returned,
        add_effects
            (add_effects w (stream_writes max_alloc s (map encode (map content up))))
            (closed conn ∷ []),
      ))
        × (serve_sends
              (proxy_ws_data_handler env proxy_ws_data_from_client_side)
              (read_bytes_via_stream max_alloc
                (length (map content up))
                (stream (writes max_alloc (map encode (map content up)))))
              v
            ≡ (done tt, add_effects v (map (sent_ws c text_message) (map content up))))
        × (forward_service_messages env r id (map ok down) v
            ≡ (done tt, add_effects v (stream_writes max_alloc r (map encode (map content down)))))
        × (serve_sends
              (proxy_ws_data_handler env proxy_ws_data_from_service_side)
              (read_bytes_via_stream max_alloc
                (length (map content down))
                (stream (writes max_alloc (map encode (map content down)))))
              w
            ≡ (done tt, add_effects w (map (sent_ws conn text_message) (map content down))))
  ws_messages_arrive conn c s r up down e w v at_service at_client fits fits' =
      let sends = sends-each env max_alloc id encode encodes in
      (
        client-each conn s up e w,
        rw (sends (map content up) fits) (to_service-each c (map content up) v at_service),
        service-each r down v,
        rw (sends (map content down) fits') (to_client-each conn (map content down) w at_client),
      )
