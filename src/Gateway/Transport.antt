-- ===== src/Gateway/Transport.antt =====
-- Data of a socket connection on its way through two gateways: the loops of
-- internal/trans_network/csgw_socket.go and node_proxy_handler.go, one behind the other.
use apron_gateway_p2p.Prelude.{
  ℕ, ◌≤◌, ◌<◌, ◌≡◌, refl, sym, ap, ◌∙◌, some, List, [], ◌∷◌, ◌++◌, append_assoc, append-nil, Bytes,
  length, map, bytes_eq, le→leb, if◌then◌else◌, length-map,
}
use mathlib.Core.List.{map-append}
use apron_gateway_p2p.Outcome.{Outcome, ok}
use apron_gateway_p2p.Node.{Conn}
use apron_gateway_p2p.Wire.Bufio.{read, read_some, read_held, read_source, bypass}
use apron_gateway_p2p.Wire.Frame.{
  data_ch, IoReader, stream, write_bytes_via_stream, read_bytes_via_stream,
}
use apron_gateway_p2p.Wire.RoundTrip.{Fit}
use apron_gateway_p2p.Wire.Pieces.{writes, NonEmpty, read_one_frame_aligned, read_bytes-writes}
use apron_gateway_p2p.Act.{World, Effect, Exit, Stream, wrote, wrote_conn, done, and_then, pure}
use apron_gateway_p2p.Gateway.Env.{
  Env, proxy_socket_data_from_client_side, proxy_socket_data_from_service_side,
}
use apron_gateway_p2p.Gateway.Routing.{add_effects}
use apron_gateway_p2p.Gateway.Socket.{forward_client_frame, forward_client_frames}
use apron_gateway_p2p.Gateway.Service.{
  proxy_socket_data_handler, serve_sends, forward_socket_response, forward_socket_responses,
}

-- chunks that one `Read` into the buffer of 40960 bytes returns
abbrev pub Chunks : List Bytes → Type 0
Chunks [] = Unit
Chunks (d ∷ ds) = ((0 < length d) × (length d ≤ 40960)) × Chunks ds

read_chunk :
    (d : Bytes) (ds : List Bytes)
    → length d ≤ 40960
    → read_some 40960 (record { held = []; source = d ∷ ds })
      ≡ (some d, record { held = []; source = ds })
unfolding read_some read read_held read_source bypass
read_chunk d ds h = rw (le→leb (length d) 40960 h) refl

pub add_effects_assoc :
    (w : World) (xs ys : List Effect) → add_effects (add_effects w xs) ys ≡ add_effects w (xs ++ ys)
add_effects_assoc w xs ys = λ i. record w { effects = append_assoc w.effects xs ys i }

-- a loop that is through
abbrev pub through : World → Exit (Unit {0}) × World
through w = (done tt, w)

pub no_more : (w : World) → w ≡ add_effects w []
no_more w = λ i. record w { effects = sym (append-nil w.effects) i }

pub ended : (w : World) → through w ≡ through (add_effects w [])
ended w = ap through (no_more w)

module _ (max_alloc : ℕ) where
  -- messages that are not empty and that can be sent and allocated
  abbrev pub Sendable : List Bytes → Type 0
  Sendable ds = Fit max_alloc ds × NonEmpty max_alloc ds

  -- the effects of writing messages
  abbrev pub stream_writes : Stream → List Bytes → List Effect
  stream_writes s ds = map (wrote s) (writes max_alloc ds)

  abbrev pub conn_writes : Conn → List Bytes → List Effect
  conn_writes c ds = map (wrote_conn c) (writes max_alloc ds)

  -- writing one message and then others
  pub wrote_more :
      (write : Bytes → Effect) (w : World) (d : Bytes) (ds : List Bytes)
      → add_effects
          (add_effects w (map write (write_bytes_via_stream d)))
          (map write (writes max_alloc ds))
        ≡ add_effects w (map write (writes max_alloc (d ∷ ds)))
  wrote_more write w d ds =
      add_effects_assoc w (map write (write_bytes_via_stream d)) (map write (writes max_alloc ds))
      ∙ ap (add_effects w) (sym (map-append write (write_bytes_via_stream d) (writes max_alloc ds)))

  pub grown :
      (write : Bytes → Effect) (w : World) (d : Bytes) (ds : List Bytes)
      → through (
          add_effects
            (add_effects w (map write (write_bytes_via_stream d)))
            (map write (writes max_alloc ds)))
        ≡ through (add_effects w (map write (writes max_alloc (d ∷ ds))))
  grown write w d ds = ap through (wrote_more write w d ds)

module _ (env : Env) (max_alloc : ℕ) (id : Bytes) (encode : Bytes → Bytes) where
  -- `proto.Marshal` gives `encode` of the data of a message of this connection, and `proto.Unmarshal`
  -- gives the message back.
  abbrev pub Encodes : Type 0
  Encodes =
      (d : Bytes)
      → (env.marshal_data (record { request_id = id; raw_data = d }) ≡ ok (encode d))
        × (env.unmarshal_data (encode d) ≡ ok (record { request_id = id; raw_data = d }))

  module _ (encodes : Encodes) where
    -- the service side gateway hands data of the client's side to the service
    to_service-each :
        (c : Conn) (ds : List Bytes) (w : World)
        → w.node.service_socket_conns id ≡ some c
        → serve_sends
            (proxy_socket_data_handler env proxy_socket_data_from_client_side)
            (map data_ch (map encode ds))
            w
          ≡ through (add_effects w (conn_writes max_alloc c ds))
    unfolding serve_sends proxy_socket_data_handler bytes_eq
    to_service-each c [] w h = ended w
    to_service-each c (d ∷ ds) w h =
        let both = encodes d in
        rw (both.1) (
          rw h (
            to_service-each c ds (add_effects w (map (wrote_conn c) (write_bytes_via_stream d))) h
            ∙ grown max_alloc (wrote_conn c) w d ds))

    -- and the client side gateway data of the service's side to the client
    to_client-each :
        (c : Conn) (ds : List Bytes) (w : World)
        → w.node.client_socket_conns id ≡ some c
        → serve_sends
            (proxy_socket_data_handler env proxy_socket_data_from_service_side)
            (map data_ch (map encode ds))
            w
          ≡ through (add_effects w (conn_writes max_alloc c ds))
    unfolding serve_sends proxy_socket_data_handler bytes_eq
    to_client-each c [] w h = ended w
    to_client-each c (d ∷ ds) w h =
        let both = encodes d in
        rw (both.1) (
          rw h (
            to_client-each c ds (add_effects w (map (wrote_conn c) (write_bytes_via_stream d))) h
            ∙ grown max_alloc (wrote_conn c) w d ds))

    -- the client side gateway takes the client's frames
    frames-each :
        (conn : Conn) (s : Stream) (ds cs : List Bytes) (w : World)
        → Sendable max_alloc ds
        → forward_client_frames env max_alloc conn id s
            (length ds)
            (stream (writes max_alloc ds ++ cs))
            w
          ≡ through (add_effects w (stream_writes max_alloc s (map encode ds)))
    unfolding forward_client_frames forward_client_frame write_bytes_via_stream
    frames-each conn s [] cs w h = ended w
    frames-each conn s (d ∷ ds) cs w ((short, fits, fit), (pos, nonempty)) =
        let one = read_one_frame_aligned max_alloc d (writes max_alloc ds ++ cs) pos short fits in
        let next : Outcome Bytes × IoReader → Exit (Unit {0}) × World = λ p.
          and_then (forward_client_frame env conn id s p.0 w) (λ goes_on.
            if goes_on
            then forward_client_frames env max_alloc conn id s (length ds) p.1
            else pure tt) in
        ap next one
        ∙ rw ((encodes d).0) (
            frames-each conn s ds cs
              (add_effects w (map (wrote s) (write_bytes_via_stream (encode d)))) (fit, nonempty)
            ∙ grown max_alloc (wrote s) w (encode d) (map encode ds))

    -- the service side gateway takes what the service writes
    responses-each :
        (s : Stream) (ds : List Bytes) (w : World)
        → Chunks ds
        → forward_socket_responses env (ok s) id (length ds) (record { held = []; source = ds }) w
          ≡ through (add_effects w (stream_writes max_alloc s (map encode ds)))
    unfolding forward_socket_responses forward_socket_response
    responses-each s [] w h = ended w
    responses-each s (d ∷ ds) w ((pos, small), h) =
        rw (read_chunk d ds small, (encodes d).0)
          (responses-each s ds (add_effects w (map (wrote s) (write_bytes_via_stream (encode d)))) h
            ∙ grown max_alloc (wrote s) w (encode d) (map encode ds))

    -- what the reader of the service side's stream sends of the messages written there
    pub sends-each :
        (ds : List Bytes)
        → Sendable max_alloc (map encode ds)
        → read_bytes_via_stream max_alloc (length ds) (stream (writes max_alloc (map encode ds)))
          ≡ map data_ch (map encode ds)
    sends-each ds (fit, nonempty) =
        rw (length-map encode ds, append-nil (writes max_alloc (map encode ds))) at
          (read_bytes-writes max_alloc (map encode ds) [] fit nonempty)

    -- Messages of a client go through both gateways: the loop of the client side gateway reads their
    -- frames, each write of which arrives as a piece, and writes the packed messages to its stream; the
    -- service side gateway, reading these pieces, frames to the connection of the request every
    -- message as it was, in order. Messages and packed messages are neither empty nor too long.
    pub client_messages_arrive :
        (conn c : Conn) (s : Stream) (ds : List Bytes) (n : ℕ) (w v : World)
        → length ds ≡ n
        → v.node.service_socket_conns id ≡ some c
        → Sendable max_alloc ds
        → Sendable max_alloc (map encode ds)
        → (forward_client_frames env max_alloc conn id s n (stream (writes max_alloc ds)) w
            ≡ (done tt, add_effects w (stream_writes max_alloc s (map encode ds))))
          × (serve_sends
                (proxy_socket_data_handler env proxy_socket_data_from_client_side)
                (read_bytes_via_stream max_alloc n (stream (writes max_alloc (map encode ds))))
                v
              ≡ (done tt, add_effects v (conn_writes max_alloc c ds)))
    client_messages_arrive conn c s ds n w v count at fits packed = rw (← count) (
      rw (append-nil (writes max_alloc ds)) at (frames-each conn s ds [] w fits),
      rw (sends-each ds packed) (to_service-each c ds v at),
    )

    -- And what a service writes goes back: each of its writes that one read returns, of 40960 bytes at most,
    -- is packed by the service side gateway and framed by the client side gateway to the connection of the request, in
    -- order, though the service has not framed it.
    pub service_writes_arrive :
        (c : Conn) (s : Stream) (ds : List Bytes) (n : ℕ) (w v : World)
        → length ds ≡ n
        → w.node.client_socket_conns id ≡ some c
        → Chunks ds
        → Sendable max_alloc (map encode ds)
        → (forward_socket_responses env (ok s) id n (record { held = []; source = ds }) v
            ≡ (done tt, add_effects v (stream_writes max_alloc s (map encode ds))))
          × (serve_sends
                (proxy_socket_data_handler env proxy_socket_data_from_service_side)
                (read_bytes_via_stream max_alloc n (stream (writes max_alloc (map encode ds))))
                w
              ≡ (done tt, add_effects w (conn_writes max_alloc c ds)))
    service_writes_arrive c s ds n w v count at chunks packed =
        rw (← count)
          (responses-each s ds v chunks, rw (sends-each ds packed) (to_client-each c ds w at))
