-- ===== src/Helper/Echo.antt =====
-- A client's messages to the echo service of cmd/socket_helper/main.go, through the two gateways of
-- internal/trans_network and back.
use apron_gateway_p2p.Prelude.{
  ℕ, drop-length-append, ◌≡◌, refl, ap, ◌∙◌, some, List, [], ◌∷◌, ◌++◌, append-nil, Bytes, length,
  map,
}
use apron_gateway_p2p.Outcome.{Outcome, ok, ◌>>=◌, check_error}
use apron_gateway_p2p.Node.{Conn}
use apron_gateway_p2p.Wire.Frame.{IoReader, stream, write_bytes_via_stream, read_bytes_via_stream}
use apron_gateway_p2p.Wire.Pieces.{writes, NonEmpty, read_one_frame_aligned}
use apron_gateway_p2p.Wire.RoundTrip.{Fit}
use apron_gateway_p2p.Act.{World, Stream}
use apron_gateway_p2p.Gateway.Env.{
  Env, proxy_socket_data_from_client_side, proxy_socket_data_from_service_side,
}
use apron_gateway_p2p.Gateway.Routing.{add_effects}
use apron_gateway_p2p.Gateway.Socket.{forward_client_frames}
use apron_gateway_p2p.Gateway.Service.{
  proxy_socket_data_handler, serve_sends, forward_socket_responses,
}
use apron_gateway_p2p.Gateway.Written.{
  stream_pieces, stream_pieces-wrote, conn_pieces, conn_pieces-wrote, added,
}
use apron_gateway_p2p.Gateway.Transport.{
  Chunks, Encodes, Sendable, stream_writes, conn_writes, client_messages_arrive,
  service_writes_arrive,
}
use apron_gateway_p2p.Helper.{read_frames, echo_request_data, receive_data}

module _ (max_alloc : ℕ) where
  read_frames-writes :
      (ds cs : List Bytes)
      → Fit max_alloc ds
      → NonEmpty max_alloc ds
      → read_frames max_alloc (length ds) (stream (writes max_alloc ds ++ cs)) ≡ ok ds
  unfolding read_frames write_bytes_via_stream
  read_frames-writes [] cs fit pos = refl
  read_frames-writes (d ∷ ds) cs (short, fits, fit) (pos, nonempty) =
      let one = read_one_frame_aligned max_alloc d (writes max_alloc ds ++ cs) pos short fits in
      let next : Outcome Bytes × IoReader → Outcome (List Bytes) = λ p.
        check_error p.0 >>= λ data_buf.
        read_frames max_alloc (length ds) p.1 >>= λ rest. ok (data_buf ∷ rest) in
      ap next one ∙ rw (read_frames-writes ds cs fit nonempty) refl

  all_frames :
      (ds : List Bytes)
      → Sendable max_alloc ds
      → read_frames max_alloc (length ds) (stream (writes max_alloc ds)) ≡ ok ds
  all_frames ds (fit, nonempty) =
      rw (append-nil (writes max_alloc ds)) at (read_frames-writes ds [] fit nonempty)

  module _ (env : Env) (id : Bytes) (conn c : Conn) (s r : Stream) where
    -- Messages of a client from its connection `conn` to the client side gateway, over the stream `s` to
    -- the service side gateway, to the echo service at `c`, and back over the stream `r`: what the client reads. What is
    -- written on each of them is read at its other end.
    unfoldable pub echo_exchange : World → World → List Bytes → Outcome (List Bytes)
    unfolding forward_client_frames forward_socket_responses proxy_socket_data_handler serve_sends
    echo_exchange w v ds =
        let n = length ds in
        let w₁ =
          (forward_client_frames env max_alloc conn id s n (stream (writes max_alloc ds)) w).1 in
        let up = read_bytes_via_stream max_alloc n (stream (stream_pieces s (added w w₁))) in
        let v₁ =
          (serve_sends (proxy_socket_data_handler env proxy_socket_data_from_client_side) up v).1 in
        do
          echoed ← echo_request_data max_alloc n (stream (conn_pieces c (added v v₁)))
          let v₂ =
              (forward_socket_responses env (ok r) id n (record { held = []; source = echoed })
                v₁).1
          let down = read_bytes_via_stream max_alloc n (stream (stream_pieces r (added v₁ v₂)))
          let w₂ =
              (serve_sends (proxy_socket_data_handler env proxy_socket_data_from_service_side) down
                w₁).1
          receive_data max_alloc n (stream (conn_pieces conn (added w₁ w₂)))

    -- Every message comes back to the client as it was, in order, when the connection of the request is
    -- `c` at the service side and `conn` at the client side, `proto.Unmarshal` gives back what
    -- `proto.Marshal` packs, messages are of 1 to 40960 bytes, packed ones not empty, both can be
    -- allocated, and each write of a sender arrives as a piece of its own.
    pub echo_exchange-ok :
        (encode : Bytes → Bytes) (w v : World) (ds : List Bytes)
        → Encodes env max_alloc id encode
        → v.node.service_socket_conns id ≡ some c
        → w.node.client_socket_conns id ≡ some conn
        → Chunks ds
        → Sendable max_alloc ds
        → Sendable max_alloc (map encode ds)
        → echo_exchange w v ds ≡ ok ds
    unfolding echo_exchange
    echo_exchange-ok encode w v ds encodes at_service at_client chunks fits packed =
        let bytes = map encode ds in
        let w₁ = add_effects w (stream_writes max_alloc s bytes) in
        let v₁ = add_effects v (conn_writes max_alloc c ds) in
        let (sent, served) =
          client_messages_arrive env max_alloc id encode encodes conn c s ds (length ds) w v refl
            at_service fits packed in
        let (answered, returned) =
          service_writes_arrive env max_alloc id encode encodes conn r ds (length ds) w₁ v₁ refl
            at_client chunks packed in
        rw
          (
            sent,
            drop-length-append w.effects (stream_writes max_alloc s bytes),
            stream_pieces-wrote s (writes max_alloc bytes),
            served,
            drop-length-append v.effects (conn_writes max_alloc c ds),
            conn_pieces-wrote c (writes max_alloc ds),
            all_frames ds fits,
          )
          (rw
            (
              answered,
              drop-length-append v₁.effects (stream_writes max_alloc r bytes),
              stream_pieces-wrote r (writes max_alloc bytes),
              returned,
              drop-length-append w₁.effects (conn_writes max_alloc conn ds),
              conn_pieces-wrote conn (writes max_alloc ds),
            )
            (all_frames ds fits))
