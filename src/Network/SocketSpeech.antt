-- ===== src/Network/SocketSpeech.antt =====
-- What the tasks for sockets write to streams (internal/trans_network/csgw_socket.go).
use apron_gateway_p2p.Prelude.{
  ℕ, zero, suc, ◌≡◌, refl, true, false, Option, none, some, List, [], ◌∷◌, Bytes, insert, bytes_eq,
}
use apron_gateway_p2p.Outcome.{Outcome, ok, err, panic}
use apron_gateway_p2p.Models.{
  ApronService, ApronServiceProvider, ApronServiceData, ApronSocketServiceRequest,
}
use apron_gateway_p2p.Node.{PeerId, Conn}
use apron_gateway_p2p.Wire.Bufio.{eof}
use apron_gateway_p2p.Wire.Frame.{IoReader, read_one_frame_data_from_stream}
use apron_gateway_p2p.Act.{
  Act, Stream, pure, stop, emit, get_node, put_node, write_frame, opened, closed, wrote_conn, ◌>>=◌,
  ◌>>◌,
}
use apron_gateway_p2p.Act.Frames.{Frame}
use apron_gateway_p2p.Act.Writes.{
  Writes-then, Writes, Writes-bind, Writes-after, Writes-pure, Writes-checked, Writes-stop,
  Writes-emit, Writes-write_frame,
}
use apron_gateway_p2p.Gateway.Env.{Env, proxy_socket_init_req, proxy_socket_data_from_client_side}
use apron_gateway_p2p.Gateway.Http.{register_request_id}
use apron_gateway_p2p.Gateway.Socket.{
  refuse, require_peer, require_service, require_providers, require_stream, connect,
  handle_socket_init, forward_client_frame, forward_client_frames,
}
use apron_gateway_p2p.Gateway.Tasks.{Opened}
use apron_gateway_p2p.Network.Protocols.{
  Compatible, Understood, socket_init-Understood, socket_client-Understood,
}
use apron_gateway_p2p.Network.Silence.{writes_rules, branch-Writes}

module _ (P : Frame → Type 0) where
  refuse-Writes :
      {A : Type 0} (conn : Conn) (message : Bytes) → Writes P (refuse {A = A} conn message)
  refuse-Writes conn message =
      Writes-bind (emit (wrote_conn conn message)) (λ u. stop)
        (Writes-emit (wrote_conn conn message) tt) (λ u. Writes-stop)

  peer-Writes : (conn : Conn) (o : Option PeerId) → Writes P (require_peer conn o)
  unfolding require_peer
  peer-Writes conn none = refuse-Writes conn _
  peer-Writes conn (some p) = search writes_rules

  service-Writes : (conn : Conn) (o : Option ApronService) → Writes P (require_service conn o)
  unfolding require_service
  service-Writes conn none = refuse-Writes conn _
  service-Writes conn (some s) = search writes_rules

  providers-Writes :
      (conn : Conn) (ps : List ApronServiceProvider) → Writes P (require_providers conn ps)
  unfolding require_providers
  providers-Writes conn [] = refuse-Writes conn _
  providers-Writes conn (p ∷ ps) = search writes_rules

  opened-Writes : (t : Stream) → Writes P (emit (opened t))
  opened-Writes t = Writes-emit (opened t) tt

  closed-Writes : (conn : Conn) → Writes P (emit (closed conn))
  closed-Writes conn = Writes-emit (closed conn) tt

  stream-Writes : (o : Outcome Stream) → Writes P (require_stream o)
  unfolding require_stream
  stream-Writes (ok s) = search (writes_rules, opened-Writes)
  stream-Writes (err e) = search writes_rules
  stream-Writes (panic e) = search writes_rules

  register-Writes : (id : Bytes) → Writes P (register_request_id id)
  register-Writes id = search writes_rules

  -- behind a stream that is opened
  after_stream-Writes :
      {B : Type 0} (o : Outcome Stream) (f : Stream → Act B)
      → ((t : Stream) → o ≡ ok t → Writes P (f t))
      → Writes P (require_stream o >>= f)
  unfolding require_stream
  after_stream-Writes (ok t) f k =
      Writes-bind (emit (opened t)) (λ u. f t) (opened-Writes t) (λ u. k t refl)
  after_stream-Writes {B = B} (err e) f k = record { at = λ w. (Writes-stop {A = B}).at w }
  after_stream-Writes {B = B} (panic e) f k = record {
    at = λ w. (Writes-checked {A = B} (panic e)).at w;
  }

module _ (env receiver : Env) (c : Compatible env receiver) where
  abbrev P : Frame → Type 0
  P = Understood env receiver

  ruleset socket_rules = (
    writes_rules, peer-Writes, service-Writes, providers-Writes, closed-Writes, stream-Writes,
    register-Writes,
  )

  -- behind the write of the request
  data_stream-Writes :
      (conn : Conn) (p : PeerId) (req : ApronSocketServiceRequest)
      → Writes P (do
        data_stream ← require_stream (env.new_stream p proxy_socket_data_from_client_side)
        n ← get_node
        put_node
            (record n { client_socket_conns = insert req.request_id conn n.client_socket_conns })
        pure data_stream)
  data_stream-Writes conn p req = search socket_rules depth 20

  connect-Writes :
      (conn : Conn) (p : PeerId) (req : ApronSocketServiceRequest)
      → Writes P (connect env conn p req)
  unfolding connect
  connect-Writes conn p req =
      Writes-bind (register_request_id req.request_id) _ (register-Writes P req.request_id) λ u.
        after_stream-Writes P (env.new_stream p proxy_socket_init_req) _ λ t opens.
          Writes-after (env.marshal_socket_service req) _ λ b e.
            Writes-then (write_frame t b) _
              (Writes-write_frame t b (socket_init-Understood env receiver c t p b req opens e))
              (data_stream-Writes conn p req)

  pub socket_init-Writes :
      (conn : Conn) (init_bytes : Outcome Bytes) → Writes P (handle_socket_init env conn init_bytes)
  unfolding handle_socket_init
  socket_init-Writes conn init_bytes = search (socket_rules, connect-Writes) depth 30

  client_frame-Writes :
      (o : Opened env proxy_socket_data_from_client_side) (conn : Conn) (id : Bytes)
      (frame : Outcome Bytes)
      → Writes P (forward_client_frame env conn id o.0 frame)
  unfolding forward_client_frame
  client_frame-Writes o conn id (ok content) =
      let d : ApronServiceData = record { request_id = id; raw_data = content } in
      Writes-after (env.marshal_data d) _ λ b e.
        Writes-bind (write_frame o.0 b) _
          (Writes-write_frame o.0 b (socket_client-Understood env receiver c o d b e))
          (λ u. Writes-pure true)
  client_frame-Writes o conn id (err e) =
      branch-Writes P (bytes_eq e eof) (do emit (closed conn); pure false) (pure true)
        (search (writes_rules, closed-Writes)) (Writes-pure true)
  client_frame-Writes o conn id (panic e) = search writes_rules

  pub client_frames-Writes :
      (o : Opened env proxy_socket_data_from_client_side) (max_alloc : ℕ) (conn : Conn) (id : Bytes)
      (turns : ℕ) (rd : IoReader)
      → Writes P (forward_client_frames env max_alloc conn id o.0 turns rd)
  unfolding forward_client_frames
  client_frames-Writes o max_alloc conn id zero rd = Writes-pure tt
  client_frames-Writes o max_alloc conn id (suc n) rd =
      let (frame, rd') = read_one_frame_data_from_stream max_alloc rd in
      Writes-bind (forward_client_frame env conn id o.0 frame) _
        (client_frame-Writes o conn id frame)
        (λ goes_on.
          branch-Writes P goes_on (forward_client_frames env max_alloc conn id o.0 n rd') (pure tt)
            (client_frames-Writes o max_alloc conn id n rd') (Writes-pure tt))
