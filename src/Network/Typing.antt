-- ===== src/Network/Typing.antt =====
-- Every frame of a gateway is one that its reader can take apart (internal/trans_network).
use apron_gateway_p2p.Prelude.{Option, none, some, empty, Bytes, All}
use apron_gateway_p2p.Wire.Frame.{Send}
use apron_gateway_p2p.Act.{World, pure}
use apron_gateway_p2p.Act.Frames.{Frame, frames_in}
use apron_gateway_p2p.Act.Writes.{Writes, Writes-bind, Writes-pure, Writes-stop, Writes-frames_in}
use apron_gateway_p2p.Gateway.Env.{Env}
use apron_gateway_p2p.Gateway.Socket.{handle_socket_init}
use apron_gateway_p2p.Gateway.Service.{proxy_socket_init_req_handler}
use apron_gateway_p2p.Gateway.Streams.{
  StreamHandler, http_init_handler, ws_data_handler, http_resp_handler, socket_init_handler,
  socket_data_handler, set_proxy_stream_handlers, serve_stream, frame_of,
}
use apron_gateway_p2p.Gateway.Tasks.{
  Task, perform, dispatch_stream, client_request, client_messages, client_answer, client_socket,
  client_frames, stream_input, service_messages, service_responses,
}
use apron_gateway_p2p.Network.Steps.{new_effects}
use apron_gateway_p2p.Network.Protocols.{Compatible, Understood}
use apron_gateway_p2p.Network.Silence.{
  ws_data-Writes, http_resp-Writes, socket_data-Writes, socket_init-Writes, finish-Writes,
}
use apron_gateway_p2p.Network.Speech.{
  handle_request-Writes, http_init-Writes, ws_messages-Writes, service_messages-Writes,
  responses-Writes,
}
use apron_gateway_p2p.Network.SocketSpeech
use apron_gateway_p2p.Network.SocketSpeech.{client_frames-Writes}

module _ (env receiver : Env) (c : Compatible env receiver) where
  abbrev P : Frame → Type 0
  P = Understood env receiver

  handler-Writes :
      (h : StreamHandler) (protocol : Bytes) (x : Send) → Writes P (serve_stream env h protocol x)
  unfolding serve_stream
  handler-Writes http_init_handler protocol x = http_init-Writes env receiver c x
  handler-Writes ws_data_handler protocol x = ws_data-Writes P env protocol x
  handler-Writes http_resp_handler protocol x = http_resp-Writes P env x
  handler-Writes socket_init_handler protocol x =
      Writes-bind (proxy_socket_init_req_handler env (frame_of x)) (λ s. pure tt)
        (socket_init-Writes P env (frame_of x)) (λ s. Writes-pure tt)
  handler-Writes socket_data_handler protocol x = socket_data-Writes P env protocol x

  dispatch_stream-Writes :
      (o : Option StreamHandler) (protocol : Bytes) (x : Send)
      → Writes P (dispatch_stream o env protocol x)
  dispatch_stream-Writes none protocol x = Writes-stop
  dispatch_stream-Writes (some h) protocol x = handler-Writes h protocol x

  perform-Writes : (task : Task env) → Writes P (perform env task)
  unfolding perform
  perform-Writes (client_request req) = handle_request-Writes env receiver c req
  perform-Writes (client_messages o conn id ms) = ws_messages-Writes env receiver c o conn id ms
  perform-Writes (client_answer id content) = finish-Writes P env id content
  perform-Writes (client_socket conn init_bytes) =
      Writes-bind (handle_socket_init env conn init_bytes) (λ s. pure tt)
        (SocketSpeech.socket_init-Writes env receiver c conn init_bytes) (λ s. Writes-pure tt)
  perform-Writes (client_frames o max_alloc conn id turns rd) =
      client_frames-Writes env receiver c o max_alloc conn id turns rd
  perform-Writes (stream_input protocol x) =
      dispatch_stream-Writes (set_proxy_stream_handlers empty protocol) protocol x
  perform-Writes (service_messages o id ms) = service_messages-Writes env receiver c o id ms
  perform-Writes (service_responses o id turns r) = responses-Writes env receiver c o id turns r

  -- Whatever a gateway does, for a client, on what arrives on a stream, or for a service, and however
  -- it ends: each frame that it writes to a stream is a message that it has packed, and the handler which
  -- a gateway sets for the stream's protocol unpacks the same message from it, by the same type; but the
  -- request for a socket is packed as an `ApronSocketServiceRequest` and unpacked as an
  -- `ApronSocketInitRequest`, with the service, the request id and the peer of the first and no user. For
  -- this a stream is of the protocol that it is opened for, protobuf gives back the requests and the data
  -- that it packs, and it packs and unpacks text fields by their numbers in either of these two types.
  pub perform-Understood :
      (task : Task env) (w : World)
      → All (Understood env receiver) (frames_in (new_effects w (perform env task w).1))
  perform-Understood task w = Writes-frames_in (perform env task) w (perform-Writes task)
