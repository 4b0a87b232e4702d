-- ===== src/Network/Speech.antt =====
-- What each task of a gateway writes to streams (internal/trans_network/csgw_http.go, csgw_socket.go and
-- node_proxy_handler.go).
use apron_gateway_p2p.Prelude.{
  ℕ, zero, suc, ◌≡◌, refl, sym, ◌⊎◌, inl, inr, true, Option, none, some, List, [], ◌∷◌, Bytes, All,
}
use mathlib.Core.Path.{subst}
use apron_gateway_p2p.Outcome.{Outcome, ok, err, panic}
use apron_gateway_p2p.Models.{ApronServiceRequest, ApronServiceData}
use apron_gateway_p2p.Node.{PeerId, Conn}
use apron_gateway_p2p.RequestDetail.{Request}
use apron_gateway_p2p.Wire.Bufio.{Reader, read_some}
use apron_gateway_p2p.Wire.Frame.{Send}
use apron_gateway_p2p.Act.{WsMessage, checked, write_frame}
use apron_gateway_p2p.Act.Frames.{Frame}
use apron_gateway_p2p.Act.Writes.{
  Writes, Writes-bind, Writes-after, Writes-pure, Writes-checked, Writes-panic, Ends-Writes,
  Writes-write_frame,
}
use apron_gateway_p2p.Gateway.Env.{
  Env, proxy_ws_data_from_client_side, proxy_ws_data_from_service_side,
  proxy_socket_data_from_service_side,
}
use apron_gateway_p2p.Gateway.Http.{
  send_request, serve_request, handle_request, forward_ws_message, forward_ws_messages,
  write_marshalled,
}
use apron_gateway_p2p.Gateway.Service.{
  proxy_http_init_request_handler, forward_service_message, forward_service_messages,
  forward_socket_response, forward_socket_responses,
}
use apron_gateway_p2p.Gateway.Tasks.{Opened}
use apron_gateway_p2p.Network.Client.{Sent, send_request-Ends}
use apron_gateway_p2p.Network.Service.{Served, Replied, proxy_http_init_request_handler-Ends}
use apron_gateway_p2p.Network.Protocols.{
  Compatible, Understood, request-Understood, response-Understood, ws_client-Understood,
  ws_service-Understood, socket_service-Understood,
}
use apron_gateway_p2p.Network.Silence.{close_ws-Writes, serve_request-Writes}

module _ (env receiver : Env) (c : Compatible env receiver) where
  abbrev P : Frame → Type 0
  P = Understood env receiver

  Sent-Understood :
      (req : Request) (r : PeerId × ApronServiceRequest) (fs : List Frame)
      → Sent env req r fs
      → All P fs
  Sent-Understood req (p, msg) fs ((t, b, e, opens, marshals), dumped, ws) =
      subst (All P) (sym e) (request-Understood env receiver c t p b msg opens marshals, tt)

  pub handle_request-Writes : (req : Request) → Writes P (handle_request env req)
  unfolding handle_request
  handle_request-Writes req =
      Writes-bind (send_request env req) (serve_request env req)
        (Ends-Writes (Sent env req) (send_request env req) (send_request-Ends env req)
          (Sent-Understood req))
        (λ (p, msg). serve_request-Writes P env req p msg)

  Replied-Understood :
      (msg : ApronServiceRequest) (fs : List Frame)
      → ((msg.is_ws_request ≡ true) × (fs ≡ [])) ⊎ Replied env msg fs
      → All P fs
  Replied-Understood msg fs (inl (ws, e)) = subst (All P) (sym e) tt
  Replied-Understood msg fs (inr (t, b, body, p, e, named, opens, marshals, response)) =
      subst (All P) (sym e) (
        response-Understood env receiver c t p b
            (record { request_id = msg.request_id; raw_data = body }) opens marshals,
        tt,
      )

  pub http_init-Writes : (input : Send) → Writes P (proxy_http_init_request_handler env input)
  http_init-Writes input =
      Ends-Writes (λ u fs. Served env input fs) (proxy_http_init_request_handler env input)
        (proxy_http_init_request_handler-Ends env input)
        (λ u fs (bytes, msg, arrives, decodes, r). Replied-Understood msg fs r)

  -- a message of a client's WebSocket, by how its encoding goes
  marshalled-Writes :
      (o : Opened env proxy_ws_data_from_client_side) (conn : Conn) (d : ApronServiceData)
      (bytes : Outcome Bytes)
      → env.marshal_data d ≡ bytes
      → Writes P (write_marshalled conn o.0 bytes)
  marshalled-Writes o conn d (ok b) e =
      Writes-write_frame o.0 b (ws_client-Understood env receiver c o d b e)
  marshalled-Writes o conn d (err z) e = close_ws-Writes P conn
  marshalled-Writes o conn d (panic z) e = close_ws-Writes P conn

  pub ws_messages-Writes :
      (o : Opened env proxy_ws_data_from_client_side) (conn : Conn) (id : Bytes)
      (ms : List (Outcome WsMessage))
      → Writes P (forward_ws_messages env conn (some o.0) id ms)
  unfolding forward_ws_messages forward_ws_message
  ws_messages-Writes o conn id [] = Writes-pure tt
  ws_messages-Writes o conn id (ok (kind, m) ∷ ms) =
      let d : ApronServiceData = record { request_id = id; raw_data = m } in
      Writes-bind (forward_ws_message env conn (some o.0) id m)
        (λ u. forward_ws_messages env conn (some o.0) id ms)
        (marshalled-Writes o conn d (env.marshal_data d) refl)
        (λ u. ws_messages-Writes o conn id ms)
  ws_messages-Writes o conn id (err e ∷ ms) = close_ws-Writes P conn
  ws_messages-Writes o conn id (panic e ∷ ms) = close_ws-Writes P conn

  service_message-Writes :
      (o : Opened env proxy_ws_data_from_service_side) (id : Bytes) (m : Outcome WsMessage)
      → Writes P (forward_service_message env o.0 id m)
  unfolding forward_service_message
  service_message-Writes o id m = Writes-bind (checked m) _ (Writes-checked m) λ (kind, content).
      let d : ApronServiceData = record { request_id = id; raw_data = content } in
      Writes-after (env.marshal_data d) (write_frame o.0)
        (λ b e. Writes-write_frame o.0 b (ws_service-Understood env receiver c o d b e))

  pub service_messages-Writes :
      (o : Opened env proxy_ws_data_from_service_side) (id : Bytes) (ms : List (Outcome WsMessage))
      → Writes P (forward_service_messages env o.0 id ms)
  unfolding forward_service_messages
  service_messages-Writes o id [] = Writes-pure tt
  service_messages-Writes o id (m ∷ ms) =
      Writes-bind (forward_service_message env o.0 id m)
        (λ u. forward_service_messages env o.0 id ms) (service_message-Writes o id m)
        (λ u. service_messages-Writes o id ms)

  response-Writes :
      (o : Opened env proxy_socket_data_from_service_side) (id : Bytes) (m : Option Bytes)
      → Writes P (forward_socket_response env (ok o.0) id m)
  unfolding forward_socket_response
  response-Writes o id none = Writes-panic _
  response-Writes o id (some content) =
      let d : ApronServiceData = record { request_id = id; raw_data = content } in
      Writes-after (env.marshal_data d) _
        (λ b e. Writes-write_frame o.0 b (socket_service-Understood env receiver c o d b e))

  pub responses-Writes :
      (o : Opened env proxy_socket_data_from_service_side) (id : Bytes) (turns : ℕ) (r : Reader)
      → Writes P (forward_socket_responses env (ok o.0) id turns r)
  unfolding forward_socket_responses
  responses-Writes o id zero r = Writes-pure tt
  responses-Writes o id (suc n) r =
      let (m, r') = read_some 40960 r in
      Writes-bind (forward_socket_response env (ok o.0) id m)
        (λ u. forward_socket_responses env (ok o.0) id n r') (response-Writes o id m)
        (λ u. responses-Writes o id n r')
