-- ===== src/Gateway/Http.antt =====
-- internal/trans_network/csgw_http.go: a client's HTTP or WebSocket request at the gateway that it
-- connects to. The handler is cut where it waits: `send_request` up to the write to the service
-- side gateway, then `serve_request`; an answer is a step of its own.
use apron_gateway_p2p.Prelude.{
  ℕ, Option, none, some, List, [], ◌∷◌, ◌++◌, Bytes, codes, insert, delete, if◌then◌else◌,
}
use apron_gateway_p2p.Outcome.{Outcome, ok, err, panic}
use apron_gateway_p2p.Models.{ApronService, ApronServiceProvider, ApronServiceRequest}
use apron_gateway_p2p.Node.{PeerId, Conn}
use apron_gateway_p2p.RequestId.{new_request_id}
use apron_gateway_p2p.RequestDetail.{
  Request, RequestDetail, no_detail, extract_request_detail_from_fasthttp_request,
}
use apron_gateway_p2p.Act.{
  Act, Stream, WsMessage, opened, replied, wrote_reply, closed, pure, ◌>>=◌, ◌>>◌, stop, checked,
  get_node, put_node, emit, write_frame,
}
use apron_gateway_p2p.Gateway.Env.{Env, proxy_http_init_req, proxy_ws_data_from_client_side}

-- `ctx.Error(msg, status)`, which resets the response and sets it, and `return`
abbrev pub fail_with {ℓ} : {A : Type ℓ} → ℕ → Bytes → Act A
fail_with status message = do emit (replied status message); stop

abbrev pub status_not_found : ℕ
status_not_found = 404

abbrev pub status_internal_server_error : ℕ
status_internal_server_error = 500

-- an error of the extraction is set as the response, and the handler goes on
unfoldable pub report_extract_error : Option Bytes → Act (Unit {0})
report_extract_error none = pure tt
report_extract_error (some e) = emit (
    replied status_internal_server_error
      (codes "ClientSideGateway: extract service name error: " ++ e))

unfoldable pub require_peer : Option PeerId → Act PeerId
require_peer none = fail_with status_not_found (codes "ClientSideGateway: Service not found")
require_peer (some p) = pure p

unfoldable pub require_service : Option ApronService → Act ApronService
require_service none =
    fail_with status_internal_server_error
      (codes "ClientSideGateway: Service data missing, contract help")
require_service (some s) = pure s

unfoldable pub require_providers : List ApronServiceProvider → Act (Unit {0})
require_providers [] =
    fail_with status_internal_server_error
      (codes "ClientSideGateway: Service data error, contract help")
require_providers (p ∷ ps) = pure tt

unfoldable pub require_stream : Outcome Stream → Act Stream
require_stream (ok s) = do emit (opened s); pure s
require_stream (err e) = fail_with status_internal_server_error e
require_stream (panic e) = checked (panic e)

-- `n.requestIdChanMapping[requestId] = msgCh`
abbrev pub register_request_id : Bytes → Act (Unit {0})
register_request_id request_id = do
  n ← get_node
  put_node (record n { request_id_chan_mapping = insert request_id tt n.request_id_chan_mapping })

-- the deferred `clientWsConn.Close()` of a goroutine that returns or panics
abbrev pub close_ws : Conn → Act (Unit {0})
close_ws conn = do emit (closed conn); stop

-- behind the marshalling
abbrev pub write_marshalled : Conn → Stream → Outcome Bytes → Act (Unit {0})
write_marshalled conn s (ok bytes) = write_frame s bytes
write_marshalled conn s (err e) = close_ws conn
write_marshalled conn s (panic e) = close_ws conn

module _ (env : Env) where
  -- the message for the service side gateway
  abbrev pub service_request : Request → RequestDetail → ApronService → Bytes → ApronServiceRequest
  service_request req detail service raw_req = record {
    service_id = service.id;
    request_id = new_request_id detail.user_key service.id env.uuid;
    peer_id = env.host_id;
    is_ws_request = env.is_websocket_upgrade req;
    raw_request = raw_req;
  }

  -- behind the look-ups: register the request id, open the stream, send the request
  unfoldable pub forward : PeerId → ApronServiceRequest → Act (Unit {0})
  unfolding require_stream
  forward service_peer_id msg = do
    register_request_id msg.request_id
    s ← require_stream (env.new_stream service_peer_id proxy_http_init_req)
    req_bytes ← checked (env.marshal_request msg)
    write_frame s req_bytes

  -- The handler of `StartForwardService` up to the write: the peer and the message sent.
  unfoldable pub send_request : Request → Act (PeerId × ApronServiceRequest)
  unfolding report_extract_error require_peer require_service require_providers forward
      extract_request_detail_from_fasthttp_request
  send_request req = do
    raw_req ← checked (env.dump_request req)
    let (detail, extract_error) = extract_request_detail_from_fasthttp_request req no_detail
    report_extract_error extract_error
    n ← get_node
    service_peer_id ← require_peer (n.service_peer_mapping detail.service_name)
    service ← require_service (n.services detail.service_name)
    require_providers service.providers
    let msg = service_request req detail service raw_req
    forward service_peer_id msg
    pure (service_peer_id, msg)

  -- `serveHttpRequest` up to its wait
  unfoldable pub serve_http_request : ApronServiceRequest → Act (Unit {0})
  serve_http_request msg = do
    n ← get_node
    put_node (record n { client_http_data_chan = insert msg.request_id tt n.client_http_data_chan })

  -- behind the receive of `serveHttpRequest`
  unfoldable pub finish_http_request : Bytes → Bytes → Act (Unit {0})
  finish_http_request request_id resp_data = do
    emit (wrote_reply resp_data)
    n ← get_node
    put_node (record n { client_http_data_chan = delete request_id n.client_http_data_chan })

  -- an error of `NewStream` is overwritten before it is read
  unfoldable pub stream_or_nil : Outcome Stream → Act (Option Stream)
  stream_or_nil (ok s) = do emit (opened s); pure (some s)
  stream_or_nil (err e) = pure none
  stream_or_nil (panic e) = checked (panic e)

  -- `serveWebsocketRequest` up to its endless wait
  unfoldable pub serve_websocket_request :
      Request → PeerId → ApronServiceRequest → Act (Option Stream)
  unfolding stream_or_nil
  serve_websocket_request req peer_id msg = do
    data_stream ← stream_or_nil (env.new_stream peer_id proxy_ws_data_from_client_side)
    conn ← checked (env.upgrade req)
    n ← get_node
    put_node (record n { client_ws_conns = insert msg.request_id conn n.client_ws_conns })
    pure data_stream

  -- One round of its read loop, on a message of the client. A use of the nil stream panics, and the
  -- deferred function recovers and closes the connection.
  unfoldable pub forward_ws_message : Conn → Option Stream → Bytes → Bytes → Act (Unit {0})
  forward_ws_message conn none request_id msg_bytes = close_ws conn
  forward_ws_message conn (some s) request_id msg_bytes =
      write_marshalled conn s
        (env.marshal_data (record { request_id = request_id; raw_data = msg_bytes }))

  -- The loop, on what it reads of the client: an error ends it. The type of a message is not looked at.
  unfoldable pub forward_ws_messages :
      Conn → Option Stream → Bytes → List (Outcome WsMessage) → Act (Unit {0})
  unfolding forward_ws_message
  forward_ws_messages conn s request_id [] = pure tt
  forward_ws_messages conn s request_id (ok (kind, m) ∷ ms) = do
    forward_ws_message conn s request_id m
    forward_ws_messages conn s request_id ms
  forward_ws_messages conn s request_id (err e ∷ ms) = close_ws conn
  forward_ws_messages conn s request_id (panic e ∷ ms) = close_ws conn

  -- the last lines of the handler
  unfoldable pub serve_request : Request → PeerId × ApronServiceRequest → Act (Unit {0})
  unfolding serve_http_request serve_websocket_request
  serve_request req (peer_id, msg) =
      if env.is_websocket_upgrade req
      then (do serve_websocket_request req peer_id msg >>= λ s. pure tt)
      else serve_http_request msg

  -- the whole handler, up to its wait
  unfoldable pub handle_request : Request → Act (Unit {0})
  unfolding send_request serve_request
  handle_request req = send_request req >>= serve_request req
