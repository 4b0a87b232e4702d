-- ===== src/Network/Silence.antt =====
-- The tasks of a gateway that write no frame to a stream (internal/trans_network/csgw_http.go, csgw_socket.go
-- and node_proxy_handler.go).
use apron_gateway_p2p.Prelude.{
  ℕ, Bool, true, false, Option, none, some, List, [], ◌∷◌, Bytes, if◌then◌else◌,
}
use apron_gateway_p2p.Outcome.{Outcome, ok, err, panic}
use apron_gateway_p2p.Models.{ApronServiceProvider, ApronServiceRequest, ApronServiceData}
use apron_gateway_p2p.Node.{PeerId, Conn}
use apron_gateway_p2p.RequestDetail.{Request}
use apron_gateway_p2p.Wire.Frame.{Send, data_ch, err_ch}
use apron_gateway_p2p.Act.{
  Act, Stream, stop, emit, opened, dialed, closed, sent_ws, sent_chan, wrote_reply,
}
use apron_gateway_p2p.Act.Frames.{Frame}
use apron_gateway_p2p.Act.Writes.{
  Writes, Writes-bind, Writes-after, Writes-pure, Writes-checked, Writes-stop, Writes-block,
  Writes-panic, Ends-Writes, Writes-get_node, Writes-put_node, Writes-emit, Writes-write_frame,
  Writes-write_frame_conn, Writes-frames_in,
}
use apron_gateway_p2p.Gateway.Env.{Env}
use apron_gateway_p2p.Gateway.Http.{
  serve_request, serve_http_request, serve_websocket_request, stream_or_nil, finish_http_request,
  close_ws,
}
use apron_gateway_p2p.Gateway.Service.{
  received, require_conn, first_provider, proxy_ws_data_handler, proxy_http_resp_handler,
  send_http_data, proxy_socket_init_req_handler, proxy_socket_data_handler,
}

pub ruleset writes_rules = (
  Writes-bind, Writes-pure, Writes-checked, Writes-stop, Writes-block, Writes-panic,
  Writes-get_node, Writes-put_node, Writes-write_frame_conn,
)

-- what writes no frame, for any predicate on frames
module _ (P : Frame → Type 0) where
  received-Writes : (input : Send) → Writes P (received input)
  unfolding received
  received-Writes (data_ch bytes) = search writes_rules
  received-Writes (err_ch e) = search writes_rules

  require_conn-Writes : (o : Option Conn) → Writes P (require_conn o)
  unfolding require_conn
  require_conn-Writes none = search writes_rules
  require_conn-Writes (some c) = search writes_rules

  provider-Writes : (ps : List ApronServiceProvider) → Writes P (first_provider ps)
  unfolding first_provider
  provider-Writes [] = search writes_rules
  provider-Writes (p ∷ ps) = search writes_rules

  pub branch-Writes :
      {A : Type 0} (b : Bool) (m k : Act A)
      → Writes P m
      → Writes P k
      → Writes P (if b then m else k)
  branch-Writes true m k x y = x
  branch-Writes false m k x y = y

  chan-Writes :
      (env : Env) (o : Option (Unit {0})) (d : ApronServiceData) → Writes P (send_http_data env o d)
  unfolding send_http_data
  chan-Writes env none d = search writes_rules
  chan-Writes env (some c) d = Writes-emit (sent_chan d.request_id d.raw_data) tt

  pub close_ws-Writes : (conn : Conn) → Writes P (close_ws conn)
  close_ws-Writes conn =
      Writes-bind (emit (closed conn)) (λ u. stop) (Writes-emit (closed conn) tt) (λ u. Writes-stop)

  dialed-Writes : (url : Bytes) (c : Conn) → Writes P (emit (dialed url c))
  dialed-Writes url c = Writes-emit (dialed url c) tt

  opened-Writes : (t : Stream) → Writes P (emit (opened t))
  opened-Writes t = Writes-emit (opened t) tt

  reply-Writes : (body : Bytes) → Writes P (emit (wrote_reply body))
  reply-Writes body = Writes-emit (wrote_reply body) tt

  sent_ws-Writes : (c : Conn) (k : ℕ) (b : Bytes) → Writes P (emit (sent_ws c k b))
  sent_ws-Writes c k b = Writes-emit (sent_ws c k b) tt

  ruleset quiet_rules = (
    writes_rules, received-Writes, require_conn-Writes, provider-Writes, branch-Writes, chan-Writes,
    sent_ws-Writes,
  )

  module _ (env : Env) where
    pub ws_data-Writes :
        (protocol : Bytes) (input : Send) → Writes P (proxy_ws_data_handler env protocol input)
    unfolding proxy_ws_data_handler
    ws_data-Writes protocol input = search quiet_rules depth 20

    pub http_resp-Writes : (input : Send) → Writes P (proxy_http_resp_handler env input)
    unfolding proxy_http_resp_handler
    http_resp-Writes input = search quiet_rules depth 20

    pub socket_data-Writes :
        (protocol : Bytes) (input : Send) → Writes P (proxy_socket_data_handler env protocol input)
    unfolding proxy_socket_data_handler
    socket_data-Writes protocol input = search quiet_rules depth 20

    pub socket_init-Writes :
        (frame : Outcome Bytes) → Writes P (proxy_socket_init_req_handler env frame)
    unfolding proxy_socket_init_req_handler
    socket_init-Writes frame = search (quiet_rules, dialed-Writes) depth 30

    or_nil-Writes : (o : Outcome Stream) → Writes P (stream_or_nil env o)
    unfolding stream_or_nil
    or_nil-Writes (ok s) = search (quiet_rules, opened-Writes)
    or_nil-Writes (err e) = search quiet_rules
    or_nil-Writes (panic e) = search quiet_rules

    ws_request-Writes :
        (req : Request) (p : PeerId) (msg : ApronServiceRequest)
        → Writes P (serve_websocket_request env req p msg)
    unfolding serve_websocket_request
    ws_request-Writes req p msg = search (quiet_rules, or_nil-Writes) depth 20

    http_request-Writes : (msg : ApronServiceRequest) → Writes P (serve_http_request env msg)
    unfolding serve_http_request
    http_request-Writes msg = search quiet_rules depth 20

    pub serve_request-Writes :
        (req : Request) (p : PeerId) (msg : ApronServiceRequest)
        → Writes P (serve_request env req (p, msg))
    unfolding serve_request
    serve_request-Writes req p msg =
        search (quiet_rules, ws_request-Writes, http_request-Writes) depth 20

    pub finish-Writes : (id content : Bytes) → Writes P (finish_http_request env id content)
    unfolding finish_http_request
    finish-Writes id content = search (quiet_rules, reply-Writes) depth 20
