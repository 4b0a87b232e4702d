-- ===== src/Gateway/Service.antt =====
-- internal/trans_network/node_proxy_handler.go: the stream handlers of a gateway, and
-- `BuildHttpRequestToService` and `RecoverClientRequest` of internal/models/helper.go. A handler is
-- given what its `select` receives, by `ReadBytesViaStream` or from the service.
use apron_gateway_p2p.Prelude.{
  ℕ, zero, suc, Option, none, some, List, [], ◌∷◌, ◌++◌, Bytes, codes, insert, bytes_eq,
  if◌then◌else◌,
}
use apron_gateway_p2p.Outcome.{Outcome, ok, err, panic}
use apron_gateway_p2p.Wire.Bufio.{Reader, read_some, eof}
use apron_gateway_p2p.Models.{
  ApronService, ApronServiceProvider, ApronServiceRequest, ApronServiceData, no_service,
}
use apron_gateway_p2p.Node.{PeerId, Conn}
use apron_gateway_p2p.RequestDetail.{
  Request, RequestDetail, no_detail, extract_request_detail_from_fasthttp_request,
}
use apron_gateway_p2p.Wire.Frame.{Send, data_ch, err_ch}
use apron_gateway_p2p.Act.{
  Act, Stream, WsMessage, text_message, opened, sent_ws, sent_chan, dialed, requested, pure, ◌>>=◌,
  ◌>>◌, block, checked, panic_with, get_node, put_node, emit, write_frame, write_frame_conn,
  nil_dereference,
}
use apron_gateway_p2p.Gateway.Env.{
  Env, proxy_ws_data_from_client_side, proxy_ws_data_from_service_side,
  proxy_http_resp_from_service_side, proxy_socket_data_from_client_side,
  proxy_socket_data_from_service_side,
}

-- the `select` of a handler: data, or an error on which it panics
unfoldable pub received : Send → Act Bytes
received (data_ch bytes) = pure bytes
received (err_ch e) = panic_with (codes "read data stream error")

-- `n.services[id]`, the zero value if there is none
abbrev pub service_or_zero : Option ApronService → ApronService
service_or_zero none = no_service
service_or_zero (some s) = s

-- `serviceDetail.Providers[0]`
unfoldable pub first_provider : List ApronServiceProvider → Act ApronServiceProvider
first_provider [] = panic_with (codes "runtime error: index out of range [0] with length 0")
first_provider (p ∷ ps) = pure p

-- a connection of a map, or the nil that a missing key gives; a write to that panics
unfoldable pub require_conn : Option Conn → Act Conn
require_conn none = nil_dereference
require_conn (some c) = pure c

-- the stream of a call whose error is not looked at: a use of the nil stream panics
abbrev pub stream_or_panic : Outcome Stream → Act Stream
stream_or_panic (ok s) = pure s
stream_or_panic (err e) = nil_dereference
stream_or_panic (panic e) = panic_with e

-- the endless loop of a handler over what its `select` receives
unfoldable pub serve_sends : (Send → Act (Unit {0})) → List Send → Act (Unit {0})
serve_sends handler [] = pure tt
serve_sends handler (x ∷ xs) = do handler x; serve_sends handler xs

module _ (env : Env) where
  -- `NewStream` and `CheckError`
  unfoldable pub open_stream : PeerId → Bytes → Act Stream
  open_stream peer protocol = do s ← checked (env.new_stream peer protocol); emit (opened s); pure s

  -- `BuildHttpRequestToService`: the URI of the request to the service
  unfoldable pub build_http_request_to_service : RequestDetail → Request → ApronService → Act Bytes
  unfolding first_provider
  build_http_request_to_service detail http_req service_detail = do
    provider ← first_provider service_detail.providers
    checked (
        env.service_uri provider.schema provider.base_url detail.proxy_request_path
          http_req.query_args)

  -- the branch for WebSockets, up to its endless wait
  unfoldable pub connect_ws_service : PeerId → ApronServiceRequest → Bytes → Act Stream
  unfolding open_stream
  connect_ws_service peer_id proxy_req uri = do
    resp_stream ← open_stream peer_id proxy_ws_data_from_service_side
    conn ← checked (env.dial_ws uri)
    emit (dialed uri conn)
    n ← get_node
    put_node (record n { service_ws_conns = insert proxy_req.request_id conn n.service_ws_conns })
    pure resp_stream

  -- one round of its read loop: a message of the service, whose type is not looked at, or the error on which it panics
  unfoldable pub forward_service_message : Stream → Bytes → Outcome WsMessage → Act (Unit {0})
  forward_service_message resp_stream request_id message = do
    (kind, msg_bytes) ← checked message
    bytes ← checked (env.marshal_data (record { request_id = request_id; raw_data = msg_bytes }))
    write_frame resp_stream bytes

  -- the loop, on what it reads of the service
  unfoldable pub forward_service_messages :
      Stream → Bytes → List (Outcome WsMessage) → Act (Unit {0})
  unfolding forward_service_message
  forward_service_messages resp_stream request_id [] = pure tt
  forward_service_messages resp_stream request_id (m ∷ ms) = do
    forward_service_message resp_stream request_id m
    forward_service_messages resp_stream request_id ms

  -- the branch for HTTP
  unfoldable pub request_http_service :
      PeerId → ApronServiceRequest → Request → Bytes → Act (Unit {0})
  unfolding open_stream
  request_http_service peer_id proxy_req http_req uri = do
    resp_stream ← open_stream peer_id proxy_http_resp_from_service_side
    emit (requested uri)
    resp_body ← checked (env.do_request uri http_req)
    bytes ←
        checked
          (env.marshal_data (record { request_id = proxy_req.request_id; raw_data = resp_body }))
    write_frame resp_stream bytes

  -- `ProxyHttpInitRequestHandler`; the error of the extraction is overwritten before it is read
  unfoldable pub proxy_http_init_request_handler : Send → Act (Unit {0})
  unfolding received build_http_request_to_service connect_ws_service request_http_service
      extract_request_detail_from_fasthttp_request
  proxy_http_init_request_handler input = do
    proxy_req_bytes ← received input
    proxy_req ← checked (env.unmarshal_request proxy_req_bytes)
    http_req ← checked (env.read_request proxy_req.raw_request)
    let (detail, extract_error) = extract_request_detail_from_fasthttp_request http_req no_detail
    peer_id ← checked (env.decode_peer proxy_req.peer_id)
    n ← get_node
    let service_detail = service_or_zero (n.services proxy_req.service_id)
    uri ← build_http_request_to_service detail http_req service_detail
    if proxy_req.is_ws_request
        then (connect_ws_service peer_id proxy_req uri >>= λ s. pure tt)
        else request_http_service peer_id proxy_req http_req uri

  -- One round of `ProxyWsDataHandler`, on a stream of the given protocol.
  unfoldable pub proxy_ws_data_handler : Bytes → Send → Act (Unit {0})
  unfolding received require_conn
  proxy_ws_data_handler protocol input = do
    proxy_data_bytes ← received input
    proxy_data ← checked (env.unmarshal_data proxy_data_bytes)
    n ← get_node
    if bytes_eq protocol proxy_ws_data_from_client_side
        then (do
          conn ← require_conn (n.service_ws_conns proxy_data.request_id)
          emit (sent_ws conn text_message proxy_data.raw_data))
        else if bytes_eq protocol proxy_ws_data_from_service_side
        then (do
          conn ← require_conn (n.client_ws_conns proxy_data.request_id)
          emit (sent_ws conn text_message proxy_data.raw_data))
        else panic_with (codes "wrong protocol: " ++ protocol)

  -- the send on `n.clientHttpDataChan[id]`; on the nil channel of a missing key it never returns
  unfoldable pub send_http_data : Option (Unit {0}) → ApronServiceData → Act (Unit {0})
  send_http_data none d = block
  send_http_data (some c) d = emit (sent_chan d.request_id d.raw_data)

  -- One round of `ProxyHttpRespHandler`.
  unfoldable pub proxy_http_resp_handler : Send → Act (Unit {0})
  unfolding received send_http_data
  proxy_http_resp_handler input = do
    proxy_data_bytes ← received input
    proxy_data ← checked (env.unmarshal_data proxy_data_bytes)
    n ← get_node
    send_http_data (n.client_http_data_chan proxy_data.request_id) proxy_data

  -- `ProxySocketInitReqHandler` behind its synchronous read, up to its endless wait. The error of
  -- `NewStream` is not looked at: a nil stream panics at the first write.
  unfoldable pub proxy_socket_init_req_handler : Outcome Bytes → Act (Outcome Stream)
  unfolding first_provider
  proxy_socket_init_req_handler frame = do
    data_buf ← checked frame
    init_req ← checked (env.unmarshal_socket_init data_buf)
    csgw_peer_id ← checked (env.decode_peer init_req.peer_id)
    n ← get_node
    let service_detail = service_or_zero (n.services init_req.service_id)
    provider ← first_provider service_detail.providers
    conn ← checked (env.dial_tcp provider.base_url)
    emit (dialed provider.base_url conn)
    put_node
        (record n { service_socket_conns = insert init_req.request_id conn n.service_socket_conns })
    pure (env.new_stream csgw_peer_id proxy_socket_data_from_service_side)

  -- One round of the goroutine that it starts: a message of the service, framed to the gateway of the
  -- client. Any error of the read panics, and so does a nil stream.
  unfoldable pub forward_socket_response : Outcome Stream → Bytes → Option Bytes → Act (Unit {0})
  forward_socket_response resp_stream request_id none = panic_with eof
  forward_socket_response resp_stream request_id (some message) = do
    bytes ← checked (env.marshal_data (record { request_id = request_id; raw_data = message }))
    s ← stream_or_panic resp_stream
    write_frame s bytes

  -- its first `turns` rounds, over the one `bufio.Reader` that it makes
  unfoldable pub forward_socket_responses : Outcome Stream → Bytes → ℕ → Reader → Act (Unit {0})
  unfolding read_some
  forward_socket_responses resp_stream request_id zero r = pure tt
  forward_socket_responses resp_stream request_id (suc n) r =
      let (message, r') = read_some 40960 r in
      do
        forward_socket_response resp_stream request_id message
        forward_socket_responses resp_stream request_id n r'

  -- One round of `ProxySocketDataHandler`, on a stream of the given protocol.
  unfoldable pub proxy_socket_data_handler : Bytes → Send → Act (Unit {0})
  unfolding received require_conn
  proxy_socket_data_handler protocol input = do
    proxy_data_bytes ← received input
    proxy_data ← checked (env.unmarshal_data proxy_data_bytes)
    n ← get_node
    if bytes_eq protocol proxy_socket_data_from_client_side
        then (do
          conn ← require_conn (n.service_socket_conns proxy_data.request_id)
          write_frame_conn conn proxy_data.raw_data)
        else if bytes_eq protocol proxy_socket_data_from_service_side
        then (do
          conn ← require_conn (n.client_socket_conns proxy_data.request_id)
          write_frame_conn conn proxy_data.raw_data)
        else panic_with (codes "wrong protocol: " ++ protocol)
