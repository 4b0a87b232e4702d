-- ===== src/Gateway/Streams.antt =====
-- `SetProxyStreamHandlers` of internal/trans_network/node_proxy_handler.go: which handler a stream of a
-- protocol is given to. A host is the map from protocols that its handlers are set in.
use apron_gateway_p2p.Prelude.{Bytes, GoMap, insert}
use apron_gateway_p2p.Outcome.{Outcome, ok, err}
use apron_gateway_p2p.Wire.Frame.{Send, data_ch, err_ch}
use apron_gateway_p2p.Act.{Act, pure, ◌>>=◌}
use apron_gateway_p2p.Gateway.Env.{
  Env, proxy_http_init_req, proxy_ws_data_from_client_side, proxy_ws_data_from_service_side,
  proxy_http_resp_from_service_side, proxy_socket_init_req, proxy_socket_data_from_client_side,
  proxy_socket_data_from_service_side,
}
use apron_gateway_p2p.Gateway.Service.{
  proxy_http_init_request_handler, proxy_ws_data_handler, proxy_http_resp_handler,
  proxy_socket_init_req_handler, proxy_socket_data_handler,
}

-- the handlers of a gateway
pub data StreamHandler : Type 0 where
  http_init_handler ws_data_handler http_resp_handler socket_init_handler socket_data_handler :
      StreamHandler

-- `SetProxyStreamHandlers`
unfoldable pub set_proxy_stream_handlers : GoMap StreamHandler → GoMap StreamHandler
set_proxy_stream_handlers host = insert proxy_socket_data_from_service_side socket_data_handler (
    insert proxy_socket_data_from_client_side socket_data_handler (
      insert proxy_socket_init_req socket_init_handler (
        insert proxy_http_resp_from_service_side http_resp_handler (
          insert proxy_ws_data_from_service_side ws_data_handler (
            insert proxy_ws_data_from_client_side ws_data_handler
              (insert proxy_http_init_req http_init_handler host))))))

-- the frame that the socket handler reads itself
abbrev pub frame_of : Send → Outcome Bytes
frame_of (data_ch bytes) = ok bytes
frame_of (err_ch e) = err e

module _ (env : Env) where
  -- a handler on a stream of a protocol, on the first that it reads there
  unfoldable pub serve_stream : StreamHandler → Bytes → Send → Act (Unit {0})
  unfolding proxy_http_init_request_handler proxy_ws_data_handler proxy_http_resp_handler
      proxy_socket_init_req_handler proxy_socket_data_handler
  serve_stream http_init_handler protocol x = proxy_http_init_request_handler env x
  serve_stream ws_data_handler protocol x = proxy_ws_data_handler env protocol x
  serve_stream http_resp_handler protocol x = proxy_http_resp_handler env x
  serve_stream socket_init_handler protocol x =
      proxy_socket_init_req_handler env (frame_of x) >>= λ s. pure tt
  serve_stream socket_data_handler protocol x = proxy_socket_data_handler env protocol x
