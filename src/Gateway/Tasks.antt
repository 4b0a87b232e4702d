-- ===== src/Gateway/Tasks.antt =====
-- All that a gateway does for its clients, for other gateways and for services (internal/trans_network): the handlers
-- of csgw_http.go, csgw_socket.go and node_proxy_handler.go, each loop on the stream that its handler has opened.
use apron_gateway_p2p.Prelude.{ℕ, ◌≡◌, Option, none, some, List, Bytes, empty}
use apron_gateway_p2p.Outcome.{Outcome, ok}
use apron_gateway_p2p.Node.{PeerId, Conn}
use apron_gateway_p2p.RequestDetail.{Request}
use apron_gateway_p2p.Wire.Bufio.{Reader}
use apron_gateway_p2p.Wire.Frame.{IoReader, Send}
use apron_gateway_p2p.Act.{Act, Stream, WsMessage, pure, stop, ◌>>=◌}
use apron_gateway_p2p.Gateway.Env.{
  Env, proxy_ws_data_from_client_side, proxy_ws_data_from_service_side,
  proxy_socket_data_from_client_side, proxy_socket_data_from_service_side,
}
use apron_gateway_p2p.Gateway.Http.{handle_request, forward_ws_messages, finish_http_request}
use apron_gateway_p2p.Gateway.Socket.{handle_socket_init, forward_client_frames}
use apron_gateway_p2p.Gateway.Service.{forward_service_messages, forward_socket_responses}
use apron_gateway_p2p.Gateway.Streams.{StreamHandler, set_proxy_stream_handlers, serve_stream}

-- a stream of a protocol that `NewStream` has opened
abbrev pub Opened : Env → Bytes → Type 0
Opened env protocol = (t : Stream) × (p : PeerId) × (env.new_stream p protocol ≡ ok t)

pub data Task (env : Env) : Type 0 where
  client_request : Request → Task env
  client_messages :
      Opened env proxy_ws_data_from_client_side → Conn → Bytes → List (Outcome WsMessage) → Task env
  client_answer : Bytes → Bytes → Task env
  client_socket : Conn → Outcome Bytes → Task env
  client_frames :
      Opened env proxy_socket_data_from_client_side → ℕ → Conn → Bytes → ℕ → IoReader → Task env
  stream_input : Bytes → Send → Task env
  service_messages :
      Opened env proxy_ws_data_from_service_side → Bytes → List (Outcome WsMessage) → Task env
  service_responses : Opened env proxy_socket_data_from_service_side → Bytes → ℕ → Reader → Task env

-- the handler that a stream of a protocol is given to, if one is set
abbrev pub dispatch_stream : Option StreamHandler → Env → Bytes → Send → Act (Unit {0})
dispatch_stream none env protocol x = stop
dispatch_stream (some h) env protocol x = serve_stream env h protocol x

unfoldable pub perform : (env : Env) → Task env → Act (Unit {0})
unfolding forward_ws_messages finish_http_request forward_client_frames serve_stream
    forward_service_messages forward_socket_responses handle_request handle_socket_init
perform env (client_request req) = handle_request env req
perform env (client_messages (t, p, opens) conn id ms) = forward_ws_messages env conn (some t) id ms
perform env (client_answer id content) = finish_http_request env id content
perform env (client_socket conn init_bytes) =
    handle_socket_init env conn init_bytes >>= λ s. pure tt
perform env (client_frames (t, p, opens) max_alloc conn id turns rd) =
    forward_client_frames env max_alloc conn id t turns rd
perform env (stream_input protocol x) =
    dispatch_stream (set_proxy_stream_handlers empty protocol) env protocol x
perform env (service_messages (t, p, opens) id ms) = forward_service_messages env t id ms
perform env (service_responses (t, p, opens) id turns r) =
    forward_socket_responses env (ok t) id turns r
