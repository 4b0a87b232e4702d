-- ===== src/Tests/Exchanges.antt =====
-- Socket and SOCKS5 data through two gateways (internal/trans_network, internal/ext_protocols/socks5 and
-- cmd/socket_helper), on two worlds with a connection each.
use apron_gateway_p2p.Prelude.{
  ℕ, ◌≡◌, refl, some, List, [], ◌∷◌, ◌++◌, Bytes, codes, map, GoMap, empty, insert, bytes_eq, arith,
  if◌then◌else◌,
}
use apron_gateway_p2p.Outcome.{Outcome, ok, err}
use apron_gateway_p2p.Models.{ExtServiceData, ApronSocketInitRequest}
use apron_gateway_p2p.Node.{Conn, new_node}
use apron_gateway_p2p.Act.{World, Stream}
use apron_gateway_p2p.Gateway.Env.{Env}
use apron_gateway_p2p.Gateway.Transport.{Encodes, Chunks, Sendable}
use apron_gateway_p2p.Wire.Frame.{stream, read_bytes_via_stream}
use apron_gateway_p2p.Wire.Pieces.{writes}
use apron_gateway_p2p.Gateway.Env.{proxy_ws_data_from_client_side, proxy_ws_data_from_service_side}
use apron_gateway_p2p.Gateway.Transport.{stream_writes}
use apron_gateway_p2p.Gateway.Routing.{add_effects}
use apron_gateway_p2p.Gateway.Http.{forward_ws_messages}
use apron_gateway_p2p.Gateway.Service.{proxy_ws_data_handler, serve_sends, forward_service_messages}
use apron_gateway_p2p.Gateway.WebSockets.{ws_messages_arrive}
use apron_gateway_p2p.Act.{WsMessage, text_message, returned, done, closed, sent_ws}
use apron_gateway_p2p.Helper.Echo.{echo_exchange}
use apron_gateway_p2p.Socks5.Const.{
  ApronSocks5ConnectRequest, socks5_service_name, socks5_connect_message, socks5_data_message,
}
use apron_gateway_p2p.Socks5.Agent.{AgentEnv, to_service}
use apron_gateway_p2p.Socks5.Loops.{socks_up, socks_down}
use apron_gateway_p2p.Socks5.Rounds.{Packs}
use apron_gateway_p2p.Socks5.Exchange.{socks_up-arrives, socks_down-arrives}
use apron_gateway_p2p.Tests.Gateways.{client_world, a_service, provider}
use apron_gateway_p2p.RequestId.{new_request_id}
use apron_gateway_p2p.Registry.{register_remote_service}
use apron_gateway_p2p.Gateway.Socket.{handle_socket_init}
use apron_gateway_p2p.Gateway.SocketData.{set_up}
use apron_gateway_p2p.Helper.Session.{connected_to, echo_session}
use apron_gateway_p2p.Gateway.Env.{proxy_socket_init_req}
use apron_gateway_p2p.Gateway.Service.{proxy_socket_init_req_handler}
use apron_gateway_p2p.Wire.Frame.{write_bytes_via_stream, read_one_frame_data_from_stream}
use apron_gateway_p2p.Tests.Sides.{
  the_id, exchange_env, same, exchange_env-Encodes, client_side, service_side, client_side-at,
  service_side-at, up_stream, down_stream, two_messages, two_messages-Chunks, two_messages-Sendable,
}

abbrev session_id : Bytes
session_id = codes "shouldBeUid.aaaaaaaaaa.8"

-- the codec of the agents: the type of a message's content, and the content
abbrev pack : ℕ → Bytes → Bytes
pack t d = t ∷ d

abbrev unpack : Bytes → Outcome ExtServiceData
unpack [] = err []
unpack (t ∷ d) = ok (record {
  service_name = socks5_service_name;
  request_id = session_id;
  msg_id = codes "7";
  content_type = t;
  content = d;
})

abbrev web : ApronSocks5ConnectRequest
web = record { version = 5; command = 1; dest_addr = codes "apron.network"; dest_port = 443 }

abbrev agent : AgentEnv
agent = record {
  uuid = codes "7";
  marshal = λ d. ok (pack d.content_type d.content);
  unmarshal = unpack;
  encode_connect = λ r. ok r.dest_addr;
  decode_connect = λ b. ok web;
  connect = λ r. ok 11;
}

agent-Packs : Packs agent agent session_id pack
agent-Packs t d = (refl, refl)

abbrev packed_chunks : List Bytes
packed_chunks = map (pack socks5_data_message) two_messages

packed_chunks-Chunks : Chunks packed_chunks
packed_chunks-Chunks = ((omega arith, omega arith), ((omega arith, omega arith), tt))

packed_chunks-Sendable : Sendable 1000 packed_chunks
packed_chunks-Sendable =
    ((omega arith, omega arith, (omega arith, omega arith, tt)), (omega arith, (omega arith, tt)))

abbrev session : List Bytes
session = pack socks5_connect_message (codes "apron.network") ∷ packed_chunks

session-Sendable : Sendable 1000 session
session-Sendable =
    ((omega arith, omega arith, packed_chunks-Sendable.0), (omega arith, packed_chunks-Sendable.1))

abbrev no_conns : GoMap Conn
no_conns = empty

socks_up-arrives_example :
    socks_up agent agent exchange_env 1000 session_id the_id 7 9 up_stream down_stream client_side
      service_side no_conns web two_messages
    ≡ ok (
      insert session_id 11 no_conns,
      to_service 11 (codes "hello") ∷ to_service 11 (codes "hi") ∷ [],
    )
socks_up-arrives_example =
    socks_up-arrives 1000 session_id the_id exchange_env 7 9 up_stream down_stream same
      exchange_env-Encodes pack agent agent client_side service_side 11 web (codes "apron.network")
      two_messages no_conns agent-Packs refl refl refl service_side-at session-Sendable
      session-Sendable

socks_down-arrives_example :
    socks_down agent agent exchange_env 1000 session_id the_id 7 9 up_stream down_stream client_side
      service_side two_messages
    ≡ ok two_messages
socks_down-arrives_example =
    socks_down-arrives 1000 session_id the_id exchange_env 7 9 up_stream down_stream same
      exchange_env-Encodes pack agent agent client_side service_side two_messages agent-Packs
      client_side-at packed_chunks-Chunks packed_chunks-Sendable packed_chunks-Sendable

-- the two sides of a WebSocket connection
abbrev ws_client_side : World
ws_client_side = record {
  node = record new_node { client_ws_conns = insert the_id 7 empty };
  effects = [];
}

abbrev ws_service_side : World
ws_service_side = record {
  node = record new_node { service_ws_conns = insert the_id 9 empty };
  effects = [];
}

ws_client_side-at : ws_client_side.node.client_ws_conns the_id ≡ some 7
unfolding insert bytes_eq
ws_client_side-at = refl

ws_service_side-at : ws_service_side.node.service_ws_conns the_id ≡ some 9
unfolding insert bytes_eq
ws_service_side-at = refl

-- a binary and a text message, and a binary one
abbrev up_messages : List WsMessage
up_messages = (2, codes "hello") ∷ (text_message, codes "hi") ∷ []

abbrev down_messages : List WsMessage
down_messages = (2, codes "ok") ∷ []

abbrev a_message : List Bytes
a_message = codes "ok" ∷ []

ws_messages_arrive_example :
    (forward_ws_messages exchange_env 7
        (some up_stream)
        the_id
        (map ok up_messages ++ err (codes "closed") ∷ [])
        ws_client_side
      ≡ (
        returned,
        add_effects
            (add_effects ws_client_side (stream_writes 1000 up_stream two_messages))
            (closed 7 ∷ []),
      ))
    × (serve_sends
          (proxy_ws_data_handler exchange_env proxy_ws_data_from_client_side)
          (read_bytes_via_stream 1000 2 (stream (writes 1000 two_messages)))
          ws_service_side
        ≡ (done tt, add_effects ws_service_side (map (sent_ws 9 text_message) two_messages)))
    × (forward_service_messages exchange_env down_stream the_id
          (map ok down_messages)
          ws_service_side
        ≡ (done tt, add_effects ws_service_side (stream_writes 1000 down_stream a_message)))
    × (serve_sends
          (proxy_ws_data_handler exchange_env proxy_ws_data_from_service_side)
          (read_bytes_via_stream 1000 1 (stream (writes 1000 a_message)))
          ws_client_side
        ≡ (done tt, add_effects ws_client_side (map (sent_ws 7 text_message) a_message)))
ws_messages_arrive_example =
    ws_messages_arrive exchange_env 1000 the_id same exchange_env-Encodes 7 9 up_stream down_stream
      up_messages down_messages (codes "closed") ws_client_side ws_service_side ws_service_side-at
      ws_client_side-at two_messages-Sendable ((omega arith, omega arith, tt), (omega arith, tt))

abbrev session_init : ApronSocketInitRequest
session_init = record {
  service_id = codes "aaaaaaaaaa";
  request_id = [];
  peer_id = [];
  user_id = codes "user";
}

abbrev session_announced : ApronSocketInitRequest
session_announced = record {
  service_id = codes "aaaaaaaaaa";
  request_id = the_id;
  peer_id = codes "client";
  user_id = [];
}

-- an environment that knows the init request of a client from the announcement of its gateway
abbrev session_env : Env
session_env = record exchange_env {
  unmarshal_socket_init =
      λ b. if bytes_eq b (codes "init") then ok session_init else ok session_announced;
}

abbrev init_stream : Stream
init_stream = record { peer = codes "server"; protocol = proxy_socket_init_req; tag = 0 }

-- the service side gateway, with the service
abbrev service_world : World
service_world = record {
  node = record new_node { services = insert (codes "aaaaaaaaaa") a_service empty };
  effects = [];
}

session_env-Encodes : Encodes session_env 1000 the_id same
session_env-Encodes d = (refl, refl)

echo_session_example :
    (handle_socket_init session_env 7 (ok (codes "init")) client_world
      ≡ (done (the_id, up_stream), set_up the_id 7 init_stream the_id up_stream client_world))
    × (proxy_socket_init_req_handler session_env
          (read_one_frame_data_from_stream 1000 (stream (write_bytes_via_stream the_id))).0
          service_world
        ≡ (done (ok down_stream), connected_to the_id provider.base_url 3 service_world))
    × (echo_exchange 1000 session_env the_id 7 3 up_stream down_stream
          (set_up the_id 7 init_stream the_id up_stream client_world)
          (connected_to the_id provider.base_url 3 service_world)
          two_messages
        ≡ ok two_messages)
unfolding new_request_id register_remote_service insert bytes_eq
echo_session_example =
    echo_session session_env client_world service_world 7 3 (codes "init") the_id session_init
      (codes "server") (codes "client") a_service a_service provider provider [] [] init_stream
      up_stream down_stream 1000 refl refl refl refl refl refl refl (omega arith) (omega arith)
      (omega arith) refl refl refl refl refl refl same session_env-Encodes two_messages
      two_messages-Chunks two_messages-Sendable two_messages-Sendable
