-- ===== src/Tests/Gateways.antt =====
-- One HTTP request through the two gateways of internal/trans_network.
use apron_gateway_p2p.Prelude.{
  ◌≡◌, refl, false, none, [], ◌∷◌, ◌++◌, Bytes, codes, empty, insert, bytes_eq,
}
use apron_gateway_p2p.Outcome.{ok, err}
use apron_gateway_p2p.Models.{ApronService, ApronServiceProvider, ApronServiceRequest, no_service}
use apron_gateway_p2p.Node.{new_node}
use apron_gateway_p2p.Registry.{register_remote_service}
use apron_gateway_p2p.Registry.Invariant.{
  IsConsistent, IsConsistent-new_node, set_service-IsConsistent,
}
use apron_gateway_p2p.Registry.Directory.{view}
use apron_gateway_p2p.RequestDetail.{
  Request, RequestDetail, no_detail, extract_request_detail_from_fasthttp_request,
  invalid_path_format, is_digit, is_word, within, extract_service_id_and_user_key,
}
use apron_gateway_p2p.RequestId.{new_request_id}
use apron_gateway_p2p.Regex.{find_all}
use apron_gateway_p2p.Wire.Frame.{data_ch}
use apron_gateway_p2p.Act.{World, Stream, replied, done, returned, blocked}
use apron_gateway_p2p.Gateway.Env.{Env, proxy_http_resp_from_service_side}
use apron_gateway_p2p.Gateway.Http.{send_request, service_request}
use apron_gateway_p2p.Gateway.Service.{proxy_http_resp_handler}
use apron_gateway_p2p.Gateway.Routing.{
  route, send_request-route, malformed_request, add_effects, not_found, response,
}
use apron_gateway_p2p.Gateway.Races.{early_answer_blocks}
use apron_gateway_p2p.Tests.Paths.{get_at, readme_path}

abbrev pub provider : ApronServiceProvider
provider = record {
  id = [];
  name = [];
  desc = [];
  created_at = 0;
  updated_at = 0;
  extra_detail = [];
  base_url = codes "localhost:8080";
  schema = codes "http";
  network_type = 0;
}

abbrev pub a_service : ApronService
a_service = record no_service { id = codes "aaaaaaaaaa"; providers = provider ∷ [] }

abbrev good_request : Request
good_request = get_at readme_path

abbrev detail : RequestDetail
detail = (extract_request_detail_from_fasthttp_request good_request no_detail).0

abbrev message : ApronServiceRequest
message = record {
  service_id = codes "aaaaaaaaaa";
  request_id = codes "hellouser.aaaaaaaaaa.7";
  peer_id = codes "client";
  is_ws_request = false;
  raw_request = codes "GET";
}

abbrev pub answer : Bytes
answer = codes "OK"

abbrev pub test_env : Env
test_env = record {
  host_id = codes "client";
  decode_peer = λ b. ok b;
  new_stream = λ p protocol. ok (record { peer = p; protocol = protocol; tag = 0 });
  uuid = codes "7";
  marshal_request = λ m. ok m.request_id;
  unmarshal_request = λ b. ok message;
  marshal_data = λ d. ok d.raw_data;
  unmarshal_data = λ b. ok (record { request_id = message.request_id; raw_data = b });
  unmarshal_socket_init = λ b. err b;
  marshal_socket_service = λ m. ok m.request_id;
  dump_request = λ r. ok r.method;
  read_request = λ b. ok good_request;
  is_websocket_upgrade = λ r. false;
  upgrade = λ r. ok 1;
  dial_ws = λ b. ok 2;
  dial_tcp = λ b. ok 3;
  do_request = λ uri r. ok answer;
  service_uri = λ schema base path query. ok (schema ++ base ++ path);
}

-- the client side, which has heard of the service from its peer
abbrev pub client_world : World
client_world = record {
  node = register_remote_service (codes "server") a_service new_node;
  effects = [];
}

pub client_world-IsConsistent : IsConsistent client_world.node
unfolding register_remote_service
client_world-IsConsistent =
    set_service-IsConsistent new_node IsConsistent-new_node (codes "server") a_service

good_request-detail :
    extract_request_detail_from_fasthttp_request good_request no_detail ≡ (detail, none)
unfolding extract_request_detail_from_fasthttp_request find_all is_digit is_word bytes_eq
    extract_service_id_and_user_key
good_request-detail = refl

send_request-route_example :
    send_request test_env good_request client_world
    ≡ route test_env good_request client_world
        (codes "GET")
        detail
        (view client_world.node detail.service_name)
send_request-route_example =
    send_request-route test_env good_request client_world (codes "GET") detail refl
      client_world-IsConsistent good_request-detail (view client_world.node detail.service_name)
      refl

abbrev bad_request : Request
bad_request = get_at (codes "/v1/short")

abbrev bad_detail : RequestDetail
bad_detail = (extract_request_detail_from_fasthttp_request bad_request no_detail).0

abbrev bare_world : World
bare_world = record client_world { node = new_node }

malformed_request_example :
    (send_request test_env bad_request bare_world ≡ (
      returned,
      add_effects
          (add_effects bare_world (
            replied 500
              (codes "ClientSideGateway: extract service name error: " ++ invalid_path_format)
            ∷ []))
          (not_found ∷ []),
    ))
    × (response bare_world (send_request test_env bad_request bare_world).1
        ≡ (404, codes "ClientSideGateway: Service not found"))
unfolding extract_request_detail_from_fasthttp_request find_all is_digit is_word new_node bytes_eq
    extract_service_id_and_user_key
malformed_request_example =
    malformed_request test_env bad_request bare_world (codes "GET") bad_detail refl
      invalid_path_format refl refl

-- the service side, without the service and with it
abbrev empty_world : World
empty_world = record { node = new_node; effects = [] }

abbrev service_world : World
service_world = record empty_world {
  node = record new_node { services = insert (codes "aaaaaaaaaa") a_service empty };
}

abbrev back : Stream
back = record { peer = codes "client"; protocol = proxy_http_resp_from_service_side; tag = 0 }

abbrev waiting_world : World
waiting_world = record empty_world {
  node = record new_node { client_http_data_chan = insert message.request_id tt empty };
}

abbrev service_url : Bytes
service_url = codes "http" ++ codes "localhost:8080" ++ detail.proxy_request_path

sent_message : send_request test_env good_request client_world ≡ (
  done (codes "server", service_request test_env good_request detail a_service (codes "GET")),
  (send_request test_env good_request client_world).1,
)
unfolding send_request find_all is_digit is_word register_remote_service insert bytes_eq
    extract_service_id_and_user_key
sent_message = refl

early_answer_blocks_example :
    proxy_http_resp_handler test_env
      (data_ch answer)
      (send_request test_env good_request client_world).1
    ≡ (blocked, (send_request test_env good_request client_world).1)
unfolding new_node register_remote_service new_request_id find_all bytes_eq within is_digit is_word
    extract_request_detail_from_fasthttp_request extract_service_id_and_user_key
early_answer_blocks_example =
    early_answer_blocks test_env good_request client_world
      (send_request test_env good_request client_world).1 (codes "server")
      (service_request test_env good_request detail a_service (codes "GET")) answer answer refl
      sent_message refl
