-- ===== src/Tests/Networks.antt =====
-- Two requests at a time through the gateways of internal/trans_network, answered in the other order.
use apron_gateway_p2p.Prelude.{
  ◌≡◌, refl, sym, false, true, List, [], ◌∷◌, ◌++◌, Bytes, codes, empty, insert, bytes_eq, All,
  tally, ◌≤◌,
}
use mathlib.Core.Path.{subst}
use apron_gateway_p2p.Outcome.{ok}
use apron_gateway_p2p.Models.{ApronServiceRequest}
use apron_gateway_p2p.Node.{new_node, PeerId}
use apron_gateway_p2p.RequestDetail.{
  extract_request_detail_from_fasthttp_request, within, is_digit, is_word,
  extract_service_id_and_user_key,
}
use apron_gateway_p2p.RequestId.{new_request_id}
use apron_gateway_p2p.Registry.{register_remote_service}
use apron_gateway_p2p.Regex.{find_all}
use apron_gateway_p2p.Wire.Frame.{write_bytes_via_stream}
use apron_gateway_p2p.Act.{World}
use apron_gateway_p2p.Act.Frames.{Frame, frames_in}
use apron_gateway_p2p.Gateway.Env.{Env, proxy_http_init_req, proxy_http_resp_from_service_side}
use apron_gateway_p2p.Gateway.Http.{send_request, serve_http_request, finish_http_request}
use apron_gateway_p2p.Gateway.Service.{proxy_http_init_request_handler, proxy_http_resp_handler}
use apron_gateway_p2p.Network.Steps.{
  Network, idle, ask, wait_for, serve_arrived, hand_over, finish, Reach, here, next, asks, waits,
  serves, hands, finishes, chan_data, reply_bodies, note_asked,
}
use apron_gateway_p2p.Network.Isolation.{replies_isolated}
use apron_gateway_p2p.Network.Answers.{Codecs, Answers}
use apron_gateway_p2p.Network.Once.{uses, label_of, replies_once}
use apron_gateway_p2p.Tests.Gateways.{client_world, a_service}
use apron_gateway_p2p.Tests.Codecs.{
  encode_data, decode_data, encode_request, decode_request, decode_data-encode_data,
  decode_request-encode_request, asked_for, net_env, encode_socket, wire_of, decode_socket-wire_of,
}
use apron_gateway_p2p.Gateway.Tasks.{perform, client_request}
use apron_gateway_p2p.Network.Protocols.{Field, socket_service_fields, Compatible, Understood}
use apron_gateway_p2p.Network.Typing.{perform-Understood}

abbrev pub services : PeerId → Env
services p = net_env

net_env-Codecs : Codecs net_env services
net_env-Codecs = record {
  requests = λ p m b h.
      let e : encode_request m ≡ b = cc in
      subst (λ (c : Bytes). decode_request c ≡ ok m) e (decode_request-encode_request m);
  answers = λ p d b h.
      let e : encode_data d ≡ b = cc in
      subst (λ (c : Bytes). decode_data c ≡ ok d) e (decode_data-encode_data d);
  streams = λ p protocol t h. cc;
}

abbrev pub service_worlds : PeerId → World
service_worlds p = record {
  node = record new_node { services = insert (codes "aaaaaaaaaa") a_service empty };
  effects = [];
}

abbrev pub start : Network
start = idle client_world service_worlds

abbrev pub both_asked : Network
both_asked =
    ask net_env services (codes "8") (asked_for (codes "b"))
      (ask net_env services (codes "7") (asked_for (codes "a")) start)

abbrev pub id_of : Bytes → Bytes
id_of uuid = codes "hellouser.aaaaaaaaaa." ++ uuid

abbrev pub message_of : Bytes → Bytes → ApronServiceRequest
message_of uuid body = record {
  service_id = codes "aaaaaaaaaa";
  request_id = id_of uuid;
  peer_id = codes "client";
  is_ws_request = false;
  raw_request = body;
}

abbrev pub frame_of : Bytes → Bytes → Frame
frame_of uuid body = (
  record { peer = codes "server"; protocol = proxy_http_init_req; tag = 0 },
  encode_request (message_of uuid body),
)

abbrev pub answer_of : Bytes → Bytes → Frame
answer_of uuid body = (
  record { peer = codes "client"; protocol = proxy_http_resp_from_service_side; tag = 0 },
  encode_data (record { request_id = id_of uuid; raw_data = body }),
)

abbrev pub seven : Bytes
seven = codes "7"

abbrev pub eight : Bytes
eight = codes "8"

abbrev pub both_wait : Network
both_wait =
    wait_for net_env services (message_of eight (codes "b"))
      (wait_for net_env services (message_of seven (codes "a")) both_asked)

-- the second is served first
abbrev both_served : Network
both_served = serve_arrived net_env services (frame_of seven (codes "a")) [] (
    serve_arrived net_env services (frame_of eight (codes "b")) (frame_of seven (codes "a") ∷ [])
      both_wait)

abbrev both_handed : Network
both_handed = hand_over net_env services (answer_of eight (codes "OK b")) [] (
    hand_over net_env services (answer_of seven (codes "OK a"))
      (answer_of eight (codes "OK b") ∷ []) both_served)

abbrev both_finished : Network
both_finished =
    finish net_env services (id_of eight, codes "OK b") []
      (finish net_env services (id_of seven, codes "OK a") ((id_of eight, codes "OK b") ∷ [])
        both_handed)

ask_twice : Reach net_env services start both_asked
unfolding ask note_asked send_request extract_request_detail_from_fasthttp_request find_all is_digit
    is_word bytes_eq extract_service_id_and_user_key insert register_remote_service new_request_id
ask_twice = next (next here (asks seven (asked_for (codes "a")) start refl)) (
    asks eight (asked_for (codes "b")) (ask net_env services seven (asked_for (codes "a")) start)
      refl)

wait_twice : Reach net_env services start both_wait
wait_twice = next (next ask_twice (waits (message_of seven (codes "a")) both_asked)) (
    waits (message_of eight (codes "b"))
      (wait_for net_env services (message_of seven (codes "a")) both_asked))

pub requests_sent :
    both_wait.requests ≡ frame_of seven (codes "a") ∷ frame_of eight (codes "b") ∷ []
unfolding ask note_asked send_request extract_request_detail_from_fasthttp_request find_all is_digit
    is_word bytes_eq extract_service_id_and_user_key insert register_remote_service new_request_id
    wait_for frames_in write_bytes_via_stream
requests_sent = refl

answers_sent :
    both_served.answers ≡ answer_of eight (codes "OK b") ∷ answer_of seven (codes "OK a") ∷ []
unfolding ask serve_arrived proxy_http_init_request_handler
    extract_request_detail_from_fasthttp_request find_all is_digit is_word bytes_eq
    extract_service_id_and_user_key insert wait_for frames_in write_bytes_via_stream
answers_sent = refl

data_handed : both_handed.handed ≡ (id_of seven, codes "OK a") ∷ (id_of eight, codes "OK b") ∷ []
unfolding hand_over serve_arrived wait_for ask serve_http_request chan_data bytes_eq insert
    proxy_http_init_request_handler proxy_http_resp_handler send_request
    extract_request_detail_from_fasthttp_request find_all is_digit is_word
    extract_service_id_and_user_key register_remote_service write_bytes_via_stream
data_handed = refl

serve_twice : Reach net_env services start both_served
unfolding serve_arrived
serve_twice =
    next
      (next wait_twice (
        serves (frame_of eight (codes "b")) (frame_of seven (codes "a") ∷ []) [] both_wait
          requests_sent))
      (serves (frame_of seven (codes "a")) [] []
        (serve_arrived net_env services (frame_of eight (codes "b"))
          (frame_of seven (codes "a") ∷ []) both_wait)
        refl)

hand_twice : Reach net_env services start both_handed
unfolding hand_over
hand_twice =
    next
      (next serve_twice (
        hands (answer_of seven (codes "OK a")) (answer_of eight (codes "OK b") ∷ []) [] both_served
          answers_sent))
      (hands (answer_of eight (codes "OK b")) [] []
        (hand_over net_env services (answer_of seven (codes "OK a"))
          (answer_of eight (codes "OK b") ∷ []) both_served)
        refl)

finish_twice : Reach net_env services start both_finished
unfolding finish
finish_twice =
    next
      (next hand_twice (
        finishes (id_of seven, codes "OK a") [] ((id_of eight, codes "OK b") ∷ []) both_handed
          data_handed))
      (finishes (id_of eight, codes "OK b") [] []
        (finish net_env services (id_of seven, codes "OK a") ((id_of eight, codes "OK b") ∷ [])
          both_handed)
        refl)

replies_isolated_example :
    All
      (Answers net_env services both_finished.asked)
      ((id_of seven, codes "OK a") ∷ (id_of eight, codes "OK b") ∷ [])
unfolding finish finish_http_request reply_bodies hand_over serve_arrived wait_for ask
    serve_http_request proxy_http_resp_handler insert bytes_eq send_request find_all within is_digit
    is_word extract_service_id_and_user_key register_remote_service write_bytes_via_stream
replies_isolated_example =
    replies_isolated net_env services net_env-Codecs client_world service_worlds both_finished
      finish_twice

replies_once_example :
    tally label_of (id_of seven) both_finished.replies ≤ uses (both_finished.asked (id_of seven))
replies_once_example =
    replies_once net_env services (id_of seven) net_env-Codecs client_world service_worlds
      both_finished finish_twice

any_text : (fields : List Field) → All (λ (f : Field). true ≡ true) fields
any_text [] = tt
any_text (f ∷ fields) = (refl, any_text fields)

net_env-Compatible : Compatible net_env net_env
net_env-Compatible = record {
  streams = λ p protocol t h. cc;
  requests = net_env-Codecs.requests [];
  contents = net_env-Codecs.answers [];
  wire = wire_of;
  is_utf8 = λ t. true;
  packs = λ m b h. let e : encode_socket m ≡ b = cc in (sym e, any_text (socket_service_fields m));
  unpacks = λ fields h. decode_socket-wire_of fields;
}

perform-Understood_example : All (Understood net_env net_env) (frame_of seven (codes "a") ∷ [])
unfolding perform frames_in find_all bytes_eq within is_digit is_word
    extract_service_id_and_user_key register_remote_service insert write_bytes_via_stream
    new_request_id
perform-Understood_example =
    perform-Understood net_env net_env net_env-Compatible (client_request (asked_for (codes "a")))
      client_world
