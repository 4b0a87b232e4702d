-- ===== src/Tests/Answers.antt =====
-- A request that is answered while another is on its way (internal/trans_network).
use apron_gateway_p2p.Prelude.{◌≡◌, refl, none, some, [], ◌∷◌, ◌++◌, codes, insert, bytes_eq}
use apron_gateway_p2p.RequestDetail.{
  RequestDetail, no_detail, extract_request_detail_from_fasthttp_request, within, is_digit, is_word,
  extract_service_id_and_user_key,
}
use apron_gateway_p2p.RequestId.{new_request_id}
use apron_gateway_p2p.Registry.{register_remote_service}
use apron_gateway_p2p.Regex.{find_all}
use apron_gateway_p2p.Network.Steps.{Network, Step, ask, wait_for, serve_arrived, hand_over, finish}
use apron_gateway_p2p.Registry.Directory.{view}
use apron_gateway_p2p.Network.Progress.{request_answered}
use apron_gateway_p2p.Tests.Gateways.{a_service, provider, client_world-IsConsistent}
use apron_gateway_p2p.Tests.Codecs.{asked_for, net_env}
use apron_gateway_p2p.Tests.Networks.{
  services, start, frame_of, answer_of, message_of, id_of, seven, eight,
}

abbrev detail_b : RequestDetail
detail_b = (extract_request_detail_from_fasthttp_request (asked_for (codes "b")) no_detail).0

detail_found :
    extract_request_detail_from_fasthttp_request (asked_for (codes "b")) no_detail
    ≡ (detail_b, none)
unfolding extract_request_detail_from_fasthttp_request find_all is_digit is_word bytes_eq
    extract_service_id_and_user_key
detail_found = refl

-- another request is on its way
abbrev busy : Network
busy = record start { requests = frame_of seven (codes "a") ∷ [] }

abbrev asked_b : Network
asked_b = ask net_env services eight (asked_for (codes "b")) busy

abbrev waiting_b : Network
waiting_b = wait_for net_env services (message_of eight (codes "b")) asked_b

abbrev served_b : Network
served_b =
    serve_arrived net_env services (frame_of eight (codes "b")) (frame_of seven (codes "a") ∷ [])
      waiting_b

abbrev handed_b : Network
handed_b = hand_over net_env services (answer_of eight (codes "OK b")) [] served_b

abbrev finished_b : Network
finished_b = finish net_env services (id_of eight, codes "OK b") [] handed_b

seen_b : view busy.client.node detail_b.service_name ≡ some (codes "server", a_service)
unfolding view register_remote_service insert bytes_eq find_all is_digit is_word
    extract_request_detail_from_fasthttp_request extract_service_id_and_user_key
seen_b = refl

request_answered_example :
    Step net_env services busy asked_b
    × Step net_env services asked_b waiting_b
    × Step net_env services waiting_b served_b
    × Step net_env services served_b handed_b
    × Step net_env services handed_b finished_b
    × (finished_b.replies ≡ (id_of eight, codes "OK b") ∷ [])
    × (finished_b.requests ≡ frame_of seven (codes "a") ∷ [])
    × (finished_b.answers ≡ [])
    × (finished_b.handed ≡ [])
    × (finished_b.client.node.client_http_data_chan (id_of eight) ≡ none)
unfolding insert bytes_eq new_request_id extract_request_detail_from_fasthttp_request find_all
    within is_digit is_word extract_service_id_and_user_key
request_answered_example =
    request_answered net_env services busy eight (asked_for (codes "b")) (codes "b") detail_b
      (codes "server") a_service provider [] (frame_of eight (codes "b")).0
      (frame_of eight (codes "b")).1 refl detail_found client_world-IsConsistent seen_b refl refl
      refl refl (answer_of eight (codes "OK b")).0 (answer_of eight (codes "OK b")).1
      (codes "http" ++ codes "localhost:8080" ++ detail_b.proxy_request_path) (codes "OK b")
      (codes "client") a_service provider [] refl refl refl refl refl refl refl refl refl refl refl
