-- ===== src/Network/Arrived.antt =====
-- A frame of a request on its way is served, and its answer handed over and written
-- (internal/trans_network/csgw_http.go and node_proxy_handler.go).
use apron_gateway_p2p.Prelude.{
  ◌≡◌, refl, ap, ◌∙◌, false, Option, some, List, [], ◌∷◌, ◌++◌, append_assoc, Bytes, map,
  drop-length-append, delete_self, none,
}
use apron_gateway_p2p.Outcome.{ok}
use apron_gateway_p2p.Models.{ApronService, ApronServiceProvider, ApronServiceRequest}
use apron_gateway_p2p.Node.{PeerId}
use apron_gateway_p2p.RequestDetail.{
  Request, RequestDetail, no_detail, extract_request_detail_from_fasthttp_request,
}
use apron_gateway_p2p.Wire.Frame.{data_ch, write_bytes_via_stream}
use apron_gateway_p2p.Act.{World, Stream, Effect, opened, wrote, requested, sent_chan, done, Exit}
use apron_gateway_p2p.Act.Frames.{Frame, frames_in}
use apron_gateway_p2p.Gateway.Env.{Env, proxy_http_resp_from_service_side}
use apron_gateway_p2p.Gateway.Service.{proxy_http_init_request_handler, proxy_http_resp_handler}
use apron_gateway_p2p.Gateway.Http.{finish_http_request}
use apron_gateway_p2p.Gateway.Routing.{add_effects}
use apron_gateway_p2p.Gateway.Delivery.{http_round_trip}
use apron_gateway_p2p.Network.Steps.{
  Network, serve_arrived, hand_over, finish, chan_data, Step, serves, hands, finishes, new_effects,
}
use apron_gateway_p2p.Network.Moves.{finish-reply_bodies}

added_effects : (w : World) (es : List Effect) → new_effects w (add_effects w es) ≡ es
added_effects w es = drop-length-append w.effects es

module _ (client : Env) (service : PeerId → Env) (n : Network) (s back : Stream)
    (msg : ApronServiceRequest) (msg_bytes data_bytes uri body : Bytes) (http_req : Request)
    (detail : RequestDetail) (failure : Option Bytes) (peer : PeerId) (offered : ApronService)
    (q : ApronServiceProvider) (qs : List ApronServiceProvider) (before after : List Frame) where
  abbrev env : Env
  env = service s.peer

  abbrev node_world : World
  node_world = n.services s.peer

  abbrev answer : List Effect
  answer = opened back ∷ requested uri ∷ map (wrote back) (write_bytes_via_stream data_bytes)

  one_frame : frames_in answer ≡ (back, data_bytes) ∷ []
  unfolding frames_in write_bytes_via_stream
  one_frame = refl

  together :
      node_world.effects
        ++ opened back ∷ []
        ++ requested uri ∷ []
        ++ map (wrote back) (write_bytes_via_stream data_bytes)
      ≡ node_world.effects ++ answer
  together =
      let m = map (wrote back) (write_bytes_via_stream data_bytes) in
      append_assoc (node_world.effects ++ opened back ∷ []) (requested uri ∷ []) m
      ∙ append_assoc node_world.effects (opened back ∷ []) (requested uri ∷ m)

  module _ (decodes : env.unmarshal_request msg_bytes ≡ ok msg)
      (recovers : env.read_request msg.raw_request ≡ ok http_req)
      (extracts : extract_request_detail_from_fasthttp_request http_req no_detail
        ≡ (detail, failure))
      (peer_known : env.decode_peer msg.peer_id ≡ ok peer)
      (at_service : node_world.node.services msg.service_id ≡ some offered)
      (provider : offered.providers ≡ q ∷ qs)
      (uri_built : env.service_uri q.schema q.base_url detail.proxy_request_path http_req.query_args
        ≡ ok uri)
      (opens : env.new_stream peer proxy_http_resp_from_service_side ≡ ok back)
      (answers : env.do_request uri http_req ≡ ok body)
      (encodes : env.marshal_data (record { request_id = msg.request_id; raw_data = body })
        ≡ ok data_bytes)
      (plain : msg.is_ws_request ≡ false)
      (decoded : client.unmarshal_data data_bytes
        ≡ ok (record { request_id = msg.request_id; raw_data = body }))
      (waits : n.client.node.client_http_data_chan msg.request_id ≡ some tt)
      (on_its_way : n.requests ≡ before ++ (s, msg_bytes) ∷ after) where
    abbrev pub served : Network
    served = serve_arrived client service (s, msg_bytes) (before ++ after) n

    abbrev pub handed : Network
    handed = hand_over client service (back, data_bytes) (n.answers ++ []) served

    abbrev pub finished : Network
    finished = finish client service (msg.request_id, body) (n.handed ++ []) handed

    trip :
        (proxy_http_init_request_handler env (data_ch msg_bytes) node_world
          ≡ (done tt, add_effects node_world answer))
        × (proxy_http_resp_handler client (data_ch data_bytes) n.client
            ≡ (done tt, add_effects n.client (sent_chan msg.request_id body ∷ [])))
    trip =
        let (there, back_again, rest) =
          http_round_trip env node_world msg msg_bytes http_req detail failure peer decodes recovers
            extracts peer_known offered q qs uri body data_bytes back at_service provider uri_built
            opens answers encodes client n.client plain decoded waits in
        (
          there
              ∙ ap
                  (λ (es : List Effect). (done tt, record { node = node_world.node; effects = es }))
                  together,
          back_again,
        )

    served_answers : served.answers ≡ n.answers ++ (back, data_bytes) ∷ []
    unfolding serve_arrived
    served_answers =
        ap (λ (r : Exit (Unit {0}) × World). n.answers ++ frames_in (new_effects node_world r.1))
          trip.0
        ∙ ap (λ (es : List Effect). n.answers ++ frames_in es) (added_effects node_world answer)
        ∙ ap (λ (fs : List Frame). n.answers ++ fs) one_frame

    handed_data : handed.handed ≡ n.handed ++ (msg.request_id, body) ∷ []
    unfolding serve_arrived hand_over chan_data
    handed_data =
        ap (λ (r : Exit (Unit {0}) × World). n.handed ++ chan_data (new_effects n.client r.1))
          trip.1
        ∙ ap (λ (es : List Effect). n.handed ++ chan_data es)
            (added_effects n.client (sent_chan msg.request_id body ∷ []))

    -- Whatever else is on its way: the three steps of the frame.
    pub frame_answered :
        Step client service n served
        × Step client service served handed
        × Step client service handed finished
        × (finished.replies ≡ n.replies ++ (msg.request_id, body) ∷ [])
        × (finished.client.node.client_http_data_chan msg.request_id ≡ none)
    unfolding serve_arrived hand_over finish finish_http_request
    frame_answered = (
      serves (s, msg_bytes) before after n on_its_way,
      hands (back, data_bytes) n.answers [] served served_answers,
      finishes (msg.request_id, body) n.handed [] handed handed_data,
      ap (λ (bodies : List Bytes). n.replies ++ map (λ b. (msg.request_id, b)) bodies)
          (finish-reply_bodies client msg.request_id body handed.client),
      delete_self msg.request_id handed.client.node.client_http_data_chan,
    )
