-- ===== src/Network/Progress.antt =====
-- A client's request, from its handler to the service and back (internal/trans_network/csgw_http.go
-- and node_proxy_handler.go).
use apron_gateway_p2p.Prelude.{
  ◌≡◌, refl, sym, ap, ◌∙◌, false, none, some, List, [], ◌∷◌, ◌++◌, append_assoc, append-nil, Bytes,
  map, drop-length-append, insert_self,
}
use mathlib.Core.Path.{subst}
use apron_gateway_p2p.Outcome.{ok}
use apron_gateway_p2p.Models.{ApronService, ApronServiceProvider, ApronServiceRequest}
use apron_gateway_p2p.Node.{PeerId}
use apron_gateway_p2p.RequestDetail.{
  Request, RequestDetail, no_detail, extract_request_detail_from_fasthttp_request,
}
use apron_gateway_p2p.Registry.Invariant.{IsConsistent}
use apron_gateway_p2p.Registry.Directory.{view}
use apron_gateway_p2p.Wire.Frame.{write_bytes_via_stream}
use apron_gateway_p2p.Act.{World, Stream, Effect, Exit, opened, wrote, done}
use apron_gateway_p2p.Act.Frames.{frames_in}
use apron_gateway_p2p.Gateway.Env.{Env, proxy_http_init_req, proxy_http_resp_from_service_side}
use apron_gateway_p2p.Gateway.Http.{service_request, serve_http_request}
use apron_gateway_p2p.Gateway.Routing.{
  add_effects, with_request_id, send_request-route, route, route_providers, route_stream,
  route_message,
}
use apron_gateway_p2p.Network.Steps.{
  Network, ask, wait_for, sent, IsFresh, serve_arrived, hand_over, finish, Step, asks, waits,
  new_effects,
}
use apron_gateway_p2p.Network.Arrived.{frame_answered}

module _ (client : Env) (service : PeerId → Env) (n : Network) (uuid : Bytes) (req : Request)
    (raw : Bytes) (detail : RequestDetail) (p : PeerId) (entry : ApronService)
    (q : ApronServiceProvider) (qs : List ApronServiceProvider) (t : Stream)
    (msg_bytes : Bytes) where
  abbrev env : Env
  env = record client { uuid = uuid }

  abbrev pub message : ApronServiceRequest
  message = service_request env req detail entry raw

  abbrev pub asked : Network
  asked = ask client service uuid req n

  abbrev pub waiting : Network
  waiting = wait_for client service message asked

  abbrev framed : List Effect
  framed = opened t ∷ map (wrote t) (write_bytes_via_stream msg_bytes)

  module _ (dumped : client.dump_request req ≡ ok raw)
      (extracts : extract_request_detail_from_fasthttp_request req no_detail ≡ (detail, none))
      (consistent : IsConsistent n.client.node)
      (seen : view n.client.node detail.service_name ≡ some (p, entry))
      (provider : entry.providers ≡ q ∷ qs) (opens : client.new_stream p proxy_http_init_req ≡ ok t)
      (marshals : client.marshal_request message ≡ ok msg_bytes)
      (fresh : n.asked message.request_id ≡ none) where
    sent_lem :
        sent client service uuid req n
        ≡ (done (p, message), add_effects (with_request_id message.request_id n.client) framed)
    unfolding route route_providers route_stream route_message
    sent_lem =
        send_request-route env req n.client raw detail dumped consistent extracts (some (p, entry))
          seen
        ∙ simp provider (rw (opens, marshals) refl)
        ∙ ap
            (λ (es : List Effect). (
              done (p, message),
              record (with_request_id message.request_id n.client) { effects = es },
            ))
            (append_assoc n.client.effects (opened t ∷ [])
              (map (wrote t) (write_bytes_via_stream msg_bytes)))

    one_frame : frames_in framed ≡ (t, msg_bytes) ∷ []
    unfolding frames_in write_bytes_via_stream
    one_frame = refl

    on_its_way : waiting.requests ≡ n.requests ++ (t, msg_bytes) ∷ []
    unfolding ask wait_for
    on_its_way =
        ap
          (λ (r : Exit (PeerId × ApronServiceRequest) × World).
            n.requests ++ frames_in (new_effects n.client r.1))
          sent_lem
        ∙ ap (λ (es : List Effect). n.requests ++ frames_in es)
            (drop-length-append n.client.effects framed)
        ∙ ap (λ fs. n.requests ++ fs) one_frame

    channel_waits : waiting.client.node.client_http_data_chan message.request_id ≡ some tt
    unfolding wait_for serve_http_request
    channel_waits = insert_self message.request_id tt asked.client.node.client_http_data_chan

    asks_step : Step client service n asked
    asks_step = asks uuid req n (
        subst (λ (r : Exit (PeerId × ApronServiceRequest) × World). IsFresh r.0 n.asked)
          (sym sent_lem) fresh)

    module _ (back : Stream) (data_bytes uri body : Bytes) (peer : PeerId) (offered : ApronService)
        (q' : ApronServiceProvider) (qs' : List ApronServiceProvider) where
      abbrev pub served : Network
      served = serve_arrived client service (t, msg_bytes) (n.requests ++ []) waiting

      abbrev pub handed : Network
      handed = hand_over client service (back, data_bytes) (n.answers ++ []) served

      abbrev pub finished : Network
      finished = finish client service (message.request_id, body) (n.handed ++ []) handed

      -- Whatever else is on its way: a client's request that parses, for a service that its gateway, whose
      -- registry is consistent, sees, with a provider, and that the gateway at the end of its stream has too, is asked, waits, is served there,
      -- and the answer is handed over and written to the client. These five steps can be taken one after
      -- another, and then the client has got, under a request id that was not in use before, the body of the
      -- service's response to its own request and nothing else; what was on its way or in a channel before is
      -- all that is, and the channel of the id is gone. For this each call of a library succeeds, protobuf
      -- gives back the two messages, the service side reads the request as the client side dumped it, and it
      -- is no WebSocket request.
      pub request_answered :
          client.is_websocket_upgrade req ≡ false
          → (service t.peer).unmarshal_request msg_bytes ≡ ok message
          → (service t.peer).read_request raw ≡ ok req
          → (service t.peer).decode_peer message.peer_id ≡ ok peer
          → (n.services t.peer).node.services message.service_id ≡ some offered
          → offered.providers ≡ q' ∷ qs'
          → (service t.peer).service_uri q'.schema q'.base_url detail.proxy_request_path
              req.query_args
            ≡ ok uri
          → (service t.peer).new_stream peer proxy_http_resp_from_service_side ≡ ok back
          → (service t.peer).do_request uri req ≡ ok body
          → (service t.peer).marshal_data
              (record { request_id = message.request_id; raw_data = body })
            ≡ ok data_bytes
          → client.unmarshal_data data_bytes
            ≡ ok (record { request_id = message.request_id; raw_data = body })
          → Step client service n asked
            × Step client service asked waiting
            × Step client service waiting served
            × Step client service served handed
            × Step client service handed finished
            × (finished.replies ≡ n.replies ++ (message.request_id, body) ∷ [])
            × (finished.requests ≡ n.requests)
            × (finished.answers ≡ n.answers)
            × (finished.handed ≡ n.handed)
            × (finished.client.node.client_http_data_chan message.request_id ≡ none)
      unfolding ask wait_for serve_arrived hand_over finish
      request_answered plain decodes recovers peer_known at_service offers uri_built opens_back
            answers encodes decoded =
          let (serving, handing, finishing, replied, gone) =
            frame_answered client service waiting t back message msg_bytes data_bytes uri body req
              detail none peer offered q' qs' n.requests [] decodes recovers extracts peer_known
              at_service offers uri_built opens_back answers encodes plain decoded channel_waits
              on_its_way in
          (
            asks_step,
            waits message asked,
            serving,
            handing,
            finishing,
            replied,
            append-nil n.requests,
            append-nil n.answers,
            append-nil n.handed,
            gone,
          )
