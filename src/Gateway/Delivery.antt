-- ===== src/Gateway/Delivery.antt =====
-- From the client side gateway to the service and back (internal/trans_network/csgw_http.go and
-- node_proxy_handler.go).
use apron_gateway_p2p.Prelude.{
  ◌≡◌, refl, false, Option, none, some, List, [], ◌∷◌, ◌++◌, Bytes, codes, map, delete,
}
use apron_gateway_p2p.Outcome.{ok}
use apron_gateway_p2p.Models.{
  ApronService, ApronServiceProvider, ApronServiceRequest, ApronServiceData,
}
use apron_gateway_p2p.Node.{PeerId}
use apron_gateway_p2p.RequestDetail.{
  Request, RequestDetail, no_detail, extract_request_detail_from_fasthttp_request,
}
use apron_gateway_p2p.Wire.Frame.{data_ch, write_bytes_via_stream}
use apron_gateway_p2p.Act.{
  World, Stream, opened, wrote, requested, sent_chan, wrote_reply, done, blocked, panicked,
}
use apron_gateway_p2p.Gateway.Env.{Env, proxy_http_resp_from_service_side}
use apron_gateway_p2p.Gateway.Http.{finish_http_request}
use apron_gateway_p2p.Gateway.Service.{proxy_http_init_request_handler, proxy_http_resp_handler}
use apron_gateway_p2p.Gateway.Routing.{add_effects}

module _ (env : Env) (bytes : Bytes) (d : ApronServiceData)
    (decodes : env.unmarshal_data bytes ≡ ok d) (w : World) where
  -- An answer is handed to the channel of its request id, with its own data.
  pub answer_delivered :
      w.node.client_http_data_chan d.request_id ≡ some tt
      → proxy_http_resp_handler env (data_ch bytes) w
        ≡ (done tt, add_effects w (sent_chan d.request_id d.raw_data ∷ []))
  unfolding proxy_http_resp_handler
  answer_delivered h = rw (decodes, h) refl

  pub answer_blocks :
      w.node.client_http_data_chan d.request_id ≡ none
      → proxy_http_resp_handler env (data_ch bytes) w ≡ (blocked, w)
  unfolding proxy_http_resp_handler
  answer_blocks h = rw (decodes, h) refl

-- The message of a request at the service side gateway, for a service that it has.
module _ (env : Env) (v : World) (msg : ApronServiceRequest) (msg_bytes : Bytes)
    (http_req : Request) (detail : RequestDetail) (failure : Option Bytes) (peer : PeerId)
    (decodes : env.unmarshal_request msg_bytes ≡ ok msg)
    (recovers : env.read_request msg.raw_request ≡ ok http_req)
    (extracts : extract_request_detail_from_fasthttp_request http_req no_detail ≡ (detail, failure))
    (peer_known : env.decode_peer msg.peer_id ≡ ok peer) where
  -- A message that parses, for a service that the node does not have, panics.
  pub unknown_service_panics :
      v.node.services msg.service_id ≡ none
      → proxy_http_init_request_handler env (data_ch msg_bytes) v
        ≡ (panicked (codes "runtime error: index out of range [0] with length 0"), v)
  unfolding proxy_http_init_request_handler
  unknown_service_panics h = rw (decodes, recovers, extracts, peer_known, h) refl

  module _ (service : ApronService) (q : ApronServiceProvider) (qs : List ApronServiceProvider)
      (uri body data_bytes : Bytes) (t : Stream)
      (at_service : v.node.services msg.service_id ≡ some service)
      (provider : service.providers ≡ q ∷ qs)
      (uri_built : env.service_uri q.schema q.base_url detail.proxy_request_path http_req.query_args
        ≡ ok uri)
      (opens : env.new_stream peer proxy_http_resp_from_service_side ≡ ok t)
      (answers : env.do_request uri http_req ≡ ok body)
      (encodes : env.marshal_data (record { request_id = msg.request_id; raw_data = body })
        ≡ ok data_bytes) where
    service_side :
        msg.is_ws_request ≡ false
        → proxy_http_init_request_handler env (data_ch msg_bytes) v ≡ (
          done tt,
          record v {
            effects =
                v.effects
                ++ opened t ∷ []
                ++ requested uri ∷ []
                ++ map (wrote t) (write_bytes_via_stream data_bytes);
          },
        )
    unfolding proxy_http_init_request_handler
    service_side plain =
        rw (decodes, recovers, extracts, peer_known, at_service)
          (simp (provider, plain) (rw (uri_built, opens, answers, encodes) refl))

    -- Where each call of a library succeeds: an HTTP request at the service side gateway, for a
    -- service that it has with a provider, is passed to the service, and the body of the
    -- service's response is framed to the peer under the request's id; at the client side gateway,
    -- where a channel waits under that id, the body is handed to it and then written to the client,
    -- and the channel is removed.
    pub http_round_trip :
        (client : Env) (w : World)
        → msg.is_ws_request ≡ false
        → client.unmarshal_data data_bytes
          ≡ ok (record { request_id = msg.request_id; raw_data = body })
        → w.node.client_http_data_chan msg.request_id ≡ some tt
        → (proxy_http_init_request_handler env (data_ch msg_bytes) v ≡ (
          done tt,
          record v {
            effects =
                v.effects
                ++ opened t ∷ []
                ++ requested uri ∷ []
                ++ map (wrote t) (write_bytes_via_stream data_bytes);
          },
        ))
          × (proxy_http_resp_handler client (data_ch data_bytes) w
              ≡ (done tt, add_effects w (sent_chan msg.request_id body ∷ [])))
          × (finish_http_request client msg.request_id body w ≡ (
            done tt,
            record {
              node = record w.node {
                client_http_data_chan = delete msg.request_id w.node.client_http_data_chan;
              };
              effects = w.effects ++ wrote_reply body ∷ [];
            },
          ))
    unfolding finish_http_request
    http_round_trip client w plain decoded waits = (
      service_side plain,
      answer_delivered client data_bytes (record { request_id = msg.request_id; raw_data = body })
          decoded w waits,
      refl,
    )
