-- ===== src/Gateway/Races.antt =====
-- What can go wrong between the steps of the two gateways (internal/trans_network/csgw_http.go and
-- node_proxy_handler.go).
use apron_gateway_p2p.Prelude.{◌≡◌, refl, ap, ◌∙◌, Option, none, some, List, [], ◌∷◌, Bytes, GoMap}
use apron_gateway_p2p.Outcome.{Outcome, ok, err, panic}
use apron_gateway_p2p.Models.{ApronService, ApronServiceProvider, ApronServiceRequest}
use apron_gateway_p2p.Node.{Node, PeerId}
use apron_gateway_p2p.RequestDetail.{Request}
use apron_gateway_p2p.Wire.Frame.{data_ch}
use apron_gateway_p2p.Act.{World, Stream, done, blocked}
use apron_gateway_p2p.Act.Keeps.{Keeps, keeps_rules}
use apron_gateway_p2p.Gateway.Env.{Env}
use apron_gateway_p2p.Gateway.Http.{
  send_request, forward, report_extract_error, require_peer, require_service, require_providers,
  require_stream, register_request_id,
}
use apron_gateway_p2p.Gateway.Service.{proxy_http_resp_handler}
use apron_gateway_p2p.Gateway.Delivery.{answer_blocks}

-- the channels that wait for answers
module _ (chans : GoMap (Unit {0})) where
  abbrev SameChans : Node → Type 0
  SameChans n = n.client_http_data_chan ≡ chans

  report-Keeps : (e : Option Bytes) → Keeps SameChans (report_extract_error e)
  unfolding report_extract_error
  report-Keeps none = search keeps_rules
  report-Keeps (some e) = search keeps_rules

  peer-Keeps : (p : Option PeerId) → Keeps SameChans (require_peer p)
  unfolding require_peer
  peer-Keeps none = search keeps_rules
  peer-Keeps (some p) = search keeps_rules

  service-Keeps : (s : Option ApronService) → Keeps SameChans (require_service s)
  unfolding require_service
  service-Keeps none = search keeps_rules
  service-Keeps (some s) = search keeps_rules

  providers-Keeps : (ps : List ApronServiceProvider) → Keeps SameChans (require_providers ps)
  unfolding require_providers
  providers-Keeps [] = search keeps_rules
  providers-Keeps (p ∷ ps) = search keeps_rules

  stream-Keeps : (o : Outcome Stream) → Keeps SameChans (require_stream o)
  unfolding require_stream
  stream-Keeps (ok s) = search keeps_rules
  stream-Keeps (err e) = search keeps_rules
  stream-Keeps (panic e) = search keeps_rules

  register-Keeps : (id : Bytes) → Keeps SameChans (register_request_id id)
  register-Keeps id = record { at = λ w h. h }

  ruleset handler_rules = (
    keeps_rules, report-Keeps, peer-Keeps, service-Keeps, providers-Keeps, stream-Keeps,
    register-Keeps,
  )

  forward-Keeps :
      (env : Env) (p : PeerId) (msg : ApronServiceRequest) → Keeps SameChans (forward env p msg)
  unfolding forward
  forward-Keeps env p msg = search handler_rules

  send_request-Keeps : (env : Env) (req : Request) → Keeps SameChans (send_request env req)
  unfolding send_request
  send_request-Keeps env req = search (handler_rules, forward-Keeps) depth 20

-- If a request without a channel for its id is sent, an answer to it that comes in before the handler
-- goes on blocks the stream's handler for ever and is not delivered.
pub early_answer_blocks :
    (env : Env) (req : Request) (w w' : World) (p : PeerId) (msg : ApronServiceRequest)
    (bytes body : Bytes)
    → w.node.client_http_data_chan msg.request_id ≡ none
    → send_request env req w ≡ (done (p, msg), w')
    → env.unmarshal_data bytes ≡ ok (record { request_id = msg.request_id; raw_data = body })
    → proxy_http_resp_handler env (data_ch bytes) w' ≡ (blocked, w')
early_answer_blocks env req w w' p msg bytes body fresh sent decodes =
    let same : w'.node.client_http_data_chan ≡ w.node.client_http_data_chan =
      rw sent at ((send_request-Keeps w.node.client_http_data_chan env req).at w refl) in
    answer_blocks env bytes (record { request_id = msg.request_id; raw_data = body }) decodes w'
      (ap (λ (c : GoMap (Unit {0})). c msg.request_id) same ∙ fresh)
