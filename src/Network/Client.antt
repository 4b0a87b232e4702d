-- ===== src/Network/Client.antt =====
-- What the client side gateway has written when it waits for an answer (internal/trans_network/csgw_http.go).
use apron_gateway_p2p.Prelude.{◌≡◌, refl, Option, none, some, List, [], ◌∷◌, Bytes}
use apron_gateway_p2p.Outcome.{Outcome, ok, err, panic}
use apron_gateway_p2p.Models.{ApronService, ApronServiceProvider, ApronServiceRequest}
use apron_gateway_p2p.Node.{Node, PeerId}
use apron_gateway_p2p.RequestDetail.{
  Request, RequestDetail, no_detail, extract_request_detail_from_fasthttp_request,
}
use apron_gateway_p2p.Act.{
  Stream, replied, opened, pure, emit, get_node, checked, write_frame, ◌>>=◌, ◌>>◌,
}
use apron_gateway_p2p.Act.Frames.{Frame}
use apron_gateway_p2p.Act.Ends.{
  Ends, Quiet, Any, Ends-then, Ends-map, Ends-pure, Quiet-checked, Ends-stop, Quiet-get_node,
  Quiet-put_node, Quiet-emit, Ends-write_frame, Ends-weaken,
}
use apron_gateway_p2p.Gateway.Env.{Env, proxy_http_init_req}
use apron_gateway_p2p.Gateway.Http.{
  fail_with, report_extract_error, require_peer, require_service, require_providers, require_stream,
  register_request_id, forward, send_request, service_request,
}

module _ {A : Type 0} (Q : A → List Frame → Type 0) where
  fail_with-Ends : (status : _) (message : Bytes) → Ends Q (fail_with status message)
  fail_with-Ends status message =
      Ends-then Any Q (emit (replied status message)) _ (Quiet-emit (replied status message) tt)
        (λ u h. Ends-stop Q)

report-Quiet : (e : Option Bytes) → Quiet Any (report_extract_error e)
unfolding report_extract_error
report-Quiet none = Ends-pure _ tt (refl, tt)
report-Quiet (some e) = Quiet-emit _ tt

peer-Quiet : (p : Option PeerId) → Quiet (λ q. p ≡ some q) (require_peer p)
unfolding require_peer
peer-Quiet none = fail_with-Ends _ _ _
peer-Quiet (some p) = Ends-pure _ p (refl, refl)

service-Quiet : (s : Option ApronService) → Quiet Any (require_service s)
unfolding require_service
service-Quiet none = fail_with-Ends _ _ _
service-Quiet (some s) = Ends-pure _ s (refl, tt)

providers-Quiet : (ps : List ApronServiceProvider) → Quiet Any (require_providers ps)
unfolding require_providers
providers-Quiet [] = fail_with-Ends _ _ _
providers-Quiet (p ∷ ps) = Ends-pure _ tt (refl, tt)

stream-Quiet : (o : Outcome Stream) → Quiet (λ s. o ≡ ok s) (require_stream o)
unfolding require_stream
stream-Quiet (ok s) =
    Ends-then Any _ (emit (opened s)) (λ u. pure s) (Quiet-emit (opened s) tt)
      (λ u h. Ends-pure _ s (refl, refl))
stream-Quiet (err e) = fail_with-Ends _ _ _
stream-Quiet (panic e) = Quiet-checked (panic e)

register-Quiet : (id : Bytes) → Quiet Any (register_request_id id)
register-Quiet id = Ends-then Any _ get_node _ Quiet-get_node (λ n h. Quiet-put_node _)

-- One frame, of the message's encoding, on a stream to the peer for requests.
abbrev pub Requested : Env → PeerId → ApronServiceRequest → List Frame → Type 0
Requested env p msg fs =
    (t : Stream) × (b : Bytes) × (fs ≡ (t, b) ∷ [])
    × (env.new_stream p proxy_http_init_req ≡ ok t)
    × (env.marshal_request msg ≡ ok b)

forward-Ends :
    (env : Env) (p : PeerId) (msg : ApronServiceRequest)
    → Ends (λ u fs. Requested env p msg fs) (forward env p msg)
unfolding forward
forward-Ends env p msg =
    let Q : Unit {0} → List Frame → Type 0 = λ u fs. Requested env p msg fs in
    Ends-then Any Q (register_request_id msg.request_id) _ (register-Quiet msg.request_id) λ u h.
      Ends-then (λ s. env.new_stream p proxy_http_init_req ≡ ok s) Q
        (require_stream (env.new_stream p proxy_http_init_req)) _
        (stream-Quiet (env.new_stream p proxy_http_init_req))
        λ s opens.
          Ends-then (λ b. env.marshal_request msg ≡ ok b) Q (checked (env.marshal_request msg)) _
            (Quiet-checked (env.marshal_request msg))
            λ b marshals.
              Ends-weaken (λ v fs. fs ≡ (s, b) ∷ []) Q (write_frame s b) (Ends-write_frame s b)
                (λ v fs e. (s, b, e, opens, marshals))

-- what is sent for a request
abbrev pub Sent : Env → Request → PeerId × ApronServiceRequest → List Frame → Type 0
Sent env req (p, msg) fs =
    Requested env p msg fs
    × (env.dump_request req ≡ ok msg.raw_request)
    × (msg.is_ws_request ≡ env.is_websocket_upgrade req)

module _ (env : Env) (req : Request) where
  looked_up-Ends :
      (detail : RequestDetail) (raw_req : Bytes) (n : Node) (service_peer_id : PeerId)
      → env.dump_request req ≡ ok raw_req
      → Ends (Sent env req) (do
        service ← require_service (n.services detail.service_name)
        require_providers service.providers
        let msg = service_request env req detail service raw_req
        forward env service_peer_id msg
        pure (service_peer_id, msg))
  looked_up-Ends detail raw_req n p dumped =
      Ends-then Any (Sent env req) (require_service (n.services detail.service_name)) _
        (service-Quiet (n.services detail.service_name))
        λ service h.
          Ends-then Any (Sent env req) (require_providers service.providers) _
            (providers-Quiet service.providers)
            λ u h'.
              let msg = service_request env req detail service raw_req in
              Ends-map (λ v fs. Requested env p msg fs) (Sent env req) (forward env p msg)
                (λ v. (p, msg)) (forward-Ends env p msg) (λ v fs r. (r, dumped, refl))

  after_extraction-Ends :
      (detail : RequestDetail) (extract_error : Option Bytes) (raw_req : Bytes)
      → env.dump_request req ≡ ok raw_req
      → Ends (Sent env req) (do
        report_extract_error extract_error
        n ← get_node
        service_peer_id ← require_peer (n.service_peer_mapping detail.service_name)
        service ← require_service (n.services detail.service_name)
        require_providers service.providers
        let msg = service_request env req detail service raw_req
        forward env service_peer_id msg
        pure (service_peer_id, msg))
  after_extraction-Ends detail e raw_req dumped =
      Ends-then Any (Sent env req) (report_extract_error e) _ (report-Quiet e) λ u h.
        Ends-then Any (Sent env req) get_node _ Quiet-get_node λ n h'.
          Ends-then _ (Sent env req) (require_peer (n.service_peer_mapping detail.service_name)) _
            (peer-Quiet (n.service_peer_mapping detail.service_name))
            (λ p h''. looked_up-Ends detail raw_req n p dumped)

  -- Whatever the node knows: when `send_request` goes on to wait, it has written one frame, of the
  -- message that it returns; when it ends in any other way, none.
  pub send_request-Ends : Ends (Sent env req) (send_request env req)
  unfolding send_request
  send_request-Ends =
      Ends-then (λ raw. env.dump_request req ≡ ok raw) (Sent env req)
        (checked (env.dump_request req)) _ (Quiet-checked (env.dump_request req))
        (λ raw dumped.
          let (detail, e) = extract_request_detail_from_fasthttp_request req no_detail in
          after_extraction-Ends detail e raw dumped)
