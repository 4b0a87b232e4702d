-- ===== src/Network/Service.antt =====
-- What the service side gateway has written when it has served a request
-- (internal/trans_network/node_proxy_handler.go).
use apron_gateway_p2p.Prelude.{
  ◌≡◌, refl, ◌⊎◌, inl, inr, Bool, true, false, List, [], ◌∷◌, Bytes, insert, if◌then◌else◌,
}
use apron_gateway_p2p.Outcome.{ok}
use apron_gateway_p2p.Models.{ApronService, ApronServiceProvider, ApronServiceRequest}
use apron_gateway_p2p.Node.{PeerId}
use apron_gateway_p2p.RequestDetail.{
  Request, RequestDetail, no_detail, extract_request_detail_from_fasthttp_request,
}
use apron_gateway_p2p.Wire.Frame.{Send, data_ch, err_ch}
use apron_gateway_p2p.Act.{
  Act, Stream, opened, requested, dialed, pure, emit, get_node, checked, write_frame, ◌>>=◌,
}
use apron_gateway_p2p.Act.Frames.{Frame}
use apron_gateway_p2p.Act.Ends.{
  Ends, Quiet, Any, Ends-then, Ends-map, Ends-weaken, Ends-pure, Quiet-checked, Ends-panic,
  Quiet-get_node, Quiet-emit, Ends-write_frame, Ends-after, Ends-update,
}
use apron_gateway_p2p.Gateway.Env.{
  Env, proxy_http_resp_from_service_side, proxy_ws_data_from_service_side,
}
use apron_gateway_p2p.Gateway.Service.{
  received, first_provider, open_stream, build_http_request_to_service, service_or_zero,
  connect_ws_service, request_http_service, proxy_http_init_request_handler,
}

abbrev pub detail_of : Request → RequestDetail
detail_of http_req = (extract_request_detail_from_fasthttp_request http_req no_detail).0

-- what a provider's service has answered to the request of these bytes
abbrev pub Response : Env → Bytes → Bytes → Type 0
Response env raw body =
    (http_req : Request) × (q : ApronServiceProvider) × (uri : Bytes) × (env.read_request raw
      ≡ ok http_req)
    × (env.service_uri q.schema q.base_url (detail_of http_req).proxy_request_path
          http_req.query_args
        ≡ ok uri)
    × (env.do_request uri http_req ≡ ok body)

-- one frame, of a response under the message's request id, to the peer that the message names
abbrev pub Replied : Env → ApronServiceRequest → List Frame → Type 0
Replied env msg fs =
    (t : Stream) × (b : Bytes) × (body : Bytes) × (p : PeerId) × (fs ≡ (t, b) ∷ [])
    × (env.decode_peer msg.peer_id ≡ ok p)
    × (env.new_stream p proxy_http_resp_from_service_side ≡ ok t)
    × (env.marshal_data (record { request_id = msg.request_id; raw_data = body }) ≡ ok b)
    × Response env msg.raw_request body

abbrev pub Served : Env → Send → List Frame → Type 0
Served env input fs =
    (bytes : Bytes) × (msg : ApronServiceRequest) × (input ≡ data_ch bytes)
    × (env.unmarshal_request bytes ≡ ok msg)
    × (((msg.is_ws_request ≡ true) × (fs ≡ [])) ⊎ Replied env msg fs)

received-Quiet : (input : Send) → Quiet (λ bytes. input ≡ data_ch bytes) (received input)
unfolding received
received-Quiet (data_ch bytes) = Ends-pure _ bytes (refl, refl)
received-Quiet (err_ch e) = Ends-panic _ _

provider-Quiet : (ps : List ApronServiceProvider) → Quiet Any (first_provider ps)
unfolding first_provider
provider-Quiet [] = Ends-panic _ _
provider-Quiet (p ∷ ps) = Ends-pure _ p (refl, tt)

module _ (env : Env) where
  open-Quiet :
      (peer : PeerId) (protocol : Bytes)
      → Quiet (λ t. env.new_stream peer protocol ≡ ok t) (open_stream env peer protocol)
  unfolding open_stream
  open-Quiet peer protocol =
      Ends-then (λ t. env.new_stream peer protocol ≡ ok t) _
        (checked (env.new_stream peer protocol)) _ (Quiet-checked (env.new_stream peer protocol))
        (λ s h.
          Ends-then Any _ (emit (opened s)) (λ u. pure s) (Quiet-emit (opened s) tt)
            (λ u h'. Ends-pure _ s (refl, h)))

  build-Quiet :
      (detail : RequestDetail) (http_req : Request) (service : ApronService)
      → Quiet
          (λ uri.
            (q : ApronServiceProvider) × (env.service_uri q.schema q.base_url
                detail.proxy_request_path http_req.query_args
              ≡ ok uri))
          (build_http_request_to_service env detail http_req service)
  unfolding build_http_request_to_service
  build-Quiet detail http_req service =
      Ends-then Any _ (first_provider service.providers) _ (provider-Quiet service.providers)
        (λ q h.
          Ends-weaken _ _ _
            (Quiet-checked
              (env.service_uri q.schema q.base_url detail.proxy_request_path http_req.query_args))
            (λ uri fs (e, built). (e, (q, built))))

  ws-Quiet :
      (peer : PeerId) (msg : ApronServiceRequest) (uri : Bytes)
      → Quiet Any (connect_ws_service env peer msg uri)
  unfolding connect_ws_service
  ws-Quiet peer msg uri =
      Ends-then _ _ (open_stream env peer proxy_ws_data_from_service_side) _
        (open-Quiet peer proxy_ws_data_from_service_side)
        λ s h.
          Ends-then _ _ (checked (env.dial_ws uri)) _ (Quiet-checked (env.dial_ws uri)) λ conn h'.
            Ends-after _ (emit (dialed uri conn)) _ (Quiet-emit _ tt) (
              Ends-update _
                (λ n. record n { service_ws_conns = insert msg.request_id conn n.service_ws_conns })
                (pure s) (Ends-pure _ s (refl, tt)))

  http-Ends :
      (peer : PeerId) (msg : ApronServiceRequest) (http_req : Request) (uri : Bytes)
      (q : ApronServiceProvider)
      → env.decode_peer msg.peer_id ≡ ok peer
      → env.read_request msg.raw_request ≡ ok http_req
      → env.service_uri q.schema q.base_url
          (detail_of http_req).proxy_request_path
          http_req.query_args
        ≡ ok uri
      → Ends (λ u fs. Replied env msg fs) (request_http_service env peer msg http_req uri)
  unfolding request_http_service
  http-Ends peer msg http_req uri q named reads built =
      let Q : Unit {0} → List Frame → Type 0 = λ u fs. Replied env msg fs in
      Ends-then (λ t. env.new_stream peer proxy_http_resp_from_service_side ≡ ok t) Q
        (open_stream env peer proxy_http_resp_from_service_side) _
        (open-Quiet peer proxy_http_resp_from_service_side)
        λ s opens. Ends-then Any Q (emit (requested uri)) _ (Quiet-emit _ tt) λ u h'.
          Ends-then (λ body. env.do_request uri http_req ≡ ok body) Q
            (checked (env.do_request uri http_req)) _ (Quiet-checked (env.do_request uri http_req))
            λ body responds.
              let o = env.marshal_data (record { request_id = msg.request_id; raw_data = body }) in
              Ends-then (λ b. o ≡ ok b) Q (checked o) _ (Quiet-checked o)
                λ b marshals.
                  Ends-weaken (λ v fs. fs ≡ (s, b) ∷ []) Q (write_frame s b) (Ends-write_frame s b)
                    (λ v fs e. (
                      s,
                      b,
                      body,
                      peer,
                      e,
                      named,
                      opens,
                      marshals,
                      (http_req, q, uri, reads, built, responds),
                    ))

  branch-Ends :
      (b : Bool) (msg : ApronServiceRequest) (m k : Act (Unit {0}))
      → msg.is_ws_request ≡ b
      → Quiet Any m
      → Ends (λ u fs. Replied env msg fs) k
      → Ends
          (λ u fs. ((msg.is_ws_request ≡ true) × (fs ≡ [])) ⊎ Replied env msg fs)
          (if b then m else k)
  branch-Ends true msg m k is_ws q e =
      Ends-weaken _ _ m q (λ u fs (none_written, h). inl (is_ws, none_written))
  branch-Ends false msg m k is_http q e = Ends-weaken _ _ k e (λ u fs r. inr r)

  -- behind the parsing of the request
  parsed-Ends :
      (msg : ApronServiceRequest) (http_req : Request)
      → env.read_request msg.raw_request ≡ ok http_req
      → Ends
          (λ u fs. ((msg.is_ws_request ≡ true) × (fs ≡ [])) ⊎ Replied env msg fs)
          (do
            peer_id ← checked (env.decode_peer msg.peer_id)
            n ← get_node
            let service_detail = service_or_zero (n.services msg.service_id)
            uri ← build_http_request_to_service env (detail_of http_req) http_req service_detail
            if msg.is_ws_request
                then (connect_ws_service env peer_id msg uri >>= λ s. pure tt)
                else request_http_service env peer_id msg http_req uri)
  parsed-Ends msg http_req reads =
      Ends-then _ _ (checked (env.decode_peer msg.peer_id)) _
        (Quiet-checked (env.decode_peer msg.peer_id))
        λ peer named. Ends-then Any _ get_node _ Quiet-get_node λ n h'.
          let service = service_or_zero (n.services msg.service_id) in
          Ends-then _ _ (build_http_request_to_service env (detail_of http_req) http_req service) _
            (build-Quiet (detail_of http_req) http_req service)
            (λ uri (q, built).
              branch-Ends msg.is_ws_request msg
                (connect_ws_service env peer msg uri >>= λ s. pure tt)
                (request_http_service env peer msg http_req uri) refl
                (Ends-map _ _ (connect_ws_service env peer msg uri) (λ s. tt)
                  (ws-Quiet peer msg uri) (λ s fs (e, k). (e, tt)))
                (http-Ends peer msg http_req uri q named reads built))

  -- Whatever the node knows: when the handler of a request is done, it has written one frame, of a
  -- response to that request under its id, or none for a WebSocket request; when it ends in any other way, none.
  pub proxy_http_init_request_handler-Ends :
      (input : Send)
      → Ends (λ u fs. Served env input fs) (proxy_http_init_request_handler env input)
  unfolding proxy_http_init_request_handler
  proxy_http_init_request_handler-Ends input =
      Ends-then _ _ (received input) _ (received-Quiet input) λ bytes arrives.
        Ends-then _ _ (checked (env.unmarshal_request bytes)) _
          (Quiet-checked (env.unmarshal_request bytes))
          λ msg decodes.
            Ends-then _ _ (checked (env.read_request msg.raw_request)) _
              (Quiet-checked (env.read_request msg.raw_request))
              (λ http_req reads.
                Ends-weaken _ _ _ (parsed-Ends msg http_req reads)
                  (λ u fs r. (bytes, msg, arrives, decodes, r)))
