-- ===== src/Gateway/Routing.antt =====
-- Where a client's HTTP request goes (internal/trans_network/csgw_http.go).
use apron_gateway_p2p.Prelude.{
  ℕ, ◌≡◌, refl, sym, ap, ◌∙◌, Option, none, some, List, [], ◌∷◌, ◌++◌, append_assoc, Bytes, codes,
  map, insert, has-some, has-none, length, drop, drop-length-append,
}
use mathlib.Core.Bool.{false≢true}
use apron_gateway_p2p.Outcome.{Outcome, ok, err, panic}
use apron_gateway_p2p.Models.{ApronService, ApronServiceProvider, ApronServiceRequest}
use apron_gateway_p2p.Node.{Node, PeerId}
use apron_gateway_p2p.Registry.Invariant.{IsConsistent}
use apron_gateway_p2p.Registry.Directory.{view, both}
use apron_gateway_p2p.RequestDetail.{
  Request, RequestDetail, no_detail, extract_request_detail_from_fasthttp_request,
}
use apron_gateway_p2p.RequestDetail.Params.{extract-fails}
use apron_gateway_p2p.Wire.Frame.{write_bytes_via_stream}
use apron_gateway_p2p.Act.{
  World, Effect, Exit, Stream, opened, wrote, replied, wrote_reply, done, returned, panicked,
}
use apron_gateway_p2p.Gateway.Env.{Env, proxy_http_init_req}
use apron_gateway_p2p.Gateway.Http.{send_request, service_request}

both-none :
    (p : Option PeerId) (s : Option ApronService) (n : Node) (k : Bytes)
    → IsConsistent n
    → n.service_peer_mapping k ≡ p
    → n.services k ≡ s
    → both p s ≡ none
    → p ≡ none
both-none none s n k c ep es h = refl
both-none (some p) (some s) n k c ep es h = cc
both-none (some p) none n k c ep es h = absurd (
    false≢true
      (sym (has-none n.services k es) ∙ c.paired k ∙ has-some n.service_peer_mapping k p ep))

both-some :
    (p : Option PeerId) (s : Option ApronService) (q : PeerId) (t : ApronService)
    → both p s ≡ some (q, t)
    → (p ≡ some q) × (s ≡ some t)
both-some none s q t h = cc
both-some (some p) none q t h = cc
both-some (some p) (some s) q t h = (cc, cc)

-- In a consistent registry a service that is not seen has no peer: the branch for a peer without a
-- service is never taken.
pub view-none :
    (n : Node) (k : Bytes) → IsConsistent n → view n k ≡ none → n.service_peer_mapping k ≡ none
unfolding view
view-none n k c h = both-none (n.service_peer_mapping k) (n.services k) n k c refl refl h

pub view-some :
    (n : Node) (k : Bytes) (p : PeerId) (s : ApronService)
    → view n k ≡ some (p, s)
    → (n.service_peer_mapping k ≡ some p) × (n.services k ≡ some s)
unfolding view
view-some n k p s h = both-some (n.service_peer_mapping k) (n.services k) p s h

abbrev pub add_effects : World → List Effect → World
add_effects w es = record w { effects = w.effects ++ es }

abbrev pub not_found : Effect
not_found = replied 404 (codes "ClientSideGateway: Service not found")

abbrev pub no_provider : Effect
no_provider = replied 500 (codes "ClientSideGateway: Service data error, contract help")

-- the response of a request: its status and its body
abbrev pub Response : Type 0
Response = ℕ × Bytes

-- `ctx.Error` resets the response, `ctx.Write` appends to its body
unfoldable pub respond : Response → List Effect → Response
respond r [] = r
respond r (replied status why ∷ es) = respond (status, why) es
respond (status, body) (wrote_reply more ∷ es) = respond (status, body ++ more) es
respond r (e ∷ es) = respond r es

-- what the client gets for a request once its handler ends, by what the handler did
abbrev pub response : World → World → Response
response before after = respond (200, []) (drop (length before.effects) after.effects)

-- the specification: an answer of the gateway itself, or the world with the request's id registered
abbrev pub answered : World → Effect → Exit (PeerId × ApronServiceRequest) × World
answered w e = (returned, add_effects w (e ∷ []))

abbrev pub with_request_id : Bytes → World → World
with_request_id request_id w = record w {
  node = record w.node {
    request_id_chan_mapping = insert request_id tt w.node.request_id_chan_mapping;
  };
}

-- by the message's encoding, once the stream is open
unfoldable pub route_message :
    World
    → PeerId
    → ApronServiceRequest
    → Stream
    → Outcome Bytes
    → Exit (PeerId × ApronServiceRequest) × World
route_message w p msg t (ok bytes) = (
  done (p, msg),
  add_effects (add_effects w (opened t ∷ [])) (map (wrote t) (write_bytes_via_stream bytes)),
)
route_message w p msg t (err e) = (panicked e, add_effects w (opened t ∷ []))
route_message w p msg t (panic e) = (panicked e, add_effects w (opened t ∷ []))

-- by the stream to the peer and the message's encoding
unfoldable pub route_stream :
    World
    → PeerId
    → ApronServiceRequest
    → Outcome Bytes
    → Outcome Stream
    → Exit (PeerId × ApronServiceRequest) × World
unfolding route_message
route_stream w p msg encoded (ok t) = route_message w p msg t encoded
route_stream w p msg encoded (err why) = answered w (replied 500 why)
route_stream w p msg encoded (panic why) = (panicked why, w)

-- by the providers of the service
unfoldable pub route_providers :
    World
    → PeerId
    → ApronServiceRequest
    → Outcome Bytes
    → Outcome Stream
    → List ApronServiceProvider
    → Exit (PeerId × ApronServiceRequest) × World
unfolding route_stream
route_providers w p msg encoded opens [] = answered w no_provider
route_providers w p msg encoded opens (q ∷ qs) =
    route_stream (with_request_id msg.request_id w) p msg encoded opens

-- Where a parsed request goes, by the entry that the node sees under its service name.
unfoldable pub route :
    Env
    → Request
    → World
    → Bytes
    → RequestDetail
    → Option (PeerId × ApronService)
    → Exit (PeerId × ApronServiceRequest) × World
unfolding route_providers
route env req w raw detail none = answered w not_found
route env req w raw detail (some (p, s)) =
    let msg = service_request env req detail s raw in
    route_providers w p msg (env.marshal_request msg) (env.new_stream p proxy_http_init_req)
      s.providers

module _ (env : Env) (req : Request) (w : World) (raw : Bytes) (detail : RequestDetail)
    (dumped : env.dump_request req ≡ ok raw) where
  abbrev Extracts : Option Bytes → Type 0
  Extracts e = extract_request_detail_from_fasthttp_request req no_detail ≡ (detail, e)

  no_peer :
      Extracts none
      → w.node.service_peer_mapping detail.service_name ≡ none
      → send_request env req w ≡ (returned, add_effects w (not_found ∷ []))
  unfolding send_request
  no_peer e p = rw (dumped, e, p) refl

  module _ (e : Extracts none) (p : PeerId) (s : ApronService)
      (at_peer : w.node.service_peer_mapping detail.service_name ≡ some p)
      (at_service : w.node.services detail.service_name ≡ some s) where
    abbrev message : ApronServiceRequest
    message = service_request env req detail s raw

    to_message :
        (q : ApronServiceProvider) (qs : List ApronServiceProvider) (t : Stream) (m : Outcome Bytes)
        → s.providers ≡ q ∷ qs
        → env.new_stream p proxy_http_init_req ≡ ok t
        → env.marshal_request message ≡ m
        → send_request env req w
          ≡ route_message (with_request_id message.request_id w) p message t m
    unfolding send_request route_message
    to_message q qs t (ok bytes) h opens marshals =
        rw (dumped, e, at_peer, at_service) (simp h (rw (opens, marshals) refl))
    to_message q qs t (err why) h opens marshals =
        rw (dumped, e, at_peer, at_service) (simp h (rw (opens, marshals) refl))
    to_message q qs t (panic why) h opens marshals =
        rw (dumped, e, at_peer, at_service) (simp h (rw (opens, marshals) refl))

    to_stream :
        (q : ApronServiceProvider) (qs : List ApronServiceProvider) (o : Outcome Stream)
        → s.providers ≡ q ∷ qs
        → env.new_stream p proxy_http_init_req ≡ o
        → send_request env req w
          ≡ route_stream
              (with_request_id message.request_id w)
              p
              message
              (env.marshal_request message)
              o
    unfolding send_request route_stream
    to_stream q qs (ok t) h opens = to_message q qs t (env.marshal_request message) h opens refl
    to_stream q qs (err why) h opens = rw (dumped, e, at_peer, at_service) (simp h (rw opens refl))
    to_stream q qs (panic why) h opens =
        rw (dumped, e, at_peer, at_service) (simp h (rw opens refl))

    to_providers :
        (ps : List ApronServiceProvider)
        → s.providers ≡ ps
        → send_request env req w
          ≡ route_providers w p message
              (env.marshal_request message)
              (env.new_stream p proxy_http_init_req)
              ps
    unfolding send_request route_providers
    to_providers [] h = rw (dumped, e, at_peer, at_service) (simp h)
    to_providers (q ∷ qs) h = to_stream q qs (env.new_stream p proxy_http_init_req) h refl

  -- On a node with a consistent registry a request that parses goes where the entry under its
  -- service name says: a 404 without one, a 500 without a provider, else to the entry's peer, or a 500
  -- if no stream to the peer opens, by which time the request's id is registered all the same.
  pub send_request-route :
      IsConsistent w.node
      → Extracts none
      → (entry : Option (PeerId × ApronService)) → view w.node detail.service_name ≡ entry
      → send_request env req w ≡ route env req w raw detail entry
  unfolding route
  send_request-route c e none h = no_peer e (view-none w.node detail.service_name c h)
  send_request-route c e (some (p, s)) h =
      let (at_peer, at_service) = view-some w.node detail.service_name p s h in
      to_providers e p s at_peer at_service s.providers refl

  abbrev pub two_errors : Bytes → World
  two_errors why =
      add_effects
        (add_effects w
          (replied 500 (codes "ClientSideGateway: extract service name error: " ++ why) ∷ []))
        (not_found ∷ [])

  malformed_effects :
      (why : Bytes)
      → Extracts (some why)
      → w.node.service_peer_mapping [] ≡ none
      → send_request env req w ≡ (returned, two_errors why)
  unfolding send_request
  malformed_effects why e absent =
      let unnamed : detail.service_name ≡ [] =
        sym (ap (λ (q : RequestDetail × Option Bytes). q.0.service_name) e)
        ∙ extract-fails req why (ap (λ (q : RequestDetail × Option Bytes). q.1) e) in
      rw (dumped, e) (rw (ap w.node.service_peer_mapping unnamed ∙ absent) refl)

  -- A request that does not parse does not end its handler: on a node with no service under the empty
  -- name the handler goes on to a second answer, and the response that the client gets is the 404
  -- for a missing service, which replaces the 500 with the parse error.
  pub malformed_request :
      (why : Bytes)
      → Extracts (some why)
      → w.node.service_peer_mapping [] ≡ none
      → (send_request env req w ≡ (returned, two_errors why))
        × (response w (send_request env req w).1
            ≡ (404, codes "ClientSideGateway: Service not found"))
  unfolding respond
  malformed_request why e absent =
      let es : List Effect =
        replied 500 (codes "ClientSideGateway: extract service name error: " ++ why)
        ∷ not_found
        ∷ [] in
      let sent = malformed_effects why e absent in
      (
        sent,
        ap (λ (x : Exit (PeerId × ApronServiceRequest) × World). response w x.1) sent
            ∙ ap (λ (fs : List Effect). respond (200, []) (drop (length w.effects) fs))
                (append_assoc w.effects
                  (replied 500 (codes "ClientSideGateway: extract service name error: " ++ why)
                    ∷ [])
                  (not_found ∷ []))
            ∙ ap (respond (200, [])) (drop-length-append w.effects es),
      )
