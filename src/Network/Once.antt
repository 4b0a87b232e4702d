-- ===== src/Network/Once.antt =====
-- How often a request is answered (internal/trans_network/csgw_http.go and node_proxy_handler.go).
use apron_gateway_p2p.Prelude.{
  ℕ, ◌+◌, ◌≤◌, ◌≡◌, sym, ap, ◌∙◌, inl, inr, Option, none, some, List, [], ◌∷◌, Bytes, GoMap, insert,
  bytes_eq, bytes_eq_iff, Bool-cases, hits, tally, tally-append, tally-middle, arith,
}
use apron_gateway_p2p.Outcome.{Outcome, ok, err, panic}
use apron_gateway_p2p.Models.{ApronServiceRequest, ApronServiceData}
use apron_gateway_p2p.Node.{PeerId}
use apron_gateway_p2p.RequestDetail.{Request}
use apron_gateway_p2p.Wire.Frame.{data_ch}
use apron_gateway_p2p.Act.{World, Exit, Stream, done, returned, blocked, panicked}
use apron_gateway_p2p.Act.Frames.{Frame, frames_in}
use apron_gateway_p2p.Act.Ends.{ExitOf}
use apron_gateway_p2p.Gateway.Env.{Env}
use apron_gateway_p2p.Gateway.Service.{proxy_http_init_request_handler, proxy_http_resp_handler}
use apron_gateway_p2p.Network.Client.{Sent}
use apron_gateway_p2p.Network.Service.{Served}
use apron_gateway_p2p.Network.Steps.{
  Labelled, Network, IsFresh, note_asked, sent, ask, wait_for, serve_arrived, hand_over, finish,
  Step, Reach, asks, waits, serves, hands, finishes, elsewhere, here, next, idle, new_effects,
  chan_data,
}
use apron_gateway_p2p.Network.Moves.{
  send_request-frames, serve-frames, Handed, resp-Handed, finish-reply_bodies,
}
use apron_gateway_p2p.Network.Answers.{Codecs}

-- whether an id is in use
abbrev pub uses : Option (Request × PeerId) → ℕ
uses none = 0
uses (some v) = 1

abbrev request_label : Outcome ApronServiceRequest → Option Bytes
request_label (ok msg) = some msg.request_id
request_label (err e) = none
request_label (panic e) = none

abbrev answer_label : Outcome ApronServiceData → Option Bytes
answer_label (ok d) = some d.request_id
answer_label (err e) = none
answer_label (panic e) = none

abbrev pub label_of : Labelled → Option Bytes
label_of (id, content) = some id

module _ (client : Env) (service : PeerId → Env) (k : Bytes) where
  abbrev asked_in : Frame → Option Bytes
  asked_in (t, b) = request_label ((service t.peer).unmarshal_request b)

  abbrev answered_in : Frame → Option Bytes
  answered_in (t, b) = answer_label (client.unmarshal_data b)

  -- all that is on its way, or done, for one request id
  abbrev total : Network → ℕ
  total n =
      tally asked_in k n.requests
      + tally answered_in k n.answers
      + tally label_of k n.handed
      + tally label_of k n.replies

  module _ (codecs : Codecs client service) where
    Sent-tally :
        (uuid : Bytes) (req : Request) (asked : GoMap (Request × PeerId))
        (x : Exit (PeerId × ApronServiceRequest)) (fs : List Frame)
        → IsFresh x asked
        → ExitOf (Sent (record client { uuid = uuid }) req) x fs
        → tally asked_in k fs + uses (asked k) ≤ uses (note_asked req x asked k)
    unfolding note_asked insert
    Sent-tally uuid req asked (done (p, msg)) fs fresh ((t, b, e, opens, marshals), dumped, ws) =
        let free : asked msg.request_id ≡ none = fresh in
        let decodes = codecs.requests t.peer msg b marshals in
        rw (e, decodes)
          (elim (Bool-cases (bytes_eq msg.request_id k)) [
            | inl h ↦
                (let same : msg.request_id ≡ k = (bytes_eq_iff msg.request_id k).0 h in
                  let at_k : asked k ≡ none = ap asked (sym same) ∙ free in
                  rw (h, at_k) (omega arith))
            | inr h ↦ rw h (omega arith)
          ])
    Sent-tally uuid req asked returned fs fresh e = rw e (omega arith)
    Sent-tally uuid req asked blocked fs fresh e = rw e (omega arith)
    Sent-tally uuid req asked (panicked z) fs fresh e = rw e (omega arith)

    Served-tally :
        (t : Stream) (bytes : Bytes) (x : Exit (Unit {0})) (fs : List Frame)
        → ExitOf (λ u gs. Served (service t.peer) (data_ch bytes) gs) x fs
        → tally answered_in k fs ≤ hits k (asked_in (t, bytes))
    Served-tally t bytes (done u) fs (bytes', msg, arrives, decodes, inl (ws, e)) =
        rw e (omega arith)
    Served-tally t bytes (done u) fs
          (
            bytes',
            msg,
            arrives,
            decodes,
            inr (s, b, body, p, e, named, opens, marshals, response),
          ) =
        let d : ApronServiceData = record { request_id = msg.request_id; raw_data = body } in
        let same : bytes ≡ bytes' = cc in
        let decodes_here : (service t.peer).unmarshal_request bytes ≡ ok msg = cc in
        rw (e, codecs.answers t.peer d b marshals, decodes_here) (omega arith)
    Served-tally t bytes returned fs e = rw e (omega arith)
    Served-tally t bytes blocked fs e = rw e (omega arith)
    Served-tally t bytes (panicked z) fs e = rw e (omega arith)

    Handed-tally :
        (t : Stream) (bytes : Bytes) (ds : List Labelled)
        → Handed client bytes ds
        → tally label_of k ds ≤ hits k (answered_in (t, bytes))
    Handed-tally t bytes ds (inl e) = rw e (omega arith)
    Handed-tally t bytes ds (inr (d, decodes, e)) = rw (e, decodes) (omega arith)

    Step-total :
        {n m : Network}
        → Step client service n m
        → total n ≤ uses (n.asked k)
        → total m ≤ uses (m.asked k)
    unfolding ask wait_for serve_arrived hand_over finish
    Step-total (asks uuid req n fresh) h =
        let env = record client { uuid = uuid } in
        let r = sent client service uuid req n in
        let fs = frames_in (new_effects n.client r.1) in
        omega (
          arith,
          tally-append asked_in k n.requests fs,
          Sent-tally uuid req n.asked r.0 fs fresh (send_request-frames env req n.client),
        )
    Step-total (waits msg n) h = h
    Step-total (serves (t, bytes) before after n e) h =
        let r =
          proxy_http_init_request_handler (service t.peer) (data_ch bytes) (n.services t.peer) in
        let fs = frames_in (new_effects (n.services t.peer) r.1) in
        let taken = ap (tally asked_in k) e ∙ tally-middle asked_in k before (t, bytes) after in
        omega (
          arith,
          taken,
          tally-append answered_in k n.answers fs,
          Served-tally t bytes r.0 fs (serve-frames (service t.peer) bytes (n.services t.peer)),
        )
    Step-total (hands (t, bytes) before after n e) h =
        let r = proxy_http_resp_handler client (data_ch bytes) n.client in
        let ds = chan_data (new_effects n.client r.1) in
        let taken =
          ap (tally answered_in k) e ∙ tally-middle answered_in k before (t, bytes) after in
        omega (
          arith,
          taken,
          tally-append label_of k n.handed ds,
          Handed-tally t bytes ds (resp-Handed client bytes n.client),
        )
    Step-total (finishes (id, content) before after n e) h =
        let taken = ap (tally label_of k) e ∙ tally-middle label_of k before (id, content) after in
        rw (finish-reply_bodies client id content n.client)
          (omega (arith, taken, tally-append label_of k n.replies ((id, content) ∷ [])))
    Step-total (elsewhere w ws n) h = h

    reached :
        (w : World) (ws : PeerId → World) {n : Network}
        → Reach client service (idle w ws) n
        → total n ≤ uses (n.asked k)
    reached w ws here = omega arith
    reached w ws (next r s) = Step-total s (reached w ws r)

    -- Whichever requests are sent, under request ids that are not in use, and served, and whatever comes
    -- in in which order: under an id that is in use a client gets one body at most, and under any other
    -- none. For this protobuf gives back what it packs, and a stream is to the peer that it is opened to.
    pub replies_once :
        (w : World) (ws : PeerId → World) (n : Network)
        → Reach client service (idle w ws) n
        → tally label_of k n.replies ≤ uses (n.asked k)
    replies_once w ws n r = omega (arith, reached w ws r)
