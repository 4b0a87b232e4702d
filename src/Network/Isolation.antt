-- ===== src/Network/Isolation.antt =====
-- Whose answer a client gets (internal/trans_network/csgw_http.go and node_proxy_handler.go).
use apron_gateway_p2p.Prelude.{
  ◌≡◌, sym, ap, ◌∙◌, ◌⊎◌, inl, inr, some, List, [], Bytes, GoMap, insert_self, All, All-append,
  All-middle, All-weaken, true,
}
use mathlib.Core.Path.{subst}
use apron_gateway_p2p.Outcome.{ok}
use apron_gateway_p2p.Models.{ApronServiceRequest, ApronServiceData}
use apron_gateway_p2p.Node.{PeerId}
use apron_gateway_p2p.RequestDetail.{Request}
use apron_gateway_p2p.Wire.Frame.{data_ch}
use apron_gateway_p2p.Act.{World, Exit, Stream, done, returned, blocked, panicked}
use apron_gateway_p2p.Act.Frames.{Frame}
use apron_gateway_p2p.Act.Ends.{ExitOf}
use apron_gateway_p2p.Gateway.Env.{Env}
use apron_gateway_p2p.Network.Client.{Sent}
use apron_gateway_p2p.Network.Service.{Replied, Served}
use apron_gateway_p2p.Network.Steps.{
  Labelled, Network, note_asked, sent, ask, wait_for, serve_arrived, hand_over, finish, Step, Reach,
  asks, waits, serves, hands, finishes, elsewhere, here, next, idle,
}
use apron_gateway_p2p.Network.Moves.{
  send_request-frames, serve-frames, Handed, resp-Handed, finish-reply_bodies,
}
use apron_gateway_p2p.Network.Answers.{
  Codecs, Answers, Carries, Brings, IsIsolated, Carries-note_asked, Brings-note_asked,
  Answers-note_asked,
}

module _ (client : Env) (service : PeerId → Env) (codecs : Codecs client service) where
  -- what a request puts on its way
  Sent-Carries :
      (uuid : Bytes) (req : Request) (asked : GoMap (Request × PeerId))
      (x : Exit (PeerId × ApronServiceRequest)) (fs : List Frame)
      → ExitOf (Sent (record client { uuid = uuid }) req) x fs
      → All (Carries client service (note_asked req x asked)) fs
  unfolding note_asked
  Sent-Carries uuid req asked (done (p, msg)) fs ((t, b, e, opens, marshals), dumped, ws) =
      let to_peer : t.peer ≡ p = codecs.streams p _ t opens in
      rw e (
        (
          req,
          msg,
          insert_self msg.request_id (req, p) asked
              ∙ ap (λ (q : PeerId). some (req, q)) (sym to_peer),
          dumped,
          codecs.requests t.peer msg b marshals,
        ),
        tt,
      )
  Sent-Carries uuid req asked returned fs e = rw e tt
  Sent-Carries uuid req asked blocked fs e = rw e tt
  Sent-Carries uuid req asked (panicked z) fs e = rw e tt

  -- what a service puts on its way
  Replied-Brings :
      (asked : GoMap (Request × PeerId)) (t : Stream) (req : Request) (msg : ApronServiceRequest)
      (fs : List Frame)
      → asked msg.request_id ≡ some (req, t.peer)
      → client.dump_request req ≡ ok msg.raw_request
      → ((msg.is_ws_request ≡ true) × (fs ≡ [])) ⊎ Replied (service t.peer) msg fs
      → All (Brings client service asked) fs
  Replied-Brings asked t req msg fs h dumped (inl (ws, e)) = rw e tt
  Replied-Brings asked t req msg fs h dumped
        (inr (s, b, body, p, e, named, opens, marshals, response)) =
      let d : ApronServiceData = record { request_id = msg.request_id; raw_data = body } in
      rw e (
        (
          d,
          codecs.answers t.peer d b marshals,
          (req, t.peer, msg.raw_request, h, dumped, response),
        ),
        tt,
      )

  Served-Brings :
      (asked : GoMap (Request × PeerId)) (t : Stream) (bytes : Bytes) (x : Exit (Unit {0}))
      (fs : List Frame)
      → Carries client service asked (t, bytes)
      → ExitOf (λ u gs. Served (service t.peer) (data_ch bytes) gs) x fs
      → All (Brings client service asked) fs
  Served-Brings asked t bytes (done u) fs (req, msg, h, dumped, decodes)
        (bytes', msg', arrives, decodes', outcome) =
      let same : msg' ≡ msg = cc in
      Replied-Brings asked t req msg fs h dumped (
        subst
          (λ (m : ApronServiceRequest).
            ((m.is_ws_request ≡ true) × (fs ≡ [])) ⊎ Replied (service t.peer) m fs)
          same outcome)
  Served-Brings asked t bytes returned fs c e = rw e tt
  Served-Brings asked t bytes blocked fs c e = rw e tt
  Served-Brings asked t bytes (panicked z) fs c e = rw e tt

  -- what an answer puts into a channel
  Handed-Answers :
      (asked : GoMap (Request × PeerId)) (t : Stream) (bytes : Bytes) (ds : List Labelled)
      → Brings client service asked (t, bytes)
      → Handed client bytes ds
      → All (Answers client service asked) ds
  Handed-Answers asked t bytes ds c (inl e) = rw e tt
  Handed-Answers asked t bytes ds (d, decodes, a) (inr (d', decodes', e)) =
      let same : d ≡ d' = cc in
      rw e (
        subst (λ (d : ApronServiceData). Answers client service asked (d.request_id, d.raw_data))
            same a,
        tt,
      )

  pub Step-IsIsolated :
      {n m : Network}
      → Step client service n m
      → IsIsolated client service n
      → IsIsolated client service m
  unfolding ask wait_for serve_arrived hand_over finish
  Step-IsIsolated (asks uuid req n fresh) i =
      let env = record client { uuid = uuid } in
      let x = (sent client service uuid req n).0 in
      record {
        carried =
            All-append _ n.requests _
              (All-weaken _ _ n.requests i.carried
                (Carries-note_asked client service n.asked req x fresh))
              (Sent-Carries uuid req n.asked x _ (send_request-frames env req n.client));
        brought =
            All-weaken _ _ n.answers i.brought
              (Brings-note_asked client service n.asked req x fresh);
        waiting =
            All-weaken _ _ n.handed i.waiting
              (Answers-note_asked client service n.asked req x fresh);
        written =
            All-weaken _ _ n.replies i.written
              (Answers-note_asked client service n.asked req x fresh);
      }
  Step-IsIsolated (waits msg n) i = record {
    carried = i.carried;
    brought = i.brought;
    waiting = i.waiting;
    written = i.written;
  }
  Step-IsIsolated (serves (t, bytes) before after n e) i =
      let (c, rest) =
        All-middle (Carries client service n.asked) before (t, bytes) after
          (subst (All (Carries client service n.asked)) e i.carried) in
      record {
        carried = rest;
        brought = All-append _ n.answers _ i.brought (
            Served-Brings n.asked t bytes _ _ c
              (serve-frames (service t.peer) bytes (n.services t.peer)));
        waiting = i.waiting;
        written = i.written;
      }
  Step-IsIsolated (hands (t, bytes) before after n e) i =
      let (c, rest) =
        All-middle (Brings client service n.asked) before (t, bytes) after
          (subst (All (Brings client service n.asked)) e i.brought) in
      record {
        carried = i.carried;
        brought = rest;
        waiting =
            All-append _ n.handed _ i.waiting
              (Handed-Answers n.asked t bytes _ c (resp-Handed client bytes n.client));
        written = i.written;
      }
  Step-IsIsolated (finishes (id, content) before after n e) i =
      let (c, rest) =
        All-middle (Answers client service n.asked) before (id, content) after
          (subst (All (Answers client service n.asked)) e i.waiting) in
      record {
        carried = i.carried;
        brought = i.brought;
        waiting = rest;
        written =
            All-append _ n.replies _ i.written
              (rw (finish-reply_bodies client id content n.client) (c, tt));
      }
  Step-IsIsolated (elsewhere w ws n) i = record {
    carried = i.carried;
    brought = i.brought;
    waiting = i.waiting;
    written = i.written;
  }

  Reach-IsIsolated :
      (w : World) (ws : PeerId → World) {n : Network}
      → Reach client service (idle w ws) n
      → IsIsolated client service n
  Reach-IsIsolated w ws here = record { carried = tt; brought = tt; waiting = tt; written = tt }
  Reach-IsIsolated w ws (next r s) = Step-IsIsolated s (Reach-IsIsolated w ws r)

  -- Whichever requests are sent, under request ids that are not in use, and served, and whatever comes
  -- in in which order: the body that a client gets is the answer of a service, behind the gateway that the
  -- client's own request went to, to that request. For this protobuf gives back what it packs, and a
  -- stream is to the peer that it is opened to.
  pub replies_isolated :
      (w : World) (ws : PeerId → World) (n : Network)
      → Reach client service (idle w ws) n
      → All (Answers client service n.asked) n.replies
  replies_isolated w ws n r = (Reach-IsIsolated w ws r).written
