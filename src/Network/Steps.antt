-- ===== src/Network/Steps.antt =====
-- The steps of a client side gateway and of the service side gateways that its requests go to, in any order
-- (internal/trans_network/csgw_http.go and node_proxy_handler.go). Frames on their way may overtake one another, and what
-- else the gateways do between two steps may leave their nodes as it likes.
use apron_gateway_p2p.Prelude.{
  ◌≡◌, none, List, [], ◌∷◌, ◌++◌, Bytes, GoMap, insert, empty, map, drop, length, bytes_eq,
  if◌then◌else◌,
}
use apron_gateway_p2p.Models.{ApronServiceRequest}
use apron_gateway_p2p.Node.{PeerId}
use apron_gateway_p2p.RequestDetail.{Request}
use apron_gateway_p2p.Wire.Frame.{data_ch}
use apron_gateway_p2p.Act.{World, Exit, Effect, sent_chan, wrote_reply, done}
use apron_gateway_p2p.Act.Frames.{Frame, frames_in}
use apron_gateway_p2p.Gateway.Env.{Env}
use apron_gateway_p2p.Gateway.Http.{send_request, serve_http_request, finish_http_request}
use apron_gateway_p2p.Gateway.Service.{proxy_http_init_request_handler, proxy_http_resp_handler}

-- Data under a request id.
abbrev pub Labelled : Type 0
Labelled = Bytes × Bytes

-- the data that is sent to the channels of request ids, and the bodies that are written to clients
unfoldable pub chan_data : List Effect → List Labelled
chan_data [] = []
chan_data (sent_chan id content ∷ es) = let rest = chan_data es in (id, content) ∷ rest
chan_data (e ∷ es) = chan_data es

unfoldable pub reply_bodies : List Effect → List Bytes
reply_bodies [] = []
reply_bodies (wrote_reply body ∷ es) = let rest = reply_bodies es in body ∷ rest
reply_bodies (e ∷ es) = reply_bodies es

-- the effects that a step adds
abbrev pub new_effects : World → World → List Effect
new_effects w w' = drop (length w.effects) w'.effects

-- `asked`: the client's request under each id that is in use, and the peer that it went to; `requests`
-- and `answers`: the frames on their way; `handed`: the data in the channels; `replies`: the bodies
-- that the client has got, each by the handler of the id.
pub record Network : Type 0 where
  pub asked : GoMap (Request × PeerId)
  pub client : World
  pub services : PeerId → World
  pub requests : List Frame
  pub answers : List Frame
  pub handed : List Labelled
  pub replies : List Labelled

unfoldable pub note_asked :
    Request
    → Exit (PeerId × ApronServiceRequest)
    → GoMap (Request × PeerId)
    → GoMap (Request × PeerId)
note_asked req (done (p, msg)) asked = insert msg.request_id (req, p) asked
note_asked req x asked = asked

-- a new UUID makes a request id that is not in use
abbrev pub IsFresh : Exit (PeerId × ApronServiceRequest) → GoMap (Request × PeerId) → Type 0
IsFresh (done (p, msg)) asked = asked msg.request_id ≡ none
IsFresh x asked = Unit

abbrev put_at : PeerId → World → (PeerId → World) → PeerId → World
put_at p w services q = if bytes_eq p q then w else services q

module _ (client : Env) (service : PeerId → Env) where
  abbrev pub sent : Bytes → Request → Network → Exit (PeerId × ApronServiceRequest) × World
  sent uuid req n = send_request (record client { uuid = uuid }) req n.client

  -- a client's request is sent
  unfoldable pub ask : Bytes → Request → Network → Network
  unfolding note_asked
  ask uuid req n =
      let (x, w) = sent uuid req n in
      record n {
        asked = note_asked req x n.asked;
        client = w;
        requests = n.requests ++ frames_in (new_effects n.client w);
      }

  -- its handler goes on, up to its wait
  unfoldable pub wait_for : ApronServiceRequest → Network → Network
  wait_for msg n = record n { client = (serve_http_request client msg n.client).1 }

  -- a request that arrives is served, and the others stay on their way
  unfoldable pub serve_arrived : Frame → List Frame → Network → Network
  serve_arrived (t, bytes) others n =
      let (x, w) =
        proxy_http_init_request_handler (service t.peer) (data_ch bytes) (n.services t.peer) in
      record n {
        services = put_at t.peer w n.services;
        requests = others;
        answers = n.answers ++ frames_in (new_effects (n.services t.peer) w);
      }

  -- an answer that arrives is handed to its channel
  unfoldable pub hand_over : Frame → List Frame → Network → Network
  hand_over (t, bytes) others n =
      let (x, w) = proxy_http_resp_handler client (data_ch bytes) n.client in
      record n {
        client = w;
        answers = others;
        handed = n.handed ++ chan_data (new_effects n.client w);
      }

  -- the handler of a request id takes its data of the channel
  unfoldable pub finish : Labelled → List Labelled → Network → Network
  finish (id, content) others n =
      let (x, w) = finish_http_request client id content n.client in
      record n {
        client = w;
        handed = others;
        replies = n.replies ++ map (λ body. (id, body)) (reply_bodies (new_effects n.client w));
      }

  pub data Step : Network → Network → Type 0 where
    asks :
        (uuid : Bytes) (req : Request) (n : Network)
        → IsFresh (sent uuid req n).0 n.asked
        → Step n (ask uuid req n)
    waits : (msg : ApronServiceRequest) (n : Network) → Step n (wait_for msg n)
    serves :
        (f : Frame) (before after : List Frame) (n : Network)
        → n.requests ≡ before ++ f ∷ after
        → Step n (serve_arrived f (before ++ after) n)
    hands :
        (f : Frame) (before after : List Frame) (n : Network)
        → n.answers ≡ before ++ f ∷ after
        → Step n (hand_over f (before ++ after) n)
    finishes :
        (d : Labelled) (before after : List Labelled) (n : Network)
        → n.handed ≡ before ++ d ∷ after
        → Step n (finish d (before ++ after) n)
    elsewhere :
        (w : World) (ws : PeerId → World) (n : Network)
        → Step n (record n { client = w; services = ws })

  pub data Reach (start : Network) : Network → Type 0 where
    here : Reach start start
    next : {n m : Network} → Reach start n → Step n m → Reach start m

-- nothing asked, nothing on its way
abbrev pub idle : World → (PeerId → World) → Network
idle client services = record {
  asked = empty;
  client = client;
  services = services;
  requests = [];
  answers = [];
  handed = [];
  replies = [];
}
