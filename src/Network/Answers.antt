-- ===== src/Network/Answers.antt =====
-- What is on its way belongs to a request that was asked (internal/trans_network/csgw_http.go and node_proxy_handler.go).
use apron_gateway_p2p.Prelude.{
  ◌≡◌, inl, inr, none, some, Bytes, GoMap, insert, bytes_eq, bytes_eq_iff, Bool-cases, All,
}
use apron_gateway_p2p.Outcome.{ok}
use apron_gateway_p2p.Models.{ApronServiceRequest, ApronServiceData}
use apron_gateway_p2p.Node.{PeerId}
use apron_gateway_p2p.RequestDetail.{Request}
use apron_gateway_p2p.Act.{Exit, Stream, done, returned, blocked, panicked}
use apron_gateway_p2p.Act.Frames.{Frame}
use apron_gateway_p2p.Gateway.Env.{Env}
use apron_gateway_p2p.Network.Service.{Response}
use apron_gateway_p2p.Network.Steps.{Labelled, Network, IsFresh, note_asked}

-- A message comes out of `proto.Unmarshal` as it went into `proto.Marshal`, and a stream is to the peer
-- that it is opened to.
pub record Codecs (client : Env) (service : PeerId → Env) : Type 0 where
  pub requests :
      (p : PeerId) (msg : ApronServiceRequest) (b : Bytes)
      → client.marshal_request msg ≡ ok b
      → (service p).unmarshal_request b ≡ ok msg
  pub answers :
      (p : PeerId) (d : ApronServiceData) (b : Bytes)
      → (service p).marshal_data d ≡ ok b
      → client.unmarshal_data b ≡ ok d
  pub streams :
      (p : PeerId) (protocol : Bytes) (t : Stream)
      → client.new_stream p protocol ≡ ok t
      → t.peer ≡ p

module _ (client : Env) (service : PeerId → Env) where
  -- A service behind the peer that the request under this id went to has answered this to it.
  abbrev pub Answers : GoMap (Request × PeerId) → Labelled → Type 0
  Answers asked (id, content) =
      (req : Request) × (p : PeerId) × (raw : Bytes) × (asked id ≡ some (req, p))
      × (client.dump_request req ≡ ok raw)
      × Response (service p) raw content

  -- a frame of a request that was asked, and one of an answer
  abbrev pub Carries : GoMap (Request × PeerId) → Frame → Type 0
  Carries asked (t, b) =
      (req : Request) × (msg : ApronServiceRequest) × (asked msg.request_id ≡ some (req, t.peer))
      × (client.dump_request req ≡ ok msg.raw_request)
      × ((service t.peer).unmarshal_request b ≡ ok msg)

  abbrev pub Brings : GoMap (Request × PeerId) → Frame → Type 0
  Brings asked (t, b) =
      (d : ApronServiceData) × (client.unmarshal_data b ≡ ok d)
      × Answers asked (d.request_id, d.raw_data)

  pub record IsIsolated (n : Network) : Type 0 where
    pub carried : All (Carries n.asked) n.requests
    pub brought : All (Brings n.asked) n.answers
    pub waiting : All (Answers n.asked) n.handed
    pub written : All (Answers n.asked) n.replies

  module _ (asked : GoMap (Request × PeerId)) (req : Request) where
    -- an id that is in use stays with its request
    note_asked_keeps :
        (x : Exit (PeerId × ApronServiceRequest)) (k : Bytes) (v : Request × PeerId)
        → IsFresh x asked
        → asked k ≡ some v
        → note_asked req x asked k ≡ some v
    unfolding note_asked insert
    note_asked_keeps (done (p, msg)) k v fresh h = elim (Bool-cases (bytes_eq msg.request_id k)) [
      | inl e ↦
          (let free : asked msg.request_id ≡ none = fresh in
            let same : msg.request_id ≡ k = (bytes_eq_iff msg.request_id k).0 e in absurd cc)
      | inr e ↦ rw e h
    ]
    note_asked_keeps returned k v fresh h = h
    note_asked_keeps blocked k v fresh h = h
    note_asked_keeps (panicked z) k v fresh h = h

    module _ (x : Exit (PeerId × ApronServiceRequest)) (fresh : IsFresh x asked) where
      pub Answers-note_asked : (d : Labelled) → Answers asked d → Answers (note_asked req x asked) d
      Answers-note_asked (id, content) (r, p, raw, h, dumped, rest) =
          (r, p, raw, note_asked_keeps x id (r, p) fresh h, dumped, rest)

      pub Brings-note_asked : (f : Frame) → Brings asked f → Brings (note_asked req x asked) f
      Brings-note_asked (t, b) (d, decodes, a) =
          (d, decodes, Answers-note_asked (d.request_id, d.raw_data) a)

      pub Carries-note_asked : (f : Frame) → Carries asked f → Carries (note_asked req x asked) f
      Carries-note_asked (t, b) (r, msg, h, dumped, decodes) =
          (r, msg, note_asked_keeps x msg.request_id (r, t.peer) fresh h, dumped, decodes)
