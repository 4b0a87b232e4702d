-- ===== src/Registry/Replication.antt =====
-- Two nodes: what one announces, another learns (internal/trans_network/node.go).
use apron_gateway_p2p.Prelude.{
  ◌≡◌, ◌≢◌, refl, sym, ap, ◌∙◌, some, List, [], ◌∷◌, Bytes, bytes_eq_ne,
}
use apron_gateway_p2p.Outcome.{Outcome, ok}
use apron_gateway_p2p.Models.{ApronService}
use apron_gateway_p2p.Node.{Node, PeerId}
use apron_gateway_p2p.Registry.{
  set_service, register_local_service, register_remote_service, on_unmarshalled,
  on_service_broadcast, Message,
}
use apron_gateway_p2p.Registry.Directory.{view, announce, view-set_service, self_id-set_service}

-- `proto.Marshal` and `proto.Unmarshal` of a service, and the publishing
module _ (encode : ApronService → Bytes) (unmarshal : Bytes → Outcome ApronService)
    (publish : Bytes → Outcome (Unit {0})) where
  -- services that are parsed back from what is sent of them
  abbrev pub Decodable : List ApronService → Type 0
  Decodable [] = Unit
  Decodable (s ∷ ss) = (unmarshal (encode s) ≡ ok s) × Decodable ss

  -- the calls of `RegisterLocalService` at one node
  unfoldable pub announce_all : List ApronService → Node → Node
  announce_all [] n = n
  announce_all (s ∷ ss) n =
      announce_all ss (register_local_service (λ t. ok (encode t)) publish s n).1

  -- a message as its author hands it over
  abbrev pub from_author : PeerId → ApronService → Message
  from_author a s = record { received_from = a; author = a; content = encode s }

  -- the rounds of `StartListeningOnServiceBroadcast` at another, the messages in order
  unfoldable pub hear_all : PeerId → List ApronService → Node → Node
  hear_all a [] n = n
  hear_all a (s ∷ ss) n = hear_all a ss (on_service_broadcast unmarshal (some (from_author a s)) n)

  hear_one :
      (a : PeerId) (s : ApronService) (n : Node)
      → a ≢ n.self_id
      → unmarshal (encode s) ≡ ok s
      → on_service_broadcast unmarshal (some (from_author a s)) n ≡ set_service a s n
  unfolding on_service_broadcast on_unmarshalled register_remote_service
  hear_one a s n other decodes = rw (bytes_eq_ne a n.self_id other) (rw decodes refl)

  -- Two nodes of different ids that see the same directory, one of which then registers or deletes
  -- services that `proto.Unmarshal` gives back: once the other has its messages from it, in order,
  -- they see the same directory again.
  pub replication :
      (ss : List ApronService) (a b : Node)
      → a.self_id ≢ b.self_id
      → view a ≡ view b
      → Decodable ss
      → view (announce_all ss a) ≡ view (hear_all a.self_id ss b)
  unfolding announce_all hear_all register_local_service
  replication [] a b other same decodes = same
  replication (s ∷ ss) a b other same (one, decodes) =
      let a' = set_service a.self_id s a in
      let b' = set_service a.self_id s b in
      let a_same : a'.self_id ≡ a.self_id = self_id-set_service a.self_id s a in
      let b_same : b'.self_id ≡ b.self_id = self_id-set_service a.self_id s b in
      replication ss a' b' (λ e. other (sym a_same ∙ e ∙ b_same))
        (view-set_service a.self_id s a
          ∙ ap (announce a.self_id s) same
          ∙ sym (view-set_service a.self_id s b))
        decodes
      ∙ ap (λ (p : PeerId). view (hear_all p ss b')) a_same
      ∙ ap (λ (n : Node). view (hear_all a.self_id ss n)) (sym (hear_one a.self_id s b other one))
