-- ===== src/Tests/Services.antt =====
-- Services that come and go, through internal/trans_network/node.go.
use apron_gateway_p2p.Prelude.{
  ◌≡◌, ◌≢◌, refl, ap, get_or, true, Bool-cases, inl, inr, none, some, [], ◌∷◌, Bytes, codes, empty,
  insert, has, contains, bytes_eq, IsRange, arith,
}
use apron_gateway_p2p.Outcome.{Outcome, ok}
use apron_gateway_p2p.Models.{ApronService, no_service}
use apron_gateway_p2p.Node.{Node, new_node}
use apron_gateway_p2p.Registry.{Message, update_peers, on_service_broadcast}
use apron_gateway_p2p.Registry.Invariant.{
  IsConsistent, IsConsistent-new_node, here, next, broadcast, refresh, Reach-IsConsistent,
}
use apron_gateway_p2p.Registry.Prune.{update_peers-stays}
use apron_gateway_p2p.Registry.Directory.{view, own, other, register_all, latest, view-register_all}
use apron_gateway_p2p.Registry.Replication.{announce_all, hear_all, replication}

abbrev echo : ApronService
echo = record no_service { id = codes "echo"; name = codes "Echo" }

abbrev encode_service : ApronService → Bytes
encode_service s = s.id

abbrev echo_of : Bytes → Outcome ApronService
echo_of content = ok echo

abbrev publish_ok : Bytes → Outcome (Unit {0})
publish_ok content = ok tt

abbrev node_a : Node
node_a = record new_node { self_id = codes "A" }

abbrev node_b : Node
node_b = record new_node { self_id = codes "B" }

a_not_b : codes "A" ≢ codes "B"
a_not_b e = omega (arith, ap (λ (s : Bytes). get_or s 0 0) e)

replication_example :
    view (announce_all encode_service echo_of publish_ok (echo ∷ []) node_a)
    ≡ view (hear_all encode_service echo_of publish_ok (codes "A") (echo ∷ []) node_b)
unfolding view
replication_example =
    replication encode_service echo_of publish_ok (echo ∷ []) node_a node_b a_not_b refl (refl, tt)

abbrev echo_deleted : ApronService
echo_deleted = record echo { is_deleted = true }

view-register_all_example :
    view
      (register_all
        (λ s. ok s.id)
        publish_ok
        (own echo ∷ other (codes "B") echo ∷ own echo_deleted ∷ [])
        node_a)
      (codes "echo")
    ≡ latest
        (λ s. ok s.id)
        publish_ok
        (codes "A")
        (codes "echo")
        (own echo ∷ other (codes "B") echo ∷ own echo_deleted ∷ [])
        (view node_a (codes "echo"))
view-register_all_example =
    view-register_all (λ s. ok s.id) publish_ok
      (own echo ∷ other (codes "B") echo ∷ own echo_deleted ∷ []) node_a (codes "echo")

-- C's announcement, relayed by A
abbrev relayed_echo : Message
relayed_echo = record {
  received_from = codes "A";
  author = codes "C";
  content = encode_service echo;
}

Reach-IsConsistent_example : IsConsistent (
    update_peers [] (codes "echo" ∷ []) (on_service_broadcast echo_of (some relayed_echo) new_node))
Reach-IsConsistent_example = Reach-IsConsistent echo_of IsConsistent-new_node (
    next (next here (broadcast (some relayed_echo) new_node))
      (refresh [] (codes "echo" ∷ []) (on_service_broadcast echo_of (some relayed_echo) new_node)))

-- a node that knows one service, of peer B
abbrev knows_echo : Node
knows_echo = record node_a {
  services = insert (codes "echo") echo empty;
  service_peer_mapping = insert (codes "echo") (codes "B") empty;
}

echo-IsRange : IsRange (codes "echo" ∷ []) knows_echo.service_peer_mapping
unfolding contains has insert
echo-IsRange k = elim (Bool-cases (bytes_eq (codes "echo") k)) [
  | inl e ↦ rw e refl
  | inr e ↦ rw e refl
]

update_peers-stays_example :
    ((update_peers [] (codes "echo" ∷ []) knows_echo).service_peer_mapping (codes "echo") ≡ none)
    × ((update_peers [] (codes "echo" ∷ []) knows_echo).services (codes "echo") ≡ none)
unfolding insert bytes_eq contains
update_peers-stays_example =
    update_peers-stays [] (codes "echo" ∷ []) knows_echo echo-IsRange (codes "echo")
