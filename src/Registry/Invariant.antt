-- ===== src/Registry/Invariant.antt =====
-- The two maps of the registry agree (internal/trans_network/node.go).
use apron_gateway_p2p.Prelude.{
  ◌≡◌, sym, ◌∙◌, false, Option, none, some, List, [], ◌∷◌, Bytes, bytes_eq, bytes_eq_iff, has,
  has-empty, map_laws, insert, delete, Bool-cases, inl, inr, arith,
}
use apron_gateway_p2p.Outcome.{Outcome, ok, err, panic}
use apron_gateway_p2p.Models.{ApronService}
use apron_gateway_p2p.Node.{Node, PeerId, new_node}
use apron_gateway_p2p.Registry.{
  set_service, register_local_service, register_remote_service, on_unmarshalled,
  on_service_broadcast, Message, invalid_services, remove_services, update_peers,
}

-- A service is known exactly if its peer is, stands under its own id, and is not a deleted one.
pub record IsConsistent (n : Node) : Type 0 where
  pub paired : (k : Bytes) → has n.services k ≡ has n.service_peer_mapping k
  pub keyed : (k : Bytes) (s : ApronService) → n.services k ≡ some s → s.id ≡ k
  pub live : (k : Bytes) (s : ApronService) → n.services k ≡ some s → s.is_deleted ≡ false

pub IsConsistent-new_node : IsConsistent new_node
unfolding new_node
IsConsistent-new_node = record {
  paired = λ k. has-empty ApronService k ∙ sym (has-empty PeerId k);
  keyed = λ k s h. cc;
  live = λ k s h. cc;
}

module _ (n : Node) (c : IsConsistent n) where
  delete-IsConsistent :
      (key : Bytes)
      → IsConsistent (record n {
        services = delete key n.services;
        service_peer_mapping = delete key n.service_peer_mapping;
      })
  delete-IsConsistent key = record {
    paired = λ k. simp map_laws (ground (arith, c.paired k));
    keyed = λ k s. simp map_laws (ground (arith, c.keyed k s));
    live = λ k s. simp map_laws (ground (arith, c.live k s));
  }

  insert-IsConsistent :
      (peer : PeerId) (service : ApronService)
      → service.is_deleted ≡ false
      → IsConsistent (record n {
        services = insert service.id service n.services;
        service_peer_mapping = insert service.id peer n.service_peer_mapping;
      })
  insert-IsConsistent peer service h = record {
    paired = λ k. simp map_laws (ground (arith, c.paired k));
    keyed = λ k s. simp map_laws (ground (arith, c.keyed k s, bytes_eq_iff service.id k));
    live = λ k s. simp map_laws (ground (arith, c.live k s));
  }

  pub set_service-IsConsistent :
      (peer : PeerId) (service : ApronService) → IsConsistent (set_service peer service n)
  unfolding set_service
  set_service-IsConsistent peer service = elim (Bool-cases service.is_deleted) [
    | inl e ↦ rw e (delete-IsConsistent service.id)
    | inr e ↦ simp e (insert-IsConsistent peer service e)
  ]

remove_services-IsConsistent :
    (ks : List Bytes) (n : Node) → IsConsistent n → IsConsistent (remove_services ks n)
unfolding remove_services
remove_services-IsConsistent [] n c = c
remove_services-IsConsistent (k ∷ ks) n c =
    remove_services-IsConsistent ks
      (record n {
        services = delete k n.services;
        service_peer_mapping = delete k n.service_peer_mapping;
      })
      (delete-IsConsistent n c k)

module _ (unmarshal : Bytes → Outcome ApronService) where
  on_unmarshalled-IsConsistent :
      (peer : PeerId) (r : Outcome ApronService) (n : Node)
      → IsConsistent n
      → IsConsistent (on_unmarshalled unmarshal peer r n)
  unfolding on_unmarshalled register_remote_service
  on_unmarshalled-IsConsistent peer (ok service) n c = set_service-IsConsistent n c peer service
  on_unmarshalled-IsConsistent peer (err e) n c = c
  on_unmarshalled-IsConsistent peer (panic e) n c = c

  on_service_broadcast-IsConsistent :
      (m : Option Message) (n : Node)
      → IsConsistent n
      → IsConsistent (on_service_broadcast unmarshal m n)
  unfolding on_service_broadcast
  on_service_broadcast-IsConsistent none n c = c
  on_service_broadcast-IsConsistent (some msg) n c =
      elim (Bool-cases (bytes_eq msg.received_from n.self_id)) [
        | inl e ↦ rw e c
        | inr e ↦ rw e (on_unmarshalled-IsConsistent msg.received_from (unmarshal msg.content) n c)
      ]

  -- A step of the registry: a call of the management API, a message or an error of the topic, or a
  -- round of the peer monitor.
  pub data Step : Node → Node → Type 0 where
    local :
        (marshal : ApronService → Outcome Bytes) (publish : Bytes → Outcome (Unit {0}))
        (service : ApronService) (n : Node)
        → Step n (register_local_service marshal publish service n).1
    broadcast : (m : Option Message) (n : Node) → Step n (on_service_broadcast unmarshal m n)
    refresh :
        (available_peers : List PeerId) (keys : List Bytes) (n : Node)
        → Step n (update_peers available_peers keys n)

  pub data Reach (start : Node) : Node → Type 0 where
    here : Reach start start
    next : {n m : Node} → Reach start n → Step n m → Reach start m

  pub Step-IsConsistent : {n m : Node} → Step n m → IsConsistent n → IsConsistent m
  unfolding register_local_service update_peers
  Step-IsConsistent (local marshal publish service n) c =
      set_service-IsConsistent n c n.self_id service
  Step-IsConsistent (broadcast m n) c = on_service_broadcast-IsConsistent m n c
  Step-IsConsistent (refresh available keys n) c =
      remove_services-IsConsistent (invalid_services available n keys) n c

  -- Whatever services are registered here or announced by others, deleted ones and messages that do
  -- not parse included, and whichever peers come and go, the two maps agree: a service is known
  -- exactly if its peer is, stands under its own id, and is not a deleted one.
  pub Reach-IsConsistent : {n m : Node} → IsConsistent n → Reach n m → IsConsistent m
  Reach-IsConsistent c here = c
  Reach-IsConsistent c (next r s) = Step-IsConsistent s (Reach-IsConsistent c r)
