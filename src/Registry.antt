-- ===== src/Registry.antt =====
-- The service registry of a node: `RegisterLocalService`, `RegisterRemoteService`,
-- `BroadcastService`, one round of `StartListeningOnServiceBroadcast` and one of `UpdatePeers`, of
-- internal/trans_network/node.go. Each holds the node's mutex while it reads or writes the two maps,
-- so each is one step. `proto.Marshal`, `proto.Unmarshal` and the publishing are parameters.
pub mod Invariant
pub mod Prune
pub mod Directory
pub mod Replication
use apron_gateway_p2p.Prelude.{
  Bool, true, false, not, ◌&&◌, ◌||◌, Option, none, some, List, [], ◌∷◌, ◌++◌, Bytes, bytes_eq,
  contains, insert, delete, if◌then◌else◌,
}
use apron_gateway_p2p.Outcome.{Outcome, ok, err, panic, ◌>>=◌, check_error}
use apron_gateway_p2p.Models.{ApronService}
use apron_gateway_p2p.Node.{Node, PeerId}

-- the branch shared by the two registrations: the maps, under the mutex
unfoldable pub set_service : PeerId → ApronService → Node → Node
set_service peer service n =
    if service.is_deleted
    then record n {
      services = delete service.id n.services;
      service_peer_mapping = delete service.id n.service_peer_mapping;
    }
    else record n {
      services = insert service.id service n.services;
      service_peer_mapping = insert service.id peer n.service_peer_mapping;
    }

module _ (marshal : ApronService → Outcome Bytes) (publish : Bytes → Outcome (Unit {0})) where
  -- `BroadcastService`: marshal, then publish
  unfoldable pub broadcast_service : ApronService → Outcome (Unit {0})
  broadcast_service service = do content ← marshal service; publish content

  -- `RegisterLocalService`: the node as it is left, and whether the call returns or panics. The maps
  -- are changed before the broadcast.
  unfoldable pub register_local_service : ApronService → Node → Outcome (Unit {0}) × Node
  unfolding set_service broadcast_service
  register_local_service service n =
      (check_error (broadcast_service service), set_service n.self_id service n)

-- `RegisterRemoteService`
unfoldable pub register_remote_service : PeerId → ApronService → Node → Node
unfolding set_service
register_remote_service peer_id service n = set_service peer_id service n

-- A message of the topic: the peer that handed it over, its author, and its data.
pub record Message : Type 0 where
  pub received_from : PeerId
  pub author : PeerId
  pub content : Bytes

module _ (unmarshal : Bytes → Outcome ApronService) where
  -- behind `proto.Unmarshal`; an error is logged and the message skipped
  unfoldable pub on_unmarshalled : PeerId → Outcome ApronService → Node → Node
  unfolding register_remote_service
  on_unmarshalled peer (ok service) n = register_remote_service peer service n
  on_unmarshalled peer (err e) n = n
  on_unmarshalled peer (panic e) n = n

  -- One round of the loop of `StartListeningOnServiceBroadcast`. `none` is an error of
  -- `serviceBroadcastSub.Next`.
  unfoldable pub on_service_broadcast : Option Message → Node → Node
  unfolding on_unmarshalled
  on_service_broadcast none n = n
  on_service_broadcast (some msg) n =
      if bytes_eq msg.received_from n.self_id
      then n
      else on_unmarshalled msg.received_from (unmarshal msg.content) n

-- The first loop of `UpdatePeers`: whether the entry is collected.
unfoldable pub is_invalid_service : List PeerId → PeerId → Option PeerId → Bool
is_invalid_service available_peers self none = false
is_invalid_service available_peers self (some v) =
    not (bytes_eq v self) && not (contains available_peers v)

unfoldable pub invalid_services : List PeerId → Node → List Bytes → List Bytes
unfolding is_invalid_service
invalid_services available_peers n [] = []
invalid_services available_peers n (k ∷ ks) =
    let rest = invalid_services available_peers n ks in
    if is_invalid_service available_peers n.self_id (n.service_peer_mapping k)
    then k ∷ rest
    else rest

-- the second loop
unfoldable pub remove_services : List Bytes → Node → Node
remove_services [] n = n
remove_services (k ∷ ks) n = remove_services ks (record n {
  services = delete k n.services;
  service_peer_mapping = delete k n.service_peer_mapping;
})

-- one round of `UpdatePeers`: `keys` is the order in which the map is ranged over
unfoldable pub update_peers : List PeerId → List Bytes → Node → Node
unfolding invalid_services remove_services
update_peers available_peers keys n = remove_services (invalid_services available_peers n keys) n
