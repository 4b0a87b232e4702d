-- ===== src/Registry/Directory.antt =====
-- What the registry of internal/trans_network/node.go promises: a directory from service ids to a
-- peer and a service, on which a registration writes or withdraws an entry.
use apron_gateway_p2p.Prelude.{
  ◌≡◌, refl, ap, ◌∙◌, inl, inr, Bool, true, false, Option, none, some, List, [], ◌∷◌, Bytes,
  bytes_eq, insert, delete, get-insert, get-delete, GoMap, Bool-cases, fun_ext, arith,
  if◌then◌else◌,
}
use apron_gateway_p2p.Outcome.{Outcome}
use apron_gateway_p2p.Models.{ApronService}
use apron_gateway_p2p.Node.{Node, PeerId}
use apron_gateway_p2p.Registry.{set_service, register_local_service, register_remote_service}

abbrev pub Directory : Type 0
Directory = GoMap (PeerId × ApronService)

-- a look-up needs both maps, the peer first
abbrev pub both : Option PeerId → Option ApronService → Option (PeerId × ApronService)
both none s = none
both (some p) none = none
both (some p) (some s) = some (p, s)

-- what a client of the registry sees
unfoldable pub view : Node → Directory
view n k = both (n.service_peer_mapping k) (n.services k)

-- The specification: a registration of `service` by `peer`.
unfoldable pub announce : PeerId → ApronService → Directory → Directory
announce peer service d =
    if service.is_deleted then delete service.id d else insert service.id (peer, service) d

both_if :
    (b : Bool) (p q : Option PeerId) (s t : Option ApronService)
    → both (if b then p else q) (if b then s else t) ≡ (if b then both p s else both q t)
both_if true p q s t = refl
both_if false p q s t = refl

view-set_service_at :
    (peer : PeerId) (service : ApronService) (n : Node) (k : Bytes)
    → view (set_service peer service n) k ≡ announce peer service (view n) k
unfolding view announce set_service
view-set_service_at peer service n k = elim (Bool-cases service.is_deleted) [
  | inl e ↦ simp (e, get-delete, both_if)
  | inr e ↦ simp (e, get-insert, both_if)
]

-- The maps of the node implement the directory: a registration changes what is seen of them as the
-- specification says.
pub view-set_service :
    (peer : PeerId) (service : ApronService) (n : Node)
    → view (set_service peer service n) ≡ announce peer service (view n)
view-set_service peer service n = fun_ext (view-set_service_at peer service n)

pub self_id-set_service :
    (peer : PeerId) (service : ApronService) (n : Node)
    → (set_service peer service n).self_id ≡ n.self_id
unfolding set_service
self_id-set_service peer service n = ground arith

-- a registration: through the management API of this node, or announced by another
pub data Registration : Type 0 where
  own : ApronService → Registration
  other : PeerId → ApronService → Registration

module _ (marshal : ApronService → Outcome Bytes) (publish : Bytes → Outcome (Unit {0})) where
  unfoldable pub register : Registration → Node → Node
  register (own service) n = (register_local_service marshal publish service n).1
  register (other peer service) n = register_remote_service peer service n

  unfoldable pub register_all : List Registration → Node → Node
  unfolding register
  register_all [] n = n
  register_all (r ∷ rs) n = register_all rs (register r n)

  abbrev pub peer_of : PeerId → Registration → PeerId
  peer_of self (own service) = self
  peer_of self (other peer service) = peer

  abbrev pub service_of : Registration → ApronService
  service_of (own service) = service
  service_of (other peer service) = service

  -- The specification of one entry: the last registration under its id decides.
  unfoldable pub latest :
      PeerId
      → Bytes
      → List Registration
      → Option (PeerId × ApronService)
      → Option (PeerId × ApronService)
  latest self k [] entry = entry
  latest self k (r ∷ rs) entry = latest self k rs (
      if bytes_eq (service_of r).id k
      then (if (service_of r).is_deleted then none else some (peer_of self r, service_of r))
      else entry)

  announce_at :
      (peer : PeerId) (service : ApronService) (d : Directory) (k : Bytes)
      → announce peer service d k ≡ (
          if bytes_eq service.id k
          then (if service.is_deleted then none else some (peer, service))
          else d k)
  unfolding announce
  announce_at peer service d k = elim (Bool-cases service.is_deleted) [
    | inl e ↦ simp (e, get-delete)
    | inr e ↦ simp (e, get-insert)
  ]

  view-register :
      (r : Registration) (n : Node)
      → view (register r n) ≡ announce (peer_of n.self_id r) (service_of r) (view n)
  unfolding register register_local_service register_remote_service
  view-register (own service) n = view-set_service n.self_id service n
  view-register (other peer service) n = view-set_service peer service n

  self_id-register : (r : Registration) (n : Node) → (register r n).self_id ≡ n.self_id
  unfolding register register_local_service register_remote_service
  self_id-register (own service) n = self_id-set_service n.self_id service n
  self_id-register (other peer service) n = self_id-set_service peer service n

  -- After any registrations, local and remote in any order, the entry that a node sees at an id is
  -- that of the last registration under the id: none if it was a deletion, else its peer (the node
  -- itself for a local one) and its service; without one it is the entry from before.
  pub view-register_all :
      (rs : List Registration) (n : Node) (k : Bytes)
      → view (register_all rs n) k ≡ latest n.self_id k rs (view n k)
  unfolding register_all latest
  view-register_all [] n k = refl
  view-register_all (r ∷ rs) n k =
      view-register_all rs (register r n) k
      ∙ ap (λ (p : PeerId). latest p k rs (view (register r n) k)) (self_id-register r n)
      ∙ ap (latest n.self_id k rs) (
          ap (λ (d : Directory). d k) (view-register r n)
          ∙ announce_at (peer_of n.self_id r) (service_of r) (view n) k)
