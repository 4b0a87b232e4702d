-- ===== src/Registry/Prune.antt =====
-- One round of `UpdatePeers` of internal/trans_network/node.go.
use apron_gateway_p2p.Prelude.{
  ◌≡◌, refl, ap, ◌∙◌, Bool, true, false, ◌&&◌, ◌||◌, Option, none, some, List, [], ◌∷◌, Bytes,
  bytes_eq, bytes_eq_iff, sym, inl, inr, Bool-cases, contains, has-some, IsRange, get-delete,
  delete, arith, if◌then◌else◌,
}
use apron_gateway_p2p.Node.{Node, PeerId}
use apron_gateway_p2p.Registry.{is_invalid_service, invalid_services, remove_services, update_peers}

delete_or {ℓ} :
    {A : Type ℓ} (b c : Bool) (o : Option A)
    → (if c then none else if b then none else o) ≡ (if b || c then none else o)
delete_or true true o = refl
delete_or true false o = refl
delete_or false true o = refl
delete_or false false o = refl

-- the second loop removes exactly the keys of its list
remove_services-services :
    (ks : List Bytes) (n : Node) (k : Bytes)
    → (remove_services ks n).services k ≡ (if contains ks k then none else n.services k)
unfolding remove_services contains
remove_services-services [] n k = refl
remove_services-services (j ∷ ks) n k =
    remove_services-services ks
      (record n {
        services = delete j n.services;
        service_peer_mapping = delete j n.service_peer_mapping;
      })
      k
    ∙ rw get-delete (delete_or (bytes_eq j k) (contains ks k) (n.services k))

remove_services-mapping :
    (ks : List Bytes) (n : Node) (k : Bytes)
    → (remove_services ks n).service_peer_mapping k
      ≡ (if contains ks k then none else n.service_peer_mapping k)
unfolding remove_services contains
remove_services-mapping [] n k = refl
remove_services-mapping (j ∷ ks) n k =
    remove_services-mapping ks
      (record n {
        services = delete j n.services;
        service_peer_mapping = delete j n.service_peer_mapping;
      })
      k
    ∙ rw get-delete (delete_or (bytes_eq j k) (contains ks k) (n.service_peer_mapping k))

collect_one :
    (j k : Bytes) (rest : List Bytes) (c p q : Bool)
    → contains rest k ≡ (c && q)
    → (bytes_eq j k ≡ true → p ≡ q)
    → contains (if p then j ∷ rest else rest) k ≡ ((bytes_eq j k || c) && q)
unfolding contains
collect_one j k rest c true true h same = ground arith
collect_one j k rest c true false h same = ground arith
collect_one j k rest c false true h same = ground arith
collect_one j k rest c false false h same = ground arith

-- the first loop collects exactly the invalid keys among those visited
contains-invalid_services :
    (available : List PeerId) (n : Node) (keys : List Bytes) (k : Bytes)
    → contains (invalid_services available n keys) k
      ≡ (contains keys k && is_invalid_service available n.self_id (n.service_peer_mapping k))
unfolding invalid_services contains
contains-invalid_services available n [] k = refl
contains-invalid_services available n (j ∷ keys) k =
    collect_one j k (invalid_services available n keys) (contains keys k)
      (is_invalid_service available n.self_id (n.service_peer_mapping j))
      (is_invalid_service available n.self_id (n.service_peer_mapping k))
      (contains-invalid_services available n keys k)
      (λ e.
        ap (λ (x : Bytes). is_invalid_service available n.self_id (n.service_peer_mapping x))
          ((bytes_eq_iff j k).0 e))

-- The specification: an entry stays if it has no peer, or its peer is the node itself or available.
abbrev pub stays : List PeerId → PeerId → Option PeerId → Bool
stays available self none = true
stays available self (some p) = bytes_eq p self || contains available p

module _ (available : List PeerId) (keys : List Bytes) (n : Node)
    (range : IsRange keys n.service_peer_mapping) (k : Bytes) where
  -- with the verdict on the key known, both maps
  verdict :
      (o : Option PeerId) (b : Bool)
      → n.service_peer_mapping k ≡ o
      → (contains keys k && is_invalid_service available n.self_id o) ≡ b
      → ((update_peers available keys n).service_peer_mapping k ≡ (if b then none else o))
        × ((update_peers available keys n).services k ≡ (if b then none else n.services k))
  unfolding update_peers
  verdict o b e h =
      let collected = invalid_services available n keys in
      let same : contains collected k ≡ b =
        contains-invalid_services available n keys k
        ∙ ap (λ q. contains keys k && is_invalid_service available n.self_id q) e
        ∙ h in
      (
        remove_services-mapping collected n k ∙ rw (same, e) refl,
        remove_services-services collected n k ∙ rw same refl,
      )

  abbrev pub Kept : Bool → Type 0
  Kept b =
      ((update_peers available keys n).service_peer_mapping k
        ≡ (if b then n.service_peer_mapping k else none))
      × ((update_peers available keys n).services k ≡ (if b then n.services k else none))

  kept : (o : Option PeerId) → n.service_peer_mapping k ≡ o → Kept (stays available n.self_id o)
  unfolding is_invalid_service
  kept none e = let (m, s) = verdict none false e (ground arith) in (m ∙ sym e, s)
  kept (some p) e =
      let seen : contains keys k ≡ true = range k ∙ has-some n.service_peer_mapping k p e in
      elim (Bool-cases (stays available n.self_id (some p))) [
        | inl h ↦
            rw h (let (m, s) = verdict (some p) false e (ground (arith, seen)) in (m ∙ sym e, s))
        | inr h ↦ rw h (verdict (some p) true e (ground (arith, seen)))
      ]

  -- A round of `UpdatePeers` over any order of the keys: of each key both maps keep what they have,
  -- or lose it if the key's peer is neither this node nor available.
  pub update_peers-stays :
      ((update_peers available keys n).service_peer_mapping k ≡ (
        if stays available n.self_id (n.service_peer_mapping k)
        then n.service_peer_mapping k
        else none))
      × ((update_peers available keys n).services k
          ≡ (if stays available n.self_id (n.service_peer_mapping k) then n.services k else none))
  update_peers-stays = kept (n.service_peer_mapping k) refl
