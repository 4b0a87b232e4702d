-- ===== src/Mgmt/Lists.antt =====
-- The listings of internal/trans_network/node_mgmt_handler.go, and what its handlers do to the registry.
use apron_gateway_p2p.Prelude.{
  ◌≡◌, refl, sym, ◌∙◌, Bool, true, false, not, Option, none, some, List, [], ◌∷◌, ◌++◌, Bytes,
  bytes_eq, has-none, has-some, if◌then◌else◌,
}
use mathlib.Core.Bool.{false≢true}
use mathlib.Core.List.{Perm, perm_middle}
use mathlib.Core.List.Perm
use apron_gateway_p2p.Outcome.{Outcome, ok, err, panic}
use apron_gateway_p2p.Models.{ApronService}
use apron_gateway_p2p.Node.{Node, PeerId}
use apron_gateway_p2p.Registry.{register_local_service}
use apron_gateway_p2p.Registry.Invariant.{IsConsistent}
use apron_gateway_p2p.Registry.Directory.{view, announce, view-set_service}
use apron_gateway_p2p.Mgmt.{
  append_some, list_service_handler, append_if, list_where, list_local_service_handler,
  list_remote_service_handler, register_parsed, new_or_update_service_handler,
  delete_service_handler,
}

-- one key: its service goes to exactly one of the two listings
split_key :
    (b : Bool) (p : PeerId) (s : ApronService) (xs ys zs : List ApronService)
    → Perm (xs ++ ys) zs
    → Perm ((if b then s ∷ xs else xs) ++ (if not b then s ∷ ys else ys)) (s ∷ zs)
split_key true p s xs ys zs h = Perm.cons s h
split_key false p s xs ys zs h = Perm.trans (perm_middle xs ys) (Perm.cons s h)

module _ (n : Node) (c : IsConsistent n) where
  split_step :
      (k : Bytes) (p : Option PeerId) (s : Option ApronService) (xs ys zs : List ApronService)
      → n.service_peer_mapping k ≡ p
      → n.services k ≡ s
      → Perm (xs ++ ys) zs
      → Perm
          (append_if (λ v. bytes_eq v n.self_id) p s xs
            ++ append_if (λ v. not (bytes_eq v n.self_id)) p s ys)
          (append_some s zs)
  unfolding append_if append_some
  split_step k none none xs ys zs ep es h = h
  split_step k none (some s) xs ys zs ep es h = absurd (
      false≢true (
        sym (has-none n.service_peer_mapping k ep) ∙ sym (c.paired k) ∙ has-some n.services k s es))
  split_step k (some p) none xs ys zs ep es h = absurd (
      false≢true
        (sym (has-none n.services k es) ∙ c.paired k ∙ has-some n.service_peer_mapping k p ep))
  split_step k (some p) (some s) xs ys zs ep es h = split_key (bytes_eq p n.self_id) p s xs ys zs h

  -- In a consistent registry the local and the remote listing hold, between them, exactly the
  -- services of the full listing, each as often.
  pub local_remote-perm :
      (keys : List Bytes)
      → Perm
          (list_local_service_handler keys n ++ list_remote_service_handler keys n)
          (list_service_handler keys n)
  unfolding list_local_service_handler list_remote_service_handler list_service_handler list_where
  local_remote-perm [] = Perm.refl []
  local_remote-perm (k ∷ keys) =
      split_step k (n.service_peer_mapping k) (n.services k)
        (list_where (λ v. bytes_eq v n.self_id) keys n)
        (list_where (λ v. not (bytes_eq v n.self_id)) keys n) (list_service_handler keys n) refl
        refl (local_remote-perm keys)

module _ (unmarshal_json : Bytes → Outcome ApronService) (marshal : ApronService → Outcome Bytes)
    (publish : Bytes → Outcome (Unit {0})) (n : Node) where
  -- what a handler must do with a body, by what it parses to; `f` is what it does to the service
  abbrev pub Handled :
      (ApronService → ApronService) → Outcome ApronService → Outcome (Unit {0}) × Node → Type 0
  Handled f (ok s) (r, n') = view n' ≡ announce n.self_id (f s) (view n)
  Handled f (err e) (r, n') = (r ≡ panic e) × (n' ≡ n)
  Handled f (panic e) (r, n') = (r ≡ panic e) × (n' ≡ n)

  handled :
      (f : ApronService → ApronService) (o : Outcome ApronService)
      → Handled f o (register_parsed unmarshal_json marshal publish f o n)
  unfolding register_parsed register_local_service
  handled f (ok s) = view-set_service n.self_id (f s) n
  handled f (err e) = (refl, refl)
  handled f (panic e) = (refl, refl)

  -- A POST with a body that parses registers its service for this node, a DELETE withdraws the
  -- service of its id, whoever provides it; with a body that does not parse both panic and the
  -- registry stays.
  pub handlers-Handled :
      (body : Bytes)
      → Handled
          (λ s. s)
          (unmarshal_json body)
          (new_or_update_service_handler unmarshal_json marshal publish body n)
        × Handled
            (λ s. record s { is_deleted = true })
            (unmarshal_json body)
            (delete_service_handler unmarshal_json marshal publish body n)
  unfolding new_or_update_service_handler delete_service_handler
  handlers-Handled body = (
    handled (λ s. s) (unmarshal_json body),
    handled (λ s. record s { is_deleted = true }) (unmarshal_json body),
  )
