-- ===== src/RequestId/Keys.antt =====
-- The keys of the usage records (internal/models/usage_record.go).
use apron_gateway_p2p.Prelude.{
  ◌≡◌, ap, sym, ◌∙◌, ◌∷◌, ◌++◌, Option, some, false, Bytes, append_assoc,
}
use apron_gateway_p2p.Outcome.{ok}
use apron_gateway_p2p.RequestId.{
  dot, cut, extract_service_info_from_request_id, generate_usage_record_key, has_dot,
}
use apron_gateway_p2p.RequestId.Split.{cut-append, Extracts, extract-Extracts}

-- Keys of services without dots are equal only for one service and one user.
pub generate_usage_record_key-injective :
    (s u s' u' : Bytes)
    → has_dot s ≡ false
    → has_dot s' ≡ false
    → generate_usage_record_key s u ≡ generate_usage_record_key s' u'
    → (s ≡ s') × (u ≡ u')
unfolding generate_usage_record_key
generate_usage_record_key-injective s u s' u' h h' e =
    let cuts : ◌≡◌ {A = Option (Bytes × Bytes)} (some (s, u)) (some (s', u')) =
      sym (cut-append s u h) ∙ ap (cut dot) e ∙ cut-append s' u' h' in
    (cc, cc)

-- Two request ids that can be taken apart and are charged to one record are of one user and one
-- service.
pub record_key-injective :
    (r r' : Bytes) (u s u' s' : Bytes)
    → extract_service_info_from_request_id r ≡ ok (u, s)
    → extract_service_info_from_request_id r' ≡ ok (u', s')
    → generate_usage_record_key s u ≡ generate_usage_record_key s' u'
    → (u ≡ u') × (s ≡ s')
record_key-injective r r' u s u' s' p p' e =
    let x : Extracts r (ok (u, s)) = rw p at (extract-Extracts r) in
    let x' : Extracts r' (ok (u', s')) = rw p' at (extract-Extracts r') in
    let (same_s, same_u) =
      generate_usage_record_key-injective s u s' u' x.0.service_plain x'.0.service_plain e in
    (same_u, same_s)

-- A service whose id has a dot shares its usage key with another service and user: what is behind
-- the dot can be read as part of the user's.
pub generate_usage_record_key_shared :
    (s t u : Bytes)
    → generate_usage_record_key (s ++ dot ∷ t) u ≡ generate_usage_record_key s (t ++ dot ∷ u)
unfolding generate_usage_record_key
generate_usage_record_key_shared s t u = append_assoc s (dot ∷ t) (dot ∷ u)
