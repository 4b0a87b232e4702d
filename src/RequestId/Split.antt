-- ===== src/RequestId/Split.antt =====
-- The request id that a gateway builds, taken apart again (internal/models/helper.go).
use apron_gateway_p2p.Prelude.{
  ℕ, ◌≡◌, refl, ap, ◌∙◌, inl, inr, [], ◌∷◌, ◌++◌, Option, none, some, false, Bytes, arith, ◌==◌,
  append_assoc, ◌≤◌, ◌<◌, ◌+◌, Bool-cases, ==_iff, if◌then◌else◌,
}
use apron_gateway_p2p.Outcome.{Outcome, ok, err, panic}
use apron_gateway_p2p.RequestId.{
  dot, cut, split_at, split_n, service_info, extract_service_info_from_request_id, new_request_id,
  has_dot, service_hostname_to_id_byte,
}

-- up to the first dot
pub cut-append : (a b : Bytes) → has_dot a ≡ false → cut dot (a ++ dot ∷ b) ≡ some (a, b)
unfolding cut has_dot
cut-append [] b h = refl
cut-append (c ∷ a) b h = ground (arith, cut-append a b)

pub cut-none : (a : Bytes) → has_dot a ≡ false → cut dot a ≡ none
unfolding cut has_dot
cut-none [] h = refl
cut-none (c ∷ a) h = ground (arith, cut-none a)

-- `cut` returns the parts round the first dot, and nothing if there is none
pub record Parts (s a b : Bytes) : Type 0 where
  pub joins : s ≡ a ++ dot ∷ b
  pub first_plain : has_dot a ≡ false

abbrev pub Cuts : Bytes → Option (Bytes × Bytes) → Type 0
Cuts s none = has_dot s ≡ false
Cuts s (some (a, b)) = Parts s a b

cons-Cuts :
    (c : ℕ) (s : Bytes) (o : Option (Bytes × Bytes))
    → (c == dot) ≡ false
    → Cuts s o
    → Cuts (c ∷ s) (elim o [ none ↦ none | some (a, b) ↦ some (c ∷ a, b) ])
unfolding has_dot
cons-Cuts c s none h x = ground arith
cons-Cuts c s (some (a, b)) h x = record {
  joins = ap (λ (t : Bytes). c ∷ t) x.joins;
  first_plain = ground arith;
}

pub cut-Cuts : (s : Bytes) → Cuts s (cut dot s)
unfolding cut has_dot
cut-Cuts [] = refl
cut-Cuts (c ∷ s) = elim (Bool-cases (c == dot)) [
  | inl e ↦ rw e (record { joins = ap (λ (n : ℕ). n ∷ s) ((==_iff c dot).0 e); first_plain = refl })
  | inr e ↦ rw e (cons-Cuts c s (cut dot s) e (cut-Cuts s))
]

-- A request id that is built of a user key and a service id without dots gives both back, whatever
-- the UUID.
pub extract-new_request_id :
    (user_key service_id uuid : Bytes)
    → has_dot user_key ≡ false
    → has_dot service_id ≡ false
    → extract_service_info_from_request_id (new_request_id user_key service_id uuid)
      ≡ ok (user_key, service_id)
unfolding extract_service_info_from_request_id new_request_id
extract-new_request_id u s x hu hs =
    rw (cut-append u (s ++ dot ∷ x) hu) (rw (cut-append s x hs) refl)

-- With a dot in the service id, and none in the user key, the part before the service id's first
-- dot is taken for the service.
pub extract_dotted_service :
    (user_key s₁ s₂ uuid : Bytes)
    → has_dot user_key ≡ false
    → has_dot s₁ ≡ false
    → extract_service_info_from_request_id (new_request_id user_key (s₁ ++ dot ∷ s₂) uuid)
      ≡ ok (user_key, s₁)
unfolding extract_service_info_from_request_id new_request_id
extract_dotted_service u s₁ s₂ x hu hs =
    rw (cut-append u ((s₁ ++ dot ∷ s₂) ++ dot ∷ x) hu)
      (rw (append_assoc s₁ (dot ∷ s₂) (dot ∷ x)) (rw (cut-append s₁ (s₂ ++ dot ∷ x) hs) refl))

-- a text with two dots at least, by its parts
pub record Extracted (r user_key service_id : Bytes) : Type 0 where
  pub rest : Bytes
  pub joins : r ≡ new_request_id user_key service_id rest
  pub user_plain : has_dot user_key ≡ false
  pub service_plain : has_dot service_id ≡ false

unfoldable pub count_dots : Bytes → ℕ
count_dots [] = 0
count_dots (c ∷ cs) = (if c == dot then 1 else 0) + count_dots cs

abbrev pub Extracts : Bytes → Outcome (Bytes × Bytes) → Type 0
Extracts r (ok (u, s)) = Extracted r u s × (2 ≤ count_dots r)
Extracts r (err e) = ⊥
Extracts r (panic e) = count_dots r < 2

count_dots-plain : (s : Bytes) → has_dot s ≡ false → count_dots s ≡ 0
unfolding count_dots has_dot
count_dots-plain [] h = refl
count_dots-plain (c ∷ s) h = ground (arith, count_dots-plain s)

count_dots-append : (a b : Bytes) → count_dots (a ++ b) ≡ count_dots a + count_dots b
unfolding count_dots
count_dots-append [] b = omega arith
count_dots-append (c ∷ a) b = omega (arith, count_dots-append a b)

count_dots-Parts : (s a b : Bytes) → Parts s a b → count_dots s ≡ 1 + count_dots b
unfolding count_dots
count_dots-Parts s a b x =
    ap count_dots x.joins
    ∙ omega (arith, count_dots-append a (dot ∷ b), count_dots-plain a x.first_plain)

second_cut :
    (r a b : Bytes) (o : Option (Bytes × Bytes))
    → Parts r a b
    → Cuts b o
    → Extracts r (service_info r (a ∷ split_at (split_n 1 dot) b o))
unfolding service_info split_n split_at
second_cut r a b none x y = omega (arith, count_dots-Parts r a b x, count_dots-plain b y)
second_cut r a b (some (s, t)) x y = (
  record {
    rest = t;
    joins = unfold new_request_id in x.joins ∙ ap (λ (q : Bytes). a ++ dot ∷ q) y.joins;
    user_plain = x.first_plain;
    service_plain = y.first_plain;
  },
  omega (arith, count_dots-Parts r a b x, count_dots-Parts b s t y),
)

first_cut :
    (r : Bytes) (o : Option (Bytes × Bytes))
    → Cuts r o
    → Extracts r (service_info r (split_at (split_n 2 dot) r o))
unfolding service_info split_n split_at
first_cut r none x = omega (arith, count_dots-plain r x)
first_cut r (some (a, b)) x = second_cut r a b (cut dot b) x (cut-Cuts b)

-- What `ExtractServiceInfoFromRequestID` does with any text: with two dots or more it returns the
-- parts before the first and before the second, which have no dot; with fewer it panics. It
-- never returns an error.
pub extract-Extracts : (r : Bytes) → Extracts r (extract_service_info_from_request_id r)
unfolding extract_service_info_from_request_id
extract-Extracts r = first_cut r (cut dot r) (cut-Cuts r)

-- Whatever the hostname, the id that `ServiceHostnameToIdByte` makes of it has no dot.
pub has_dot-service_hostname_to_id_byte :
    (h : Bytes) → has_dot (service_hostname_to_id_byte h) ≡ false
unfolding has_dot service_hostname_to_id_byte
has_dot-service_hostname_to_id_byte [] = refl
has_dot-service_hostname_to_id_byte (c ∷ cs) =
    ground (arith, has_dot-service_hostname_to_id_byte cs)

-- A hostname without a dot is its own id.
pub service_hostname_to_id_byte-plain :
    (h : Bytes) → has_dot h ≡ false → service_hostname_to_id_byte h ≡ h
unfolding has_dot service_hostname_to_id_byte
service_hostname_to_id_byte-plain [] e = refl
service_hostname_to_id_byte-plain (c ∷ cs) e = ground (arith, service_hostname_to_id_byte-plain cs)
