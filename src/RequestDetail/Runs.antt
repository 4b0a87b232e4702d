-- ===== src/RequestDetail/Runs.antt =====
-- What `ExtractServiceIdAndUserKey` finds in a text (internal/models/request_detail.go): the runs of word
-- characters, by which the matching of its pattern is described without backtracking.
use apron_gateway_p2p.Prelude.{
  ℕ, zero, suc, ◌+◌, ◌-◌, ◌≤◌, ◌<◌, min, ◌≡◌, refl, sym, ap, ◌∙◌, true, false, Bool-cases, inl, inr,
  Option, Option-cases, none, some, le→leb, lt→leb, List, [], ◌∷◌, ◌++◌, map, append-nil,
  append_assoc, Bytes, length, take, drop, concat, leb, arith, if◌then◌else◌, length-take,
  length-drop, take-append-drop, take-take, drop-take, ◌⊎◌,
}
use apron_gateway_p2p.Outcome.{Outcome, ok, err}
use apron_gateway_p2p.Regex.{
  Item, run_up_to, longest, backtrack, match_here, find_from, find_all_fuel, find_all,
}
use apron_gateway_p2p.RequestDetail.{
  is_word, service_id_user_key_pattern, one_service_match, extract_service_id_and_user_key,
  invalid_path_format,
}

-- a run that is long enough for a service id of ten characters and a user key
abbrev pub long_run : Bytes → List Bytes
long_run r = if leb 11 (length r) then r ∷ [] else []

-- The long runs of word characters, the one that is under way first.
unfoldable pub long_runs : Bytes → Bytes → List Bytes
long_runs run [] = long_run run
long_runs run (c ∷ cs) =
    let further = long_runs (run ++ c ∷ []) cs in
    let after = long_runs [] cs in if is_word c then further else long_run run ++ after

-- the specification: there is one long run, and it is cut behind its tenth character
abbrev pub of_runs : List Bytes → Outcome (Bytes × Bytes)
of_runs [] = err invalid_path_format
of_runs (r ∷ []) = ok (take 10 r, drop 10 r)
of_runs (r ∷ r' ∷ rs) = err invalid_path_format

-- how many word characters stand first
abbrev run : Bytes → ℕ
run s = run_up_to is_word (length s) s

run_up_to-min : (n : ℕ) (s : Bytes) → run_up_to is_word n s ≡ min n (run s)
unfolding run_up_to
run_up_to-min zero s = omega arith
run_up_to-min (suc n) [] = omega arith
run_up_to-min (suc n) (c ∷ cs) = ground (arith, run_up_to-min n cs)

run-drop : (j : ℕ) (s : Bytes) → j ≤ run s → run (drop j s) ≡ run s - j
unfolding run_up_to
run-drop zero s h = omega arith
run-drop (suc j) [] h = omega arith
run-drop (suc j) (c ∷ cs) h = ground (arith, run-drop j cs)

run-le : (s : Bytes) → run s ≤ length s
unfolding run_up_to
run-le [] = omega arith
run-le (c ∷ cs) = ground (arith, run-le cs)

-- `[\w-]+`
abbrev plus : List Item
plus = record { class = is_word; least = 1; most = none } ∷ []

backtrack-end :
    (t : Bytes) (k : ℕ)
    → backtrack (match_here []) 1 t k ≡ (if leb 1 k then some (take k t ∷ []) else none)
unfolding backtrack match_here
backtrack-end t zero = refl
backtrack-end t (suc k) = rw (le→leb 1 (suc k) (omega arith)) refl

match_plus :
    (t : Bytes) → match_here plus t ≡ (if leb 1 (run t) then some (take (run t) t ∷ []) else none)
unfolding match_here longest
match_plus t = backtrack-end t (run t)

-- with fewer than ten characters for `[\w-]{10}` there is no match
backtrack-few :
    (rest : Bytes → Option (List Bytes)) (s : Bytes) (m : ℕ) → m < 10 → backtrack rest 10 s m ≡ none
unfolding backtrack
backtrack-few rest s zero h = elim (Option-cases (rest s)) [
  | inl e ↦ rw (backtrack, e) refl
  | inr (a, e) ↦ rw (backtrack, e) refl
]
backtrack-few rest s (suc m) h = elim (Option-cases (rest (drop (suc m) s))) [
  | inl e ↦ rw (backtrack, e) (rw (lt→leb 10 m (omega arith)) refl)
  | inr (a, e) ↦ rw (backtrack, e) (rw (lt→leb 10 (suc m) (omega arith)) refl)
]

-- and with ten of them none if nothing is left for `[\w-]+`
backtrack-ten :
    (rest : Bytes → Option (List Bytes)) (s : Bytes) (o : Option (List Bytes))
    → rest (drop 10 s) ≡ o
    → backtrack rest 10 s 10 ≡ elim o [ none ↦ none | some parts ↦ some (take 10 s ∷ parts) ]
unfolding backtrack
backtrack-ten rest s none e = rw (backtrack, e) refl
backtrack-ten rest s (some parts) e = rw (backtrack, e) refl

abbrev groups : Bytes → List Bytes
groups r = take 10 r ∷ drop 10 r ∷ []

module _ (s : Bytes) where
  abbrev after_ten : Option (List Bytes) → Option (List Bytes)
  after_ten o = elim o [ none ↦ none | some parts ↦ some (take 10 s ∷ parts) ]

  -- what follows ten characters of the first run
  long_enough :
      ((leb 11 (run s) ≡ true) ⊎ (leb 11 (run s) ≡ false))
      → run (drop 10 s) ≡ run s - 10
      → after_ten
          (if leb 1 (run (drop 10 s)) then some (take (run (drop 10 s)) (drop 10 s) ∷ []) else none)
        ≡ (if leb 11 (run s) then some (groups (take (run s) s)) else none)
  long_enough (inl h) d =
      let one : leb 1 (run s - 10) ≡ true = ground arith in
      let head = take-take 10 (run s) s (ground arith) in
      let tail = drop-take 10 (run s) s (ground arith) in rw d (rw (h, one) (rw (head, tail) refl))
  long_enough (inr h) d =
      let none_left : leb 1 (run s - 10) ≡ false = ground arith in rw d (rw (h, none_left) refl)

-- A match at the start of a text is its first run, if that is long.
match_start :
    (s : Bytes)
    → match_here service_id_user_key_pattern s
      ≡ (if leb 11 (run s) then some (groups (take (run s) s)) else none)
unfolding match_here longest
match_start s = elim (Bool-cases (leb 10 (run s))) [
  | inl h ↦
      let ten : run_up_to is_word 10 s ≡ 10 = run_up_to-min 10 s ∙ ground arith in
      rw ten (
        backtrack-ten (match_here plus) s
          (if leb 1 (run (drop 10 s)) then some (take (run (drop 10 s)) (drop 10 s) ∷ []) else none)
          (match_plus (drop 10 s))
        ∙ long_enough s (Bool-cases (leb 11 (run s))) (run-drop 10 s (ground arith)))
  | inr h ↦
      let few : run_up_to is_word 10 s < 10 = ground (arith, run_up_to-min 10 s) in
      rw (lt→leb 11 (run s) (ground arith))
        (backtrack-few (match_here plus) s (run_up_to is_word 10 s) few)
]

-- The first run is long or is not among the long runs; the others come behind it.
long_runs-run :
    (acc s : Bytes)
    → long_runs acc s ≡ long_run (acc ++ take (run s) s) ++ long_runs [] (drop (run s) s)
unfolding long_runs run_up_to
long_runs-run acc [] = rw (append-nil acc) (sym (append-nil (long_run acc)))
long_runs-run acc (c ∷ cs) = elim (Bool-cases (is_word c)) [
  | inl e ↦ rw e (
      long_runs-run (acc ++ c ∷ []) cs
      ∙ ap (λ (t : Bytes). long_run t ++ long_runs [] (drop (run cs) cs))
          (append_assoc acc (c ∷ []) (take (run cs) cs)))
  | inr e ↦ rw e (rw (append-nil acc, e) refl)
]

long_run-short : (r : Bytes) → length r ≤ 10 → long_run r ≡ []
long_run-short r h = rw (lt→leb 11 (length r) (omega arith)) refl

long_run-long : (r : Bytes) → 11 ≤ length r → long_run r ≡ r ∷ []
long_run-long r h = rw (le→leb 11 (length r) h) refl

first_short : (s : Bytes) → run s ≤ 10 → long_runs [] s ≡ long_runs [] (drop (run s) s)
first_short s h =
    long_runs-run [] s
    ∙ ap (λ t. t ++ long_runs [] (drop (run s) s))
        (long_run-short (take (run s) s) (omega (arith, length-take (run s) s)))

first_long :
    (s : Bytes) → 11 ≤ run s → long_runs [] s ≡ take (run s) s ∷ long_runs [] (drop (run s) s)
first_long s h =
    long_runs-run [] s
    ∙ ap (λ t. t ++ long_runs [] (drop (run s) s))
        (long_run-long (take (run s) s) (omega (arith, length-take (run s) s, run-le s)))

-- without a long first run a character can be passed over
skip_one : (c : ℕ) (cs : Bytes) → run (c ∷ cs) ≤ 10 → long_runs [] (c ∷ cs) ≡ long_runs [] cs
unfolding long_runs run_up_to
skip_one c cs h = elim (Bool-cases (is_word c)) [
  | inl e ↦
      let whole = first_short (c ∷ cs) h in
      let rest = first_short cs (ground arith) in rw e ((rw e at whole) ∙ sym rest)
  | inr e ↦ rw e refl
]

concat-groups : (r : Bytes) → concat (groups r) ≡ r
concat-groups r = ap (λ t. take 10 r ++ t) (append-nil (drop 10 r)) ∙ take-append-drop 10 r

module _ (next : Bytes → List (List Bytes)) where
  from_long :
      (s : Bytes)
      → 11 ≤ run s
      → ((t : Bytes) → length t < length s → next t ≡ map groups (long_runs [] t))
      → find_from next s (some (groups (take (run s) s))) ≡ map groups (long_runs [] s)
  unfolding find_from
  from_long s h ih =
      let r = take (run s) s in
      let len : length (concat (groups r)) ≡ run s =
        ap length (concat-groups r) ∙ omega (arith, length-take (run s) s, run-le s) in
      rw (first_long s h) (
        ap (λ (n : ℕ). groups r ∷ next (drop n s)) len
        ∙ ap (λ t. groups r ∷ t)
            (ih (drop (run s) s) (omega (arith, length-drop (run s) s, run-le s))))

  from_short :
      (s : Bytes)
      → run s ≤ 10
      → ((t : Bytes) → length t < length s → next t ≡ map groups (long_runs [] t))
      → find_from next s none ≡ map groups (long_runs [] s)
  unfolding find_from
  from_short [] h ih = unfold long_runs in refl
  from_short (c ∷ cs) h ih = rw (skip_one c cs h) (ih cs (omega arith))

-- With fuel for every character the matches are the long runs, each cut behind ten characters.
find_all_fuel-long_runs :
    (fuel : ℕ) (s : Bytes)
    → length s < fuel
    → find_all_fuel fuel service_id_user_key_pattern s ≡ map groups (long_runs [] s)
unfolding find_all_fuel
find_all_fuel-long_runs zero s h = absurd (omega arith)
find_all_fuel-long_runs (suc fuel) s h =
    let ih =
      λ (t : Bytes) (k : length t < length s). find_all_fuel-long_runs fuel t (omega arith) in
    rw (match_start s) (elim (Bool-cases (leb 11 (run s))) [
      | inl e ↦
          rw e (from_long (find_all_fuel fuel service_id_user_key_pattern) s (ground arith) ih)
      | inr e ↦
          rw e (from_short (find_all_fuel fuel service_id_user_key_pattern) s (ground arith) ih)
    ])

one_service-groups : (rs : List Bytes) → one_service_match (map groups rs) ≡ of_runs rs
unfolding one_service_match
one_service-groups [] = refl
one_service-groups (r ∷ []) = refl
one_service-groups (r ∷ r' ∷ rs) = refl

-- `ExtractServiceIdAndUserKey` returns for any text: if exactly one run of word characters in it, as long
-- as can be, has eleven characters or more, its first ten as the service id and the others as the
-- user key, and else the error.
pub extract_service_id_and_user_key-runs :
    (s : Bytes) → extract_service_id_and_user_key s ≡ of_runs (long_runs [] s)
unfolding extract_service_id_and_user_key find_all
extract_service_id_and_user_key-runs s =
    ap one_service_match (find_all_fuel-long_runs (length s + 1) s (omega arith))
    ∙ one_service-groups (long_runs [] s)
