-- ===== src/Regex.antt =====
-- What internal/models/request_detail.go uses of Go's `regexp`: a pattern is a row of classes of
-- characters, each with how often it may stand, and matching is leftmost, greedy, with backtracking.
-- The texts are ASCII, so a character is a byte.
use apron_gateway_p2p.Prelude.{
  ℕ, zero, suc, ◌+◌, Bool, Option, none, some, List, [], ◌∷◌, Bytes, length, take, drop, concat,
  leb, if◌then◌else◌,
}

-- `[class]{least,most}`; `most` is `none` for `+` and `*`
pub record Item : Type 0 where
  pub class : ℕ → Bool
  pub least : ℕ
  pub most : Option ℕ

-- how many characters of the class stand first, at most `n`
unfoldable pub run_up_to : (ℕ → Bool) → ℕ → Bytes → ℕ
run_up_to class zero s = 0
run_up_to class (suc n) [] = 0
run_up_to class (suc n) (c ∷ cs) =
    let more = run_up_to class n cs in if class c then suc more else 0

unfoldable pub longest : Item → Bytes → ℕ
unfolding run_up_to
longest item s = elim item.most [
  | none ↦ run_up_to item.class (length s) s
  | some n ↦ run_up_to item.class n s
]

-- gives `n` characters to an item, and fewer if `rest` then fails
unfoldable pub backtrack : (Bytes → Option (List Bytes)) → ℕ → Bytes → ℕ → Option (List Bytes)
backtrack rest least s zero = elim (rest s) [
  | some parts ↦ if leb least 0 then some ([] ∷ parts) else none
  | none ↦ none
]
backtrack rest least s (suc n) =
    let fewer = backtrack rest least s n in
    elim (rest (drop (suc n) s)) [
      | some parts ↦ if leb least (suc n) then some (take (suc n) s ∷ parts) else none
      | none ↦ if leb least n then fewer else none
    ]

-- a match at the start of the text: what each item took
unfoldable pub match_here : List Item → Bytes → Option (List Bytes)
unfolding backtrack longest
match_here [] s = some []
match_here (item ∷ items) s = backtrack (match_here items) item.least s (longest item s)

-- behind a match at the start, and without one
unfoldable pub find_from :
    (Bytes → List (List Bytes)) → Bytes → Option (List Bytes) → List (List Bytes)
find_from next s (some parts) = parts ∷ next (drop (length (concat parts)) s)
find_from next [] none = []
find_from next (c ∷ cs) none = next cs

-- `FindAllSubmatch(s, -1)` of a pattern that matches no empty text; on fuel
unfoldable pub find_all_fuel : ℕ → List Item → Bytes → List (List Bytes)
unfolding find_from match_here
find_all_fuel zero items s = []
find_all_fuel (suc fuel) items s = find_from (find_all_fuel fuel items) s (match_here items s)

-- each turn takes at least one character
unfoldable pub find_all : List Item → Bytes → List (List Bytes)
unfolding find_all_fuel
find_all items s = find_all_fuel (length s + 1) items s
