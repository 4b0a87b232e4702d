-- ===== src/Prelude/Every.antt =====
-- Predicates on the elements of a list, and how many elements carry a label.
use Prim.Native.Nat.{ℕ, ◌+◌}
use mathlib.Core.Path.{◌≡◌, refl}
use mathlib.Core.List.{List, [], ◌∷◌, ◌++◌}
use mathlib.Core.Option.{Option, none, some}
use native.Mathlib.Omega.{arith}
use apron_gateway_p2p.Prelude.Tests.{if◌then◌else◌}
use apron_gateway_p2p.Prelude.Text.{Bytes, bytes_eq}

module _ {ℓ κ} {A : Type ℓ} where
  abbrev pub All : (A → Type κ) → List A → Type κ
  All P [] = Unit
  All P (x ∷ xs) = P x × All P xs

  pub All-append : (P : A → Type κ) (xs ys : List A) → All P xs → All P ys → All P (xs ++ ys)
  All-append P [] ys hx hy = hy
  All-append P (x ∷ xs) ys (h, hx) hy = (h, All-append P xs ys hx hy)

  -- the element between two parts, and the parts
  pub All-middle :
      (P : A → Type κ) (xs : List A) (y : A) (ys : List A)
      → All P (xs ++ y ∷ ys)
      → P y × All P (xs ++ ys)
  All-middle P [] y ys h = h
  All-middle P (x ∷ xs) y ys (hx, h) = let (hy, rest) = All-middle P xs y ys h in (hy, (hx, rest))

module _ {ℓ κ ι} {A : Type ℓ} where
  pub All-weaken :
      (P : A → Type κ) (Q : A → Type ι) (xs : List A) → All P xs → ((x : A) → P x → Q x) → All Q xs
  All-weaken P Q [] h k = tt
  All-weaken P Q (x ∷ xs) (h, hs) k = (k x h, All-weaken P Q xs hs k)

-- whether the label is the one that is looked for
abbrev pub hits : Bytes → Option Bytes → ℕ
hits k none = 0
hits k (some j) = if bytes_eq j k then 1 else 0

module _ {ℓ} {A : Type ℓ} (label : A → Option Bytes) (k : Bytes) where
  abbrev pub tally : List A → ℕ
  tally [] = 0
  tally (x ∷ xs) = hits k (label x) + tally xs

  pub tally-append : (xs ys : List A) → tally (xs ++ ys) ≡ tally xs + tally ys
  tally-append [] ys = omega arith
  tally-append (x ∷ xs) ys = omega (arith, tally-append xs ys)

  pub tally-middle :
      (xs : List A) (y : A) (ys : List A)
      → tally (xs ++ y ∷ ys) ≡ hits k (label y) + tally (xs ++ ys)
  tally-middle [] y ys = refl
  tally-middle (x ∷ xs) y ys = omega (arith, tally-middle xs y ys)
