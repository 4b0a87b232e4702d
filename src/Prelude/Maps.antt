-- ===== src/Prelude/Maps.antt =====
-- Go maps with string keys, as lookup functions. `for k := range m` visits the keys in an order that
-- the runtime picks: code that ranges takes that order as an argument.
use mathlib.Core.Path.{◌≡◌, refl, sym, ◌∙◌}
use mathlib.Core.Logic.{inl, inr}
use mathlib.Core.Bool.{Bool, true, false, false≢true}
use mathlib.Core.Option.{Option, none, some}
use mathlib.Core.List.{List}
use apron_gateway_p2p.Prelude.Tests.{if◌then◌else◌, Bool-cases, Option-cases}
use apron_gateway_p2p.Prelude.Text.{Bytes, bytes_eq, bytes_eq_refl, contains}

abbrev pub GoMap {ℓ} : Type ℓ → Type ℓ
GoMap V = Bytes → Option V

module _ {ℓ} {V : Type ℓ} where
  -- `map[string]V{}`
  abbrev pub empty : GoMap V
  empty k = none

  -- `m[k] = v`
  unfoldable pub insert : Bytes → V → GoMap V → GoMap V
  insert k v m j = if bytes_eq k j then some v else m j

  -- `delete(m, k)`
  unfoldable pub delete : Bytes → GoMap V → GoMap V
  delete k m j = if bytes_eq k j then none else m j

  abbrev pub is_some : Option V → Bool
  is_some none = false
  is_some (some v) = true

  -- `_, found := m[k]`
  unfoldable pub has : GoMap V → Bytes → Bool
  has m k = is_some (m k)

  -- `keys` is an order in which `range m` may visit the keys.
  abbrev pub IsRange : List Bytes → GoMap V → Type 0
  IsRange keys m = (k : Bytes) → contains keys k ≡ has m k

  pub get-insert :
      (k j : Bytes) (v : V) (m : GoMap V) → insert k v m j ≡ (if bytes_eq k j then some v else m j)
  unfolding insert
  get-insert k j v m = refl

  pub get-delete : (k j : Bytes) (m : GoMap V) → delete k m j ≡ (if bytes_eq k j then none else m j)
  unfolding delete
  get-delete k j m = refl

  pub has-insert :
      (k j : Bytes) (v : V) (m : GoMap V)
      → has (insert k v m) j ≡ (if bytes_eq k j then true else has m j)
  unfolding has insert
  has-insert k j v m = elim (Bool-cases (bytes_eq k j)) [ inl e ↦ rw e refl | inr e ↦ rw e refl ]

  pub has-delete :
      (k j : Bytes) (m : GoMap V) → has (delete k m) j ≡ (if bytes_eq k j then false else has m j)
  unfolding has delete
  has-delete k j m = elim (Bool-cases (bytes_eq k j)) [ inl e ↦ rw e refl | inr e ↦ rw e refl ]

  pub has-some : (m : GoMap V) (k : Bytes) (v : V) → m k ≡ some v → has m k ≡ true
  unfolding has
  has-some m k v e = rw e refl

  pub has-none : (m : GoMap V) (k : Bytes) → m k ≡ none → has m k ≡ false
  unfolding has
  has-none m k e = rw e refl

  -- a key that is there, by its value
  pub has-elim : (m : GoMap V) (k : Bytes) → has m k ≡ true → (v : V) × (m k ≡ some v)
  unfolding has
  has-elim m k h = elim (Option-cases (m k)) [ inl e ↦ absurd (false≢true (rw e at h)) | inr p ↦ p ]

  pub not-has : (m : GoMap V) (k : Bytes) → has m k ≡ false → m k ≡ none
  unfolding has
  not-has m k h = elim (Option-cases (m k)) [
    | inl e ↦ e
    | inr (v, e) ↦ absurd (false≢true (sym h ∙ rw e refl))
  ]

  pub insert_self : (k : Bytes) (v : V) (m : GoMap V) → insert k v m k ≡ some v
  insert_self k v m = rw (get-insert, bytes_eq_refl k) refl

  pub delete_self : (k : Bytes) (m : GoMap V) → delete k m k ≡ none
  delete_self k m = rw (get-delete, bytes_eq_refl k) refl

pub has-empty {ℓ} : (V : Type ℓ) (k : Bytes) → has (empty {V = V}) k ≡ false
unfolding has
has-empty V k = refl

pub ruleset map_laws = (get-insert, get-delete, has-insert, has-delete)
