-- ===== src/Socks5/Yields.antt =====
-- What the steps of `buildSocks5ConnectRequest` give for bytes of a client
-- (internal/ext_protocols/socks5/apron_client_agent.go).
use apron_gateway_p2p.Prelude.{
  ℕ, zero, suc, ◌≤◌, ◌<◌, ◌≡◌, sym, Bool, true, false, Bool-cases, inl, inr, Option, none, some, [],
  ◌∷◌, ◌++◌, Bytes, codes, length, take, drop, ltb, ◌==◌, arith, length-take, take-append-drop,
}
use mathlib.Core.Path.{subst}
use apron_gateway_p2p.Outcome.{Outcome, ok, err, panic, ok-injective}
use apron_gateway_p2p.Wire.BigEndian.{be_value}
use apron_gateway_p2p.Wire.Bufio.{Reader, read, read_full, read_some, contents, eof_after}
use apron_gateway_p2p.Wire.FullRead.{read_full-Completes, read_full-FallsShort, Reads, read-Reads}
use apron_gateway_p2p.Socks5.Const.{socks5_version, socks5_auth_none}
use apron_gateway_p2p.Socks5.Client.{
  Parse, then_parse, ◌>>=◌, ◌>>◌, pure, require, first, read_byte, read_once, read_ignored, or_eof,
  validate_version, handle_client_greeting_package,
}

-- values of bytes
abbrev pub AreBytes : Bytes → Type 0
AreBytes [] = Unit
AreBytes (b ∷ bs) = (b < 256) × AreBytes bs

AreBytes-append_left : (xs ys : Bytes) → AreBytes (xs ++ ys) → AreBytes xs
AreBytes-append_left [] ys h = tt
AreBytes-append_left (x ∷ xs) ys (b, h) = (b, AreBytes-append_left xs ys h)

AreBytes-append_right : (xs ys : Bytes) → AreBytes (xs ++ ys) → AreBytes ys
AreBytes-append_right [] ys h = h
AreBytes-append_right (x ∷ xs) ys (b, h) = AreBytes-append_right xs ys h

AreBytes-take : (n : ℕ) (xs : Bytes) → AreBytes xs → AreBytes (take n xs)
AreBytes-take n xs h =
    AreBytes-append_left (take n xs) (drop n xs) (subst AreBytes (sym (take-append-drop n xs)) h)

AreBytes-drop : (n : ℕ) (xs : Bytes) → AreBytes xs → AreBytes (drop n xs)
AreBytes-drop n xs h =
    AreBytes-append_right (take n xs) (drop n xs) (subst AreBytes (sym (take-append-drop n xs)) h)

pub first-lt : (bs : Bytes) → AreBytes bs → first bs < 256
first-lt [] h = omega arith
first-lt (b ∷ bs) (l, h) = l

-- A step whose result, if it returns one, is as `P` says, and that leaves bytes to read.
abbrev pub Yields : {A : Type 0} → (A → Type 0) → Outcome A × Reader → Type 0
Yields P (ok a, r) = P a × AreBytes (contents r)
Yields P (err e, r) = Unit
Yields P (panic e, r) = Unit

module _ {A B : Type 0} where
  pub Yields-then :
      (P : A → Type 0) (Q : B → Type 0) (p : Outcome A × Reader) (f : A → Parse B)
      → Yields P p
      → ((a : A) (r : Reader) → P a → AreBytes (contents r) → Yields Q (f a r))
      → Yields Q (then_parse p f)
  Yields-then P Q (ok a, r) f (x, h) k = k a r x h
  Yields-then P Q (err e, r) f x k = tt
  Yields-then P Q (panic e, r) f x k = tt

pub Yields-weaken :
    {A : Type 0} (P Q : A → Type 0) (p : Outcome A × Reader)
    → ((a : A) → P a → Q a)
    → Yields P p
    → Yields Q p
Yields-weaken P Q (ok a, r) imp (x, h) = (imp a x, h)
Yields-weaken P Q (err e, r) imp x = tt
Yields-weaken P Q (panic e, r) imp x = tt

-- bytes, as many as asked for
abbrev pub Full : ℕ → Bytes → Type 0
Full n bs = (length bs ≡ n) × AreBytes bs

Yields-pair :
    {A : Type 0} (P : A → Type 0) (p : Outcome A × Reader) (a : A)
    → p.0 ≡ ok a
    → P a
    → AreBytes (contents p.1)
    → Yields P p
Yields-pair P (ok b, r) a e x h = (subst P (sym (ok-injective e)) x, h)
Yields-pair P (err z, r) a e x h = tt
Yields-pair P (panic z, r) a e x h = tt

Yields-eof :
    (P : Bytes → Type 0) (p : Outcome Bytes × Reader) (bs : Bytes) → p.0 ≡ eof_after bs → Yields P p
Yields-eof P (ok b, r) [] e = cc
Yields-eof P (ok b, r) (x ∷ xs) e = cc
Yields-eof P (err z, r) bs e = tt
Yields-eof P (panic z, r) bs e = tt

pub read_full-Yields :
    (n : ℕ) (r : Reader) → AreBytes (contents r) → Yields (Full n) (read_full n r)
read_full-Yields n r h = elim (Bool-cases (ltb (length (contents r)) n)) [
  | inl short ↦
      Yields-eof (Full n) (read_full n r) (contents r) (read_full-FallsShort n r (ground arith)).0
  | inr enough ↦
      let le : n ≤ length (contents r) = ground arith in
      let (result, left) = read_full-Completes n r le in
      Yields-pair (Full n) (read_full n r) (take n (contents r)) result
        (omega (arith, length-take n (contents r)), AreBytes-take n (contents r) h)
        (subst AreBytes (sym left) (AreBytes-drop n (contents r) h))
]

-- what a single `Read` hands out
or_eof-Yields :
    (n : ℕ) (r : Reader) (p : Option Bytes × Reader)
    → AreBytes (contents r)
    → Reads n r p
    → Yields AreBytes (or_eof p)
unfolding or_eof
or_eof-Yields n r (none, r') h x = tt
or_eof-Yields n r (some c, r') h x =
    let both : AreBytes (c ++ contents r') = subst AreBytes x.in_order h in
    (AreBytes-append_left c (contents r') both, AreBytes-append_right c (contents r') both)

pub read_once-Yields :
    (n : ℕ) (r : Reader) → 0 < n → AreBytes (contents r) → Yields AreBytes (read_once n r)
unfolding read_once read_some
read_once-Yields zero r pos h = absurd (omega arith)
read_once-Yields (suc n) r pos h =
    or_eof-Yields (suc n) r (read (suc n) r) h (read-Reads (suc n) r (omega arith))

pub port-lt : (port : Bytes) → Full 2 port → be_value 0 port < 65536
unfolding be_value
port-lt [] (e, h) = absurd (omega (arith, e))
port-lt (a ∷ []) (e, h) = absurd (omega (arith, e))
port-lt (a ∷ b ∷ []) (e, (la, (lb, h))) = omega arith
port-lt (a ∷ b ∷ c ∷ cs) (e, h) = absurd (omega (arith, e))

-- a result that nothing is said of
abbrev pub Some : {A : Type 0} → A → Type 0
Some a = Unit

-- a single byte
abbrev Byte : ℕ → Type 0
Byte b = b < 256

read_byte-Yields : (r : Reader) → AreBytes (contents r) → Yields Byte (read_byte r)
unfolding read_byte
read_byte-Yields r h =
    Yields-then (Full 1) Byte (read_full 1 r) (λ bs. pure (first bs)) (read_full-Yields 1 r h)
      (λ bs r' x h'. (first-lt bs x.1, h'))

left-AreBytes :
    (n : ℕ) (r : Reader) (p : Option Bytes × Reader)
    → AreBytes (contents r)
    → Reads n r p
    → AreBytes (contents p.1)
left-AreBytes n r (none, r') h x = subst AreBytes (sym x.is_empty) tt
left-AreBytes n r (some c, r') h x =
    AreBytes-append_right c (contents r') (subst AreBytes x.in_order h)

read_ignored-Yields : (n : ℕ) (r : Reader) → AreBytes (contents r) → Yields Some (read_ignored n r)
unfolding read_ignored read_some
read_ignored-Yields zero r h = (tt, h)
read_ignored-Yields (suc n) r h =
    (tt, left-AreBytes (suc n) r (read (suc n) r) h (read-Reads (suc n) r (omega arith)))

pub require-Yields :
    (b : Bool) (e : Bytes) (r : Reader) → AreBytes (contents r) → Yields Some (require b e r)
require-Yields true e r h = (tt, h)
require-Yields false e r h = tt

validate_version-Yields : (r : Reader) → AreBytes (contents r) → Yields Some (validate_version r)
unfolding validate_version
validate_version-Yields r h =
    Yields-then Byte Some (read_byte r)
      (λ v. require (v == socks5_version) (codes "invalid socks version")) (read_byte-Yields r h)
      (λ v r' x h'. require-Yields (v == socks5_version) (codes "invalid socks version") r' h')

abbrev after_version : Parse Bytes
after_version = do
  num_auth_methods ← read_byte
  read_ignored num_auth_methods
  pure (socks5_version ∷ socks5_auth_none ∷ [])

after_version-Yields : (r : Reader) → AreBytes (contents r) → Yields Some (after_version r)
after_version-Yields r h =
    Yields-then Byte Some (read_byte r)
      (λ n. read_ignored n >> pure (socks5_version ∷ socks5_auth_none ∷ [])) (read_byte-Yields r h)
      λ n r₁ x h₁.
        Yields-then Some Some (read_ignored n r₁)
          (λ u. pure (socks5_version ∷ socks5_auth_none ∷ [])) (read_ignored-Yields n r₁ h₁)
          (λ u r₂ y h₂. (tt, h₂))

pub greeting-Yields :
    (r : Reader) → AreBytes (contents r) → Yields Some (handle_client_greeting_package r)
unfolding handle_client_greeting_package
greeting-Yields r h =
    Yields-then Some Some (validate_version r) (λ u. after_version) (validate_version-Yields r h)
      (λ u. λ r₁ x h₁. after_version-Yields r₁ h₁)
