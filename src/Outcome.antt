-- ===== src/Outcome.antt =====
-- What a Go call may come back with: a value, an `error` (by its text, which is what the code
-- compares), or a panic, which no handler of the gateway recovers from.
-- `CheckError` of internal/utils.go turns an error into a panic.
use apron_gateway_p2p.Prelude.{◌≡◌, Bytes}

pub data Outcome {ℓ} (A : Type ℓ) : Type ℓ where
  ok : A → Outcome A
  err : Bytes → Outcome A
  panic : Bytes → Outcome A

infixl 5 ◌>>=◌
abbrev pub ◌>>=◌ {ℓ κ} : {A : Type ℓ} {B : Type κ} → Outcome A → (A → Outcome B) → Outcome B
ok a >>= f = f a
err e >>= f = err e
panic e >>= f = panic e

-- `v, err := call(); internal.CheckError(err)`
abbrev pub check_error {ℓ} : {A : Type ℓ} → Outcome A → Outcome A
check_error (ok a) = ok a
check_error (err e) = panic e
check_error (panic e) = panic e

pub ok-injective {ℓ} : {A : Type ℓ} {a b : A} → ok a ≡ ok b → a ≡ b
ok-injective e = cc
