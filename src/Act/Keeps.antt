-- ===== src/Act/Keeps.antt =====
-- Predicates on the world that a handler keeps, however it ends.
use apron_gateway_p2p.Prelude.{Bytes}
use apron_gateway_p2p.Outcome.{Outcome, ok, err, panic}
use apron_gateway_p2p.Node.{Node}
use apron_gateway_p2p.Act.{
  Act, World, Exit, Effect, Stream, done, returned, blocked, panicked, pure, and_then, ◌>>=◌, stop,
  checked, get_node, emit, write_frame,
}

pub record Keeps {ℓ κ} {A : Type ℓ} (Q : Node → Type κ) (m : Act A) : Type (ℓ ⊔ κ) where
  pub at : (w : World) → Q w.node → Q (m w).1.node

module _ {ℓ κ ι} {A : Type ℓ} {B : Type κ} {Q : Node → Type ι} where
  and_then-keeps :
      (r : Exit A × World) (f : A → Act B)
      → Q r.1.node
      → ((a : A) → Keeps Q (f a))
      → Q (and_then r f).1.node
  and_then-keeps (done a, w) f h k = (k a).at w h
  and_then-keeps (returned, w) f h k = h
  and_then-keeps (blocked, w) f h k = h
  and_then-keeps (panicked e, w) f h k = h

  pub Keeps-bind :
      (m : Act A) (f : A → Act B) → Keeps Q m → ((a : A) → Keeps Q (f a)) → Keeps Q (m >>= f)
  Keeps-bind m f k l = record { at = λ w h. and_then-keeps (m w) f (k.at w h) l }

module _ {ℓ ι} {A : Type ℓ} {Q : Node → Type ι} where
  pub Keeps-pure : (a : A) → Keeps Q (pure a)
  Keeps-pure a = record { at = λ w h. h }

  pub Keeps-checked : (o : Outcome A) → Keeps Q (checked o)
  Keeps-checked (ok a) = record { at = λ w h. h }
  Keeps-checked (err e) = record { at = λ w h. h }
  Keeps-checked (panic e) = record { at = λ w h. h }

  pub Keeps-stop : Keeps Q (stop {A = A})
  Keeps-stop = record { at = λ w h. h }

module _ {ι} {Q : Node → Type ι} where
  pub Keeps-get_node : Keeps Q get_node
  Keeps-get_node = record { at = λ w h. h }

  pub Keeps-emit : (e : Effect) → Keeps Q (emit e)
  Keeps-emit e = record { at = λ w h. h }

  pub Keeps-write_frame : (s : Stream) (bytes : Bytes) → Keeps Q (write_frame s bytes)
  Keeps-write_frame s bytes = record { at = λ w h. h }

pub ruleset keeps_rules = (
  Keeps-bind, Keeps-pure, Keeps-checked, Keeps-stop, Keeps-get_node, Keeps-emit, Keeps-write_frame,
)
