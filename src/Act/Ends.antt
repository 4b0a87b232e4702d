-- ===== src/Act/Ends.antt =====
-- What a handler has written to streams when it ends (internal/trans_network): for one that is done, by its
-- result; one that ends in any other way has written no frame.
use apron_gateway_p2p.Prelude.{◌≡◌, refl, sym, List, [], ◌∷◌, ◌++◌, Bytes, drop, length}
use mathlib.Core.Path.{subst}
use apron_gateway_p2p.Outcome.{Outcome, ok, err, panic}
use apron_gateway_p2p.Wire.Frame.{write_bytes_via_stream}
use apron_gateway_p2p.Node.{Node}
use apron_gateway_p2p.Act.{
  Act, World, Exit, Effect, Stream, done, returned, blocked, panicked, pure, and_then, ◌>>=◌, ◌>>◌,
  checked, stop, panic_with, emit, get_node, put_node, write_frame,
}
use apron_gateway_p2p.Act.Frames.{
  Frame, Adds, Adds-none, Adds-frames_in, frames_in, Adds-trans, Plain, frame, other,
}

abbrev pub ExitOf : {A : Type 0} → (A → List Frame → Type 0) → Exit A → List Frame → Type 0
ExitOf Q (done a) fs = Q a fs
ExitOf Q returned fs = fs ≡ []
ExitOf Q blocked fs = fs ≡ []
ExitOf Q (panicked e) fs = fs ≡ []

abbrev pub Ended : {A : Type 0} → (A → List Frame → Type 0) → World → Exit A × World → Type 0
Ended Q w (x, w') = (fs : List Frame) × Adds w w' fs × ExitOf Q x fs

pub record Ends {A : Type 0} (Q : A → List Frame → Type 0) (m : Act A) : Type 0 where
  pub at : (w : World) → Ended Q w (m w)

-- no frame is written, whichever way it ends
abbrev pub Quiet : {A : Type 0} → (A → Type 0) → Act A → Type 0
Quiet R m = Ends (λ a fs. (fs ≡ []) × R a) m

abbrev pub Any : {A : Type 0} → A → Type 0
Any a = Unit

module _ {A B : Type 0} (R : A → Type 0) (Q : B → List Frame → Type 0) where
  after_quiet :
      (w v : World) (fs gs : List Frame) (x : Exit B) (u : World)
      → Adds w v fs
      → fs ≡ []
      → Adds v u gs
      → ExitOf Q x gs
      → Ended Q w (x, u)
  after_quiet w v fs gs x u a e b q =
      (gs, subst (λ (hs : List Frame). Adds w u (hs ++ gs)) e (Adds-trans w v u fs gs a b), q)

  then-Ended :
      (w : World) (r : Exit A × World) (f : A → Act B)
      → Ended (λ a fs. (fs ≡ []) × R a) w r
      → ((a : A) → R a → Ends Q (f a))
      → Ended Q w (and_then r f)
  then-Ended w (done a, v) f (fs, adds, (e, h)) k =
      let (gs, more, q) = (k a h).at v in after_quiet w v fs gs (f a v).0 (f a v).1 adds e more q
  then-Ended w (returned, v) f x k = x
  then-Ended w (blocked, v) f x k = x
  then-Ended w (panicked z, v) f x k = x

  pub Ends-then :
      (m : Act A) (f : A → Act B) → Quiet R m → ((a : A) → R a → Ends Q (f a)) → Ends Q (m >>= f)
  Ends-then m f q k = record { at = λ w. then-Ended w (m w) f (q.at w) k }

module _ {A B : Type 0} (Q : A → List Frame → Type 0) (S : B → List Frame → Type 0) where
  pure-Ended :
      (w : World) (r : Exit A × World) (g : A → B)
      → Ended Q w r
      → ((a : A) (fs : List Frame) → Q a fs → S (g a) fs)
      → Ended S w (and_then r (λ a. pure (g a)))
  pure-Ended w (done a, v) g (fs, adds, q) k = (fs, adds, k a fs q)
  pure-Ended w (returned, v) g x k = x
  pure-Ended w (blocked, v) g x k = x
  pure-Ended w (panicked z, v) g x k = x

  pub Ends-map :
      (m : Act A) (g : A → B)
      → Ends Q m
      → ((a : A) (fs : List Frame) → Q a fs → S (g a) fs)
      → Ends S (m >>= λ a. pure (g a))
  Ends-map m g e k = record { at = λ w. pure-Ended w (m w) g (e.at w) k }

exit_weaken :
    {A : Type 0} (Q S : A → List Frame → Type 0) (w : World) (r : Exit A × World)
    → Ended Q w r
    → ((a : A) (fs : List Frame) → Q a fs → S a fs)
    → Ended S w r
exit_weaken Q S w (done a, v) (fs, adds, q) k = (fs, adds, k a fs q)
exit_weaken Q S w (returned, v) x k = x
exit_weaken Q S w (blocked, v) x k = x
exit_weaken Q S w (panicked z, v) x k = x

pub Ends-weaken :
    {A : Type 0} (Q S : A → List Frame → Type 0) (m : Act A)
    → Ends Q m
    → ((a : A) (fs : List Frame) → Q a fs → S a fs)
    → Ends S m
Ends-weaken Q S m e k = record { at = λ w. exit_weaken Q S w (m w) (e.at w) k }

module _ {A : Type 0} where
  pub Quiet-pure : (a : A) → Quiet (λ b. a ≡ b) (pure a)
  Quiet-pure a = record { at = λ w. ([], Adds-none w w refl, (refl, refl)) }

  pub Ends-pure : (Q : A → List Frame → Type 0) (a : A) → Q a [] → Ends Q (pure a)
  Ends-pure Q a q = record { at = λ w. ([], Adds-none w w refl, q) }

  pub Quiet-checked : (o : Outcome A) → Quiet (λ a. o ≡ ok a) (checked o)
  Quiet-checked (ok a) = record { at = λ w. ([], Adds-none w w refl, (refl, refl)) }
  Quiet-checked (err e) = record { at = λ w. ([], Adds-none w w refl, refl) }
  Quiet-checked (panic e) = record { at = λ w. ([], Adds-none w w refl, refl) }

  pub Ends-stop : (Q : A → List Frame → Type 0) → Ends Q (stop {A = A})
  Ends-stop Q = record { at = λ w. ([], Adds-none w w refl, refl) }

  pub Ends-panic : (Q : A → List Frame → Type 0) (e : Bytes) → Ends Q (panic_with {A = A} e)
  Ends-panic Q e = record { at = λ w. ([], Adds-none w w refl, refl) }

pub Quiet-get_node : Quiet Any get_node
Quiet-get_node = record { at = λ w. ([], Adds-none w w refl, (refl, tt)) }

pub Quiet-put_node : (n : Node) → Quiet Any (put_node n)
Quiet-put_node n = record { at = λ w. ([], Adds-none w (record w { node = n }) refl, (refl, tt)) }

pub Quiet-emit : (e : Effect) → Plain e → Quiet Any (emit e)
Quiet-emit e h = record {
  at = λ w. (
    [],
    record { items = other e ∷ []; is_proper = (h, tt); grows = refl; has_frames = refl },
    (refl, tt),
  );
}

pub Ends-write_frame :
    (s : Stream) (bytes : Bytes) → Ends (λ u fs. fs ≡ (s, bytes) ∷ []) (write_frame s bytes)
unfolding write_bytes_via_stream
Ends-write_frame s bytes = record {
  at = λ w. (
    (s, bytes) ∷ [],
    record { items = frame s bytes ∷ []; is_proper = tt; grows = refl; has_frames = refl },
    refl,
  );
}

pub Ends-after :
    {B : Type 0} (Q : B → List Frame → Type 0) (m : Act (Unit {0})) (k : Act B)
    → Quiet Any m
    → Ends Q k
    → Ends Q (m >> k)
Ends-after Q m k q e = Ends-then Any Q m (λ u. k) q (λ u h. e)

-- what is known of the result may be forgotten
pub Quiet-Any : {A : Type 0} (R : A → Type 0) (m : Act A) → Quiet R m → Quiet Any m
Quiet-Any R m q = Ends-weaken _ _ m q (λ a fs (e, h). (e, tt))

pub Ends-update :
    {B : Type 0} (Q : B → List Frame → Type 0) (g : Node → Node) (k : Act B)
    → Ends Q k
    → Ends Q (get_node >>= λ n. put_node (g n) >> k)
Ends-update Q g k e =
    Ends-then Any Q get_node (λ n. put_node (g n) >> k) Quiet-get_node
      (λ n h. Ends-after Q (put_node (g n)) k (Quiet-put_node (g n)) e)

-- the frames as they stand among the effects
pub Ended-frames_in :
    {A : Type 0} (Q : A → List Frame → Type 0) (w : World) (r : Exit A × World)
    → Ended Q w r
    → ExitOf Q r.0 (frames_in (drop (length w.effects) r.1.effects))
Ended-frames_in Q w (x, w') (fs, adds, q) = subst (ExitOf Q x) (sym (Adds-frames_in w w' fs adds)) q
