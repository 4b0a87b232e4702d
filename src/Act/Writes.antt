-- ===== src/Act/Writes.antt =====
-- What holds of every frame that a handler writes to streams, however it ends (internal/trans_network).
use apron_gateway_p2p.Prelude.{
  ◌≡◌, refl, sym, List, [], ◌∷◌, ◌++◌, Bytes, All, All-append, drop, length, ◌%◌, ◌^◌,
}
use mathlib.Core.Path.{subst}
use apron_gateway_p2p.Outcome.{Outcome, ok, err, panic}
use apron_gateway_p2p.Wire.BigEndian.{put_uint64}
use apron_gateway_p2p.Wire.Frame.{write_bytes_via_stream}
use apron_gateway_p2p.Node.{Node, Conn}
use apron_gateway_p2p.Act.{
  Act, World, Exit, Effect, Stream, done, returned, blocked, panicked, wrote_conn, pure, and_then,
  ◌>>=◌, ◌>>◌, checked, stop, block, panic_with, emit, get_node, put_node, write_frame,
  write_frame_conn,
}
use apron_gateway_p2p.Act.Frames.{
  Frame, Adds, Adds-none, Adds-trans, Adds-frames_in, Plain, frame, other, frames_in,
}
use apron_gateway_p2p.Act.Ends.{Ends, Ended}

abbrev WritesTo : (Frame → Type 0) → World → World → Type 0
WritesTo P w w' = (fs : List Frame) × Adds w w' fs × All P fs

pub record Writes {A : Type 0} (P : Frame → Type 0) (m : Act A) : Type 0 where
  pub at : (w : World) → WritesTo P w (m w).1

module _ {P : Frame → Type 0} where
  nothing : (w w' : World) → w'.effects ≡ w.effects → WritesTo P w w'
  nothing w w' e = ([], Adds-none w w' e, tt)

  module _ {A B : Type 0} where
    and_then-Writes :
        (w : World) (r : Exit A × World) (f : A → Act B)
        → WritesTo P w r.1
        → ((a : A) → r.0 ≡ done a → Writes P (f a))
        → WritesTo P w (and_then r f).1
    and_then-Writes w (done a, v) f (fs, adds, h) k =
        let (gs, more, h') = (k a refl).at v in
        (fs ++ gs, Adds-trans w v (f a v).1 fs gs adds more, All-append P fs gs h h')
    and_then-Writes w (returned, v) f x k = x
    and_then-Writes w (blocked, v) f x k = x
    and_then-Writes w (panicked z, v) f x k = x

    pub Writes-bind :
        (m : Act A) (f : A → Act B) → Writes P m → ((a : A) → Writes P (f a)) → Writes P (m >>= f)
    Writes-bind m f x k = record { at = λ w. and_then-Writes w (m w) f (x.at w) (λ a e. k a) }

    -- behind a call whose result is known
    pub Writes-after :
        (o : Outcome A) (f : A → Act B)
        → ((a : A) → o ≡ ok a → Writes P (f a))
        → Writes P (checked o >>= f)
    Writes-after (ok a) f k = k a refl
    Writes-after (err e) f k = record { at = λ w. nothing w w refl }
    Writes-after (panic e) f k = record { at = λ w. nothing w w refl }

  pub Writes-then :
      {B : Type 0} (m : Act (Unit {0})) (k : Act B) → Writes P m → Writes P k → Writes P (m >> k)
  Writes-then m k x y = Writes-bind m (λ u. k) x (λ u. y)

  module _ {A : Type 0} where
    pub Writes-pure : (a : A) → Writes P (pure a)
    Writes-pure a = record { at = λ w. nothing w w refl }

    pub Writes-checked : (o : Outcome A) → Writes P (checked o)
    Writes-checked (ok a) = record { at = λ w. nothing w w refl }
    Writes-checked (err e) = record { at = λ w. nothing w w refl }
    Writes-checked (panic e) = record { at = λ w. nothing w w refl }

    pub Writes-stop : Writes P (stop {A = A})
    Writes-stop = record { at = λ w. nothing w w refl }

    pub Writes-block : Writes P (block {A = A})
    Writes-block = record { at = λ w. nothing w w refl }

    pub Writes-panic : (e : Bytes) → Writes P (panic_with {A = A} e)
    Writes-panic e = record { at = λ w. nothing w w refl }

    -- what is known of a handler by its end
    by_exit :
        (Q : A → List Frame → Type 0) (w : World) (r : Exit A × World)
        → Ended Q w r
        → ((a : A) (fs : List Frame) → Q a fs → All P fs)
        → WritesTo P w r.1
    by_exit Q w (done a, v) (fs, adds, q) k = (fs, adds, k a fs q)
    by_exit Q w (returned, v) (fs, adds, e) k = (fs, adds, subst (All P) (sym e) tt)
    by_exit Q w (blocked, v) (fs, adds, e) k = (fs, adds, subst (All P) (sym e) tt)
    by_exit Q w (panicked z, v) (fs, adds, e) k = (fs, adds, subst (All P) (sym e) tt)

    pub Ends-Writes :
        (Q : A → List Frame → Type 0) (m : Act A)
        → Ends Q m
        → ((a : A) (fs : List Frame) → Q a fs → All P fs)
        → Writes P m
    Ends-Writes Q m e k = record { at = λ w. by_exit Q w (m w) (e.at w) k }

  pub Writes-get_node : Writes P get_node
  Writes-get_node = record { at = λ w. nothing w w refl }

  pub Writes-put_node : (n : Node) → Writes P (put_node n)
  Writes-put_node n = record { at = λ w. nothing w (record w { node = n }) refl }

  pub Writes-emit : (e : Effect) → Plain e → Writes P (emit e)
  Writes-emit e h = record {
    at = λ w. (
      [],
      record { items = other e ∷ []; is_proper = (h, tt); grows = refl; has_frames = refl },
      tt,
    );
  }

  pub Writes-write_frame :
      (s : Stream) (bytes : Bytes) → P (s, bytes) → Writes P (write_frame s bytes)
  unfolding write_bytes_via_stream
  Writes-write_frame s bytes h = record {
    at = λ w. (
      (s, bytes) ∷ [],
      record { items = frame s bytes ∷ []; is_proper = tt; grows = refl; has_frames = refl },
      (h, tt),
    );
  }

  pub Writes-write_frame_conn : (c : Conn) (bytes : Bytes) → Writes P (write_frame_conn c bytes)
  unfolding write_bytes_via_stream
  Writes-write_frame_conn c bytes = record {
    at = λ w. (
      [],
      record {
        items =
            other (wrote_conn c (put_uint64 (length bytes % 2 ^ 64)))
            ∷ other (wrote_conn c bytes)
            ∷ [];
        is_proper = (tt, (tt, tt));
        grows = refl;
        has_frames = refl;
      },
      tt,
    );
  }

  -- the frames as they stand among the effects
  pub Writes-frames_in :
      {A : Type 0} (m : Act A) (w : World)
      → Writes P m
      → All P (frames_in (drop (length w.effects) (m w).1.effects))
  Writes-frames_in m w x =
      let (fs, adds, h) = x.at w in subst (All P) (sym (Adds-frames_in w (m w).1 fs adds)) h
