-- ===== src/Act/Frames.antt =====
-- The frames that a handler writes to streams (internal/trans_network), by how it ends.
use apron_gateway_p2p.Prelude.{
  ◌≡◌, refl, sym, ap, ◌∙◌, List, [], ◌∷◌, ◌++◌, append-nil, append_assoc, Bytes, length, map, drop,
  drop-length-append,
}
use apron_gateway_p2p.Wire.Frame.{write_bytes_via_stream}
use apron_gateway_p2p.Act.{
  World, Effect, Stream, opened, wrote, wrote_conn, sent_ws, sent_chan, replied, wrote_reply,
  dialed, requested, closed,
}

abbrev pub Frame : Type 0
Frame = Stream × Bytes

-- The data of the frames among effects: of two writes to streams in succession the first is the length.
unfoldable pub frames_in : List Effect → List Frame
frames_in [] = []
frames_in (wrote t h ∷ wrote t' b ∷ es) = let rest = frames_in es in (t', b) ∷ rest
frames_in (e ∷ es) = frames_in es

-- what a handler does outside, by whole frames
pub data Item : Type 0 where
  frame : Stream → Bytes → Item
  other : Effect → Item

abbrev pub Plain : Effect → Type 0
Plain (wrote t bytes) = ⊥
Plain e = Unit

abbrev pub Proper : List Item → Type 0
Proper [] = Unit
Proper (frame t b ∷ is) = Proper is
Proper (other e ∷ is) = Plain e × Proper is

abbrev pub effects_of : List Item → List Effect
effects_of [] = []
effects_of (frame t b ∷ is) = map (wrote t) (write_bytes_via_stream b) ++ effects_of is
effects_of (other e ∷ is) = e ∷ effects_of is

abbrev pub frames_of : List Item → List Frame
frames_of [] = []
frames_of (frame t b ∷ is) = (t, b) ∷ frames_of is
frames_of (other e ∷ is) = frames_of is

effects_of-append : (is js : List Item) → effects_of (is ++ js) ≡ effects_of is ++ effects_of js
effects_of-append [] js = refl
effects_of-append (frame t b ∷ is) js =
    rw (effects_of-append is js) (
      sym (append_assoc (map (wrote t) (write_bytes_via_stream b)) (effects_of is) (effects_of js)))
effects_of-append (other e ∷ is) js = ap (λ (es : List Effect). e ∷ es) (effects_of-append is js)

frames_of-append : (is js : List Item) → frames_of (is ++ js) ≡ frames_of is ++ frames_of js
frames_of-append [] js = refl
frames_of-append (frame t b ∷ is) js =
    ap (λ (fs : List Frame). (t, b) ∷ fs) (frames_of-append is js)
frames_of-append (other e ∷ is) js = frames_of-append is js

Proper-append : (is js : List Item) → Proper is → Proper js → Proper (is ++ js)
Proper-append [] js p q = q
Proper-append (frame t b ∷ is) js p q = Proper-append is js p q
Proper-append (other e ∷ is) js (h, p) q = (h, Proper-append is js p q)

-- an effect that is no write to a stream is passed over
frames_in-Plain : (e : Effect) (es : List Effect) → Plain e → frames_in (e ∷ es) ≡ frames_in es
unfolding frames_in
frames_in-Plain (opened t) es h = refl
frames_in-Plain (wrote t b) es h = absurd h
frames_in-Plain (wrote_conn c b) es h = refl
frames_in-Plain (sent_ws c k b) es h = refl
frames_in-Plain (sent_chan a b) es h = refl
frames_in-Plain (replied n b) es h = refl
frames_in-Plain (wrote_reply b) es h = refl
frames_in-Plain (dialed u c) es h = refl
frames_in-Plain (requested u) es h = refl
frames_in-Plain (closed c) es h = refl

pub frames_in-effects_of : (is : List Item) → Proper is → frames_in (effects_of is) ≡ frames_of is
unfolding frames_in write_bytes_via_stream
frames_in-effects_of [] p = unfold frames_in in refl
frames_in-effects_of (frame t b ∷ is) p =
    ap (λ (fs : List Frame). (t, b) ∷ fs) (frames_in-effects_of is p)
frames_in-effects_of (other e ∷ is) (h, p) =
    frames_in-Plain e (effects_of is) h ∙ frames_in-effects_of is p

-- `w'` has the effects of `w`, and behind them those with the given frames.
pub record Adds (w w' : World) (fs : List Frame) : Type 0 where
  pub items : List Item
  pub is_proper : Proper items
  pub grows : w'.effects ≡ w.effects ++ effects_of items
  pub has_frames : frames_of items ≡ fs

-- what is added, read back
pub Adds-frames_in :
    (w w' : World) (fs : List Frame)
    → Adds w w' fs
    → frames_in (drop (length w.effects) w'.effects) ≡ fs
Adds-frames_in w w' fs a =
    ap (λ (es : List Effect). frames_in (drop (length w.effects) es)) a.grows
    ∙ ap frames_in (drop-length-append w.effects (effects_of a.items))
    ∙ frames_in-effects_of a.items a.is_proper
    ∙ a.has_frames

pub Adds-none : (w w' : World) → w'.effects ≡ w.effects → Adds w w' []
Adds-none w w' e = record {
  items = [];
  is_proper = tt;
  grows = e ∙ sym (append-nil w.effects);
  has_frames = refl;
}

pub Adds-trans :
    (u v w : World) (fs gs : List Frame) → Adds u v fs → Adds v w gs → Adds u w (fs ++ gs)
Adds-trans u v w fs gs a b = record {
  items = a.items ++ b.items;
  is_proper = Proper-append a.items b.items a.is_proper b.is_proper;
  grows =
      b.grows
      ∙ ap (λ (es : List Effect). es ++ effects_of b.items) a.grows
      ∙ append_assoc u.effects (effects_of a.items) (effects_of b.items)
      ∙ ap (λ (es : List Effect). u.effects ++ es) (sym (effects_of-append a.items b.items));
  has_frames =
      frames_of-append a.items b.items
      ∙ ap (λ (hs : List Frame). hs ++ frames_of b.items) a.has_frames
      ∙ ap (λ (hs : List Frame). fs ++ hs) b.has_frames;
}
