-- ===== src/Wire/FullRead.antt =====
-- `io.ReadFull` over a `bufio.Reader`: what it returns does not depend on how the data is cut into
-- pieces.
use apron_gateway_p2p.Prelude.{
  ℕ, zero, suc, ◌+◌, ◌-◌, ◌≤◌, ◌<◌, ◌≡◌, refl, sym, ap, ◌∙◌, inl, inr, Option, none, some, List, [],
  ◌∷◌, ◌++◌, append_assoc, append-nil, Bytes, length, take, drop, concat, leb, arith, Bool-cases,
  length-append, length-take, take-append-drop, take-append_ge, drop-append_ge,
}
use apron_gateway_p2p.Outcome.{Outcome, ok}
use apron_gateway_p2p.Wire.Bufio.{
  Reader, read, read_source, read_held, fill, bypass, read_loop, read_full, contents, turns,
  eof_after, after_read, default_buf_size,
}

-- `read` handed out `c` of at most `n` bytes and left the rest in order, and took a byte or a piece
-- off the way to the end.
pub record Handed (n : ℕ) (r : Reader) (c : Bytes) (r' : Reader) : Type 0 where
  pub fits : length c ≤ n
  pub in_order : contents r ≡ c ++ contents r'
  pub closer : length r'.source + 1 ≤ length c + length r.source

-- `read` found the end
pub record Ended (r : Reader) (r' : Reader) : Type 0 where
  pub was_empty : contents r ≡ []
  pub is_empty : contents r' ≡ []

abbrev pub Reads : ℕ → Reader → Option Bytes × Reader → Type 0
Reads n r (none, r') = Ended r r'
Reads n r (some c, r') = Handed n r c r'

take-append-drop_tail : (n : ℕ) (xs ys : Bytes) → xs ++ ys ≡ take n xs ++ (drop n xs ++ ys)
take-append-drop_tail n xs ys =
    ap (λ (t : Bytes). t ++ ys) (sym (take-append-drop n xs))
    ∙ append_assoc (take n xs) (drop n xs) ys

-- one `Read` of a source that has a piece left
record Piece (n : ℕ) (cs : List Bytes) (p : Bytes) (cs' : List Bytes) : Type 0 where
  pub small : length p ≤ n
  pub joins : concat cs ≡ p ++ concat cs'
  pub shorter : length cs' + 1 ≤ length p + length cs
  pub not_longer : length cs' ≤ length cs

abbrev Pieces : ℕ → List Bytes → Option Bytes × List Bytes → Type 0
Pieces n cs (none, cs') = (cs ≡ []) × (cs' ≡ [])
Pieces n cs (some p, cs') = Piece n cs p cs'

read_source-Pieces : (n : ℕ) (cs : List Bytes) → 0 < n → Pieces n cs (read_source n cs)
unfolding read_source
read_source-Pieces n [] h = (refl, refl)
read_source-Pieces n (c ∷ cs) h = elim (Bool-cases (leb (length c) n)) [
  | inl e ↦ rw e (record {
    small = ground arith;
    joins = refl;
    shorter = omega arith;
    not_longer = omega arith;
  })
  | inr e ↦ rw e (record {
    small = omega (arith, length-take n c);
    joins = take-append-drop_tail n c (concat cs);
    shorter = ground (arith, length-take n c);
    not_longer = omega arith;
  })
]

fill-Reads :
    (n m : ℕ) (cs : List Bytes) (p : Option Bytes × List Bytes)
    → 0 < n
    → Pieces m cs p
    → Reads n (record { held = []; source = cs }) (fill n p)
unfolding fill
fill-Reads n m cs (none, cs') h (e, e') = record { was_empty = rw e refl; is_empty = rw e' refl }
fill-Reads n m cs (some p, cs') h x = record {
  fits = omega (arith, length-take n p);
  in_order = x.joins ∙ take-append-drop_tail n p (concat cs');
  closer = omega (arith, length-take n p, x.shorter, x.not_longer);
}

bypass-Reads :
    (n : ℕ) (cs : List Bytes) (p : Option Bytes × List Bytes)
    → Pieces n cs p
    → Reads n (record { held = []; source = cs }) (bypass p)
unfolding bypass
bypass-Reads n cs (none, cs') (e, e') = record { was_empty = rw e refl; is_empty = rw e' refl }
bypass-Reads n cs (some p, cs') x = record {
  fits = x.small;
  in_order = x.joins;
  closer = x.shorter;
}

read_held-Reads :
    (n : ℕ) (held : Bytes) (cs : List Bytes)
    → 0 < n
    → Reads n (record { held = held; source = cs }) (read_held n held cs)
unfolding read_held
read_held-Reads n [] cs h = elim (Bool-cases (leb default_buf_size n)) [
  | inl e ↦ rw e (bypass-Reads n cs (read_source n cs) (read_source-Pieces n cs h))
  | inr e ↦ rw e (
      fill-Reads n default_buf_size cs (read_source default_buf_size cs) h
        (read_source-Pieces default_buf_size cs (omega arith)))
]
read_held-Reads n (b ∷ bs) cs h = record {
  fits = omega (arith, length-take n (b ∷ bs));
  in_order = take-append-drop_tail n (b ∷ bs) (concat cs);
  closer = omega (arith, length-take n (b ∷ bs));
}

pub read-Reads : (n : ℕ) (r : Reader) → 0 < n → Reads n r (read n r)
unfolding read
read-Reads n r h = read_held-Reads n r.held r.source h

-- With `need` bytes at hand the loop returns what it had and those, and leaves what follows.
abbrev Completes : ℕ → Bytes → Reader → Outcome Bytes × Reader → Type 0
Completes need got r (result, r') =
    (result ≡ ok (got ++ take need (contents r))) × (contents r' ≡ drop need (contents r))

-- Short of `need` bytes it reads all there is and returns the error of a source that ended.
abbrev FallsShort : Bytes → Reader → Outcome Bytes × Reader → Type 0
FallsShort got r (result, r') = (result ≡ eof_after (got ++ contents r)) × (contents r' ≡ [])

abbrev Fuelled : ℕ → ℕ → Reader → Type 0
Fuelled fuel need r = need + length r.source < fuel

length-contents :
    {n : ℕ} {r : Reader} (c : Bytes) {r' : Reader}
    → Handed n r c r'
    → length (contents r) ≡ length c + length (contents r')
length-contents c {r'} x = ap length x.in_order ∙ length-append c (contents r')

module _ (fuel need : ℕ) (got : Bytes) (r : Reader) (c : Bytes) (r' : Reader)
    (fuelled : Fuelled (suc fuel) need r) (x : Handed need r c r') where
  next-Fuelled : Fuelled fuel (need - length c) r'
  next-Fuelled = omega (arith, x.closer, x.fits)

  handed-Completes :
      (next : Outcome Bytes × Reader)
      → Completes (need - length c) (got ++ c) r' next
      → Completes need got r next
  handed-Completes next (result, left) = rw x.in_order (
    result
        ∙ ap ok (
            append_assoc got c (take (need - length c) (contents r'))
            ∙ ap (λ (t : Bytes). got ++ t) (sym (take-append_ge need c (contents r') x.fits))),
    left ∙ sym (drop-append_ge need c (contents r') x.fits),
  )

  handed-FallsShort :
      (next : Outcome Bytes × Reader) → FallsShort (got ++ c) r' next → FallsShort got r next
  handed-FallsShort next (result, left) = (
    result
        ∙ ap (eof_after {A = Bytes})
            (append_assoc got c (contents r') ∙ ap (λ (t : Bytes). got ++ t) (sym x.in_order)),
    left,
  )

module _ (fuel need : ℕ) (got : Bytes) (r : Reader) (fuelled : Fuelled (suc fuel) need r)
    (loop : ℕ → Bytes → Reader → Outcome Bytes × Reader) where
  after_read-Completes :
      ((m : ℕ) (g : Bytes) (r' : Reader)
        → Fuelled fuel m r'
        → m ≤ length (contents r')
        → Completes m g r' (loop m g r'))
      → 0 < need
      → need ≤ length (contents r)
      → (p : Option Bytes × Reader) → Reads need r p
      → Completes need got r (after_read loop need got p)
  unfolding after_read
  after_read-Completes ih pos h (none, r') x = absurd (omega (arith, ap length x.was_empty))
  after_read-Completes ih pos h (some c, r') x =
      handed-Completes fuel need got r c r' fuelled x (loop (need - length c) (got ++ c) r') (
        ih (need - length c) (got ++ c) r' (next-Fuelled fuel need got r c r' fuelled x)
          (omega (arith, length-contents c x)))

  after_read-FallsShort :
      ((m : ℕ) (g : Bytes) (r' : Reader)
        → Fuelled fuel m r'
        → length (contents r') < m
        → FallsShort g r' (loop m g r'))
      → length (contents r) < need
      → (p : Option Bytes × Reader) → Reads need r p
      → FallsShort got r (after_read loop need got p)
  unfolding after_read
  after_read-FallsShort ih h (none, r') x =
      (rw x.was_empty (ap eof_after (sym (append-nil got))), x.is_empty)
  after_read-FallsShort ih h (some c, r') x =
      handed-FallsShort fuel need got r c r' fuelled x (loop (need - length c) (got ++ c) r') (
        ih (need - length c) (got ++ c) r' (next-Fuelled fuel need got r c r' fuelled x)
          (omega (arith, length-contents c x, x.fits)))

read_loop-Completes :
    (fuel need : ℕ) (got : Bytes) (r : Reader)
    → Fuelled fuel need r
    → need ≤ length (contents r)
    → Completes need got r (read_loop fuel need got r)
unfolding read_loop
read_loop-Completes zero need got r f h = absurd (omega arith)
read_loop-Completes (suc fuel) zero got r f h = (ap ok (sym (append-nil got)), refl)
read_loop-Completes (suc fuel) (suc need) got r f h =
    after_read-Completes fuel (suc need) got r f (read_loop fuel) (read_loop-Completes fuel)
      (omega arith) h (read (suc need) r) (read-Reads (suc need) r (omega arith))

read_loop-FallsShort :
    (fuel need : ℕ) (got : Bytes) (r : Reader)
    → Fuelled fuel need r
    → length (contents r) < need
    → FallsShort got r (read_loop fuel need got r)
unfolding read_loop
read_loop-FallsShort zero need got r f h = absurd (omega arith)
read_loop-FallsShort (suc fuel) zero got r f h = absurd (omega arith)
read_loop-FallsShort (suc fuel) (suc need) got r f h =
    after_read-FallsShort fuel (suc need) got r f (read_loop fuel) (read_loop-FallsShort fuel) h
      (read (suc need) r) (read-Reads (suc need) r (omega arith))

-- `io.ReadFull` for no more than there is returns exactly the next `n` bytes and leaves the rest,
-- however the data is cut into pieces.
pub read_full-Completes :
    (n : ℕ) (r : Reader) → n ≤ length (contents r) → Completes n [] r (read_full n r)
unfolding read_full
read_full-Completes n r h = read_loop-Completes (turns n r) n [] r (unfold turns in omega arith) h

-- For more than there is it reads all and returns EOF if there was nothing, else an unexpected EOF.
pub read_full-FallsShort :
    (n : ℕ) (r : Reader) → length (contents r) < n → FallsShort [] r (read_full n r)
unfolding read_full
read_full-FallsShort n r h = read_loop-FallsShort (turns n r) n [] r (unfold turns in omega arith) h
