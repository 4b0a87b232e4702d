-- ===== src/Wire/Pieces.antt =====
-- `ReadOneFrameDataFromStream` over a raw stream or connection, where each call makes its own
-- `bufio.Reader` and drops it (internal/trans_network/network_helper.go): what the cutting of the data
-- into pieces changes.
use apron_gateway_p2p.Prelude.{
  ℕ, zero, suc, ◌+◌, ◌%◌, ◌^◌, ◌≤◌, ◌<◌, ◌≡◌, refl, ap, ◌∙◌, some, List, [], ◌∷◌, ◌++◌, map,
  append_assoc, Bytes, length, leb, arith, le→leb, length-append, take-length-append,
  drop-length-append, take-all, drop-all, lt→leb, Bool-cases, inl, inr,
}
use apron_gateway_p2p.Outcome.{Outcome, ok}
use apron_gateway_p2p.Wire.BigEndian.{put_uint64, length-put_uint64}
use apron_gateway_p2p.Wire.Bufio.{
  Reader, read, read_held, read_source, fill, bypass, read_loop, after_read, read_full, turns,
  default_buf_size,
}
use apron_gateway_p2p.Wire.RoundTrip.{frame, Fit, read_frame_body-allowed, be_value-length}
use apron_gateway_p2p.Wire.Frame.{
  IoReader, stream, write_bytes_via_stream, read_frame_head, read_frame_body, loop_turn,
  read_one_frame_data_from_stream, read_bytes_via_stream, Send, data_ch,
}

read_loop-done :
    (fuel : ℕ) (got : Bytes) (r : Reader) → 0 < fuel → read_loop fuel 0 got r ≡ (ok got, r)
unfolding read_loop
read_loop-done zero got r h = absurd (omega arith)
read_loop-done (suc fuel) got r h = refl

-- one `Read` that brings all that is needed
read_loop-once :
    (fuel need : ℕ) (c : Bytes) (r r' : Reader)
    → 0 < need
    → 1 < fuel
    → read need r ≡ (some c, r')
    → length c ≡ need
    → read_loop fuel need [] r ≡ (ok c, r')
unfolding read_loop after_read
read_loop-once zero need c r r' p f e l = absurd (omega arith)
read_loop-once (suc fuel) zero c r r' p f e l = absurd (omega arith)
read_loop-once (suc fuel) (suc need) c r r' p f e l =
    ap (after_read (read_loop fuel) (suc need) []) e
    ∙ ap (λ (n : ℕ). read_loop fuel n c r') (omega arith)
    ∙ read_loop-done fuel c r' (omega arith)

pub read_full-once :
    (n : ℕ) (c : Bytes) (r r' : Reader)
    → 0 < n
    → read n r ≡ (some c, r')
    → length c ≡ n
    → read_full n r ≡ (ok c, r')
unfolding read_full turns
read_full-once n c r r' p e l =
    read_loop-once (n + length r.source + 1) n c r r' p (omega arith) e l

-- from what the reader holds
pub read_full-held :
    (xs ys : Bytes) (cs : List Bytes)
    → read_full (length xs) (record { held = xs ++ ys; source = cs })
      ≡ (ok xs, record { held = ys; source = cs })
unfolding read read_held
read_full-held [] ys cs =
    unfold read_full turns in
    read_loop-done (0 + length cs + 1) [] (record { held = ys; source = cs }) (omega arith)
read_full-held (x ∷ xs) ys cs =
    read_full-once (length (x ∷ xs)) (x ∷ xs) (record { held = (x ∷ xs) ++ ys; source = cs })
      (record { held = ys; source = cs }) (omega arith)
      (λ i. (
        some (take-length-append (x ∷ xs) ys i),
        record { held = drop-length-append (x ∷ xs) ys i; source = cs },
      ))
      refl

-- one `Read` fills the empty buffer with a piece that fits into it
pub read_piece :
    (xs ys : Bytes) (cs : List Bytes)
    → length xs < default_buf_size
    → length (xs ++ ys) ≤ default_buf_size
    → read (length xs) (record { held = []; source = (xs ++ ys) ∷ cs })
      ≡ (some xs, record { held = ys; source = cs })
unfolding read read_held read_source fill
read_piece xs ys cs small fits = rw (lt→leb default_buf_size (length xs) small) (
    rw (le→leb (length (xs ++ ys)) default_buf_size fits) (λ i. (
      some (take-length-append xs ys i),
      record { held = drop-length-append xs ys i; source = cs },
    )))

read_full_piece :
    (xs ys : Bytes) (cs : List Bytes)
    → 0 < length xs
    → length xs < default_buf_size
    → length (xs ++ ys) ≤ default_buf_size
    → read_full (length xs) (record { held = []; source = (xs ++ ys) ∷ cs })
      ≡ (ok xs, record { held = ys; source = cs })
read_full_piece xs ys cs p small fits =
    read_full-once (length xs) xs (record { held = []; source = (xs ++ ys) ∷ cs })
      (record { held = ys; source = cs }) p (read_piece xs ys cs small fits) refl

-- a piece of any size, read whole
pub read_whole_piece :
    (xs : Bytes) (cs : List Bytes)
    → read (length xs) (record { held = []; source = xs ∷ cs })
      ≡ (some xs, record { held = []; source = cs })
unfolding read read_held read_source fill bypass
read_whole_piece xs cs = elim (Bool-cases (leb default_buf_size (length xs))) [
  | inl e ↦ rw e (rw (le→leb (length xs) (length xs) (omega arith)) refl)
  | inr e ↦ rw e (
      rw (le→leb (length xs) default_buf_size (ground arith)) (λ i. (
        some (take-all (length xs) xs (omega arith) i),
        record { held = drop-all (length xs) xs (omega arith) i; source = cs },
      )))
]

module _ (max_alloc : ℕ) where
  head_of_length :
      (d : Bytes) (r : Reader)
      → length d < 2 ^ 64
      → length d ≤ max_alloc
      → read_frame_head max_alloc (ok (put_uint64 (length d % 2 ^ 64)), r) ≡ read_full (length d) r
  unfolding read_frame_head
  head_of_length d r short fits =
      ap (λ (n : ℕ). read_frame_body max_alloc n r) (be_value-length d short)
      ∙ read_frame_body-allowed max_alloc (length d) r fits

  abbrev returned : Outcome Bytes × Reader → Outcome Bytes × IoReader
  returned (result, r) = (result, stream r.source)

  read_one_frame_stream :
      (d : Bytes) (cs : List Bytes) (r r' : Reader)
      → length d < 2 ^ 64
      → length d ≤ max_alloc
      → read_full 8 (record { held = []; source = cs }) ≡ (ok (put_uint64 (length d % 2 ^ 64)), r)
      → read_full (length d) r ≡ (ok d, r')
      → read_one_frame_data_from_stream max_alloc (stream cs) ≡ (ok d, stream r'.source)
  unfolding read_one_frame_data_from_stream
  read_one_frame_stream d cs r r' short fits header body =
      ap (λ (p : Outcome Bytes × Reader). returned (read_frame_head max_alloc p)) header
      ∙ ap returned (head_of_length d r short fits ∙ body)

  -- If one piece of at most the buffer's size holds a frame and more, and the frame's data can be
  -- allocated, the frame is read and what follows it in the piece is lost: the next read starts at
  -- the next piece.
  pub read_one_frame_drops :
      (d extra : Bytes) (cs : List Bytes)
      → length d ≤ max_alloc
      → length (frame d ++ extra) ≤ default_buf_size
      → read_one_frame_data_from_stream max_alloc (stream ((frame d ++ extra) ∷ cs))
        ≡ (ok d, stream cs)
  read_one_frame_drops d extra cs fits small =
      let header = put_uint64 (length d % 2 ^ 64) in
      let sizes : length (header ++ (d ++ extra)) ≤ default_buf_size =
        rw (append_assoc header d extra) at small in
      let eight : length header ≡ 8 = length-put_uint64 (length d % 2 ^ 64) in
      let total : length d ≤ default_buf_size =
        omega (arith, length-append header (d ++ extra), length-append d extra) in
      read_one_frame_stream d ((frame d ++ extra) ∷ cs) (record { held = d ++ extra; source = cs })
        (record { held = extra; source = cs }) (omega arith) fits
        (rw (append_assoc header d extra)
          (rw eight at (read_full_piece header (d ++ extra) cs (omega arith) (omega arith) sizes)))
        (read_full-held d extra cs)

  -- If each `Write` of the sender arrives as a piece of its own, a frame is read from its two
  -- pieces and the rest is left.
  pub read_one_frame_aligned :
      (d : Bytes) (cs : List Bytes)
      → 0 < length d
      → length d < 2 ^ 64
      → length d ≤ max_alloc
      → read_one_frame_data_from_stream max_alloc (stream (write_bytes_via_stream d ++ cs))
        ≡ (ok d, stream cs)
  unfolding write_bytes_via_stream
  read_one_frame_aligned d cs pos short fits =
      let header = put_uint64 (length d % 2 ^ 64) in
      let eight : length header ≡ 8 = length-put_uint64 (length d % 2 ^ 64) in
      read_one_frame_stream d (header ∷ d ∷ cs) (record { held = []; source = d ∷ cs })
        (record { held = []; source = cs }) short fits
        (rw eight at (
          read_full-once (length header) header (record { held = []; source = header ∷ d ∷ cs })
            (record { held = []; source = d ∷ cs }) (omega arith) (read_whole_piece header (d ∷ cs))
            refl))
        (read_full-once (length d) d (record { held = []; source = d ∷ cs })
          (record { held = []; source = cs }) pos (read_whole_piece d cs) refl)

  -- the pieces of several messages, one for each `Write`
  abbrev pub writes : List Bytes → List Bytes
  writes [] = []
  writes (d ∷ ds) = write_bytes_via_stream d ++ writes ds

  abbrev pub NonEmpty : List Bytes → Type 0
  NonEmpty [] = Unit
  NonEmpty (d ∷ ds) = (0 < length d) × NonEmpty ds

  writes-cons :
      (d : Bytes) (ds cs : List Bytes)
      → writes (d ∷ ds) ++ cs ≡ write_bytes_via_stream d ++ (writes ds ++ cs)
  unfolding write_bytes_via_stream
  writes-cons d ds cs = refl

  -- Over a raw stream that delivers each `Write` of the sender as a piece of its own every message
  -- arrives, in order and with no error between them, if none is empty and each is below 2^64 bytes
  -- and within what can be allocated.
  pub read_bytes-writes :
      (ds : List Bytes) (cs : List Bytes)
      → Fit max_alloc ds
      → NonEmpty ds
      → read_bytes_via_stream max_alloc (length ds) (stream (writes ds ++ cs)) ≡ map data_ch ds
  unfolding read_bytes_via_stream
  read_bytes-writes [] cs fit pos = refl
  read_bytes-writes (d ∷ ds) cs (short, fits, fit) (p, pos) = rw (writes-cons d ds cs) (
      ap (loop_turn (read_bytes_via_stream max_alloc (length ds)))
        (read_one_frame_aligned d (writes ds ++ cs) p short fits)
      ∙ ap (λ (t : List Send). data_ch d ∷ t) (read_bytes-writes ds cs fit pos))
