-- ===== src/Wire/RoundTrip.antt =====
-- What `WriteBytesViaStream` writes is read back by `ReadOneFrameDataFromStream` over a reader that
-- is kept between the frames (internal/trans_network/network_helper.go).
use apron_gateway_p2p.Prelude.{
  ℕ, ◌%◌, ◌^◌, ◌≤◌, ◌<◌, ◌≡◌, refl, ap, ◌∙◌, List, [], ◌∷◌, ◌++◌, map, append_assoc, append-nil,
  Bytes, length, concat, arith, le→ltb, length-append, take-length-append, drop-length-append,
}
use apron_gateway_p2p.Outcome.{Outcome, ok}
use apron_gateway_p2p.Wire.BigEndian.{put_uint64, be_value, length-put_uint64, be_value-put_uint64}
use apron_gateway_p2p.Wire.Bufio.{Reader, read_full, contents}
use apron_gateway_p2p.Wire.FullRead.{read_full-Completes}
use apron_gateway_p2p.Wire.Frame.{
  buffered, write_bytes_via_stream, read_frame_head, read_frame_body, new_reader, drop_reader,
  read_one_frame_data_from_stream, read_bytes_via_stream, loop_turn, Send, data_ch,
}

-- the bytes of one frame
abbrev pub frame : Bytes → Bytes
frame d = put_uint64 (length d % 2 ^ 64) ++ d

pub concat-write_bytes_via_stream : (d : Bytes) → concat (write_bytes_via_stream d) ≡ frame d
unfolding write_bytes_via_stream
concat-write_bytes_via_stream d =
    ap (λ (t : Bytes). put_uint64 (length d % 2 ^ 64) ++ t) (append-nil d)

-- the length on the wire is the length of the data
pub be_value-length :
    (d : Bytes) → length d < 2 ^ 64 → be_value 0 (put_uint64 (length d % 2 ^ 64)) ≡ length d
be_value-length d h = be_value-put_uint64 (length d % 2 ^ 64) (omega arith) ∙ omega arith

-- `ReadFull` at a reader whose contents begin with `xs`, for as many bytes
pub read_full_prefix :
    (xs ys : Bytes) (r : Reader)
    → contents r ≡ xs ++ ys
    → ((read_full (length xs) r).0 ≡ ok xs) × (contents (read_full (length xs) r).1 ≡ ys)
read_full_prefix xs ys r e =
    let enough : length xs ≤ length (contents r) =
      omega (arith, ap length e, length-append xs ys) in
    let (result, left) = read_full-Completes (length xs) r enough in
    (result ∙ ap ok (rw e (take-length-append xs ys)), left ∙ rw e (drop-length-append xs ys))

pub read_header :
    (n : ℕ) (t : Bytes) (r : Reader)
    → contents r ≡ put_uint64 n ++ t
    → ((read_full 8 r).0 ≡ ok (put_uint64 n)) × (contents (read_full 8 r).1 ≡ t)
read_header n t r e = rw length-put_uint64 at (read_full_prefix (put_uint64 n) t r e)

-- a pair by its parts
pub pair_eq {ℓ κ} : {A : Type ℓ} {B : Type κ} (p : A × B) {a : A} → p.0 ≡ a → p ≡ (a, p.1)
pair_eq p e = λ i. (e i, p.1)

module _ (max_alloc : ℕ) where
  -- the eight bytes of a length are read as that length
  pub read_frame_head-header :
      (n : ℕ) (t : Bytes) (r : Reader)
      → n < 2 ^ 64
      → contents r ≡ put_uint64 n ++ t
      → read_frame_head max_alloc (read_full 8 r) ≡ read_frame_body max_alloc n (read_full 8 r).1
  unfolding read_frame_head
  read_frame_head-header n t r small e =
      ap (read_frame_head max_alloc) (pair_eq (read_full 8 r) (read_header n t r e).0)
      ∙ ap (λ (m : ℕ). read_frame_body max_alloc m (read_full 8 r).1) (be_value-put_uint64 n small)

  pub read_frame_body-allowed :
      (n : ℕ) (r : Reader) → n ≤ max_alloc → read_frame_body max_alloc n r ≡ read_full n r
  unfolding read_frame_body
  read_frame_body-allowed n r h = rw (le→ltb max_alloc n h)

  module _ (d rest : Bytes) (r : Reader) (short : length d < 2 ^ 64) (fits : length d ≤ max_alloc)
      (e : contents r ≡ frame d ++ rest) where
    -- the length on the wire, with the data behind it
    header_first : contents r ≡ put_uint64 (length d) ++ (d ++ rest)
    header_first =
        e
        ∙ append_assoc (put_uint64 (length d % 2 ^ 64)) d rest
        ∙ ap (λ (n : ℕ). put_uint64 n ++ (d ++ rest)) (omega arith)

    after_header-contents : contents (read_full 8 r).1 ≡ d ++ rest
    after_header-contents = (read_header (length d) (d ++ rest) r header_first).1

    read_frame_head-eq :
        read_frame_head max_alloc (read_full 8 r) ≡ read_full (length d) (read_full 8 r).1
    read_frame_head-eq =
        read_frame_head-header (length d) (d ++ rest) r short header_first
        ∙ read_frame_body-allowed (length d) (read_full 8 r).1 fits

    -- Over a reader that is kept, one frame is read and what follows it is left, however the
    -- data is cut into pieces.
    pub read_one_frame_buffered :
        (r' : Reader) × (read_one_frame_data_from_stream max_alloc (buffered r)
          ≡ (ok d, buffered r'))
        × (contents r' ≡ rest)
    unfolding read_one_frame_data_from_stream new_reader drop_reader
    read_one_frame_buffered =
        let r₁ = (read_full 8 r).1 in
        let (result, left) = read_full_prefix d rest r₁ after_header-contents in
        (
          (read_full (length d) r₁).1,
          ap (λ (p : Outcome Bytes × Reader). (p.0, buffered p.1)) read_frame_head-eq
              ∙ ap (λ (p : Outcome Bytes × Reader). (p.0, buffered p.1))
                  (pair_eq (read_full (length d) r₁) result),
          left,
        )

  -- the frames of several messages
  abbrev pub frames : List Bytes → Bytes
  frames [] = []
  frames (d ∷ ds) = frame d ++ frames ds

  -- each message can be written and allocated
  abbrev pub Fit : List Bytes → Type 0
  Fit [] = Unit
  Fit (d ∷ ds) = (length d < 2 ^ 64) × (length d ≤ max_alloc) × Fit ds

  -- the frames, by their bytes
  read_bytes-frames :
      (ds : List Bytes) (rest : Bytes) (r : Reader)
      → Fit ds
      → contents r ≡ frames ds ++ rest
      → read_bytes_via_stream max_alloc (length ds) (buffered r) ≡ map data_ch ds
  unfolding read_bytes_via_stream
  read_bytes-frames [] rest r fit e = refl
  read_bytes-frames (d ∷ ds) rest r (short, fits, fit) e =
      let (r', one, left) =
        read_one_frame_buffered d (frames ds ++ rest) r short fits
          (e ∙ append_assoc (frame d) (frames ds) rest) in
      ap (loop_turn (read_bytes_via_stream max_alloc (length ds))) one
      ∙ ap (λ (t : List Send). data_ch d ∷ t) (read_bytes-frames ds rest r' fit left)

  -- all that the writes of several messages bring onto a stream
  abbrev pub written : List Bytes → Bytes
  written [] = []
  written (d ∷ ds) = concat (write_bytes_via_stream d) ++ written ds

  written-frames : (ds : List Bytes) → written ds ≡ frames ds
  written-frames [] = refl
  written-frames (d ∷ ds) =
      ap (λ (t : Bytes). t ++ written ds) (concat-write_bytes_via_stream d)
      ∙ ap (λ (t : Bytes). frame d ++ t) (written-frames ds)

  -- Over a reader that is kept between the frames and that has to give what `WriteBytesViaStream`
  -- writes of messages, each below 2^64 bytes and within what can be allocated,
  -- `ReadBytesViaStream` sends every message, in order and with no error between them, however the
  -- data is cut into pieces and whatever follows it.
  pub read_bytes-write_bytes :
      (ds : List Bytes) (rest : Bytes) (r : Reader)
      → Fit ds
      → contents r ≡ written ds ++ rest
      → read_bytes_via_stream max_alloc (length ds) (buffered r) ≡ map data_ch ds
  read_bytes-write_bytes ds rest r fit e =
      read_bytes-frames ds rest r fit (e ∙ ap (λ (t : Bytes). t ++ rest) (written-frames ds))
