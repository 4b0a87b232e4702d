-- ===== src/Wire/Errors.antt =====
-- What `ReadOneFrameDataFromStream` returns on a frame that is cut short or too large, and what
-- `ReadBytesViaStream` sends then (internal/trans_network/network_helper.go).
use apron_gateway_p2p.Prelude.{
  ℕ, zero, suc, ◌^◌, ◌≤◌, ◌<◌, ◌≡◌, refl, ap, ◌∙◌, List, [], ◌∷◌, ◌++◌, Bytes, codes, length,
  concat, arith, lt→ltb,
}
use apron_gateway_p2p.Outcome.{Outcome, ok, err, panic}
use apron_gateway_p2p.Wire.BigEndian.{put_uint64}
use apron_gateway_p2p.Wire.Bufio.{Reader, read_full, contents, eof_after}
use apron_gateway_p2p.Wire.FullRead.{read_full-FallsShort}
use apron_gateway_p2p.Wire.RoundTrip.{
  pair_eq, read_header, read_frame_head-header, read_frame_body-allowed,
}
use apron_gateway_p2p.Wire.Frame.{
  IoReader, stream, buffered, Send, read_frame_head, read_frame_body, new_reader, drop_reader,
  write_bytes_via_stream, write_bytes_via_writer, loop_turn, read_one_frame_data_from_stream,
  read_bytes_via_stream, data_ch, err_ch,
}

-- A `WriteBytesViaStream` that returns has written the whole frame, as `write_bytes_via_stream` has it.
pub write_bytes_via_writer-returns :
    (first second : Outcome (Unit {0})) (content : Bytes)
    → (write_bytes_via_writer first second content).1 ≡ ok tt
    → (write_bytes_via_writer first second content).0 ≡ write_bytes_via_stream content
unfolding write_bytes_via_writer write_bytes_via_stream
write_bytes_via_writer-returns (ok u) second content returned = refl
write_bytes_via_writer-returns (err e) second content returned = cc
write_bytes_via_writer-returns (panic e) second content returned = cc

module _ (max_alloc : ℕ) where
  head_err :
      (e : Bytes) (p : Outcome Bytes × Reader)
      → p.0 ≡ err e
      → (read_frame_head max_alloc p).0 ≡ err e
  unfolding read_frame_head
  head_err e p h =
      ap (λ (q : Outcome Bytes × Reader). (read_frame_head max_alloc q).0) (pair_eq p h)

  pub head_eof_after :
      (xs : Bytes) (p : Outcome Bytes × Reader)
      → p.0 ≡ eof_after xs
      → (read_frame_head max_alloc p).0 ≡ eof_after xs
  head_eof_after [] p h = head_err (codes "EOF") p h
  head_eof_after (x ∷ xs) p h = head_err (codes "unexpected EOF") p h

  -- With fewer than the eight bytes of a length left, the read returns EOF at the end of the stream
  -- and else an unexpected EOF.
  pub read_one_frame_short_header :
      (rd : IoReader)
      → length (contents (new_reader rd)) < 8
      → (read_one_frame_data_from_stream max_alloc rd).0 ≡ eof_after (contents (new_reader rd))
  unfolding read_one_frame_data_from_stream
  read_one_frame_short_header rd h =
      head_eof_after (contents (new_reader rd)) (read_full 8 (new_reader rd))
        (read_full-FallsShort 8 (new_reader rd) h).0

  module _ (n : ℕ) (part : Bytes) (rd : IoReader) (small : n < 2 ^ 64)
      (e : contents (new_reader rd) ≡ put_uint64 n ++ part) where
    body_eq :
        (read_one_frame_data_from_stream max_alloc rd).0
        ≡ (read_frame_body max_alloc n (read_full 8 (new_reader rd)).1).0
    unfolding read_one_frame_data_from_stream
    body_eq =
        ap (λ (p : Outcome Bytes × Reader). p.0)
          (read_frame_head-header max_alloc n part (new_reader rd) small e)

    -- With a length below 2^64 that can be allocated and less data behind it, the read returns EOF
    -- if there is no data at all and else an unexpected EOF.
    pub read_one_frame_short_body :
        n ≤ max_alloc
        → length part < n
        → (read_one_frame_data_from_stream max_alloc rd).0 ≡ eof_after part
    read_one_frame_short_body fits h =
        let r₁ = (read_full 8 (new_reader rd)).1 in
        let left : contents r₁ ≡ part = (read_header n part (new_reader rd) e).1 in
        body_eq
        ∙ ap (λ (p : Outcome Bytes × Reader). p.0) (read_frame_body-allowed max_alloc n r₁ fits)
        ∙ (read_full-FallsShort n r₁ (omega (arith, ap length left))).0
        ∙ ap (eof_after {A = Bytes}) left

    -- A length below 2^64 and past what can be allocated panics, whatever data is behind it.
    pub read_one_frame_too_large :
        max_alloc < n
        → (read_one_frame_data_from_stream max_alloc rd).0
          ≡ panic (codes "runtime error: makeslice: len out of range")
    unfolding read_frame_body
    read_one_frame_too_large h = body_eq ∙ rw (lt→ltb max_alloc n h)

  append-eq-nil : (xs ys : Bytes) → xs ++ ys ≡ [] → ys ≡ []
  append-eq-nil [] ys h = h
  append-eq-nil (x ∷ xs) ys h = cc

  drop_reader-exhausted :
      (rd : IoReader) (r : Reader) → contents r ≡ [] → contents (new_reader (drop_reader rd r)) ≡ []
  unfolding new_reader drop_reader
  drop_reader-exhausted (stream cs) r h = append-eq-nil r.held (concat r.source) h
  drop_reader-exhausted (buffered r') r h = h

  -- what the loop sends in each turn at the end of the stream
  abbrev pub eof_turns : ℕ → List Send
  eof_turns zero = []
  eof_turns (suc n) = err_ch (codes "EOF") ∷ data_ch [] ∷ eof_turns n

  head_err_reader :
      (e : Bytes) (p : Outcome Bytes × Reader)
      → p.0 ≡ err e
      → read_frame_head max_alloc p ≡ (err e, p.1)
  unfolding read_frame_head
  head_err_reader e p h = ap (read_frame_head max_alloc) (pair_eq p h)

  -- At the end of its stream the loop of `ReadBytesViaStream` does not stop: in every turn it sends
  -- EOF on the error channel and then nil data on the data channel.
  pub read_bytes-exhausted :
      (n : ℕ) (rd : IoReader)
      → contents (new_reader rd) ≡ []
      → read_bytes_via_stream max_alloc n rd ≡ eof_turns n
  unfolding read_bytes_via_stream
  read_bytes-exhausted zero rd h = refl
  read_bytes-exhausted (suc n) rd h =
      let r = new_reader rd in
      let (result, left) = read_full-FallsShort 8 r (omega (arith, ap length h)) in
      let one : read_frame_head max_alloc (read_full 8 r) ≡ (err (codes "EOF"), (read_full 8 r).1) =
        head_err_reader (codes "EOF") (read_full 8 r) (result ∙ ap (eof_after {A = Bytes}) h) in
      ap
        (λ (p : Outcome Bytes × Reader).
          loop_turn (read_bytes_via_stream max_alloc n) (p.0, drop_reader rd p.1))
        one
      ∙ ap (λ (t : List Send). err_ch (codes "EOF") ∷ data_ch [] ∷ t)
          (read_bytes-exhausted n (drop_reader rd (read_full 8 r).1)
            (drop_reader-exhausted rd (read_full 8 r).1 left))
