-- ===== src/Wire/Total.antt =====
-- What `ReadOneFrameDataFromStream` returns for any bytes that come in (internal/trans_network/network_helper.go).
use apron_gateway_p2p.Prelude.{
  ℕ, ◌≡◌, refl, ap, ◌∙◌, Bool-cases, inl, inr, Bytes, codes, length, take, drop, ltb, arith,
  if◌then◌else◌,
}
use apron_gateway_p2p.Outcome.{Outcome, ok, panic}
use apron_gateway_p2p.Wire.BigEndian.{be_value}
use apron_gateway_p2p.Wire.Bufio.{Reader, read_full, contents, eof_after}
use apron_gateway_p2p.Wire.FullRead.{read_full-Completes, read_full-FallsShort}
use apron_gateway_p2p.Wire.RoundTrip.{pair_eq}
use apron_gateway_p2p.Wire.Errors.{head_eof_after}
use apron_gateway_p2p.Wire.Frame.{
  IoReader, read_frame_head, read_frame_body, new_reader, read_one_frame_data_from_stream,
}

-- The specification, on all the bytes that are to come: the body behind the length `n`, and the frame.
unfoldable pub body_outcome : ℕ → ℕ → Bytes → Outcome Bytes
body_outcome max_alloc n rest =
    if ltb max_alloc n
    then panic (codes "runtime error: makeslice: len out of range")
    else if ltb (length rest) n
    then eof_after rest
    else ok (take n rest)

unfoldable pub frame_outcome : ℕ → Bytes → Outcome Bytes
unfolding body_outcome
frame_outcome max_alloc bs =
    if ltb (length bs) 8
    then eof_after bs
    else body_outcome max_alloc (be_value 0 (take 8 bs)) (drop 8 bs)

read_full_outcome :
    (n : ℕ) (r : Reader)
    → (read_full n r).0
      ≡ (if ltb (length (contents r)) n then eof_after (contents r) else ok (take n (contents r)))
read_full_outcome n r = elim (Bool-cases (ltb (length (contents r)) n)) [
  | inl h ↦ rw h (read_full-FallsShort n r (ground arith)).0
  | inr h ↦ rw h (read_full-Completes n r (ground arith)).0
]

module _ (max_alloc : ℕ) where
  body_outcome_lem :
      (n : ℕ) (r : Reader)
      → (read_frame_body max_alloc n r).0 ≡ body_outcome max_alloc n (contents r)
  unfolding read_frame_body body_outcome
  body_outcome_lem n r = elim (Bool-cases (ltb max_alloc n)) [
    | inl h ↦ rw h refl
    | inr h ↦ rw h (read_full_outcome n r)
  ]

  body_eq :
      (head : Bytes) (r' : Reader)
      → (read_frame_head max_alloc (ok head, r')).0
        ≡ body_outcome max_alloc (be_value 0 head) (contents r')
  unfolding read_frame_head
  body_eq head r' = body_outcome_lem (be_value 0 head) r'

  head_outcome :
      (bs : Bytes) (r : Reader)
      → contents r ≡ bs
      → (read_frame_head max_alloc (read_full 8 r)).0 ≡ frame_outcome max_alloc bs
  unfolding frame_outcome
  head_outcome bs r e = elim (Bool-cases (ltb (length bs) 8)) [
    | inl h ↦ rw h (
        head_eof_after max_alloc bs (read_full 8 r)
          (rw e at ((read_full-FallsShort 8 r (let l = ap length e in ground arith)).0)))
    | inr h ↦
        let (result, left) = read_full-Completes 8 r (let l = ap length e in ground arith) in
        let result' : (read_full 8 r).0 ≡ ok (take 8 bs) = result ∙ rw e refl in
        rw h (
          ap (λ (p : Outcome Bytes × Reader). (read_frame_head max_alloc p).0)
            (pair_eq (read_full 8 r) result')
          ∙ body_eq (take 8 bs) (read_full 8 r).1
          ∙ ap (body_outcome max_alloc (be_value 0 (take 8 bs))) (left ∙ rw e refl))
  ]

  -- `ReadOneFrameDataFromStream` returns on any bytes, however they are cut into pieces: with fewer than
  -- eight of them EOF or an unexpected EOF; else, by the length that the first eight give, a panic
  -- if it is past what can be allocated, EOF or an unexpected EOF if fewer bytes follow, and that many
  -- of them if there are enough.
  pub read_one_frame-outcome :
      (rd : IoReader)
      → (read_one_frame_data_from_stream max_alloc rd).0
        ≡ frame_outcome max_alloc (contents (new_reader rd))
  unfolding read_one_frame_data_from_stream
  read_one_frame-outcome rd = head_outcome (contents (new_reader rd)) (new_reader rd) refl
