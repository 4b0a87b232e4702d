-- ===== src/Gateway/SocketInit.antt =====
-- What the client side gateway reads as the init request of a socket connection
-- (internal/trans_network/csgw_socket.go): one `Read` behind the length.
use apron_gateway_p2p.Prelude.{
  ℕ, ◌-◌, ◌^◌, ◌%◌, ◌≤◌, ◌<◌, ◌≡◌, refl, ap, ◌∙◌, List, [], ◌∷◌, ◌++◌, Bytes, length, replicate,
  leb, arith, Bool-cases, inl, inr, some, take-all, le→ltb, le→leb, suc, zero, append-nil,
}
use apron_gateway_p2p.Outcome.{ok}
use apron_gateway_p2p.Wire.BigEndian.{put_uint64, length-put_uint64, be_value-put_uint64}
use apron_gateway_p2p.Wire.Bufio.{
  read_full, read_some, read, read_held, read_source, fill, bypass, default_buf_size,
}
use apron_gateway_p2p.Wire.Frame.{write_bytes_via_stream, new_reader}
use apron_gateway_p2p.Wire.RoundTrip.{pair_eq}
use apron_gateway_p2p.Wire.Pieces.{read_full-once, read_whole_piece}
use apron_gateway_p2p.Gateway.Socket.{read_init_request, read_init_body, read_into}

-- the length, from a piece of its own
header_read :
    (n : ℕ) (cs : List Bytes)
    → read_full 8 (record { held = []; source = put_uint64 n ∷ cs })
      ≡ (ok (put_uint64 n), record { held = []; source = cs })
header_read n cs =
    let header = put_uint64 n in
    let eight : length header ≡ 8 = length-put_uint64 n in
    rw eight at (
      read_full-once (length header) header (record { held = []; source = header ∷ cs })
        (record { held = []; source = cs }) (omega arith) (read_whole_piece header cs) refl)

-- one `Read` for at least as many bytes as the next piece has
piece_read :
    (n : ℕ) (part : Bytes) (cs : List Bytes)
    → 0 < n
    → length part ≤ n
    → (read_some n (record { held = []; source = part ∷ cs })).0 ≡ some part
unfolding read_some read read_held read_source fill bypass
piece_read zero part cs pos short = absurd (omega arith)
piece_read (suc n) part cs pos short = elim (Bool-cases (leb default_buf_size (suc n))) [
  | inl e ↦ rw e (rw (le→leb (length part) (suc n) short) refl)
  | inr e ↦ rw e (
      rw (le→leb (length part) default_buf_size (ground arith))
        (λ i. some (take-all (suc n) part short i)))
]

-- If the length of an init request comes as a piece of its own and of the request only a part comes
-- with the next, the gateway does not wait for the rest: it takes the part, filled up with zero
-- bytes, for the request.
pub read_init_request-part :
    (max_alloc n : ℕ) (part : Bytes) (cs : List Bytes)
    → 0 < n
    → n < 2 ^ 64
    → n ≤ max_alloc
    → length part ≤ n
    → read_init_request max_alloc (put_uint64 n ∷ part ∷ cs)
      ≡ ok (part ++ replicate (n - length part) 0)
unfolding read_init_request read_init_body new_reader
read_init_request-part max_alloc n part cs pos small fits short =
    ap (read_init_body max_alloc) (header_read n (part ∷ cs))
    ∙ rw (be_value-put_uint64 n small) (
        rw (le→ltb max_alloc n fits) (
          unfold read_into in
          ap (read_into n) (
            pair_eq (read_some n (record { held = []; source = part ∷ cs }))
              (piece_read n part cs pos short))))

-- A non-empty init request below 2^64 bytes and within what can be allocated, of which each `Write`
-- of the client arrives as a piece of its own, is read as it was written.
pub read_init_request-write :
    (max_alloc : ℕ) (init : Bytes) (cs : List Bytes)
    → 0 < length init
    → length init < 2 ^ 64
    → length init ≤ max_alloc
    → read_init_request max_alloc (write_bytes_via_stream init ++ cs) ≡ ok init
unfolding write_bytes_via_stream
read_init_request-write max_alloc init cs pos small fits =
    let none_left : length init - length init ≡ 0 = omega arith in
    let whole : init ++ replicate (length init - length init) 0 ≡ init =
      ap (λ (m : ℕ). init ++ replicate m 0) none_left ∙ append-nil init in
    let wire : length init % 2 ^ 64 ≡ length init = omega arith in
    ap (λ (m : ℕ). read_init_request max_alloc (put_uint64 m ∷ init ∷ cs)) wire
    ∙ read_init_request-part max_alloc (length init) init cs pos small fits (omega arith)
    ∙ λ i. ok (whole i)
