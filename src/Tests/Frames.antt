-- ===== src/Tests/Frames.antt =====
-- Frames in pieces, through internal/trans_network/network_helper.go.
use apron_gateway_p2p.Prelude.{◌≡◌, refl, List, [], ◌∷◌, ◌++◌, map, Bytes, arith}
use apron_gateway_p2p.Outcome.{ok}
use apron_gateway_p2p.Wire.BigEndian.{put_uint64}
use apron_gateway_p2p.Wire.Bufio.{Reader, eof_after}
use apron_gateway_p2p.Wire.Frame.{
  stream, buffered, write_bytes_via_stream, data_ch, new_reader, read_one_frame_data_from_stream,
  read_bytes_via_stream,
}
use apron_gateway_p2p.Wire.RoundTrip.{frame, read_bytes-write_bytes}
use apron_gateway_p2p.Wire.Errors.{eof_turns, read_bytes-exhausted}
use apron_gateway_p2p.Wire.Total.{frame_outcome, read_one_frame-outcome}
use apron_gateway_p2p.Wire.BigEndian.{be_value}
use apron_gateway_p2p.Wire.Pieces.{read_one_frame_drops, read_bytes-writes, writes}

-- two messages, cut within the first length, within the first message and behind the second
abbrev two_messages : List Bytes
two_messages = (1 ∷ 2 ∷ []) ∷ (3 ∷ []) ∷ []

abbrev cut_reader : Reader
cut_reader = record {
  held = 0 ∷ 0 ∷ [];
  source =
      (0 ∷ 0 ∷ 0 ∷ [])
      ∷ (0 ∷ 0 ∷ 2 ∷ 1 ∷ [])
      ∷ (2 ∷ 0 ∷ 0 ∷ 0 ∷ 0 ∷ 0 ∷ 0 ∷ 0 ∷ 1 ∷ 3 ∷ 9 ∷ [])
      ∷ [];
}

read_bytes-write_bytes_example :
    read_bytes_via_stream 100 2 (buffered cut_reader) ≡ map data_ch two_messages
unfolding put_uint64 write_bytes_via_stream
read_bytes-write_bytes_example =
    read_bytes-write_bytes 100 two_messages (9 ∷ []) cut_reader
      (omega arith, omega arith, (omega arith, omega arith, tt)) refl

read_bytes-writes_example :
    read_bytes_via_stream 100 2 (stream (writes 100 two_messages ++ ((9 ∷ []) ∷ [])))
    ≡ map data_ch two_messages
read_bytes-writes_example =
    read_bytes-writes 100 two_messages ((9 ∷ []) ∷ [])
      (omega arith, omega arith, (omega arith, omega arith, tt)) (omega arith, (omega arith, tt))

-- the second of two frames that arrive as one piece
read_one_frame_drops_example :
    read_one_frame_data_from_stream 100
      (stream ((frame (1 ∷ 2 ∷ []) ++ frame (3 ∷ [])) ∷ (7 ∷ []) ∷ []))
    ≡ (ok (1 ∷ 2 ∷ []), stream ((7 ∷ []) ∷ []))
unfolding put_uint64
read_one_frame_drops_example =
    read_one_frame_drops 100 (1 ∷ 2 ∷ []) (frame (3 ∷ [])) ((7 ∷ []) ∷ []) (omega arith)
      (omega arith)

abbrev short_frame : Bytes
short_frame = 0 ∷ 0 ∷ 0 ∷ 0 ∷ 0 ∷ 0 ∷ 0 ∷ 5 ∷ 1 ∷ 2 ∷ []

read_one_frame-outcome_example :
    (read_one_frame_data_from_stream 100 (stream (short_frame ∷ []))).0 ≡ eof_after (1 ∷ 2 ∷ [])
unfolding frame_outcome new_reader be_value
read_one_frame-outcome_example = read_one_frame-outcome 100 (stream (short_frame ∷ []))

read_bytes-exhausted_example : read_bytes_via_stream 100 3 (stream ([] ∷ [])) ≡ eof_turns 100 3
unfolding new_reader
read_bytes-exhausted_example = read_bytes-exhausted 100 3 (stream ([] ∷ [])) refl
