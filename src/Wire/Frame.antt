-- ===== src/Wire/Frame.antt =====
-- `WriteBytesViaStream`, `ReadOneFrameDataFromStream` and `ReadBytesViaStream` of
-- internal/trans_network/network_helper.go.
use apron_gateway_p2p.Prelude.{
  ℕ, zero, suc, ◌%◌, ◌^◌, List, [], ◌∷◌, Bytes, codes, length, ltb, if◌then◌else◌,
}
use apron_gateway_p2p.Outcome.{Outcome, ok, err, panic, check_error}
use apron_gateway_p2p.Wire.BigEndian.{put_uint64, be_value}
use apron_gateway_p2p.Wire.Bufio.{Reader, read_full, read, read_loop, turns}

-- `WriteBytesViaStream(w, data)` whose `Write`s succeed: the length and the data
unfoldable pub write_bytes_via_stream : Bytes → List Bytes
unfolding put_uint64
write_bytes_via_stream content = put_uint64 (length content % 2 ^ 64) ∷ content ∷ []

-- `WriteBytesViaStream(w, data)` by what its `Write`s return: the `Write`s that it makes, and its end.
-- `CheckError` panics on an error of either, on one of the first before the second is made.
unfoldable pub write_bytes_via_writer :
    Outcome (Unit {0}) → Outcome (Unit {0}) → Bytes → List Bytes × Outcome (Unit {0})
unfolding put_uint64
write_bytes_via_writer (ok u) second content =
    (put_uint64 (length content % 2 ^ 64) ∷ content ∷ [], check_error second)
write_bytes_via_writer (err e) second content = (put_uint64 (length content % 2 ^ 64) ∷ [], panic e)
write_bytes_via_writer (panic e) second content =
    (put_uint64 (length content % 2 ^ 64) ∷ [], panic e)

-- An `io.Reader` that a frame is read from: a raw stream or connection, or a `bufio.Reader` of at
-- least the default size.
pub data IoReader : Type 0 where
  stream : List Bytes → IoReader
  buffered : Reader → IoReader

-- `bufio.NewReader(rd)` returns `rd` itself if that is a `bufio.Reader` of sufficient size
unfoldable pub new_reader : IoReader → Reader
new_reader (stream cs) = record { held = []; source = cs }
new_reader (buffered r) = r

-- What is left of `rd` when the reader of `new_reader rd` is dropped at the return: what a reader
-- over a raw stream holds is dropped with it.
unfoldable pub drop_reader : IoReader → Reader → IoReader
drop_reader (stream cs) r = stream r.source
drop_reader (buffered _) r = buffered r

-- one send on a channel of `ReadBytesViaStream`
pub data Send : Type 0 where
  data_ch : Bytes → Send
  err_ch : Bytes → Send

-- What one turn of the loop sends, then the `next` turns. `dataBuf` is nil beside an error, and is
-- sent behind it; a panic ends the goroutine.
unfoldable pub loop_turn : (IoReader → List Send) → Outcome Bytes × IoReader → List Send
loop_turn next (ok data_buf, rd) = data_ch data_buf ∷ next rd
loop_turn next (err e, rd) = err_ch e ∷ data_ch [] ∷ next rd
loop_turn next (panic e, rd) = []

module _ (max_alloc : ℕ) where
  -- behind the length: `make([]byte, msgLen)` panics past what can be allocated
  unfoldable pub read_frame_body : ℕ → Reader → Outcome Bytes × Reader
  read_frame_body msg_len r =
      if ltb max_alloc msg_len
      then (panic (codes "runtime error: makeslice: len out of range"), r)
      else read_full msg_len r

  unfoldable pub read_frame_head : Outcome Bytes × Reader → Outcome Bytes × Reader
  unfolding read_frame_body be_value
  read_frame_head (ok head, r) = read_frame_body (be_value 0 head) r
  read_frame_head (err e, r) = (err e, r)
  read_frame_head (panic e, r) = (panic e, r)

  -- `ReadOneFrameDataFromStream(rd)`, and `rd` as it is left
  unfoldable pub read_one_frame_data_from_stream : IoReader → Outcome Bytes × IoReader
  unfolding read_frame_head read_full read read_loop turns new_reader drop_reader
  read_one_frame_data_from_stream rd =
      let (result, r) = read_frame_head (read_full 8 (new_reader rd)) in (result, drop_reader rd r)

  -- `ReadBytesViaStream(rd, dataCh, errCh)`: what the first `turns` of its endless loop send
  unfoldable pub read_bytes_via_stream : ℕ → IoReader → List Send
  unfolding loop_turn read_one_frame_data_from_stream
  read_bytes_via_stream zero rd = []
  read_bytes_via_stream (suc n) rd =
      loop_turn (read_bytes_via_stream n) (read_one_frame_data_from_stream rd)
