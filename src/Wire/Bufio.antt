-- ===== src/Wire/Bufio.antt =====
-- What internal/trans_network/network_helper.go uses of Go's `bufio.Reader`, `io.ReadFull` and
-- `binary.Read`. A stream or connection is the list of the pieces that its peer's data arrives in: one
-- `Read` returns at most one piece, and what does not fit stays for the next `Read`. At the end
-- it returns EOF.
use apron_gateway_p2p.Prelude.{
  ℕ, zero, suc, ◌+◌, ◌-◌, Option, none, some, List, [], ◌∷◌, ◌++◌, Bytes, codes, length, take, drop,
  concat, leb, ◌==◌, if◌then◌else◌,
}
use apron_gateway_p2p.Outcome.{Outcome, ok, err}

-- `bufio`'s default buffer size
abbrev pub default_buf_size : ℕ
default_buf_size = 4096

-- `rd.Read(p)` with `len(p) = n`; `none` is `0, io.EOF`
unfoldable pub read_source : ℕ → List Bytes → Option Bytes × List Bytes
read_source n [] = (none, [])
read_source n (c ∷ cs) = if leb (length c) n then (some c, cs) else (some (take n c), drop n c ∷ cs)

-- a `bufio.Reader`: what it holds and has not handed out, and the source that it reads from
pub record Reader : Type 0 where
  pub held : Bytes
  pub source : List Bytes

-- hands out at most `n` of the bytes that one `Read` of the source brought into the buffer
unfoldable pub fill : ℕ → Option Bytes × List Bytes → Option Bytes × Reader
fill n (none, cs) = (none, record { held = []; source = cs })
fill n (some c, cs) = (some (take n c), record { held = drop n c; source = cs })

-- a read of an empty buffer that is longer than the buffer goes to the source
unfoldable pub bypass : Option Bytes × List Bytes → Option Bytes × Reader
bypass (r, cs) = (r, record { held = []; source = cs })

unfoldable pub read_held : ℕ → Bytes → List Bytes → Option Bytes × Reader
read_held n [] cs =
    if leb default_buf_size n
    then bypass (read_source n cs)
    else fill n (read_source default_buf_size cs)
read_held n (b ∷ bs) cs = (some (take n (b ∷ bs)), record { held = drop n (b ∷ bs); source = cs })

-- `(*bufio.Reader).Read(p)` with `len(p) = n`
unfoldable pub read : ℕ → Reader → Option Bytes × Reader
unfolding read_held fill bypass read_source
read n r = read_held n r.held r.source

abbrev pub eof : Bytes
eof = codes "EOF"

abbrev pub unexpected_eof : Bytes
unexpected_eof = codes "unexpected EOF"

-- the error of `io.ReadAtLeast` when the source ends behind `got`
abbrev pub eof_after {ℓ} : {A : Type ℓ} → Bytes → Outcome A
eof_after [] = err eof
eof_after (b ∷ bs) = err unexpected_eof

-- the rest of a turn of that loop, behind its `Read` for `need` bytes; `loop` is the next turn
unfoldable pub after_read :
    (ℕ → Bytes → Reader → Outcome Bytes × Reader)
    → ℕ
    → Bytes
    → Option Bytes × Reader
    → Outcome Bytes × Reader
after_read loop need got (none, r') = (eof_after got, r')
after_read loop need got (some c, r') = loop (need - length c) (got ++ c) r'

-- The loop of `io.ReadAtLeast(r, buf, len(buf))`, `need` bytes before its end, on fuel.
unfoldable pub read_loop : ℕ → ℕ → Bytes → Reader → Outcome Bytes × Reader
unfolding after_read
read_loop zero need got r = (err (codes "out of fuel"), r)
read_loop (suc fuel) zero got r = (ok got, r)
read_loop (suc fuel) (suc need) got r =
    after_read (read_loop fuel) (suc need) got (read (suc need) r)

-- enough turns: each one takes a byte or uses up a piece
unfoldable pub turns : ℕ → Reader → ℕ
turns n r = n + length r.source + 1

-- `io.ReadFull(r, buf)` with `len(buf) = n`
unfoldable pub read_full : ℕ → Reader → Outcome Bytes × Reader
unfolding turns
read_full n r = read_loop (turns n r) n [] r

-- everything that the reader can still hand out
abbrev pub contents : Reader → Bytes
contents r = r.held ++ concat r.source

-- `(*bufio.Reader).Read(p)` for any `len(p)`: `read` is for at least one byte
unfoldable pub read_some : ℕ → Reader → Option Bytes × Reader
read_some zero r = (some [], r)
read_some (suc n) r = read (suc n) r

-- `io.ReadFull(conn, buf)` straight from a connection, `need` bytes before the end
unfoldable pub read_pieces : ℕ → Bytes → List Bytes → Outcome Bytes × List Bytes
read_pieces need got [] = (if need == 0 then ok got else eof_after got, [])
read_pieces need got (c ∷ cs) =
    let rest = read_pieces (need - length c) (got ++ c) cs in
    if leb need (length c) then (ok (got ++ take need c), drop need c ∷ cs) else rest
