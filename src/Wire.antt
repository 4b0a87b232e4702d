-- ===== src/Wire.antt =====
-- internal/trans_network/network_helper.go: the framing of every stream and socket of the gateway.
-- `Bufio` is what that file uses of Go's `bufio` and `io`; the proofs are in the other children.
pub mod BigEndian
pub mod Bufio
pub mod Frame
pub mod FullRead
pub mod RoundTrip
pub mod Errors
pub mod Total
pub mod Pieces
