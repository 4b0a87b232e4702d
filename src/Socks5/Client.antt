-- ===== src/Socks5/Client.antt =====
-- `validateVersion` of internal/ext_protocols/socks5/apron_agent_server.go, and
-- `handleClientGreetingPackage` and `buildSocks5ConnectRequest` of apron_client_agent.go: what the client
-- agent reads of a SOCKS5 client, over the `bufio.Reader` of its connection. `net.IP.String` is a
-- parameter. A byte is below 256, so `(int(port[0]) << 8) | int(port[1])` is the value of the two bytes.
use apron_gateway_p2p.Prelude.{
  ℕ, Bool, true, false, Option, none, some, [], ◌∷◌, Bytes, codes, length, get_or, ◌==◌,
  if◌then◌else◌,
}
use apron_gateway_p2p.Outcome.{Outcome, ok, err, panic}
use apron_gateway_p2p.Wire.BigEndian.{be_value}
use apron_gateway_p2p.Wire.Bufio.{Reader, read_some, read_full, eof}
use apron_gateway_p2p.Socks5.Const.{
  ApronSocks5ConnectRequest, socks5_version, socks5_auth_none, socks5_ipv4, socks5_ipv6,
  socks5_domain,
}

-- a step over the reader
abbrev pub Parse : Type 0 → Type 0
Parse A = Reader → Outcome A × Reader

abbrev pub then_parse : {A B : Type 0} → Outcome A × Reader → (A → Parse B) → Outcome B × Reader
then_parse (ok a, r) f = f a r
then_parse (err e, r) f = (err e, r)
then_parse (panic e, r) f = (panic e, r)

infixl 5 ◌>>=◌ ◌>>◌
abbrev pub ◌>>=◌ : {A B : Type 0} → Parse A → (A → Parse B) → Parse B
◌>>=◌ m f r = then_parse (m r) f

abbrev pub ◌>>◌ : {B : Type 0} → Parse (Unit {0}) → Parse B → Parse B
m >> k = m >>= λ _. k

abbrev pub pure : {A : Type 0} → A → Parse A
pure a r = (ok a, r)

abbrev pub fail : {A : Type 0} → Bytes → Parse A
fail e r = (err e, r)

abbrev pub require : Bool → Bytes → Parse (Unit {0})
require true e = pure tt
require false e = fail e

-- the first of the bytes that were read
abbrev pub first : Bytes → ℕ
first bs = get_or bs 0 0

-- `reader.ReadByte()`
unfoldable pub read_byte : Parse ℕ
unfolding read_full
read_byte = read_full 1 >>= λ bs. pure (first bs)

unfoldable pub or_eof : Option Bytes × Reader → Outcome Bytes × Reader
or_eof (none, r) = (err eof, r)
or_eof (some bs, r) = (ok bs, r)

-- `reader.Read(buf)` of `n` bytes, with its error
unfoldable pub read_once : ℕ → Parse Bytes
unfolding or_eof read_some
read_once n r = or_eof (read_some n r)

-- `reader.Read(buf)`, its results ignored
unfoldable pub read_ignored : ℕ → Parse (Unit {0})
unfolding read_some
read_ignored n r = (ok tt, (read_some n r).1)

-- `validateVersion`
unfoldable pub validate_version : Parse (Unit {0})
unfolding read_byte
validate_version = do
  version ← read_byte
  require (version == socks5_version) (codes "invalid socks version")

-- `handleClientGreetingPackage`: the answer that is written to the client
unfoldable pub handle_client_greeting_package : Parse Bytes
unfolding validate_version read_ignored
handle_client_greeting_package = do
  validate_version
  num_auth_methods ← read_byte
  read_ignored num_auth_methods
  pure (socks5_version ∷ socks5_auth_none ∷ [])

module _ (ip_string : Bytes → Bytes) where
  -- the `switch` on the type of the address
  unfoldable pub read_address : ℕ → Parse Bytes
  unfolding read_once read_full
  read_address addr_type =
      if addr_type == socks5_ipv4
      then (read_full 4 >>= λ ip. pure (ip_string ip))
      else if addr_type == socks5_ipv6
      then (read_full 16 >>= λ ip. pure (ip_string ip))
      else if addr_type == socks5_domain
      then (read_once 1 >>= λ len. read_full (first len))
      else fail (codes "unknown address type")

  -- `buildSocks5ConnectRequest`: the request and what was written to the client
  unfoldable pub build_socks5_connect_request : Parse (ApronSocks5ConnectRequest × Bytes)
  unfolding handle_client_greeting_package read_address
  build_socks5_connect_request = do
    answer ← handle_client_greeting_package
    buf ← read_once 3
    require (length buf == 3) (codes "read size not equals 3")
    addr_type ← read_once 1
    dest_addr ← read_address (first addr_type)
    port ← read_full 2
    pure (
      record {
        version = get_or buf 0 0;
        command = get_or buf 1 0;
        dest_addr = dest_addr;
        dest_port = be_value 0 port;
      },
      answer,
    )
