-- ===== src/Socks5/Bounds.antt =====
-- What `buildSocks5ConnectRequest` can take from a client (internal/ext_protocols/socks5/apron_client_agent.go):
-- the ranges that `connectToSocks5Service` (apron_agent_server.go) relies on when it sends the request on.
use apron_gateway_p2p.Prelude.{
  ℕ, ◌<◌, Bool-cases, inl, inr, Bytes, codes, length, get_or, ◌==◌, arith,
}
use apron_gateway_p2p.Wire.BigEndian.{be_value}
use apron_gateway_p2p.Wire.Bufio.{Reader, read_full, contents}
use apron_gateway_p2p.Socks5.Const.{
  ApronSocks5ConnectRequest, socks5_ipv4, socks5_ipv6, socks5_domain,
}
use apron_gateway_p2p.Socks5.Client.{
  Parse, then_parse, ◌>>=◌, ◌>>◌, pure, require, first, read_once, handle_client_greeting_package,
  read_address, build_socks5_connect_request,
}
use apron_gateway_p2p.Socks5.Yields.{
  AreBytes, first-lt, Yields, Yields-then, Yields-weaken, Full, read_full-Yields, read_once-Yields,
  port-lt, Some, require-Yields, greeting-Yields,
}

-- an address that a length byte can hold
abbrev Short : Bytes → Type 0
Short addr = length addr < 256

-- a request that `connectRequest` can send on without cutting a value off
abbrev pub Fits : ApronSocks5ConnectRequest × Bytes → Type 0
Fits (req, answer) = (length req.dest_addr < 256) × (req.dest_port < 65536)

module _ (ip_string : Bytes → Bytes) (short_ip : (ip : Bytes) → length (ip_string ip) < 256) where
  ip-Yields :
      (n : ℕ) (r : Reader)
      → AreBytes (contents r)
      → Yields Short (then_parse (read_full n r) (λ ip. pure (ip_string ip)))
  ip-Yields n r h =
      Yields-then (Full n) Short (read_full n r) (λ ip. pure (ip_string ip))
        (read_full-Yields n r h) (λ ip r' x h'. (short_ip ip, h'))

  domain-Yields :
      (r : Reader)
      → AreBytes (contents r)
      → Yields Short (then_parse (read_once 1 r) (λ len. read_full (first len)))
  domain-Yields r h =
      Yields-then AreBytes Short (read_once 1 r) (λ len. read_full (first len))
        (read_once-Yields 1 r (omega arith) h)
        λ len r₁ x h₁.
          Yields-weaken (Full (first len)) Short (read_full (first len) r₁)
            (λ bs y. omega (arith, y.0, first-lt len x)) (read_full-Yields (first len) r₁ h₁)

  read_address-Yields :
      (t : ℕ) (r : Reader) → AreBytes (contents r) → Yields Short (read_address ip_string t r)
  unfolding read_address
  read_address-Yields t r h = elim (Bool-cases (t == socks5_ipv4)) [
    | inl e ↦ rw e (ip-Yields 4 r h)
    | inr ne ↦ elim (Bool-cases (t == socks5_ipv6)) [
      | inl e ↦ rw (ne, e) (ip-Yields 16 r h)
      | inr ne' ↦ elim (Bool-cases (t == socks5_domain)) [
        | inl e ↦ rw (ne, ne', e) (domain-Yields r h)
        | inr e ↦ rw (ne, ne', e) tt
      ]
    ]
  ]

  -- what is left of the request once the address is read
  abbrev take_port : Bytes → Bytes → Bytes → Parse (ApronSocks5ConnectRequest × Bytes)
  take_port answer buf dest_addr = do
    port ← read_full 2
    pure (
      record {
        version = get_or buf 0 0;
        command = get_or buf 1 0;
        dest_addr = dest_addr;
        dest_port = be_value 0 port;
      },
      answer,
    )

  abbrev take_address : Bytes → Bytes → Parse (ApronSocks5ConnectRequest × Bytes)
  take_address answer buf = do
    addr_type ← read_once 1
    dest_addr ← read_address ip_string (first addr_type)
    take_port answer buf dest_addr

  abbrev take_head : Bytes → Parse (ApronSocks5ConnectRequest × Bytes)
  take_head answer = do
    buf ← read_once 3
    require (length buf == 3) (codes "read size not equals 3")
    take_address answer buf

  take_port-Yields :
      (answer buf addr : Bytes) (r : Reader)
      → Short addr
      → AreBytes (contents r)
      → Yields Fits (take_port answer buf addr r)
  take_port-Yields answer buf addr r short h =
      Yields-then (Full 2) Fits (read_full 2 r)
        (λ port. pure (
          record {
            version = get_or buf 0 0;
            command = get_or buf 1 0;
            dest_addr = addr;
            dest_port = be_value 0 port;
          },
          answer,
        ))
        (read_full-Yields 2 r h) (λ port r' x h'. ((short, port-lt port x), h'))

  take_address-Yields :
      (answer buf : Bytes) (r : Reader)
      → AreBytes (contents r)
      → Yields Fits (take_address answer buf r)
  take_address-Yields answer buf r h =
      Yields-then AreBytes Fits (read_once 1 r)
        (λ t. read_address ip_string (first t) >>= take_port answer buf)
        (read_once-Yields 1 r (omega arith) h)
        λ t r₁ x h₁.
          Yields-then Short Fits (read_address ip_string (first t) r₁) (take_port answer buf)
            (read_address-Yields (first t) r₁ h₁)
            (λ addr r₂ short h₂. take_port-Yields answer buf addr r₂ short h₂)

  take_head-Yields :
      (answer : Bytes) (r : Reader) → AreBytes (contents r) → Yields Fits (take_head answer r)
  take_head-Yields answer r h =
      Yields-then AreBytes Fits (read_once 3 r)
        (λ buf.
          require (length buf == 3) (codes "read size not equals 3") >> take_address answer buf)
        (read_once-Yields 3 r (omega arith) h)
        λ buf r₁ x h₁.
          Yields-then Some Fits (require (length buf == 3) (codes "read size not equals 3") r₁)
            (λ u. take_address answer buf)
            (require-Yields (length buf == 3) (codes "read size not equals 3") r₁ h₁)
            (λ u r₂ y h₂. take_address-Yields answer buf r₂ h₂)

  -- Whatever bytes a client sends, in whatever pieces, a request that the agent accepts has an
  -- address below 256 bytes, so that its length is a byte, and a 16-bit port, when `net.IP.String` is
  -- below 256 bytes; and what is left to read are bytes.
  pub build_socks5_connect_request-Fits :
      (r : Reader) → AreBytes (contents r) → Yields Fits (build_socks5_connect_request ip_string r)
  unfolding build_socks5_connect_request
  build_socks5_connect_request-Fits r h =
      Yields-then Some Fits (handle_client_greeting_package r) take_head (greeting-Yields r h)
        (λ answer r₁ x h₁. take_head-Yields answer r₁ h₁)
