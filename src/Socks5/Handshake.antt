-- ===== src/Socks5/Handshake.antt =====
-- The two ends of a SOCKS5 connection: what the server agent sends to a service
-- (internal/ext_protocols/socks5/apron_agent_server.go) is what the client agent reads of its clients
-- (apron_client_agent.go).
use apron_gateway_p2p.Prelude.{
  ℕ, ◌+◌, ◌*◌, ◌%◌, ◌/◌, ◌<◌, ◌≤◌, ◌≡◌, refl, ap, ◌∙◌, List, [], ◌∷◌, ◌++◌, Bytes, length,
  append_assoc, arith,
}
use apron_gateway_p2p.Outcome.{Outcome, ok}
use apron_gateway_p2p.Wire.BigEndian.{be_value}
use apron_gateway_p2p.Wire.Bufio.{
  Reader, read_full, read_some, read, read_held, fill, read_source, default_buf_size,
}
use apron_gateway_p2p.Wire.Pieces.{read_full-held, read_full-once, read_piece}
use apron_gateway_p2p.Socks5.Const.{ApronSocks5ConnectRequest, socks5_domain}
use apron_gateway_p2p.Socks5.Client.{
  then_parse, read_byte, read_once, read_ignored, or_eof, validate_version, first, pure,
  handle_client_greeting_package, read_address, build_socks5_connect_request,
}
use apron_gateway_p2p.Socks5.Service.{auth_request, connect_request}

module _ (cs : List Bytes) where
  abbrev pub holds : Bytes → Reader
  holds bs = record { held = bs; source = cs }

  read_byte-held : (b : ℕ) (bs : Bytes) → read_byte (holds (b ∷ bs)) ≡ (ok b, holds bs)
  unfolding read_byte
  read_byte-held b bs =
      ap (λ (p : Outcome Bytes × Reader). then_parse p (λ t. pure (first t)))
        (read_full-held (b ∷ []) bs cs)

  address-held :
      (ip_string : Bytes → Bytes) (addr t : Bytes)
      → length addr < 256
      → read_address ip_string socks5_domain (holds (length addr % 256 ∷ (addr ++ t)))
        ≡ (ok addr, holds t)
  unfolding read_address read_once or_eof read_some read read_held
  address-held ip_string addr t h =
      ap (λ (n : ℕ). read_full n (holds (addr ++ t))) (omega arith) ∙ read_full-held addr t cs

  -- a new `bufio.Reader` over a connection: the greeting arrives as one piece
  abbrev pub fresh : List Bytes → Reader
  fresh ps = record { held = []; source = ps }

  first_byte-fresh :
      (ps : List Bytes)
      → read_byte (fresh (auth_request ∷ ps)) ≡ (ok 5, record { held = 1 ∷ 0 ∷ []; source = ps })
  unfolding read_byte auth_request read read_held fill read_source
  first_byte-fresh ps =
      ap (λ (p : Outcome Bytes × Reader). then_parse p (λ t. pure (first t)))
        (read_full-once 1 (5 ∷ []) (fresh (auth_request ∷ ps))
          (record { held = 1 ∷ 0 ∷ []; source = ps }) (omega arith) refl refl)

  second_byte :
      (ps : List Bytes)
      → read_byte (record { held = 1 ∷ 0 ∷ []; source = ps })
        ≡ (ok 1, record { held = 0 ∷ []; source = ps })
  unfolding read_byte
  second_byte ps =
      ap (λ (p : Outcome Bytes × Reader). then_parse p (λ t. pure (first t)))
        (read_full-held (1 ∷ []) (0 ∷ []) ps)

  greeting-fresh :
      (ps : List Bytes)
      → handle_client_greeting_package (fresh (auth_request ∷ ps)) ≡ (ok (5 ∷ 0 ∷ []), fresh ps)
  unfolding handle_client_greeting_package validate_version read_ignored read_some read read_held
  greeting-fresh ps = rw (first_byte-fresh ps) (rw (second_byte ps) refl)

  -- the head of a request that arrives with what follows it
  head-fresh :
      (t : Bytes)
      → length (5 ∷ 1 ∷ 0 ∷ t) ≤ default_buf_size
      → read_once 3 (fresh ((5 ∷ 1 ∷ 0 ∷ t) ∷ cs)) ≡ (ok (5 ∷ 1 ∷ 0 ∷ []), holds t)
  unfolding read_once or_eof read_some
  head-fresh t fits = ap or_eof (read_piece (5 ∷ 1 ∷ 0 ∷ []) t cs (omega arith) fits)

  one-held : (b : ℕ) (bs : Bytes) → read_once 1 (holds (b ∷ bs)) ≡ (ok (b ∷ []), holds bs)
  unfolding read_once or_eof read_some read read_held
  one-held b bs = refl

  -- A client that greets and asks as the agent itself does at a service, for an address below 256
  -- bytes and a 16-bit port, is understood by the new reader of its connection: it is answered that no
  -- authentication is needed, the request has its address and port, and what follows the request is
  -- left to read. For this the greeting arrives as one piece, and the request, with what follows in
  -- the same piece, as the next, of at most the 4096 bytes of the reader's buffer.
  pub build_socks5_connect_request-connect_request :
      (ip_string : Bytes → Bytes) (req : ApronSocks5ConnectRequest) (rest : Bytes)
      → length req.dest_addr < 256
      → req.dest_port < 65536
      → length (connect_request req ++ rest) ≤ 4096
      → build_socks5_connect_request ip_string
          (fresh (auth_request ∷ (connect_request req ++ rest) ∷ cs))
        ≡ (
          ok (
            record {
              version = 5;
              command = 1;
              dest_addr = req.dest_addr;
              dest_port = req.dest_port;
            },
            5 ∷ 0 ∷ [],
          ),
          holds rest,
        )
  unfolding build_socks5_connect_request connect_request be_value
  build_socks5_connect_request-connect_request ip_string req rest short small fits =
      let ports : Bytes = req.dest_port / 256 % 256 ∷ req.dest_port % 256 ∷ [] in
      let address : Bytes = length req.dest_addr % 256 ∷ ((req.dest_addr ++ ports) ++ rest) in
      let port : (0 + req.dest_port / 256 % 256) * 256 + req.dest_port % 256 ≡ req.dest_port =
        omega arith in
      rw
        (
          greeting-fresh ((connect_request req ++ rest) ∷ cs),
          head-fresh (3 ∷ address) fits,
          one-held 3 address,
          append_assoc req.dest_addr ports rest,
          address-held ip_string req.dest_addr (ports ++ rest) short,
          read_full-held ports rest cs,
        )
        (λ i. (
          ok (record req { version = 5; command = 1; dest_port = port i }, 5 ∷ 0 ∷ []),
          holds rest,
        ))
