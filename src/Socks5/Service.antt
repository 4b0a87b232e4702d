-- ===== src/Socks5/Service.antt =====
-- `connectToSocks5Service` of internal/ext_protocols/socks5/apron_agent_server.go. The service's bytes come
-- in pieces, one for each `Read`. Every failure is logged by `logger.Panic`, which panics.
use apron_gateway_p2p.Prelude.{
  ℕ, ◌+◌, ◌-◌, ◌/◌, ◌%◌, ◌&&◌, Option, none, some, List, [], ◌∷◌, ◌++◌, Bytes, codes, length,
  get_or, take, drop, replicate, ltb, ◌==◌, if◌then◌else◌,
}
use apron_gateway_p2p.Outcome.{Outcome, ok, err, panic, ◌>>=◌}
use apron_gateway_p2p.Wire.Bufio.{read, read_pieces}
use apron_gateway_p2p.Socks5.Const.{
  ApronSocks5ConnectRequest, socks5_version, socks5_auth_none, socks5_connect_command, socks5_ipv4,
  socks5_ipv6, socks5_domain,
}

-- the SOCKS5 greeting that the agent sends
unfoldable pub auth_request : Bytes
auth_request = socks5_version ∷ 1 ∷ socks5_auth_none ∷ []

-- The SOCKS5 request that the agent sends: the address is always sent as a domain, its length as
-- `uint8` and the port as `uint16`.
unfoldable pub connect_request : ApronSocks5ConnectRequest → Bytes
connect_request req =
    socks5_version
    ∷ socks5_connect_command
    ∷ 0
    ∷ socks5_domain
    ∷ length req.dest_addr % 256
    ∷ (req.dest_addr ++ (req.dest_port / 256 % 256 ∷ req.dest_port % 256 ∷ []))

-- the service's answer to the greeting
unfoldable pub check_auth_response : Outcome Bytes → Outcome (Unit {0})
check_auth_response (ok bs) =
    if get_or bs 0 0 == socks5_version && get_or bs 1 0 == socks5_auth_none
    then ok tt
    else panic (codes "unexpected authentication response")
check_auth_response (err e) = panic (codes "failed to receive authentication response")
check_auth_response (panic e) = panic e

-- `response[from:to]` of the buffer of 256 bytes
unfoldable pub slice : ℕ → ℕ → Bytes → Outcome Bytes
slice from to response =
    if ltb 256 to
    then panic (codes "runtime error: slice bounds out of range")
    else ok (take (to - from) (drop from response))

-- the address in the answer, which is only logged
unfoldable pub response_address : ℕ → Bytes → Outcome Bytes
unfolding slice
response_address addr_type response =
    if addr_type == socks5_ipv4
    then slice 4 8 response
    else if addr_type == socks5_domain
    then slice 5 (5 + get_or response 4 0) response
    else if addr_type == socks5_ipv6
    then slice 4 20 response
    else ok []

-- the buffer of 256 zero bytes behind a `Read` into it
abbrev pub response_buffer : Bytes → Bytes
response_buffer bs = bs ++ replicate (256 - length bs) 0

-- the service's answer to the request
unfoldable pub check_connect_response : Option Bytes → Outcome (Unit {0})
unfolding response_address
check_connect_response none = panic (codes "failed to receive connect response header")
check_connect_response (some bs) =
    let response = response_buffer bs in
    if get_or response 0 0 == socks5_version && get_or response 1 0 == 0
    then (response_address (get_or response 3 0) response >>= λ addr. ok tt)
    else panic (codes "unexpected connect response:")

-- behind the answer to the greeting
unfoldable pub send_connect_request :
    ApronSocks5ConnectRequest → List Bytes → Outcome (Unit {0}) → Outcome (Unit {0}) × List Bytes
unfolding connect_request check_connect_response auth_request
send_connect_request req pieces (ok u) = (
  check_connect_response (read 256 (record { held = []; source = pieces })).0,
  auth_request ∷ connect_request req ∷ [],
)
send_connect_request req pieces (err e) = (err e, auth_request ∷ [])
send_connect_request req pieces (panic e) = (panic e, auth_request ∷ [])

-- `connectToSocks5Service` behind the dial: its end, and what it wrote to the service
unfoldable pub connect_to_socks5_service :
    List Bytes → ApronSocks5ConnectRequest → Outcome (Unit {0}) × List Bytes
unfolding send_connect_request check_auth_response
connect_to_socks5_service pieces req =
    let (auth_response, rest) = read_pieces 2 [] pieces in
    send_connect_request req rest (check_auth_response auth_response)
