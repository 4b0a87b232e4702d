-- ===== src/Socks5/Credentials.antt =====
-- `StaticCredentials` of internal/ext_protocols/socks5/cred.go, and the resolver that `NewApronAgentServer`
-- of apron_agent_server.go gives a configuration that has none (resolver.go). Resolving is a parameter.
use apron_gateway_p2p.Prelude.{Bool, false, Option, none, some, Bytes, GoMap, bytes_eq}
use apron_gateway_p2p.Outcome.{Outcome}

abbrev pub StaticCredentials : Type 0
StaticCredentials = GoMap Bytes

-- behind the look-up
unfoldable pub valid_password : Option Bytes → Bytes → Bool
valid_password none password = false
valid_password (some pass) password = bytes_eq password pass

-- `(StaticCredentials).Valid`
unfoldable pub valid : StaticCredentials → Bytes → Bytes → Bool
unfolding valid_password
valid s user password = valid_password (s user) password

-- `NameResolver`
abbrev pub NameResolver : Type 0
NameResolver = Bytes → Outcome Bytes

-- the resolver of a server, by that of its configuration and `DNSResolver`
unfoldable pub resolver_or_default : NameResolver → Option NameResolver → NameResolver
resolver_or_default dns none = dns
resolver_or_default dns (some r) = r
