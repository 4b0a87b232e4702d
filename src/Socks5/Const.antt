-- ===== src/Socks5/Const.antt =====
-- internal/ext_protocols/socks5/const.go and models.go.
use apron_gateway_p2p.Prelude.{ℕ, Bytes, codes}

abbrev pub socks5_version : ℕ
socks5_version = 5

abbrev pub socks5_auth_none : ℕ
socks5_auth_none = 0

abbrev pub socks5_connect_command : ℕ
socks5_connect_command = 1

abbrev pub socks5_ipv4 : ℕ
socks5_ipv4 = 1

abbrev pub socks5_ipv6 : ℕ
socks5_ipv6 = 4

abbrev pub socks5_domain : ℕ
socks5_domain = 3

abbrev pub socks5_service_name : Bytes
socks5_service_name = codes "socks5"

abbrev pub socks5_connect_message : ℕ
socks5_connect_message = 1

abbrev pub socks5_data_message : ℕ
socks5_data_message = 2

-- `ApronSocks5ConnectRequest`
pub record ApronSocks5ConnectRequest : Type 0 where
  pub version : ℕ
  pub command : ℕ
  pub dest_addr : Bytes
  pub dest_port : ℕ
