-- ===== src/Socks5.antt =====
-- The SOCKS5 agents of internal/ext_protocols/socks5: `Client` is what the client agent reads of a SOCKS5
-- client (apron_client_agent.go), `Service` how the service agent connects to the SOCKS5 service, and
-- `Agent` the messages between the agents and the gateways (apron_agent_server.go).
pub mod Const
pub mod Client
pub mod Service
pub mod Handshake
pub mod Agent
pub mod Session
pub mod Crossing
pub mod Loops
pub mod Rounds
pub mod Exchange
pub mod Yields
pub mod Bounds
pub mod Credentials
