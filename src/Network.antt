-- ===== src/Network.antt =====
-- Gateways that work together (internal/trans_network/csgw_http.go, csgw_socket.go and node_proxy_handler.go): `Steps` is
-- any number of HTTP requests at a time through a client side gateway and service side gateways, `Protocols` and `Typing`
-- are about the message that each protocol carries.
pub mod Client
pub mod Service
pub mod Steps
mod Moves
pub mod Answers
pub mod Isolation
pub mod Once
pub mod Protocols
mod Silence
mod Speech
mod SocketSpeech
pub mod Typing
pub mod Arrived
pub mod Progress
