-- ===== src/Gateway.antt =====
-- The two sides of the proxy: `Http` and `Socket` are the client side gateway
-- (internal/trans_network/csgw_http.go, csgw_socket.go), `Service` the service side gateway
-- (internal/trans_network/node_proxy_handler.go), and `Env` what they take from outside; `Streams` hands
-- what arrives to the handlers, and `Tasks` is all that a gateway does. `Routing` is about
-- where a request goes, `Delivery` about its answer, `SocketInit`, `SocketData` and
-- `Transport` about socket connections, `WebSockets` about WebSocket messages, and `Races` about orders of steps.
pub mod Env
pub mod Http
pub mod Service
pub mod Socket
pub mod SocketInit
pub mod SocketData
pub mod Streams
pub mod Tasks
pub mod Written
pub mod Transport
pub mod WebSockets
pub mod Routing
pub mod Delivery
pub mod Races
