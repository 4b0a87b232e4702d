-- ===== src/Lib.antt =====
-- The verification of the P2P gateway: Go code under internal/ and cmd/.
--
-- The parts. A gateway node (internal/trans_network/node.go) keeps a registry of services, which other
-- nodes announce to it by broadcast. A client side gateway (csgw_http.go, csgw_socket.go) takes requests
-- of clients and forwards them to the service side gateway (node_proxy_handler.go) of the service's peer,
-- which calls the service and sends back what it answers. All data between them is framed by
-- network_helper.go. internal/models extracts the service and user from a request, builds and takes
-- apart request ids, and keeps usage records. The agents of internal/ext_protocols/socks5 carry SOCKS5
-- connections over gateways. node_mgmt_handler.go is the API that registers services.
--
-- The files, and the code that each models:
--   Prelude       lists, texts, Go maps, Boolean tests, and their lemmas
--   Outcome       errors and panics; CheckError of internal/utils.go
--   Wire          network_helper.go: BigEndian and Bufio for what it uses of Go's library, Frame for
--                 its functions, FullRead, RoundTrip, Pieces, Errors and Total for their theorems
--   Models        the messages of internal/models/models.pb.go and ext_service.pb.go
--   RequestId     request ids and usage keys: helper.go and usage_record.go of internal/models
--   Regex         the matching that request_detail.go uses of Go's regexp
--   RequestDetail internal/models/request_detail.go
--   Usage         internal/models/usage_record_manager.go; Ledger runs any sequence of its calls, one
--                 after another, and Overlap has calls that overlap
--   Node          the state of a node, and its constructor
--   Registry      registration, broadcast and peer monitor of node.go; Directory is its specification
--   Act           handlers as steps over the node's state with a trace of effects: Keeps for what
--                 they keep of the state, Frames, Ends and Writes for the frames that they write
--   Gateway       Env for what is outside the repository, Http and Socket for the client side, Service
--                 and Streams for the service side, Tasks for all that a gateway does, Written for what
--                 a step has written; Routing, Delivery, SocketInit, SocketData, Transport,
--                 WebSockets and Races for theorems
--   Network       any number of HTTP requests at a time between gateways: Steps is the step relation,
--                 Client, Service and Moves say what a step puts on its way, Answers, Isolation and
--                 Once what that means for the clients, Arrived and Progress how an answer comes; Protocols,
--                 Silence, Speech, SocketSpeech and Typing say which message goes on which protocol
--   Startup       cmd/gateway/main.go with config.go, dht.go and discover.go, and the key of NewNode in
--                 node.go: Start for what stands when a gateway has started, Seed for its key
--   Ipfs          internal/ipfs_agent
--   Report        node_user_report.go and cmd/report_generator: System runs a node with its upload task,
--                 Pinned and Follows relate it to the runs of Usage, Stored finds its directory, EndToEnd reads
--                 the reports back
--   Mgmt          node_mgmt_handler.go
--   Socks5        const.go, models.go, cred.go, apron_agent_server.go and apron_client_agent.go: Client,
--                 Service, Session and Agent for what the agents do, Loops for their loops and for a
--                 session through two gateways; Handshake, Yields, Bounds, Crossing, Rounds and Exchange for
--                 theorems
--   Helper        cmd/socket_helper, cmd/wsbin and RegisterServiceToSSGW of internal/utils.go; Echo sends
--                 messages through two gateways and back, Session sets their connection up before,
--                 Registration starts agents, Commands is the main functions of cmd/socks_agent and
--                 cmd/socket_helper, and Announced what they register
--   Peers         addr_list.go
--   Tests         runs on small inputs
--
-- How the code is modelled. A map of a node is a function from keys, with the runtime's order of a range
-- as an argument. A method of the usage manager is given as
-- it runs alone, and its runs are sequential: only its export is called in the program, and Overlap has
-- what happens where its calls overlap. A handler is cut where it
-- waits for another goroutine; a round of its loop is given what its select receives, and it ends by a
-- value, a return, a wait that never ends, or a panic. In the step relation of Network these pieces of
-- the handlers of all requests take turns in any order, frames overtake one another, and between two
-- steps the states of the nodes may change in any way. Machine integers wrap as in the code: traffic
-- counters modulo 2^64, lengths of frames in eight bytes. A stream is the list of the pieces that one
-- Read returns each; max_alloc is the largest slice that can be made. Native byte values are numbers.
--
-- Fuel. The loop of io.ReadFull has as many turns as bytes wanted and pieces left, and one more: each turn
-- takes a byte or uses up a piece, and read_full-Completes and read_full-FallsShort show that the result
-- is never that of the fuel. The loop over matches of a pattern has one turn more than the text has
-- characters, and each takes one. The endless loop of ReadBytesViaStream is given by its first turns, for
-- any number of them.
--
-- A connection to a SOCKS5 service is an argument of the rounds of the server agent (connect); what
-- connectToSocks5Service does for it is modelled by itself in Socks5/Service. The URL of a request to
-- a service is built by calls of libraries only, which are the argument service_uri. The
-- handlers write frames whose Writes succeed; an error of a Write, on which WriteBytesViaStream panics,
-- is in Wire/Frame (write_bytes_via_writer).
--
-- Not modelled. The codecs of protobuf and JSON, libp2p, fasthttp, WebSockets, files, dialling, UUIDs and
-- the clock are parameters, with hypotheses where a theorem relies on them. The set-up of logging, the
-- rendering of log fields and name resolution are left out: they call libraries only. Interleavings
-- within one handler are limited to the cuts named above.
pub mod Prelude
pub mod Outcome
pub mod Wire
pub mod Models
pub mod RequestId
pub mod Regex
pub mod RequestDetail
pub mod Usage
pub mod Node
pub mod Registry
pub mod Act
pub mod Gateway
pub mod Network
pub mod Startup
pub mod Ipfs
pub mod Report
pub mod Mgmt
pub mod Socks5
pub mod Helper
pub mod Peers
mod Tests
