-- ===== src/Helper/WebSocket.antt =====
-- The WebSocket service of cmd/wsbin/main.go, with which the gateways are tried out. Reading and writing of
-- messages, each of a type and bytes, are parameters.
use apron_gateway_p2p.Prelude.{
  ℕ, Bool, Option, none, some, List, [], ◌∷◌, ◌++◌, Bytes, codes, bytes_eq, if◌then◌else◌,
}
use apron_gateway_p2p.Outcome.{Outcome, ok, err, panic}
use apron_gateway_p2p.Node.{Conn}

-- what is done on a connection
pub data WsService : Type 0 where
  echo_service publisher_service : WsService

-- the `switch` on the mode; any other mode ends the process
unfoldable pub services_of_mode : Bytes → Option (List WsService)
services_of_mode mode =
    if bytes_eq mode (codes "echo")
    then some (echo_service ∷ [])
    else if bytes_eq mode (codes "publish")
    then some (publisher_service ∷ [])
    else if bytes_eq mode (codes "both")
    then some (echo_service ∷ publisher_service ∷ [])
    else none

abbrev pub Message : Type 0
Message = ℕ × Bytes

-- a message that is written, unless the write fails, and what follows
abbrev pub write_and_on : Message → Outcome (Unit {0}) → List Message → List Message
write_and_on m (ok u) more = m ∷ more
write_and_on m (err e) more = []
write_and_on m (panic e) more = []

module _ (write : Message → Outcome (Unit {0})) where
  -- `startEchoService` on what it reads: the messages that it writes. An error ends it, as does a panic,
  -- from which it recovers.
  unfoldable pub start_echo_service : List (Outcome Message) → List Message
  start_echo_service [] = []
  start_echo_service (ok m ∷ ms) = write_and_on m (write m) (start_echo_service ms)
  start_echo_service (err e ∷ ms) = []
  start_echo_service (panic e ∷ ms) = []

  -- `startPublisherService`, given the text of the clock at each turn; `websocket.TextMessage` is 1
  unfoldable pub start_publisher_service : List Bytes → List Message
  start_publisher_service [] = []
  start_publisher_service (now ∷ nows) =
      let m : Message = (1, codes "tick: " ++ now) in
      write_and_on m (write m) (start_publisher_service nows)

-- how the handler of a request ends
pub data WsEnd : Type 0 where
  refused : ℕ → Bytes → WsEnd
  serving : Conn → List WsService → WsEnd
  exited : ℕ → WsEnd
  panicked : Bytes → WsEnd

abbrev pub serve_mode : Conn → Option (List WsService) → WsEnd
serve_mode conn none = exited 1
serve_mode conn (some services) = serving conn services

abbrev pub upgraded : Bytes → Outcome Conn → WsEnd
upgraded mode (ok conn) = serve_mode conn (services_of_mode mode)
upgraded mode (err e) = panicked e
upgraded mode (panic e) = panicked e

-- The handler of `main`, up to its endless wait, given whether the request asks for an upgrade and what
-- `Upgrade` comes back with. The mode is the default of its flag.
unfoldable pub handle_ws_request : Bool → Outcome Conn → WsEnd
unfolding services_of_mode
handle_ws_request is_upgrade upgrade =
    if is_upgrade
    then upgraded (codes "both") upgrade
    else refused 400 (codes "Expected WebSocket connection")
