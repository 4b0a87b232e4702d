-- ===== src/Helper/Commands.antt =====
-- The command lines of the agents: `main` of cmd/socks_agent/main.go and of cmd/socket_helper/main.go, with
-- `startServerSideSocketAgent`. What `FlagSet.Parse` makes of the arguments behind the subcommand is a parameter, as are the
-- sockets; a flag that is not given is empty.
use apron_gateway_p2p.Prelude.{
  ℕ, Option, none, List, [], ◌∷◌, Bytes, codes, GoMap, bytes_eq, if◌then◌else◌,
}
use apron_gateway_p2p.Outcome.{Outcome, ok, err, panic}
use apron_gateway_p2p.Models.{ApronService, ApronSocketInitRequest}
use apron_gateway_p2p.Node.{Conn}
use apron_gateway_p2p.Startup.{flag_or}
use apron_gateway_p2p.Helper.{register_socket_service, start_client_side_socket_agent}
use apron_gateway_p2p.Helper.Registration.{
  ApronServerMode, client_agent_mode, server_agent_mode, ApronAgentServerConfig, accept_loop,
  listen_and_serve,
}

-- how a program ends: by `os.Exit`, by a panic, or with what a goroutine of it has done
pub data Ended : Type 0 where
  exited : ℕ → Ended
  panicked : Bytes → Ended
  serving : Outcome (List Conn × Option Bytes) → Ended
  sending : List Bytes → Ended

-- the value of a flag whose default is empty
abbrev pub flag_value : GoMap Bytes → Bytes → Bytes
flag_value flags name = flag_or [] (flags name)

-- the configuration of the subcommands `ca` and `sa`
unfoldable pub agent_config : ApronServerMode → GoMap Bytes → ApronAgentServerConfig
agent_config client_agent_mode flags = record {
  mode = client_agent_mode;
  rest_mgmt_addr = [];
  remote_socket_addr = flag_value flags (codes "csgw-socket-addr");
  agent_id = [];
  listen_addr = flag_value flags (codes "listen-addr");
}
agent_config server_agent_mode flags = record {
  mode = server_agent_mode;
  rest_mgmt_addr = flag_value flags (codes "ssgw-addr");
  remote_socket_addr = flag_value flags (codes "service-addr");
  agent_id = flag_value flags (codes "agent-id");
  listen_addr = flag_value flags (codes "listen-addr");
}

module _ {S : Type 0} (marshal_json : ApronService → Outcome Bytes)
    (post : Bytes → Bytes → S → Outcome Bytes × S) (parse : List Bytes → Outcome (GoMap Bytes))
    (l : Bytes → Outcome (Unit {0})) (accepts : List (Outcome Conn)) where
  -- `NewApronAgentServer` and `ListenAndServe`; an error that ends this panics
  unfoldable pub run_agent : ApronServerMode → Outcome (GoMap Bytes) → S → Ended × S
  unfolding agent_config listen_and_serve
  run_agent mode (ok flags) s =
      let config = agent_config mode flags in
      let (served, s') =
        listen_and_serve marshal_json post config (l config.listen_addr) accepts s in
      (serving served, s')
  run_agent mode (err e) s = (exited 2, s)
  run_agent mode (panic e) s = (panicked e, s)

  -- `main` of cmd/socks_agent
  unfoldable pub socks_agent_main : List Bytes → S → Ended × S
  unfolding run_agent
  socks_agent_main [] s = (exited 1, s)
  socks_agent_main (program ∷ []) s = (exited 1, s)
  socks_agent_main (program ∷ command ∷ args) s =
      if bytes_eq command (codes "ca")
      then run_agent client_agent_mode (parse args) s
      else if bytes_eq command (codes "sa")
      then run_agent server_agent_mode (parse args) s
      else (exited 1, s)

  -- the loop of `startServerSideSocketAgent` behind `net.Listen`
  abbrev accept_sockets : Outcome (Unit {0}) → Outcome (List Conn × Option Bytes)
  accept_sockets (ok u) = ok (accept_loop accepts)
  accept_sockets (err e) = panic e
  accept_sockets (panic e) = panic e

  -- behind the registration
  abbrev and_accept : Outcome Bytes → Outcome (Unit {0}) → Outcome (List Conn × Option Bytes)
  and_accept (ok response) listening = accept_sockets listening
  and_accept (err e) listening = panic e
  and_accept (panic e) listening = panic e

  -- `startServerSideSocketAgent`: the connections that it echoes on, and the error of `Accept` on which it panics
  unfoldable pub start_server_side_socket_agent :
      Bytes → Bytes → Bytes → S → Outcome (List Conn × Option Bytes) × S
  unfolding register_socket_service accept_loop
  start_server_side_socket_agent listen_addr ssgw_mgmt_addr service_id s =
      let (response, s') =
        register_socket_service marshal_json post ssgw_mgmt_addr listen_addr service_id s in
      (and_accept response (l listen_addr), s')

  module _ (dial : Bytes → Outcome Conn)
      (marshal_init : ApronSocketInitRequest → Outcome Bytes) where
    -- what the client writes to the gateway that it has dialled
    abbrev send_init : Outcome Conn → Bytes → Ended
    send_init (ok conn) service_id =
        sending (start_client_side_socket_agent marshal_init service_id)
    send_init (err e) service_id = panicked e
    send_init (panic e) service_id = panicked e

    abbrev run_client : Outcome (GoMap Bytes) → S → Ended × S
    run_client (ok flags) s = (
      send_init (dial (flag_value flags (codes "csgw-socket-addr")))
          (flag_value flags (codes "service-id")),
      s,
    )
    run_client (err e) s = (exited 2, s)
    run_client (panic e) s = (panicked e, s)

    abbrev run_server : Outcome (GoMap Bytes) → S → Ended × S
    run_server (ok flags) s =
        let (served, s') =
          start_server_side_socket_agent (flag_value flags (codes "listen-addr"))
            (flag_value flags (codes "ssgw-addr")) (flag_value flags (codes "service-id")) s in
        (serving served, s')
    run_server (err e) s = (exited 2, s)
    run_server (panic e) s = (panicked e, s)

    -- `main` of cmd/socket_helper; with any other subcommand it waits and does nothing
    unfoldable pub socket_helper_main : List Bytes → S → Ended × S
    unfolding start_server_side_socket_agent start_client_side_socket_agent
    socket_helper_main [] s =
        (panicked (codes "runtime error: index out of range [1] with length 0"), s)
    socket_helper_main (program ∷ []) s =
        (panicked (codes "runtime error: index out of range [1] with length 1"), s)
    socket_helper_main (program ∷ command ∷ args) s =
        if bytes_eq command (codes "client")
        then run_client (parse args) s
        else if bytes_eq command (codes "server")
        then run_server (parse args) s
        else (serving (ok ([], none)), s)
