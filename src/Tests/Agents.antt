-- ===== src/Tests/Agents.antt =====
-- Agents that register their services (cmd/socket_helper and internal/ext_protocols/socks5).
use apron_gateway_p2p.Prelude.{
  GoMap, List, ◌∷◌, empty, bytes_eq, if◌then◌else◌, ◌≡◌, refl, [], Bytes, codes, insert,
}
use apron_gateway_p2p.Outcome.{Outcome, ok, err}
use apron_gateway_p2p.Models.{ApronService, ApronSocketInitRequest}
use apron_gateway_p2p.Node.{new_node, Conn}
use apron_gateway_p2p.Registry.Directory.{view}
use apron_gateway_p2p.Socks5.Agent.{agent_service}
use apron_gateway_p2p.Helper.{socket_service}
use apron_gateway_p2p.Helper.Commands.{socks_agent_main, socket_helper_main}
use apron_gateway_p2p.Helper.Announced.{commands-announced}
use apron_gateway_p2p.Helper.Registration.{ApronAgentServerConfig, server_agent_mode, mgmt_post}

abbrev config : ApronAgentServerConfig
config = record {
  mode = server_agent_mode;
  rest_mgmt_addr = codes "http://localhost:8082/service";
  remote_socket_addr = codes "localhost:1080";
  agent_id = codes "agent";
  listen_addr = codes "localhost:9981";
}

-- a codec that writes a service as its id
abbrev write_id : ApronService → Outcome Bytes
write_id s = ok s.id

abbrev no_peers : Bytes → Outcome (Unit {0})
no_peers b = err b

abbrev empty_answer : Outcome (Unit {0}) → Outcome Bytes
empty_answer r = ok []

abbrev no_conn : Bytes → Outcome Conn
no_conn addr = err addr

abbrev write_init : ApronSocketInitRequest → Outcome Bytes
write_init r = ok r.service_id

abbrev flags : GoMap Bytes
flags = insert (codes "agent-id") (codes "agent") (
    insert (codes "service-id") (codes "echo")
      (insert (codes "listen-addr") (codes "localhost:9981") empty))

abbrev parse_flags : List Bytes → Outcome (GoMap Bytes)
parse_flags args = ok flags

-- a codec that tells the two services apart by their id
abbrev read_both : Bytes → Outcome ApronService
read_both b =
    if bytes_eq b (codes "agent")
    then ok (agent_service b (codes "localhost:9981"))
    else ok (socket_service b (codes "localhost:9981"))

commands-announced_example :
    (view
        (socks_agent_main write_id
          (mgmt_post read_both write_id no_peers empty_answer)
          parse_flags
          no_peers
          []
          (codes "agent" ∷ codes "sa" ∷ [])
          new_node).1
      ≡ insert
          (codes "agent")
          (new_node.self_id, agent_service (codes "agent") (codes "localhost:9981"))
          (view new_node))
    × (view
          (socket_helper_main write_id
            (mgmt_post read_both write_id no_peers empty_answer)
            parse_flags
            no_peers
            []
            no_conn
            write_init
            (codes "agent" ∷ codes "server" ∷ [])
            new_node).1
        ≡ insert
            (codes "echo")
            (new_node.self_id, socket_service (codes "echo") (codes "localhost:9981"))
            (view new_node))
unfolding agent_service socket_service bytes_eq insert
commands-announced_example =
    commands-announced write_id read_both write_id no_peers empty_answer parse_flags no_peers []
      no_conn write_init flags new_node (codes "agent") (codes "echo") refl refl refl refl
      (codes "agent") (codes "sa") (codes "server") [] refl
