-- ===== src/Helper/Announced.antt =====
-- What the commands of the agents register at a node: cmd/socks_agent/main.go and cmd/socket_helper/main.go against
-- the management API of internal/trans_network/node_mgmt_handler.go.
use apron_gateway_p2p.Prelude.{
  ◌≡◌, refl, ap, ◌∙◌, List, ◌∷◌, Bytes, codes, GoMap, insert, bytes_eq, bytes_eq_iff, Bool-cases,
  inl, inr, if◌then◌else◌,
}
use apron_gateway_p2p.Outcome.{Outcome, ok, err, panic}
use apron_gateway_p2p.Models.{ApronService, ApronSocketInitRequest}
use apron_gateway_p2p.Node.{Node, Conn}
use apron_gateway_p2p.Registry.Directory.{view}
use apron_gateway_p2p.Socks5.Agent.{agent_service}
use apron_gateway_p2p.Helper.{socket_service, register_socket_service}
use apron_gateway_p2p.Helper.Registration.{
  client_agent_mode, server_agent_mode, prepare_agent, and_listen, listen_and_serve, mgmt_post,
  agents-announced,
}
use apron_gateway_p2p.Helper.Commands.{
  flag_value, agent_config, run_agent, socks_agent_main, start_server_side_socket_agent,
  socket_helper_main,
}

and_listen-state :
    {S : Type 0} (l : Outcome (Unit {0})) (accepts : List (Outcome Conn))
    (r : Outcome (Unit {0}) × S)
    → (and_listen l accepts r).1 ≡ r.1
and_listen-state l accepts (ok u, s) = refl
and_listen-state l accepts (err e, s) = refl
and_listen-state l accepts (panic e, s) = refl

module _ (marshal_json : ApronService → Outcome Bytes)
    (unmarshal_json : Bytes → Outcome ApronService) (marshal : ApronService → Outcome Bytes)
    (publish : Bytes → Outcome (Unit {0})) (respond : Outcome (Unit {0}) → Outcome Bytes)
    (parse : List Bytes → Outcome (GoMap Bytes)) (l : Bytes → Outcome (Unit {0}))
    (accepts : List (Outcome Conn)) (dial : Bytes → Outcome Conn)
    (marshal_init : ApronSocketInitRequest → Outcome Bytes) where
  abbrev api : Bytes → Bytes → Node → Outcome Bytes × Node
  api = mgmt_post unmarshal_json marshal publish respond

  module _ (flags : GoMap Bytes) (n : Node) (b b' : Bytes) where
    abbrev agent : ApronService
    agent =
        agent_service (flag_value flags (codes "agent-id")) (flag_value flags (codes "listen-addr"))

    abbrev helper : ApronService
    helper =
        socket_service (flag_value flags (codes "service-id"))
          (flag_value flags (codes "listen-addr"))

    module _ (e : marshal_json agent ≡ ok b) (d : unmarshal_json b ≡ ok agent)
        (e' : marshal_json helper ≡ ok b') (d' : unmarshal_json b' ≡ ok helper) where
      both_announced :
          (view
              (prepare_agent marshal_json api
                (agent_config server_agent_mode flags)
                server_agent_mode
                n).1
            ≡ insert (flag_value flags (codes "agent-id")) (n.self_id, agent) (view n))
          × (view
                (register_socket_service marshal_json api
                  (flag_value flags (codes "ssgw-addr"))
                  (flag_value flags (codes "listen-addr"))
                  (flag_value flags (codes "service-id"))
                  n).1
              ≡ insert (flag_value flags (codes "service-id")) (n.self_id, helper) (view n))
      unfolding agent_config
      both_announced =
          agents-announced marshal_json unmarshal_json marshal publish respond
            (agent_config server_agent_mode flags) (flag_value flags (codes "ssgw-addr"))
            (flag_value flags (codes "listen-addr")) (flag_value flags (codes "service-id")) b b' n
            e d e' d'

      server_agent-view :
          view (run_agent marshal_json api parse l accepts server_agent_mode (ok flags) n).1
          ≡ insert (flag_value flags (codes "agent-id")) (n.self_id, agent) (view n)
      unfolding run_agent agent_config listen_and_serve
      server_agent-view = ap view (and_listen-state _ accepts _) ∙ both_announced.0

      client_agent-view :
          view (run_agent marshal_json api parse l accepts client_agent_mode (ok flags) n).1
          ≡ view n
      unfolding run_agent agent_config listen_and_serve prepare_agent
      client_agent-view = refl

      module _ (program command command' : Bytes) (args : List Bytes)
          (parses : parse args ≡ ok flags) where
        abbrev sa : Bytes
        sa = codes "sa"

        socks_agent-view :
            view (socks_agent_main marshal_json api parse l accepts (program ∷ command ∷ args) n).1
            ≡ (if bytes_eq command sa
                then insert (flag_value flags (codes "agent-id")) (n.self_id, agent) (view n)
                else view n)
        unfolding socks_agent_main bytes_eq
        socks_agent-view = elim (Bool-cases (bytes_eq command (codes "ca"))) [
          | inl is_client ↦
              (let same : command ≡ codes "ca" = (bytes_eq_iff command (codes "ca")).0 is_client in
                rw same (rw parses client_agent-view))
          | inr other ↦ elim (Bool-cases (bytes_eq command sa)) [
            | inl is_server ↦ rw (other, is_server) (rw parses server_agent-view)
            | inr neither ↦ rw (other, neither) refl
          ]
        ]

        server_helper-view :
            view
              (socket_helper_main marshal_json api parse l accepts dial marshal_init
                (program ∷ command' ∷ args)
                n).1
            ≡ (if bytes_eq command' (codes "server")
                then insert (flag_value flags (codes "service-id")) (n.self_id, helper) (view n)
                else view n)
        unfolding socket_helper_main start_server_side_socket_agent bytes_eq
        server_helper-view = elim (Bool-cases (bytes_eq command' (codes "client"))) [
          | inl is_client ↦
              (let same : command' ≡ codes "client" =
                  (bytes_eq_iff command' (codes "client")).0 is_client in
                rw same (rw parses refl))
          | inr other ↦ elim (Bool-cases (bytes_eq command' (codes "server"))) [
            | inl is_server ↦ rw (other, is_server) (rw parses both_announced.1)
            | inr neither ↦ rw (other, neither) refl
          ]
        ]

        -- The program of the SOCKS5 agents with any subcommand, and that of the socket helper: the registry of the node
        -- whose management API they are given is as before, but for the subcommand `sa` of the one, and
        -- `server` of the other, with which the agent or the service is registered under the id of its flag, as
        -- provided by this node at the listen address of its flag. This holds whatever the API answers and
        -- the sockets do, if the flags parse, and JSON encodes both services and gives them back.
        pub commands-announced :
            (view (socks_agent_main marshal_json api parse l accepts (program ∷ command ∷ args) n).1
              ≡ (if bytes_eq command sa
                  then insert (flag_value flags (codes "agent-id")) (n.self_id, agent) (view n)
                  else view n))
            × (view
                  (socket_helper_main marshal_json api parse l accepts dial marshal_init
                    (program ∷ command' ∷ args)
                    n).1
                ≡ (if bytes_eq command' (codes "server")
                    then insert (flag_value flags (codes "service-id")) (n.self_id, helper) (view n)
                    else view n))
        commands-announced = (socks_agent-view, server_helper-view)
