-- ===== src/Helper/Registration.antt =====
-- How agents register their service: `prepareAgent` of
-- internal/ext_protocols/socks5/apron_agent_server.go and `registerSocketService` of cmd/socket_helper/main.go, at the
-- management API of internal/trans_network/node_mgmt_handler.go.
use apron_gateway_p2p.Prelude.{◌≡◌, refl, ◌∙◌, Option, none, some, List, [], ◌∷◌, Bytes, insert}
use apron_gateway_p2p.Outcome.{Outcome, ok, err, panic}
use apron_gateway_p2p.Models.{ApronService}
use apron_gateway_p2p.Node.{Node, Conn}
use apron_gateway_p2p.Registry.Directory.{view, announce}
use apron_gateway_p2p.Mgmt.{new_or_update_service_handler}
use apron_gateway_p2p.Mgmt.Lists.{handlers-Handled}
use apron_gateway_p2p.Socks5.Agent.{agent_service}
use apron_gateway_p2p.Helper.{
  socket_service, post_service, register_service_to_ssgw, register_socket_service,
}

-- `ApronServerMode`
pub data ApronServerMode : Type 0 where
  client_agent_mode server_agent_mode : ApronServerMode

-- `ApronAgentServerConfig`, but for the connection that `Socks5` keeps in its shared state
pub record ApronAgentServerConfig : Type 0 where
  pub mode : ApronServerMode
  pub rest_mgmt_addr : Bytes
  pub remote_socket_addr : Bytes
  pub agent_id : Bytes
  pub listen_addr : Bytes

-- an error of the registration is logged by `Panic`
abbrev pub prepared : Outcome Bytes → Outcome (Unit {0})
prepared (ok response) = ok tt
prepared (err e) = panic e
prepared (panic e) = panic e

-- the loop of `ListenAndServe` over what `Accept` returns: the connections that are served, and the error
-- that ends it
unfoldable pub accept_loop : List (Outcome Conn) → List Conn × Option Bytes
accept_loop [] = ([], none)
accept_loop (ok conn ∷ accepts) =
    let (served, ended) = accept_loop accepts in (conn ∷ served, ended)
accept_loop (err e ∷ accepts) = ([], some e)
accept_loop (panic e ∷ accepts) = ([], some e)

abbrev pub listen : Outcome (Unit {0}) → List (Outcome Conn) → Outcome (List Conn × Option Bytes)
listen (ok u) accepts = ok (accept_loop accepts)
listen (err e) accepts = ok ([], some e)
listen (panic e) accepts = panic e

abbrev pub and_listen :
    {S : Type 0}
    → Outcome (Unit {0})
    → List (Outcome Conn)
    → Outcome (Unit {0}) × S
    → Outcome (List Conn × Option Bytes) × S
and_listen l accepts (ok u, s) = (listen l accepts, s)
and_listen l accepts (err e, s) = (panic e, s)
and_listen l accepts (panic e, s) = (panic e, s)

module _ {S : Type 0} (marshal_json : ApronService → Outcome Bytes)
    (post : Bytes → Bytes → S → Outcome Bytes × S) (config : ApronAgentServerConfig) where
  -- `prepareAgent(s.agentConfig.ListenAddr)`
  unfoldable pub prepare_agent : ApronServerMode → S → Outcome (Unit {0}) × S
  unfolding register_service_to_ssgw agent_service
  prepare_agent client_agent_mode s = (ok tt, s)
  prepare_agent server_agent_mode s =
      let (response, s') =
        register_service_to_ssgw marshal_json post config.rest_mgmt_addr
          (agent_service config.agent_id config.listen_addr) s in
      (prepared response, s')

  -- `ListenAndServe`, given what `net.Listen` returns and the listener's `Accept`
  unfoldable pub listen_and_serve :
      Outcome (Unit {0}) → List (Outcome Conn) → S → Outcome (List Conn × Option Bytes) × S
  unfolding prepare_agent accept_loop
  listen_and_serve l accepts s = and_listen l accepts (prepare_agent config.mode s)

-- The management API of a node at the other end of a POST; `respond` is what its server makes of the handler's
-- result.
abbrev pub mgmt_post :
    (Bytes → Outcome ApronService)
    → (ApronService → Outcome Bytes)
    → (Bytes → Outcome (Unit {0}))
    → (Outcome (Unit {0}) → Outcome Bytes)
    → Bytes
    → Bytes
    → Node
    → Outcome Bytes × Node
mgmt_post unmarshal_json marshal publish respond addr body n =
    let (result, n') = new_or_update_service_handler unmarshal_json marshal publish body n in
    (respond result, n')

announced_agent :
    (id addr : Bytes) (n : Node)
    → announce n.self_id (agent_service id addr) (view n)
      ≡ insert id (n.self_id, agent_service id addr) (view n)
unfolding announce agent_service
announced_agent id addr n = refl

announced_socket :
    (id addr : Bytes) (n : Node)
    → announce n.self_id (socket_service id addr) (view n)
      ≡ insert id (n.self_id, socket_service id addr) (view n)
unfolding announce socket_service
announced_socket id addr n = refl

module _ (marshal_json : ApronService → Outcome Bytes)
    (unmarshal_json : Bytes → Outcome ApronService) (marshal : ApronService → Outcome Bytes)
    (publish : Bytes → Outcome (Unit {0})) (respond : Outcome (Unit {0}) → Outcome Bytes) where
  abbrev api : Bytes → Bytes → Node → Outcome Bytes × Node
  api = mgmt_post unmarshal_json marshal publish respond

  -- a POST of a service registers it
  posted :
      (addr : Bytes) (s : ApronService) (b : Bytes) (n : Node)
      → unmarshal_json b ≡ ok s
      → view (post_service marshal_json api addr (ok b) n).1 ≡ announce n.self_id s (view n)
  unfolding post_service
  posted addr s b n e = rw e at ((handlers-Handled unmarshal_json marshal publish n b).0)

  -- A server agent that starts, and a socket service of the helper, are in the registry of the node whose
  -- management API they are given, under their id and as provided by this node, with their
  -- listen address as the base URL of their provider; all else there is as before. This holds
  -- whatever the API answers, if JSON encodes both services and gives
  -- them back.
  pub agents-announced :
      (config : ApronAgentServerConfig) (ssgw_addr listen_addr service_id b b' : Bytes) (n : Node)
      → marshal_json (agent_service config.agent_id config.listen_addr) ≡ ok b
      → unmarshal_json b ≡ ok (agent_service config.agent_id config.listen_addr)
      → marshal_json (socket_service service_id listen_addr) ≡ ok b'
      → unmarshal_json b' ≡ ok (socket_service service_id listen_addr)
      → (view (prepare_agent marshal_json api config server_agent_mode n).1
          ≡ insert config.agent_id
              (n.self_id, agent_service config.agent_id config.listen_addr)
              (view n))
        × (view (register_socket_service marshal_json api ssgw_addr listen_addr service_id n).1
            ≡ insert service_id (n.self_id, socket_service service_id listen_addr) (view n))
  unfolding prepare_agent register_service_to_ssgw register_socket_service
  agents-announced config ssgw_addr listen_addr service_id b b' n e d e' d' =
      let agent = agent_service config.agent_id config.listen_addr in
      let socket = socket_service service_id listen_addr in
      (
        rw e (posted config.rest_mgmt_addr agent b n d)
            ∙ announced_agent config.agent_id config.listen_addr n,
        rw e' (posted ssgw_addr socket b' n d') ∙ announced_socket service_id listen_addr n,
      )
