-- ===== src/Startup/Start.antt =====
-- What stands when a gateway has started, and what keeps it from starting (cmd/gateway/main.go and
-- internal/trans_network/dht.go).
use apron_gateway_p2p.Prelude.{
  ◌≡◌, refl, none, List, [], ◌∷◌, Bytes, codes, insert, bytes_eq, has, true, false, All, Bool, ◌&&◌,
}
use apron_gateway_p2p.Outcome.{Outcome, ok, err, panic}
use apron_gateway_p2p.Node.{PeerId, new_node, setup_service_broadcast_listener}
use apron_gateway_p2p.Registry.Invariant.{IsConsistent}
use apron_gateway_p2p.Registry.Directory.{view}
use apron_gateway_p2p.Gateway.Env.{
  proxy_http_init_req, proxy_ws_data_from_client_side, proxy_ws_data_from_service_side,
  proxy_http_resp_from_service_side, proxy_socket_init_req, proxy_socket_data_from_client_side,
  proxy_socket_data_from_service_side,
}
use apron_gateway_p2p.Gateway.Streams.{set_proxy_stream_handlers}
use apron_gateway_p2p.Startup.{
  StartEnv, NodeConfig, Gateway, connect_peers, start_gateway, running, connect_info, add_connected,
  is_nil, host_seed,
}

abbrev nil_info : Bytes
nil_info = codes "runtime error: invalid memory address or nil pointer dereference"

-- the protocols that gateways open streams on
abbrev pub protocols : List Bytes
protocols =
    proxy_http_init_req ∷ proxy_http_resp_from_service_side ∷ proxy_ws_data_from_client_side
    ∷ proxy_ws_data_from_service_side ∷ proxy_socket_init_req ∷ proxy_socket_data_from_client_side
    ∷ proxy_socket_data_from_service_side ∷ []

-- A gateway that has started: its id is the host's, its registry is consistent and empty, and each
-- protocol has a handler.
pub record IsStarted {Info : Type 0} (id : PeerId) (g : Gateway Info) : Type 0 where
  pub named : g.node.self_id ≡ id
  pub registry : IsConsistent g.node
  pub unregistered : (k : Bytes) → view g.node k ≡ none
  pub handled : All (λ p. has g.handlers p ≡ true) protocols

abbrev pub is_ok : {A : Type 0} → Outcome A → Bool
is_ok (ok a) = true
is_ok (err e) = false
is_ok (panic e) = false

module _ {Addr Info : Type 0} (env : StartEnv Addr Info) where
  -- whether every bootstrap address names a peer
  abbrev pub all_named : List Addr → Bool
  all_named [] = true
  all_named (addr ∷ addrs) = is_ok (env.addr_info addr) && all_named addrs

  -- the peers that are connected, or the panic
  abbrev Connects : Bool → Outcome (List Info) → Type 0
  Connects true r = (infos : List Info) × (r ≡ ok infos)
  Connects false r = r ≡ panic nil_info

  connect_info-Connects :
      (o : Outcome Info) (b : Bool) (rest : Outcome (List Info))
      → Connects b rest
      → Connects (is_ok o && b) (connect_info env o rest)
  connect_info-Connects (ok info) true rest (infos, e) =
      (add_connected env info (env.connect info) infos, rw e refl)
  connect_info-Connects (ok info) false rest e = rw e refl
  connect_info-Connects (err z) b rest c = refl
  connect_info-Connects (panic z) b rest c = refl

  connect_peers-Connects :
      (addrs : List Addr) → Connects (all_named addrs) (connect_peers env addrs)
  unfolding connect_peers
  connect_peers-Connects [] = ([], refl)
  connect_peers-Connects (addr ∷ addrs) =
      connect_info-Connects (env.addr_info addr) (all_named addrs) (connect_peers env addrs)
        (connect_peers-Connects addrs)

  abbrev pub StartOutcome : PeerId → Bool → Outcome (Gateway Info) → Type 0
  StartOutcome id true r = (g : Gateway Info) × (r ≡ ok g) × IsStarted id g
  StartOutcome id false r = r ≡ panic nil_info

  module _ (config : NodeConfig Addr) (api_key api_secret : Bytes) (id : PeerId)
      (hosts : env.new_host config.internal_port (host_seed config.secret_key) ≡ ok id)
      (gossips : env.new_gossip_sub ≡ ok tt) (joins : env.join ≡ ok tt)
      (subscribes : env.subscribe ≡ ok tt)
      (made : env.new_dht (is_nil env config.bootstrap_peers) ≡ ok tt)
      (boots : env.bootstrap ≡ ok tt) where
    running-IsStarted :
        (infos : List Info) → IsStarted id (running env id config api_key api_secret infos)
    unfolding running set_proxy_stream_handlers insert bytes_eq has view new_node
        setup_service_broadcast_listener
    running-IsStarted infos = record {
      named = refl;
      registry = record { paired = λ k. refl; keyed = λ k s h. cc; live = λ k s h. cc };
      unregistered = λ k. refl;
      handled = (refl, (refl, (refl, (refl, (refl, (refl, (refl, tt)))))));
    }

    connected-StartOutcome :
        (b : Bool)
        → Connects b (connect_peers env config.bootstrap_peers)
        → StartOutcome id b (start_gateway env config api_key api_secret)
    unfolding start_gateway
    connected-StartOutcome true (infos, e) = (
      running env id config api_key api_secret infos,
      rw (hosts, gossips, joins, subscribes) (rw (made, boots) (rw e refl)),
      running-IsStarted infos,
    )
    connected-StartOutcome false e =
        rw (hosts, gossips, joins, subscribes) (rw (made, boots) (rw e refl))

    -- Where the host, the gossip and the hash table can be set up: the gateway starts if every bootstrap address names a
    -- peer, whether or not one of them can be connected, and it then has the host's id, a consistent registry with no
    -- service, and a handler for each protocol that gateways open streams on; if one of the addresses names no peer it
    -- panics.
    pub start_gateway-StartOutcome :
        StartOutcome id
          (all_named config.bootstrap_peers)
          (start_gateway env config api_key api_secret)
    start_gateway-StartOutcome =
        connected-StartOutcome (all_named config.bootstrap_peers)
          (connect_peers-Connects config.bootstrap_peers)
