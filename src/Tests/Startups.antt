-- ===== src/Tests/Startups.antt =====
-- A gateway that starts (cmd/gateway/main.go), with one bootstrap peer that cannot be connected.
use apron_gateway_p2p.Prelude.{◌≡◌, refl, true, [], ◌∷◌, Bytes, codes, empty, ◌^◌}
use apron_gateway_p2p.Outcome.{ok, err}
use apron_gateway_p2p.Startup.{
  pos, StartEnv, NodeConfig, start_gateway, parse_flags, seed_text, key_seed,
}
use apron_gateway_p2p.Startup.Start.{StartOutcome, start_gateway-StartOutcome}

abbrev start_env : StartEnv Bytes Bytes
start_env = record {
  addr_text = λ addr. addr;
  new_multiaddr = λ text. ok text;
  parse_int = λ text. ok (pos 0);
  new_host = λ port seed. ok (codes "host");
  new_gossip_sub = ok tt;
  join = ok tt;
  subscribe = ok tt;
  new_dht = λ is_server. ok tt;
  bootstrap = ok tt;
  addr_info = λ addr. ok addr;
  connect = λ info. err (codes "connection refused");
}

abbrev start_config : NodeConfig Bytes
start_config = record {
  bootstrap_peers = codes "/ip4/10.0.0.1/tcp/2145/p2p/server" ∷ [];
  internal_port = pos 2145;
  forward_service_addr = codes ":8080";
  mgmt_addr = codes ":8082";
  socket_forward_service_addr = codes "localhost:9980";
  rendezvous = codes "ApronServiceNetwork";
  secret_key = pos 7;
  pinata_api_key = [];
  pinata_secret_key = [];
  report_interval = pos 15;
}

start_gateway-StartOutcome_example :
    StartOutcome start_env
      (codes "host")
      true
      (start_gateway start_env start_config (codes "key") [])
start_gateway-StartOutcome_example =
    start_gateway-StartOutcome start_env start_config (codes "key") [] (codes "host") refl refl refl
      refl refl refl

-- the command line with a peer
parsed :
    parse_flags start_env (start_config.bootstrap_peers) empty
    ≡ ok (record start_config { secret_key = pos 0 }, [], [])
unfolding parse_flags
parsed = refl

-- above 2^32 - 1 they do not
collision : key_seed (pos (2 ^ 32)) ≡ key_seed (pos (2 ^ 31))
unfolding seed_text
collision = refl
