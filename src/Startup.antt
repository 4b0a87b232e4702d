-- ===== src/Startup.antt =====
-- How a gateway starts: cmd/gateway/main.go, `NewNode` and `NodeAddrStr` of internal/trans_network/node.go, dht.go,
-- discover.go and config.go. The command line is given by the texts of its flags; libp2p, gossip, the hash table and
-- the parsing of numbers and addresses are parameters.
pub mod Seed
pub mod Start
use apron_gateway_p2p.Prelude.{
  ℕ, zero, suc, ◌+◌, ◌-◌, ◌/◌, ◌%◌, Bool, true, false, Option, none, some, List, [], ◌∷◌, ◌++◌,
  Bytes, codes, GoMap, empty, length, replicate, take, bytes_eq, ltb, if◌then◌else◌,
}
use apron_gateway_p2p.Outcome.{Outcome, ok, err, panic, ◌>>=◌, check_error}
use apron_gateway_p2p.Node.{Node, PeerId, new_node, setup_service_broadcast_listener}
use apron_gateway_p2p.Peers.{addr_list_set}
use apron_gateway_p2p.Gateway.Streams.{StreamHandler, set_proxy_stream_handlers}

-- Go's `int`
pub data ℤ : Type 0 where
  pos : ℕ → ℤ
  negsuc : ℕ → ℤ

-- `%b` of a number below 2^64, behind which `rest` stands
unfoldable pub binary_digits : ℕ → ℕ → Bytes → Bytes
binary_digits zero n rest = rest
binary_digits (suc fuel) n rest =
    let more = binary_digits fuel (n / 2) ((48 + n % 2) ∷ rest) in
    if ltb n 2 then (48 + n) ∷ rest else more

abbrev pub padded : ℕ → Bytes → Bytes
padded width digits = replicate (width - length digits) 48 ++ digits

-- `fmt.Sprintf("%032b", config.SecretKey)`
unfoldable pub seed_text : ℤ → Bytes
unfolding binary_digits
seed_text (pos n) = padded 32 (binary_digits 64 n [])
seed_text (negsuc n) = codes "-" ++ padded 31 (binary_digits 64 (suc n) [])

-- The seed that `crypto.GenerateEd25519Key` reads of this text: its first 32 bytes.
abbrev pub key_seed : ℤ → Bytes
key_seed key = take 32 (seed_text key)

abbrev is_zero : ℤ → Bool
is_zero (pos zero) = true
is_zero k = false

-- The seed of a host's key, or none for `rand.Reader`.
unfoldable pub host_seed : ℤ → Option Bytes
unfolding seed_text
host_seed key = if is_zero key then none else some (key_seed key)

-- `NodeConfig`, over the type of addresses
pub record NodeConfig (Addr : Type 0) : Type 0 where
  pub bootstrap_peers : List Addr
  pub internal_port : ℤ
  pub forward_service_addr : Bytes
  pub mgmt_addr : Bytes
  pub socket_forward_service_addr : Bytes
  pub rendezvous : Bytes
  pub secret_key : ℤ
  pub pinata_api_key : Bytes
  pub pinata_secret_key : Bytes
  pub report_interval : ℤ

-- the goroutines of a gateway
pub data Background : Type 0 where
  listening_on_broadcast updating_peers : Background
  discovering : Bytes → Background
  mgmt_api : Bytes → Background
  forward_service socket_forward_service : Bytes → Background
  uploading_reports : ℤ → Bytes → Bytes → Background

pub record Gateway (Info : Type 0) : Type 0 where
  pub node : Node
  pub handlers : GoMap StreamHandler
  pub bootstrapped : List Info
  pub background : List Background

abbrev pub flag_or : Bytes → Option Bytes → Bytes
flag_or default none = default
flag_or default (some text) = text

-- `multiaddr.NewMultiaddr` and `strconv` for flags; `libp2p.New` on a port and the seed of a key;
-- `NewGossipSub`, `Join` and `Subscribe`; `dht.New`, in server mode or not; `Bootstrap`;
-- `AddrInfoFromP2pAddr`; `host.Connect`
pub record StartEnv (Addr Info : Type 0) : Type 0 where
  pub addr_text : Addr → Bytes
  pub new_multiaddr : Bytes → Outcome Addr
  pub parse_int : Bytes → Outcome ℤ
  pub new_host : ℤ → Option Bytes → Outcome PeerId
  pub new_gossip_sub : Outcome (Unit {0})
  pub join : Outcome (Unit {0})
  pub subscribe : Outcome (Unit {0})
  pub new_dht : Bool → Outcome (Unit {0})
  pub bootstrap : Outcome (Unit {0})
  pub addr_info : Addr → Outcome Info
  pub connect : Info → Outcome (Unit {0})

module _ {Addr Info : Type 0} (env : StartEnv Addr Info) where
  -- each `-peers` of the command line
  unfoldable pub set_peers : List Bytes → List Addr → Outcome (List Addr)
  unfolding addr_list_set
  set_peers [] addrs = ok addrs
  set_peers (text ∷ texts) addrs =
      let (result, addrs') = addr_list_set env.addr_text env.new_multiaddr text addrs in
      result >>= λ u. set_peers texts addrs'

  abbrev int_flag : ℕ → Option Bytes → Outcome ℤ
  int_flag default none = ok (pos default)
  int_flag default (some text) = env.parse_int text

  -- `flag.Parse`: the configuration, and the keys for the IPFS agent. An error of it ends the program.
  unfoldable pub parse_flags : List Bytes → GoMap Bytes → Outcome (NodeConfig Addr × Bytes × Bytes)
  unfolding set_peers
  parse_flags peers flags = do
    addrs ← set_peers peers []
    port ← int_flag 2145 (flags (codes "p2p-port"))
    key ← int_flag 0 (flags (codes "secret-key"))
    interval ← int_flag 15 (flags (codes "report-interval"))
    let config : NodeConfig Addr = record {
      bootstrap_peers = addrs;
      internal_port = port;
      forward_service_addr = flag_or (codes ":8080") (flags (codes "service-addr"));
      mgmt_addr = flag_or (codes ":8082") (flags (codes "mgmt-addr"));
      socket_forward_service_addr =
          flag_or (codes "localhost:9980") (flags (codes "socket-service-addr"));
      rendezvous = flag_or (codes "ApronServiceNetwork") (flags (codes "rendezvous"));
      secret_key = key;
      pinata_api_key = [];
      pinata_secret_key = [];
      report_interval = interval;
    }
    ok (config, flag_or [] (flags (codes "ipfs-key")), flag_or [] (flags (codes "ipfs-secret")))

  -- `err := host.Connect(…)`, which is logged
  abbrev pub add_connected : Info → Outcome (Unit {0}) → List Info → List Info
  add_connected info (ok u) infos = info ∷ infos
  add_connected info r infos = infos

  abbrev pub connect_info : Outcome Info → Outcome (List Info) → Outcome (List Info)
  connect_info (ok info) rest = rest >>= λ infos. ok (add_connected info (env.connect info) infos)
  connect_info r rest =
      panic (codes "runtime error: invalid memory address or nil pointer dereference")

  -- The bootstrap peers that are connected, once all goroutines are done. The error of
  -- `AddrInfoFromP2pAddr` is not looked at: its goroutine panics on the nil.
  unfoldable pub connect_peers : List Addr → Outcome (List Info)
  connect_peers [] = ok []
  connect_peers (addr ∷ addrs) =
      let rest = connect_peers addrs in connect_info (env.addr_info addr) rest

  abbrev pub is_nil : List Addr → Bool
  is_nil [] = true
  is_nil (a ∷ rest) = false

  -- `NewKDHT`
  unfoldable pub new_kdht : List Addr → Outcome (List Info)
  unfolding connect_peers
  new_kdht bootstrap_peers = do
    made ← check_error (env.new_dht (is_nil bootstrap_peers))
    booted ← env.bootstrap
    connect_peers bootstrap_peers

  -- what `main` has set up behind these calls
  unfoldable pub running : PeerId → NodeConfig Addr → Bytes → Bytes → List Info → Gateway Info
  unfolding new_node setup_service_broadcast_listener set_proxy_stream_handlers
  running host_id config api_key api_secret connected = record {
    node = setup_service_broadcast_listener host_id new_node;
    handlers = set_proxy_stream_handlers empty;
    bootstrapped = connected;
    background =
        listening_on_broadcast
        ∷ updating_peers
        ∷ discovering config.rendezvous
        ∷ mgmt_api config.mgmt_addr
        ∷ forward_service config.forward_service_addr
        ∷ socket_forward_service config.socket_forward_service_addr
        ∷ uploading_reports config.report_interval api_key api_secret
        ∷ [];
  }

  -- `main`, up to its endless wait
  unfoldable pub start_gateway : NodeConfig Addr → Bytes → Bytes → Outcome (Gateway Info)
  unfolding host_seed new_kdht running
  start_gateway config api_key api_secret = do
    host_id ← check_error (env.new_host config.internal_port (host_seed config.secret_key))
    ps ← check_error env.new_gossip_sub
    topic ← check_error env.join
    sub ← check_error env.subscribe
    connected ← check_error (new_kdht config.bootstrap_peers)
    ok (running host_id config api_key api_secret connected)

-- `Discover`, over what `FindPeers` returns at each tick: the peers other than the node itself, with which nothing
-- is done
unfoldable pub discover : PeerId → List (Outcome (List PeerId)) → Outcome (Unit {0})
discover self [] = ok tt
discover self (found ∷ rounds) = do peers ← check_error found; discover self rounds

-- `NodeAddrStr`
unfoldable pub node_addr_str : List Bytes → PeerId → Outcome Bytes
node_addr_str [] id = panic (codes "runtime error: index out of range [0] with length 0")
node_addr_str (addr ∷ addrs) id = ok (addr ++ codes "/p2p/" ++ id)
