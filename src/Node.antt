-- ===== src/Node.antt =====
-- The state of a gateway node: `Node` and `NewNode` of internal/trans_network/node.go. Peers are their
-- ids; a connection is a number that stands for it; a channel is there or not. The libp2p host, the
-- pubsub handles, the configuration, the mutex and the logger hold no state that the code reads back.
use apron_gateway_p2p.Prelude.{ℕ, List, [], Bytes, GoMap, empty}
use apron_gateway_p2p.Models.{ApronService}
use apron_gateway_p2p.Usage.{UsageRecordManager, init}

abbrev pub PeerId : Type 0
PeerId = Bytes

abbrev pub Conn : Type 0
Conn = ℕ

pub record Node : Type 0 where
  pub self_id : PeerId
  pub services : GoMap ApronService
  pub named_services : GoMap (List ApronService)
  pub service_peer_mapping : GoMap PeerId
  pub request_id_chan_mapping : GoMap (Unit {0})
  pub client_ws_conns : GoMap Conn
  pub service_ws_conns : GoMap Conn
  pub client_socket_conns : GoMap Conn
  pub service_socket_conns : GoMap Conn
  pub client_http_data_chan : GoMap (Unit {0})
  pub service_usage_record_manager : UsageRecordManager

-- `NewNode`; `selfID` is set by `SetupServiceBroadcastListener`
unfoldable pub new_node : Node
unfolding init
new_node = record {
  self_id = [];
  services = empty;
  named_services = empty;
  service_peer_mapping = empty;
  request_id_chan_mapping = empty;
  client_ws_conns = empty;
  service_ws_conns = empty;
  client_socket_conns = empty;
  service_socket_conns = empty;
  client_http_data_chan = empty;
  service_usage_record_manager = init;
}

-- `n.selfID = (*n.Host).ID()` of `SetupServiceBroadcastListener`
unfoldable pub setup_service_broadcast_listener : PeerId → Node → Node
setup_service_broadcast_listener host_id n = record n { self_id = host_id }
