-- ===== src/Gateway/Env.antt =====
-- What the proxy handlers of internal/trans_network take from outside the repository: libp2p streams,
-- the protobuf codecs, fasthttp, dialling, UUIDs; and the protocol names of
-- internal/trans_network/topics.go.
use apron_gateway_p2p.Prelude.{Bool, List, Bytes, codes}
use apron_gateway_p2p.Outcome.{Outcome}
use apron_gateway_p2p.Models.{
  ApronServiceRequest, ApronServiceData, ApronSocketInitRequest, ApronSocketServiceRequest,
}
use apron_gateway_p2p.Node.{PeerId, Conn}
use apron_gateway_p2p.RequestDetail.{Request}
use apron_gateway_p2p.Act.{Stream}

abbrev pub proxy_http_init_req : Bytes
proxy_http_init_req = codes "/proxy_req/1.0"

abbrev pub proxy_ws_data_from_client_side : Bytes
proxy_ws_data_from_client_side = codes "/proxy_client_ws_data"

abbrev pub proxy_ws_data_from_service_side : Bytes
proxy_ws_data_from_service_side = codes "/proxy_service_ws_data"

abbrev pub proxy_http_resp_from_service_side : Bytes
proxy_http_resp_from_service_side = codes "/proxy_service_http_data"

abbrev pub proxy_socket_init_req : Bytes
proxy_socket_init_req = codes "/proxy_client_socket_init"

abbrev pub proxy_socket_data_from_client_side : Bytes
proxy_socket_data_from_client_side = codes "/proxy_client_socket_data"

abbrev pub proxy_socket_data_from_service_side : Bytes
proxy_socket_data_from_service_side = codes "/proxy_service_socket_data"

pub record Env : Type 0 where
  -- `(*n.Host).ID().String()`, and `peer.Decode`
  pub host_id : PeerId
  pub decode_peer : Bytes → Outcome PeerId
  -- `(*n.Host).NewStream`
  pub new_stream : PeerId → Bytes → Outcome Stream
  -- `uuid.New().String()`
  pub uuid : Bytes
  -- `proto.Marshal` and `proto.Unmarshal`
  pub marshal_request : ApronServiceRequest → Outcome Bytes
  pub unmarshal_request : Bytes → Outcome ApronServiceRequest
  pub marshal_data : ApronServiceData → Outcome Bytes
  pub unmarshal_data : Bytes → Outcome ApronServiceData
  pub unmarshal_socket_init : Bytes → Outcome ApronSocketInitRequest
  pub marshal_socket_service : ApronSocketServiceRequest → Outcome Bytes
  -- `req.Write`, `httpReq.Read`, and `websocket.FastHTTPIsWebSocketUpgrade`
  pub dump_request : Request → Outcome Bytes
  pub read_request : Bytes → Outcome Request
  pub is_websocket_upgrade : Request → Bool
  -- the connection that `upgrader.Upgrade` hands to its callback
  pub upgrade : Request → Outcome Conn
  -- `dialer.Dial` and `net.Dial("tcp", …)`
  pub dial_ws : Bytes → Outcome Conn
  pub dial_tcp : Bytes → Outcome Conn
  -- `fasthttp.Do`, from the request's URI and body to the body of the response
  pub do_request : Bytes → Request → Outcome Bytes
  -- `url.Parse` of a schema and a base URL joined with a path, and rendered with the query
  pub service_uri : Bytes → Bytes → Bytes → List (Bytes × Bytes) → Outcome Bytes
