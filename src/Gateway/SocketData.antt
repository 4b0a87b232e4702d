-- ===== src/Gateway/SocketData.antt =====
-- A client's socket connection at the client side gateway, from its init request to the data that comes
-- back for it (internal/trans_network/csgw_socket.go and node_proxy_handler.go).
use apron_gateway_p2p.Prelude.{
  ◌≡◌, refl, bytes_eq, some, List, [], ◌∷◌, ◌++◌, Bytes, map, insert, insert_self,
}
use apron_gateway_p2p.Outcome.{ok}
use apron_gateway_p2p.Models.{ApronService, ApronServiceProvider, ApronSocketInitRequest}
use apron_gateway_p2p.Node.{PeerId, Conn}
use apron_gateway_p2p.Wire.Frame.{data_ch, write_bytes_via_stream}
use apron_gateway_p2p.Act.{World, Stream, opened, wrote, wrote_conn, done}
use apron_gateway_p2p.Gateway.Env.{
  Env, proxy_socket_init_req, proxy_socket_data_from_client_side,
  proxy_socket_data_from_service_side,
}
use apron_gateway_p2p.Gateway.Socket.{handle_socket_init, service_request}
use apron_gateway_p2p.Gateway.Service.{proxy_socket_data_handler}
use apron_gateway_p2p.Gateway.Routing.{add_effects}

-- the world behind the set-up of a connection
abbrev pub set_up : Bytes → Conn → Stream → Bytes → Stream → World → World
set_up request_id conn t bytes u w = record {
  node = record w.node {
    request_id_chan_mapping = insert request_id tt w.node.request_id_chan_mapping;
    client_socket_conns = insert request_id conn w.node.client_socket_conns;
  };
  effects =
      w.effects ++ opened t ∷ [] ++ map (wrote t) (write_bytes_via_stream bytes) ++ opened u ∷ [];
}

module _ (env : Env) (w : World) (conn : Conn) (init_bytes : Bytes) (req : ApronSocketInitRequest)
    (p : PeerId) (s : ApronService) (q : ApronServiceProvider) (qs : List ApronServiceProvider)
    (t u : Stream) (bytes : Bytes) (parses : env.unmarshal_socket_init init_bytes ≡ ok req)
    (at_peer : w.node.service_peer_mapping req.service_id ≡ some p)
    (at_service : w.node.services req.service_id ≡ some s) (provider : s.providers ≡ q ∷ qs)
    (opens : env.new_stream p proxy_socket_init_req ≡ ok t)
    (encodes : env.marshal_socket_service (service_request env req s) ≡ ok bytes)
    (opens_data : env.new_stream p proxy_socket_data_from_client_side ≡ ok u) where
  abbrev pub request_id : Bytes
  request_id = (service_request env req s).request_id

  pub handle_socket_init-set_up :
      handle_socket_init env conn (ok init_bytes) w
      ≡ (done (request_id, u), set_up request_id conn t bytes u w)
  unfolding handle_socket_init
  handle_socket_init-set_up =
      rw (parses, at_peer, at_service) (simp provider (rw (opens, encodes, opens_data) refl))

  -- Where each call of a library succeeds: a client's connection for a service that the node sees,
  -- with a provider, is announced to the service's peer and kept under the new request id; data
  -- that the service side then sends under that id is framed to this very connection.
  pub socket_set_up_delivers :
      (data_bytes content : Bytes)
      → env.unmarshal_data data_bytes ≡ ok (record { request_id = request_id; raw_data = content })
      → (handle_socket_init env conn (ok init_bytes) w
          ≡ (done (request_id, u), set_up request_id conn t bytes u w))
        × (proxy_socket_data_handler env proxy_socket_data_from_service_side
              (data_ch data_bytes)
              (set_up request_id conn t bytes u w)
            ≡ (
              done tt,
              add_effects
                  (set_up request_id conn t bytes u w)
                  (map (wrote_conn conn) (write_bytes_via_stream content)),
            ))
  unfolding proxy_socket_data_handler bytes_eq
  socket_set_up_delivers data_bytes content decodes = (
    handle_socket_init-set_up,
    rw decodes (rw (insert_self request_id conn w.node.client_socket_conns) refl),
  )
