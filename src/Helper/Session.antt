-- ===== src/Helper/Session.antt =====
-- A whole session of a client with the echo service of cmd/socket_helper/main.go: the set-up of its connection at
-- the two gateways (internal/trans_network/csgw_socket.go and node_proxy_handler.go), and its messages.
use apron_gateway_p2p.Prelude.{
  ℕ, ◌≤◌, ◌<◌, ◌^◌, ◌≡◌, refl, ap, some, List, [], ◌∷◌, ◌++◌, append-nil, Bytes, length, map,
  insert, insert_self,
}
use apron_gateway_p2p.Outcome.{Outcome, ok}
use apron_gateway_p2p.Models.{ApronService, ApronServiceProvider, ApronSocketInitRequest}
use apron_gateway_p2p.Node.{PeerId, Conn}
use apron_gateway_p2p.Wire.Frame.{
  IoReader, stream, write_bytes_via_stream, read_one_frame_data_from_stream,
}
use apron_gateway_p2p.Wire.Pieces.{read_one_frame_aligned}
use apron_gateway_p2p.Act.{World, Stream, dialed, done}
use apron_gateway_p2p.Gateway.Env.{
  Env, proxy_socket_init_req, proxy_socket_data_from_client_side,
  proxy_socket_data_from_service_side,
}
use apron_gateway_p2p.Gateway.Socket.{handle_socket_init, service_request}
use apron_gateway_p2p.Gateway.Service.{proxy_socket_init_req_handler, first_provider}
use apron_gateway_p2p.Gateway.SocketData.{set_up, handle_socket_init-set_up}
use apron_gateway_p2p.Gateway.Transport.{Chunks, Encodes, Sendable}
use apron_gateway_p2p.Helper.Echo.{echo_exchange, echo_exchange-ok}

-- the service side behind the set-up of a connection
abbrev pub connected_to : Bytes → Bytes → Conn → World → World
connected_to request_id url c v = record {
  node = record v.node { service_socket_conns = insert request_id c v.node.service_socket_conns };
  effects = v.effects ++ dialed url c ∷ [];
}

module _ (env : Env) (w v : World) (conn c : Conn) (init_bytes bytes : Bytes)
    (req : ApronSocketInitRequest) (p p' : PeerId) (s s' : ApronService)
    (q q' : ApronServiceProvider) (qs qs' : List ApronServiceProvider) (t u r : Stream)
    (max_alloc : ℕ) where
  -- the id of the connection, and the request for it as the service side reads it
  abbrev pub id : Bytes
  id = (service_request env req s).request_id

  abbrev pub announced : ApronSocketInitRequest
  announced = record { service_id = s.id; request_id = id; peer_id = env.host_id; user_id = [] }

  -- A client that connects for a service that its gateway sees, and that the service's gateway has, can
  -- talk to it: the client side gateway sets the connection up, the service side gateway reads the frame of the
  -- announcement, dials the service's first provider and keeps the connection, and then every
  -- message to an echo service comes back as it was. The codecs give back what they pack, streams
  -- open and the dial succeeds, messages are of 1 to 40960 bytes, packed messages and the announcement not
  -- empty, all can be allocated, and each write of a sender arrives as a piece of its own.
  pub echo_session :
      env.unmarshal_socket_init init_bytes ≡ ok req
      → w.node.service_peer_mapping req.service_id ≡ some p
      → w.node.services req.service_id ≡ some s
      → s.providers ≡ q ∷ qs
      → env.new_stream p proxy_socket_init_req ≡ ok t
      → env.marshal_socket_service (service_request env req s) ≡ ok bytes
      → env.new_stream p proxy_socket_data_from_client_side ≡ ok u
      → 0 < length bytes
      → length bytes < 2 ^ 64
      → length bytes ≤ max_alloc
      → env.unmarshal_socket_init bytes ≡ ok announced
      → env.decode_peer env.host_id ≡ ok p'
      → v.node.services s.id ≡ some s'
      → s'.providers ≡ q' ∷ qs'
      → env.dial_tcp q'.base_url ≡ ok c
      → env.new_stream p' proxy_socket_data_from_service_side ≡ ok r
      → (encode : Bytes → Bytes) → Encodes env max_alloc id encode
      → (ds : List Bytes) → Chunks ds
      → Sendable max_alloc ds
      → Sendable max_alloc (map encode ds)
      → (handle_socket_init env conn (ok init_bytes) w ≡ (done (id, u), set_up id conn t bytes u w))
        × (proxy_socket_init_req_handler env
              (read_one_frame_data_from_stream max_alloc (stream (write_bytes_via_stream bytes))).0
              v
            ≡ (done (ok r), connected_to id q'.base_url c v))
        × (echo_exchange max_alloc env id conn c u r
              (set_up id conn t bytes u w)
              (connected_to id q'.base_url c v)
              ds
            ≡ ok ds)
  unfolding proxy_socket_init_req_handler first_provider
  echo_session parses at_peer at_service provider opens marshals opens_data pos short fits reads
        decodes at_home provider' dials answers encode encodes ds chunks sendable packed =
      let frame =
        rw (append-nil (write_bytes_via_stream bytes)) at
          (read_one_frame_aligned max_alloc bytes [] pos short fits) in
      (
        handle_socket_init-set_up env w conn init_bytes req p s q qs t u bytes parses at_peer
            at_service provider opens marshals opens_data,
        rw (ap (λ (x : Outcome Bytes × IoReader). x.0) frame, reads, decodes, at_home)
            (simp provider' (rw (dials, answers) refl)),
        echo_exchange-ok max_alloc env id conn c u r encode (set_up id conn t bytes u w)
            (connected_to id q'.base_url c v) ds encodes
            (insert_self id c v.node.service_socket_conns)
            (insert_self id conn w.node.client_socket_conns) chunks sendable packed,
      )
