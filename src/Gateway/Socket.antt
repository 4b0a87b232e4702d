-- ===== src/Gateway/Socket.antt =====
-- internal/trans_network/csgw_socket.go: a client's socket connection at the gateway that it connects
-- to. The handler is cut where it waits: the set-up, then one round of the read loop.
use apron_gateway_p2p.Prelude.{
  ℕ, zero, suc, ◌-◌, Bool, true, false, Option, none, some, List, [], ◌∷◌, ◌++◌, Bytes, codes,
  insert, length, replicate, bytes_eq, ltb, if◌then◌else◌,
}
use apron_gateway_p2p.Outcome.{Outcome, ok, err, panic}
use apron_gateway_p2p.Models.{
  ApronService, ApronServiceProvider, ApronSocketInitRequest, ApronSocketServiceRequest,
}
use apron_gateway_p2p.Node.{PeerId, Conn}
use apron_gateway_p2p.RequestId.{new_request_id}
use apron_gateway_p2p.Wire.BigEndian.{be_value}
use apron_gateway_p2p.Wire.Bufio.{Reader, read_some, read_full, eof}
use apron_gateway_p2p.Wire.Frame.{IoReader, stream, new_reader, read_one_frame_data_from_stream}
use apron_gateway_p2p.Act.{
  Act, Stream, opened, wrote_conn, closed, pure, ◌>>=◌, ◌>>◌, stop, checked, get_node, put_node,
  emit, write_frame,
}
use apron_gateway_p2p.Gateway.Env.{Env, proxy_socket_init_req, proxy_socket_data_from_client_side}
use apron_gateway_p2p.Gateway.Http.{register_request_id}

-- `conn.Write(message)` and `return`
abbrev pub refuse {ℓ} : {A : Type ℓ} → Conn → Bytes → Act A
refuse conn message = do emit (wrote_conn conn message); stop

-- the buffer of `msgLen` zero bytes behind one `Read` into it
unfoldable pub read_into : ℕ → Option Bytes × Reader → Outcome Bytes
read_into msg_len (none, r) = err eof
read_into msg_len (some c, r) = ok (c ++ replicate (msg_len - length c) 0)

-- behind `binary.Read(r, binary.BigEndian, &msgLen)`
unfoldable pub read_init_body : ℕ → Outcome Bytes × Reader → Outcome Bytes
unfolding read_into
read_init_body max_alloc (ok head, r) =
    let msg_len = be_value 0 head in
    if ltb max_alloc msg_len
    then panic (codes "runtime error: makeslice: len out of range")
    else read_into msg_len (read_some msg_len r)
read_init_body max_alloc (err e, r) = err e
read_init_body max_alloc (panic e, r) = panic e

-- the bytes of the init request, read from the connection by a `bufio.Reader` and one `Read`
unfoldable pub read_init_request : ℕ → List Bytes → Outcome Bytes
unfolding read_init_body read_some read_full
read_init_request max_alloc pieces =
    read_init_body max_alloc (read_full 8 (new_reader (stream pieces)))

unfoldable pub require_peer : Conn → Option PeerId → Act PeerId
require_peer conn none = refuse conn (codes "ClientSideGateway: Service not found")
require_peer conn (some p) = pure p

unfoldable pub require_service : Conn → Option ApronService → Act ApronService
require_service conn none =
    refuse conn (codes "ClientSideGateway: Service data missing, contract help")
require_service conn (some s) = pure s

unfoldable pub require_providers : Conn → List ApronServiceProvider → Act (Unit {0})
require_providers conn [] =
    refuse conn (codes "ClientSideGateway: Service data error, contract help")
require_providers conn (p ∷ ps) = pure tt

-- an error of `NewStream` is logged
unfoldable pub require_stream : Outcome Stream → Act Stream
require_stream (ok s) = do emit (opened s); pure s
require_stream (err e) = stop
require_stream (panic e) = checked (panic e)

module _ (env : Env) where
  abbrev pub service_request : ApronSocketInitRequest → ApronService → ApronSocketServiceRequest
  service_request init service = record {
    service_id = service.id;
    request_id = new_request_id init.user_id service.id env.uuid;
    peer_id = env.host_id;
  }

  -- behind the look-ups: announce the connection to the service side and keep it
  unfoldable pub connect : Conn → PeerId → ApronSocketServiceRequest → Act Stream
  unfolding require_stream
  connect conn service_peer_id req = do
    register_request_id req.request_id
    init_stream ← require_stream (env.new_stream service_peer_id proxy_socket_init_req)
    req_bytes ← checked (env.marshal_socket_service req)
    write_frame init_stream req_bytes
    data_stream ← require_stream (env.new_stream service_peer_id proxy_socket_data_from_client_side)
    n ← get_node
    put_node (record n { client_socket_conns = insert req.request_id conn n.client_socket_conns })
    pure data_stream

  -- The goroutine of `StartSocketForwardService` for an accepted connection, from the bytes read, up to
  -- its endless wait: the request id and the stream for the client's data.
  unfoldable pub handle_socket_init : Conn → Outcome Bytes → Act (Bytes × Stream)
  unfolding require_peer require_service require_providers connect
  handle_socket_init conn init_bytes = do
    bytes ← checked init_bytes
    init ← checked (env.unmarshal_socket_init bytes)
    n ← get_node
    service_peer_id ← require_peer conn (n.service_peer_mapping init.service_id)
    service ← require_service conn (n.services init.service_id)
    require_providers conn service.providers
    let req = service_request init service
    data_stream ← connect conn service_peer_id req
    pure (req.request_id, data_stream)

  -- one round of the loop over the client's frames; `true` goes on
  unfoldable pub forward_client_frame : Conn → Bytes → Stream → Outcome Bytes → Act Bool
  forward_client_frame conn request_id data_stream (ok content) = do
    bytes ← checked (env.marshal_data (record { request_id = request_id; raw_data = content }))
    write_frame data_stream bytes
    pure true
  forward_client_frame conn request_id data_stream (err e) =
      if bytes_eq e eof then (do emit (closed conn); pure false) else pure true
  forward_client_frame conn request_id data_stream (panic e) = checked (panic e)

  -- The first `turns` rounds of that loop, each of which makes a reader of its own; a `break` ends it.
  unfoldable pub forward_client_frames : ℕ → Conn → Bytes → Stream → ℕ → IoReader → Act (Unit {0})
  unfolding forward_client_frame read_one_frame_data_from_stream
  forward_client_frames max_alloc conn request_id data_stream zero rd = pure tt
  forward_client_frames max_alloc conn request_id data_stream (suc n) rd =
      let (frame, rd') = read_one_frame_data_from_stream max_alloc rd in
      do
        goes_on ← forward_client_frame conn request_id data_stream frame
        if goes_on
            then forward_client_frames max_alloc conn request_id data_stream n rd'
            else pure tt
