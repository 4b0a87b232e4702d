-- ===== src/Helper.antt =====
-- The agents of cmd/socket_helper/main.go, with which socket services are tried out: a client that sends
-- frames, and a service that sends back what it gets; and `RegisterServiceToSSGW` of internal/utils.go. JSON,
-- protobuf, HTTP and dialling are parameters, as is the socket that is listened on. `Commands` is the main functions
-- of the agents, `WebSocket` the service of cmd/wsbin.
pub mod Echo
pub mod Session
pub mod Registration
pub mod Commands
pub mod Announced
pub mod WebSocket
use apron_gateway_p2p.Prelude.{ℕ, zero, suc, false, List, [], ◌∷◌, ◌++◌, Bytes, codes}
use apron_gateway_p2p.Outcome.{Outcome, ok, err, panic, ◌>>=◌, check_error}
use apron_gateway_p2p.Models.{ApronService, ApronSocketInitRequest}
use apron_gateway_p2p.Wire.Frame.{IoReader, write_bytes_via_stream, read_one_frame_data_from_stream}
use apron_gateway_p2p.Socks5.Session.{bytes_or_nil}

-- the service that `registerSocketService` registers, which is its own provider
unfoldable pub socket_service : Bytes → Bytes → ApronService
socket_service service_id listen_addr = record {
  id = service_id;
  name = service_id;
  desc = [];
  logo = [];
  usage = [];
  user_id = [];
  providers =
      (record {
        id = service_id;
        name = service_id;
        desc = [];
        created_at = 0;
        updated_at = 0;
        extra_detail = [];
        base_url = listen_addr;
        schema = codes "tcp";
        network_type = 0;
      })
      ∷ [];
  is_deleted = false;
}

-- `json.Marshal` of a service, and `fasthttp.Do` of a POST request to a URI with a body: the body of the
-- response, and the state of the other side
module _ {S : Type 0} (marshal_json : ApronService → Outcome Bytes)
    (post : Bytes → Bytes → S → Outcome Bytes × S) where
  -- behind the marshalling
  unfoldable pub post_service : Bytes → Outcome Bytes → S → Outcome Bytes × S
  post_service mgmt_addr (ok body) s = post mgmt_addr body s
  post_service mgmt_addr (err e) s = (err e, s)
  post_service mgmt_addr (panic e) s = (panic e, s)

  -- `RegisterServiceToSSGW`
  unfoldable pub register_service_to_ssgw : Bytes → ApronService → S → Outcome Bytes × S
  unfolding post_service
  register_service_to_ssgw mgmt_addr service s = post_service mgmt_addr (marshal_json service) s

  -- `registerSocketService`, on whose errors the agent panics
  unfoldable pub register_socket_service : Bytes → Bytes → Bytes → S → Outcome Bytes × S
  unfolding socket_service post_service
  register_socket_service ssgw_addr listen_addr service_id s =
      let (response, s') =
        post_service ssgw_addr (marshal_json (socket_service service_id listen_addr)) s in
      (check_error response, s')

-- `startClientSideSocketAgent` up to its wait: what it writes to the gateway
unfoldable pub start_client_side_socket_agent :
    (ApronSocketInitRequest → Outcome Bytes) → Bytes → List Bytes
start_client_side_socket_agent marshal service_id = write_bytes_via_stream (
    bytes_or_nil
      (marshal (record { service_id = service_id; request_id = []; peer_id = []; user_id = [] })))

-- what the first rounds of the writing goroutine of `sendAndReceiveData` write
unfoldable pub send_data : ℕ → List Bytes
send_data zero = []
send_data (suc n) = write_bytes_via_stream (codes "hello") ++ send_data n

module _ (max_alloc : ℕ) where
  -- the data of the frames that the first rounds of a loop read, each by a reader of its own; an error
  -- panics
  unfoldable pub read_frames : ℕ → IoReader → Outcome (List Bytes)
  unfolding read_one_frame_data_from_stream
  read_frames zero rd = ok []
  read_frames (suc n) rd =
      let (frame, rd') = read_one_frame_data_from_stream max_alloc rd in
      do data_buf ← check_error frame; rest ← read_frames n rd'; ok (data_buf ∷ rest)

  -- what the first rounds of its reading goroutine read
  abbrev pub receive_data : ℕ → IoReader → Outcome (List Bytes)
  receive_data = read_frames

  -- what the first rounds of `echoRequestData` write, when none panics: the data of a frame is written as
  -- it is, with no frame
  abbrev pub echo_request_data : ℕ → IoReader → Outcome (List Bytes)
  echo_request_data = read_frames
