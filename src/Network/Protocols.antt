-- ===== src/Network/Protocols.antt =====
-- Which message goes on which protocol: what `SetProxyStreamHandlers` of internal/trans_network/node_proxy_handler.go
-- hands a frame to gets back.
use apron_gateway_p2p.Prelude.{
  ℕ, ◌==◌, ◌≡◌, refl, sym, ap, ◌∙◌, Bool, true, Option, none, some, List, [], ◌∷◌, Bytes, empty,
  insert, bytes_eq, All, if◌then◌else◌,
}
use mathlib.Core.Path.{subst}
use apron_gateway_p2p.Outcome.{ok}
use apron_gateway_p2p.Models.{
  ApronServiceRequest, ApronServiceData, ApronSocketInitRequest, ApronSocketServiceRequest,
}
use apron_gateway_p2p.Node.{PeerId}
use apron_gateway_p2p.Act.{Stream}
use apron_gateway_p2p.Act.Frames.{Frame}
use apron_gateway_p2p.Gateway.Env.{
  Env, proxy_http_init_req, proxy_ws_data_from_client_side, proxy_ws_data_from_service_side,
  proxy_http_resp_from_service_side, proxy_socket_init_req, proxy_socket_data_from_client_side,
  proxy_socket_data_from_service_side,
}
use apron_gateway_p2p.Gateway.Streams.{
  StreamHandler, http_init_handler, ws_data_handler, http_resp_handler, socket_init_handler,
  socket_data_handler, set_proxy_stream_handlers,
}
use apron_gateway_p2p.Gateway.Tasks.{Opened}

-- a text field on the wire: its number, and its bytes
abbrev pub Field : Type 0
Field = ℕ × Bytes

-- an empty text is not packed
abbrev put_field : ℕ → Bytes → List Field → List Field
put_field number [] fields = fields
put_field number (c ∷ cs) fields = (number, c ∷ cs) ∷ fields

-- the fields that an `ApronSocketServiceRequest` is packed as, by its numbers
abbrev pub socket_service_fields : ApronSocketServiceRequest → List Field
socket_service_fields m =
    put_field 1 m.service_id (put_field 2 m.request_id (put_field 3 m.peer_id []))

-- the last text under a number, or the empty text
unfoldable pub text_at : ℕ → Bytes → List Field → Bytes
text_at number text [] = text
text_at number text ((n, t) ∷ fields) = text_at number (if n == number then t else text) fields

-- what fields are unpacked to as an `ApronSocketInitRequest`, by its numbers
abbrev pub socket_init_of_fields : List Field → ApronSocketInitRequest
socket_init_of_fields fields = record {
  service_id = text_at 1 [] fields;
  request_id = text_at 2 [] fields;
  peer_id = text_at 3 [] fields;
  user_id = text_at 4 [] fields;
}

-- the first three fields of the init request, and no user
abbrev pub as_init_request : ApronSocketServiceRequest → ApronSocketInitRequest
as_init_request m = record {
  service_id = m.service_id;
  request_id = m.request_id;
  peer_id = m.peer_id;
  user_id = [];
}

socket_texts :
    (service request peer : Bytes)
    → socket_init_of_fields (
        socket_service_fields
          (record { service_id = service; request_id = request; peer_id = peer }))
      ≡ record { service_id = service; request_id = request; peer_id = peer; user_id = [] }
unfolding text_at
socket_texts [] [] [] = refl
socket_texts [] [] (p ∷ ps) = refl
socket_texts [] (r ∷ rs) [] = refl
socket_texts [] (r ∷ rs) (p ∷ ps) = refl
socket_texts (s ∷ ss) [] [] = refl
socket_texts (s ∷ ss) [] (p ∷ ps) = refl
socket_texts (s ∷ ss) (r ∷ rs) [] = refl
socket_texts (s ∷ ss) (r ∷ rs) (p ∷ ps) = refl

-- that the bytes are a message of the sender's which a handler gets back, but for the request for a
-- socket: it is packed as `ApronSocketServiceRequest` and unpacked as `ApronSocketInitRequest`
abbrev pub Decodes : Env → Env → Option StreamHandler → Bytes → Type 0
Decodes sender env none b = ⊥
Decodes sender env (some http_init_handler) b =
    (m : ApronServiceRequest) × (sender.marshal_request m ≡ ok b) × (env.unmarshal_request b ≡ ok m)
Decodes sender env (some socket_init_handler) b =
    (m : ApronSocketServiceRequest) × (sender.marshal_socket_service m ≡ ok b)
    × (env.unmarshal_socket_init b ≡ ok (as_init_request m))
Decodes sender env (some ws_data_handler) b =
    (d : ApronServiceData) × (sender.marshal_data d ≡ ok b) × (env.unmarshal_data b ≡ ok d)
Decodes sender env (some http_resp_handler) b =
    (d : ApronServiceData) × (sender.marshal_data d ≡ ok b) × (env.unmarshal_data b ≡ ok d)
Decodes sender env (some socket_data_handler) b =
    (d : ApronServiceData) × (sender.marshal_data d ≡ ok b) × (env.unmarshal_data b ≡ ok d)

-- and the one that a gateway has for the stream's protocol
abbrev pub Understood : Env → Env → Frame → Type 0
Understood sender env (t, b) = Decodes sender env (set_proxy_stream_handlers empty t.protocol) b

-- Streams are of the protocol that they are opened for; a gateway's `proto.Unmarshal` gives back what
-- another's `proto.Marshal` has made of a message of its type. Of a message of text fields
-- `proto.Marshal` packs those that are not empty by their numbers, if all are UTF-8, and `proto.Unmarshal`
-- of such fields, whichever message they were packed from, sets its own fields by their numbers.
pub record Compatible (env receiver : Env) : Type 0 where
  pub streams :
      (p : PeerId) (protocol : Bytes) (t : Stream)
      → env.new_stream p protocol ≡ ok t
      → t.protocol ≡ protocol
  pub requests :
      (m : ApronServiceRequest) (b : Bytes)
      → env.marshal_request m ≡ ok b
      → receiver.unmarshal_request b ≡ ok m
  pub contents :
      (d : ApronServiceData) (b : Bytes)
      → env.marshal_data d ≡ ok b
      → receiver.unmarshal_data b ≡ ok d
  pub wire : List Field → Bytes
  pub is_utf8 : Bytes → Bool
  pub packs :
      (m : ApronSocketServiceRequest) (b : Bytes)
      → env.marshal_socket_service m ≡ ok b
      → (b ≡ wire (socket_service_fields m))
        × All (λ (f : Field). is_utf8 f.1 ≡ true) (socket_service_fields m)
  pub unpacks :
      (fields : List Field)
      → All (λ (f : Field). is_utf8 f.1 ≡ true) fields
      → receiver.unmarshal_socket_init (wire fields) ≡ ok (socket_init_of_fields fields)

module _ (env receiver : Env) (c : Compatible env receiver) where
  -- A request for a socket that is packed is unpacked by the other type.
  sockets :
      (m : ApronSocketServiceRequest) (b : Bytes)
      → env.marshal_socket_service m ≡ ok b
      → receiver.unmarshal_socket_init b ≡ ok (as_init_request m)
  sockets m b e =
      let (packed, texts) = c.packs m b e in
      ap receiver.unmarshal_socket_init packed
      ∙ c.unpacks (socket_service_fields m) texts
      ∙ ap ok (socket_texts m.service_id m.request_id m.peer_id)

  module _ (protocol : Bytes) (h : StreamHandler)
      (handled : set_proxy_stream_handlers empty protocol ≡ some h) where
    -- a frame on a stream of a protocol whose handler takes it
    on_protocol :
        (t : Stream) (p : PeerId) (b : Bytes)
        → env.new_stream p protocol ≡ ok t
        → Decodes env receiver (some h) b
        → Understood env receiver (t, b)
    on_protocol t p b opens d =
        let at_t : set_proxy_stream_handlers empty t.protocol ≡ some h =
          ap (set_proxy_stream_handlers empty) (c.streams p protocol t opens) ∙ handled in
        subst (λ (o : Option StreamHandler). Decodes env receiver o b) (sym at_t) d

  module _ (t : Stream) (p : PeerId) (b : Bytes) where
    pub request-Understood :
        (m : ApronServiceRequest)
        → env.new_stream p proxy_http_init_req ≡ ok t
        → env.marshal_request m ≡ ok b
        → Understood env receiver (t, b)
    unfolding set_proxy_stream_handlers insert bytes_eq
    request-Understood m opens e =
        on_protocol proxy_http_init_req http_init_handler refl t p b opens (m, e, c.requests m b e)

    pub response-Understood :
        (d : ApronServiceData)
        → env.new_stream p proxy_http_resp_from_service_side ≡ ok t
        → env.marshal_data d ≡ ok b
        → Understood env receiver (t, b)
    unfolding set_proxy_stream_handlers insert bytes_eq
    response-Understood d opens e =
        on_protocol proxy_http_resp_from_service_side http_resp_handler refl t p b opens
          (d, e, c.contents d b e)

    pub socket_init-Understood :
        (m : ApronSocketServiceRequest)
        → env.new_stream p proxy_socket_init_req ≡ ok t
        → env.marshal_socket_service m ≡ ok b
        → Understood env receiver (t, b)
    unfolding set_proxy_stream_handlers insert bytes_eq
    socket_init-Understood m opens e =
        on_protocol proxy_socket_init_req socket_init_handler refl t p b opens (m, e, sockets m b e)

  -- the four protocols for data both ways
  pub ws_client-Understood :
      (o : Opened env proxy_ws_data_from_client_side) (d : ApronServiceData) (b : Bytes)
      → env.marshal_data d ≡ ok b
      → Understood env receiver (o.0, b)
  unfolding set_proxy_stream_handlers insert bytes_eq
  ws_client-Understood (t, p, opens) d b e =
      on_protocol proxy_ws_data_from_client_side ws_data_handler refl t p b opens
        (d, e, c.contents d b e)

  pub ws_service-Understood :
      (o : Opened env proxy_ws_data_from_service_side) (d : ApronServiceData) (b : Bytes)
      → env.marshal_data d ≡ ok b
      → Understood env receiver (o.0, b)
  unfolding set_proxy_stream_handlers insert bytes_eq
  ws_service-Understood (t, p, opens) d b e =
      on_protocol proxy_ws_data_from_service_side ws_data_handler refl t p b opens
        (d, e, c.contents d b e)

  pub socket_client-Understood :
      (o : Opened env proxy_socket_data_from_client_side) (d : ApronServiceData) (b : Bytes)
      → env.marshal_data d ≡ ok b
      → Understood env receiver (o.0, b)
  unfolding set_proxy_stream_handlers insert bytes_eq
  socket_client-Understood (t, p, opens) d b e =
      on_protocol proxy_socket_data_from_client_side socket_data_handler refl t p b opens
        (d, e, c.contents d b e)

  pub socket_service-Understood :
      (o : Opened env proxy_socket_data_from_service_side) (d : ApronServiceData) (b : Bytes)
      → env.marshal_data d ≡ ok b
      → Understood env receiver (o.0, b)
  unfolding set_proxy_stream_handlers insert bytes_eq
  socket_service-Understood (t, p, opens) d b e =
      on_protocol proxy_socket_data_from_service_side socket_data_handler refl t p b opens
        (d, e, c.contents d b e)
