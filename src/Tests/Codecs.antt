-- ===== src/Tests/Codecs.antt =====
-- A codec of the messages of proto/models.proto, and gateways of internal/trans_network that use it.
use apron_gateway_p2p.Prelude.{
  ℕ, zero, suc, ◌≡◌, refl, false, [], ◌∷◌, List, ◌++◌, Bytes, codes, length, take, drop, get_or, ap,
  ◌∙◌, take-length-append, drop-length-append, true, Bool,
}
use apron_gateway_p2p.Outcome.{Outcome, ok, err, panic}
use apron_gateway_p2p.Models.{
  ApronServiceRequest, ApronServiceData, ApronSocketInitRequest, ApronSocketServiceRequest,
}
use apron_gateway_p2p.RequestDetail.{Request}
use apron_gateway_p2p.Network.Protocols.{Field, socket_service_fields, socket_init_of_fields}
use apron_gateway_p2p.Gateway.Env.{Env}
use apron_gateway_p2p.Tests.Gateways.{test_env}
use apron_gateway_p2p.Tests.Paths.{get_at, readme_path}

-- a codec of messages: each part behind its length
abbrev pub joined : Bytes → Bytes → Bytes
joined s rest = length s ∷ s ++ rest

abbrev pub flag : Bool → ℕ
flag true = 1
flag false = 0

abbrev pub flagged : ℕ → Bool
flagged zero = false
flagged (suc n) = true

abbrev pub split_at : ℕ → Bytes → Bytes × Bytes
split_at n bytes = (take n bytes, drop n bytes)

abbrev pub first_part : Bytes → Outcome (Bytes × Bytes)
first_part [] = err []
first_part (n ∷ bytes) = ok (split_at n bytes)

abbrev pub and_first :
    {A : Type 0} → Outcome (Bytes × Bytes) → (Bytes → Bytes → Outcome A) → Outcome A
and_first (ok (s, rest)) f = f s rest
and_first (err e) f = err e
and_first (panic e) f = err e

abbrev pub encode_data : ApronServiceData → Bytes
encode_data d = joined d.request_id d.raw_data

abbrev pub decode_data : Bytes → Outcome ApronServiceData
decode_data bytes =
    and_first (first_part bytes) (λ id content. ok (record { request_id = id; raw_data = content }))

abbrev pub encode_request : ApronServiceRequest → Bytes
encode_request m =
    joined m.service_id
      (joined m.request_id (joined m.peer_id (joined (flag m.is_ws_request ∷ []) m.raw_request)))

abbrev pub is_flagged : Bytes → Bool
is_flagged [] = false
is_flagged (n ∷ ns) = flagged n

abbrev pub decode_request : Bytes → Outcome ApronServiceRequest
decode_request bytes = and_first (first_part bytes) λ service rest.
    and_first (first_part rest) λ id rest'. and_first (first_part rest') λ peer rest''.
      and_first (first_part rest'') (λ ws raw. ok (record {
        service_id = service;
        request_id = id;
        peer_id = peer;
        is_ws_request = is_flagged ws;
        raw_request = raw;
      }))

pub decode_data-encode_data : (d : ApronServiceData) → decode_data (encode_data d) ≡ ok d
decode_data-encode_data d =
    rw (take-length-append d.request_id d.raw_data, drop-length-append d.request_id d.raw_data) refl

is_flagged-flag : (b : Bool) → is_flagged (flag b ∷ []) ≡ b
is_flagged-flag true = refl
is_flagged-flag false = refl

pub decode_request-encode_request :
    (m : ApronServiceRequest) → decode_request (encode_request m) ≡ ok m
decode_request-encode_request m = simp (take-length-append, drop-length-append, is_flagged-flag)

-- text fields: how many there are, and the number, the length and the bytes of each
abbrev put_fields : List Field → Bytes
put_fields [] = []
put_fields ((n, t) ∷ fields) = n ∷ length t ∷ (t ++ put_fields fields)

abbrev pub wire_of : List Field → Bytes
wire_of fields = length fields ∷ put_fields fields

abbrev fields_in : ℕ → Bytes → List Field
fields_in zero bs = []
fields_in (suc n) bs =
    let size = get_or bs 1 0 in
    (get_or bs 0 0, take size (drop 2 bs)) ∷ fields_in n (drop size (drop 2 bs))

fields_in-put_fields :
    (fields : List Field) → fields_in (length fields) (put_fields fields) ≡ fields
fields_in-put_fields [] = refl
fields_in-put_fields ((n, t) ∷ fields) =
    let rest : Bytes = put_fields fields in
    let more =
      ap (fields_in (length fields)) (drop-length-append t rest) ∙ fields_in-put_fields fields in
    λ i. (n, take-length-append t rest i) ∷ more i

abbrev pub encode_socket : ApronSocketServiceRequest → Bytes
encode_socket m = wire_of (socket_service_fields m)

abbrev pub decode_socket : Bytes → Outcome ApronSocketInitRequest
decode_socket bytes = ok (socket_init_of_fields (fields_in (get_or bytes 0 0) (drop 1 bytes)))

pub decode_socket-wire_of :
    (fields : List Field) → decode_socket (wire_of fields) ≡ ok (socket_init_of_fields fields)
decode_socket-wire_of fields =
    ap (λ (fs : List Field). ok (socket_init_of_fields fs)) (fields_in-put_fields fields)

abbrev pub asked_for : Bytes → Request
asked_for body = record (get_at readme_path) { body = body }

abbrev pub net_env : Env
net_env = record test_env {
  marshal_request = λ m. ok (encode_request m);
  unmarshal_request = decode_request;
  marshal_data = λ d. ok (encode_data d);
  unmarshal_data = decode_data;
  marshal_socket_service = λ m. ok (encode_socket m);
  unmarshal_socket_init = decode_socket;
  dump_request = λ r. ok r.body;
  read_request = λ b. ok (asked_for b);
  do_request = λ uri r. ok (codes "OK " ++ r.body);
}
