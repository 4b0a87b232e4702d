-- ===== src/Tests/Sides.antt =====
-- The two sides of a socket connection, with a codec for its messages (internal/trans_network).
use apron_gateway_p2p.Prelude.{
  ◌≡◌, refl, some, List, [], ◌∷◌, Bytes, codes, empty, insert, bytes_eq, arith,
}
use apron_gateway_p2p.Outcome.{ok}
use apron_gateway_p2p.Node.{new_node}
use apron_gateway_p2p.Act.{World, Stream}
use apron_gateway_p2p.Gateway.Env.{
  Env, proxy_socket_data_from_client_side, proxy_socket_data_from_service_side,
}
use apron_gateway_p2p.Gateway.Transport.{Encodes, Chunks, Sendable}
use apron_gateway_p2p.Tests.Gateways.{test_env}

abbrev pub the_id : Bytes
the_id = codes "user.aaaaaaaaaa.7"

-- an environment whose codec writes the data of a message
abbrev pub exchange_env : Env
exchange_env = record test_env {
  unmarshal_data = λ b. ok (record { request_id = the_id; raw_data = b });
}

abbrev pub same : Bytes → Bytes
same d = d

pub exchange_env-Encodes : Encodes exchange_env 1000 the_id same
exchange_env-Encodes d = (refl, refl)

-- the client side gateway with connection 7 of the client
abbrev pub client_side : World
client_side = record {
  node = record new_node { client_socket_conns = insert the_id 7 empty };
  effects = [];
}

-- the service side gateway with connection 9 to the service
abbrev pub service_side : World
service_side = record {
  node = record new_node { service_socket_conns = insert the_id 9 empty };
  effects = [];
}

pub client_side-at : client_side.node.client_socket_conns the_id ≡ some 7
unfolding insert bytes_eq
client_side-at = refl

pub service_side-at : service_side.node.service_socket_conns the_id ≡ some 9
unfolding insert bytes_eq
service_side-at = refl

abbrev pub up_stream : Stream
up_stream = record { peer = codes "server"; protocol = proxy_socket_data_from_client_side; tag = 0 }

abbrev pub down_stream : Stream
down_stream = record {
  peer = codes "client";
  protocol = proxy_socket_data_from_service_side;
  tag = 0;
}

abbrev pub two_messages : List Bytes
two_messages = codes "hello" ∷ codes "hi" ∷ []

pub two_messages-Chunks : Chunks two_messages
two_messages-Chunks = ((omega arith, omega arith), ((omega arith, omega arith), tt))

pub two_messages-Sendable : Sendable 1000 two_messages
two_messages-Sendable =
    ((omega arith, omega arith, (omega arith, omega arith, tt)), (omega arith, (omega arith, tt)))
