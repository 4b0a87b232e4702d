-- ===== src/Tests/Socks.antt =====
-- A SOCKS5 request, through internal/ext_protocols/socks5.
use apron_gateway_p2p.Prelude.{
  ◌≡◌, refl, ◌<◌, none, some, List, [], ◌∷◌, ◌++◌, Bytes, codes, map, length, arith,
}
use apron_gateway_p2p.Outcome.{ok, err}
use apron_gateway_p2p.Node.{Conn}
use apron_gateway_p2p.RequestId.{new_request_id}
use apron_gateway_p2p.Wire.Frame.{write_bytes_via_stream}
use apron_gateway_p2p.Socks5.Const.{ApronSocks5ConnectRequest}
use apron_gateway_p2p.Socks5.Client.{build_socks5_connect_request}
use apron_gateway_p2p.Socks5.Service.{auth_request, connect_request}
use apron_gateway_p2p.Socks5.Agent.{AgentEnv, send_connect_message}
use apron_gateway_p2p.Socks5.Yields.{AreBytes, Yields}
use apron_gateway_p2p.Socks5.Bounds.{Fits, build_socks5_connect_request-Fits}
use apron_gateway_p2p.Socks5.Session.{
  Shared, CsgwEnv, to_gateway, to_client, connect_to_csgw_and_send_init_request, add_writes,
  serve_client_request, socks5_success, proxy_data_conn,
}
use apron_gateway_p2p.Socks5.Crossing.{Step, connect, step, run_steps, serve_client_request-last}
use apron_gateway_p2p.Socks5.Handshake.{holds, fresh, build_socks5_connect_request-connect_request}

abbrev web_request : ApronSocks5ConnectRequest
web_request = record {
  version = 5;
  command = 1;
  dest_addr = codes "apron.network";
  dest_port = 443;
}

build_socks5_connect_request-connect_request_example :
    build_socks5_connect_request
      (λ ip. ip)
      (fresh [] (auth_request ∷ (connect_request web_request ++ codes "GET") ∷ []))
    ≡ (ok (web_request, 5 ∷ 0 ∷ []), holds [] (codes "GET"))
build_socks5_connect_request-connect_request_example =
    build_socks5_connect_request-connect_request [] (λ ip. ip) web_request (codes "GET")
      (omega arith) (omega arith) (unfold connect_request in omega arith)

some_text_short : (ip : Bytes) → length (codes "0.0.0.0") < 256
some_text_short ip = omega arith

client_bytes : AreBytes (5 ∷ 1 ∷ 0 ∷ 5 ∷ 1 ∷ 0 ∷ 1 ∷ 0 ∷ 0 ∷ 0 ∷ 0 ∷ 1 ∷ 187 ∷ [])
client_bytes = (
  omega arith,
  (
    omega arith,
    (
      omega arith,
      (
        omega arith,
        (
          omega arith,
          (
            omega arith,
            (
              omega arith,
              (
                omega arith,
                (omega arith, (omega arith, (omega arith, (omega arith, (omega arith, tt))))),
              ),
            ),
          ),
        ),
      ),
    ),
  ),
)

build_socks5_connect_request-Fits_example : Yields Fits (
    build_socks5_connect_request
      (λ ip. codes "0.0.0.0")
      (holds [] (5 ∷ 1 ∷ 0 ∷ 5 ∷ 1 ∷ 0 ∷ 1 ∷ 0 ∷ 0 ∷ 0 ∷ 0 ∷ 1 ∷ 187 ∷ [])))
build_socks5_connect_request-Fits_example =
    build_socks5_connect_request-Fits (λ ip. codes "0.0.0.0") some_text_short
      (holds [] (5 ∷ 1 ∷ 0 ∷ 5 ∷ 1 ∷ 0 ∷ 1 ∷ 0 ∷ 0 ∷ 0 ∷ 0 ∷ 1 ∷ 187 ∷ [])) client_bytes

abbrev dials : Conn → CsgwEnv
dials c = record { lookup_env = none; dial = ok c; uuid = codes "7"; marshal_init = λ r. ok [] }

-- an agent that writes the content of a message, and of a connect request its address
abbrev plain_agent : AgentEnv
plain_agent = record {
  uuid = codes "7";
  marshal = λ d. ok d.content;
  unmarshal = λ bs. err bs;
  encode_connect = λ r. ok r.dest_addr;
  decode_connect = λ bs. err bs;
  connect = λ r. ok 3;
}

-- two clients: the second connects to the gateway before the first has sent its request
abbrev two_clients : List Step
two_clients = connect (dials 1) ∷ connect (dials 2) ∷ []

abbrev no_session : Shared
no_session = record { remote = none; wrote = [] }

abbrev both_connected : Shared
both_connected = record {
  remote = some 2;
  wrote =
      map (to_gateway 1) (write_bytes_via_stream [])
      ++ map (to_gateway 2) (write_bytes_via_stream []);
}

two_clients-run : run_steps two_clients no_session ≡ (ok tt, both_connected)
unfolding run_steps step connect_to_csgw_and_send_init_request new_request_id
two_clients-run = refl

serve_client_request-last_example :
    (serve_client_request plain_agent
        (codes "first request")
        (ok (web_request, 5 ∷ 0 ∷ []))
        both_connected
      ≡ (
        ok tt,
        add_writes both_connected (
            to_client (5 ∷ 0 ∷ [])
              ∷ map (to_gateway 2) (write_bytes_via_stream (codes "apron.network"))
            ++ to_client socks5_success ∷ []),
      ))
    × (proxy_data_conn both_connected ≡ some 2)
unfolding send_connect_message
serve_client_request-last_example =
    serve_client_request-last two_clients no_session both_connected 2 plain_agent
      (codes "first request") (5 ∷ 0 ∷ []) web_request
      (write_bytes_via_stream (codes "apron.network")) two_clients-run refl refl
