-- ===== src/Tests/Sockets.antt =====
-- Socket connections, through internal/trans_network/csgw_socket.go.
use apron_gateway_p2p.Prelude.{◌≡◌, [], ◌∷◌, ◌++◌, ◌-◌, codes, length, replicate, arith}
use apron_gateway_p2p.Outcome.{ok}
use apron_gateway_p2p.Wire.BigEndian.{put_uint64}
use apron_gateway_p2p.Gateway.Socket.{read_init_request}
use apron_gateway_p2p.Gateway.SocketInit.{read_init_request-part}

read_init_request-part_example :
    read_init_request 100 (put_uint64 6 ∷ codes "init" ∷ codes "ok" ∷ [])
    ≡ ok (codes "init" ++ replicate (6 - length (codes "init")) 0)
read_init_request-part_example =
    read_init_request-part 100 6 (codes "init") (codes "ok" ∷ []) (omega arith) (omega arith)
      (omega arith) (omega arith)
