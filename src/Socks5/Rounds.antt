-- ===== src/Socks5/Rounds.antt =====
-- The loops of the SOCKS5 agents on what the other agent has packed (internal/ext_protocols/socks5).
use apron_gateway_p2p.Prelude.{
  ℕ, ◌≡◌, refl, sym, ap, ◌∙◌, some, List, [], ◌∷◌, ◌++◌, append-nil, append_assoc, Bytes, length,
  map, concat, ◌%◌, ◌^◌, GoMap, insert, insert_self, bytes_eq,
}
use apron_gateway_p2p.Outcome.{Outcome, ok, ◌>>=◌}
use apron_gateway_p2p.Node.{Conn}
use apron_gateway_p2p.Wire.BigEndian.{put_uint64}
use apron_gateway_p2p.Wire.Frame.{data_ch, IoReader, stream, write_bytes_via_stream}
use apron_gateway_p2p.Wire.Pieces.{writes, read_one_frame_aligned}
use apron_gateway_p2p.Wire.RoundTrip.{written}
use apron_gateway_p2p.Gateway.Transport.{Sendable}
use apron_gateway_p2p.Socks5.Const.{
  ApronSocks5ConnectRequest, socks5_connect_message, socks5_data_message,
}
use apron_gateway_p2p.Socks5.Agent.{
  AgentEnv, to_service, to_peer, message, send_connect_message, server_round, dispatch,
  write_service, forward_service_response, client_to_gateway, client_marshalled, gateway_to_client,
  client_unmarshalled,
}
use apron_gateway_p2p.Socks5.Loops.{
  and_on, client_to_gateway_loop, gateway_to_client_loop, server_loop, service_loop, peer_pieces,
}

-- what `a` packs of a connection's messages, `b` unpacks
abbrev pub Packs : AgentEnv → AgentEnv → Bytes → (ℕ → Bytes → Bytes) → Type 0
Packs a b id pack =
    (t : ℕ) (d : Bytes)
    → (a.marshal (message a id t d) ≡ ok (pack t d))
      × (b.unmarshal (pack t d) ≡ ok (message a id t d))

pub concat-writes :
    (max_alloc : ℕ) (ds : List Bytes) → concat (writes max_alloc ds) ≡ written max_alloc ds
unfolding write_bytes_via_stream
concat-writes max_alloc [] = refl
concat-writes max_alloc (d ∷ ds) =
    let header = put_uint64 (length d % 2 ^ 64) in
    rw (concat-writes max_alloc ds, append-nil d)
      (sym (append_assoc header d (written max_alloc ds)))

module _ (max_alloc : ℕ) (id : Bytes) (pack : ℕ → Bytes → Bytes) (a b : AgentEnv)
    (packs : Packs a b id pack) where
  abbrev datas : List Bytes → List Bytes
  datas chunks = map (pack socks5_data_message) chunks

  pub client_loop-writes :
      (chunks : List Bytes)
      → client_to_gateway_loop a id (map ok chunks) ≡ ok (writes max_alloc (datas chunks))
  unfolding client_to_gateway_loop client_to_gateway client_marshalled write_bytes_via_stream
  client_loop-writes [] = refl
  client_loop-writes (d ∷ ds) = rw ((packs socks5_data_message d).0, client_loop-writes ds) refl

  pub first-writes :
      (req : ApronSocks5ConnectRequest) (content : Bytes)
      → a.encode_connect req ≡ ok content
      → send_connect_message a id req
        ≡ ok (write_bytes_via_stream (pack socks5_connect_message content))
  unfolding send_connect_message
  first-writes req content e = rw (e, (packs socks5_connect_message content).0) refl

  server_loop-datas :
      (sc : Conn) (chunks : List Bytes) (conns : GoMap Conn)
      → conns id ≡ some sc
      → server_loop b conns (map data_ch (datas chunks)) ≡ ok (conns, map (to_service sc) chunks)
  unfolding server_loop server_round dispatch write_service bytes_eq
  server_loop-datas sc [] conns h = refl
  server_loop-datas sc (d ∷ ds) conns h =
      rw ((packs socks5_data_message d).1, h, server_loop-datas sc ds conns h) refl

  pub server_loop-session :
      (sc : Conn) (req : ApronSocks5ConnectRequest) (content : Bytes) (chunks : List Bytes)
      (conns : GoMap Conn)
      → b.decode_connect content ≡ ok req
      → b.connect req ≡ ok sc
      → server_loop b conns (map data_ch (pack socks5_connect_message content ∷ datas chunks))
        ≡ ok (insert id sc conns, map (to_service sc) chunks)
  unfolding server_loop server_round dispatch bytes_eq
  server_loop-session sc req content chunks conns decodes connects =
      rw
        (
          (packs socks5_connect_message content).1,
          decodes,
          connects,
          server_loop-datas sc chunks (insert id sc conns) (insert_self id sc conns),
        )
        refl

  pub service_loop-peer :
      (chunks : List Bytes) → service_loop a id (map ok chunks) ≡ ok (map to_peer (datas chunks))
  unfolding service_loop forward_service_response
  service_loop-peer [] = refl
  service_loop-peer (d ∷ ds) = rw ((packs socks5_data_message d).0, service_loop-peer ds) refl

  pub gateway_loop-datas :
      (chunks cs : List Bytes)
      → Sendable max_alloc (datas chunks)
      → gateway_to_client_loop b max_alloc
          (length chunks)
          (stream (writes max_alloc (datas chunks) ++ cs))
        ≡ ok chunks
  unfolding gateway_to_client_loop gateway_to_client client_unmarshalled write_bytes_via_stream
  gateway_loop-datas [] cs h = refl
  gateway_loop-datas (d ∷ ds) cs ((short, fits, fit), (pos, nonempty)) =
      let one =
        read_one_frame_aligned max_alloc (pack socks5_data_message d)
          (writes max_alloc (datas ds) ++ cs) pos short fits in
      let next : Outcome Bytes × IoReader → Outcome (List Bytes) = λ p.
        gateway_to_client b p.0 >>= and_on (gateway_to_client_loop b max_alloc (length ds) p.1) in
      ap next one
      ∙ rw ((packs socks5_data_message d).1, gateway_loop-datas ds cs (fit, nonempty)) refl

pub peer_pieces-to_peer : (ps : List Bytes) → peer_pieces (map to_peer ps) ≡ ps
peer_pieces-to_peer [] = refl
peer_pieces-to_peer (p ∷ ps) = ap (λ (t : List Bytes). p ∷ t) (peer_pieces-to_peer ps)
