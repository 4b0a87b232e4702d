-- ===== src/Gateway/Written.antt =====
-- What a step of a gateway has written to a stream or a connection (internal/trans_network).
use apron_gateway_p2p.Prelude.{
  drop, true, Bool, bytes_eq, bytes_eq_refl, ◌&&◌, ◌==◌, ◌≡◌, refl, ap, List, [], ◌∷◌, Bytes,
  length, map, arith, if◌then◌else◌,
}
use apron_gateway_p2p.Node.{Conn}
use apron_gateway_p2p.Act.{World, Effect, Stream, wrote, wrote_conn}

abbrev stream_eq : Stream → Stream → Bool
stream_eq s t = bytes_eq s.peer t.peer && (bytes_eq s.protocol t.protocol && s.tag == t.tag)

stream_eq_refl : (s : Stream) → stream_eq s s ≡ true
stream_eq_refl s =
    let same : (s.tag == s.tag) ≡ true = ground arith in
    rw (bytes_eq_refl s.peer, bytes_eq_refl s.protocol) same

-- the pieces that are written to a stream, and to a connection
abbrev pub stream_pieces : Stream → List Effect → List Bytes
stream_pieces s [] = []
stream_pieces s (wrote t p ∷ es) =
    if stream_eq s t then p ∷ stream_pieces s es else stream_pieces s es
stream_pieces s (e ∷ es) = stream_pieces s es

abbrev pub conn_pieces : Conn → List Effect → List Bytes
conn_pieces c [] = []
conn_pieces c (wrote_conn d p ∷ es) = if c == d then p ∷ conn_pieces c es else conn_pieces c es
conn_pieces c (e ∷ es) = conn_pieces c es

pub stream_pieces-wrote : (s : Stream) (ps : List Bytes) → stream_pieces s (map (wrote s) ps) ≡ ps
stream_pieces-wrote s [] = refl
stream_pieces-wrote s (p ∷ ps) =
    rw (stream_eq_refl s) (ap (λ (t : List Bytes). p ∷ t) (stream_pieces-wrote s ps))

pub conn_pieces-wrote : (c : Conn) (ps : List Bytes) → conn_pieces c (map (wrote_conn c) ps) ≡ ps
conn_pieces-wrote c [] = refl
conn_pieces-wrote c (p ∷ ps) =
    let same : (c == c) ≡ true = ground arith in
    rw same (ap (λ (t : List Bytes). p ∷ t) (conn_pieces-wrote c ps))

-- what a step has added to the effects
abbrev pub added : World → World → List Effect
added w w' = drop (length w.effects) w'.effects
