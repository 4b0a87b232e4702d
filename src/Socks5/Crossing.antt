-- ===== src/Socks5/Crossing.antt =====
-- Sessions of a client agent that overlap (internal/ext_protocols/socks5/apron_agent_server.go and
-- apron_client_agent.go).
use apron_gateway_p2p.Prelude.{
  ◌≡◌, refl, ◌∙◌, Option, none, some, List, [], ◌∷◌, ◌++◌, append_assoc, Bytes, map,
}
use apron_gateway_p2p.Outcome.{Outcome, ok, err, panic}
use apron_gateway_p2p.Node.{Conn}
use apron_gateway_p2p.Socks5.Const.{ApronSocks5ConnectRequest}
use apron_gateway_p2p.Socks5.Agent.{AgentEnv, send_connect_message}
use apron_gateway_p2p.Socks5.Session.{
  Shared, CsgwEnv, to_gateway, to_client, connect_to_csgw_and_send_init_request, send_init_request,
  serve_client_request, write_connect_message, write_remote, add_writes, socks5_success,
  proxy_data_conn,
}

-- a step of some session, up to its next wait
pub data Step : Type 0 where
  connect : CsgwEnv → Step
  serve : AgentEnv → Bytes → Outcome (ApronSocks5ConnectRequest × Bytes) → Step

-- what comes next, unless the process has ended
abbrev pub next_steps :
    (Shared → Outcome (Unit {0}) × Shared)
    → Outcome (Unit {0}) × Shared
    → Outcome (Unit {0}) × Shared
next_steps k (ok u, s) = k s
next_steps k (err e, s) = (err e, s)
next_steps k (panic e, s) = (panic e, s)

-- a failure to connect to the gateway panics
abbrev pub connected : Outcome Bytes × Shared → Outcome (Unit {0}) × Shared
connected (ok id, s) = (ok tt, s)
connected (err e, s) = (panic e, s)
connected (panic e, s) = (panic e, s)

unfoldable pub step : Step → Shared → Outcome (Unit {0}) × Shared
step (connect env) s = connected (connect_to_csgw_and_send_init_request env s)
step (serve env id built) s = serve_client_request env id built s

-- the steps of any sessions, in the order in which they happen
unfoldable pub run_steps : List Step → Shared → Outcome (Unit {0}) × Shared
unfolding step
run_steps [] s = (ok tt, s)
run_steps (x ∷ xs) s = next_steps (run_steps xs) (step x s)

-- the connection that was dialled last
abbrev pub dialled : Outcome Conn → Option Conn → Option Conn
dialled (ok c) last = some c
dialled (err e) last = last
dialled (panic e) last = last

abbrev pub last_dialled : List Step → Option Conn → Option Conn
last_dialled [] last = last
last_dialled (connect env ∷ xs) last = last_dialled xs (dialled env.dial last)
last_dialled (serve env id built ∷ xs) last = last_dialled xs last

-- the shared connection behind steps that all return
abbrev Leaves : Option Conn → Outcome (Unit {0}) × Shared → Type 0
Leaves c (ok u, s) = s.remote ≡ c
Leaves c (err e, s) = Unit
Leaves c (panic e, s) = Unit

connect-Leaves :
    (env : CsgwEnv) (s : Shared) (o : Outcome Conn)
    → Leaves (dialled o s.remote) (connected (send_init_request env s o))
unfolding send_init_request
connect-Leaves env s (ok c) = refl
connect-Leaves env s (err e) = tt
connect-Leaves env s (panic e) = tt

remote-Leaves :
    (frames : List Bytes) (s : Shared) (o : Option Conn) → Leaves s.remote (write_remote frames s o)
unfolding write_remote
remote-Leaves frames s none = tt
remote-Leaves frames s (some c) = refl

message-Leaves :
    (s : Shared) (o : Outcome (List Bytes)) → Leaves s.remote (write_connect_message s o)
unfolding write_connect_message
message-Leaves s (ok frames) = remote-Leaves frames s s.remote
message-Leaves s (err e) = tt
message-Leaves s (panic e) = tt

serve-Leaves :
    (env : AgentEnv) (id : Bytes) (built : Outcome (ApronSocks5ConnectRequest × Bytes)) (s : Shared)
    → Leaves s.remote (serve_client_request env id built s)
unfolding serve_client_request
serve-Leaves env id (ok (req, answer)) s =
    message-Leaves (add_writes s (to_client answer ∷ [])) (send_connect_message env id req)
serve-Leaves env id (err e) s = tt
serve-Leaves env id (panic e) s = tt

next-Leaves :
    (xs : List Step) (c : Option Conn) (r : Outcome (Unit {0}) × Shared)
    → Leaves c r
    → ((s : Shared) → Leaves (last_dialled xs s.remote) (run_steps xs s))
    → Leaves (last_dialled xs c) (next_steps (run_steps xs) r)
next-Leaves xs c (ok u, s) h k = rw (← h) (k s)
next-Leaves xs c (err e, s) h k = tt
next-Leaves xs c (panic e, s) h k = tt

run_steps-Leaves :
    (xs : List Step) (s : Shared) → Leaves (last_dialled xs s.remote) (run_steps xs s)
unfolding run_steps connect_to_csgw_and_send_init_request
run_steps-Leaves [] s = refl
run_steps-Leaves (connect env ∷ xs) s =
    next-Leaves xs (dialled env.dial s.remote) (connected (send_init_request env s env.dial))
      (connect-Leaves env s env.dial) (run_steps-Leaves xs)
run_steps-Leaves (serve env id built ∷ xs) s =
    next-Leaves xs s.remote (serve_client_request env id built s) (serve-Leaves env id built s)
      (run_steps-Leaves xs)

-- After steps of any sessions, in any order, that all return, a session that goes on frames its connect
-- message to the connection that was dialled last, by whichever session, and goroutines of
-- `proxyDataFromClient` that start then proxy over that one.
pub serve_client_request-last :
    (xs : List Step) (s s' : Shared) (conn : Conn) (env : AgentEnv) (id answer : Bytes)
    (req : ApronSocks5ConnectRequest) (frames : List Bytes)
    → run_steps xs s ≡ (ok tt, s')
    → last_dialled xs s.remote ≡ some conn
    → send_connect_message env id req ≡ ok frames
    → (serve_client_request env id (ok (req, answer)) s' ≡ (
      ok tt,
      add_writes s'
          (to_client answer ∷ map (to_gateway conn) frames ++ to_client socks5_success ∷ []),
    ))
      × (proxy_data_conn s' ≡ some conn)
unfolding serve_client_request write_connect_message write_remote
serve_client_request-last xs s s' conn env id answer req frames ran last sent =
    let left : Leaves (last_dialled xs s.remote) (ok tt, s') = rw ran at (run_steps-Leaves xs s) in
    let remote : s'.remote ≡ some conn = left ∙ last in
    let grown =
      append_assoc s'.wrote (to_client answer ∷ [])
        (map (to_gateway conn) frames ++ to_client socks5_success ∷ []) in
    (rw (sent, remote) (λ i. (ok tt, record { remote = some conn; wrote = grown i })), remote)
