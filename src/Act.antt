-- ===== src/Act.antt =====
-- Handlers of a gateway: steps over the node's state that leave a trace of what they do outside and
-- that may return early, block for ever, or panic.
pub mod Keeps
pub mod Frames
pub mod Ends
pub mod Writes
use apron_gateway_p2p.Prelude.{
  ℕ, ◌≡◌, refl, Bool, true, false, Option, none, some, List, [], ◌∷◌, ◌++◌, Bytes, codes, map,
}
use apron_gateway_p2p.Outcome.{Outcome, ok, err, panic}
use apron_gateway_p2p.Node.{Node, PeerId, Conn}
use apron_gateway_p2p.Wire.Frame.{write_bytes_via_stream}

-- a stream to a peer, by its protocol and a tag of its own
pub record Stream : Type 0 where
  pub peer : PeerId
  pub protocol : Bytes
  pub tag : ℕ

-- a message of a WebSocket: its type, and its bytes
abbrev pub WsMessage : Type 0
WsMessage = ℕ × Bytes

-- `websocket.TextMessage`
abbrev pub text_message : ℕ
text_message = 1

-- What a handler does outside the node; `replied` is `ctx.Error`, which resets the response of its request, and
-- `wrote_reply` is `ctx.Write`.
pub data Effect : Type 0 where
  opened : Stream → Effect
  wrote : Stream → Bytes → Effect
  wrote_conn : Conn → Bytes → Effect
  sent_ws : Conn → ℕ → Bytes → Effect
  sent_chan : Bytes → Bytes → Effect
  replied : ℕ → Bytes → Effect
  wrote_reply : Bytes → Effect
  dialed : Bytes → Conn → Effect
  requested : Bytes → Effect
  closed : Conn → Effect

-- how a handler ends
pub data Exit {ℓ} (A : Type ℓ) : Type ℓ where
  done : A → Exit A
  returned : Exit A
  blocked : Exit A
  panicked : Bytes → Exit A

pub record World : Type 0 where
  pub node : Node
  pub effects : List Effect

abbrev pub Act {ℓ} : Type ℓ → Type ℓ
Act A = World → Exit A × World

abbrev pub pure {ℓ} : {A : Type ℓ} → A → Act A
pure a w = (done a, w)

abbrev pub and_then {ℓ κ} :
    {A : Type ℓ} {B : Type κ} → Exit A × World → (A → Act B) → Exit B × World
and_then (done a, w) f = f a w
and_then (returned, w) f = (returned, w)
and_then (blocked, w) f = (blocked, w)
and_then (panicked e, w) f = (panicked e, w)

infixl 5 ◌>>=◌ ◌>>◌
abbrev pub ◌>>=◌ {ℓ κ} : {A : Type ℓ} {B : Type κ} → Act A → (A → Act B) → Act B
◌>>=◌ m f w = and_then (m w) f

abbrev pub ◌>>◌ {κ} : {B : Type κ} → Act (Unit {0}) → Act B → Act B
m >> k = m >>= λ _. k

-- `return`
abbrev pub stop {ℓ} : {A : Type ℓ} → Act A
stop w = (returned, w)

-- a wait that never ends
abbrev pub block {ℓ} : {A : Type ℓ} → Act A
block w = (blocked, w)

abbrev pub panic_with {ℓ} : {A : Type ℓ} → Bytes → Act A
panic_with e w = (panicked e, w)

-- `v, err := call(); internal.CheckError(err)`
abbrev pub checked {ℓ} : {A : Type ℓ} → Outcome A → Act A
checked (ok a) w = (done a, w)
checked (err e) w = (panicked e, w)
checked (panic e) w = (panicked e, w)

abbrev pub get_node : Act Node
get_node w = (done w.node, w)

abbrev pub put_node : Node → Act (Unit {0})
put_node n w = (done tt, record w { node = n })

abbrev pub emit : Effect → Act (Unit {0})
emit e w = (done tt, record w { effects = w.effects ++ e ∷ [] })

-- `WriteBytesViaStream(s, data)`
abbrev pub write_frame : Stream → Bytes → Act (Unit {0})
write_frame s content w =
    (done tt, record w { effects = w.effects ++ map (wrote s) (write_bytes_via_stream content) })

-- `WriteBytesViaStream(conn, data)`
abbrev pub write_frame_conn : Conn → Bytes → Act (Unit {0})
write_frame_conn c content w = (
  done tt,
  record w { effects = w.effects ++ map (wrote_conn c) (write_bytes_via_stream content) },
)

abbrev pub nil_dereference {ℓ} : {A : Type ℓ} → Act A
nil_dereference =
    panic_with (codes "runtime error: invalid memory address or nil pointer dereference")
