-- ===== src/Mux/Inversion/Messages.antt =====
-- internal/mux/agent_mux.go, readLoop: what its steps with a message can have been.
use mathlib.Core.Path.{subst}
use awsocks.Prelude.{
  ℕ, ◌≡◌, inl, inr, refl, sym, ap, ◌∙◌, Bool, true, false, some, ◌++◌, if◌then◌else◌, ◌==◌, arith,
  Option-cases,
}
use awsocks.Prelude.Maps.{map_get, nat_eq}
use awsocks.Protocol.{Message, connect_ack, data_type, close_type, error_type, pong}
use awsocks.Mux.State.{Reader, AgentMux, acking, delivering}
use awsocks.Mux.Teardown.{update_object, close_registered, spawn}
use awsocks.Mux.Reader.{
  receive, dispatch, handle_connect_ack, handle_data, handle_close, handle_error,
}

abbrev pub delivers : Reader → Bool
delivers (delivering h bytes) = true
delivers _ = false

abbrev pub acks : Reader → Bool
acks (acking id d) = true
acks _ = false

-- the effects of a message: none on the connections, or a payload taken
pub data Handled (msg : Message) (m t : AgentMux) : Type 0 where
  nothing : delivers t.reader ≡ false → t.connections ≡ m.connections → Handled msg m t
  taken :
      (h : ℕ)
      → map_get msg.conn_id m.connections.conns ≡ some h
      → t.reader ≡ Reader.delivering h msg.payload
      → t.connections
        ≡ update_object h (λ c. record c { routed = c.routed ++ msg.payload }) m.connections
      → Handled msg m t

handle_connect_ack-Handled :
    (msg : Message) (m : AgentMux) → Handled msg m (handle_connect_ack msg m)
unfolding handle_connect_ack
handle_connect_ack-Handled msg m = Handled.nothing (ground arith) refl

handle_data-Handled : (msg : Message) (m : AgentMux) → Handled msg m (handle_data msg m)
unfolding handle_data
handle_data-Handled msg m = elim (Option-cases (map_get msg.conn_id m.connections.conns)) [
  | inl missing ↦ rw (handle_data, missing) (Handled.nothing refl refl)
  | inr (h, g) ↦ rw (handle_data, g) (Handled.taken h g refl refl)
]

handle_error-Handled : (msg : Message) (m : AgentMux) → Handled msg m (handle_error msg m)
unfolding handle_error close_registered spawn
handle_error-Handled msg m = elim (Option-cases (map_get msg.conn_id m.pending)) [
  | inl missing ↦ rw (handle_error, missing) (Handled.nothing refl refl)
  | inr (d, g) ↦ rw (handle_error, g) (Handled.nothing refl refl)
]

either : (P : AgentMux → Type 0) (b : Bool) (x y : AgentMux) → P x → P y → P (if b then x else y)
either P true x y p q = p
either P false x y p q = q

dispatch-Handled : (msg : Message) (m : AgentMux) → Handled msg m (dispatch msg m)
unfolding dispatch handle_close close_registered spawn
dispatch-Handled msg m =
    let P = Handled msg m in
    let idle = record m { reader = Reader.looping } in
    either P (msg.type == connect_ack) _ _ (handle_connect_ack-Handled msg m) (
      either P (msg.type == data_type) _ _ (handle_data-Handled msg m) (
        either P (msg.type == close_type) _ _ (Handled.nothing refl refl) (
          either P (msg.type == error_type) _ _ (handle_error-Handled msg m) (
            either P (msg.type == pong) _ _ (Handled.nothing refl refl)
              (Handled.nothing refl refl)))))

dispatch-cancelled : (msg : Message) (m : AgentMux) → (dispatch msg m).cancelled ≡ m.cancelled
unfolding dispatch handle_connect_ack handle_data handle_close handle_error close_registered spawn
dispatch-cancelled msg m = ground arith

pub receive-cases :
    (msg : Message) (m t : AgentMux)
    → receive msg m ≡ some t
    → (m.reader ≡ Reader.reading) × (t.cancelled ≡ m.cancelled) × Handled msg m t
unfolding receive
receive-cases msg m t h =
    let now : (m.reader ≡ Reader.reading) × (dispatch msg m ≡ t) = ground (arith, h) in
    (
      now.0,
      ap (λ x. x.cancelled) (sym now.1) ∙ dispatch-cancelled msg m,
      subst (Handled msg m) now.1 (dispatch-Handled msg m),
    )
