-- ===== src/Mux/Invariant.antt =====
-- internal/mux/agent_mux.go: the invariant of the connections, and the changes that keep it.
pub mod Steps
pub mod Payloads
pub mod Schedules
use mathlib.Core.Path.{subst}
use awsocks.Prelude.{
  ℕ, ◌+◌, ◌<◌, ◌≡◌, ◌≢◌, ◌⊎◌, inl, inr, refl, sym, ap, ◌∙◌, Bool, true, false, ◌||◌, Option, none,
  some, List, [], ◌∷◌, ◌++◌, if◌then◌else◌, ◌==◌, ==_iff, ltb, length, Bytes, codes, arith,
  Option-cases, Bool-cases,
}
use awsocks.Prelude.Maps.{map_get, map_set, nat_eq, map_set-cases}
use awsocks.Protocol.{Message}
use awsocks.Mux.Connection.{MuxConn, read_conn, push, new_mux_conn, read_buf_capacity}
use awsocks.Mux.Connection.Stream.{read_conn-Keeps}
use awsocks.Mux.State.{
  Reader, Connections, AgentMux, new_agent_mux, looping, reading, acking, answering, delivering,
  joining, reader_stopped,
}
use awsocks.Mux.Teardown.{update_object}
use awsocks.Mux.Reader.{
  check_reader, register_conn, deliver_data, drop_data, answer, receive, dispatch, read_fails,
}
use awsocks.Mux.Pinger.{send_ping, take_pong, pong_timeout, stop_pinger}
use awsocks.Mux.Calls.{read_object}
use awsocks.Mux.Table.{Each, Each-update, Tables}
use awsocks.Mux.Table.Kept.{Quiet, Tables-update_object, Tables-register}
use awsocks.Mux.Flow.{
  flying, busy, stalled, Flow, Flow-change, Flow-close, Flow-read, Flow-take, Flow-push, Flow-drop,
}
use awsocks.Mux.Inversion.{
  Same, check_reader-cases, read_fails-cases, write_request-Same, take_result-Same,
  cancel_dial-Same, abort_dial-Same, take_pong-Same, stop_pinger-Same, start_dial-Same,
  write_object-Same, send_shutdown-Same,
}
use awsocks.Mux.Inversion.Messages.{delivers, acks, Handled, receive-cases, nothing, taken}
use awsocks.Mux.Inversion.Sends.{
  register_conn-cases, deliver_data-cases, drop_data-cases, answer-cases,
}
use awsocks.Mux.System.{
  Event, Reach, here, next, step, reader_checks, reader_registers, reader_delivers, reader_drops,
  reader_answers, reader_fails, reader_receives, ping_ticks, ping_answered, ping_expires,
  ping_stops, dial_starts, dial_writes, dial_takes, dial_cancels, dial_aborts, mux_closes,
  mux_shuts, conn_reads, conn_writes,
}

pub record IsSound (s : Connections) (r : Reader) (cancelled : Bool) : Type 0 where
  pub tables : Tables s
  pub flow : Each (Flow r cancelled) s

abbrev pub IsWellFormed : AgentMux → Type 0
IsWellFormed m = IsSound m.connections m.reader m.cancelled

-- a state whose three parts are known by equations
pub moved :
    (t : AgentMux) (s : Connections) (r : Reader) (b : Bool)
    → t.connections ≡ s
    → t.reader ≡ r
    → t.cancelled ≡ b
    → IsSound s r b
    → IsWellFormed t
moved t s r b e f g w =
    subst (λ x. IsSound x t.reader t.cancelled) (sym e)
      (subst (λ x. IsSound s x t.cancelled) (sym f) (subst (IsSound s r) (sym g) w))

pub Same-IsWellFormed : (m t : AgentMux) → Same m t → IsWellFormed m → IsWellFormed t
Same-IsWellFormed m t (e, f, g) w = moved t m.connections m.reader m.cancelled e f g w

pub flying_idle : (r : Reader) (h : ℕ) → delivers r ≡ false → (flying r h ≡ []) × (busy r h ≡ false)
flying_idle looping h e = (refl, refl)
flying_idle reading h e = (refl, refl)
flying_idle (acking id d) h e = (refl, refl)
flying_idle (answering d result after) h e = (refl, refl)
flying_idle (delivering k bytes) h e = absurd (ground (arith, e))
flying_idle (joining j) h e = (refl, refl)
flying_idle reader_stopped h e = (refl, refl)

-- a step of the reader without a payload, or of the context
pub IsSound-change :
    (s : Connections) (r r' : Reader) (b b' : Bool)
    → delivers r ≡ false
    → delivers r' ≡ false
    → (b ≡ true → stalled r ≡ true → (b' ≡ true) × (stalled r' ≡ true))
    → IsSound s r b
    → IsSound s r' b'
IsSound-change s r r' b b' i j stays w = record {
  tables = w.tables;
  flow = λ h c g.
      Flow-change r r' b b' h c ((flying_idle r h i).0 ∙ sym (flying_idle r' h j).0)
        (inl (flying_idle r' h j).1) stays (w.flow h c g);
}

pub IsSound-cancel : (s : Connections) (r : Reader) (b : Bool) → IsSound s r b → IsSound s r true
IsSound-cancel s r b w = record {
  tables = w.tables;
  flow = λ h c g. Flow-change r r b true h c refl (inr refl) (λ t k. (refl, k)) (w.flow h c g);
}

pub IsSound-update_object :
    (h : ℕ) (f : MuxConn → MuxConn) (s : Connections) (r : Reader) (b : Bool)
    → Quiet f
    → ((c : MuxConn) → Flow r b h c → Flow r b h (f c))
    → IsSound s r b
    → IsSound (update_object h f s) r b
IsSound-update_object h f s r b q flows w = record {
  tables = Tables-update_object h f s q w.tables;
  flow = Each-update (Flow r b) (Flow r b) h f s w.flow flows (λ j c other x. x);
}
