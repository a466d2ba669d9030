-- ===== src/Mux/Inversion.antt =====
-- internal/mux/agent_mux.go: what a step of the goroutines can have been, in the connections, the
-- reader and the context.
pub mod Messages
pub mod Sends
pub mod Jobs
use awsocks.Prelude.{
  ℕ, ◌+◌, ◌<◌, ◌≡◌, ◌≢◌, ◌⊎◌, inl, inr, refl, sym, ap, ◌∙◌, Bool, true, false, ◌||◌, Option, none,
  some, List, [], ◌∷◌, ◌++◌, if◌then◌else◌, ◌==◌, ==_iff, ltb, length, Bytes, codes, arith,
  Option-cases, Bool-cases,
}
use awsocks.Prelude.Maps.{map_get, map_set, nat_eq}
use awsocks.Protocol.{Message}
use awsocks.Mux.Connection.{MuxConn, read_conn, push, new_mux_conn, read_buf_capacity}
use awsocks.Mux.State.{
  Reader, Connections, AgentMux, looping, reading, acking, answering, delivering, reader_stopped,
}
use awsocks.Mux.Teardown.{declare_dead, spawn, close_conn}
use awsocks.Mux.Reader.{
  check_reader, register_conn, deliver_data, drop_data, answer, receive, dispatch,
  handle_connect_ack, handle_data, handle_close, handle_error, read_fails,
}
use awsocks.Mux.Pinger.{send_ping, take_pong, pong_timeout, stop_pinger}
use awsocks.Mux.Calls.{
  start_dial, finish_dial, write_request, take_result, cancel_dial, abort_dial, send_shutdown,
  write_object,
}

-- no change of the connections, the reader or the context
abbrev pub Same : AgentMux → AgentMux → Type 0
Same m t = (t.connections ≡ m.connections) × (t.reader ≡ m.reader) × (t.cancelled ≡ m.cancelled)

pub write_request-Same :
    (w : Bool) (d : ℕ) (m t : AgentMux) → write_request w d m ≡ some t → Same m t
unfolding write_request finish_dial
write_request-Same w d m t h = ground (arith, h)

pub take_result-Same : (d : ℕ) (m t : AgentMux) → take_result d m ≡ some t → Same m t
unfolding take_result finish_dial
take_result-Same d m t h = ground (arith, h)

pub cancel_dial-Same : (d : ℕ) (m t : AgentMux) → cancel_dial d m ≡ some t → Same m t
unfolding cancel_dial finish_dial
cancel_dial-Same d m t h = ground (arith, h)

pub abort_dial-Same : (d : ℕ) (m t : AgentMux) → abort_dial d m ≡ some t → Same m t
unfolding abort_dial finish_dial
abort_dial-Same d m t h = ground (arith, h)

pub take_pong-Same : (m t : AgentMux) → take_pong m ≡ some t → Same m t
unfolding take_pong
take_pong-Same m t h = ground (arith, h)

pub stop_pinger-Same : (m t : AgentMux) → stop_pinger m ≡ some t → Same m t
unfolding stop_pinger
stop_pinger-Same m t h = ground (arith, h)

pub start_dial-Same : (network addr : Bytes) (m : AgentMux) → Same m (start_dial network addr m)
unfolding start_dial
start_dial-Same network addr m = ground arith

pub write_object-Same :
    (w : Bool) (h : ℕ) (bytes : Bytes) (m : AgentMux) → Same m (write_object w h bytes m)
unfolding write_object
write_object-Same w h bytes m = ground arith

pub send_shutdown-Same : (w : Bool) (m : AgentMux) → Same m (send_shutdown w m)
unfolding send_shutdown
send_shutdown-Same w m = ground arith

pub check_reader-cases :
    (m t : AgentMux)
    → check_reader m ≡ some t
    → (m.reader ≡ Reader.looping)
      × (t.connections ≡ m.connections)
      × (t.cancelled ≡ m.cancelled)
      × (t.reader ≡ (if m.cancelled then Reader.reader_stopped else Reader.reading))
unfolding check_reader
check_reader-cases m t h = ground (arith, h)

pub send_ping-Same : (w : Bool) (m t : AgentMux) → send_ping w m ≡ some t → Same m t
unfolding send_ping declare_dead spawn
send_ping-Same w m t h = ground (arith, h)

pub pong_timeout-Same : (m t : AgentMux) → pong_timeout m ≡ some t → Same m t
unfolding pong_timeout declare_dead spawn
pong_timeout-Same m t h = ground (arith, h)

pub close_conn-Same : (h : ℕ) (m : AgentMux) → Same m (close_conn h m)
unfolding close_conn spawn
close_conn-Same h m = (refl, refl, refl)

pub read_fails-cases :
    (m t : AgentMux)
    → read_fails m ≡ some t
    → (m.reader ≡ Reader.reading)
      × (t.reader ≡ Reader.reader_stopped)
      × (t.connections ≡ m.connections)
      × (t.cancelled ≡ m.cancelled)
unfolding read_fails declare_dead spawn
read_fails-cases m t h = ground (arith, h)
