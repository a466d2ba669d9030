-- ===== src/Mux/Jobs.antt =====
-- internal/mux/agent_mux.go, Close, closeFromRemote and declareDead: what the steps do to the calls
-- that close connections.
pub mod Sections
pub mod Lasting
pub mod Pursuit
use awsocks.Prelude.{
  ℕ, ◌+◌, ◌<◌, ◌≡◌, ◌⊎◌, refl, inl, inr, Bool, true, false, none, some, List, [], ◌∷◌, ◌++◌, Bytes,
  codes, arith, Option-cases, Bool-cases,
}
use awsocks.Prelude.Maps.{map_get, map_set, map_set-cases, nat_eq}
use awsocks.Protocol.{Message}
use awsocks.Mux.Connection.{MuxConn}
use awsocks.Mux.State.{
  Reader, Action, AgentMux, fail_calls, collect, end_context, look_up, shut, unregister, send_close,
  finish_once, looping, reading, acking, answering, delivering, joining, reader_stopped,
}
use awsocks.Mux.Teardown.{
  spawn, declare_dead, close_conn, close_registered, shut_all, behind_close, go_on, shut_conn, act,
  run_job,
}
use awsocks.Mux.Reader.{
  check_reader, register_conn, deliver_data, drop_data, answer, receive, read_fails, join_job,
  dispatch, handle_connect_ack, handle_data, handle_close, handle_error,
}
use awsocks.Mux.Pinger.{send_ping, take_pong, pong_timeout, stop_pinger}
use awsocks.Mux.Calls.{
  start_dial, finish_dial, write_request, take_result, cancel_dial, abort_dial, close_mux,
  send_shutdown, read_object, write_object,
}
use awsocks.Mux.System.{
  Event, Reach, here, next, step, reader_checks, reader_registers, reader_delivers, reader_drops,
  reader_answers, reader_fails, reader_joins, reader_receives, ping_ticks, ping_answered,
  ping_expires, ping_stops, dial_starts, dial_writes, dial_takes, dial_cancels, dial_aborts,
  mux_closes, mux_shuts, conn_reads, conn_writes, conn_closes, job_runs,
}

-- a step begins no call, begins one, or is a section of one
pub data Jobbed (m t : AgentMux) : Type 0 where
  same_jobs : t.jobs ≡ m.jobs → t.next_job ≡ m.next_job → Jobbed m t
  spawned :
      (actions : List Action)
      → t.jobs ≡ map_set m.next_job actions m.jobs
      → t.next_job ≡ m.next_job + 1
      → Jobbed m t
  ran : (writes : Bool) (j : ℕ) → run_job writes j m ≡ some t → Jobbed m t

Began : List Action → AgentMux → AgentMux → Type 0
Began actions m t =
    ((t.jobs ≡ m.jobs) × (t.next_job ≡ m.next_job))
    ⊎ ((t.jobs ≡ map_set m.next_job actions m.jobs) × (t.next_job ≡ m.next_job + 1))

Began-Jobbed : (actions : List Action) (m t : AgentMux) → Began actions m t → Jobbed m t
unfolding Began
Began-Jobbed actions m t (inl (e, f)) = Jobbed.same_jobs e f
Began-Jobbed actions m t (inr (e, f)) = Jobbed.spawned actions e f

dying : Bytes → List Action
dying reason = Action.fail_calls reason ∷ Action.collect ∷ Action.end_context ∷ []

send_ping-Began :
    (writes : Bool) (m t : AgentMux)
    → send_ping writes m ≡ some t
    → Began (dying (codes "agent mux ping write failed")) m t
unfolding Began dying send_ping declare_dead spawn
send_ping-Began writes m t h = ground (arith, h)

pong_timeout-Began :
    (m t : AgentMux) → pong_timeout m ≡ some t → Began (dying (codes "agent mux ping timeout")) m t
unfolding Began dying pong_timeout declare_dead spawn
pong_timeout-Began m t h = ground (arith, h)

read_fails-Began :
    (m t : AgentMux) → read_fails m ≡ some t → Began (dying (codes "agent connection closed")) m t
unfolding Began dying read_fails declare_dead spawn
read_fails-Began m t h = ground (arith, h)

receive-Began :
    (msg : Message) (m t : AgentMux)
    → receive msg m ≡ some t
    → Began (Action.look_up msg.conn_id ∷ []) m t
unfolding Began receive dispatch handle_connect_ack handle_data handle_close handle_error
    close_registered spawn
receive-Began msg m t h = ground (arith, h)

answer_by : (m t : AgentMux) (r : Reader) → m.reader ≡ r → answer m ≡ some t → Jobbed m t
unfolding answer close_registered spawn
answer_by m t looping e h = absurd (ground (arith, e, h))
answer_by m t reading e h = absurd (ground (arith, e, h))
answer_by m t (acking id d) e h = absurd (ground (arith, e, h))
answer_by m t (answering d result none) e h =
    Jobbed.same_jobs (ground (arith, e, h)) (ground (arith, e, h))
answer_by m t (answering d result (some id)) e h =
    Jobbed.spawned (Action.look_up id ∷ []) (ground (arith, e, h)) (ground (arith, e, h))
answer_by m t (delivering k bytes) e h = absurd (ground (arith, e, h))
answer_by m t (joining j) e h = absurd (ground (arith, e, h))
answer_by m t reader_stopped e h = absurd (ground (arith, e, h))

quiet : (m t : AgentMux) → (t.jobs ≡ m.jobs) × (t.next_job ≡ m.next_job) → Jobbed m t
quiet m t (e, f) = Jobbed.same_jobs e f

-- the steps of Dial
dial-Jobbed :
    (writes : Bool) (d : ℕ) (m t : AgentMux)
    → ((write_request writes d m ≡ some t) ⊎ (take_result d m ≡ some t))
      ⊎ ((cancel_dial d m ≡ some t) ⊎ (abort_dial d m ≡ some t))
    → Jobbed m t
unfolding write_request take_result cancel_dial abort_dial finish_dial
dial-Jobbed writes d m t (inl (inl h)) = quiet m t (ground (arith, h))
dial-Jobbed writes d m t (inl (inr h)) = quiet m t (ground (arith, h))
dial-Jobbed writes d m t (inr (inl h)) = quiet m t (ground (arith, h))
dial-Jobbed writes d m t (inr (inr h)) = quiet m t (ground (arith, h))

pub step-Jobbed : (e : Event) (m t : AgentMux) → step e m ≡ some t → Jobbed m t
unfolding step check_reader register_conn deliver_data drop_data join_job take_pong stop_pinger
    start_dial close_mux send_shutdown read_object write_object close_conn spawn
step-Jobbed reader_checks m t h = quiet m t (ground (arith, h))
step-Jobbed reader_registers m t h = quiet m t (ground (arith, h))
step-Jobbed reader_delivers m t h = quiet m t (ground (arith, h))
step-Jobbed reader_drops m t h = quiet m t (ground (arith, h))
step-Jobbed reader_answers m t h = answer_by m t m.reader refl h
step-Jobbed reader_fails m t h = Began-Jobbed _ m t (read_fails-Began m t h)
step-Jobbed reader_joins m t h = quiet m t (ground (arith, h))
step-Jobbed (reader_receives msg) m t h = Began-Jobbed _ m t (receive-Began msg m t h)
step-Jobbed (ping_ticks writes) m t h = Began-Jobbed _ m t (send_ping-Began writes m t h)
step-Jobbed ping_answered m t h = quiet m t (ground (arith, h))
step-Jobbed ping_expires m t h = Began-Jobbed _ m t (pong_timeout-Began m t h)
step-Jobbed ping_stops m t h = quiet m t (ground (arith, h))
step-Jobbed (dial_starts network addr) m t h = quiet m t (ground (arith, h))
step-Jobbed (dial_writes writes d) m t h = dial-Jobbed writes d m t (inl (inl h))
step-Jobbed (dial_takes d) m t h = dial-Jobbed true d m t (inl (inr h))
step-Jobbed (dial_cancels d) m t h = dial-Jobbed true d m t (inr (inl h))
step-Jobbed (dial_aborts d) m t h = dial-Jobbed true d m t (inr (inr h))
step-Jobbed mux_closes m t h = quiet m t (ground (arith, h))
step-Jobbed (mux_shuts writes) m t h = quiet m t (ground (arith, h))
step-Jobbed (conn_reads k n) m t h = quiet m t (ground (arith, h))
step-Jobbed (conn_writes writes k bytes) m t h = quiet m t (ground (arith, h))
step-Jobbed (conn_closes k) m t h =
    Jobbed.spawned (Action.shut true k ∷ []) (ground (arith, h)) (ground (arith, h))
step-Jobbed (job_runs writes j) m t h = Jobbed.ran writes j h
