-- ===== src/Mux/System.antt =====
-- internal/mux/agent_mux.go: the goroutines together. A schedule is a list of events: which of them
-- takes its next step, what the agent and the clients do, and whether a write succeeds.
use mathlib.Core.Path.{subst}
use awsocks.Prelude.{
  ◌≡◌, ℕ, Bool, Option, none, some, Bytes, List, [], ◌∷◌, inl, inr, Option-cases, arith,
}
use awsocks.Protocol.{Message}
use awsocks.Mux.State.{AgentMux}
use awsocks.Mux.Reader.{
  check_reader, register_conn, deliver_data, drop_data, answer, receive, read_fails, join_job,
}
use awsocks.Mux.Pinger.{send_ping, take_pong, pong_timeout, stop_pinger}
use awsocks.Mux.Calls.{
  start_dial, write_request, take_result, cancel_dial, abort_dial, close_mux, send_shutdown,
  read_object, write_object,
}
use awsocks.Mux.Teardown.{close_conn, run_job}

pub data Event : Type 0 where
  -- readLoop
  reader_checks reader_registers reader_delivers reader_drops reader_answers reader_fails
        reader_joins :
      Event
  reader_receives : Message → Event
  -- pingLoop
  ping_ticks : Bool → Event
  ping_answered ping_expires ping_stops : Event
  -- the calls of Dial
  dial_starts : Bytes → Bytes → Event
  dial_writes : Bool → ℕ → Event
  dial_takes : ℕ → Event
  dial_cancels : ℕ → Event
  dial_aborts : ℕ → Event
  -- the clients
  mux_closes : Event
  mux_shuts : Bool → Event
  conn_reads : ℕ → ℕ → Event
  conn_writes : Bool → ℕ → Bytes → Event
  conn_closes : ℕ → Event
  -- the calls that close connections
  job_runs : Bool → ℕ → Event

-- one step; `none` where it is not enabled
unfoldable pub step : Event → AgentMux → Option AgentMux
step reader_checks m = check_reader m
step reader_registers m = register_conn m
step reader_delivers m = deliver_data m
step reader_drops m = drop_data m
step reader_answers m = answer m
step reader_fails m = read_fails m
step reader_joins m = join_job m
step (reader_receives msg) m = receive msg m
step (ping_ticks writes) m = send_ping writes m
step ping_answered m = take_pong m
step ping_expires m = pong_timeout m
step ping_stops m = stop_pinger m
step (dial_starts network addr) m = some (start_dial network addr m)
step (dial_writes writes d) m = write_request writes d m
step (dial_takes d) m = take_result d m
step (dial_cancels d) m = cancel_dial d m
step (dial_aborts d) m = abort_dial d m
step mux_closes m = some (close_mux m)
step (mux_shuts writes) m = some (send_shutdown writes m)
step (conn_reads h n) m = some (read_object h n m)
step (conn_writes writes h bytes) m = some (write_object writes h bytes m)
step (conn_closes h) m = some (close_conn h m)
step (job_runs writes j) m = run_job writes j m

-- the states that some schedule leads to
pub data Reach (start : AgentMux) : AgentMux → Type 0 where
  here : Reach start start
  next : {s t : AgentMux} → Reach start s → (e : Event) → step e s ≡ some t → Reach start t

pub Reach-append : (a b c : AgentMux) → Reach a b → Reach b c → Reach a c
Reach-append a b c r here = r
Reach-append a b c r (next {s} path e h) = next (Reach-append a b s r path) e h

-- a schedule; `none` where a step is not enabled
unfoldable pub run : List Event → AgentMux → Option AgentMux
unfolding step
run [] m = some m
run (e ∷ es) m = elim (step e m) [ none ↦ none | some t ↦ run es t ]

pub run-Reach :
    (start : AgentMux) (es : List Event) (s t : AgentMux)
    → Reach start s
    → run es s ≡ some t
    → Reach start t
unfolding run
run-Reach start [] s t r h = let same : s ≡ t = ground (arith, h) in subst (Reach start) same r
run-Reach start (e ∷ es) s t r h = elim (Option-cases (step e s)) [
  | inl stuck ↦ absurd (ground (arith, h, stuck))
  | inr (u, at) ↦ run-Reach start es u t (next r e at) (ground (arith, h, at))
]
