-- ===== src/Mux/Invariant/Schedules.antt =====
-- internal/mux/agent_mux.go: the invariant over every schedule.
use mathlib.Core.Path.{subst}
use awsocks.Prelude.{◌≡◌, some, arith}
use awsocks.Prelude.Maps.{map_get, nat_eq}
use awsocks.Mux.State.{AgentMux, new_agent_mux}
use awsocks.Mux.Teardown.{close_conn}
use awsocks.Mux.Calls.{read_object, close_mux, start_dial, send_shutdown, write_object}
use awsocks.Mux.Inversion.{
  write_request-Same, take_result-Same, cancel_dial-Same, abort_dial-Same, take_pong-Same,
  stop_pinger-Same, start_dial-Same, write_object-Same, send_shutdown-Same, send_ping-Same,
  pong_timeout-Same, close_conn-Same,
}
use awsocks.Mux.System.{
  Event, Reach, here, next, step, reader_checks, reader_registers, reader_delivers, reader_drops,
  reader_answers, reader_fails, reader_joins, job_runs, reader_receives, ping_ticks, ping_answered,
  ping_expires, ping_stops, dial_starts, dial_writes, dial_takes, dial_cancels, dial_aborts,
  mux_closes, mux_shuts, conn_reads, conn_writes, conn_closes,
}
use awsocks.Mux.Invariant.{IsWellFormed, Same-IsWellFormed, IsSound-cancel}
use awsocks.Mux.Invariant.Steps.{
  check_reader-IsWellFormed, read_fails-IsWellFormed, join_job-IsWellFormed, run_job-IsWellFormed,
  register_conn-IsWellFormed, answer-IsWellFormed,
}
use awsocks.Mux.Invariant.Payloads.{
  receive-IsWellFormed, deliver_data-IsWellFormed, drop_data-IsWellFormed, read_object-IsWellFormed,
}

pub new_agent_mux-IsWellFormed : IsWellFormed new_agent_mux
unfolding new_agent_mux map_get
new_agent_mux-IsWellFormed = record {
  tables = record {
    registered = λ id h e. absurd (ground (arith, e));
    fresh = λ h c e. absurd (ground (arith, e));
  };
  flow = λ h c e. absurd (ground (arith, e));
}

holds : (t u : AgentMux) → some t ≡ some u → IsWellFormed t → IsWellFormed u
holds t u e w = let same : t ≡ u = ground (arith, e) in subst IsWellFormed same w

pub step-IsWellFormed :
    (e : Event) (m t : AgentMux) → step e m ≡ some t → IsWellFormed m → IsWellFormed t
unfolding step close_mux
step-IsWellFormed reader_checks m t h w = check_reader-IsWellFormed m t h w
step-IsWellFormed reader_registers m t h w = register_conn-IsWellFormed m t h w
step-IsWellFormed reader_delivers m t h w = deliver_data-IsWellFormed m t h w
step-IsWellFormed reader_drops m t h w = drop_data-IsWellFormed m t h w
step-IsWellFormed reader_answers m t h w = answer-IsWellFormed m t h w
step-IsWellFormed reader_fails m t h w = read_fails-IsWellFormed m t h w
step-IsWellFormed reader_joins m t h w = join_job-IsWellFormed m t h w
step-IsWellFormed (reader_receives msg) m t h w = receive-IsWellFormed msg m t h w
step-IsWellFormed (ping_ticks writes) m t h w =
    Same-IsWellFormed m t (send_ping-Same writes m t h) w
step-IsWellFormed ping_answered m t h w = Same-IsWellFormed m t (take_pong-Same m t h) w
step-IsWellFormed ping_expires m t h w = Same-IsWellFormed m t (pong_timeout-Same m t h) w
step-IsWellFormed ping_stops m t h w = Same-IsWellFormed m t (stop_pinger-Same m t h) w
step-IsWellFormed (dial_starts network addr) m t h w =
    holds (start_dial network addr m) t h
      (Same-IsWellFormed m (start_dial network addr m) (start_dial-Same network addr m) w)
step-IsWellFormed (dial_writes writes d) m t h w =
    Same-IsWellFormed m t (write_request-Same writes d m t h) w
step-IsWellFormed (dial_takes d) m t h w = Same-IsWellFormed m t (take_result-Same d m t h) w
step-IsWellFormed (dial_cancels d) m t h w = Same-IsWellFormed m t (cancel_dial-Same d m t h) w
step-IsWellFormed (dial_aborts d) m t h w = Same-IsWellFormed m t (abort_dial-Same d m t h) w
step-IsWellFormed mux_closes m t h w =
    holds (close_mux m) t h (IsSound-cancel m.connections m.reader m.cancelled w)
step-IsWellFormed (mux_shuts writes) m t h w =
    holds (send_shutdown writes m) t h
      (Same-IsWellFormed m (send_shutdown writes m) (send_shutdown-Same writes m) w)
step-IsWellFormed (conn_reads k n) m t h w =
    holds (read_object k n m) t h (read_object-IsWellFormed k n m w)
step-IsWellFormed (conn_writes writes k bytes) m t h w =
    holds (write_object writes k bytes m) t h
      (Same-IsWellFormed m (write_object writes k bytes m) (write_object-Same writes k bytes m) w)
step-IsWellFormed (conn_closes k) m t h w =
    holds (close_conn k m) t h (Same-IsWellFormed m (close_conn k m) (close_conn-Same k m) w)
step-IsWellFormed (job_runs writes j) m t h w = run_job-IsWellFormed writes j m t h w

pub Reach-IsWellFormed : (m : AgentMux) → Reach new_agent_mux m → IsWellFormed m
Reach-IsWellFormed m here = new_agent_mux-IsWellFormed
Reach-IsWellFormed m (next {s} r e h) = step-IsWellFormed e s m h (Reach-IsWellFormed s r)
