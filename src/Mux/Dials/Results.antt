-- ===== src/Mux/Dials/Results.antt =====
-- internal/mux/agent_mux.go, Dial: the connection that a call returns, in every schedule.
use mathlib.Core.Path.{subst}
use awsocks.Prelude.{ℕ, ◌≡◌, refl, Bool, some, Bytes, arith}
use awsocks.Prelude.Maps.{map_get, nat_eq}
use awsocks.Mux.State.{AgentMux}
use awsocks.Mux.Table.Owned.{Owned}
use awsocks.Mux.Calls.{start_dial}
use awsocks.Mux.Connection.{push, read_conn}
use awsocks.Mux.Connection.Stream.{read_conn-Keeps}
use awsocks.Mux.Teardown.{close_conn, spawn}
use awsocks.Mux.Reader.{deliver_data, drop_data}
use awsocks.Mux.Pinger.{take_pong, stop_pinger}
use awsocks.Mux.Calls.{close_mux, send_shutdown, read_object, write_object}
use awsocks.Mux.Table.{Tables}
use awsocks.Mux.Table.Kept.{Quiet}
use awsocks.Mux.Table.Owned.{Grows-update_object}
use awsocks.Mux.Dials.Changes.{IsCalled}
use awsocks.Mux.Inversion.Sends.{deliver_data-cases, drop_data-cases}
use awsocks.Mux.Dials.Steps.{
  still-IsCalled, idle-IsCalled, unchanged, check_reader-IsCalled, register_conn-IsCalled,
}
use awsocks.Mux.Table.Kept.{Quiet}
use awsocks.Mux.System.{
  Event, Reach, here, next, step, reader_checks, reader_registers, reader_delivers, reader_drops,
  reader_answers, reader_fails, reader_joins, job_runs, reader_receives, ping_ticks, ping_answered,
  ping_expires, ping_stops, dial_starts, dial_writes, dial_takes, dial_cancels, dial_aborts,
  mux_closes, mux_shuts, conn_reads, conn_writes, conn_closes,
}
use awsocks.Mux.State.{new_agent_mux}
use awsocks.Mux.Calls.{start_dial}
use awsocks.Mux.Dials.Messages.{answer-IsCalled, receive-IsCalled}
use awsocks.Mux.Dials.Ends.{
  write_request-IsCalled, take_result-IsCalled, cancel_dial-IsCalled, abort_dial-IsCalled,
  start_dial-IsCalled, send_ping-IsCalled, pong_timeout-IsCalled, read_fails-IsCalled,
  join_job-IsCalled, run_job-IsCalled,
}
use awsocks.Mux.Invariant.Schedules.{Reach-IsWellFormed}

reading_keeps : (n : ℕ) → Quiet (λ c. (read_conn n c).0)
reading_keeps n = record { same_id = λ c. (read_conn-Keeps n c).same_id }

read_object-IsCalled : (h n : ℕ) (m : AgentMux) → IsCalled m → IsCalled (read_object h n m)
unfolding read_object
read_object-IsCalled h n m w =
    still-IsCalled m (read_object h n m) (refl, refl, refl)
      (Grows-update_object h (λ c. (read_conn n c).0) m.connections (reading_keeps n)) refl w

close_conn-IsCalled : (h : ℕ) (m : AgentMux) → IsCalled m → IsCalled (close_conn h m)
unfolding close_conn spawn
close_conn-IsCalled h m = still-IsCalled m (close_conn h m) (refl, refl, refl) (λ k i o. o) refl

deliver_data-IsCalled : (m t : AgentMux) → deliver_data m ≡ some t → IsCalled m → IsCalled t
unfolding deliver_data push
deliver_data-IsCalled m t h w =
    let (k, bytes, c, at, room, e, r, b) = deliver_data-cases m t h in
    idle-IsCalled m t (ground (arith, h))
      (rw e (Grows-update_object k (push bytes) m.connections (record { same_id = λ d. refl })))
      (ground (arith, r)) w

drop_data-IsCalled : (m t : AgentMux) → drop_data m ≡ some t → IsCalled m → IsCalled t
unfolding drop_data
drop_data-IsCalled m t h w =
    let (k, bytes, c, at, ends, e, r, b) = drop_data-cases m t h in
    idle-IsCalled m t (ground (arith, h)) (unchanged m.connections t.connections e)
      (ground (arith, r)) w

take_pong-IsCalled : (m t : AgentMux) → take_pong m ≡ some t → IsCalled m → IsCalled t
unfolding take_pong
take_pong-IsCalled m t h w =
    still-IsCalled m t (ground (arith, h))
      (unchanged m.connections t.connections (ground (arith, h))) (ground (arith, h)) w

stop_pinger-IsCalled : (m t : AgentMux) → stop_pinger m ≡ some t → IsCalled m → IsCalled t
unfolding stop_pinger
stop_pinger-IsCalled m t h w =
    still-IsCalled m t (ground (arith, h))
      (unchanged m.connections t.connections (ground (arith, h))) (ground (arith, h)) w

send_shutdown-IsCalled :
    (writes : Bool) (m : AgentMux) → IsCalled m → IsCalled (send_shutdown writes m)
unfolding send_shutdown
send_shutdown-IsCalled writes m w =
    still-IsCalled m (send_shutdown writes m) (ground arith)
      (unchanged m.connections (send_shutdown writes m).connections (ground arith)) (ground arith) w

write_object-IsCalled :
    (writes : Bool) (h : ℕ) (bytes : Bytes) (m : AgentMux)
    → IsCalled m
    → IsCalled (write_object writes h bytes m)
unfolding write_object
write_object-IsCalled writes h bytes m w =
    still-IsCalled m (write_object writes h bytes m) (ground arith)
      (unchanged m.connections (write_object writes h bytes m).connections (ground arith))
      (ground arith) w

holds : (t u : AgentMux) → some t ≡ some u → IsCalled t → IsCalled u
holds t u e w = let same : t ≡ u = ground (arith, e) in subst IsCalled same w

step-IsCalled :
    (e : Event) (m t : AgentMux)
    → step e m ≡ some t
    → Tables m.connections
    → IsCalled m
    → IsCalled t
unfolding step close_mux
step-IsCalled reader_checks m t h ts w = check_reader-IsCalled m t h w
step-IsCalled reader_registers m t h ts w = register_conn-IsCalled m t h ts w
step-IsCalled reader_delivers m t h ts w = deliver_data-IsCalled m t h w
step-IsCalled reader_drops m t h ts w = drop_data-IsCalled m t h w
step-IsCalled reader_answers m t h ts w = answer-IsCalled m t h w
step-IsCalled reader_fails m t h ts w = read_fails-IsCalled m t h w
step-IsCalled reader_joins m t h ts w = join_job-IsCalled m t h w
step-IsCalled (reader_receives msg) m t h ts w = receive-IsCalled msg m t h ts w
step-IsCalled (ping_ticks writes) m t h ts w = send_ping-IsCalled writes m t h w
step-IsCalled ping_answered m t h ts w = take_pong-IsCalled m t h w
step-IsCalled ping_expires m t h ts w = pong_timeout-IsCalled m t h w
step-IsCalled ping_stops m t h ts w = stop_pinger-IsCalled m t h w
step-IsCalled (dial_starts network addr) m t h ts w =
    holds (start_dial network addr m) t h (start_dial-IsCalled network addr m w)
step-IsCalled (dial_writes writes d) m t h ts w = write_request-IsCalled writes d m t h w
step-IsCalled (dial_takes d) m t h ts w = take_result-IsCalled d m t h w
step-IsCalled (dial_cancels d) m t h ts w = cancel_dial-IsCalled d m t h w
step-IsCalled (dial_aborts d) m t h ts w = abort_dial-IsCalled d m t h w
step-IsCalled mux_closes m t h ts w = holds (close_mux m) t h w
step-IsCalled (mux_shuts writes) m t h ts w =
    holds (send_shutdown writes m) t h (send_shutdown-IsCalled writes m w)
step-IsCalled (conn_reads k n) m t h ts w =
    holds (read_object k n m) t h (read_object-IsCalled k n m w)
step-IsCalled (conn_writes writes k bytes) m t h ts w =
    holds (write_object writes k bytes m) t h (write_object-IsCalled writes k bytes m w)
step-IsCalled (conn_closes k) m t h ts w = holds (close_conn k m) t h (close_conn-IsCalled k m w)
step-IsCalled (job_runs writes j) m t h ts w = run_job-IsCalled writes j m t h w

pub Reach-IsCalled : (m : AgentMux) → Reach new_agent_mux m → IsCalled m
unfolding new_agent_mux map_get
Reach-IsCalled m here = record {
  pending_for = λ id d e. absurd (ground (arith, e));
  fresh_calls = λ d call e. absurd (ground (arith, e));
  calls_for = λ d call e. absurd (ground (arith, e));
  reader_for = tt;
}
Reach-IsCalled m (next {s} r e h) =
    step-IsCalled e s m h (Reach-IsWellFormed s r).tables (Reach-IsCalled s r)
