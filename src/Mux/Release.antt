-- ===== src/Mux/Release.antt =====
-- internal/mux/agent_mux.go: what ends the wait of handleData.
use mathlib.Core.Path.{subst}
use awsocks.Prelude.{
  ◌+◌, false, ==_iff, ℕ, ◌≡◌, refl, ◌∙◌, Bool, true, ◌||◌, some, List, [], ◌∷◌, Bytes, arith,
}
use awsocks.Prelude.Maps.{map_get, map_set, map_get-map_set, nat_eq}
use awsocks.Mux.Connection.{MuxConn}
use awsocks.Mux.State.{Action, Connections, Reader, AgentMux, new_agent_mux}
use awsocks.Mux.Reader.{drop_data, check_reader}
use awsocks.Mux.Calls.{close_mux}
use awsocks.Mux.Teardown.{
  update_object, begin_close, behind_close, close_conn, spawn, go_on, shut_conn, act, run_job,
}
use awsocks.Mux.System.{Event, Reach, run, step}
use awsocks.Mux.Table.{update_object-some}
use awsocks.Mux.Inversion.Jobs.{run_job-next}
use awsocks.Mux.Dials.{ReaderFor}
use awsocks.Mux.Dials.Results.{Reach-IsCalled}

-- the schedule runs, and leaves readLoop there
abbrev pub Leads : List Event → AgentMux → Reader → Type 0
Leads es m r = (t : AgentMux) × (run es m ≡ some t) × (t.reader ≡ r)

drop_data-ends :
    (k : ℕ) (bytes : Bytes) (c : MuxConn) (m : AgentMux)
    → m.reader ≡ Reader.delivering k bytes
    → map_get k m.connections.objects ≡ some c
    → (c.closed || m.cancelled) ≡ true
    → drop_data m ≡ some (record m { reader = Reader.looping })
unfolding drop_data
drop_data-ends k bytes c m e g ends = ground (arith, e, g, ends)

cancel-Leads :
    (k : ℕ) (bytes : Bytes) (c : MuxConn) (m : AgentMux)
    → m.reader ≡ Reader.delivering k bytes
    → map_get k m.connections.objects ≡ some c
    → Leads
        (Event.mux_closes ∷ Event.reader_drops ∷ Event.reader_checks ∷ [])
        m
        Reader.reader_stopped
unfolding run step close_mux check_reader
cancel-Leads k bytes c m e g =
    let ended = record m { cancelled = true } in
    let dropped = drop_data-ends k bytes c ended e g (ground arith) in
    (record ended { reader = Reader.reader_stopped }, ground (arith, dropped), refl)

-- MuxConn.Close of an open connection, up to close(done); nothing is to be done on a closed one
abbrev pub closing_schedule : Bool → Bool → ℕ → ℕ → List Event
closing_schedule true writes k j = Event.reader_drops ∷ []
closing_schedule false writes k j =
    Event.conn_closes k ∷ Event.job_runs writes j ∷ Event.reader_drops ∷ []

begun : ℕ → ℕ → AgentMux → AgentMux
begun k j m = record m {
  jobs =
      map_set j (Action.unregister k ∷ Action.send_close k ∷ Action.finish_once k ∷ [])
        (map_set j (Action.shut true k ∷ []) m.jobs);
  next_job = m.next_job + 1;
  connections = update_object k begin_close m.connections;
}

run_job-begun :
    (k : ℕ) (c : MuxConn) (writes : Bool) (m : AgentMux)
    → map_get k m.connections.objects ≡ some c
    → c.closed ≡ false
    → run_job writes m.next_job (close_conn k m) ≡ some (begun k m.next_job m)
unfolding act shut_conn go_on behind_close close_conn spawn begun
run_job-begun k c writes m g o =
    run_job-next writes m.next_job (Action.shut true k) [] (close_conn k m) (
      ground (
        arith,
        map_get-map_set m.next_job m.next_job (Action.shut true k ∷ []) m.jobs,
        ==_iff m.next_job m.next_job,
      ))
    ∙ ground (arith, g, o)

update_object-begun :
    (k : ℕ) (c : MuxConn) (s : Connections)
    → map_get k s.objects ≡ some c
    → map_get k (update_object k begin_close s).objects ≡ some (begin_close c)
update_object-begun k c s g =
    rw (update_object-some k begin_close s c g)
      (ground (arith, map_get-map_set k k (begin_close c) s.objects, ==_iff k k))

close-Leads :
    (k : ℕ) (bytes : Bytes) (c : MuxConn) (writes b : Bool) (m : AgentMux)
    → m.reader ≡ Reader.delivering k bytes
    → map_get k m.connections.objects ≡ some c
    → c.closed ≡ b
    → Leads (closing_schedule b writes k m.next_job) m Reader.looping
unfolding run step begin_close begun
close-Leads k bytes c writes true m e g o =
    let dropped = drop_data-ends k bytes c m e g (ground (arith, o)) in
    (record m { reader = Reader.looping }, ground (arith, dropped), refl)
close-Leads k bytes c writes false m e g o =
    let shut = begun k m.next_job m in
    let ran = run_job-begun k c writes m g o in
    let dropped =
      drop_data-ends k bytes (begin_close c) shut e (update_object-begun k c m.connections g)
        refl in
    (record shut { reader = Reader.looping }, ground (arith, ran, dropped), refl)

-- In every state that a schedule leads to and in which handleData waits to send a payload, however
-- full the connection is: MuxConn.Close of that connection, once it has closed the channel done, lets
-- readLoop go on, as it can on a connection that is closed already; and AgentMux.Close lets it return.
pub handle_data-Leads :
    (m : AgentMux) (k : ℕ) (bytes : Bytes) (writes : Bool)
    → Reach new_agent_mux m
    → m.reader ≡ Reader.delivering k bytes
    → (c : MuxConn) × (map_get k m.connections.objects ≡ some c)
      × Leads (closing_schedule c.closed writes k m.next_job) m Reader.looping
      × Leads
          (Event.mux_closes ∷ Event.reader_drops ∷ Event.reader_checks ∷ [])
          m
          Reader.reader_stopped
handle_data-Leads m k bytes writes r e =
    let (id, (c, g, i)) =
      subst (ReaderFor m.connections m.calls) e (Reach-IsCalled m r).reader_for in
    (c, g, close-Leads k bytes c writes c.closed m e g refl, cancel-Leads k bytes c m e g)
