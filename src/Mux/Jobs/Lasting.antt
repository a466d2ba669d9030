-- ===== src/Mux/Jobs/Lasting.antt =====
-- internal/mux/agent_mux.go: what no step takes back, a closed connection and an ended context.
use mathlib.Core.Path.{subst}
use awsocks.Protocol.{Message}
use awsocks.Prelude.{
  ℕ, ◌+◌, ◌≡◌, refl, ◌∙◌, inl, inr, true, some, ◌++◌, ◌==◌, arith, Option-cases, Bool-cases,
}
use awsocks.Prelude.Maps.{map_get, map_set, map_get-map_set, nat_eq}
use awsocks.Mux.Connection.{MuxConn, push, read_conn, new_mux_conn}
use awsocks.Mux.Connection.Stream.{read_conn-Keeps}
use awsocks.Mux.State.{Connections, AgentMux}
use awsocks.Mux.Teardown.{update_object, begin_close, end_close, close_conn}
use awsocks.Mux.Calls.{read_object, close_mux, start_dial, send_shutdown, write_object}
use awsocks.Mux.Table.{Tables, update_object-some, update_object-none}
use awsocks.Mux.Inversion.{
  Same, check_reader-cases, read_fails-cases, write_request-Same, take_result-Same,
  cancel_dial-Same, abort_dial-Same, take_pong-Same, stop_pinger-Same, start_dial-Same,
  write_object-Same, send_shutdown-Same, send_ping-Same, pong_timeout-Same, close_conn-Same,
}
use awsocks.Mux.Inversion.Messages.{Handled, receive-cases, nothing, taken}
use awsocks.Mux.Inversion.Sends.{
  register_conn-cases, deliver_data-cases, drop_data-cases, answer-cases, join_job-cases,
}
use awsocks.Mux.Inversion.Jobs.{
  Acted, act-Acted, run_job-cases, unmoved, ended, begun, unlisted, let_go,
}
use awsocks.Mux.System.{
  Event, step, reader_checks, reader_registers, reader_delivers, reader_drops, reader_answers,
  reader_fails, reader_joins, reader_receives, ping_ticks, ping_answered, ping_expires, ping_stops,
  dial_starts, dial_writes, dial_takes, dial_cancels, dial_aborts, mux_closes, mux_shuts,
  conn_reads, conn_writes, conn_closes, job_runs,
}

-- the object exists, and is closed
abbrev pub Closed : Connections → ℕ → Type 0
Closed s h = (c : MuxConn) × (map_get h s.objects ≡ some c) × (c.closed ≡ true)

KeepsClosed : Connections → Connections → Type 0
KeepsClosed s t = (h : ℕ) → Closed s h → Closed t h

unfoldable pub Lasting : AgentMux → AgentMux → Type 0
Lasting m t =
    (m.cancelled ≡ true → t.cancelled ≡ true)
    × ((h : ℕ) → Closed m.connections h → Closed t.connections h)

unmoved-KeepsClosed : (s t : Connections) → t ≡ s → KeepsClosed s t
unfolding KeepsClosed
unmoved-KeepsClosed s t e = rw e (λ h c. c)

update_object-KeepsClosed :
    (k : ℕ) (f : MuxConn → MuxConn) (s : Connections)
    → ((c : MuxConn) → c.closed ≡ true → (f c).closed ≡ true)
    → KeepsClosed s (update_object k f s)
unfolding KeepsClosed
update_object-KeepsClosed k f s keeps h (c, g, shut) = elim (Option-cases (map_get k s.objects)) [
  | inl missing ↦ rw (update_object-none k f s missing) (c, g, shut)
  | inr (d, found) ↦ rw (update_object-some k f s d found) (elim (Bool-cases (k == h)) [
    | inl same ↦ (
      f d,
      ground (arith, same, map_get-map_set k h (f d) s.objects),
      keeps d (ground (arith, same, found, g, shut)),
    )
    | inr other ↦ (c, ground (arith, other, g, map_get-map_set k h (f d) s.objects), shut)
  ])
]

register-KeepsClosed :
    (id : ℕ) (s : Connections)
    → Tables s
    → KeepsClosed s (record s {
      objects = map_set s.next_object (new_mux_conn id) s.objects;
      conns = map_set id s.next_object s.conns;
      next_object = s.next_object + 1;
    })
unfolding KeepsClosed
register-KeepsClosed id s t h (c, g, shut) = (
  c,
  ground (arith, g, t.fresh h c g, map_get-map_set s.next_object h (new_mux_conn id) s.objects),
  shut,
)

kept :
    (m t : AgentMux) (s : Connections)
    → t.connections ≡ s
    → t.cancelled ≡ m.cancelled
    → KeepsClosed m.connections s
    → Lasting m t
unfolding Lasting KeepsClosed
kept m t s e b k = (λ x. b ∙ x, rw e k)

still : (m t : AgentMux) → t.connections ≡ m.connections → t.cancelled ≡ m.cancelled → Lasting m t
still m t e b = kept m t m.connections e b (unmoved-KeepsClosed m.connections m.connections refl)

Same-Lasting : (m t : AgentMux) → Same m t → Lasting m t
Same-Lasting m t (e, r, b) = still m t e b

acted-Lasting : (m t : AgentMux) → Acted m t → Lasting m t
unfolding Lasting begin_close end_close
acted-Lasting m t (unmoved e b) = still m t e b
acted-Lasting m t (ended e b) = (λ x. b, rw e (λ h c. c))
acted-Lasting m t (begun h e b) =
    kept m t _ e b (update_object-KeepsClosed h begin_close m.connections (λ c x. refl))
acted-Lasting m t (unlisted id e b) = (λ x. b ∙ x, rw e (λ h c. c))
acted-Lasting m t (let_go h e b) =
    kept m t _ e b (update_object-KeepsClosed h end_close m.connections (λ c x. x))

Handled-Lasting :
    (m t : AgentMux) → t.cancelled ≡ m.cancelled → (msg : Message) → Handled msg m t → Lasting m t
Handled-Lasting m t b msg (nothing idle e) = still m t e b
Handled-Lasting m t b msg (taken k g r e) = kept m t _ e b (
    update_object-KeepsClosed k (λ c. record c { routed = c.routed ++ msg.payload }) m.connections
      (λ c x. x))

holds : (m t u : AgentMux) → some t ≡ some u → Lasting m t → Lasting m u
holds m t u e w = let same : t ≡ u = ground (arith, e) in subst (Lasting m) same w

pub step-Lasting :
    (e : Event) (m t : AgentMux) → step e m ≡ some t → Tables m.connections → Lasting m t
unfolding step close_mux read_object push Lasting
step-Lasting reader_checks m t h ts = let (at, e, b, r) = check_reader-cases m t h in still m t e b
step-Lasting reader_registers m t h ts =
    let (at, after, b, (id, e)) = register_conn-cases m t h in
    kept m t _ e b (register-KeepsClosed id m.connections ts)
step-Lasting reader_delivers m t h ts =
    let (k, bytes, c, at, room, e, r, b) = deliver_data-cases m t h in
    kept m t _ e b (update_object-KeepsClosed k (push bytes) m.connections (λ d x. x))
step-Lasting reader_drops m t h ts =
    let (k, bytes, c, at, ends, e, r, b) = drop_data-cases m t h in still m t e b
step-Lasting reader_answers m t h ts =
    let (idle, busy_still, after, b, e) = answer-cases m t h in still m t e b
step-Lasting reader_fails m t h ts = let (at, r, e, b) = read_fails-cases m t h in still m t e b
step-Lasting reader_joins m t h ts =
    let (idle, busy_still, after, b, e) = join_job-cases m t h in still m t e b
step-Lasting (reader_receives msg) m t h ts =
    let (at, b, handled) = receive-cases msg m t h in Handled-Lasting m t b msg handled
step-Lasting (ping_ticks writes) m t h ts = Same-Lasting m t (send_ping-Same writes m t h)
step-Lasting ping_answered m t h ts = Same-Lasting m t (take_pong-Same m t h)
step-Lasting ping_expires m t h ts = Same-Lasting m t (pong_timeout-Same m t h)
step-Lasting ping_stops m t h ts = Same-Lasting m t (stop_pinger-Same m t h)
step-Lasting (dial_starts network addr) m t h ts =
    holds m (start_dial network addr m) t h
      (Same-Lasting m (start_dial network addr m) (start_dial-Same network addr m))
step-Lasting (dial_writes writes d) m t h ts = Same-Lasting m t (write_request-Same writes d m t h)
step-Lasting (dial_takes d) m t h ts = Same-Lasting m t (take_result-Same d m t h)
step-Lasting (dial_cancels d) m t h ts = Same-Lasting m t (cancel_dial-Same d m t h)
step-Lasting (dial_aborts d) m t h ts = Same-Lasting m t (abort_dial-Same d m t h)
step-Lasting mux_closes m t h ts = holds m (close_mux m) t h (λ x. refl, λ k c. c)
step-Lasting (mux_shuts writes) m t h ts =
    holds m (send_shutdown writes m) t h
      (Same-Lasting m (send_shutdown writes m) (send_shutdown-Same writes m))
step-Lasting (conn_reads k n) m t h ts = holds m (read_object k n m) t h (
    kept m (read_object k n m) _ refl refl (
      update_object-KeepsClosed k (λ c. (read_conn n c).0) m.connections
        (λ c x. (read_conn-Keeps n c).same_closed ∙ x)))
step-Lasting (conn_writes writes k bytes) m t h ts =
    holds m (write_object writes k bytes m) t h
      (Same-Lasting m (write_object writes k bytes m) (write_object-Same writes k bytes m))
step-Lasting (conn_closes k) m t h ts =
    holds m (close_conn k m) t h (Same-Lasting m (close_conn k m) (close_conn-Same k m))
step-Lasting (job_runs writes j) m t h ts =
    let (a, rest, g, e) = run_job-cases writes j m t h in
    acted-Lasting m t (act-Acted writes j a rest m t e).1
