-- ===== src/Mux/Dials/Ends.antt =====
-- internal/mux/agent_mux.go, Dial and declareDead: how a call begins, and how it ends.
use mathlib.Core.Path.{subst}
use awsocks.Prelude.{
  ◌++◌, ◌⊎◌, ℕ, ◌+◌, ◌≡◌, inl, inr, refl, Bool, some, List, [], ◌∷◌, ==_iff, Bytes, arith,
  Option-cases, Bool-cases, All,
}
use awsocks.Prelude.Maps.{map_get, map_set, map_get-map_set, nat_eq}
use awsocks.Mux.State.{ConnResult, DialOutcome, DialPhase, DialCall, Reader, Connections, AgentMux}
use awsocks.Mux.Dials.{ResultFor, OutcomeFor, IsDialed, IsDialed-set}
use awsocks.Mux.Calls.{start_dial, finish_dial}
use awsocks.Mux.Teardown.{
  declare_dead, spawn, fail_all, begin_close, end_close, go_on, shut_conn, act, run_job,
}
use awsocks.Mux.State.{
  Action, fail_calls, collect, end_context, look_up, shut, unregister, send_close, finish_once,
}
use awsocks.Mux.Inversion.Jobs.{
  Acted, unmoved, ended, begun, unlisted, let_go, act-Acted, run_job-cases,
}
use awsocks.Mux.Reader.{join_job}
use awsocks.Mux.Reader.{read_fails}
use awsocks.Mux.Pinger.{send_ping, pong_timeout}
use awsocks.Mux.Calls.{write_request, take_result, cancel_dial, abort_dial}
use awsocks.Mux.Table.Owned.{Grows, Grows-update_object}
use awsocks.Mux.Dials.Changes.{
  IsCalled, IsDialed-fail_all, finish_dial-IsCalled, IsDialed-call, IsDialed-ask,
}
use awsocks.Mux.Dials.Steps.{Kept, still-IsCalled, idle-IsCalled, unchanged}
use awsocks.Mux.Calls.{write_request, take_result, cancel_dial, abort_dial, start_dial}

-- the request is written, and the call waits
asked : ℕ → DialCall → AgentMux → AgentMux
asked d call m = record m {
  calls = map_set d (record call { phase = DialPhase.waiting }) m.calls;
  written = m.written ++ call.request ∷ [];
}

pub write_request-IsCalled :
    (writes : Bool) (d : ℕ) (m t : AgentMux)
    → write_request writes d m ≡ some t
    → IsCalled m
    → IsCalled t
unfolding write_request asked
write_request-IsCalled writes d m t h w = elim (Option-cases (map_get d m.calls)) [
  | inl missing ↦ absurd (ground (arith, missing, h))
  | inr (call, g) ↦
      let done : (asked d call m ≡ t)
          ⊎ (finish_dial d call call.resp DialOutcome.dial_write_failed m ≡ t) =
        ground (arith, g, h) in
      elim done [
        | inl e ↦ subst IsCalled e (
            IsDialed-set m.connections m.pending m.calls m.next_call m.reader d call
              (record call { phase = DialPhase.waiting }) g refl ((w.calls_for d call g).0, tt) w)
        | inr e ↦ subst IsCalled e (
            finish_dial-IsCalled d call call.resp DialOutcome.dial_write_failed m g
              (w.calls_for d call g).0 tt w)
      ]
]

take_by :
    (d : ℕ) (m t : AgentMux) (call : DialCall) (rs : List ConnResult)
    → map_get d m.calls ≡ some call
    → call.resp ≡ rs
    → All (ResultFor m.connections call.conn_id) rs
    → take_result d m ≡ some t
    → IsCalled m
    → IsCalled t
unfolding take_result
take_by d m t call [] g e a h w = absurd (ground (arith, g, e, h))
take_by d m t call (result ∷ rest) g e (a, b) h w =
    let done : finish_dial d call rest (DialOutcome.got result) m ≡ t = ground (arith, g, e, h) in
    subst IsCalled done (finish_dial-IsCalled d call rest (DialOutcome.got result) m g b a w)

pub take_result-IsCalled :
    (d : ℕ) (m t : AgentMux) → take_result d m ≡ some t → IsCalled m → IsCalled t
unfolding take_result
take_result-IsCalled d m t h w = elim (Option-cases (map_get d m.calls)) [
  | inl missing ↦ absurd (ground (arith, missing, h))
  | inr (call, g) ↦ take_by d m t call call.resp g refl (w.calls_for d call g).0 h w
]

pub cancel_dial-IsCalled :
    (d : ℕ) (m t : AgentMux) → cancel_dial d m ≡ some t → IsCalled m → IsCalled t
unfolding cancel_dial
cancel_dial-IsCalled d m t h w = elim (Option-cases (map_get d m.calls)) [
  | inl missing ↦ absurd (ground (arith, missing, h))
  | inr (call, g) ↦
      let done : finish_dial d call call.resp DialOutcome.dial_cancelled m ≡ t =
        ground (arith, g, h) in
      subst IsCalled done (
        finish_dial-IsCalled d call call.resp DialOutcome.dial_cancelled m g
          (w.calls_for d call g).0 tt w)
]

pub abort_dial-IsCalled :
    (d : ℕ) (m t : AgentMux) → abort_dial d m ≡ some t → IsCalled m → IsCalled t
unfolding abort_dial
abort_dial-IsCalled d m t h w = elim (Option-cases (map_get d m.calls)) [
  | inl missing ↦ absurd (ground (arith, missing, h))
  | inr (call, g) ↦
      let done : finish_dial d call call.resp DialOutcome.dial_mux_closed m ≡ t =
        ground (arith, g, h) in
      subst IsCalled done (
        finish_dial-IsCalled d call call.resp DialOutcome.dial_mux_closed m g
          (w.calls_for d call g).0 tt w)
]

-- a new call with its entry among the pending ones
placed :
    (s : Connections) (pending : List (ℕ × ℕ)) (calls : List (ℕ × DialCall)) (next_call : ℕ)
    (r : Reader) (new : DialCall) (id : ℕ)
    → new.resp ≡ []
    → new.conn_id ≡ id
    → OutcomeFor s new.conn_id new.phase
    → IsDialed s pending calls next_call r
    → IsDialed s (map_set id next_call pending) (map_set next_call new calls) (next_call + 1) r
placed s pending calls next_call r new id e i o w =
    IsDialed-ask s pending (map_set next_call new calls) (next_call + 1) r id next_call
      (
        new,
        ground (arith, map_get-map_set next_call next_call new calls, ==_iff next_call next_call),
        i,
      )
      (IsDialed-call s pending calls next_call r new e o w)

pub start_dial-IsCalled :
    (network addr : Bytes) (m : AgentMux) → IsCalled m → IsCalled (start_dial network addr m)
unfolding start_dial
start_dial-IsCalled network addr m w = elim (Bool-cases m.cancelled) [
  | inl over ↦
      rw (start_dial, over)
        (IsDialed-call m.connections m.pending m.calls m.next_call m.reader _ refl tt w)
  | inr runs ↦
      rw (start_dial, runs)
        (placed m.connections m.pending m.calls m.next_call m.reader _ _ refl refl tt w)
]

acted-Grows : (m t : AgentMux) → Acted m t → Grows m.connections t.connections
unfolding begin_close end_close
acted-Grows m t (unmoved e b) = unchanged m.connections t.connections e
acted-Grows m t (ended e b) = unchanged m.connections t.connections e
acted-Grows m t (begun h e b) =
    rw e (Grows-update_object h begin_close m.connections (record { same_id = λ c. refl }))
acted-Grows m t (unlisted id e b) = rw e (λ h i o. o)
acted-Grows m t (let_go h e b) =
    rw e (Grows-update_object h end_close m.connections (record { same_id = λ c. refl }))

-- a section that leaves the calls alone
act-still :
    (writes : Bool) (j : ℕ) (a : Action) (rest : List Action) (m t : AgentMux)
    → act writes j a rest m ≡ some t
    → Kept m t
    → IsCalled m
    → IsCalled t
act-still writes j a rest m t e k =
    let (r, acted) = act-Acted writes j a rest m t e in
    still-IsCalled m t k (acted-Grows m t acted) r

act-IsCalled :
    (writes : Bool) (j : ℕ) (a : Action) (rest : List Action) (m t : AgentMux)
    → act writes j a rest m ≡ some t
    → IsCalled m
    → IsCalled t
unfolding act go_on shut_conn
act-IsCalled writes j (fail_calls reason) rest m t e w =
    let done : go_on j rest (record m { calls = fail_all reason m.pending m.calls }) ≡ t =
      ground (arith, e) in
    subst IsCalled done
      (IsDialed-fail_all reason m.pending m.connections m.pending m.calls m.next_call m.reader w)
act-IsCalled writes j collect rest m t e w =
    act-still writes j collect rest m t e (ground (arith, e)) w
act-IsCalled writes j end_context rest m t e w =
    act-still writes j end_context rest m t e (ground (arith, e)) w
act-IsCalled writes j (look_up id) rest m t e w =
    act-still writes j (look_up id) rest m t e (ground (arith, e)) w
act-IsCalled writes j (shut sends h) rest m t e w =
    act-still writes j (shut sends h) rest m t e (ground (arith, e)) w
act-IsCalled writes j (unregister h) rest m t e w =
    act-still writes j (unregister h) rest m t e (ground (arith, e)) w
act-IsCalled writes j (send_close h) rest m t e w =
    act-still writes j (send_close h) rest m t e (ground (arith, e)) w
act-IsCalled writes j (finish_once h) rest m t e w =
    act-still writes j (finish_once h) rest m t e (ground (arith, e)) w

pub run_job-IsCalled :
    (writes : Bool) (j : ℕ) (m t : AgentMux) → run_job writes j m ≡ some t → IsCalled m → IsCalled t
run_job-IsCalled writes j m t h =
    let (a, rest, g, e) = run_job-cases writes j m t h in act-IsCalled writes j a rest m t e

pub send_ping-IsCalled :
    (writes : Bool) (m t : AgentMux) → send_ping writes m ≡ some t → IsCalled m → IsCalled t
unfolding send_ping declare_dead spawn
send_ping-IsCalled writes m t h =
    still-IsCalled m t (ground (arith, h))
      (unchanged m.connections t.connections (ground (arith, h))) (ground (arith, h))

pub pong_timeout-IsCalled : (m t : AgentMux) → pong_timeout m ≡ some t → IsCalled m → IsCalled t
unfolding pong_timeout declare_dead spawn
pong_timeout-IsCalled m t h =
    still-IsCalled m t (ground (arith, h))
      (unchanged m.connections t.connections (ground (arith, h))) (ground (arith, h))

pub read_fails-IsCalled : (m t : AgentMux) → read_fails m ≡ some t → IsCalled m → IsCalled t
unfolding read_fails declare_dead spawn
read_fails-IsCalled m t h =
    idle-IsCalled m t (ground (arith, h))
      (unchanged m.connections t.connections (ground (arith, h))) (ground (arith, h))

pub join_job-IsCalled : (m t : AgentMux) → join_job m ≡ some t → IsCalled m → IsCalled t
unfolding join_job
join_job-IsCalled m t h =
    idle-IsCalled m t (ground (arith, h))
      (unchanged m.connections t.connections (ground (arith, h))) (ground (arith, h))
