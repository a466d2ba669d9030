-- ===== src/Mux/Invariant/Steps.antt =====
-- internal/mux/agent_mux.go: every step of the goroutines keeps the invariant.
use mathlib.Core.Path.{subst}
use awsocks.Prelude.{
  ℕ, ◌+◌, ◌≡◌, inl, inr, refl, sym, Bool, true, false, some, [], arith, Bool-cases,
}
use awsocks.Prelude.Maps.{map_set, nat_eq, map_set-cases}
use awsocks.Mux.Connection.{new_mux_conn}
use awsocks.Mux.State.{
  Reader, Connections, AgentMux, looping, reading, acking, answering, delivering, reader_stopped,
}
use awsocks.Mux.Teardown.{update_object, begin_close, end_close, run_job}
use awsocks.Mux.Connection.Within.{Within}
use awsocks.Mux.Table.Kept.{Tables-unregister}
use awsocks.Prelude.Maps.{map_delete}
use awsocks.Mux.Flow.{Flow-close}
use awsocks.Mux.Reader.{join_job}
use awsocks.Mux.Inversion.Jobs.{
  Acted, act-Acted, run_job-cases, unmoved, ended, begun, unlisted, let_go,
}
use awsocks.Mux.Inversion.Sends.{join_job-cases}
use awsocks.Mux.Invariant.{IsSound-update_object}
use awsocks.Mux.State.{joining}
use awsocks.Mux.Reader.{check_reader, register_conn, answer, read_fails}
use awsocks.Mux.Table.Kept.{Tables-register}
use awsocks.Mux.Flow.{stalled, Flow}
use awsocks.Mux.Inversion.{check_reader-cases, read_fails-cases}
use awsocks.Mux.Inversion.Messages.{delivers, acks}
use awsocks.Mux.Inversion.Sends.{register_conn-cases, answer-cases}
use awsocks.Mux.Invariant.{
  IsSound, IsWellFormed, moved, IsSound-change, IsSound-cancel, flying_idle,
}

pub check_reader-IsWellFormed :
    (m t : AgentMux) → check_reader m ≡ some t → IsWellFormed m → IsWellFormed t
check_reader-IsWellFormed m t h w =
    let (at, e, b, r) = check_reader-cases m t h in
    let before : IsSound m.connections Reader.looping m.cancelled =
      subst (λ x. IsSound m.connections x m.cancelled) at w in
    elim (Bool-cases m.cancelled) [
      | inl over ↦
          moved t m.connections Reader.reader_stopped m.cancelled e (ground (arith, r, over)) b (
            IsSound-change m.connections Reader.looping Reader.reader_stopped m.cancelled
              m.cancelled refl refl (λ x y. (x, refl)) before)
      | inr runs ↦ moved t m.connections Reader.reading m.cancelled e (ground (arith, r, runs)) b (
          IsSound-change m.connections Reader.looping Reader.reading m.cancelled m.cancelled refl
            refl (λ x y. absurd (ground (arith, x, runs))) before)
    ]

pub read_fails-IsWellFormed :
    (m t : AgentMux) → read_fails m ≡ some t → IsWellFormed m → IsWellFormed t
read_fails-IsWellFormed m t h w =
    let (at, r, e, b) = read_fails-cases m t h in
    moved t m.connections Reader.reader_stopped m.cancelled e r b (
      IsSound-change m.connections Reader.reading Reader.reader_stopped m.cancelled m.cancelled refl
        refl (λ x y. (x, refl)) (subst (λ x. IsSound m.connections x m.cancelled) at w))

acks_idle : (r : Reader) → acks r ≡ true → (delivers r ≡ false) × (stalled r ≡ false)
acks_idle looping e = absurd (ground (arith, e))
acks_idle reading e = absurd (ground (arith, e))
acks_idle (acking id d) e = (refl, refl)
acks_idle (answering d result after) e = absurd (ground (arith, e))
acks_idle (delivering k bytes) e = absurd (ground (arith, e))
acks_idle (joining j) e = absurd (ground (arith, e))
acks_idle reader_stopped e = absurd (ground (arith, e))

Flow-new : (r : Reader) (b : Bool) (h id : ℕ) → delivers r ≡ false → Flow r b h (new_mux_conn id)
unfolding new_mux_conn
Flow-new r b h id i =
    let none_flying = sym (flying_idle r h i).0 in
    (subst (λ x. Within x []) none_flying refl, inr ([], refl, inl none_flying))

IsSound-register :
    (id : ℕ) (s : Connections) (r : Reader) (b : Bool)
    → delivers r ≡ false
    → IsSound s r b
    → IsSound
        (record s {
          objects = map_set s.next_object (new_mux_conn id) s.objects;
          conns = map_set id s.next_object s.conns;
          next_object = s.next_object + 1;
        })
        r
        b
IsSound-register id s r b i w = record {
  tables = Tables-register id s w.tables;
  flow = λ h c g. elim (map_set-cases s.next_object h (new_mux_conn id) c s.objects g) [
    | inl (same, new) ↦ subst (Flow r b h) (sym new) (Flow-new r b h id i)
    | inr (other, old) ↦ w.flow h c old
  ];
}

pub register_conn-IsWellFormed :
    (m t : AgentMux) → register_conn m ≡ some t → IsWellFormed m → IsWellFormed t
register_conn-IsWellFormed m t h w =
    let (at, after, b, (id, e)) = register_conn-cases m t h in
    let (idle, busy_still) = acks_idle m.reader at in
    moved t _ t.reader m.cancelled e refl b (
      IsSound-register id m.connections t.reader m.cancelled after (
        IsSound-change m.connections m.reader t.reader m.cancelled m.cancelled idle after
          (λ x y. absurd (ground (arith, y, busy_still))) w))

-- readLoop goes on with nothing in its hands.
passed :
    (m t : AgentMux)
    → delivers m.reader ≡ false
    → stalled m.reader ≡ false
    → delivers t.reader ≡ false
    → t.cancelled ≡ m.cancelled
    → t.connections ≡ m.connections
    → IsWellFormed m
    → IsWellFormed t
passed m t idle busy_still after b e w = moved t m.connections t.reader m.cancelled e refl b (
    IsSound-change m.connections m.reader t.reader m.cancelled m.cancelled idle after
      (λ x y. absurd (ground (arith, y, busy_still))) w)

pub answer-IsWellFormed : (m t : AgentMux) → answer m ≡ some t → IsWellFormed m → IsWellFormed t
answer-IsWellFormed m t h =
    let (idle, busy_still, after, b, e) = answer-cases m t h in passed m t idle busy_still after b e

pub join_job-IsWellFormed : (m t : AgentMux) → join_job m ≡ some t → IsWellFormed m → IsWellFormed t
join_job-IsWellFormed m t h =
    let (idle, busy_still, after, b, e) = join_job-cases m t h in
    passed m t idle busy_still after b e

IsSound-unregister :
    (id : ℕ) (s : Connections) (r : Reader) (b : Bool)
    → IsSound s r b
    → IsSound (record s { conns = map_delete id s.conns }) r b
IsSound-unregister id s r b w = record { tables = Tables-unregister id s w.tables; flow = w.flow }

acted-IsWellFormed :
    (m t : AgentMux) → t.reader ≡ m.reader → Acted m t → IsWellFormed m → IsWellFormed t
unfolding begin_close end_close
acted-IsWellFormed m t r (unmoved e b) w = moved t m.connections m.reader m.cancelled e r b w
acted-IsWellFormed m t r (ended e b) w =
    moved t m.connections m.reader true e r b (IsSound-cancel m.connections m.reader m.cancelled w)
acted-IsWellFormed m t r (begun h e b) w =
    moved t (update_object h begin_close m.connections) m.reader m.cancelled e r b (
      IsSound-update_object h begin_close m.connections m.reader m.cancelled
        (record { same_id = λ c. refl }) (Flow-close m.reader m.cancelled h) w)
acted-IsWellFormed m t r (unlisted id e b) w =
    moved t _ m.reader m.cancelled e r b
      (IsSound-unregister id m.connections m.reader m.cancelled w)
acted-IsWellFormed m t r (let_go h e b) w =
    moved t (update_object h end_close m.connections) m.reader m.cancelled e r b (
      IsSound-update_object h end_close m.connections m.reader m.cancelled
        (record { same_id = λ c. refl }) (λ c f. f) w)

pub run_job-IsWellFormed :
    (writes : Bool) (j : ℕ) (m t : AgentMux)
    → run_job writes j m ≡ some t
    → IsWellFormed m
    → IsWellFormed t
run_job-IsWellFormed writes j m t h =
    let (a, rest, g, e) = run_job-cases writes j m t h in
    let (r, acted) = act-Acted writes j a rest m t e in acted-IsWellFormed m t r acted
