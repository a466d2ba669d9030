-- ===== src/Mux/Inversion/Jobs.antt =====
-- internal/mux/agent_mux.go, Close, closeFromRemote and declareDead: what a section can have been.
use awsocks.Prelude.{
  refl, ℕ, ◌≡◌, inl, inr, Bool, true, some, List, [], ◌∷◌, arith, Option-cases, Bool-cases,
}
use awsocks.Prelude.Maps.{map_get, map_delete, nat_eq}
use awsocks.Mux.Connection.{MuxConn}
use awsocks.Mux.State.{
  Action, AgentMux, fail_calls, collect, end_context, look_up, shut, unregister, send_close,
  finish_once,
}
use awsocks.Mux.Teardown.{update_object, begin_close, end_close, go_on, shut_conn, act, run_job}

-- the effects of a section: none on the connections or the context, the end of the context, a
-- connection that is closed, taken from the table, or let go of
pub data Acted (m t : AgentMux) : Type 0 where
  unmoved : t.connections ≡ m.connections → t.cancelled ≡ m.cancelled → Acted m t
  ended : t.connections ≡ m.connections → t.cancelled ≡ true → Acted m t
  begun :
      (h : ℕ)
      → t.connections ≡ update_object h begin_close m.connections
      → t.cancelled ≡ m.cancelled
      → Acted m t
  unlisted :
      (id : ℕ)
      → t.connections ≡ record m.connections { conns = map_delete id m.connections.conns }
      → t.cancelled ≡ m.cancelled
      → Acted m t
  let_go :
      (h : ℕ)
      → t.connections ≡ update_object h end_close m.connections
      → t.cancelled ≡ m.cancelled
      → Acted m t

shut_conn-Acted :
    (j : ℕ) (rest : List Action) (sends : Bool) (h : ℕ) (c : MuxConn) (m t : AgentMux)
    → shut_conn j rest sends h c m ≡ some t
    → (t.reader ≡ m.reader) × Acted m t
unfolding shut_conn go_on
shut_conn-Acted j rest sends h c m t e = elim (Bool-cases c.closed) [
  | inl done ↦
      (ground (arith, e, done), Acted.unmoved (ground (arith, e, done)) (ground (arith, e, done)))
  | inr open_still ↦ (
    ground (arith, e, open_still),
    Acted.begun h (ground (arith, e, open_still)) (ground (arith, e, open_still)),
  )
]

pub act-Acted :
    (writes : Bool) (j : ℕ) (a : Action) (rest : List Action) (m t : AgentMux)
    → act writes j a rest m ≡ some t
    → (t.reader ≡ m.reader) × Acted m t
unfolding act go_on
act-Acted writes j (fail_calls reason) rest m t e =
    (ground (arith, e), Acted.unmoved (ground (arith, e)) (ground (arith, e)))
act-Acted writes j collect rest m t e =
    (ground (arith, e), Acted.unmoved (ground (arith, e)) (ground (arith, e)))
act-Acted writes j end_context rest m t e =
    (ground (arith, e), Acted.ended (ground (arith, e)) (ground (arith, e)))
act-Acted writes j (look_up id) rest m t e =
    (ground (arith, e), Acted.unmoved (ground (arith, e)) (ground (arith, e)))
act-Acted writes j (shut sends h) rest m t e =
    elim (Option-cases (map_get h m.connections.objects)) [
      | inl missing ↦ absurd (ground (arith, missing, e))
      | inr (c, g) ↦ shut_conn-Acted j rest sends h c m t (ground (arith, g, e))
    ]
act-Acted writes j (unregister h) rest m t e =
    elim (Option-cases (map_get h m.connections.objects)) [
      | inl missing ↦ absurd (ground (arith, missing, e))
      | inr (c, g) ↦
          (ground (arith, g, e), Acted.unlisted c.id (ground (arith, g, e)) (ground (arith, g, e)))
    ]
act-Acted writes j (send_close h) rest m t e =
    (ground (arith, e), Acted.unmoved (ground (arith, e)) (ground (arith, e)))
act-Acted writes j (finish_once h) rest m t e =
    (ground (arith, e), Acted.let_go h (ground (arith, e)) (ground (arith, e)))

left_over :
    (writes : Bool) (j : ℕ) (m t : AgentMux) (actions : List Action)
    → map_get j m.jobs ≡ some actions
    → run_job writes j m ≡ some t
    → (a : Action) × (rest : List Action) × (map_get j m.jobs ≡ some (a ∷ rest))
      × (act writes j a rest m ≡ some t)
unfolding run_job
left_over writes j m t [] g e = absurd (ground (arith, g, e))
left_over writes j m t (a ∷ rest) g e = (a, rest, g, ground (arith, g, e))

-- A job that takes a step has a section left.
pub run_job-cases :
    (writes : Bool) (j : ℕ) (m t : AgentMux)
    → run_job writes j m ≡ some t
    → (a : Action) × (rest : List Action) × (map_get j m.jobs ≡ some (a ∷ rest))
      × (act writes j a rest m ≡ some t)
unfolding run_job
run_job-cases writes j m t e = elim (Option-cases (map_get j m.jobs)) [
  | inl missing ↦ absurd (ground (arith, missing, e))
  | inr (actions, g) ↦ left_over writes j m t actions g e
]

pub run_job-next :
    (writes : Bool) (j : ℕ) (a : Action) (rest : List Action) (m : AgentMux)
    → map_get j m.jobs ≡ some (a ∷ rest)
    → run_job writes j m ≡ act writes j a rest m
unfolding run_job
run_job-next writes j a rest m g = rw (run_job, g) refl
