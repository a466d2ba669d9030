-- ===== src/Mux/Death.antt =====
-- internal/mux/agent_mux.go: what declareDead leaves behind.
pub mod Answers
pub mod Effects
use mathlib.Core.Path.{subst}
use awsocks.Prelude.{
  ℕ, ◌≡◌, inl, inr, refl, sym, ap, ◌∙◌, Bool, true, false, ◌&&◌, none, some, List, [], ◌∷◌, ◌++◌,
  ◌==◌, ==_iff, any, arith, Option-cases, Bool-cases,
}
use awsocks.Prelude.Maps.{map_get, map_set, map_get-map_set, nat_eq}
use awsocks.Mux.Connection.{MuxConn}
use awsocks.Mux.State.{
  ConnResult, DialCall, Connections, Action, AgentMux, new_agent_mux, collect, end_context, look_up,
  shut, unregister, send_close, finish_once,
}
use awsocks.Mux.Teardown.{
  offer, update_object, begin_close, shut_all, go_on, shut_conn, act, run_job,
}
use awsocks.Mux.System.{step, Event, Reach, here, next, Reach-append}
use awsocks.Mux.Table.{update_object-some}
use awsocks.Mux.Inversion.Jobs.{run_job-next}
use awsocks.Mux.Invariant.Schedules.{Reach-IsWellFormed}
use awsocks.Mux.Jobs.Lasting.{Closed, Lasting, step-Lasting}
use awsocks.Mux.Jobs.Pursuit.{Reach-Pursued, ended-Pursued, Reach-IsNumbered}
use awsocks.Mux.Death.Answers.{listed, listed-map_get}
use awsocks.Mux.Death.Effects.{wants_end, wants_shut, context_ended, connection-Closed}

shut_all-lists :
    (id h : ℕ) (es : List (ℕ × ℕ)) (rest : List Action)
    → listed id h es ≡ true
    → any (wants_shut h) (shut_all es ++ rest) ≡ true
unfolding shut_all wants_shut
shut_all-lists id h [] rest e = absurd (ground (arith, e))
shut_all-lists id h ((i, k) ∷ es) rest e = ground (arith, e, shut_all-lists id h es rest)

collected-job :
    (writes : Bool) (j : ℕ) (rest : List Action) (m t : AgentMux)
    → map_get j m.jobs ≡ some (Action.collect ∷ rest)
    → run_job writes j m ≡ some t
    → map_get j t.jobs ≡ some (shut_all m.connections.conns ++ rest)
unfolding act go_on
collected-job writes j rest m t g e =
    let done : go_on j (shut_all m.connections.conns ++ rest) m ≡ t =
      ground (arith, sym (run_job-next writes j Action.collect rest m g) ∙ e) in
    ap (λ x. map_get j x.jobs) (sym done)
    ∙ ground (arith, map_get-map_set j j (shut_all m.connections.conns ++ rest) m.jobs, ==_iff j j)

-- Let a call of declareDead copy the table in a state that a schedule leads to. Whatever schedule
-- follows, once the call has ended every connection that was registered then is closed, and the
-- context has ended.
pub declare_dead-Shut :
    (writes : Bool) (j id h : ℕ) (m t u : AgentMux)
    → Reach new_agent_mux m
    → map_get j m.jobs ≡ some (Action.collect ∷ Action.end_context ∷ [])
    → map_get id m.connections.conns ≡ some h
    → run_job writes j m ≡ some t
    → Reach t u
    → map_get j u.jobs ≡ some []
    → Closed u.connections h × (u.cancelled ≡ true)
unfolding wants_end step
declare_dead-Shut writes j id h m t u r g e ran path over =
    let conns = m.connections.conns in
    let copied = collected-job writes j (Action.end_context ∷ []) m t g ran in
    let reached = next r (Event.job_runs writes j) ran in
    (
      connection-Closed h j _ t u reached copied
          (shut_all-lists id h conns (Action.end_context ∷ []) (listed-map_get id h conns e)) path
          over,
      context_ended j (Action.collect ∷ Action.end_context ∷ []) m u r g refl
          (Reach-append m t u (next here (Event.job_runs writes j) ran) path) over,
    )
