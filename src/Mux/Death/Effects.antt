-- ===== src/Mux/Death/Effects.antt =====
-- internal/mux/agent_mux.go, declareDead: what its sections achieve by the time that it ends.
use mathlib.Core.Path.{subst}
use awsocks.Prelude.{
  ℕ, ◌≡◌, inl, inr, refl, Bool, true, false, some, List, [], ◌==◌, ==_iff, any, arith, Option-cases,
  Bool-cases,
}
use awsocks.Prelude.Maps.{map_get, map_get-map_set, nat_eq}
use awsocks.Mux.Connection.{MuxConn}
use awsocks.Mux.State.{
  Connections, Action, AgentMux, new_agent_mux, fail_calls, collect, end_context, look_up, shut,
  unregister, send_close, finish_once,
}
use awsocks.Mux.Teardown.{update_object, begin_close, go_on, shut_conn, act}
use awsocks.Mux.System.{step, Event, Reach}
use awsocks.Mux.Table.{update_object-some}
use awsocks.Mux.Invariant.Schedules.{Reach-IsWellFormed}
use awsocks.Mux.Jobs.Lasting.{Closed, Lasting, step-Lasting}
use awsocks.Mux.Jobs.Pursuit.{Reach-Pursued, ended-Pursued, Reach-IsNumbered}

-- which sections end the context, and which close a connection
unfoldable pub wants_end : Action → Bool
wants_end end_context = true
wants_end _ = false

unfoldable pub wants_shut : ℕ → Action → Bool
wants_shut h (shut sends k) = k == h
wants_shut h _ = false

end_context-ends :
    (writes : Bool) (j : ℕ) (a : Action) (rest : List Action) (m t : AgentMux)
    → act writes j a rest m ≡ some t
    → wants_end a ≡ true
    → t.cancelled ≡ true
unfolding act go_on wants_end
end_context-ends writes j (fail_calls reason) rest m t e p = absurd (ground (arith, p))
end_context-ends writes j collect rest m t e p = absurd (ground (arith, p))
end_context-ends writes j end_context rest m t e p = ground (arith, e)
end_context-ends writes j (look_up id) rest m t e p = absurd (ground (arith, p))
end_context-ends writes j (shut sends h) rest m t e p = absurd (ground (arith, p))
end_context-ends writes j (unregister h) rest m t e p = absurd (ground (arith, p))
end_context-ends writes j (send_close h) rest m t e p = absurd (ground (arith, p))
end_context-ends writes j (finish_once h) rest m t e p = absurd (ground (arith, p))

begin_close-Closed :
    (h : ℕ) (c : MuxConn) (s : Connections)
    → map_get h s.objects ≡ some c
    → Closed (update_object h begin_close s) h
unfolding begin_close
begin_close-Closed h c s g =
    rw (update_object-some h begin_close s c g) (
      begin_close c,
      ground (arith, map_get-map_set h h (begin_close c) s.objects, ==_iff h h),
      refl,
    )

shut_conn-Closed :
    (j : ℕ) (rest : List Action) (sends : Bool) (h : ℕ) (c : MuxConn) (m t : AgentMux)
    → map_get h m.connections.objects ≡ some c
    → shut_conn j rest sends h c m ≡ some t
    → Closed t.connections h
unfolding shut_conn go_on
shut_conn-Closed j rest sends h c m t g e = elim (Bool-cases c.closed) [
  | inl done ↦
      let same : t.connections ≡ m.connections = ground (arith, e, done) in rw same (c, g, done)
  | inr opened ↦
      let same : t.connections ≡ update_object h begin_close m.connections =
        ground (arith, e, opened) in
      rw same (begin_close-Closed h c m.connections g)
]

shut-closes :
    (h : ℕ) (writes : Bool) (j : ℕ) (a : Action) (rest : List Action) (m t : AgentMux)
    → act writes j a rest m ≡ some t
    → wants_shut h a ≡ true
    → Closed t.connections h
unfolding act wants_shut
shut-closes h writes j (fail_calls reason) rest m t e p = absurd (ground (arith, p))
shut-closes h writes j collect rest m t e p = absurd (ground (arith, p))
shut-closes h writes j end_context rest m t e p = absurd (ground (arith, p))
shut-closes h writes j (look_up id) rest m t e p = absurd (ground (arith, p))
shut-closes h writes j (shut sends k) rest m t e p =
    elim (Option-cases (map_get k m.connections.objects)) [
      | inl missing ↦ absurd (ground (arith, missing, e))
      | inr (c, g) ↦
          subst (Closed t.connections) ((==_iff k h).0 p)
            (shut_conn-Closed j rest sends k c m t g (ground (arith, g, e)))
    ]
shut-closes h writes j (unregister k) rest m t e p = absurd (ground (arith, p))
shut-closes h writes j (send_close k) rest m t e p = absurd (ground (arith, p))
shut-closes h writes j (finish_once k) rest m t e p = absurd (ground (arith, p))

cancelled-lasts :
    (e : Event) (x y : AgentMux)
    → step e x ≡ some y
    → Reach new_agent_mux x
    → x.cancelled ≡ true
    → y.cancelled ≡ true
unfolding Lasting
cancelled-lasts e x y h before = (step-Lasting e x y h (Reach-IsWellFormed x before).tables).0

Closed-lasts :
    (h : ℕ) (e : Event) (x y : AgentMux)
    → step e x ≡ some y
    → Reach new_agent_mux x
    → Closed x.connections h
    → Closed y.connections h
unfolding Lasting
Closed-lasts h e x y k before = (step-Lasting e x y k (Reach-IsWellFormed x before).tables).1 h

-- Once listed to be run, a section has had its effect when its call has ended.
pub context_ended :
    (j : ℕ) (actions : List Action) (m u : AgentMux)
    → Reach new_agent_mux m
    → map_get j m.jobs ≡ some actions
    → any wants_end actions ≡ true
    → Reach m u
    → map_get j u.jobs ≡ some []
    → u.cancelled ≡ true
context_ended j actions m u r g w path over =
    let E = λ (x : AgentMux). x.cancelled ≡ true in
    let (s, pursued) =
      Reach-Pursued wants_end E cancelled-lasts end_context-ends j m u r path
        (actions, g, Reach-IsNumbered m r j actions g, inr w) in
    ended-Pursued wants_end E cancelled-lasts end_context-ends j u over pursued

pub connection-Closed :
    (h j : ℕ) (actions : List Action) (m u : AgentMux)
    → Reach new_agent_mux m
    → map_get j m.jobs ≡ some actions
    → any (wants_shut h) actions ≡ true
    → Reach m u
    → map_get j u.jobs ≡ some []
    → Closed u.connections h
connection-Closed h j actions m u r g w path over =
    let E = λ (x : AgentMux). Closed x.connections h in
    let (s, pursued) =
      Reach-Pursued (wants_shut h) E (Closed-lasts h) (shut-closes h) j m u r path
        (actions, g, Reach-IsNumbered m r j actions g, inr w) in
    ended-Pursued (wants_shut h) E (Closed-lasts h) (shut-closes h) j u over pursued
