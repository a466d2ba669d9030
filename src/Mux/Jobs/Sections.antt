-- ===== src/Mux/Jobs/Sections.antt =====
-- internal/mux/agent_mux.go, Close, closeFromRemote and declareDead: what a section leaves to be done.
use awsocks.Prelude.{
  ℕ, ◌≡◌, inl, inr, Bool, false, some, List, [], ◌∷◌, ◌++◌, arith, Option-cases, Bool-cases,
}
use awsocks.Prelude.Maps.{map_get, map_set, nat_eq}
use awsocks.Mux.Connection.{MuxConn}
use awsocks.Mux.State.{
  Action, AgentMux, fail_calls, collect, end_context, look_up, shut, unregister, send_close,
  finish_once,
}
use awsocks.Mux.Teardown.{shut_all, behind_close, go_on, shut_conn, act}

-- A section leaves the ones behind it, with some of its own before them.
pub record Leaves (j : ℕ) (rest : List Action) (m t : AgentMux) : Type 0 where
  pub more : List Action
  pub left : t.jobs ≡ map_set j (more ++ rest) m.jobs
  pub same_next : t.next_job ≡ m.next_job

shut_conn-Leaves :
    (j : ℕ) (rest : List Action) (sends : Bool) (h : ℕ) (c : MuxConn) (m t : AgentMux)
    → shut_conn j rest sends h c m ≡ some t
    → Leaves j rest m t
unfolding shut_conn go_on
shut_conn-Leaves j rest sends h c m t e = elim (Bool-cases c.closed) [
  | inl done ↦ record {
    more = [];
    left = ground (arith, e, done);
    same_next = ground (arith, e, done);
  }
  | inr opened ↦ record {
    more = behind_close sends h;
    left = ground (arith, e, opened);
    same_next = ground (arith, e, opened);
  }
]

pub act-Leaves :
    (writes : Bool) (j : ℕ) (a : Action) (rest : List Action) (m t : AgentMux)
    → act writes j a rest m ≡ some t
    → Leaves j rest m t
unfolding act go_on
act-Leaves writes j (fail_calls reason) rest m t e = record {
  more = [];
  left = ground (arith, e);
  same_next = ground (arith, e);
}
act-Leaves writes j collect rest m t e = record {
  more = shut_all m.connections.conns;
  left = ground (arith, e);
  same_next = ground (arith, e);
}
act-Leaves writes j end_context rest m t e = record {
  more = [];
  left = ground (arith, e);
  same_next = ground (arith, e);
}
act-Leaves writes j (look_up id) rest m t e = elim (Option-cases (map_get id m.connections.conns)) [
  | inl missing ↦ record {
    more = [];
    left = ground (arith, e, missing);
    same_next = ground (arith, e, missing);
  }
  | inr (h, g) ↦ record {
    more = Action.shut false h ∷ [];
    left = ground (arith, e, g);
    same_next = ground (arith, e, g);
  }
]
act-Leaves writes j (shut sends h) rest m t e =
    elim (Option-cases (map_get h m.connections.objects)) [
      | inl missing ↦ absurd (ground (arith, missing, e))
      | inr (c, g) ↦ shut_conn-Leaves j rest sends h c m t (ground (arith, g, e))
    ]
act-Leaves writes j (unregister h) rest m t e = record {
  more = [];
  left = ground (arith, e);
  same_next = ground (arith, e);
}
act-Leaves writes j (send_close h) rest m t e = record {
  more = [];
  left = ground (arith, e);
  same_next = ground (arith, e);
}
act-Leaves writes j (finish_once h) rest m t e = record {
  more = [];
  left = ground (arith, e);
  same_next = ground (arith, e);
}
