-- ===== src/Mux/Teardown.antt =====
-- internal/mux/agent_mux.go: the calls that close connections, and declareDead. Each is a job: a list
-- of the critical sections that it has still to enter, between which the goroutines go on.
use awsocks.Protocol.Payload.{close_message}
use awsocks.Prelude.{
  ◌+◌, ◌++◌, Bool, false, Option, ℕ, true, none, some, List, [], ◌∷◌, if◌then◌else◌, Bytes,
}
use awsocks.Prelude.Maps.{map_set, map_get, map_delete, nat_eq}
use awsocks.Mux.Connection.{MuxConn}
use awsocks.Mux.State.{
  ConnResult, DialCall, Connections, AgentMux, Action, fail_calls, collect, end_context, look_up,
  shut, unregister, send_close, finish_once,
}

-- a change of one object
unfoldable pub update_object : ℕ → (MuxConn → MuxConn) → Connections → Connections
unfolding map_get map_set
update_object h f s = elim (map_get h s.objects) [
  | none ↦ s
  | some c ↦ record s { objects = map_set h (f c) s.objects }
]

-- ch <- connResult{err: reason}, or its default
unfoldable pub offer : Bytes → DialCall → DialCall
offer reason call = elim call.resp [
  | [] ↦ record call { resp = ConnResult.refused reason ∷ [] }
  | r ∷ rs ↦ call
]

-- the loop of declareDead over the pending calls
unfoldable pub fail_all : Bytes → List (ℕ × ℕ) → List (ℕ × DialCall) → List (ℕ × DialCall)
unfolding offer map_get map_set
fail_all reason [] calls = calls
fail_all reason ((id, d) ∷ rest) calls =
    fail_all reason rest
      (elim (map_get d calls) [ none ↦ calls | some call ↦ map_set d (offer reason call) calls ])

-- A call begins: its sections run one by one, between the steps of the goroutines.
unfoldable pub spawn : List Action → AgentMux → AgentMux
unfolding map_set
spawn actions m = record m { jobs = map_set m.next_job actions m.jobs; next_job = m.next_job + 1 }

-- declareDead
unfoldable pub declare_dead : Bytes → AgentMux → AgentMux
unfolding spawn
declare_dead reason m =
    spawn (Action.fail_calls reason ∷ Action.collect ∷ Action.end_context ∷ []) m

-- MuxConn.Close
unfoldable pub close_conn : ℕ → AgentMux → AgentMux
unfolding spawn
close_conn h m = spawn (Action.shut true h ∷ []) m

-- handleClose, and the end of handleError: the lookup and closeFromRemote
unfoldable pub close_registered : ℕ → AgentMux → AgentMux
unfolding spawn
close_registered id m = spawn (Action.look_up id ∷ []) m

-- closeOnce.Do: closed = true and close(c.done)
unfoldable pub begin_close : MuxConn → MuxConn
begin_close c = record c { closed = true; closing = true }

-- the return from closeOnce.Do
unfoldable pub end_close : MuxConn → MuxConn
end_close c = record c { closing = false }

-- what follows close(c.done), in Close and in closeFromRemote
unfoldable pub behind_close : Bool → ℕ → List Action
behind_close true h = Action.unregister h ∷ Action.send_close h ∷ Action.finish_once h ∷ []
behind_close false h = Action.unregister h ∷ Action.finish_once h ∷ []

-- the loop of declareDead over the connections it has collected
unfoldable pub shut_all : List (ℕ × ℕ) → List Action
shut_all [] = []
shut_all ((id, h) ∷ rest) = Action.shut false h ∷ shut_all rest

-- the sections that are left
unfoldable pub go_on : ℕ → List Action → AgentMux → AgentMux
unfolding map_set
go_on j rest m = record m { jobs = map_set j rest m.jobs }

-- closeOnce.Do: the first call closes, a call beside it waits for its end, and later ones do nothing.
unfoldable pub shut_conn : ℕ → List Action → Bool → ℕ → MuxConn → AgentMux → Option AgentMux
unfolding go_on update_object begin_close behind_close
shut_conn j rest sends h c m =
    if c.closed
    then if c.closing then none else some (go_on j rest m)
    else some (
        go_on j (behind_close sends h ++ rest)
          (record m { connections = update_object h begin_close m.connections }))

-- one section of a call; `writes` says whether a message is written
unfoldable pub act : Bool → ℕ → Action → List Action → AgentMux → Option AgentMux
unfolding go_on fail_all shut_all shut_conn update_object end_close map_get map_delete close_message
act writes j (fail_calls reason) rest m =
    some (go_on j rest (record m { calls = fail_all reason m.pending m.calls }))
act writes j collect rest m = some (go_on j (shut_all m.connections.conns ++ rest) m)
act writes j end_context rest m = some (go_on j rest (record m { cancelled = true }))
act writes j (look_up id) rest m = elim (map_get id m.connections.conns) [
  | none ↦ some (go_on j rest m)
  | some h ↦ some (go_on j (Action.shut false h ∷ rest) m)
]
act writes j (shut sends h) rest m = elim (map_get h m.connections.objects) [
  | none ↦ none
  | some c ↦ shut_conn j rest sends h c m
]
act writes j (unregister h) rest m = elim (map_get h m.connections.objects) [
  | none ↦ none
  | some c ↦
      let s = m.connections in
      some (go_on j rest (record m { connections = record s { conns = map_delete c.id s.conns } }))
]
act writes j (send_close h) rest m = elim (map_get h m.connections.objects) [
  | none ↦ none
  | some c ↦ some (
      go_on j rest
        (record m { written = if writes then m.written ++ close_message c.id ∷ [] else m.written }))
]
act writes j (finish_once h) rest m =
    some (go_on j rest (record m { connections = update_object h end_close m.connections }))

-- the next section of a call that has begun
unfoldable pub run_job : Bool → ℕ → AgentMux → Option AgentMux
unfolding act map_get
run_job writes j m = elim (map_get j m.jobs) [
  | none ↦ none
  | some actions ↦ elim actions [ [] ↦ none | a ∷ rest ↦ act writes j a rest m ]
]
