-- ===== src/Mux/Pinger.antt =====
-- internal/mux/agent_mux.go: pingLoop. A step is `none` where the goroutine is elsewhere or waits.
use awsocks.Prelude.{Bool, false, Option, none, some, [], ◌∷◌, ◌++◌, if◌then◌else◌, codes}
use awsocks.Prelude.Maps.{nat_eq}
use awsocks.Protocol.{ping}
use awsocks.Mux.State.{Pinger, AgentMux, ticking, awaiting, pinger_stopped}
use awsocks.Mux.Teardown.{declare_dead}

-- pingLoop from a tick to its second select: an old pong is dropped and a ping written
unfoldable pub send_ping : Bool → AgentMux → Option AgentMux
unfolding declare_dead
send_ping writes m = elim m.pinger [
  | ticking ↦
      let drained = record m { pong = false } in
      let dead = declare_dead (codes "agent mux ping write failed") drained in
      some (
        if writes
        then record drained {
          pinger = Pinger.awaiting;
          written = m.written ++ record { type = ping; conn_id = 0; payload = [] } ∷ [];
        }
        else record (if m.cancelled then drained else dead) { pinger = Pinger.pinger_stopped })
  | _ ↦ none
]

-- case <-m.pongCh
unfoldable pub take_pong : AgentMux → Option AgentMux
take_pong m = elim m.pinger [
  | awaiting ↦ if m.pong then some (record m { pong = false; pinger = Pinger.ticking }) else none
  | _ ↦ none
]

-- case <-time.After(m.pongTimeout)
unfoldable pub pong_timeout : AgentMux → Option AgentMux
unfolding declare_dead
pong_timeout m = elim m.pinger [
  | awaiting ↦
      let dead = declare_dead (codes "agent mux ping timeout") m in
      some (record (if m.cancelled then m else dead) { pinger = Pinger.pinger_stopped })
  | _ ↦ none
]

-- case <-m.ctx.Done() of either select of pingLoop
unfoldable pub stop_pinger : AgentMux → Option AgentMux
stop_pinger m = elim m.pinger [
  | pinger_stopped ↦ none
  | _ ↦ if m.cancelled then some (record m { pinger = Pinger.pinger_stopped }) else none
]
