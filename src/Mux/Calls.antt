-- ===== src/Mux/Calls.antt =====
-- internal/mux/agent_mux.go: the calls of the clients, Dial, Close, SendShutdown, and the methods of a
-- connection.
use awsocks.Prelude.{
  ℕ, ◌+◌, ◌%◌, ◌^◌, Bool, true, Option, none, some, List, [], ◌∷◌, ◌++◌, if◌then◌else◌, Bytes,
}
use awsocks.Prelude.Maps.{map_set, map_get, map_delete, nat_eq}
use awsocks.Protocol.{shutdown}
use awsocks.Protocol.Payload.{connect_direct_message, data_message}
use awsocks.Mux.Connection.{read_conn}
use awsocks.Mux.State.{ConnResult, DialOutcome, DialPhase, DialCall, AgentMux, requesting, waiting}
use awsocks.Mux.Teardown.{update_object}

-- Dial up to its write: a closed mux, or a new ID and an entry among the pending calls
unfoldable pub start_dial : Bytes → Bytes → AgentMux → AgentMux
unfolding map_set connect_direct_message
start_dial network addr m =
    let id = (m.next_conn_id + 1) % 2 ^ 32 in
    let call : DialCall = record {
      conn_id = id;
      request = connect_direct_message id network addr;
      resp = [];
      phase =
          if m.cancelled
          then DialPhase.returned DialOutcome.dial_mux_closed
          else DialPhase.requesting;
    } in
    let called = record m {
      calls = map_set m.next_call call m.calls;
      next_call = m.next_call + 1;
    } in
    if m.cancelled
    then called
    else record called { next_conn_id = id; pending = map_set id m.next_call m.pending }

-- Dial returns, behind its deferred delete
unfoldable pub finish_dial : ℕ → DialCall → List ConnResult → DialOutcome → AgentMux → AgentMux
unfolding map_set map_delete
finish_dial d call resp outcome m = record m {
  calls = map_set d (record call { resp = resp; phase = DialPhase.returned outcome }) m.calls;
  pending = map_delete call.conn_id m.pending;
}

-- WriteMessage of the request
unfoldable pub write_request : Bool → ℕ → AgentMux → Option AgentMux
unfolding map_get map_set finish_dial
write_request writes d m = elim (map_get d m.calls) [
  | none ↦ none
  | some call ↦ elim call.phase [
    | requesting ↦ some (
        if writes
        then record m {
          calls = map_set d (record call { phase = DialPhase.waiting }) m.calls;
          written = m.written ++ call.request ∷ [];
        }
        else finish_dial d call call.resp DialOutcome.dial_write_failed m)
    | _ ↦ none
  ]
]

-- case result := <-respCh
unfoldable pub take_result : ℕ → AgentMux → Option AgentMux
unfolding map_get finish_dial
take_result d m = elim (map_get d m.calls) [
  | none ↦ none
  | some call ↦ elim call.phase [
    | waiting ↦ elim call.resp [
      | [] ↦ none
      | result ∷ rest ↦ some (finish_dial d call rest (DialOutcome.got result) m)
    ]
    | _ ↦ none
  ]
]

-- case <-ctx.Done(), the caller's context
unfoldable pub cancel_dial : ℕ → AgentMux → Option AgentMux
unfolding map_get finish_dial
cancel_dial d m = elim (map_get d m.calls) [
  | none ↦ none
  | some call ↦ elim call.phase [
    | waiting ↦ some (finish_dial d call call.resp DialOutcome.dial_cancelled m)
    | _ ↦ none
  ]
]

-- case <-m.ctx.Done()
unfoldable pub abort_dial : ℕ → AgentMux → Option AgentMux
unfolding map_get finish_dial
abort_dial d m = elim (map_get d m.calls) [
  | none ↦ none
  | some call ↦ elim call.phase [
    | waiting ↦
        if m.cancelled
        then some (finish_dial d call call.resp DialOutcome.dial_mux_closed m)
        else none
    | _ ↦ none
  ]
]

-- AgentMux.Close
unfoldable pub close_mux : AgentMux → AgentMux
close_mux m = record m { cancelled = true }

-- AgentMux.SendShutdown
unfoldable pub send_shutdown : Bool → AgentMux → AgentMux
send_shutdown writes m =
    if writes
    then record m {
      written = m.written ++ record { type = shutdown; conn_id = 0; payload = [] } ∷ [];
    }
    else m

-- MuxConn.Read on an object
unfoldable pub read_object : ℕ → ℕ → AgentMux → AgentMux
unfolding update_object read_conn
read_object h n m = record m {
  connections = update_object h (λ c. (read_conn n c).0) m.connections;
}

-- MuxConn.Write, which fails on a closed connection
unfoldable pub write_object : Bool → ℕ → Bytes → AgentMux → AgentMux
unfolding map_get data_message
write_object writes h bytes m = elim (map_get h m.connections.objects) [
  | none ↦ m
  | some c ↦
      if c.closed
      then m
      else if writes
      then record m { written = m.written ++ data_message c.id bytes ∷ [] }
      else m
]
