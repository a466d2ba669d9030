-- ===== src/Mux/Reader.antt =====
-- internal/mux/agent_mux.go: readLoop and the handlers of messages. A step is
-- `none` where the goroutine is elsewhere or blocks.
use awsocks.Prelude.{
  ◌+◌, true, ◌||◌, Option, none, some, [], ◌∷◌, ◌++◌, if◌then◌else◌, ltb, ◌==◌, length, codes,
}
use awsocks.Prelude.Maps.{map_set, map_get, nat_eq}
use awsocks.Protocol.{Message, connect_ack, data_type, close_type, error_type, pong}
use awsocks.Mux.Connection.{read_buf_capacity, new_mux_conn, push}
use awsocks.Mux.State.{
  ConnResult, Reader, AgentMux, looping, reading, acking, answering, delivering, joining,
}
use awsocks.Mux.Teardown.{update_object, close_registered, declare_dead}

-- the select at the top of readLoop
unfoldable pub check_reader : AgentMux → Option AgentMux
check_reader m = elim m.reader [
  | looping ↦
      some (record m { reader = if m.cancelled then Reader.reader_stopped else Reader.reading })
  | _ ↦ none
]

-- handleConnectAck up to its lookup
unfoldable pub handle_connect_ack : Message → AgentMux → AgentMux
unfolding map_get
handle_connect_ack msg m = record m {
  reader = elim (map_get msg.conn_id m.pending) [
    | none ↦ Reader.looping
    | some d ↦ Reader.acking msg.conn_id d
  ];
}

-- handleConnectAck from newMuxConn up to its send
unfoldable pub register_conn : AgentMux → Option AgentMux
unfolding map_set new_mux_conn
register_conn m = elim m.reader [
  | acking id d ↦
      let s = m.connections in
      some (record m {
        connections = record s {
          objects = map_set s.next_object (new_mux_conn id) s.objects;
          conns = map_set id s.next_object s.conns;
          next_object = s.next_object + 1;
        };
        reader = Reader.answering d (ConnResult.connected s.next_object) none;
      })
  | _ ↦ none
]

-- handleData up to its select
unfoldable pub handle_data : Message → AgentMux → AgentMux
unfolding map_get update_object
handle_data msg m = elim (map_get msg.conn_id m.connections.conns) [
  | none ↦ record m { reader = Reader.looping }
  | some h ↦ record m {
    connections =
        update_object h (λ c. record c { routed = c.routed ++ msg.payload }) m.connections;
    reader = Reader.delivering h msg.payload;
  }
]

-- case conn.readBuf <- dataCopy. That a send waits for room is what a channel does; the capacity is
-- the one that newMuxConn makes it with.
unfoldable pub deliver_data : AgentMux → Option AgentMux
unfolding map_get update_object push
deliver_data m = elim m.reader [
  | delivering h bytes ↦ elim (map_get h m.connections.objects) [
    | none ↦ none
    | some c ↦
        if ltb (length c.read_buf) read_buf_capacity
        then some (record m {
          connections = update_object h (push bytes) m.connections;
          reader = Reader.looping;
        })
        else none
  ]
  | _ ↦ none
]

-- case <-conn.closeSignal(), case <-m.ctx.Done()
unfoldable pub drop_data : AgentMux → Option AgentMux
unfolding map_get
drop_data m = elim m.reader [
  | delivering h bytes ↦ elim (map_get h m.connections.objects) [
    | none ↦ none
    | some c ↦ if c.closed || m.cancelled then some (record m { reader = Reader.looping }) else none
  ]
  | _ ↦ none
]

-- handleClose
unfoldable pub handle_close : Message → AgentMux → AgentMux
unfolding close_registered
handle_close msg m = record (close_registered msg.conn_id m) { reader = Reader.joining m.next_job }

-- handleError up to its send, or to its end
unfoldable pub handle_error : Message → AgentMux → AgentMux
unfolding map_get close_registered
handle_error msg m = elim (map_get msg.conn_id m.pending) [
  | none ↦ record (close_registered msg.conn_id m) { reader = Reader.joining m.next_job }
  | some d ↦ record m {
    reader = Reader.answering d (ConnResult.refused msg.payload) (some msg.conn_id);
  }
]

-- respCh <- connResult{…}, which blocks on a full channel, and what follows it
unfoldable pub answer : AgentMux → Option AgentMux
unfolding map_get map_set close_registered
answer m = elim m.reader [
  | answering d result next ↦ elim (map_get d m.calls) [
    | none ↦ none
    | some call ↦ elim call.resp [
      | [] ↦
          let sent = record m { calls = map_set d (record call { resp = result ∷ [] }) m.calls } in
          some (elim next [
            | none ↦ record sent { reader = Reader.looping }
            | some id ↦ record (close_registered id sent) { reader = Reader.joining m.next_job }
          ])
      | r ∷ rs ↦ none
    ]
  ]
  | _ ↦ none
]

-- handleClose or handleError returns, at the end of the call that closes its connection
unfoldable pub join_job : AgentMux → Option AgentMux
unfolding map_get
join_job m = elim m.reader [
  | joining j ↦ elim (map_get j m.jobs) [
    | none ↦ none
    | some actions ↦ elim actions [
      | [] ↦ some (record m { reader = Reader.looping })
      | a ∷ rest ↦ none
    ]
  ]
  | _ ↦ none
]

-- the switch of readLoop. A log message changes nothing here, nor does an unknown type.
unfoldable pub dispatch : Message → AgentMux → AgentMux
unfolding handle_connect_ack handle_data handle_close handle_error
dispatch msg m =
    if msg.type == connect_ack
    then handle_connect_ack msg m
    else if msg.type == data_type
    then handle_data msg m
    else if msg.type == close_type
    then handle_close msg m
    else if msg.type == error_type
    then handle_error msg m
    else if msg.type == pong
    then record m { pong = true; reader = Reader.looping }
    else record m { reader = Reader.looping }

-- ReadMessage returns a message
unfoldable pub receive : Message → AgentMux → Option AgentMux
unfolding dispatch
receive msg m = elim m.reader [ reading ↦ some (dispatch msg m) | _ ↦ none ]

-- ReadMessage returns an error; behind declareDead readLoop does nothing more
unfoldable pub read_fails : AgentMux → Option AgentMux
unfolding declare_dead
read_fails m = elim m.reader [
  | reading ↦
      let dead = declare_dead (codes "agent connection closed") m in
      some (record (if m.cancelled then m else dead) { reader = Reader.reader_stopped })
  | _ ↦ none
]
