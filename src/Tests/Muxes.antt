-- ===== src/Tests/Muxes.antt =====
-- Tests of the agent multiplexer: a schedule in which a connection is dialled, read and left with a
-- payload that readLoop is sending.
use awsocks.Prelude.{◌≡◌, ◌⊎◌, ◌++◌, refl, true, false, some, List, [], ◌∷◌, Bytes, codes}
use awsocks.Prelude.Maps.{map_get, map_set, map_delete, nat_eq}
use awsocks.Protocol.{Message, connect_ack, data_type, connect_direct}
use awsocks.Protocol.Payload.{connect_direct_message}
use awsocks.Mux.Connection.{MuxConn, new_mux_conn, push, read_conn, read_buffered, copy_out}
use awsocks.Mux.Connection.Stream.{content}
use awsocks.Mux.State.{
  Action, ConnResult, DialOutcome, DialPhase, DialCall, Reader, Pinger, AgentMux, new_agent_mux,
}
use awsocks.Mux.Pinger.{send_ping}
use awsocks.Mux.Teardown.{
  update_object, declare_dead, spawn, run_job, act, go_on, fail_all, offer, shut_all, shut_conn,
  behind_close, begin_close, end_close,
}
use awsocks.Mux.Reader.{
  check_reader, register_conn, deliver_data, answer, receive, dispatch, handle_connect_ack,
  handle_data,
}
use awsocks.Mux.Calls.{start_dial, finish_dial, write_request, take_result, read_object}
use awsocks.Mux.System.{Event, Reach, here, run, step, run-Reach}
use awsocks.Mux.Table.Owned.{Owned}
use awsocks.Mux.Connection.Within.{Within}
use awsocks.Mux.Jobs.Lasting.{Closed}
use awsocks.Mux.Flow.{flying}
use awsocks.Mux.Streams.{IsPrefix, delivered-IsPrefix, content-flying}
use awsocks.Mux.Death.{declare_dead-Shut}
use awsocks.Mux.Release.{Leads, closing_schedule, handle_data-Leads}

abbrev data_frame : Bytes → Message
data_frame bytes = record { type = data_type; conn_id = 1; payload = bytes }

abbrev ack_frame : Message
ack_frame = record { type = connect_ack; conn_id = 1; payload = [] }

-- one connection, three bytes of which two are read, one more on its way, and a second call of Dial
abbrev dialled : List Event
dialled =
    Event.dial_starts (codes "tcp") (codes "db:22")
    ∷ Event.dial_writes true 0
    ∷ Event.reader_checks
    ∷ Event.reader_receives ack_frame
    ∷ Event.reader_registers
    ∷ Event.reader_answers
    ∷ Event.dial_takes 0
    ∷ Event.reader_checks
    ∷ Event.reader_receives (data_frame (7 ∷ 8 ∷ 9 ∷ []))
    ∷ Event.reader_delivers
    ∷ Event.conn_reads 0 2
    ∷ Event.dial_starts (codes "tcp") (codes "web:80")
    ∷ Event.reader_checks
    ∷ Event.reader_receives (data_frame (10 ∷ []))
    ∷ []

abbrev served : MuxConn
served = record {
  id = 1;
  read_buf = [];
  remaining = 9 ∷ [];
  closed = false;
  closing = false;
  delivered = 7 ∷ 8 ∷ [];
  routed = 7 ∷ 8 ∷ 9 ∷ 10 ∷ [];
}

abbrev first_call : DialCall
first_call = record {
  conn_id = 1;
  request = record { type = connect_direct; conn_id = 1; payload = codes "tcp:db:22" };
  resp = [];
  phase = DialPhase.returned (DialOutcome.got (ConnResult.connected 0));
}

abbrev second_call : DialCall
second_call = record {
  conn_id = 2;
  request = record { type = connect_direct; conn_id = 2; payload = codes "tcp:web:80" };
  resp = [];
  phase = DialPhase.requesting;
}

abbrev sending : AgentMux
sending = record {
  next_conn_id = 2;
  pending = (2, 1) ∷ [];
  calls = (0, first_call) ∷ (1, second_call) ∷ [];
  next_call = 2;
  connections = record { objects = (0, served) ∷ []; conns = (1, 0) ∷ []; next_object = 1 };
  reader = Reader.delivering 0 (10 ∷ []);
  pinger = Pinger.ticking;
  pong = false;
  cancelled = false;
  written = record { type = connect_direct; conn_id = 1; payload = codes "tcp:db:22" } ∷ [];
  jobs = [];
  next_job = 0;
}

sending_run : run dialled new_agent_mux ≡ some sending
unfolding run step new_agent_mux start_dial write_request take_result finish_dial check_reader
    receive dispatch handle_connect_ack handle_data register_conn answer deliver_data read_object
    update_object push read_conn read_buffered copy_out new_mux_conn map_get map_set map_delete
    connect_direct_message
sending_run = refl

sending-Reach : Reach new_agent_mux sending
sending-Reach = run-Reach new_agent_mux dialled new_agent_mux sending here sending_run

found : map_get 0 sending.connections.objects ≡ some served
unfolding map_get
found = refl

listed_first : map_get 1 sending.connections.conns ≡ some 0
unfolding map_get
listed_first = refl

delivered-IsPrefix_example :
    Within served.delivered served.routed
    × ((served.closed ≡ true) ⊎ IsPrefix served.delivered served.routed)
delivered-IsPrefix_example = delivered-IsPrefix sending 0 served sending-Reach found

content-flying_example : content served ++ flying sending.reader 0 ≡ served.routed
content-flying_example = content-flying sending 0 served sending-Reach found refl refl

-- a ping cannot be written, and pingLoop calls declareDead
abbrev reason : Bytes
reason = codes "agent mux ping write failed"

abbrev dying : AgentMux
dying = record sending {
  pinger = Pinger.pinger_stopped;
  jobs = (0, Action.fail_calls reason ∷ Action.collect ∷ Action.end_context ∷ []) ∷ [];
  next_job = 1;
}

abbrev failed_call : DialCall
failed_call = record second_call { resp = ConnResult.refused reason ∷ [] }

abbrev told : AgentMux
told = record dying {
  calls = (0, first_call) ∷ (1, failed_call) ∷ [];
  jobs = (0, Action.collect ∷ Action.end_context ∷ []) ∷ [];
}

abbrev copied : AgentMux
copied = record told { jobs = (0, Action.shut false 0 ∷ Action.end_context ∷ []) ∷ [] }

abbrev dead : AgentMux
dead = record copied {
  connections = record {
    objects = (0, record served { closed = true }) ∷ [];
    conns = [];
    next_object = 1;
  };
  cancelled = true;
  jobs = (0, []) ∷ [];
}

-- the sections of closeFromRemote, and the last one of declareDead
abbrev last_sections : List Event
last_sections =
    Event.job_runs true 0
    ∷ Event.job_runs true 0
    ∷ Event.job_runs true 0
    ∷ Event.job_runs true 0
    ∷ []

dying_run : run (Event.ping_ticks false ∷ []) sending ≡ some dying
unfolding run step send_ping declare_dead spawn map_set
dying_run = refl

told_run : run (Event.job_runs true 0 ∷ []) dying ≡ some told
unfolding run step run_job act go_on fail_all offer map_get map_set
told_run = refl

copied_run : run_job true 0 told ≡ some copied
unfolding run_job act go_on shut_all map_get map_set
copied_run = refl

dead_run : run last_sections copied ≡ some dead
unfolding run step run_job act go_on shut_conn behind_close update_object begin_close end_close
    map_get map_set map_delete
dead_run = refl

dying-Reach : Reach new_agent_mux dying
dying-Reach =
    run-Reach new_agent_mux (Event.ping_ticks false ∷ []) sending dying sending-Reach dying_run

told-Reach : Reach new_agent_mux told
told-Reach = run-Reach new_agent_mux (Event.job_runs true 0 ∷ []) dying told dying-Reach told_run

collecting : map_get 0 told.jobs ≡ some (Action.collect ∷ Action.end_context ∷ [])
unfolding map_get
collecting = refl

over : map_get 0 dead.jobs ≡ some []
unfolding map_get
over = refl

declare_dead-Shut_example : Closed dead.connections 0 × (dead.cancelled ≡ true)
declare_dead-Shut_example =
    declare_dead-Shut true 0 1 0 told copied dead told-Reach collecting listed_first copied_run
      (run-Reach copied last_sections copied dead here dead_run) over

handle_data-Leads_example :
    (c : MuxConn) × (map_get 0 sending.connections.objects ≡ some c)
    × Leads (closing_schedule c.closed true 0 sending.next_job) sending Reader.looping
    × Leads
        (Event.mux_closes ∷ Event.reader_drops ∷ Event.reader_checks ∷ [])
        sending
        Reader.reader_stopped
handle_data-Leads_example = handle_data-Leads sending 0 (10 ∷ []) true sending-Reach refl
