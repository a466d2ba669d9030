-- ===== src/Mux/State.antt =====
-- internal/mux/agent_mux.go, type AgentMux: what the goroutines share, and where each of them is.
-- Connections and calls of Dial are objects, under numbers of the model; a pending table or a table
-- of connections holds such numbers under connection IDs.
use awsocks.Prelude.{ℕ, Bool, false, Option, List, [], Bytes}
use awsocks.Protocol.{Message}
use awsocks.Mux.Connection.{MuxConn}

-- type connResult: a connection, or the text of an error
pub data ConnResult : Type 0 where
  connected : ℕ → ConnResult
  refused : Bytes → ConnResult

-- what a call of Dial returns
pub data DialOutcome : Type 0 where
  got : ConnResult → DialOutcome
  dial_cancelled : DialOutcome
  dial_mux_closed : DialOutcome
  dial_write_failed : DialOutcome

-- where a call of Dial is: before its request is written, in its select, or behind it
pub data DialPhase : Type 0 where
  requesting : DialPhase
  waiting : DialPhase
  returned : DialOutcome → DialPhase

-- a call of Dial; `resp` is what its channel of capacity one holds
pub record DialCall : Type 0 where
  pub conn_id : ℕ
  pub request : Message
  pub resp : List ConnResult
  pub phase : DialPhase

-- What a call of declareDead, Close or closeFromRemote has still to do, a critical section each:
-- declareDead's loop over the pending calls, its copy of the table, and its end; the lookup of a
-- connection to close; closeOnce.Do up to close(done), for Close or not; unregisterConn; the message
-- of Close; and the end of closeOnce.Do.
pub data Action : Type 0 where
  fail_calls : Bytes → Action
  collect end_context : Action
  look_up : ℕ → Action
  shut : Bool → ℕ → Action
  unregister : ℕ → Action
  send_close : ℕ → Action
  finish_once : ℕ → Action

-- where readLoop is: at the top, in ReadMessage, behind the lookup of a ConnectAck (ID, call), at the
-- send of a result (call, result, and the ID whose connection is closed next), at the send of
-- handleData (connection, bytes), in the job that closes a connection, or gone
pub data Reader : Type 0 where
  looping : Reader
  reading : Reader
  acking : ℕ → ℕ → Reader
  answering : ℕ → ConnResult → Option ℕ → Reader
  delivering : ℕ → Bytes → Reader
  joining : ℕ → Reader
  reader_stopped : Reader

-- where pingLoop is: before its tick, waiting for a pong, or gone
pub data Pinger : Type 0 where
  ticking : Pinger
  awaiting : Pinger
  pinger_stopped : Pinger

-- the connections: every one that was made, and the table of those that are registered
pub record Connections : Type 0 where
  pub objects : List (ℕ × MuxConn)
  pub conns : List (ℕ × ℕ)
  pub next_object : ℕ

pub record AgentMux : Type 0 where
  pub next_conn_id : ℕ
  pub pending : List (ℕ × ℕ)
  pub calls : List (ℕ × DialCall)
  pub next_call : ℕ
  pub connections : Connections
  pub reader : Reader
  pub pinger : Pinger
  pub pong : Bool
  pub cancelled : Bool
  pub written : List Message
  pub jobs : List (ℕ × List Action)
  pub next_job : ℕ

-- NewAgentMux
unfoldable pub new_agent_mux : AgentMux
new_agent_mux = record {
  next_conn_id = 0;
  pending = [];
  calls = [];
  next_call = 0;
  connections = record { objects = []; conns = []; next_object = 0 };
  reader = Reader.looping;
  pinger = Pinger.ticking;
  pong = false;
  cancelled = false;
  written = [];
  jobs = [];
  next_job = 0;
}
