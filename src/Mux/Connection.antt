-- ===== src/Mux/Connection.antt =====
-- internal/mux/agent_mux.go, type MuxConn: one logical connection.
pub mod Stream
pub mod Within
use awsocks.Prelude.{
  ℕ, Bool, true, false, List, [], ◌∷◌, ◌++◌, if◌then◌else◌, ltb, length, take, drop, Bytes,
}

-- the capacity of readBuf
abbrev pub read_buf_capacity : ℕ
read_buf_capacity = 256

-- type MuxConn; `closed` also says that the channel done is closed, and `closing` that a call is
-- inside closeOnce.Do. Two fields record the history:
-- `delivered` is what Read has returned, and `routed` the payloads that handleData has found this
-- connection for.
pub record MuxConn : Type 0 where
  pub id : ℕ
  pub read_buf : List Bytes
  pub remaining : Bytes
  pub closed : Bool
  pub closing : Bool
  pub delivered : Bytes
  pub routed : Bytes

-- newMuxConn
unfoldable pub new_mux_conn : ℕ → MuxConn
new_mux_conn id = record {
  id = id;
  read_buf = [];
  remaining = [];
  closed = false;
  closing = false;
  delivered = [];
  routed = [];
}

-- What Read returns, when it does not block.
pub data ReadOutcome : Type 0 where
  read_bytes : Bytes → ReadOutcome
  read_eof : ReadOutcome
  read_timeout : ReadOutcome

-- copy(b, bytes) into a buffer of n bytes, the rest kept
unfoldable pub copy_out : ℕ → Bytes → List Bytes → MuxConn → MuxConn × ReadOutcome
copy_out n bytes read_buf c = (
  record c {
    read_buf = read_buf;
    remaining = drop n bytes;
    delivered = c.delivered ++ take n bytes;
  },
  ReadOutcome.read_bytes (take n bytes),
)

-- MuxConn.Read behind the bytes of a partial read. With nothing buffered it waits: what arrives
-- meanwhile is a later read, and what ends the wait is the end of the connection or a minute.
unfoldable pub read_buffered : ℕ → List Bytes → MuxConn → MuxConn × ReadOutcome
unfolding copy_out
read_buffered n [] c = (c, if c.closed then ReadOutcome.read_eof else ReadOutcome.read_timeout)
read_buffered n (bytes ∷ rest) c = copy_out n bytes rest c

-- MuxConn.Read
unfoldable pub read_conn : ℕ → MuxConn → MuxConn × ReadOutcome
unfolding copy_out read_buffered
read_conn n c =
    if ltb 0 (length c.remaining)
    then copy_out n c.remaining c.read_buf c
    else read_buffered n c.read_buf c

-- conn.readBuf <- dataCopy, where there is room
unfoldable pub push : Bytes → MuxConn → MuxConn
push bytes c = record c { read_buf = c.read_buf ++ bytes ∷ [] }
