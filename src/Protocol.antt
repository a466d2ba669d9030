-- ===== src/Protocol.antt =====
-- internal/protocol/protocol.go: the messages between the host and the VM agent.
-- A reader is the list of bytes that it still holds: `io.ReadFull` takes them from the front.
pub mod RoundTrip
pub mod Payload
use awsocks.Prelude.{
  ℕ, ◌+◌, ◌*◌, ◌-◌, ◌%◌, ◌^◌, ◌<◌, ◌≤◌, List, [], ◌∷◌, ◌++◌, Option, none, some, ltb, ◌==◌,
  if◌then◌else◌, length, take, drop, Bytes, IsBytes,
}
use awsocks.Prelude.Words.{put_uint32, word32}

-- the constants Msg…
abbrev pub connect_ack : ℕ
connect_ack = 0x02

abbrev pub data_type : ℕ
data_type = 0x03

abbrev pub close_type : ℕ
close_type = 0x04

abbrev pub error_type : ℕ
error_type = 0x05

abbrev pub connect_direct : ℕ
connect_direct = 0x06

abbrev pub ping : ℕ
ping = 0x20

abbrev pub pong : ℕ
pong = 0x21

abbrev pub shutdown : ℕ
shutdown = 0x22

abbrev pub log_type : ℕ
log_type = 0x40

-- type Message
pub record Message : Type 0 where
  pub type : ℕ
  pub conn_id : ℕ
  pub payload : Bytes

-- The fields hold a byte, a uint32 and bytes.
pub record IsMessage (m : Message) : Type 0 where
  pub type_byte : m.type < 256
  pub conn_id_word : m.conn_id < 2 ^ 32
  pub payload_bytes : IsBytes m.payload

-- Message.Encode; uint32(payloadLen) wraps
unfoldable pub encode : Message → Bytes
encode m = m.type ∷ (put_uint32 m.conn_id ++ (put_uint32 (length m.payload % 2 ^ 32) ++ m.payload))

-- the errors of io.ReadFull
pub data IoError : Type 0 where
  eof unexpected_eof : IoError

-- the errors of ReadMessage, with what they wrap or print
pub data ReadError : Type 0 where
  header_failed : IoError → ReadError
  payload_too_large : ℕ → ReadError
  payload_failed : IoError → ReadError

pub data ReadResult : Type 0 where
  ok : Message → Bytes → ReadResult
  err : ReadError → ReadResult

-- 10*1024*1024
abbrev pub max_payload : ℕ
max_payload = 10 * 1024 * 1024

-- the error of a short io.ReadFull
unfoldable pub short_read : Bytes → IoError
short_read [] = eof
short_read (b ∷ bs) = unexpected_eof

-- ReadMessage behind the header: the length check and the payload
unfoldable pub read_payload : ℕ → ℕ → ℕ → Bytes → ReadResult
unfolding short_read
read_payload type conn_id n r =
    if ltb max_payload n
    then err (payload_too_large n)
    else if ltb (length r) n
    then err (payload_failed (short_read r))
    else ok (record { type = type; conn_id = conn_id; payload = take n r }) (drop n r)

-- ReadMessage
unfoldable pub read_message : Bytes → ReadResult
unfolding read_payload short_read word32
read_message (t ∷ a ∷ b ∷ c ∷ d ∷ e ∷ f ∷ g ∷ h ∷ r) =
    read_payload t (word32 a b c d) (word32 e f g h) r
read_message r = err (header_failed (short_read r))
