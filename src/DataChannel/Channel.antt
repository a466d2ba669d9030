-- ===== src/DataChannel/Channel.antt =====
-- internal/backend/ssm/datachannel/channel.go and config.go: the state of the data channel and
-- the parts that every operation uses.
--
-- What the package calls and does not implement is the record `Platform`: the JSON of an
-- acknowledgement, SHA-256, the text of a UUID, the handshake's answer (handshake.go), and the
-- arithmetic of float64. The websocket is the list of frames handed to it and, for each attempt, by
-- its number, whether the frame is taken. New UUIDs come from a stream. Times are in nanoseconds.
-- An int64 is its 64-bit pattern. The callbacks other than onOutputData are taken to be set.
pub mod Send
pub mod Receive
pub mod Order
pub mod Bounds
pub mod Outgoing
pub mod Acknowledged
use awsocks.Prelude.{
  ℕ, ◌+◌, ◌-◌, ◌*◌, ◌/◌, ◌%◌, ◌^◌, Bool, true, false, not, Option, none, some, List, [], ◌∷◌, ◌++◌,
  ltb, leb, if◌then◌else◌, length, Bytes,
}
use awsocks.DataChannel.Message.{ClientMessage}

-- int64 comparison and increment on 64-bit patterns
unfoldable pub lt_int64 : ℕ → ℕ → Bool
lt_int64 a b = ltb ((a + 2 ^ 63) % 2 ^ 64) ((b + 2 ^ 63) % 2 ^ 64)

unfoldable pub inc_int64 : ℕ → ℕ
inc_int64 a = (a + 1) % 2 ^ 64

-- the float64 operations of the retransmission timeout
pub record Floats : Type 1 where
  pub F : Type 0
  pub of_nat : ℕ → F
  pub truncate : F → ℕ
  pub add : F → F → F
  pub sub : F → F → F
  pub mul : F → F → F
  pub abs : F → F
  pub max : F → F → F
  -- 0.125 and 0.25
  pub eighth : F
  pub quarter : F

pub record Platform : Type 1 where
  pub floats : Floats
  -- AcknowledgeContent.Marshal, and the AcknowledgedMessageID of Unmarshal
  pub marshal_ack : Bytes → Bytes → ℕ → Bytes
  pub unmarshal_ack : Bytes → Option Bytes
  -- sha256.Sum256, UUID.String
  pub sha256 : Bytes → Bytes
  pub uuid_string : Bytes → Bytes
  -- ProcessHandshake and Build: the payload of the response, or an error
  pub answer_handshake : Bytes → Option Bytes

-- config.go, in nanoseconds
abbrev pub default_transmission_timeout : ℕ
default_transmission_timeout = 200 * 1000000

abbrev pub max_transmission_timeout : ℕ
max_transmission_timeout = 1000 * 1000000

abbrev pub millisecond : ℕ
millisecond = 1000000

abbrev pub clock_granularity_ms : ℕ
clock_granularity_ms = 10

abbrev pub resend_max_attempt : ℕ
resend_max_attempt = 3000

abbrev pub outgoing_capacity : ℕ
outgoing_capacity = 10000

-- type StreamingMessage
pub record StreamingMessage : Type 0 where
  pub content : Bytes
  pub sequence_number : ℕ
  pub message_id : Bytes
  pub last_sent_time : ℕ
  pub resend_attempt : ℕ

-- type pendingMessage
pub record PendingMessage : Type 0 where
  pub message : ClientMessage
  pub sent_at : ℕ
  pub attempts : ℕ

-- the callbacks that an operation has called, other than onOutputData
pub data Event : Type 0 where
  handshake_completed : Event
  resend_timed_out : Event

-- the errors of the operations
pub data ChannelError : Type 0 where
  serialize_panicked : ChannelError
  deserialize_failed : ChannelError
  acknowledge_unreadable : ChannelError
  acknowledge_unsent : ChannelError
  handshake_refused : ChannelError
  send_failed : ChannelError

-- the websocket
pub record Socket : Type 0 where
  pub takes : ℕ → Bool
  pub attempts : ℕ
  pub frames : List Bytes

module _ (p : Platform) where
  -- type DataChannel. `ids` is the stream of uuid.New and `id_count` the number taken from it;
  -- `output` is what onOutputData was called with, and `cancelled` says that ctx is done.
  pub record DataChannel : Type 0 where
    pub socket : Socket
    pub send_seq_num : ℕ
    pub expected_seq_num : ℕ
    pub incoming_buffer : List (ℕ × ClientMessage)
    pub pending_messages : List (Bytes × PendingMessage)
    pub handshake_complete : Bool
    pub has_output_handler : Bool
    pub output : List Bytes
    pub events : List Event
    pub cancelled : Bool
    pub outgoing_buffer : List StreamingMessage
    pub round_trip_time : p.floats.F
    pub round_trip_time_variation : p.floats.F
    pub retransmission_timeout : ℕ
    pub ids : ℕ → Bytes
    pub id_count : ℕ

  -- An operation returns the new state and its error, if any.
  abbrev pub Outcome : Type 0
  Outcome = DataChannel × Option ChannelError

  -- NewDataChannel, on a socket and a stream of UUIDs
  unfoldable pub new_data_channel : Socket → (ℕ → Bytes) → Bool → DataChannel
  new_data_channel socket ids has_output_handler = record {
    socket = socket;
    send_seq_num = 0;
    expected_seq_num = 0;
    incoming_buffer = [];
    pending_messages = [];
    handshake_complete = false;
    has_output_handler = has_output_handler;
    output = [];
    events = [];
    cancelled = false;
    outgoing_buffer = [];
    round_trip_time = p.floats.of_nat 100;
    round_trip_time_variation = p.floats.of_nat 0;
    retransmission_timeout = default_transmission_timeout;
    ids = ids;
    id_count = 0;
  }

  -- WebSocketChannel.SendMessage: whether the frame was taken
  unfoldable pub socket_send : Bytes → DataChannel → DataChannel × Bool
  socket_send frame d =
      let s = d.socket in
      let frames = if s.takes s.attempts then s.frames ++ frame ∷ [] else s.frames in
      (
        record d { socket = record s { attempts = s.attempts + 1; frames = frames } },
        s.takes s.attempts,
      )

  -- calculateRetransmissionTimeout
  unfoldable pub calculate_retransmission_timeout : ℕ → StreamingMessage → DataChannel → DataChannel
  calculate_retransmission_timeout now msg d =
      let f = p.floats in
      let new_rtt = f.of_nat ((now - msg.last_sent_time) / millisecond) in
      let variation =
        f.add (f.mul (f.sub (f.of_nat 1) f.quarter) d.round_trip_time_variation)
          (f.mul f.quarter (f.abs (f.sub d.round_trip_time new_rtt))) in
      let rtt =
        f.add (f.mul (f.sub (f.of_nat 1) f.eighth) d.round_trip_time) (f.mul f.eighth new_rtt) in
      let rto = f.add rtt (f.max (f.of_nat clock_granularity_ms) (f.mul (f.of_nat 4) variation)) in
      let timeout = f.truncate rto * millisecond in
      record d {
        round_trip_time = rtt;
        round_trip_time_variation = variation;
        retransmission_timeout =
            if ltb max_transmission_timeout timeout then max_transmission_timeout else timeout;
      }

  -- Close: cancels the context. (The websocket's own Close is not modelled.)
  unfoldable pub close : DataChannel → DataChannel
  close d = record d { cancelled = true }
