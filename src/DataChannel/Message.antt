-- ===== src/DataChannel/Message.antt =====
-- internal/backend/ssm/datachannel/message.go: the binary form of an agent message.
--
-- An int64 is its 64-bit pattern, a number below 2 ^ 64, which is what the conversions to and from
-- uint64 keep; a UUID is its 16 bytes, which MarshalBinary and UnmarshalBinary of
-- github.com/google/uuid copy.
pub mod Fields
pub mod RoundTrip
use awsocks.Prelude.{
  ℕ, zero, suc, ◌+◌, ◌-◌, ◌*◌, ◌<◌, ◌≤◌, ◌^◌, ◌%◌, ◌≡◌, Bool, true, false, List, [], ◌∷◌, ◌++◌,
  Option, none, some, ltb, ◌==◌, if◌then◌else◌, length, take, drop, replicate, All, Bytes, IsBytes,
  codes,
}
use awsocks.Prelude.Words.{put_uint32, put_uint64, uint32, uint64}

-- the message types
abbrev pub input_stream_message : Bytes
input_stream_message = codes "input_stream_data"

abbrev pub output_stream_message : Bytes
output_stream_message = codes "output_stream_data"

abbrev pub acknowledge_message : Bytes
acknowledge_message = codes "acknowledge"

abbrev pub channel_closed_message : Bytes
channel_closed_message = codes "channel_closed"

-- the payload types that the code tests for
abbrev pub payload_type_output : ℕ
payload_type_output = 1

abbrev pub payload_type_handshake_request : ℕ
payload_type_handshake_request = 5

abbrev pub payload_type_handshake_response : ℕ
payload_type_handshake_response = 6

abbrev pub payload_type_handshake_complete : ℕ
payload_type_handshake_complete = 7

-- ClientMessageHLLength, ClientMessageTypeLength, ClientMessagePayloadOffset
abbrev pub hl_length : ℕ
hl_length = 4

abbrev pub type_length : ℕ
type_length = 32

abbrev pub payload_offset : ℕ
payload_offset = 120

-- ClientMessageHeaderLength
abbrev pub header_length_value : ℕ
header_length_value = 116

-- type ClientMessage
pub record ClientMessage : Type 0 where
  pub header_length : ℕ
  pub message_type : Bytes
  pub schema_version : ℕ
  pub created_date : ℕ
  pub sequence_number : ℕ
  pub flags : ℕ
  pub message_id : Bytes
  pub payload_digest : Bytes
  pub payload_type : ℕ
  pub payload_length : ℕ
  pub payload : Bytes

-- copy(buf[offset:], src): as much of src as fits
unfoldable pub copy_at : ℕ → Bytes → Bytes → Bytes
copy_at zero src [] = []
copy_at zero [] (b ∷ buf) = b ∷ buf
copy_at zero (x ∷ src) (b ∷ buf) = x ∷ copy_at zero src buf
copy_at (suc n) src [] = []
copy_at (suc n) src (b ∷ buf) = b ∷ copy_at n src buf

-- the 32 bytes of the message type, padded with spaces
unfoldable pub type_field : Bytes → Bytes
unfolding copy_at
type_field s = copy_at 0 s (replicate type_length b' ')

-- swappedUUID: MarshalBinary's 16 bytes, the last eight first
unfoldable pub swap_uuid : Bytes → Bytes
swap_uuid u = drop 8 u ++ take 8 u

-- the writes of Serialize: each goes into the zeroed buffer at its offset
unfoldable pub serialize_buffer : ClientMessage → Bytes
unfolding copy_at type_field swap_uuid
serialize_buffer m =
    let b0 = replicate (hl_length + m.header_length + m.payload_length) 0 in
    let b1 = copy_at 0 (put_uint32 m.header_length) b0 in
    let b2 = copy_at 4 (type_field m.message_type) b1 in
    let b3 = copy_at 36 (put_uint32 m.schema_version) b2 in
    let b4 = copy_at 40 (put_uint64 m.created_date) b3 in
    let b5 = copy_at 48 (put_uint64 m.sequence_number) b4 in
    let b6 = copy_at 56 (put_uint64 m.flags) b5 in
    let b7 = copy_at 64 (swap_uuid m.message_id) b6 in
    let b8 = copy_at 80 m.payload_digest b7 in
    let b9 = copy_at 112 (put_uint32 m.payload_type) b8 in
    let b10 = copy_at 116 (put_uint32 m.payload_length) b9 in copy_at payload_offset m.payload b10

-- ClientMessage.Serialize; `none` is the panic of a write beyond a buffer that the lengths given
-- in the message make too short for the fixed fields
unfoldable pub serialize : ClientMessage → Option Bytes
unfolding serialize_buffer
serialize m =
    if ltb (hl_length + m.header_length + m.payload_length) payload_offset
    then none
    else some (serialize_buffer m)

-- strings.TrimRight(s, " ")
unfoldable pub trim_right : Bytes → Bytes
trim_right [] = []
trim_right (c ∷ s) = elim (trim_right s) [
  | [] ↦ if c == b' ' then [] else c ∷ []
  | d ∷ r ↦ c ∷ (d ∷ r)
]

-- binary.BigEndian.Uint32(data[off:]) and Uint64, where the length check in front lets them succeed
unfoldable pub uint32_at : ℕ → Bytes → ℕ
uint32_at off bytes = elim (uint32 (drop off bytes)) [ some n ↦ n | none ↦ 0 ]

unfoldable pub uint64_at : ℕ → Bytes → ℕ
uint64_at off bytes = elim (uint64 (drop off bytes)) [ some n ↦ n | none ↦ 0 ]

-- data[off : off+len]
abbrev pub slice : ℕ → ℕ → Bytes → Bytes
slice off len bytes = take len (drop off bytes)

-- What Deserialize returns: the message and the bytes of `data` as it leaves them, or an error.
pub data Deserialized : Type 0 where
  ok : ClientMessage → Bytes → Deserialized
  too_short : ℕ → Deserialized
  payload_too_short : ℕ → ℕ → Deserialized

-- Deserialize from the message ID on, in two lets. `append(uuidData[8:], uuidData[:8]...)` has room
-- behind the slice in `data` itself, so it writes the first eight bytes of the field there, at
-- offset 80, before the digest is read.
unfoldable pub deserialize_body : Bytes → Deserialized
unfolding uint32_at uint64_at trim_right copy_at
deserialize_body bytes =
    let uuid_data = slice 64 16 bytes in
    let after = copy_at 80 (take 8 uuid_data) bytes in
    let header_length = uint32_at 0 bytes in
    let payload_length = uint32_at 116 after in
    let start = header_length + hl_length in
    if ltb (length after) (start + payload_length)
    then payload_too_short (start + payload_length) (length after)
    else ok
        (record {
          header_length = header_length;
          message_type = trim_right (slice 4 type_length bytes);
          schema_version = uint32_at 36 bytes;
          created_date = uint64_at 40 bytes;
          sequence_number = uint64_at 48 bytes;
          flags = uint64_at 56 bytes;
          message_id = drop 8 uuid_data ++ take 8 uuid_data;
          payload_digest = slice 80 32 after;
          payload_type = uint32_at 112 after;
          payload_length = payload_length;
          payload = slice start payload_length after;
        })
        after

-- ClientMessage.Deserialize
unfoldable pub deserialize : Bytes → Deserialized
unfolding deserialize_body
deserialize bytes =
    if ltb (length bytes) payload_offset then too_short (length bytes) else deserialize_body bytes
