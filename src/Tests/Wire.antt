-- ===== src/Tests/Wire.antt =====
-- Tests of the agent's protocol and of the frames of the data channel.
use awsocks.Prelude.{
  ◌≡◌, refl, ◌≤◌, some, [], ◌∷◌, ◌++◌, if◌then◌else◌, arith, ltb, length, replicate, Bytes, IsBytes,
  codes,
}
use awsocks.Protocol.{
  Message, IsMessage, encode, ok, err, payload_too_large, max_payload, read_message, data_type,
}
use awsocks.Protocol.RoundTrip.{read_message-encode, encode-read_message}
use awsocks.Protocol.Payload.{
  connect_direct_message, parse_connect_payload, parse-connect_direct_message,
}
use awsocks.DataChannel.Message.{
  ClientMessage, Deserialized, trim_right, serialize, deserialize, header_length_value,
}
use awsocks.DataChannel.Message.Fields.{IsWire}
use awsocks.DataChannel.Message.RoundTrip.{damaged, deserialize-serialize}

abbrev data_seven : Message
data_seven = record { type = data_type; conn_id = 7; payload = codes "hi" }

read_message-encode_example : read_message (encode data_seven ++ codes "more") ≡ (
    if ltb max_payload (length data_seven.payload)
    then err (payload_too_large (length data_seven.payload))
    else ok data_seven (codes "more"))
read_message-encode_example =
    read_message-encode data_seven (codes "more") (omega arith) (omega arith)

abbrev wire_seven : Bytes
wire_seven = 3 ∷ 0 ∷ 0 ∷ 0 ∷ 7 ∷ 0 ∷ 0 ∷ 0 ∷ 2 ∷ 104 ∷ 105 ∷ 1 ∷ []

wire_seven-IsBytes : IsBytes wire_seven
wire_seven-IsBytes = (
  omega arith,
  (
    omega arith,
    (
      omega arith,
      (
        omega arith,
        (
          omega arith,
          (
            omega arith,
            (
              omega arith,
              (omega arith, (omega arith, (omega arith, (omega arith, (omega arith, tt))))),
            ),
          ),
        ),
      ),
    ),
  ),
)

read_wire_seven : read_message wire_seven ≡ ok data_seven (1 ∷ [])
unfolding read_message
read_wire_seven = refl

encode-read_message_example :
    (wire_seven ≡ encode data_seven ++ 1 ∷ [])
    × IsMessage data_seven
    × (length data_seven.payload ≤ max_payload)
encode-read_message_example = encode-read_message wire_seven wire_seven-IsBytes read_wire_seven

parse-connect_direct_message_example :
    parse_connect_payload (connect_direct_message 7 (codes "tcp") (codes "a:80")).payload
    ≡ some (codes "tcp", codes "a:80")
parse-connect_direct_message_example =
    parse-connect_direct_message 7 (codes "tcp") (codes "a:80")
      (λ h. omega arith, (λ h. omega arith, (λ h. omega arith, tt)))

abbrev pub output_frame : ClientMessage
output_frame = record {
  header_length = header_length_value;
  message_type = codes "output_stream_data";
  schema_version = 1;
  created_date = 1700000000000;
  sequence_number = 5;
  flags = 0;
  message_id = replicate 16 9;
  payload_digest = replicate 32 4;
  payload_type = 1;
  payload_length = 2;
  payload = codes "ok";
}

output_frame-IsWire : IsWire output_frame
unfolding trim_right
output_frame-IsWire = record {
  header = refl;
  type_fits = omega arith;
  type_trimmed = refl;
  schema = omega arith;
  created = omega arith;
  sequence = omega arith;
  flag_bits = omega arith;
  id_length = refl;
  digest_length = refl;
  type_word = omega arith;
  length_word = omega arith;
  length_is = refl;
}

deserialize-serialize_example :
    (bytes after : Bytes) × (serialize output_frame ≡ some bytes)
    × (deserialize bytes ≡ Deserialized.ok (damaged output_frame) after)
deserialize-serialize_example = deserialize-serialize output_frame output_frame-IsWire
