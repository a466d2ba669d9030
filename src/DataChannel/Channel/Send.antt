-- ===== src/DataChannel/Channel/Send.antt =====
-- channel.go: sending, the outgoing buffer, acknowledgements and the resend scheduler.
use awsocks.Prelude.{
  true, false, ◌/◌, ◌%◌, ◌^◌, ℕ, ◌+◌, ◌-◌, Option, none, some, List, [], ◌∷◌, ◌++◌, leb, ◌==◌,
  if◌then◌else◌, length, Bytes, bytes_eq,
}
use awsocks.Prelude.Maps.{map_set, map_delete, bytes_key}
use awsocks.DataChannel.Message.{
  ClientMessage, serialize, input_stream_message, acknowledge_message, header_length_value,
  payload_type_output, payload_type_handshake_response,
}
use awsocks.DataChannel.Channel.{
  Bool, millisecond, Platform, DataChannel, Outcome, StreamingMessage, resend_timed_out,
  serialize_panicked, acknowledge_unreadable, acknowledge_unsent, send_failed, outgoing_capacity,
  resend_max_attempt, inc_int64, socket_send, calculate_retransmission_timeout,
}

-- addToOutgoingBuffer: the oldest message makes room
unfoldable pub add_to_outgoing : StreamingMessage → List StreamingMessage → List StreamingMessage
add_to_outgoing msg [] = msg ∷ []
add_to_outgoing msg (front ∷ rest) =
    if leb outgoing_capacity (length (front ∷ rest))
    then rest ++ msg ∷ []
    else (front ∷ rest) ++ msg ∷ []

-- the loop of processAcknowledge: the first message with this ID, and the buffer without it
unfoldable pub take_acknowledged :
    Bytes → List StreamingMessage → Option StreamingMessage × List StreamingMessage
take_acknowledged id [] = (none, [])
take_acknowledged id (m ∷ rest) =
    let (found, others) = take_acknowledged id rest in
    if bytes_eq m.message_id id then (some m, rest) else (found, m ∷ others)

module _ (p : Platform) where
  -- NewInputStreamMessage and NewAcknowledgeMessage share these fields
  unfoldable pub stream_message : Bytes → Bytes → ℕ → ℕ → ℕ → Bytes → ClientMessage
  stream_message message_type payload sequence_number payload_type now id = record {
    header_length = header_length_value;
    message_type = message_type;
    schema_version = 1;
    created_date = now / millisecond;
    sequence_number = sequence_number;
    flags = 0;
    message_id = id;
    payload_digest = p.sha256 payload;
    payload_type = payload_type;
    payload_length = length payload % 2 ^ 32;
    payload = payload;
  }

  -- sendMessage behind Serialize: pending and outgoing entries for input, then the frame
  unfoldable pub send_frame : ℕ → ClientMessage → Bytes → DataChannel p → Outcome p
  unfolding add_to_outgoing
  send_frame now msg frame d =
      let id = p.uuid_string msg.message_id in
      let tracked =
        if bytes_eq msg.message_type input_stream_message
        then record d {
          pending_messages =
              map_set id (record { message = msg; sent_at = now; attempts = 1 }) d.pending_messages;
          outgoing_buffer =
              add_to_outgoing
                (record {
                  content = frame;
                  sequence_number = msg.sequence_number;
                  message_id = id;
                  last_sent_time = now;
                  resend_attempt = 0;
                })
                d.outgoing_buffer;
        }
        else d in
      let (d', taken) = socket_send p frame tracked in
      (d', if taken then none else some send_failed)

  -- sendMessage
  unfoldable pub send_message : ℕ → ClientMessage → DataChannel p → Outcome p
  unfolding send_frame
  send_message now msg d = elim (serialize msg) [
    | none ↦ (d, some serialize_panicked)
    | some frame ↦ send_frame now msg frame d
  ]

  -- the next sequence number and the next UUID are used up, then the message is sent
  unfoldable pub send_next : ℕ → ℕ → Bytes → DataChannel p → Outcome p
  unfolding send_message
  send_next now payload_type payload d =
      let msg =
        stream_message input_stream_message payload d.send_seq_num payload_type now
          (d.ids d.id_count) in
      send_message now msg
        (record d { send_seq_num = inc_int64 d.send_seq_num; id_count = d.id_count + 1 })

  -- SendInputData
  unfoldable pub send_input_data : ℕ → Bytes → DataChannel p → Outcome p
  unfolding send_next
  send_input_data now payload d = send_next now payload_type_output payload d

  -- sendHandshakeResponse
  unfoldable pub send_handshake_response : ℕ → Bytes → DataChannel p → Outcome p
  unfolding send_next
  send_handshake_response now payload d = send_next now payload_type_handshake_response payload d

  -- sendAcknowledge; NewAcknowledgeMessage takes a UUID
  unfoldable pub send_acknowledge : ℕ → ClientMessage → DataChannel p → Outcome p
  unfolding socket_send
  send_acknowledge now msg d =
      let payload =
        p.marshal_ack msg.message_type (p.uuid_string msg.message_id) msg.sequence_number in
      let ack =
        stream_message acknowledge_message payload 0 payload_type_output now (d.ids d.id_count) in
      let d₁ = record d { id_count = d.id_count + 1 } in
      elim (serialize ack) [
        | none ↦ (d₁, some serialize_panicked)
        | some frame ↦
            let (d₂, taken) = socket_send p frame d₁ in
            (d₂, if taken then none else some acknowledge_unsent)
      ]

  -- the timeout is computed only from a message that was not sent again
  unfoldable pub note_round_trip : ℕ → Option StreamingMessage → DataChannel p → DataChannel p
  unfolding calculate_retransmission_timeout
  note_round_trip now none d = d
  note_round_trip now (some m) d =
      if m.resend_attempt == 0 then calculate_retransmission_timeout p now m d else d

  -- processAcknowledge
  unfoldable pub process_acknowledge : ℕ → ClientMessage → DataChannel p → Outcome p
  unfolding take_acknowledged note_round_trip
  process_acknowledge now msg d = elim (p.unmarshal_ack msg.payload) [
    | none ↦ (d, some acknowledge_unreadable)
    | some id ↦
        let (found, others) = take_acknowledged id d.outgoing_buffer in
        (
          note_round_trip now found (record d {
            pending_messages = map_delete id d.pending_messages;
            outgoing_buffer = others;
          }),
          none,
        )
  ]

  -- checkAndResend on the front message of the buffer
  unfoldable pub resend_front :
      ℕ → StreamingMessage → List StreamingMessage → DataChannel p → DataChannel p
  unfolding socket_send
  resend_front now msg rest d =
      if leb (now - msg.last_sent_time) d.retransmission_timeout
      then d
      else if leb resend_max_attempt msg.resend_attempt
      then record d { events = d.events ++ resend_timed_out ∷ [] }
      else (let (d', taken) = socket_send p msg.content d in
          if taken
          then record d' {
            outgoing_buffer =
                record msg { resend_attempt = msg.resend_attempt + 1; last_sent_time = now } ∷ rest;
          }
          else d')

  -- checkAndResend behind its reads of the context and of the buffer's front
  unfoldable pub check_front : ℕ → Bool → List StreamingMessage → DataChannel p → DataChannel p
  unfolding resend_front
  check_front now true buffer d = d
  check_front now false [] d = d
  check_front now false (msg ∷ rest) d = resend_front now msg rest d

  -- checkAndResend, with no operation between its locked parts
  unfoldable pub check_and_resend : ℕ → DataChannel p → DataChannel p
  unfolding check_front
  check_and_resend now d = check_front now d.cancelled d.outgoing_buffer d
