-- ===== src/DataChannel/Channel/Receive.antt =====
-- channel.go: incoming messages.

use awsocks.Prelude.{
  ℕ, zero, suc, true, none, some, List, [], ◌∷◌, ◌++◌, ◌==◌, if◌then◌else◌, length, Bytes, bytes_eq,
}
use awsocks.Prelude.Maps.{map_set, map_get, map_delete, nat_eq}
use awsocks.DataChannel.Message.{
  ClientMessage, ok, too_short, payload_too_short, deserialize, input_stream_message,
  output_stream_message, acknowledge_message, channel_closed_message, payload_type_output,
  payload_type_handshake_request, payload_type_handshake_complete,
}
use awsocks.DataChannel.Channel.{
  Platform, DataChannel, Outcome, handshake_completed, deserialize_failed, handshake_refused,
  lt_int64, inc_int64, close,
}
use awsocks.DataChannel.Channel.Send.{
  send_acknowledge, send_handshake_response, process_acknowledge,
}

-- What the ordering of output messages keeps: the next sequence number, the buffer, and the
-- messages taken out for delivery.
pub record Ordering : Type 0 where
  pub expected : ℕ
  pub buffer : List (ℕ × ClientMessage)
  pub deliver : List ClientMessage

-- the inner loop over the buffered messages. Each round deletes a buffered entry, so one round more
-- than there are entries is enough fuel.
unfoldable pub drain : ℕ → Ordering → Ordering
drain zero o = o
drain (suc fuel) o = elim (map_get o.expected o.buffer) [
  | none ↦ o
  | some m ↦ drain fuel (record {
    expected = inc_int64 o.expected;
    buffer = map_delete o.expected o.buffer;
    deliver = o.deliver ++ m ∷ [];
  })
]

-- the locked part of processOutputMessage for PayloadTypeOutput
unfoldable pub arrange : ClientMessage → ℕ → List (ℕ × ClientMessage) → Ordering
unfolding drain
arrange msg expected buffer =
    if msg.sequence_number == expected
    then drain (suc (length buffer))
        (record { expected = inc_int64 expected; buffer = buffer; deliver = msg ∷ [] })
    else if lt_int64 expected msg.sequence_number
    then record {
      expected = expected;
      buffer = map_set msg.sequence_number msg buffer;
      deliver = [];
    }
    else record { expected = expected; buffer = buffer; deliver = [] }

module _ (p : Platform) where
  -- onOutputData, if it is set
  unfoldable pub call_output : Bytes → DataChannel p → DataChannel p
  call_output payload d =
      if d.has_output_handler then record d { output = d.output ++ payload ∷ [] } else d

  -- deliverMessage
  unfoldable pub deliver_message : ClientMessage → DataChannel p → DataChannel p
  unfolding call_output
  deliver_message msg d =
      if msg.payload_type == payload_type_output then call_output msg.payload d else d

  -- for _, m := range toDeliver
  unfoldable pub deliver_all : List ClientMessage → DataChannel p → DataChannel p
  unfolding deliver_message
  deliver_all [] d = d
  deliver_all (m ∷ ms) d = deliver_all ms (deliver_message m d)

  -- processOutputMessage for PayloadTypeOutput, behind the acknowledgement
  unfoldable pub accept_output : ClientMessage → DataChannel p → DataChannel p
  unfolding arrange deliver_all
  accept_output msg d =
      let o = arrange msg d.expected_seq_num d.incoming_buffer in
      deliver_all o.deliver (record d { expected_seq_num = o.expected; incoming_buffer = o.buffer })

  -- handleHandshakeRequest
  unfoldable pub handle_handshake_request : ℕ → ClientMessage → DataChannel p → Outcome p
  handle_handshake_request now msg d = elim (p.answer_handshake msg.payload) [
    | none ↦ (d, some handshake_refused)
    | some response ↦ send_handshake_response p now response d
  ]

  -- handleHandshakeComplete
  unfoldable pub handle_handshake_complete : ClientMessage → DataChannel p → DataChannel p
  handle_handshake_complete msg d = record d {
    handshake_complete = true;
    expected_seq_num = inc_int64 msg.sequence_number;
    events = d.events ++ handshake_completed ∷ [];
  }

  -- the switch of processOutputMessage
  unfoldable pub dispatch_output : ℕ → ClientMessage → DataChannel p → Outcome p
  unfolding handle_handshake_request handle_handshake_complete accept_output
  dispatch_output now msg d =
      if msg.payload_type == payload_type_handshake_request
      then handle_handshake_request now msg d
      else if msg.payload_type == payload_type_handshake_complete
      then (handle_handshake_complete msg d, none)
      else if msg.payload_type == payload_type_output
      then (accept_output msg d, none)
      else (d, none)

  -- the switch of processInputMessage
  unfoldable pub dispatch_input : ℕ → ClientMessage → DataChannel p → Outcome p
  unfolding handle_handshake_request handle_handshake_complete call_output
  dispatch_input now msg d =
      if msg.payload_type == payload_type_handshake_request
      then handle_handshake_request now msg d
      else if msg.payload_type == payload_type_handshake_complete
      then (handle_handshake_complete msg d, none)
      else (call_output msg.payload d, none)

  -- the acknowledgement comes first, and an error of it ends the operation
  unfoldable pub acknowledged :
      (ℕ → ClientMessage → DataChannel p → Outcome p)
      → ℕ
      → ClientMessage
      → DataChannel p
      → Outcome p
  acknowledged rest now msg d =
      let (d', e) = send_acknowledge p now msg d in
      elim e [ some error ↦ (d', some error) | none ↦ rest now msg d' ]

  -- processOutputMessage
  unfoldable pub process_output_message : ℕ → ClientMessage → DataChannel p → Outcome p
  unfolding acknowledged dispatch_output
  process_output_message now msg d = acknowledged dispatch_output now msg d

  -- processInputMessage
  unfoldable pub process_input_message : ℕ → ClientMessage → DataChannel p → Outcome p
  unfolding acknowledged dispatch_input
  process_input_message now msg d = acknowledged dispatch_input now msg d

  -- the switch of ProcessMessage
  unfoldable pub dispatch_message : ℕ → ClientMessage → DataChannel p → Outcome p
  unfolding process_output_message process_input_message
  dispatch_message now msg d =
      if bytes_eq msg.message_type acknowledge_message
      then process_acknowledge p now msg d
      else if bytes_eq msg.message_type output_stream_message
      then process_output_message now msg d
      else if bytes_eq msg.message_type input_stream_message
      then process_input_message now msg d
      else if bytes_eq msg.message_type channel_closed_message
      then (close p d, none)
      else (d, none)

  -- ProcessMessage
  unfoldable pub process_message : ℕ → Bytes → DataChannel p → Outcome p
  unfolding dispatch_message
  process_message now bytes d = elim (deserialize bytes) [
    | ok msg after ↦ dispatch_message now msg d
    | too_short n ↦ (d, some deserialize_failed)
    | payload_too_short m n ↦ (d, some deserialize_failed)
  ]
