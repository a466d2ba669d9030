-- ===== src/DataChannel/Channel/Bounds.antt =====
-- What sending, resending and acknowledgements do to the outgoing buffer and the resend timer.
use awsocks.Prelude.{
  ℕ, ◌≤◌, inl, inr, Bool, true, false, Option, none, some, List, [], ◌∷◌, leb, ◌==◌, length,
  length-append, Bytes, bytes_eq, arith, Bool-cases, Option-cases, All, All-append,
}
use awsocks.Prelude.Maps.{map_delete, bytes_key}
use awsocks.DataChannel.Message.{ClientMessage, input_stream_message, serialize}
use awsocks.DataChannel.Channel.{
  Platform, DataChannel, StreamingMessage, max_transmission_timeout, resend_max_attempt,
  outgoing_capacity, socket_send,
}
use awsocks.DataChannel.Channel.Send.{
  add_to_outgoing, take_acknowledged, send_frame, send_message, send_next, send_acknowledge,
  note_round_trip, process_acknowledge, resend_front, check_front,
}
use awsocks.DataChannel.Channel.Receive.{call_output, deliver_message, deliver_all}

-- Few enough messages, none sent again too often, and a timer of at most a second.
pub record IsBounded (buffer : List StreamingMessage) (timeout : ℕ) : Type 0 where
  pub few : length buffer ≤ outgoing_capacity
  pub tries : All (λ m. m.resend_attempt ≤ resend_max_attempt) buffer
  pub timer : timeout ≤ max_transmission_timeout

abbrev Tries : List StreamingMessage → Type 0
Tries = All (λ m. m.resend_attempt ≤ resend_max_attempt)

length-add_to_outgoing :
    (m : StreamingMessage) (buffer : List StreamingMessage)
    → length buffer ≤ outgoing_capacity
    → length (add_to_outgoing m buffer) ≤ outgoing_capacity
unfolding add_to_outgoing
length-add_to_outgoing m [] h = omega arith
length-add_to_outgoing m (front ∷ rest) h =
    ground (arith, length-append rest (m ∷ []), length-append (front ∷ rest) (m ∷ []))

Tries-add_to_outgoing :
    (m : StreamingMessage) (buffer : List StreamingMessage)
    → m.resend_attempt ≤ resend_max_attempt
    → Tries buffer
    → Tries (add_to_outgoing m buffer)
unfolding add_to_outgoing
Tries-add_to_outgoing m [] k h = (k, tt)
Tries-add_to_outgoing m (front ∷ rest) k h =
    elim (Bool-cases (leb outgoing_capacity (length (front ∷ rest)))) [
      | inl full ↦ rw full (All-append _ rest (m ∷ []) h.1 (k, tt))
      | inr room ↦ rw room (All-append _ (front ∷ rest) (m ∷ []) h (k, tt))
    ]

take_acknowledged-bounds :
    (id : Bytes) (buffer : List StreamingMessage)
    → Tries buffer
    → (length (take_acknowledged id buffer).1 ≤ length buffer)
      × Tries (take_acknowledged id buffer).1
unfolding take_acknowledged
take_acknowledged-bounds id [] h = (omega arith, tt)
take_acknowledged-bounds id (m ∷ rest) (k, h) =
    let (short, ih) = take_acknowledged-bounds id rest h in
    elim (Bool-cases (bytes_eq m.message_id id)) [
      | inl same ↦ rw same (omega arith, h)
      | inr other ↦ rw other (omega arith, (k, ih))
    ]

module _ (p : Platform) where
  abbrev pub IsBoundedChannel : DataChannel p → Type 0
  IsBoundedChannel d = IsBounded d.outgoing_buffer d.retransmission_timeout

  pub send_frame-IsBounded :
      (now : ℕ) (msg : ClientMessage) (frame : Bytes) (d : DataChannel p)
      → IsBoundedChannel d
      → IsBoundedChannel (send_frame p now msg frame d).0
  unfolding send_frame socket_send
  send_frame-IsBounded now msg frame d b =
      elim (Bool-cases (bytes_eq msg.message_type input_stream_message)) [
        | inl input ↦ rw input (record {
          few = length-add_to_outgoing _ d.outgoing_buffer b.few;
          tries = Tries-add_to_outgoing _ d.outgoing_buffer (omega arith) b.tries;
          timer = b.timer;
        })
        | inr other ↦ rw other b
      ]

  pub send_message-IsBounded :
      (now : ℕ) (msg : ClientMessage) (d : DataChannel p)
      → IsBoundedChannel d
      → IsBoundedChannel (send_message p now msg d).0
  unfolding send_message
  send_message-IsBounded now msg d b = elim (Option-cases (serialize msg)) [
    | inl panics ↦ rw (panics, send_message) b
    | inr (frame, e) ↦ rw (e, send_message) (send_frame-IsBounded now msg frame d b)
  ]

  pub send_next-IsBounded :
      (now type : ℕ) (payload : Bytes) (d : DataChannel p)
      → IsBoundedChannel d
      → IsBoundedChannel (send_next p now type payload d).0
  unfolding send_next
  send_next-IsBounded now type payload d b = send_message-IsBounded now _ _ b

  pub send_acknowledge-IsBounded :
      (now : ℕ) (msg : ClientMessage) (d : DataChannel p)
      → IsBoundedChannel d
      → IsBoundedChannel (send_acknowledge p now msg d).0
  unfolding send_acknowledge
  send_acknowledge-IsBounded now msg d b = ground arith

  pub note_round_trip-IsBounded :
      (now : ℕ) (found : Option StreamingMessage) (d : DataChannel p)
      → IsBoundedChannel d
      → IsBoundedChannel (note_round_trip p now found d)
  unfolding note_round_trip
  note_round_trip-IsBounded now none d b = b
  note_round_trip-IsBounded now (some m) d b = elim (Bool-cases (m.resend_attempt == 0)) [
    | inl fresh ↦ rw fresh (record { few = b.few; tries = b.tries; timer = ground arith })
    | inr again ↦ rw again b
  ]

  pub process_acknowledge-IsBounded :
      (now : ℕ) (msg : ClientMessage) (d : DataChannel p)
      → IsBoundedChannel d
      → IsBoundedChannel (process_acknowledge p now msg d).0
  unfolding process_acknowledge
  process_acknowledge-IsBounded now msg d b = elim (Option-cases (p.unmarshal_ack msg.payload)) [
    | inl unreadable ↦ rw (unreadable, process_acknowledge) b
    | inr (id, e) ↦
        let (short, tries) = take_acknowledged-bounds id d.outgoing_buffer b.tries in
        rw (e, process_acknowledge)
          (note_round_trip-IsBounded now (take_acknowledged id d.outgoing_buffer).0
            (record d {
              pending_messages = map_delete id d.pending_messages;
              outgoing_buffer = (take_acknowledged id d.outgoing_buffer).1;
            })
            (record { few = omega (arith, short, b.few); tries = tries; timer = b.timer }))
  ]

  pub call_output-IsBounded :
      (payload : Bytes) (d : DataChannel p)
      → IsBoundedChannel d
      → IsBoundedChannel (call_output p payload d)
  unfolding call_output
  call_output-IsBounded payload d b = ground arith

  pub deliver_all-IsBounded :
      (ms : List ClientMessage) (d : DataChannel p)
      → IsBoundedChannel d
      → IsBoundedChannel (deliver_all p ms d)
  unfolding deliver_all
  deliver_all-IsBounded [] d b = b
  deliver_all-IsBounded (m ∷ ms) d b =
      deliver_all-IsBounded ms (deliver_message p m d)
        (ground (arith, call_output-IsBounded m.payload d b))

  pub resend_front-IsBounded :
      (now : ℕ) (msg : StreamingMessage) (rest : List StreamingMessage) (d : DataChannel p)
      → length (msg ∷ rest) ≤ outgoing_capacity
      → Tries (msg ∷ rest)
      → IsBoundedChannel d
      → IsBoundedChannel (resend_front p now msg rest d)
  unfolding resend_front socket_send
  resend_front-IsBounded now msg rest d few (k, h) b = ground arith

  pub check_front-IsBounded :
      (now : ℕ) (c : Bool) (buffer : List StreamingMessage) (d : DataChannel p)
      → IsBounded buffer d.retransmission_timeout
      → IsBoundedChannel d
      → IsBoundedChannel (check_front p now c buffer d)
  unfolding check_front
  check_front-IsBounded now true buffer d f b = b
  check_front-IsBounded now false [] d f b = b
  check_front-IsBounded now false (msg ∷ rest) d f b =
      resend_front-IsBounded now msg rest d f.few f.tries b
