-- ===== src/DataChannel/Channel/Order/Acknowledge.antt =====
-- The acknowledgement in front of an output message, and the delivery behind it.
use awsocks.Prelude.{
  ℕ, ◌+◌, ◌%◌, ◌^◌, ◌≡◌, refl, ap, sym, ◌∙◌, Bool, true, false, none, some, List, [], ◌∷◌, ◌++◌,
  ltb, if◌then◌else◌, length, Bytes, arith, append_assoc, append-nil,
}
use awsocks.Prelude.Maps.{nat_eq}
use awsocks.DataChannel.Message.{
  serialize_buffer, acknowledge_message, ClientMessage, serialize, payload_offset,
  payload_type_output,
}
use awsocks.DataChannel.Channel.{Platform, DataChannel}
use awsocks.DataChannel.Channel.Send.{send_acknowledge, stream_message}
use awsocks.DataChannel.Channel.Receive.{deliver_message, deliver_all}
use awsocks.DataChannel.Channel.Order.{payloads, IsOutput, IsRun}

ltb_payload : (n : ℕ) → ltb (120 + n) payload_offset ≡ false
ltb_payload n = ground arith

if_some : (b : Bool) (frame : Bytes) → b ≡ false → (if b then none else some frame) ≡ some frame
if_some b frame h = rw h

module _ (p : Platform) (now : ℕ) where
  -- d' has the ordering state, the handler and the output of d
  pub record SameOrder (d d' : DataChannel p) : Type 0 where
    pub expected : d'.expected_seq_num ≡ d.expected_seq_num
    pub buffer : d'.incoming_buffer ≡ d.incoming_buffer
    pub output : d'.output ≡ d.output
    pub handler : d'.has_output_handler ≡ d.has_output_handler
    pub takes : d'.socket.takes ≡ d.socket.takes

  serialize-stream_message :
      (message_type payload : Bytes) (seq payload_type : ℕ) (id : Bytes)
      → serialize (stream_message p message_type payload seq payload_type now id)
        ≡ some (serialize_buffer (stream_message p message_type payload seq payload_type now id))
  unfolding serialize stream_message
  serialize-stream_message message_type payload seq payload_type id =
      if_some _ _ (ltb_payload (length payload % 2 ^ 32))

  pub send_acknowledge-ok :
      (m : ClientMessage) (d : DataChannel p)
      → d.socket.takes d.socket.attempts ≡ true
      → ((send_acknowledge p now m d).1 ≡ none) × SameOrder d (send_acknowledge p now m d).0
  unfolding send_acknowledge
  send_acknowledge-ok m d open_socket =
      let sent =
        serialize-stream_message acknowledge_message
          (p.marshal_ack m.message_type (p.uuid_string m.message_id) m.sequence_number) 0
          payload_type_output (d.ids d.id_count) in
      rw (sent, send_acknowledge)
        (
          ground arith,
          record { expected = refl; buffer = refl; output = refl; handler = refl; takes = refl },
        )

  abbrev pub with_output : DataChannel p → List Bytes → DataChannel p
  with_output d output = record d { output = output }

  deliver_message-output :
      (pay : ℕ → Bytes) (m : ClientMessage) (d : DataChannel p)
      → d.has_output_handler ≡ true
      → IsOutput pay m
      → deliver_message p m d ≡ with_output d (d.output ++ pay m.sequence_number ∷ [])
  unfolding deliver_message
  deliver_message-output pay m d handler out = ground arith

  pub deliver_all-run :
      (pay : ℕ → Bytes) (ms : List ClientMessage) (e : ℕ) (d : DataChannel p)
      → d.has_output_handler ≡ true
      → IsRun pay e ms
      → deliver_all p ms d ≡ record d { output = d.output ++ payloads pay e (length ms) }
  unfolding deliver_all
  deliver_all-run pay [] e d handler h = ap (with_output d) (sym (append-nil d.output))
  deliver_all-run pay (m ∷ ms) e d handler ((out, at), h) =
      rw (deliver_message-output pay m d handler out, at)
        (deliver_all-run pay ms (e + 1) (with_output d (d.output ++ pay e ∷ [])) handler h
          ∙ ap (with_output d)
              (append_assoc d.output (pay e ∷ []) (payloads pay (e + 1) (length ms))))
