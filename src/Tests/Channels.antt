-- ===== src/Tests/Channels.antt =====
-- Tests of the data channel: a platform with fixed-point numbers, and messages out of order.
use awsocks.Prelude.{
  bytes_eq, none, ◌≡◌, refl, ℕ, ◌+◌, ◌-◌, ◌*◌, ◌/◌, ◌≤◌, true, false, none, some, List, [], ◌∷◌,
  ◌++◌, if◌then◌else◌, ltb, ◌==◌, arith, any, replicate, Bytes, codes,
}
use awsocks.Prelude.Maps.{bytes_key, map_get}
use awsocks.DataChannel.Message.{ClientMessage}
use awsocks.DataChannel.Channel.{StreamingMessage, Platform, DataChannel, new_data_channel}
use awsocks.DataChannel.Channel.Order.{payloads, IsOutput}
use awsocks.DataChannel.Channel.Order.Delivery.{
  receive_outputs, IsReceiving, receive_outputs-in_order,
}
use awsocks.DataChannel.Channel.Send.{process_acknowledge}
use awsocks.DataChannel.Channel.Acknowledged.{IsAcknowledged, process_acknowledge-IsAcknowledged}
use awsocks.DataChannel.Channel.Outgoing.{Action}
use awsocks.Tests.Wire.{output_frame}

-- numbers in sixty-fourths
abbrev fixed_point : Platform
fixed_point = record {
  floats = record {
    F = ℕ;
    of_nat = λ n. 64 * n;
    truncate = λ x. x / 64;
    add = λ x y. x + y;
    sub = λ x y. x - y;
    mul = λ x y. x * y / 64;
    abs = λ x. x;
    max = λ x y. if ltb x y then y else x;
    eighth = 8;
    quarter = 16;
  };
  marshal_ack = λ kind id n. id;
  unmarshal_ack = λ payload. some payload;
  sha256 = λ payload. replicate 32 0;
  uuid_string = λ id. id;
  answer_handshake = λ payload. none;
}

abbrev fresh : DataChannel fixed_point
fresh =
    new_data_channel fixed_point (record { takes = λ n. true; attempts = 0; frames = [] })
      (λ n. replicate 16 n) true

abbrev own_number : ℕ → Bytes
own_number n = n ∷ []

abbrev numbered : ℕ → ClientMessage
numbered n = record output_frame { sequence_number = n; payload = own_number n; payload_length = 1 }

numbered-IsOutput : (n : ℕ) → n ≤ 5 → IsOutput own_number (numbered n)
numbered-IsOutput n h = record { kind = refl; carries = refl; numbered = omega arith }

fresh-IsReceiving : IsReceiving fixed_point 0 own_number fresh
unfolding new_data_channel map_get
fresh-IsReceiving = record {
  in_range = omega arith;
  buffer_is = λ k m h. cc;
  handler = refl;
  open_socket = λ n. refl;
}

abbrev shuffled : List ClientMessage
shuffled = numbered 1 ∷ numbered 0 ∷ numbered 1 ∷ numbered 3 ∷ []

receive_outputs-in_order_example :
    (n : ℕ) × ((receive_outputs fixed_point 0 shuffled fresh).output
      ≡ fresh.output ++ payloads own_number fresh.expected_seq_num n)
    × ((receive_outputs fixed_point 0 shuffled fresh).expected_seq_num ≡ fresh.expected_seq_num + n)
    × (any (λ m. m.sequence_number == fresh.expected_seq_num + n) shuffled ≡ false)
receive_outputs-in_order_example =
    receive_outputs-in_order fixed_point 0 own_number shuffled fresh fresh-IsReceiving (
      numbered-IsOutput 1 (omega arith),
      (
        numbered-IsOutput 0 (omega arith),
        (numbered-IsOutput 1 (omega arith), (numbered-IsOutput 3 (omega arith), tt)),
      ),
    )

abbrev session : List (ℕ × Action)
session =
    (0, Action.send_data (codes "hi"))
    ∷ (5000, Action.tick)
    ∷ (300000000, Action.tick)
    ∷ (300000001, Action.receive_frame (codes "noise"))
    ∷ []

abbrev sent : Bytes → StreamingMessage
sent id = record {
  content = [];
  sequence_number = 0;
  message_id = id;
  last_sent_time = 0;
  resend_attempt = 0;
}

abbrev busy : DataChannel fixed_point
busy = record fresh { outgoing_buffer = sent (codes "a") ∷ sent (codes "b") ∷ [] }

abbrev acknowledgement : ClientMessage
acknowledgement = record output_frame { payload = codes "b" }

process_acknowledge-IsAcknowledged_example :
    IsAcknowledged
      (codes "b")
      busy.outgoing_buffer
      (process_acknowledge fixed_point 9 acknowledgement busy).0.outgoing_buffer
    × (map_get
          (codes "a")
          (process_acknowledge fixed_point 9 acknowledgement busy).0.pending_messages
        ≡ (if bytes_eq (codes "b") (codes "a")
            then none
            else map_get (codes "a") busy.pending_messages))
    × ((process_acknowledge fixed_point 9 acknowledgement busy).1 ≡ none)
process_acknowledge-IsAcknowledged_example =
    process_acknowledge-IsAcknowledged fixed_point 9 acknowledgement busy (codes "b") (codes "a")
      refl
