-- ===== src/DataChannel/Channel/Order/Delivery.antt =====
-- The delivery of output messages that arrive in any order, some of them more than once.
use mathlib.Core.Path.{subst}
use awsocks.Prelude.{
  ℕ, ◌+◌, ◌≤◌, ◌≡◌, refl, ap, sym, ◌∙◌, inl, inr, true, false, none, List, [], ◌∷◌, ◌++◌, ◌==◌,
  ==_iff, length, Bytes, arith, Bool-cases, any, All, append_assoc, append-nil,
}
use awsocks.Prelude.Maps.{nat_eq}
use awsocks.DataChannel.Message.{ClientMessage}
use awsocks.DataChannel.Channel.{Platform, DataChannel, Outcome}
use awsocks.DataChannel.Channel.Send.{send_acknowledge}
use awsocks.DataChannel.Channel.Receive.{
  accept_output, dispatch_output, acknowledged, process_output_message, arrange,
}
use awsocks.DataChannel.Channel.Order.{seq_limit, payloads, payloads-append, IsOutput, IsBuffer}
use awsocks.DataChannel.Channel.Order.Arrange.{IsHeld, arrange-Arranges}
use awsocks.DataChannel.Channel.Order.Acknowledge.{SameOrder, send_acknowledge-ok, deliver_all-run}

module _ (p : Platform) (now : ℕ) where
  -- the messages of a list, one after the other
  abbrev pub receive_outputs : List ClientMessage → DataChannel p → DataChannel p
  receive_outputs [] d = d
  receive_outputs (m ∷ ms) d = receive_outputs ms (process_output_message p now m d).0

  module _ (pay : ℕ → Bytes) where
    -- A channel with an output handler and an open socket, whose buffer holds output messages with
    -- numbers above the expected one.
    pub record IsReceiving (d : DataChannel p) : Type 0 where
      pub in_range : d.expected_seq_num ≤ seq_limit
      pub buffer_is : IsBuffer pay (d.expected_seq_num + 1) d.incoming_buffer
      pub handler : d.has_output_handler ≡ true
      pub open_socket : (n : ℕ) → d.socket.takes n ≡ true

    -- what the channel has done between two states
    record Receives (d d' : DataChannel p) : Type 0 where
      count : ℕ
      expected_is : d'.expected_seq_num ≡ d.expected_seq_num + count
      output_is : d'.output ≡ d.output ++ payloads pay d.expected_seq_num count
      receiving : IsReceiving d'
      keeps :
          (k : ℕ)
          → IsHeld d.expected_seq_num d.incoming_buffer k
          → IsHeld d'.expected_seq_num d'.incoming_buffer k

    accept_output-Receives :
        (m : ClientMessage) (d : DataChannel p)
        → IsReceiving d
        → IsOutput pay m
        → Receives d (accept_output p m d)
          × IsHeld
              (accept_output p m d).expected_seq_num
              (accept_output p m d).incoming_buffer
              m.sequence_number
    unfolding accept_output
    accept_output-Receives m d r out =
        let o = arrange m d.expected_seq_num d.incoming_buffer in
        let a =
          arrange-Arranges pay m d.expected_seq_num d.incoming_buffer r.in_range r.buffer_is out in
        let d₁ = record d { expected_seq_num = o.expected; incoming_buffer = o.buffer } in
        rw (deliver_all-run p now pay o.deliver d.expected_seq_num d₁ r.handler a.run_is) (
          record {
            count = length o.deliver;
            expected_is = a.expected_is;
            output_is = refl;
            receiving = record {
              in_range = a.in_range;
              buffer_is = a.buffer_is;
              handler = r.handler;
              open_socket = r.open_socket;
            };
            keeps = λ k. elim [
              | inl below ↦ inl (omega (arith, a.expected_is))
              | inr (n, there) ↦ a.keeps k n there
            ];
          },
          a.arrived,
        )

    acknowledged-ok :
        (rest : ℕ → ClientMessage → DataChannel p → Outcome p) (m : ClientMessage)
        (d : DataChannel p)
        → (send_acknowledge p now m d).1 ≡ none
        → acknowledged p rest now m d ≡ rest now m (send_acknowledge p now m d).0
    unfolding acknowledged
    acknowledged-ok rest m d h = rw (h, acknowledged)

    dispatch_output-accept :
        (m : ClientMessage) (d : DataChannel p)
        → IsOutput pay m
        → dispatch_output p now m d ≡ (accept_output p m d, none)
    unfolding dispatch_output
    dispatch_output-accept m d out = rw out.kind

    process_output-accept :
        (m : ClientMessage) (d : DataChannel p)
        → (send_acknowledge p now m d).1 ≡ none
        → IsOutput pay m
        → (process_output_message p now m d).0 ≡ accept_output p m (send_acknowledge p now m d).0
    unfolding process_output_message
    process_output-accept m d sent out = rw (
      acknowledged-ok (dispatch_output p) m d sent,
      dispatch_output-accept m (send_acknowledge p now m d).0 out,
    )

    SameOrder-IsReceiving :
        (d d' : DataChannel p) → SameOrder p now d d' → IsReceiving d → IsReceiving d'
    SameOrder-IsReceiving d d' s r = record {
      in_range = rw s.expected r.in_range;
      buffer_is = rw (s.expected, s.buffer) r.buffer_is;
      handler = s.handler ∙ r.handler;
      open_socket = rw s.takes r.open_socket;
    }

    process_output-Receives :
        (m : ClientMessage) (d : DataChannel p)
        → IsReceiving d
        → IsOutput pay m
        → Receives d (process_output_message p now m d).0
          × IsHeld
              (process_output_message p now m d).0.expected_seq_num
              (process_output_message p now m d).0.incoming_buffer
              m.sequence_number
    process_output-Receives m d r out =
        let d₁ = (send_acknowledge p now m d).0 in
        let (sent, same) = send_acknowledge-ok p now m d (r.open_socket d.socket.attempts) in
        let (rec, held) = accept_output-Receives m d₁ (SameOrder-IsReceiving d d₁ same r) out in
        rw (process_output-accept m d sent out) (
          record {
            count = rec.count;
            expected_is = rw same.expected at rec.expected_is;
            output_is = rw (same.output, same.expected) at rec.output_is;
            receiving = rec.receiving;
            keeps = λ k h. rec.keeps k (rw (same.expected, same.buffer) h);
          },
          held,
        )

    Receives-refl : (d : DataChannel p) → IsReceiving d → Receives d d
    Receives-refl d r = record {
      count = 0;
      expected_is = omega arith;
      output_is = sym (append-nil d.output);
      receiving = r;
      keeps = λ k h. h;
    }

    Receives-trans : {d d' d'' : DataChannel p} → Receives d d' → Receives d' d'' → Receives d d''
    Receives-trans {d} {d'} {d''} a b = record {
      count = a.count + b.count;
      expected_is = omega (arith, a.expected_is, b.expected_is);
      output_is =
          b.output_is
          ∙ rw (a.output_is, a.expected_is)
              (append_assoc d.output _ _
                ∙ ap (◌++◌ d.output)
                    (payloads-append pay d.expected_seq_num a.count b.count _ refl));
      receiving = b.receiving;
      keeps = λ k h. b.keeps k (a.keeps k h);
    }

    receive-Receives :
        (ms : List ClientMessage) (d : DataChannel p)
        → IsReceiving d
        → All (IsOutput pay) ms
        → Receives d (receive_outputs ms d)
    receive-Receives [] d r h = Receives-refl d r
    receive-Receives (m ∷ ms) d r (out, h) =
        let first = (process_output-Receives m d r out).0 in
        Receives-trans first (receive-Receives ms _ first.receiving h)

    receive_outputs-IsHeld :
        (ms : List ClientMessage) (d : DataChannel p) (k : ℕ)
        → IsReceiving d
        → All (IsOutput pay) ms
        → any (λ m. m.sequence_number == k) ms ≡ true
        → IsHeld (receive_outputs ms d).expected_seq_num (receive_outputs ms d).incoming_buffer k
    receive_outputs-IsHeld [] d k r h arrived = cc
    receive_outputs-IsHeld (m ∷ ms) d k r (out, h) arrived =
        let (first, held) = process_output-Receives m d r out in
        let d₁ = (process_output_message p now m d).0 in
        elim (Bool-cases (m.sequence_number == k)) [
          | inl same ↦ (receive-Receives ms d₁ first.receiving h).keeps k (
              subst (IsHeld d₁.expected_seq_num d₁.incoming_buffer)
                ((==_iff m.sequence_number k).0 same) held)
          | inr other ↦ receive_outputs-IsHeld ms d₁ k first.receiving h (rw other at arrived)
        ]

    not-IsHeld :
        (e k : ℕ) (buffer : List (ℕ × ClientMessage))
        → e ≡ k
        → IsBuffer pay (e + 1) buffer
        → ¬ IsHeld e buffer k
    not-IsHeld e k buffer same b (inl below) = omega arith
    not-IsHeld e k buffer same b (inr (m, there)) = let (above, _, _) = b k m there in omega arith

    -- Take a receiving channel and any messages whose payloads are determined by their numbers,
    -- arriving in any order and any number of times. Then the output handler has been called with
    -- the payloads of the n numbers from the expected one on, in order and each once, for some n;
    -- the next number expected follows them; and no message with that number has arrived.
    pub receive_outputs-in_order :
        (ms : List ClientMessage) (d : DataChannel p)
        → IsReceiving d
        → All (IsOutput pay) ms
        → (n : ℕ) × ((receive_outputs ms d).output ≡ d.output ++ payloads pay d.expected_seq_num n)
          × ((receive_outputs ms d).expected_seq_num ≡ d.expected_seq_num + n)
          × (any (λ m. m.sequence_number == d.expected_seq_num + n) ms ≡ false)
    receive_outputs-in_order ms d r h =
        let rec = receive-Receives ms d r h in
        let next = d.expected_seq_num + rec.count in
        (
          rec.count,
          rec.output_is,
          rec.expected_is,
          elim (Bool-cases (any (λ m. m.sequence_number == next) ms)) [
            | inl arrived ↦ absurd (
                not-IsHeld _ next _ rec.expected_is rec.receiving.buffer_is
                  (receive_outputs-IsHeld ms d next r h arrived))
            | inr absent ↦ absent
          ],
        )
