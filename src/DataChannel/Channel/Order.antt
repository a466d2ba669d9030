-- ===== src/DataChannel/Channel/Order.antt =====
-- The reordering of output messages, on the pure part of `process_output_message`.
pub mod Acknowledge
pub mod Arrange
pub mod Delivery
use awsocks.Prelude.{
  ℕ, zero, suc, ◌+◌, ◌-◌, ◌^◌, ◌<◌, ◌≤◌, ◌≡◌, ◌≢◌, refl, ap, sym, ◌∙◌, ◌⊎◌, inl, inr, Bool, true,
  false, Option, none, some, List, [], ◌∷◌, ◌++◌, ltb, ◌==◌, ==_iff, if◌then◌else◌, length, Bytes,
  arith, Option-cases, Bool-cases, any, append_assoc, append-nil,
}
use awsocks.Prelude.Maps.{
  map_set, map_get, map_delete, nat_eq, map_get-map_set, map_get-map_delete, length-map_delete-lt,
}
use awsocks.DataChannel.Message.{ClientMessage, payload_type_output}
use awsocks.DataChannel.Channel.{lt_int64, inc_int64}
use awsocks.DataChannel.Channel.Receive.{Ordering, drain, arrange}

-- Sequence numbers below this bound neither wrap when they are incremented nor turn negative.
abbrev pub seq_limit : ℕ
seq_limit = 2 ^ 63 - 1

pub inc_int64-eq : (a : ℕ) → a < seq_limit → inc_int64 a ≡ a + 1
unfolding inc_int64
inc_int64-eq a h = omega arith

pub lt_int64-eq : (a b : ℕ) → a ≤ seq_limit → b ≤ seq_limit → lt_int64 a b ≡ ltb a b
unfolding lt_int64
lt_int64-eq a b h k = ground arith

-- the payloads of n messages from number e on
abbrev pub payloads : (ℕ → Bytes) → ℕ → ℕ → List Bytes
payloads pay e zero = []
payloads pay e (suc n) = pay e ∷ payloads pay (e + 1) n

pub payloads-append :
    (pay : ℕ → Bytes) (e a b c : ℕ)
    → a + b ≡ c
    → payloads pay e a ++ payloads pay (e + a) b ≡ payloads pay e c
payloads-append pay e zero b c h =
    let same : b ≡ c = omega arith in let start : e + 0 ≡ e = omega arith in rw (start, same)
payloads-append pay e (suc a) b zero h = absurd (omega arith)
payloads-append pay e (suc a) b (suc c) h =
    let shift : e + suc a ≡ e + 1 + a = omega arith in
    rw shift (ap (◌∷◌ (pay e)) (payloads-append pay (e + 1) a b c (omega arith)))

other_key :
    (e k : ℕ) (o : Option ClientMessage) (m : ClientMessage)
    → (if e == k then none else o) ≡ some m
    → (e ≢ k) × (o ≡ some m)
other_key e k o m h = ground arith

absurd_some : {m : ClientMessage} → ¬ (none ≡ some m)
absurd_some h = cc

if_false : (b : Bool) → b ≡ false → {o : Option ClientMessage} → (if b then none else o) ≡ o
if_false b h = ground arith

module _ (pay : ℕ → Bytes) where
  -- an output message whose payload is that of its number
  pub record IsOutput (m : ClientMessage) : Type 0 where
    pub kind : m.payload_type ≡ payload_type_output
    pub carries : m.payload ≡ pay m.sequence_number
    pub numbered : m.sequence_number < seq_limit

  -- messages with the numbers e, e + 1, …
  abbrev pub IsRun : ℕ → List ClientMessage → Type 0
  IsRun e [] = Unit
  IsRun e (m ∷ ms) = (IsOutput m × (m.sequence_number ≡ e)) × IsRun (e + 1) ms

  -- A buffer of output messages under their numbers, none below `low`.
  abbrev pub IsBuffer : ℕ → List (ℕ × ClientMessage) → Type 0
  IsBuffer low buffer =
      (k : ℕ) (m : ClientMessage)
      → map_get k buffer ≡ some m
      → (low ≤ k) × IsOutput m × (m.sequence_number ≡ k)

  -- what `drain` does, from one state of the ordering to another
  pub record Drains (o o' : Ordering) : Type 0 where
    pub run : List ClientMessage
    pub run_is : IsRun o.expected run
    pub deliver_is : o'.deliver ≡ o.deliver ++ run
    pub expected_is : o'.expected ≡ o.expected + length run
    pub in_range : o'.expected ≤ seq_limit
    pub buffer_is : IsBuffer (o'.expected + 1) o'.buffer
    pub keeps :
        (k : ℕ) (m : ClientMessage)
        → map_get k o.buffer ≡ some m
        → (k < o'.expected) ⊎ (map_get k o'.buffer ≡ some m)

  IsBuffer-delete :
      (e : ℕ) (buffer : List (ℕ × ClientMessage))
      → IsBuffer e buffer
      → IsBuffer (e + 1) (map_delete e buffer)
  IsBuffer-delete e buffer b k m h =
      let (ne, there) =
        other_key e k (map_get k buffer) m (rw (map_get-map_delete e k buffer) at h) in
      let (above, out, at) = b k m there in (omega arith, out, at)

  IsBuffer-up :
      (e : ℕ) (buffer : List (ℕ × ClientMessage))
      → IsBuffer e buffer
      → map_get e buffer ≡ none
      → IsBuffer (e + 1) buffer
  IsBuffer-up e buffer b free k m h =
      let (above, out, at) = b k m h in
      let ne : e ≢ k = λ q. absurd_some (sym free ∙ ap (λ x. map_get x buffer) q ∙ h) in
      (omega arith, out, at)

  -- what a round of the loop adds to the rounds behind it
  Drains-cons :
      (o : Ordering) (m : ClientMessage) (o' : Ordering)
      → map_get o.expected o.buffer ≡ some m
      → IsOutput m
      → m.sequence_number ≡ o.expected
      → Drains
          (record {
            expected = o.expected + 1;
            buffer = map_delete o.expected o.buffer;
            deliver = o.deliver ++ m ∷ [];
          })
          o'
      → Drains o o'
  Drains-cons o m o' found out at d = record {
    run = m ∷ d.run;
    run_is = ((out, at), d.run_is);
    deliver_is = d.deliver_is ∙ append_assoc o.deliver (m ∷ []) d.run;
    expected_is = omega (arith, d.expected_is);
    in_range = d.in_range;
    buffer_is = d.buffer_is;
    keeps = λ k n h. elim (Bool-cases (o.expected == k)) [
      | inl same ↦ inl (omega (arith, d.expected_is, (==_iff o.expected k).0 same))
      | inr other ↦
          d.keeps k n
            (map_get-map_delete o.expected k o.buffer ∙ if_false (o.expected == k) other ∙ h)
    ];
  }

  pub drain-Drains :
      (fuel : ℕ) (o : Ordering)
      → length o.buffer < fuel
      → o.expected ≤ seq_limit
      → IsBuffer o.expected o.buffer
      → Drains o (drain fuel o)
  unfolding drain
  drain-Drains zero o h small b = absurd (omega arith)
  drain-Drains (suc fuel) o h small b = elim (Option-cases (map_get o.expected o.buffer)) [
    | inl free ↦
        rw (free, drain)
          (record {
            run = [];
            run_is = tt;
            deliver_is = sym (append-nil o.deliver);
            expected_is = omega arith;
            in_range = small;
            buffer_is = IsBuffer-up o.expected o.buffer b free;
            keeps = λ k m there. inr there;
          })
    | inr (m, found) ↦
        let (above, out, at) = b o.expected m found in
        let below : o.expected < seq_limit = omega (arith, out.numbered, at) in
        rw (found, drain, inc_int64-eq o.expected below)
          (Drains-cons o m _ found out at (
            drain-Drains fuel
              (record {
                expected = o.expected + 1;
                buffer = map_delete o.expected o.buffer;
                deliver = o.deliver ++ m ∷ [];
              })
              (omega (arith, length-map_delete-lt o.expected o.buffer m found)) (omega arith)
              (IsBuffer-delete o.expected o.buffer b)))
  ]
