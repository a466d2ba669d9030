-- ===== src/DataChannel/Channel/Order/Arrange.antt =====
-- One output message: what is delivered, what is buffered, and what is next.
use awsocks.Prelude.{
  ℕ, suc, ◌+◌, ◌<◌, ◌≤◌, ◌≡◌, ◌∙◌, ◌⊎◌, inl, inr, Option, some, List, [], ◌∷◌, ltb, ◌==◌, ==_iff,
  if◌then◌else◌, length, Bytes, arith, Bool-cases, ltb→lt,
}
use awsocks.Prelude.Maps.{map_set, map_get, nat_eq, map_get-map_set}
use awsocks.DataChannel.Message.{ClientMessage}
use awsocks.DataChannel.Channel.Receive.{Ordering, arrange}
use awsocks.DataChannel.Channel.Order.{
  seq_limit, IsOutput, IsRun, IsBuffer, Drains, drain-Drains, inc_int64-eq, lt_int64-eq,
}

-- the number k lies behind what is expected, or its message waits in the buffer
abbrev pub IsHeld : ℕ → List (ℕ × ClientMessage) → ℕ → Type 0
IsHeld expected buffer k = (k < expected) ⊎ ((m : ClientMessage) × (map_get k buffer ≡ some m))

set_cases :
    (j k : ℕ) (m n : ClientMessage) (o : Option ClientMessage)
    → (if j == k then some m else o) ≡ some n
    → ((j ≡ k) × (n ≡ m)) ⊎ (o ≡ some n)
set_cases j k m n o h = ground arith

set_held :
    (j k : ℕ) (m n : ClientMessage) (o : Option ClientMessage)
    → o ≡ some n
    → (r : ClientMessage) × ((if j == k then some m else o) ≡ some r)
set_held j k m n o h = elim (Bool-cases (j == k)) [
  | inl same ↦ (m, rw same)
  | inr other ↦ (n, rw other h)
]

self_held :
    (j : ℕ) (m : ClientMessage) (o : Option ClientMessage) → (if j == j then some m else o) ≡ some m
self_held j m o = ground arith

module _ (pay : ℕ → Bytes) where
  pub record Arranges (m : ClientMessage) (e : ℕ) (buffer : List (ℕ × ClientMessage)) (o : Ordering)
      : Type 0 where
    pub run_is : IsRun pay e o.deliver
    pub expected_is : o.expected ≡ e + length o.deliver
    pub in_range : o.expected ≤ seq_limit
    pub buffer_is : IsBuffer pay (o.expected + 1) o.buffer
    pub keeps :
        (k : ℕ) (n : ClientMessage) → map_get k buffer ≡ some n → IsHeld o.expected o.buffer k
    pub arrived : IsHeld o.expected o.buffer m.sequence_number

  in_order :
      (m : ClientMessage) (e : ℕ) (buffer : List (ℕ × ClientMessage)) (o : Ordering)
      → IsOutput pay m
      → m.sequence_number ≡ e
      → Drains pay (record { expected = e + 1; buffer = buffer; deliver = m ∷ [] }) o
      → Arranges m e buffer o
  in_order m e buffer o out at d = record {
    run_is = rw d.deliver_is ((out, at), d.run_is);
    expected_is = rw d.deliver_is (omega (arith, d.expected_is));
    in_range = d.in_range;
    buffer_is = d.buffer_is;
    keeps = λ k n h. elim (d.keeps k n h) [ inl below ↦ inl below | inr there ↦ inr (n, there) ];
    arrived = inl (omega (arith, d.expected_is));
  }

  ahead :
      (m : ClientMessage) (e : ℕ) (buffer : List (ℕ × ClientMessage))
      → e ≤ seq_limit
      → IsBuffer pay (e + 1) buffer
      → IsOutput pay m
      → e < m.sequence_number
      → Arranges m e buffer
          (record { expected = e; buffer = map_set m.sequence_number m buffer; deliver = [] })
  ahead m e buffer small b out later = record {
    run_is = tt;
    expected_is = omega arith;
    in_range = small;
    buffer_is = λ k n h.
        elim (set_cases m.sequence_number k m n (map_get k buffer)
          (rw (map_get-map_set m.sequence_number k m buffer) at h)) [
            | inl (at, is_m) ↦ rw is_m (omega arith, out, at)
            | inr there ↦ b k n there
          ];
    keeps = λ k n h. inr (
        rw (map_get-map_set m.sequence_number k m buffer)
          (set_held m.sequence_number k m n (map_get k buffer) h));
    arrived = inr (
      m,
      map_get-map_set m.sequence_number m.sequence_number m buffer
          ∙ self_held m.sequence_number m (map_get m.sequence_number buffer),
    );
  }

  stale :
      (m : ClientMessage) (e : ℕ) (buffer : List (ℕ × ClientMessage))
      → e ≤ seq_limit
      → IsBuffer pay (e + 1) buffer
      → m.sequence_number < e
      → Arranges m e buffer (record { expected = e; buffer = buffer; deliver = [] })
  stale m e buffer small b before = record {
    run_is = tt;
    expected_is = omega arith;
    in_range = small;
    buffer_is = b;
    keeps = λ k n h. inr (n, h);
    arrived = inl before;
  }

  pub arrange-Arranges :
      (m : ClientMessage) (e : ℕ) (buffer : List (ℕ × ClientMessage))
      → e ≤ seq_limit
      → IsBuffer pay (e + 1) buffer
      → IsOutput pay m
      → Arranges m e buffer (arrange m e buffer)
  unfolding arrange
  arrange-Arranges m e buffer small b out = elim (Bool-cases (m.sequence_number == e)) [
    | inl same ↦
        let at = (==_iff m.sequence_number e).0 same in
        rw (same, inc_int64-eq e (omega (arith, out.numbered, at)))
          (in_order m e buffer _ out at (
            drain-Drains pay (suc (length buffer))
              (record { expected = e + 1; buffer = buffer; deliver = m ∷ [] }) (omega arith)
              (omega (arith, out.numbered, at)) b))
    | inr other ↦
        rw (other, lt_int64-eq e m.sequence_number small (omega (arith, out.numbered)))
          (elim (Bool-cases (ltb e m.sequence_number)) [
            | inl later ↦ rw later (ahead m e buffer small b out (ltb→lt e _ later))
            | inr not_later ↦ rw not_later (stale m e buffer small b (ground arith))
          ])
  ]
