-- ===== src/DataChannel/Channel/Acknowledged.antt =====
-- What an acknowledgement takes from the pending messages and from the outgoing buffer.
use mathlib.Core.Path.{subst}
use awsocks.Prelude.{
  sym, ℕ, ◌≡◌, refl, ap, ◌∙◌, ◌⊎◌, inl, inr, true, false, Option, none, some, List, [], ◌∷◌, ◌++◌,
  if◌then◌else◌, arith, All, Bool-cases, Bytes, bytes_eq,
}
use awsocks.Prelude.Maps.{map_get, map_delete, bytes_key, map_get-map_delete}
use awsocks.DataChannel.Message.{ClientMessage}
use awsocks.DataChannel.Channel.{
  Platform, DataChannel, StreamingMessage, calculate_retransmission_timeout,
}
use awsocks.DataChannel.Channel.Send.{take_acknowledged, note_round_trip, process_acknowledge}

-- no message with this ID
abbrev pub IsOther : Bytes → List StreamingMessage → Type 0
IsOther id = All (λ m. bytes_eq m.message_id id ≡ false)

-- The second list is the first without its first message with this ID, if there is one.
abbrev pub IsAcknowledged : Bytes → List StreamingMessage → List StreamingMessage → Type 0
IsAcknowledged id before after =
    (IsOther id before × (after ≡ before))
    ⊎ ((front : List StreamingMessage) × (m : StreamingMessage) × (back : List StreamingMessage)
        × (before ≡ front ++ m ∷ back)
        × (after ≡ front ++ back)
        × IsOther id front
        × (bytes_eq m.message_id id ≡ true))

take_acknowledged-IsAcknowledged :
    (id : Bytes) (buffer : List StreamingMessage)
    → IsAcknowledged id buffer (take_acknowledged id buffer).1
unfolding take_acknowledged
take_acknowledged-IsAcknowledged id [] = inl (tt, refl)
take_acknowledged-IsAcknowledged id (m ∷ rest) = elim (Bool-cases (bytes_eq m.message_id id)) [
  | inl same ↦ rw same (inr ([], m, rest, refl, refl, tt, same))
  | inr other ↦ rw other (elim (take_acknowledged-IsAcknowledged id rest) [
    | inl (others, kept) ↦ inl ((refl, others), ap (◌∷◌ m) kept)
    | inr (front, n, back, before, after, others, same) ↦
        inr (m ∷ front, n, back, ap (◌∷◌ m) before, ap (◌∷◌ m) after, (other, others), same)
  ])
]

module _ (p : Platform) where
  note_round_trip_keeps :
      (now : ℕ) (found : Option StreamingMessage) (d : DataChannel p)
      → ((note_round_trip p now found d).outgoing_buffer ≡ d.outgoing_buffer)
        × ((note_round_trip p now found d).pending_messages ≡ d.pending_messages)
  unfolding note_round_trip calculate_retransmission_timeout
  note_round_trip_keeps now none d = (refl, refl)
  note_round_trip_keeps now (some m) d = (ground arith, ground arith)

  -- the channel before the round trip is noted
  abbrev without : Bytes → DataChannel p → DataChannel p
  without id d = record d {
    pending_messages = map_delete id d.pending_messages;
    outgoing_buffer = (take_acknowledged id d.outgoing_buffer).1;
  }

  process_acknowledge_readable :
      (now : ℕ) (msg : ClientMessage) (d : DataChannel p) (id : Bytes)
      → p.unmarshal_ack msg.payload ≡ some id
      → process_acknowledge p now msg d
        ≡ (note_round_trip p now (take_acknowledged id d.outgoing_buffer).0 (without id d), none)
  unfolding process_acknowledge
  process_acknowledge_readable now msg d id h = rw (h, process_acknowledge) refl

  -- A readable acknowledgement succeeds. It deletes the pending message with the acknowledged ID and
  -- no other, and takes the first message with that ID out of the outgoing buffer, where there is
  -- one, leaving the others in their order.
  pub process_acknowledge-IsAcknowledged :
      (now : ℕ) (msg : ClientMessage) (d : DataChannel p) (id other : Bytes)
      → p.unmarshal_ack msg.payload ≡ some id
      → IsAcknowledged id d.outgoing_buffer (process_acknowledge p now msg d).0.outgoing_buffer
        × (map_get other (process_acknowledge p now msg d).0.pending_messages
            ≡ (if bytes_eq id other then none else map_get other d.pending_messages))
        × ((process_acknowledge p now msg d).1 ≡ none)
  process_acknowledge-IsAcknowledged now msg d id other h =
      let (found, after) = take_acknowledged id d.outgoing_buffer in
      let eq = process_acknowledge_readable now msg d id h in
      let (buffer, pending) = note_round_trip_keeps now found (without id d) in
      (
        subst (IsAcknowledged id d.outgoing_buffer)
            (sym (ap (λ o. o.0.outgoing_buffer) eq ∙ buffer))
            (take_acknowledged-IsAcknowledged id d.outgoing_buffer),
        ap (λ m. map_get other m) (ap (λ o. o.0.pending_messages) eq ∙ pending)
            ∙ map_get-map_delete id other d.pending_messages,
        ap (λ o. o.1) eq,
      )
