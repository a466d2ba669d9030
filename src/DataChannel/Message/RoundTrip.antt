-- ===== src/DataChannel/Message/RoundTrip.antt =====
-- What `deserialize` reads of what `serialize` wrote.
use mathlib.Core.List.{append_assoc, append-nil}
use awsocks.Prelude.{
  take-append-drop, ltb_irrefl, false, ℕ, zero, suc, ◌+◌, ◌<◌, ◌≤◌, ◌^◌, ◌≡◌, refl, ap, sym, ◌∙◌,
  [], ◌∷◌, ◌++◌, some, arith, ltb, length, take, drop, replicate, Bytes, length-append, length-drop,
  take-append, drop-append,
}
use awsocks.Prelude.Words.{
  put_uint32, put_uint64, uint32-put_uint32, uint64-put_uint64, length-put_uint32,
  length-put_uint64,
}
use awsocks.DataChannel.Message.{
  ClientMessage, type_length, payload_offset, hl_length, copy_at, type_field, swap_uuid, serialize,
  trim_right, uint32_at, uint64_at, slice, ok, deserialize_body, deserialize,
}
use awsocks.DataChannel.Message.Fields.{
  IsWire, fields, length-fields, serialize-fields, length-copy_at, drop-copy_at, copy_at-zero,
  length-swap_uuid, type_field-length, copy_nothing,
}

drop_nil : (n : ℕ) → drop {A = ℕ} n [] ≡ []
drop_nil zero = refl
drop_nil (suc n) = refl

drop_sum : (n k j : ℕ) (d : Bytes) → n + k ≡ j → drop j d ≡ drop k (drop n d)
drop_sum zero k j d e = let e' : j ≡ k = omega arith in rw e'
drop_sum (suc n) k zero d e = absurd (omega arith)
drop_sum (suc n) k (suc j) [] e = sym (drop_nil k)
drop_sum (suc n) k (suc j) (x ∷ d) e = drop_sum n k j d (omega arith)

-- the next field begins where the last one ends
next_field : (n k : ℕ) (d a b : Bytes) → drop n d ≡ a ++ b → length a ≡ k → drop (n + k) d ≡ b
next_field n k d a b e len = drop_sum n k (n + k) d refl ∙ rw (e, ← len) (drop-append a b)

uint32_at-field :
    (off n : ℕ) (d rest : Bytes)
    → drop off d ≡ put_uint32 n ++ rest
    → n < 2 ^ 32
    → uint32_at off d ≡ n
unfolding uint32_at
uint32_at-field off n d rest e h = rw (e, uint32_at) (rw (uint32-put_uint32 n rest h))

uint64_at-field :
    (off n : ℕ) (d rest : Bytes)
    → drop off d ≡ put_uint64 n ++ rest
    → n < 2 ^ 64
    → uint64_at off d ≡ n
unfolding uint64_at
uint64_at-field off n d rest e h = rw (e, uint64_at) (rw (uint64-put_uint64 n rest h))

slice-field :
    (off len : ℕ) (d a rest : Bytes) → drop off d ≡ a ++ rest → length a ≡ len → slice off len d ≡ a
slice-field off len d a rest e h = rw (e, ← h) (take-append a rest)

trim_spaces : (k : ℕ) → trim_right (replicate k b' ') ≡ []
unfolding trim_right
trim_spaces zero = refl
trim_spaces (suc k) = rw (trim_spaces k)

trim-append_spaces : (s : Bytes) (k : ℕ) → trim_right (s ++ replicate k b' ') ≡ trim_right s
unfolding trim_right
trim-append_spaces [] k = trim_spaces k
trim-append_spaces (c ∷ s) k = rw (trim-append_spaces s k)

copy_padding :
    (c : ℕ) (s : Bytes) (k : ℕ)
    → length s ≤ k
    → (j : ℕ) × (copy_at 0 s (replicate k c) ≡ s ++ replicate j c)
unfolding copy_at
copy_padding c [] k h = (k, copy_nothing (replicate k c))
copy_padding c (x ∷ s) zero h = absurd (omega arith)
copy_padding c (x ∷ s) (suc k) h =
    let (j, e) = copy_padding c s k (omega arith) in (j, ap (◌∷◌ x) e)

trim-type_field : (s : Bytes) → length s ≤ type_length → trim_right (type_field s) ≡ trim_right s
unfolding type_field
trim-type_field s h =
    let (j, e) = copy_padding b' ' s type_length h in rw e (trim-append_spaces s j)

swap_uuid-end : (u : Bytes) → length u ≡ 16 → drop 8 (swap_uuid u) ≡ take 8 u
unfolding swap_uuid
swap_uuid-end u h =
    let n : length (drop 8 u) ≡ 8 = omega (arith, length-drop 8 u) in
    rw n at (drop-append (drop 8 u) (take 8 u))

-- the fields, read off one behind the other
fields-right :
    (m : ClientMessage)
    → fields m
      ≡ put_uint32 m.header_length
        ++ (type_field m.message_type
            ++ (put_uint32 m.schema_version
                ++ (put_uint64 m.created_date
                    ++ (put_uint64 m.sequence_number
                        ++ (put_uint64 m.flags
                            ++ (swap_uuid m.message_id
                                ++ (m.payload_digest
                                    ++ (put_uint32 m.payload_type
                                        ++ (put_uint32 m.payload_length ++ m.payload)))))))))
unfolding fields
fields-right m = simp append_assoc

swap_uuid-front : (u : Bytes) → length u ≡ 16 → take 8 (swap_uuid u) ≡ drop 8 u
unfolding swap_uuid
swap_uuid-front u h =
    let n : length (drop 8 u) ≡ 8 = omega (arith, length-drop 8 u) in
    rw n at (take-append (drop 8 u) (take 8 u))

overwrite :
    (src v b : Bytes)
    → length src ≡ 8
    → 8 ≤ length v
    → copy_at 0 src (v ++ b) ≡ (src ++ drop 8 v) ++ b
overwrite src v b e h =
    copy_at-zero src v b (omega arith)
    ∙ ap (λ n. src ++ (drop n v ++ b)) e
    ∙ sym (append_assoc src (drop 8 v) b)

-- the message that is read: the digest has lost its first eight bytes to the message ID
abbrev pub damaged : ClientMessage → ClientMessage
damaged m = record m { payload_digest = drop 8 m.message_id ++ drop 8 m.payload_digest }

deserialize_body-fields :
    (m : ClientMessage)
    → IsWire m
    → (after : Bytes) × (deserialize_body (fields m) ≡ ok (damaged m) after)
unfolding deserialize_body
deserialize_body-fields m w =
    let d = fields m in
    let e0 = fields-right m in
    let e4 = next_field 0 4 d _ _ e0 (length-put_uint32 m.header_length) in
    let e36 = next_field 4 32 d _ _ e4 (type_field-length m.message_type) in
    let e40 = next_field 36 4 d _ _ e36 (length-put_uint32 m.schema_version) in
    let e48 = next_field 40 8 d _ _ e40 (length-put_uint64 m.created_date) in
    let e56 = next_field 48 8 d _ _ e48 (length-put_uint64 m.sequence_number) in
    let e64 = next_field 56 8 d _ _ e56 (length-put_uint64 m.flags) in
    let e80 = next_field 64 16 d _ _ e64 (length-swap_uuid m.message_id w.id_length) in
    let uuid : slice 64 16 d ≡ swap_uuid m.message_id =
      slice-field 64 16 d _ _ e64 (length-swap_uuid m.message_id w.id_length) in
    let first = swap_uuid-front m.message_id w.id_length in
    let half : length (drop 8 m.message_id) ≡ 8 =
      omega (arith, length-drop 8 m.message_id, w.id_length) in
    let a = copy_at 80 (drop 8 m.message_id) d in
    let digest = drop 8 m.message_id ++ drop 8 m.payload_digest in
    let len : length digest ≡ 32 = omega (
      arith,
      length-append (drop 8 m.message_id) (drop 8 m.payload_digest),
      length-drop 8 m.payload_digest,
      w.digest_length,
    ) in
    let a80 =
      drop-copy_at 80 (drop 8 m.message_id) d
      ∙ ap (copy_at 0 (drop 8 m.message_id)) e80
      ∙ overwrite (drop 8 m.message_id) m.payload_digest _ half (omega (arith, w.digest_length)) in
    let a112 = next_field 80 32 a digest _ a80 len in
    let a116 = next_field 112 4 a _ _ a112 (length-put_uint32 m.payload_type) in
    let a120 = next_field 116 4 a _ _ a116 (length-put_uint32 m.payload_length) in
    let size : length a ≡ 120 + m.payload_length =
      length-copy_at 80 (drop 8 m.message_id) d ∙ length-fields m w in
    let header = uint32_at-field 0 m.header_length d _ e0 (omega (arith, w.header)) in
    let start : m.header_length + hl_length ≡ 120 = omega (arith, w.header) in
    let body : slice 120 m.payload_length a ≡ m.payload =
      slice-field 120 m.payload_length a m.payload [] (a120 ∙ sym (append-nil m.payload))
        w.length_is in
    let kind =
      ap trim_right (slice-field 4 32 d _ _ e4 (type_field-length m.message_type))
      ∙ trim-type_field m.message_type w.type_fits
      ∙ w.type_trimmed in
    let fits : ltb (120 + m.payload_length) (120 + m.payload_length) ≡ false =
      ltb_irrefl (120 + m.payload_length) in
    (
      copy_at 80 (take 8 (slice 64 16 d)) d,
      rw
          (
            uuid,
            first,
            header,
            uint32_at-field 116 m.payload_length a _ a116 w.length_word,
            size,
            start,
            fits,
            kind,
            uint32_at-field 36 m.schema_version d _ e36 w.schema,
            uint64_at-field 40 m.created_date d _ e40 w.created,
            uint64_at-field 48 m.sequence_number d _ e48 w.sequence,
            uint64_at-field 56 m.flags d _ e56 w.flag_bits,
            slice-field 80 32 a digest _ a80 len,
            uint32_at-field 112 m.payload_type a _ a112 w.type_word,
            body,
          )
          (rw (swap_uuid-end m.message_id w.id_length, take-append-drop 8 m.message_id)),
    )

ltb_payload : (n : ℕ) → ltb (120 + n) payload_offset ≡ false
ltb_payload n = ground arith

-- A message that satisfies the sizes of the protocol is serialized without a panic, and the bytes
-- are deserialized without an error to the same message in every field but one: the first eight
-- bytes of the payload digest are overwritten by the last eight bytes of the message ID.
pub deserialize-serialize :
    (m : ClientMessage)
    → IsWire m
    → (bytes after : Bytes) × (serialize m ≡ some bytes)
      × (deserialize bytes ≡ ok (damaged m) after)
unfolding deserialize
deserialize-serialize m w =
    let (after, e) = deserialize_body-fields m w in
    let long : ltb (length (fields m)) payload_offset ≡ false =
      let n = length-fields m w in rw n (ltb_payload m.payload_length) in
    (fields m, after, serialize-fields m w, rw long e)
