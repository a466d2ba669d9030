-- ===== src/DataChannel/Message/Fields.antt =====
-- Where the writes of `serialize` put the fields.
use mathlib.Core.List.{append_assoc, append-nil}
use awsocks.Prelude.{
  false, ℕ, zero, suc, ◌+◌, ◌-◌, ◌<◌, ◌≤◌, ◌^◌, ◌≡◌, refl, ap, sym, ◌∙◌, [], ◌∷◌, ◌++◌, some, arith,
  ltb, length, take, drop, replicate, Bytes, length-append, length-take, length-drop,
  length-replicate,
}
use awsocks.Prelude.Words.{put_uint32, put_uint64, length-put_uint32, length-put_uint64}
use awsocks.DataChannel.Message.{
  ClientMessage, header_length_value, type_length, payload_offset, hl_length, copy_at, type_field,
  swap_uuid, serialize, serialize_buffer, trim_right, serialize_buffer,
}

pub length-copy_at : (n : ℕ) (src buf : Bytes) → length (copy_at n src buf) ≡ length buf
unfolding copy_at
length-copy_at zero src [] = refl
length-copy_at zero [] (b ∷ buf) = refl
length-copy_at zero (x ∷ src) (b ∷ buf) = ap suc (length-copy_at zero src buf)
length-copy_at (suc n) src [] = refl
length-copy_at (suc n) src (b ∷ buf) = ap suc (length-copy_at n src buf)

pub drop-copy_at :
    (n : ℕ) (src buf : Bytes) → drop n (copy_at n src buf) ≡ copy_at 0 src (drop n buf)
unfolding copy_at
drop-copy_at zero src buf = refl
drop-copy_at (suc n) src [] = refl
drop-copy_at (suc n) src (b ∷ buf) = drop-copy_at n src buf

pub copy_at-zero :
    (src a b : Bytes)
    → length src ≤ length a
    → copy_at 0 src (a ++ b) ≡ src ++ (drop (length src) a ++ b)
unfolding copy_at
copy_at-zero [] [] [] h = refl
copy_at-zero [] [] (c ∷ b) h = refl
copy_at-zero [] (x ∷ a) b h = refl
copy_at-zero (y ∷ src) [] b h = absurd (omega arith)
copy_at-zero (y ∷ src) (x ∷ a) b h = ap (◌∷◌ y) (copy_at-zero src a b (omega arith))

-- A buffer whose first `n` bytes are written and whose last `k` are still zero.
record Written (n k : ℕ) (front buf : Bytes) : Type 0 where
  at : buf ≡ front ++ replicate k 0
  len : length front ≡ n

pub copy_nothing : (b : Bytes) → copy_at 0 [] b ≡ b
unfolding copy_at
copy_nothing [] = refl
copy_nothing (x ∷ b) = refl

copy_zeros :
    (src : Bytes) (k j : ℕ)
    → length src + j ≡ k
    → copy_at 0 src (replicate k 0) ≡ src ++ replicate j 0
unfolding copy_at
copy_zeros [] k j h = let e : k ≡ j = omega arith in rw (copy_nothing, e)
copy_zeros (x ∷ src) zero j h = absurd (omega arith)
copy_zeros (x ∷ src) (suc k) j h = ap (◌∷◌ x) (copy_zeros src k j (omega arith))

copy_at-append :
    (front src b : Bytes) → copy_at (length front) src (front ++ b) ≡ front ++ copy_at 0 src b
unfolding copy_at
copy_at-append [] src b = refl
copy_at-append (x ∷ front) src b = ap (◌∷◌ x) (copy_at-append front src b)

write_next :
    (a : ℕ) {n k : ℕ} {front buf : Bytes} (src : Bytes)
    → length src ≡ a
    → a ≤ k
    → Written n k front buf
    → Written (n + a) (k - a) (front ++ src) (copy_at n src buf)
write_next a {n} {k} {front} src e fits w = record {
  at =
      rw (w.at, ← w.len, copy_at-append, copy_zeros src k (k - a) (omega arith))
        (sym (append_assoc front src _));
  len = omega (arith, length-append front src, w.len);
}

pub type_field-length : (s : Bytes) → length (type_field s) ≡ 32
unfolding type_field
type_field-length s =
    length-copy_at 0 s (replicate type_length b' ') ∙ length-replicate {A = ℕ} type_length b' '

-- What the agent's protocol and this package put into a message.
pub record IsWire (m : ClientMessage) : Type 0 where
  pub header : m.header_length ≡ header_length_value
  pub type_fits : length m.message_type ≤ type_length
  pub type_trimmed : trim_right m.message_type ≡ m.message_type
  pub schema : m.schema_version < 2 ^ 32
  pub created : m.created_date < 2 ^ 64
  pub sequence : m.sequence_number < 2 ^ 64
  pub flag_bits : m.flags < 2 ^ 64
  pub id_length : length m.message_id ≡ 16
  pub digest_length : length m.payload_digest ≡ 32
  pub type_word : m.payload_type < 2 ^ 32
  pub length_word : m.payload_length < 2 ^ 32
  pub length_is : length m.payload ≡ m.payload_length

-- the fields in their order
unfoldable pub fields : ClientMessage → Bytes
unfolding type_field swap_uuid
fields m =
    (((((((((([] ++ put_uint32 m.header_length) ++ type_field m.message_type)
                    ++ put_uint32 m.schema_version)
                  ++ put_uint64 m.created_date)
                ++ put_uint64 m.sequence_number)
              ++ put_uint64 m.flags)
            ++ swap_uuid m.message_id)
          ++ m.payload_digest)
        ++ put_uint32 m.payload_type)
      ++ put_uint32 m.payload_length)
    ++ m.payload

pub length-swap_uuid : (u : Bytes) → length u ≡ 16 → length (swap_uuid u) ≡ 16
unfolding swap_uuid
length-swap_uuid u h =
    omega (arith, length-append (drop 8 u) (take 8 u), length-drop 8 u, length-take 8 u)

-- the writes put the fields behind one another and fill the buffer
serialize_buffer-Written :
    (m : ClientMessage)
    → IsWire m
    → Written (120 + m.payload_length) 0 (fields m) (serialize_buffer m)
unfolding serialize_buffer fields
serialize_buffer-Written m w =
    let t = hl_length + m.header_length + m.payload_length in
    let big : 120 ≤ t = omega (arith, w.header) in
    let w0 : Written 0 t [] (replicate t 0) = record { at = refl; len = refl } in
    let w1 = write_next 4 (put_uint32 m.header_length) (length-put_uint32 _) (omega arith) w0 in
    let w2 = write_next 32 (type_field m.message_type) (type_field-length _) (omega arith) w1 in
    let w3 = write_next 4 (put_uint32 m.schema_version) (length-put_uint32 _) (omega arith) w2 in
    let w4 = write_next 8 (put_uint64 m.created_date) (length-put_uint64 _) (omega arith) w3 in
    let w5 = write_next 8 (put_uint64 m.sequence_number) (length-put_uint64 _) (omega arith) w4 in
    let w6 = write_next 8 (put_uint64 m.flags) (length-put_uint64 _) (omega arith) w5 in
    let w7 =
      write_next 16 (swap_uuid m.message_id) (length-swap_uuid _ w.id_length) (omega arith) w6 in
    let w8 = write_next 32 m.payload_digest w.digest_length (omega arith) w7 in
    let w9 = write_next 4 (put_uint32 m.payload_type) (length-put_uint32 _) (omega arith) w8 in
    let w10 = write_next 4 (put_uint32 m.payload_length) (length-put_uint32 _) (omega arith) w9 in
    let w11 = write_next m.payload_length m.payload w.length_is (omega (arith, w.header)) w10 in
    let rest : t - 4 - 32 - 4 - 8 - 8 - 8 - 16 - 32 - 4 - 4 - m.payload_length ≡ 0 =
      omega (arith, w.header) in
    rw rest at w11

pub serialize-fields : (m : ClientMessage) → IsWire m → serialize m ≡ some (fields m)
unfolding serialize
serialize-fields m w =
    let written = serialize_buffer-Written m w in
    let wide : ltb (hl_length + m.header_length + m.payload_length) payload_offset ≡ false =
      ground (arith, w.header) in
    rw wide (ap some (written.at ∙ append-nil (fields m)))

pub length-fields : (m : ClientMessage) → IsWire m → length (fields m) ≡ 120 + m.payload_length
length-fields m w = (serialize_buffer-Written m w).len
