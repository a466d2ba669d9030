-- ===== src/Protocol/RoundTrip.antt =====
-- Encoding against reading.
use native.Mathlib.Nat.{mod-eq_of_lt}
use awsocks.Prelude.{
  ℕ, ◌/◌, ◌%◌, ◌^◌, ◌<◌, ◌≤◌, ◌≡◌, ap, sym, [], ◌∷◌, ◌++◌, arith, ltb, length, take, drop, Bytes,
  IsBytes, length-append, take-append, drop-append, take-append-drop, length-take, All-take,
  if◌then◌else◌,
}
use awsocks.Prelude.Words.{put_uint32, word32, put_uint32-word32, word32-lt}
use awsocks.Protocol.{
  Message, IsMessage, encode, payload_too_large, ok, err, max_payload, read_payload, read_message,
}

-- reading what `put_uint32` wrote
word32-put_uint32 :
    (n : ℕ)
    → n < 2 ^ 32
    → word32 (n / 2 ^ 24 % 256) (n / 2 ^ 16 % 256) (n / 2 ^ 8 % 256) (n % 256) ≡ n
unfolding word32
word32-put_uint32 n h = omega arith

-- The reader takes an encoded header apart into its three fields.
pub read_message-encode_header :
    (m : Message) (rest : Bytes)
    → m.conn_id < 2 ^ 32
    → read_message (encode m ++ rest)
      ≡ read_payload m.type m.conn_id (length m.payload % 2 ^ 32) (m.payload ++ rest)
unfolding encode read_message put_uint32
read_message-encode_header m rest h =
    rw (word32-put_uint32 m.conn_id h, word32-put_uint32 (length m.payload % 2 ^ 32) (omega arith))

pub read_payload-append :
    (t c : ℕ) (p rest : Bytes)
    → length p ≤ max_payload
    → read_payload t c (length p) (p ++ rest)
      ≡ ok (record { type = t; conn_id = c; payload = p }) rest
unfolding read_payload
read_payload-append t c p rest h =
    ground (arith, length-append p rest, take-append p rest, drop-append p rest)

-- Reading an encoded message, with anything behind it, gives back the message and leaves what is
-- behind it, when the payload has at most 10 MB; a longer payload (below 4 GB) is encoded all the
-- same, and the reader refuses it by its length.
pub read_message-encode :
    (m : Message) (rest : Bytes)
    → m.conn_id < 2 ^ 32
    → length m.payload < 2 ^ 32
    → read_message (encode m ++ rest) ≡ (
        if ltb max_payload (length m.payload)
        then err (payload_too_large (length m.payload))
        else ok m rest)
unfolding read_payload
read_message-encode m rest hc hp =
    rw (read_message-encode_header m rest hc, mod-eq_of_lt hp)
      (ground (
        arith,
        length-append m.payload rest,
        take-append m.payload rest,
        drop-append m.payload rest,
      ))

-- a payload that is read is a prefix of the input, of the length announced
read_payload-ok :
    (t c n : ℕ) (r : Bytes) {m : Message} {rest : Bytes}
    → read_payload t c n r ≡ ok m rest
    → (n ≤ max_payload)
      × (n ≤ length r)
      × (m ≡ record { type = t; conn_id = c; payload = take n r })
      × (rest ≡ drop n r)
unfolding read_payload
read_payload-ok t c n r h = ground arith

header_bytes :
    (t a b c d e f g h : ℕ) (r : Bytes)
    → IsBytes (t ∷ a ∷ b ∷ c ∷ d ∷ e ∷ f ∷ g ∷ h ∷ r)
    → (t < 256)
      × (a < 256)
      × (b < 256)
      × (c < 256)
      × (d < 256)
      × (e < 256)
      × (f < 256)
      × (g < 256)
      × (h < 256)
      × IsBytes r
header_bytes t a b c d e f g h r (vt, (va, (vb, (vc, (vd, (ve, (vf, (vg, (vh, vr))))))))) =
    (vt, va, vb, vc, vd, ve, vf, vg, vh, vr)

-- Whatever bytes the reader holds: if a message is read, those bytes are the encoding of that
-- message followed by what is left, the message is well formed and its payload has at most 10 MB.
pub encode-read_message :
    (bs : Bytes) {m : Message} {rest : Bytes}
    → IsBytes bs
    → read_message bs ≡ ok m rest
    → (bs ≡ encode m ++ rest) × IsMessage m × (length m.payload ≤ max_payload)
unfolding read_message encode
encode-read_message [] v q = cc
encode-read_message (t ∷ a ∷ b ∷ c ∷ d ∷ e ∷ f ∷ g ∷ h ∷ r) v q =
    let (small, fits, is_m, is_rest) = read_payload-ok t _ _ r q in
    let (vt, va, vb, vc, vd, ve, vf, vg, vh, vr) = header_bytes t a b c d e f g h r v in
    let n = word32 e f g h in
    let same : length (take n r) ≡ n = omega (arith, length-take n r) in
    let word : n % 2 ^ 32 ≡ n = mod-eq_of_lt (word32-lt e f g h ve vf vg vh) in
    rw (is_m, is_rest, same, word, put_uint32-word32 a b c d va vb vc vd)
      (rw (put_uint32-word32 e f g h ve vf vg vh) (
        ap (λ x. t ∷ a ∷ b ∷ c ∷ d ∷ e ∷ f ∷ g ∷ h ∷ x) (sym (take-append-drop n r)),
        record {
          type_byte = vt;
          conn_id_word = word32-lt a b c d va vb vc vd;
          payload_bytes = All-take _ n r vr;
        },
        small,
      ))
encode-read_message _ v q = cc
