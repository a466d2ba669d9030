-- ===== src/Prelude/Words.antt =====
-- The big-endian words of `encoding/binary`, written and read at the front of a byte list.
use awsocks.Prelude.{
  ℕ, ◌+◌, ◌*◌, ◌/◌, ◌%◌, ◌^◌, ◌<◌, ◌≡◌, ap, ◌++◌, [], ◌∷◌, Option, none, some, arith, Bytes,
  IsBytes, length,
}

-- binary.BigEndian.PutUint32
unfoldable pub put_uint32 : ℕ → Bytes
put_uint32 n = n / 2 ^ 24 % 256 ∷ n / 2 ^ 16 % 256 ∷ n / 2 ^ 8 % 256 ∷ n % 256 ∷ []

-- binary.BigEndian.Uint32 of four bytes
unfoldable pub word32 : ℕ → ℕ → ℕ → ℕ → ℕ
word32 a b c d = a * 2 ^ 24 + b * 2 ^ 16 + c * 2 ^ 8 + d

-- binary.BigEndian.Uint32 of a slice: it panics on fewer than four bytes, here `none`.
unfoldable pub uint32 : Bytes → Option ℕ
uint32 (a ∷ b ∷ c ∷ d ∷ rest) = some (word32 a b c d)
uint32 _ = none

-- binary.BigEndian.PutUint64
unfoldable pub put_uint64 : ℕ → Bytes
put_uint64 n = put_uint32 (n / 2 ^ 32) ++ put_uint32 n

-- binary.BigEndian.Uint64
unfoldable pub uint64 : Bytes → Option ℕ
uint64 (a ∷ b ∷ c ∷ d ∷ e ∷ f ∷ g ∷ h ∷ rest) = some (word32 a b c d * 2 ^ 32 + word32 e f g h)
uint64 _ = none

pub uint32-put_uint32 : (n : ℕ) (rest : Bytes) → n < 2 ^ 32 → uint32 (put_uint32 n ++ rest) ≡ some n
unfolding uint32 put_uint32 word32
uint32-put_uint32 n rest h = ap some (omega arith)

pub uint64-put_uint64 : (n : ℕ) (rest : Bytes) → n < 2 ^ 64 → uint64 (put_uint64 n ++ rest) ≡ some n
unfolding uint64 put_uint64 put_uint32 word32
uint64-put_uint64 n rest h = ap some (omega arith)

pub put_uint32-word32 :
    (a b c d : ℕ)
    → a < 256
    → b < 256
    → c < 256
    → d < 256
    → put_uint32 (word32 a b c d) ≡ a ∷ b ∷ c ∷ d ∷ []
unfolding put_uint32 word32
put_uint32-word32 a b c d ha hb hc hd = ground arith

pub word32-lt : (a b c d : ℕ) → a < 256 → b < 256 → c < 256 → d < 256 → word32 a b c d < 2 ^ 32
unfolding word32
word32-lt a b c d ha hb hc hd = omega arith

pub length-put_uint32 : (n : ℕ) → length (put_uint32 n) ≡ 4
unfolding put_uint32
length-put_uint32 n = omega arith

pub length-put_uint64 : (n : ℕ) → length (put_uint64 n) ≡ 8
unfolding put_uint64 put_uint32
length-put_uint64 n = omega arith

pub IsBytes-put_uint32 : (n : ℕ) → IsBytes (put_uint32 n)
unfolding put_uint32
IsBytes-put_uint32 n = omega arith
