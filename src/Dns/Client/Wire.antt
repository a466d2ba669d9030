-- ===== src/Dns/Client/Wire.antt =====
-- internal/dns/client.go: the frames around a message.
use awsocks.Prelude.{
  ℕ, ◌+◌, ◌*◌, ◌/◌, ◌%◌, ◌≤◌, ◌≡◌, some, ◌∷◌, ◌++◌, Bytes, length, arith, length-append,
  take-append,
}
use awsocks.Dns.Client.{write_msg, read_msg, max_message_size}

-- the length of a message from its two bytes
two_bytes : (n : ℕ) → n ≤ max_message_size → n / 256 % 256 * 256 + n % 256 ≡ n
two_bytes n h = omega (arith, h)

-- A message of at most 65535 bytes is written as a frame that readMsg reads back, whatever follows it.
pub read_msg-write_msg :
    (msg rest : Bytes)
    → length msg ≤ max_message_size
    → (frame : Bytes) × (write_msg msg ≡ some frame) × (read_msg (frame ++ rest) ≡ some msg)
unfolding read_msg write_msg
read_msg-write_msg msg rest h = (
  length msg / 256 % 256 ∷ length msg % 256 ∷ msg,
  ground (arith, h),
  rw (two_bytes (length msg) h) (ground (arith, length-append msg rest, take-append msg rest)),
)
