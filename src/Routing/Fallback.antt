-- ===== src/Routing/Fallback.antt =====
-- internal/routing/fallback.go: the errors on which another route is tried.
use awsocks.Prelude.{Bool, true, false, ◌||◌, Option, none, some, Bytes, codes, contains, to_lower}

-- the syscall.Errno values that the code names
pub data Errno : Type 0 where
  ehostunreach enetunreach econnrefused : Errno
  other : Errno

-- An error: what errors.As finds as a syscall.Errno, and err.Error().
pub record Error : Type 0 where
  pub errno : Option Errno
  pub message : Bytes

unfoldable pub unreachable : Option Errno → Bool
unreachable (some ehostunreach) = true
unreachable (some enetunreach) = true
unreachable (some econnrefused) = true
unreachable _ = false

-- the text tests of IsFallbackableError
unfoldable pub says_unreachable : Bytes → Bool
says_unreachable msg =
    contains msg (codes "no route to host")
    || (contains msg (codes "network is unreachable")
        || (contains msg (codes "host is unreachable")
            || contains msg (codes "connection refused")))

-- IsFallbackableError; `none` is a nil error
unfoldable pub is_fallbackable_error : Option Error → Bool
unfolding unreachable says_unreachable
is_fallbackable_error none = false
is_fallbackable_error (some err) = unreachable err.errno || says_unreachable (to_lower err.message)
