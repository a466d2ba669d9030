-- ===== src/Routing/Glob.antt =====
-- globMatch of internal/routing/matcher.go. The fuel bounds the depth of its calls: each call
-- drops at least one '*' of the pattern, so one more than the pattern's length is enough.
pub mod Decides
use awsocks.Prelude.{
  ℕ, zero, suc, ◌+◌, Bool, true, false, not, ◌&&◌, ◌||◌, List, [], ◌∷◌, ◌==◌, if◌then◌else◌, Bytes,
  to_lower, length,
}

-- len(s) == 0
abbrev pub is_empty : Bytes → Bool
is_empty [] = true
is_empty (c ∷ s) = false

-- for len(pattern) > 0 && pattern[0] == '*' { pattern = pattern[1:] }
unfoldable pub drop_stars : Bytes → Bytes
drop_stars [] = []
drop_stars (c ∷ p) = let rest = drop_stars p in if c == b'*' then rest else c ∷ p

-- for i := 0; i <= len(str); i++: does some suffix of the string match?
unfoldable pub any_suffix : (Bytes → Bool) → Bytes → Bool
any_suffix try [] = try []
any_suffix try (c ∷ s) = try (c ∷ s) || any_suffix try s

-- the tail of the '*' branch, on the pattern behind the asterisks
unfoldable pub after_stars : (Bytes → Bytes → Bool) → Bytes → Bytes → Bool
after_stars try [] s = true
after_stars try (c ∷ p) s = any_suffix (try (c ∷ p)) s

-- the loop of globMatch, on lowercase texts; a recursive call of globMatch lowers its own again
unfoldable pub glob_loop : ℕ → Bytes → Bytes → Bool
unfolding drop_stars any_suffix after_stars
glob_loop zero p s = false
glob_loop (suc f) [] s = is_empty s
glob_loop (suc f) (c ∷ p) [] = elim (c == b'*') [
  | true ↦ after_stars (λ q t. glob_loop f (to_lower q) (to_lower t)) (drop_stars p) []
  | false ↦ false
]
glob_loop (suc f) (c ∷ p) (x ∷ s) = elim (c == b'*') [
  | true ↦ after_stars (λ q t. glob_loop f (to_lower q) (to_lower t)) (drop_stars p) (x ∷ s)
  | false ↦ elim (not (c == b'?') && not (c == x)) [ true ↦ false | false ↦ glob_loop f p s ]
]

-- globMatch
unfoldable pub glob_match : Bytes → Bytes → Bool
unfolding glob_loop
glob_match pattern str = glob_loop (suc (length pattern)) (to_lower pattern) (to_lower str)
