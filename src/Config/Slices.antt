-- ===== src/Config/Slices.antt =====
-- internal/config/merge.go: merging lists of patterns and tables of hosts.
use text.Mathlib.Text.{◌==◌}
use awsocks.Prelude.{◌≡◌, Bool, false, ◌||◌, List, [], ◌∷◌, ◌++◌, String, if◌then◌else◌}
use awsocks.Prelude.Maps.{map_set, string_eq}

-- seen[s]: the keys of the map are the strings that are in the result
unfoldable pub seen : String → List String → Bool
seen s [] = false
seen s (x ∷ xs) = x == s || seen s xs

-- the body of both loops of mergeStringSlices
unfoldable pub add_new : List String → List String → List String
unfolding seen
add_new [] result = result
add_new (s ∷ rest) result = add_new rest (if seen s result then result else result ++ s ∷ [])

-- mergeStringSlices
unfoldable pub merge_string_slices : List String → List String → List String
unfolding add_new
merge_string_slices base [] = base
merge_string_slices base (a ∷ additional) = add_new (a ∷ additional) (add_new base [])

-- the loop of mergeMaps
unfoldable pub set_all : List (String × String) → List (String × String) → List (String × String)
unfolding map_set
set_all [] m = m
set_all ((k, v) ∷ rest) m = set_all rest (map_set k v m)

-- mergeMaps: a nil base is an empty one, and a copy has the same entries
unfoldable pub merge_maps : List (String × String) → List (String × String) → List (String × String)
unfolding set_all
merge_maps base [] = base
merge_maps base (e ∷ additional) = set_all (e ∷ additional) base

-- no string stands twice
abbrev pub NoDuplicates : List String → Type 0
NoDuplicates [] = Unit
NoDuplicates (x ∷ xs) = (seen x xs ≡ false) × NoDuplicates xs
