-- ===== src/Prelude/Maps.antt =====
-- A Go map as the list of its entries, over any type of keys with a Boolean equality.
use text.Mathlib.Text.{◌==◌ as str_eq}
use text.Mathlib.TextEquality.{eq_iff}
use awsocks.Prelude.{
  ℕ, ◌≤◌, ◌<◌, ◌≡◌, ◌↔◌, refl, Bool, true, Option, none, some, List, [], ◌∷◌, String, arith,
  if◌then◌else◌, ◌==◌, ==_iff, Bytes, bytes_eq, bytes_eq_iff, length, ◌≢◌, ◌⊎◌, inl, inr,
  Bool-cases,
}

pub record Eq {ℓ} (A : Type ℓ) : Type ℓ where
  pub beq : A → A → Bool
  pub beq_iff : (a b : A) → (beq a b ≡ true) ↔ (a ≡ b)

instance abbrev pub nat_eq : Eq ℕ
nat_eq = record { beq = ◌==◌; beq_iff = ==_iff }

instance abbrev pub bytes_key : Eq Bytes
bytes_key = record { beq = bytes_eq; beq_iff = bytes_eq_iff }

instance abbrev pub string_eq : Eq String
string_eq = record { beq = str_eq; beq_iff = eq_iff }

module _ {ℓ} {K : Type 0} {V : Type ℓ} ⦃e : Eq K⦄ where
  -- m[key] = value
  unfoldable pub map_set : K → V → List (K × V) → List (K × V)
  map_set k v [] = (k, v) ∷ []
  map_set k v ((j, w) ∷ m) = if e.beq j k then (k, v) ∷ m else (j, w) ∷ map_set k v m

  -- m[key], with its second result
  unfoldable pub map_get : K → List (K × V) → Option V
  map_get k [] = none
  map_get k ((j, w) ∷ m) = if e.beq j k then some w else map_get k m

  -- delete(m, key)
  unfoldable pub map_delete : K → List (K × V) → List (K × V)
  map_delete k [] = []
  map_delete k ((j, w) ∷ m) = let rest = map_delete k m in if e.beq j k then rest else (j, w) ∷ rest

  pub map_get-map_set :
      (k j : K) (v : V) (m : List (K × V))
      → map_get j (map_set k v m) ≡ (if e.beq k j then some v else map_get j m)
  unfolding map_get map_set
  map_get-map_set k j v [] = refl
  map_get-map_set k j v ((i, w) ∷ m) =
      ground (arith, e.beq_iff k j, e.beq_iff i k, e.beq_iff i j, map_get-map_set k j v m)

  pub map_get-map_delete :
      (k j : K) (m : List (K × V))
      → map_get j (map_delete k m) ≡ (if e.beq k j then none else map_get j m)
  unfolding map_get map_delete
  map_get-map_delete k j [] = ground arith
  map_get-map_delete k j ((i, w) ∷ m) =
      ground (arith, e.beq_iff k j, e.beq_iff i k, e.beq_iff i j, map_get-map_delete k j m)

  pub length-map_delete-le : (k : K) (m : List (K × V)) → length (map_delete k m) ≤ length m
  unfolding map_delete
  length-map_delete-le k [] = omega arith
  length-map_delete-le k ((j, w) ∷ m) = ground (arith, length-map_delete-le k m)

  pub length-map_delete-lt :
      (k : K) (m : List (K × V)) (v : V) → map_get k m ≡ some v → length (map_delete k m) < length m
  unfolding map_delete map_get
  length-map_delete-lt k [] v h = cc
  length-map_delete-lt k ((j, w) ∷ m) v h =
      ground (arith, length-map_delete-le k m, length-map_delete-lt k m v)

  -- an entry of a map behind an assignment: the new one, or an old one under another key
  pub map_set-cases :
      (k j : K) (v w : V) (m : List (K × V))
      → map_get j (map_set k v m) ≡ some w
      → ((k ≡ j) × (w ≡ v)) ⊎ ((k ≢ j) × (map_get j m ≡ some w))
  map_set-cases k j v w m h = elim (Bool-cases (e.beq k j)) [
    | inl same ↦ inl ((e.beq_iff k j).0 same, ground (arith, h, same, map_get-map_set k j v m))
    | inr other ↦ inr (
      (λ eq. ground (arith, other, (e.beq_iff k j).1 eq)),
      ground (arith, h, other, map_get-map_set k j v m),
    )
  ]

  -- an entry of a map behind a deletion
  pub map_delete-cases :
      (k j : K) (w : V) (m : List (K × V))
      → map_get j (map_delete k m) ≡ some w
      → (k ≢ j) × (map_get j m ≡ some w)
  map_delete-cases k j w m h = elim (Bool-cases (e.beq k j)) [
    | inl same ↦ absurd (ground (arith, h, same, map_get-map_delete k j m))
    | inr other ↦ (
      (λ eq. ground (arith, other, (e.beq_iff k j).1 eq)),
      ground (arith, h, other, map_get-map_delete k j m),
    )
  ]
