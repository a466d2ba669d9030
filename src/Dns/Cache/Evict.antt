-- ===== src/Dns/Cache/Evict.antt =====
-- internal/dns/cache.go: what eviction leaves of the map.
use mathlib.Core.Path.{subst}
use awsocks.Prelude.{
  sym, ℕ, ◌+◌, ◌≤◌, ◌<◌, ◌≡◌, ◌≢◌, refl, ◌⊎◌, inl, inr, Bool, true, false, ◌||◌, some, List, [],
  ◌∷◌, if◌then◌else◌, ltb, arith, length, any, All, Bytes, bytes_eq, bytes_eq_refl, Bool-cases,
}
use awsocks.Prelude.Maps.{map_get, map_set, map_delete, bytes_key, length-map_delete-le}
use awsocks.Dns.Cache.{is_blank, is_blank, Entry, is_expired, drop_expired, soonest, evict}

-- A name that is not empty.
abbrev pub IsName : Bytes → Type 0
IsName s = s ≢ []

is_blank-IsName : (k : Bytes) → IsName k → is_blank k ≡ false
is_blank-IsName [] h = absurd (h refl)
is_blank-IsName (c ∷ k) h = refl

either_way : (P : Bytes → Type 0) (b : Bool) {s t : Bytes} → P s → P t → P (if b then s else t)
either_way P true h k = h
either_way P false h k = k

module _ {Ip : Type 0} where
  -- every entry has a name
  abbrev pub IsNamed : List (Bytes × Entry Ip) → Type 0
  IsNamed = All (λ e. IsName e.0)

  abbrev present : Bytes → List (Bytes × Entry Ip) → Bool
  present k m = any (λ e. bytes_eq e.0 k) m

  pub length-map_set_old :
      (k : Bytes) (e old : Entry Ip) (m : List (Bytes × Entry Ip))
      → map_get k m ≡ some old
      → length (map_set k e m) ≡ length m
  unfolding map_get map_set
  length-map_set_old k e old [] h = cc
  length-map_set_old k e old ((j, w) ∷ m) h = ground (arith, length-map_set_old k e old m)

  pub length-map_set-le :
      (k : Bytes) (e : Entry Ip) (m : List (Bytes × Entry Ip))
      → length (map_set k e m) ≤ length m + 1
  unfolding map_set
  length-map_set-le k e [] = omega arith
  length-map_set-le k e ((j, w) ∷ m) = ground (arith, length-map_set-le k e m)

  length-map_delete-present :
      (k : Bytes) (m : List (Bytes × Entry Ip))
      → present k m ≡ true
      → length (map_delete k m) < length m
  unfolding map_delete
  length-map_delete-present k [] h = cc
  length-map_delete-present k ((j, w) ∷ m) h =
      ground (arith, length-map_delete-le k m, length-map_delete-present k m)

  length-drop_expired-le :
      (now : ℕ) (m : List (Bytes × Entry Ip)) → length (drop_expired now m) ≤ length m
  unfolding drop_expired
  length-drop_expired-le now [] = omega arith
  length-drop_expired-le now ((k, e) ∷ m) = ground (arith, length-drop_expired-le now m)

  length-drop_expired-lt :
      (now : ℕ) (m : List (Bytes × Entry Ip))
      → any (λ e. is_expired now e.1) m ≡ true
      → length (drop_expired now m) < length m
  unfolding drop_expired
  length-drop_expired-lt now [] h = cc
  length-drop_expired-lt now ((k, e) ∷ m) h =
      ground (arith, length-drop_expired-le now m, length-drop_expired-lt now m)

  present-key :
      (j k : Bytes) (e : Entry Ip) (m : List (Bytes × Entry Ip))
      → (k ≡ j) ⊎ (present k m ≡ true)
      → present k ((j, e) ∷ m) ≡ true
  present-key j k e m (inl same) = rw (same, bytes_eq_refl j)
  present-key j k e m (inr there) = ground arith

  soonest_step :
      (k j : Bytes) (e : Entry Ip) (m : List (Bytes × Entry Ip)) (at : ℕ)
      → soonest ((j, e) ∷ m) k at
        ≡ (if is_blank k || ltb e.expires_at at then soonest m j e.expires_at else soonest m k at)
  unfolding soonest
  soonest_step k j e m at = refl

  -- s is a name, and either k or one of the keys
  abbrev IsPicked : Bytes → List (Bytes × Entry Ip) → Bytes → Type 0
  IsPicked k m s = IsName s × ((s ≡ k) ⊎ (present s m ≡ true))

  soonest-IsPicked :
      (m : List (Bytes × Entry Ip)) (k : Bytes) (at : ℕ)
      → IsNamed m
      → IsName k
      → IsPicked k m (soonest m k at)
  unfolding soonest
  soonest-IsPicked [] k at named name = (name, inl refl)
  soonest-IsPicked ((j, e) ∷ m) k at (j_name, named) name =
      let (is_j, from_j) = soonest-IsPicked m j e.expires_at named j_name in
      let (is_k, from_k) = soonest-IsPicked m k at named name in
      subst (IsPicked k ((j, e) ∷ m)) (sym (soonest_step k j e m at)) (
        either_way (IsPicked k ((j, e) ∷ m)) (is_blank k || ltb e.expires_at at)
          (is_j, inr (present-key j _ e m from_j))
          (
            is_k,
            elim from_k [ inl same ↦ inl same | inr there ↦ inr (present-key j _ e m (inr there)) ],
          ))

  pub evict-shorter :
      (now : ℕ) (m : List (Bytes × Entry Ip))
      → IsNamed m
      → 0 < length m
      → length (evict now m) < length m
  unfolding evict soonest
  evict-shorter now [] named h = absurd (omega arith)
  evict-shorter now ((k, e) ∷ m) (name, named) h =
      elim (Bool-cases (any (λ e. is_expired now e.1) ((k, e) ∷ m))) [
        | inl some_expired ↦ rw some_expired (length-drop_expired-lt now ((k, e) ∷ m) some_expired)
        | inr none_expired ↦
            let (is_name, found) = soonest-IsPicked m k e.expires_at named name in
            rw (none_expired, is_blank-IsName _ is_name)
              (length-map_delete-present _ ((k, e) ∷ m) (present-key k _ e m found))
      ]

  pub IsNamed-map_set :
      (k : Bytes) (e : Entry Ip) (m : List (Bytes × Entry Ip))
      → IsName k
      → IsNamed m
      → IsNamed (map_set k e m)
  unfolding map_set
  IsNamed-map_set k e [] name h = (name, tt)
  IsNamed-map_set k e ((j, w) ∷ m) name (j_name, h) = elim (Bool-cases (bytes_eq j k)) [
    | inl same ↦ rw same (name, h)
    | inr other ↦ rw other (j_name, IsNamed-map_set k e m name h)
  ]

  pub IsNamed-map_delete :
      (k : Bytes) (m : List (Bytes × Entry Ip)) → IsNamed m → IsNamed (map_delete k m)
  unfolding map_delete
  IsNamed-map_delete k [] h = tt
  IsNamed-map_delete k ((j, w) ∷ m) (j_name, h) = elim (Bool-cases (bytes_eq j k)) [
    | inl same ↦ rw same (IsNamed-map_delete k m h)
    | inr other ↦ rw other (j_name, IsNamed-map_delete k m h)
  ]

  IsNamed-drop_expired :
      (now : ℕ) (m : List (Bytes × Entry Ip)) → IsNamed m → IsNamed (drop_expired now m)
  unfolding drop_expired
  IsNamed-drop_expired now [] h = tt
  IsNamed-drop_expired now ((j, e) ∷ m) (j_name, h) = elim (Bool-cases (is_expired now e)) [
    | inl old ↦ rw old (IsNamed-drop_expired now m h)
    | inr fresh ↦ rw fresh (j_name, IsNamed-drop_expired now m h)
  ]

  pub IsNamed-evict : (now : ℕ) (m : List (Bytes × Entry Ip)) → IsNamed m → IsNamed (evict now m)
  unfolding evict
  IsNamed-evict now m h = elim (Bool-cases (any (λ e. is_expired now e.1) m)) [
    | inl some_expired ↦ rw some_expired (IsNamed-drop_expired now m h)
    | inr none_expired ↦ elim (Bool-cases (is_blank (soonest m [] 0))) [
      | inl blank ↦ rw (none_expired, blank) h
      | inr name ↦ rw (none_expired, name) (IsNamed-map_delete _ m h)
    ]
  ]
