-- ===== src/Dns/Cache/Bounds.antt =====
-- internal/dns/cache.go: the number of entries, over every operation of the cache.
use mathlib.Core.Path.{subst}
use awsocks.Prelude.{
  ◌∙◌, sym, ℕ, ◌≤◌, ◌<◌, ◌≡◌, refl, ◌⊎◌, inl, inr, true, false, some, List, [], ◌∷◌, if◌then◌else◌,
  ltb, leb, ◌==◌, arith, length, All, Bytes, to_lower, Option-cases, Bool-cases,
}
use awsocks.Prelude.Maps.{map_get, map_set, map_delete, bytes_key, length-map_delete-le}
use awsocks.Dns.Cache.{
  default_max_cache_entries, make_room, Cache, Entry, new_cache, get, evict, store, put,
  put_negative, delete,
}
use awsocks.Dns.Cache.Evict.{
  IsName, IsNamed, length-map_set_old, length-map_set-le, IsNamed-map_set, IsNamed-map_delete,
  IsNamed-evict, evict-shorter,
}

-- what is called on a cache, with the time of the call
pub data Operation (Ip : Type 0) : Type 0 where
  get_host : ℕ → Bytes → Operation Ip
  put_host : ℕ → Bytes → List Ip → List Ip → ℕ → Operation Ip
  put_failure : ℕ → Bytes → Operation Ip
  delete_host : Bytes → Operation Ip

positive_default : (n : ℕ) → 0 < (if n == 0 then default_max_cache_entries else n)
positive_default n = ground arith

to_lower-IsName : (host : Bytes) → IsName host → IsName (to_lower host)
to_lower-IsName [] h = absurd (h refl)
to_lower-IsName (c ∷ host) h = λ e. cc

module _ {Ip : Type 0} where
  unfoldable pub apply_operation : Operation Ip → Cache Ip → Cache Ip
  apply_operation (get_host now host) c = (get now host c).0
  apply_operation (put_host now host ipv4 ipv6 ttl) c = put now host ipv4 ipv6 ttl c
  apply_operation (put_failure now host) c = put_negative now host c
  apply_operation (delete_host host) c = delete host c

  unfoldable pub apply_operations : List (Operation Ip) → Cache Ip → Cache Ip
  unfolding apply_operation
  apply_operations [] c = c
  apply_operations (o ∷ os) c = apply_operations os (apply_operation o c)

  abbrev pub operation_host : Operation Ip → Bytes
  operation_host (get_host now host) = host
  operation_host (put_host now host ipv4 ipv6 ttl) = host
  operation_host (put_failure now host) = host
  operation_host (delete_host host) = host

  -- At most as many entries as allowed, each under a name, and room for one at least.
  pub record IsBoundedCache (c : Cache Ip) : Type 0 where
    pub few : length c.entries ≤ c.max_entries
    pub named : IsNamed c.entries
    pub room : 0 < c.max_entries

  length-evict_full :
      (now : ℕ) (c : Cache Ip)
      → IsBoundedCache c
      → leb c.max_entries (length c.entries) ≡ true
      → length (evict now c.entries) < c.max_entries
  length-evict_full now c b full =
      let low : 0 < length c.entries = ground (arith, full, b.room) in
      omega (arith, evict-shorter now c.entries b.named low, b.few)

  make_room-cases :
      (now : ℕ) (k : Bytes) (c : Cache Ip)
      → ((leb c.max_entries (length c.entries) ≡ true) × (make_room now k c ≡ evict now c.entries))
        ⊎ (((leb c.max_entries (length c.entries) ≡ false)
              ⊎ ((old : Entry Ip) × (map_get k c.entries ≡ some old)))
            × (make_room now k c ≡ c.entries))
  unfolding make_room
  make_room-cases now k c = elim (Option-cases (map_get k c.entries)) [
    | inl new ↦ elim (Bool-cases (leb c.max_entries (length c.entries))) [
      | inl full ↦ inl (full, ground (arith, new, full))
      | inr space ↦ inr (inl space, ground (arith, new, space))
    ]
    | inr (old, there) ↦ inr (inr (old, there), ground (arith, there))
  ]

  -- a map that is within the bounds
  abbrev Fits : Cache Ip → List (Bytes × Entry Ip) → Type 0
  Fits c m = IsNamed m × (length m ≤ c.max_entries)

  map_set-Fits :
      (k : Bytes) (e : Entry Ip) (c : Cache Ip)
      → IsName k
      → IsBoundedCache c
      → (leb c.max_entries (length c.entries) ≡ false)
        ⊎ ((old : Entry Ip) × (map_get k c.entries ≡ some old))
      → Fits c (map_set k e c.entries)
  map_set-Fits k e c name b (inl space) =
      (IsNamed-map_set k e _ name b.named, ground (arith, length-map_set-le k e c.entries, space))
  map_set-Fits k e c name b (inr (old, there)) = (
    IsNamed-map_set k e _ name b.named,
    omega (arith, length-map_set_old k e old c.entries there, b.few),
  )

  store_entries :
      (now : ℕ) (k : Bytes) (e : Entry Ip) (c : Cache Ip)
      → IsName k
      → IsBoundedCache c
      → Fits c (map_set k e (make_room now k c))
  store_entries now k e c name b = elim (make_room-cases now k c) [
    | inl (full, evicts) ↦
        subst (λ m. Fits c (map_set k e m)) (sym evicts)
          (
            IsNamed-map_set k e _ name (IsNamed-evict now c.entries b.named),
            omega (
              arith,
              length-map_set-le k e (evict now c.entries),
              length-evict_full now c b full,
            ),
          )
    | inr (fits, keeps) ↦
        subst (λ m. Fits c (map_set k e m)) (sym keeps) (map_set-Fits k e c name b fits)
  ]

  store-IsBoundedCache :
      (now : ℕ) (k : Bytes) (e : Entry Ip) (c : Cache Ip)
      → IsName k
      → IsBoundedCache c
      → IsBoundedCache (store now k e c)
  unfolding store
  store-IsBoundedCache now k e c name b =
      let (named, few) = store_entries now k e c name b in
      record { few = few; named = named; room = b.room }

  without-IsBoundedCache :
      (k : Bytes) (c : Cache Ip)
      → IsBoundedCache c
      → IsBoundedCache (record c { entries = map_delete k c.entries })
  without-IsBoundedCache k c b = record {
    few = omega (arith, length-map_delete-le k c.entries, b.few);
    named = IsNamed-map_delete k c.entries b.named;
    room = b.room;
  }

  get-cases :
      (now : ℕ) (host : Bytes) (c : Cache Ip)
      → ((get now host c).0 ≡ c)
        ⊎ ((get now host c).0 ≡ record c { entries = map_delete (to_lower host) c.entries })
  unfolding get
  get-cases now host c = elim (Option-cases (map_get (to_lower host) c.entries)) [
    | inl missing ↦ inl (ground (arith, missing))
    | inr (e, there) ↦ elim (Bool-cases (ltb now e.expires_at)) [
      | inl fresh ↦ inl (ground (arith, there, fresh))
      | inr stale ↦ inr (ground (arith, there, stale))
    ]
  ]

  get-IsBoundedCache :
      (now : ℕ) (host : Bytes) (c : Cache Ip) → IsBoundedCache c → IsBoundedCache (get now host c).0
  get-IsBoundedCache now host c b = elim (get-cases now host c) [
    | inl same ↦ subst IsBoundedCache (sym same) b
    | inr less ↦ subst IsBoundedCache (sym less) (without-IsBoundedCache (to_lower host) c b)
  ]

  apply_operation-IsBoundedCache :
      (o : Operation Ip) (c : Cache Ip)
      → IsName (operation_host o)
      → IsBoundedCache c
      → IsBoundedCache (apply_operation o c)
  unfolding apply_operation put put_negative delete
  apply_operation-IsBoundedCache (get_host now host) c name b = get-IsBoundedCache now host c b
  apply_operation-IsBoundedCache (put_host now host ipv4 ipv6 ttl) c name b =
      store-IsBoundedCache now (to_lower host) _ c (to_lower-IsName host name) b
  apply_operation-IsBoundedCache (put_failure now host) c name b =
      store-IsBoundedCache now (to_lower host) _ c (to_lower-IsName host name) b
  apply_operation-IsBoundedCache (delete_host host) c name b =
      without-IsBoundedCache (to_lower host) c b

  apply_operations-IsBoundedCache :
      (os : List (Operation Ip)) (c : Cache Ip)
      → All (λ o. IsName (operation_host o)) os
      → IsBoundedCache c
      → IsBoundedCache (apply_operations os c)
  unfolding apply_operations
  apply_operations-IsBoundedCache [] c names b = b
  apply_operations-IsBoundedCache (o ∷ os) c (name, names) b =
      apply_operations-IsBoundedCache os (apply_operation o c) names
        (apply_operation-IsBoundedCache o c name b)

  get-max_entries :
      (now : ℕ) (host : Bytes) (c : Cache Ip) → (get now host c).0.max_entries ≡ c.max_entries
  unfolding get
  get-max_entries now host c = ground arith

  apply_operations-max_entries :
      (os : List (Operation Ip)) (c : Cache Ip)
      → (apply_operations os c).max_entries ≡ c.max_entries
  unfolding apply_operations put put_negative store delete
  apply_operations-max_entries [] c = refl
  apply_operations-max_entries (get_host now host ∷ os) c =
      apply_operations-max_entries os _ ∙ get-max_entries now host c
  apply_operations-max_entries (put_host now host ipv4 ipv6 ttl ∷ os) c =
      apply_operations-max_entries os _
  apply_operations-max_entries (put_failure now host ∷ os) c = apply_operations-max_entries os _
  apply_operations-max_entries (delete_host host ∷ os) c = apply_operations-max_entries os _

  -- However a new cache is read, written and cleared at whatever times, under names that are not
  -- empty, it holds at most the number of entries that it was made for, or 1024 where that is 0.
  pub apply_operations-new_cache :
      (min_ttl max_ttl negative_ttl max_entries : ℕ) (os : List (Operation Ip))
      → All (λ o. IsName (operation_host o)) os
      → length (apply_operations os (new_cache min_ttl max_ttl negative_ttl max_entries)).entries
        ≤ (if max_entries == 0 then default_max_cache_entries else max_entries)
  unfolding new_cache
  apply_operations-new_cache min_ttl max_ttl negative_ttl max_entries os names =
      let c : Cache Ip = new_cache min_ttl max_ttl negative_ttl max_entries in
      let b = apply_operations-IsBoundedCache os c names (record {
        few = omega (arith, positive_default max_entries);
        named = tt;
        room = positive_default max_entries;
      }) in
      subst (λ n. length (apply_operations os c).entries ≤ n) (apply_operations-max_entries os c)
        b.few
