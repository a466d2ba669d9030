-- ===== src/Dns/Cache.antt =====
-- internal/dns/cache.go: the cache of one rule. A time is a number of nanoseconds; the durations are
-- those of a checked rule, so none is negative. `now` is what the clock says during an operation.
pub mod Evict
pub mod Bounds
pub mod Expiry
use awsocks.Prelude.{
  ℕ, ◌+◌, Bool, true, false, ◌&&◌, ◌||◌, Option, none, some, List, [], ◌∷◌, if◌then◌else◌, ltb, leb,
  ◌==◌, length, any, Bytes, to_lower,
}
use awsocks.Prelude.Maps.{map_set, map_get, map_delete, bytes_key}

-- defaultMaxCacheEntries
abbrev pub default_max_cache_entries : ℕ
default_max_cache_entries = 1024

-- type entry
pub record Entry (Ip : Type 0) : Type 0 where
  pub ipv4 : List Ip
  pub ipv6 : List Ip
  pub expires_at : ℕ
  pub negative : Bool

-- type Cache
pub record Cache (Ip : Type 0) : Type 0 where
  pub entries : List (Bytes × Entry Ip)
  pub min_ttl : ℕ
  pub max_ttl : ℕ
  pub negative_ttl : ℕ
  pub max_entries : ℕ

abbrev pub is_blank : Bytes → Bool
is_blank [] = true
is_blank (c ∷ s) = false

module _ {Ip : Type 0} where
  -- NewCache
  unfoldable pub new_cache : ℕ → ℕ → ℕ → ℕ → Cache Ip
  new_cache min_ttl max_ttl negative_ttl max_entries = record {
    entries = [];
    min_ttl = min_ttl;
    max_ttl = max_ttl;
    negative_ttl = negative_ttl;
    max_entries = if max_entries == 0 then default_max_cache_entries else max_entries;
  }

  -- Cache.clampTTL
  unfoldable pub clamp_ttl : ℕ → Cache Ip → ℕ
  clamp_ttl ttl c =
      if ltb ttl c.min_ttl
      then c.min_ttl
      else if ltb 0 c.max_ttl && ltb c.max_ttl ttl
      then c.max_ttl
      else ttl

  -- Cache.Get
  unfoldable pub get : ℕ → Bytes → Cache Ip → Cache Ip × Option (Entry Ip)
  unfolding map_get map_delete
  get now host c = elim (map_get (to_lower host) c.entries) [
    | none ↦ (c, none)
    | some e ↦
        if ltb now e.expires_at
        then (c, some e)
        else (record c { entries = map_delete (to_lower host) c.entries }, none)
  ]

  -- !now.Before(e.expiresAt)
  unfoldable pub is_expired : ℕ → Entry Ip → Bool
  is_expired now e = leb e.expires_at now

  -- the first loop of Cache.evictLocked
  unfoldable pub drop_expired : ℕ → List (Bytes × Entry Ip) → List (Bytes × Entry Ip)
  unfolding is_expired
  drop_expired now [] = []
  drop_expired now ((k, e) ∷ m) =
      let rest = drop_expired now m in if is_expired now e then rest else (k, e) ∷ rest

  -- the second loop of Cache.evictLocked, from oldestKey and oldestAt
  unfoldable pub soonest : List (Bytes × Entry Ip) → Bytes → ℕ → Bytes
  soonest [] oldest_key oldest_at = oldest_key
  soonest ((k, e) ∷ m) oldest_key oldest_at =
      if is_blank oldest_key || ltb e.expires_at oldest_at
      then soonest m k e.expires_at
      else soonest m oldest_key oldest_at

  -- Cache.evictLocked, on the map
  unfoldable pub evict : ℕ → List (Bytes × Entry Ip) → List (Bytes × Entry Ip)
  unfolding drop_expired soonest map_delete is_expired
  evict now m =
      if any (λ e. is_expired now e.1) m
      then drop_expired now m
      else let oldest_key = soonest m [] 0 in
        if is_blank oldest_key then m else map_delete oldest_key m

  -- Cache.store behind its lock: a new key makes room in a full map
  unfoldable pub make_room : ℕ → Bytes → Cache Ip → List (Bytes × Entry Ip)
  unfolding evict map_get
  make_room now key c = elim (map_get key c.entries) [
    | none ↦ if leb c.max_entries (length c.entries) then evict now c.entries else c.entries
    | some old ↦ c.entries
  ]

  -- Cache.store
  unfoldable pub store : ℕ → Bytes → Entry Ip → Cache Ip → Cache Ip
  unfolding make_room map_set
  store now key e c = record c { entries = map_set key e (make_room now key c) }

  -- Cache.Put
  unfoldable pub put : ℕ → Bytes → List Ip → List Ip → ℕ → Cache Ip → Cache Ip
  unfolding store clamp_ttl
  put now host ipv4 ipv6 ttl c =
      store now (to_lower host)
        (record { ipv4 = ipv4; ipv6 = ipv6; expires_at = now + clamp_ttl ttl c; negative = false })
        c

  -- Cache.PutNegative
  unfoldable pub put_negative : ℕ → Bytes → Cache Ip → Cache Ip
  unfolding store
  put_negative now host c =
      store now (to_lower host)
        (record { ipv4 = []; ipv6 = []; expires_at = now + c.negative_ttl; negative = true }) c

  -- Cache.Delete
  unfoldable pub delete : Bytes → Cache Ip → Cache Ip
  unfolding map_delete
  delete host c = record c { entries = map_delete (to_lower host) c.entries }
