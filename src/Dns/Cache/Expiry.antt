-- ===== src/Dns/Cache/Expiry.antt =====
-- internal/dns/cache.go: what Get returns, and for how long.
use awsocks.Prelude.{
  ℕ, ◌+◌, ◌≤◌, ◌<◌, ◌≡◌, refl, ap, ◌∙◌, true, false, Option, none, some, List, [], if◌then◌else◌,
  ltb, arith, Bytes, bytes_eq_refl, to_lower,
}
use awsocks.Prelude.Maps.{map_set, map_get-map_set, map_get, bytes_key}
use awsocks.Dns.Cache.{Cache, Entry, clamp_ttl, get, make_room, store, put, put_negative}

module _ {Ip : Type 0} where
  -- an entry before it expires
  abbrev pub fresh_only : ℕ → Option (Entry Ip) → Option (Entry Ip)
  fresh_only now none = none
  fresh_only now (some e) = if ltb now e.expires_at then some e else none

  -- the answer of Get, on the map
  pub get_lem :
      (now : ℕ) (host : Bytes) (c : Cache Ip)
      → (get now host c).1 ≡ fresh_only now (map_get (to_lower host) c.entries)
  unfolding get
  get_lem now host c = ground arith

  get-store :
      (now later : ℕ) (key other : Bytes) (e : Entry Ip) (c : Cache Ip)
      → to_lower other ≡ key
      → (get later other (store now key e c)).1 ≡ (if ltb later e.expires_at then some e else none)
  unfolding store
  get-store now later key other e c same =
      let m = map_set key e (make_room now key c) in
      let found : map_get key m ≡ some e =
        map_get-map_set key key e (make_room now key c) ∙ rw (bytes_eq_refl key) refl in
      get_lem later other (store now key e c)
      ∙ ap (fresh_only later) (ap (λ k. map_get k m) same ∙ found)

  -- Where the rule's shortest time to live is not above its longest, which is not zero: after a put,
  -- the name is found in any spelling of its letters' case, with the addresses that were put, before
  -- a time to live between those two has passed and not from then on; after a put of a failure, the
  -- failure is found before the rule's time for failures has passed and not from then on.
  pub get-put :
      (now later : ℕ) (host other : Bytes) (ipv4 ipv6 : List Ip) (ttl : ℕ) (c : Cache Ip)
      → to_lower other ≡ to_lower host
      → 0 < c.max_ttl
      → c.min_ttl ≤ c.max_ttl
      → ((get later other (put now host ipv4 ipv6 ttl c)).1 ≡ (
          if ltb later (now + clamp_ttl ttl c)
          then some (record {
            ipv4 = ipv4;
            ipv6 = ipv6;
            expires_at = now + clamp_ttl ttl c;
            negative = false;
          })
          else none))
        × (c.min_ttl ≤ clamp_ttl ttl c)
        × (clamp_ttl ttl c ≤ c.max_ttl)
        × ((get later other (put_negative now host c)).1 ≡ (
            if ltb later (now + c.negative_ttl)
            then some (record {
              ipv4 = [];
              ipv6 = [];
              expires_at = now + c.negative_ttl;
              negative = true;
            })
            else none))
  unfolding put put_negative clamp_ttl
  get-put now later host other ipv4 ipv6 ttl c same positive order = (
    get-store now later (to_lower host) other _ c same,
    ground (arith, positive, order),
    ground (arith, positive, order),
    get-store now later (to_lower host) other _ c same,
  )
