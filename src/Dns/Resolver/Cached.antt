-- ===== src/Dns/Resolver/Cached.antt =====
-- internal/dns/resolver.go: a second Resolve of a name.
use text.Mathlib.Text.{◌==◌ as text_eq}
use awsocks.Prelude.{
  ℕ, ◌+◌, ◌<◌, ◌≤◌, ◌≡◌, ◌≢◌, refl, ap, ◌∙◌, true, false, Option, none, some, List, [], Bytes,
  arith, Option-cases, Bool-cases, ◌⊎◌, inl, inr, ltb, length,
}
use awsocks.Prelude.Maps.{bytes_key}
use awsocks.Routing.Matcher.{Net}
use awsocks.Dns.Config.{Rule, family_ipv6}
use awsocks.Dns.Cache.{Cache, Entry, get, put, clamp_ttl}
use awsocks.Dns.Cache.Expiry.{get-put}
use awsocks.Dns.Client.{DnsMessage, query, type_a, type_aaaa}
use awsocks.Dns.Resolver.{
  Slot, Resolution, on_failure, resolution_of, pick_ip, cache_found, lookup_a, lookup_aaaa, lookup,
  resolve_by_lookup, resolve_by, answers_to_ips, found_entry,
}

-- the entry that Put makes
abbrev entry_of : ℕ → ℕ → List Bytes → List Bytes → Entry Bytes
entry_of now ttl ipv4 ipv6 = record {
  ipv4 = ipv4;
  ipv6 = ipv6;
  expires_at = now + ttl;
  negative = false;
}

-- A lookup has put these addresses into the cache.
pub record Puts (now : ℕ) (key : Bytes) (before after : Cache Bytes) (e : Entry Bytes)
    : Type 0 where
  pub ipv4 : List Bytes
  pub ipv6 : List Bytes
  pub ttl : ℕ
  pub is_put : after ≡ put now key ipv4 ipv6 ttl before
  pub is_entry : e ≡ entry_of now (clamp_ttl ttl before) ipv4 ipv6

get-kept :
    (now : ℕ) (key : Bytes) (c : Cache Bytes) (e : Entry Bytes)
    → (get now key c).1 ≡ some e
    → (get now key c).0 ≡ c
unfolding get
get-kept now key c e h = ground (arith, h)

pub ttls-get :
    (now : ℕ) (key : Bytes) (c : Cache Bytes)
    → ((get now key c).0.min_ttl ≡ c.min_ttl) × ((get now key c).0.max_ttl ≡ c.max_ttl)
unfolding get
ttls-get now key c = ground arith

module _ (net : Net) (dns : DnsMessage) where
  -- what a lookup does: nothing of use, or a Put
  abbrev Outcome : ℕ → Bytes → Slot net → Slot net × Option (Entry Bytes) → Type 0
  Outcome now key slot r =
      (e : Entry Bytes) × (r.1 ≡ some e)
      × ((e.negative ≡ true)
          ⊎ ((r.0 ≡ record slot { cache = r.0.cache }) × Puts now key slot.cache r.0.cache e))

  cache_found-Puts :
      (now : ℕ) (key : Bytes) (ipv4 ipv6 : List Bytes) (ttl : ℕ) (slot : Slot net)
      → 0 < slot.cache.min_ttl
      → slot.cache.min_ttl ≤ slot.cache.max_ttl
      → Outcome now key slot (found_entry net dns (cache_found net dns now key ipv4 ipv6 ttl slot))
  unfolding cache_found
  cache_found-Puts now key ipv4 ipv6 ttl slot positive order =
      let laws =
        get-put now now key key ipv4 ipv6 ttl slot.cache refl (omega (arith, positive, order))
          order in
      let found : (get now key (put now key ipv4 ipv6 ttl slot.cache)).1
          ≡ some (entry_of now (clamp_ttl ttl slot.cache) ipv4 ipv6) =
        laws.0 ∙ ground (arith, laws.1, positive) in
      (
        entry_of now (clamp_ttl ttl slot.cache) ipv4 ipv6,
        rw (cache_found, found) refl,
        inr (
          refl,
          record {
            ipv4 = ipv4;
            ipv6 = ipv6;
            ttl = ttl;
            is_put = get-kept now key (put now key ipv4 ipv6 ttl slot.cache) _ found;
            is_entry = refl;
          },
        ),
      )

  lookup_a-Puts :
      (now : ℕ) (key : Bytes) (slot : Slot net)
      → 0 < slot.cache.min_ttl
      → slot.cache.min_ttl ≤ slot.cache.max_ttl
      → ((lookup_a net dns now key slot).1 ≡ none)
        ⊎ Outcome now key slot (lookup_a net dns now key slot)
  unfolding lookup_a
  lookup_a-Puts now key slot positive order =
      elim (Option-cases (query dns slot.client key type_a)) [
        | inl failed ↦ inl (rw (failed, lookup_a) refl)
        | inr (res, answered) ↦ elim (Bool-cases (ltb 0 (length res.answers))) [
          | inl full ↦ inr (
              rw (answered, full, lookup_a)
                (cache_found-Puts now key (answers_to_ips res.answers) [] res.min_ttl slot positive
                  order))
          | inr empty ↦ inr (rw (answered, empty, lookup_a) (_, refl, inl refl))
        ]
      ]

  lookup_aaaa-Puts :
      (now : ℕ) (key : Bytes) (slot : Slot net)
      → 0 < slot.cache.min_ttl
      → slot.cache.min_ttl ≤ slot.cache.max_ttl
      → ((lookup_aaaa net dns now key slot).1 ≡ none)
        ⊎ Outcome now key slot (lookup_aaaa net dns now key slot)
  unfolding lookup_aaaa
  lookup_aaaa-Puts now key slot positive order =
      elim (Option-cases (query dns slot.client key type_aaaa)) [
        | inl failed ↦ inl (rw (failed, lookup_aaaa) refl)
        | inr (res, answered) ↦ elim (Bool-cases (ltb 0 (length res.answers))) [
          | inl full ↦ inr (
              rw (answered, full, lookup_aaaa)
                (cache_found-Puts now key [] (answers_to_ips res.answers) res.min_ttl slot positive
                  order))
          | inr empty ↦
              rw (answered, empty, lookup_aaaa) (lookup_a-Puts now key slot positive order)
        ]
      ]

  lookup-Puts :
      (now : ℕ) (key : Bytes) (slot : Slot net)
      → 0 < slot.cache.min_ttl
      → slot.cache.min_ttl ≤ slot.cache.max_ttl
      → ((lookup net dns now key slot).1 ≡ none)
        ⊎ Outcome now key slot (lookup net dns now key slot)
  unfolding lookup
  lookup-Puts now key slot positive order =
      elim (Bool-cases (text_eq slot.rule.prefer family_ipv6)) [
        | inl v6 ↦ rw v6 (lookup_aaaa-Puts now key slot positive order)
        | inr v4 ↦ rw v4 (lookup_a-Puts now key slot positive order)
      ]

resolution_of-dial :
    (rule : Rule) (e : Entry Bytes) (ip : Bytes)
    → resolution_of rule e ≡ Resolution.dial_ip ip
    → (e.negative ≡ false) × (pick_ip e rule.prefer ≡ some ip)
unfolding resolution_of on_failure
resolution_of-dial rule e ip h = ground (arith, h)

on_failure-dial : (rule : Rule) (ip : Bytes) → on_failure rule ≢ Resolution.dial_ip ip
unfolding on_failure
on_failure-dial rule ip h = ground (arith, h)

-- a hit in the cache, which asks nobody
resolve_by-hit :
    (net : Net) (dns : DnsMessage) (now : ℕ) (key : Bytes) (slot : Slot net) (e : Entry Bytes)
    (ip : Bytes)
    → (get now key slot.cache).1 ≡ some e
    → e.negative ≡ false
    → pick_ip e slot.rule.prefer ≡ some ip
    → resolve_by net dns now key slot ≡ (slot, Resolution.dial_ip ip)
unfolding resolve_by
resolve_by-hit net dns now key slot e ip hit positive picked =
    rw (resolve_by, hit, positive, picked, get-kept now key slot.cache e hit) refl

pub resolve_by-miss :
    (net : Net) (dns : DnsMessage) (now : ℕ) (key : Bytes) (slot : Slot net)
    → (get now key slot.cache).1 ≡ none
    → resolve_by net dns now key slot
      ≡ resolve_by_lookup net dns now key (record slot { cache = (get now key slot.cache).0 })
unfolding resolve_by
resolve_by-miss net dns now key slot miss = rw (resolve_by, miss) refl

put-later :
    (now later : ℕ) (key : Bytes) (before after : Cache Bytes) (e : Entry Bytes)
    → Puts now key before after e
    → 0 < before.min_ttl
    → before.min_ttl ≤ before.max_ttl
    → later < now + before.min_ttl
    → (get later key after).1 ≡ some e
put-later now later key before after e p positive order soon =
    let laws =
      get-put now later key key p.ipv4 p.ipv6 p.ttl before refl (omega (arith, positive, order))
        order in
    rw (p.is_put, p.is_entry) (laws.0 ∙ ground (arith, laws.1, soon))

pub looked_up :
    (net : Net) (dns other : DnsMessage) (now later : ℕ) (key ip : Bytes) (slot : Slot net)
    → 0 < slot.cache.min_ttl
    → slot.cache.min_ttl ≤ slot.cache.max_ttl
    → later < now + slot.cache.min_ttl
    → (resolve_by_lookup net dns now key slot).1 ≡ Resolution.dial_ip ip
    → resolve_by net other later key (resolve_by_lookup net dns now key slot).0
      ≡ ((resolve_by_lookup net dns now key slot).0, Resolution.dial_ip ip)
unfolding resolve_by_lookup
looked_up net dns other now later key ip slot positive order soon h =
    elim (lookup-Puts net dns now key slot positive order) [
      | inl failed ↦ absurd (on_failure-dial slot.rule ip (ground (arith, failed, h)))
      | inr (e, found, inl negative) ↦ absurd (
          ground
            (arith, negative, (resolution_of-dial slot.rule e ip (ground (arith, found, h))).0))
      | inr (e, found, inr (same, puts)) ↦
          let (good, picked) = resolution_of-dial slot.rule e ip (ground (arith, found, h)) in
          let after = (lookup net dns now key slot).0 in
          resolve_by-hit net other later key after e ip
            (put-later now later key slot.cache after.cache e puts positive order soon) good
            (ap (λ s. pick_ip e s.rule.prefer) same ∙ picked)
    ]
