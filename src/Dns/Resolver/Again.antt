-- ===== src/Dns/Resolver/Again.antt =====
-- internal/dns/resolver.go: Resolve of a name that has just been resolved.
use mathlib.Core.Path.{subst}
use awsocks.Prelude.{
  ℕ, ◌+◌, ◌<◌, ◌≤◌, ◌≡◌, refl, sym, ap, ◌∙◌, none, some, List, [], ◌∷◌, Bytes, to_lower, arith,
  Option-cases, inl, inr, suc, zero,
}
use awsocks.Routing.Matcher.{Net}
use awsocks.Dns.Cache.{get}
use awsocks.Dns.Client.{DnsMessage}
use awsocks.Dns.Resolver.{
  Slot, Resolution, match_rule, get_slot, set_slot, cache_found, lookup_a, lookup_aaaa, lookup,
  resolve_by_lookup, resolve_by, resolve_at, resolve,
}
use awsocks.Dns.Resolver.Policy.{Decides}
use awsocks.Dns.Resolver.Cached.{looked_up, resolve_by-miss, ttls-get}

module _ (net : Net) where
  get-set :
      (i : ℕ) (slots : List (Slot net)) (slot new : Slot net)
      → get_slot net i slots ≡ some slot
      → get_slot net i (set_slot net i new slots) ≡ some new
  unfolding get_slot set_slot
  get-set zero [] slot new g = absurd (ground (arith, g))
  get-set (suc n) [] slot new g = absurd (ground (arith, g))
  get-set zero (s ∷ ss) slot new g = refl
  get-set (suc n) (s ∷ ss) slot new g = get-set n ss slot new g

  set_idem :
      (i : ℕ) (slots : List (Slot net)) (new : Slot net)
      → set_slot net i new (set_slot net i new slots) ≡ set_slot net i new slots
  unfolding set_slot
  set_idem zero [] new = refl
  set_idem (suc n) [] new = refl
  set_idem zero (s ∷ ss) new = refl
  set_idem (suc n) (s ∷ ss) new = ap (◌∷◌ s) (set_idem n ss new)

  match_rule-set :
      (i : ℕ) (slots : List (Slot net)) (slot new : Slot net) (host : Bytes)
      → get_slot net i slots ≡ some slot
      → new.matchers ≡ slot.matchers
      → match_rule net (set_slot net i new slots) host ≡ match_rule net slots host
  unfolding get_slot set_slot match_rule
  match_rule-set zero [] slot new host g m = refl
  match_rule-set (suc n) [] slot new host g m = refl
  match_rule-set zero (s ∷ ss) slot new host g m =
      let same : s ≡ slot = ground (arith, g) in
      let matched : new.matchers ≡ s.matchers = m ∙ ap (λ x. x.matchers) (sym same) in
      rw matched refl
  match_rule-set (suc n) (s ∷ ss) slot new host g m =
      ground (arith, match_rule-set n ss slot new host g m)

  module _ (dns : DnsMessage) where
    pub matchers-lookup :
        (now : ℕ) (key : Bytes) (slot : Slot net)
        → (resolve_by_lookup net dns now key slot).0.matchers ≡ slot.matchers
    unfolding resolve_by_lookup lookup lookup_a lookup_aaaa cache_found
    matchers-lookup now key slot = ground arith

    resolve_at-hit :
        (now : ℕ) (host : Bytes) (slots : List (Slot net)) (i : ℕ) (slot after : Slot net)
        (r : Resolution)
        → get_slot net i slots ≡ some slot
        → resolve_by net dns now (to_lower host) slot ≡ (after, r)
        → resolve_at net dns now host slots i ≡ (set_slot net i after slots, r)
    unfolding resolve_at
    resolve_at-hit now host slots i slot after r g h = rw (resolve_at, g, h) refl

    resolve-at :
        (now : ℕ) (host : Bytes) (slots : List (Slot net)) (i : ℕ)
        → net.parse_ip host ≡ none
        → match_rule net slots host ≡ some (some i)
        → resolve net dns now host slots ≡ some (resolve_at net dns now host slots i)
    unfolding resolve match_rule
    resolve-at now host [] i name matched = absurd (ground (arith, matched))
    resolve-at now host (s ∷ ss) i name matched = rw (resolve, name, matched) refl

    name_of_dial :
        (now : ℕ) (host ip : Bytes) (slots after : List (Slot net))
        → resolve net dns now host slots ≡ some (after, Resolution.dial_ip ip)
        → net.parse_ip host ≡ none
    unfolding resolve
    name_of_dial now host ip [] after h = absurd (ground (arith, h))
    name_of_dial now host ip (s ∷ ss) after h = elim (Option-cases (net.parse_ip host)) [
      | inl name ↦ name
      | inr (literal, e) ↦ absurd (ground (arith, e, h))
    ]

-- A name that Resolve has just looked up for a rule, whose shortest time to live is positive and not
-- above the longest, is found again for at least the shortest time to live: Resolve returns the same
-- address and leaves the resolver as it is, whatever the servers would say by then.
pub resolve-again :
    (net : Net) (dns other : DnsMessage) (now later : ℕ) (host ip : Bytes)
    (slots after : List (Slot net)) (slot : Slot net)
    → Decides net host slots slot
    → (get now (to_lower host) slot.cache).1 ≡ none
    → 0 < slot.cache.min_ttl
    → slot.cache.min_ttl ≤ slot.cache.max_ttl
    → later < now + slot.cache.min_ttl
    → resolve net dns now host slots ≡ some (after, Resolution.dial_ip ip)
    → resolve net other later host after ≡ some (after, Resolution.dial_ip ip)
resolve-again net dns other now later host ip slots after slot (i, matched, got) miss positive order
      soon h =
    let key = to_lower host in
    let name = name_of_dial net dns now host ip slots after h in
    let seen = record slot { cache = (get now key slot.cache).0 } in
    let (low, high) = ttls-get now key slot.cache in
    let looked = resolve_by_lookup net dns now key seen in
    let ran : resolve net dns now host slots ≡ some (set_slot net i looked.0 slots, looked.1) =
      resolve-at net dns now host slots i name matched
      ∙ ap some (
          resolve_at-hit net dns now host slots i slot looked.0 looked.1 got
            (resolve_by-miss net dns now key slot miss)) in
    let (reached, dialled) : (set_slot net i looked.0 slots ≡ after)
        × (looked.1 ≡ Resolution.dial_ip ip) =
      ground (arith, sym ran ∙ h) in
    let again : resolve_by net other later key looked.0 ≡ (looked.0, Resolution.dial_ip ip) =
      looked_up net dns other now later key ip seen (rw low positive) (rw (low, high) order)
        (rw low soon) dialled in
    subst (λ x. resolve net other later host x ≡ some (x, Resolution.dial_ip ip)) reached
      (resolve-at net other later host (set_slot net i looked.0 slots) i name (
          match_rule-set net i slots slot looked.0 host got (matchers-lookup net dns now key seen)
          ∙ matched)
        ∙ ap some (
            resolve_at-hit net other later host (set_slot net i looked.0 slots) i looked.0 looked.0
              (Resolution.dial_ip ip) (get-set net i slots slot looked.0 got) again
            ∙ ap (λ x. (x, Resolution.dial_ip ip)) (set_idem net i slots looked.0)))
