-- ===== src/Routing/Matcher/Total.antt =====
-- The matchers of `parse_matcher` against nil pointers, and the case of the host.
use awsocks.Prelude.{
  ◌≡◌, refl, inl, inr, Bool, true, false, ◌||◌, none, some, List, [], ◌∷◌, ◌++◌, map, All, any,
  arith, Bytes, codes, to_lower, to_lower_idem, contains, Bool-cases, Option-cases,
}
use awsocks.Routing.Matcher.{
  Net, Matcher, domain, cidr, exact, match_domain, match_host, address_matcher, parse_plain,
  parse_matcher, match_any,
}

-- What the documentation of package net says of its parsers: an address with its full prefix
-- length is a CIDR, and the spelling of an address does not depend on case.
pub record NetLaws (net : Net) : Type 0 where
  pub full_v6 :
      (p : Bytes) (ip : net.Ip)
      → net.parse_ip p ≡ some ip
      → contains p (codes ":") ≡ true
      → (n : net.Network) × (net.parse_cidr (p ++ codes "/128") ≡ some n)
  pub full_v4 :
      (p : Bytes) (ip : net.Ip)
      → net.parse_ip p ≡ some ip
      → contains p (codes ":") ≡ false
      → (n : net.Network) × (net.parse_cidr (p ++ codes "/32") ≡ some n)
  pub parse_ip-to_lower : (p : Bytes) → net.parse_ip (to_lower p) ≡ net.parse_ip p

module _ (net : Net) where
  -- not a nil pointer
  abbrev pub IsReady : Matcher net → Type 0
  IsReady (domain m) = Unit
  IsReady (cidr none) = ⊥
  IsReady (cidr (some n)) = Unit
  IsReady (exact value) = Unit

  -- the answer of a match that does not panic
  abbrev pub hit : Matcher net → Bytes → Bool
  hit m host = elim (match_host net m host) [ none ↦ false | some b ↦ b ]

  pub match_host-IsReady :
      (m : Matcher net) (host : Bytes) → IsReady m → match_host net m host ≡ some (hit m host)
  unfolding match_host
  match_host-IsReady (domain m) host h = refl
  match_host-IsReady (cidr none) host h = absurd h
  match_host-IsReady (cidr (some n)) host h = ground arith
  match_host-IsReady (exact value) host h = refl

  pub match_any-IsReady :
      (ms : List (Matcher net)) (host : Bytes)
      → All IsReady ms
      → match_any net ms host ≡ some (any (λ m. hit m host) ms)
  unfolding match_any
  match_any-IsReady [] host h = refl
  match_any-IsReady (m ∷ ms) host (r, h) =
      ground (arith, match_host-IsReady m host r, match_any-IsReady ms host h)

  pub match_host-to_lower :
      NetLaws net
      → (m : Matcher net) (host : Bytes) → match_host net m (to_lower host) ≡ match_host net m host
  unfolding match_host match_domain
  match_host-to_lower laws (domain m) host = rw to_lower_idem
  match_host-to_lower laws (cidr n) host = rw (laws.parse_ip-to_lower host)
  match_host-to_lower laws (exact value) host = rw to_lower_idem

  pub match_any-to_lower :
      NetLaws net
      → (ms : List (Matcher net)) (host : Bytes)
      → match_any net ms (to_lower host) ≡ match_any net ms host
  unfolding match_any
  match_any-to_lower laws [] host = refl
  match_any-to_lower laws (m ∷ ms) host =
      ground (arith, match_host-to_lower laws m host, match_any-to_lower laws ms host)

  module _ (laws : NetLaws net) where
    address_matcher-IsReady :
        (pattern : Bytes) (ip : net.Ip)
        → net.parse_ip pattern ≡ some ip
        → IsReady (address_matcher net pattern)
    unfolding address_matcher
    address_matcher-IsReady pattern ip e = elim (Bool-cases (contains pattern (codes ":"))) [
      | inl v6 ↦ let (n, found) = laws.full_v6 pattern ip e v6 in rw (v6, found) tt
      | inr v4 ↦ let (n, found) = laws.full_v4 pattern ip e v4 in rw (v4, found) tt
    ]

    parse_plain-IsReady : (pattern : Bytes) → IsReady (parse_plain net pattern)
    unfolding parse_plain
    parse_plain-IsReady pattern =
        elim (Bool-cases (contains pattern (codes "*") || contains pattern (codes "?"))) [
          | inl wild ↦ rw wild tt
          | inr plain ↦ elim (Option-cases (net.parse_ip pattern)) [
            | inl name ↦ rw (plain, name) tt
            | inr (ip, found) ↦ rw (plain, found) (address_matcher-IsReady pattern ip found)
          ]
        ]

    pub parse_matcher-IsReady : (pattern : Bytes) → IsReady (parse_matcher net pattern)
    unfolding parse_matcher
    parse_matcher-IsReady pattern = elim (Bool-cases (contains pattern (codes "/"))) [
      | inl slash ↦ elim (Option-cases (net.parse_cidr pattern)) [
        | inl bad ↦ rw (slash, bad) (parse_plain-IsReady pattern)
        | inr (n, found) ↦ rw (slash, found) tt
      ]
      | inr plain ↦ rw plain (parse_plain-IsReady pattern)
    ]

    pub map-parse_matcher-IsReady :
        (patterns : List Bytes) → All IsReady (map (parse_matcher net) patterns)
    map-parse_matcher-IsReady [] = tt
    map-parse_matcher-IsReady (p ∷ ps) = (parse_matcher-IsReady p, map-parse_matcher-IsReady ps)
