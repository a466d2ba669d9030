-- ===== src/Routing/Matcher.antt =====
-- internal/routing/matcher.go: the matchers that a pattern can become.
--
-- `Net` stands for Go's package net, which is not modelled: its parsers and its containment test
-- are arguments. A nil *CIDRMatcher is `cidr none`; a call of its Match dereferences nil once the
-- host has parsed as an address, and that panic is the result `none` of `match_host`.
pub mod Patterns
pub mod Total
use awsocks.Prelude.{
  Bool, true, false, ◌||◌, Option, none, some, List, [], ◌∷◌, ◌++◌, if◌then◌else◌, Bytes, codes,
  bytes_eq, to_lower, has_prefix, has_suffix, trim_prefix, contains,
}
use awsocks.Routing.Glob.{glob_match}

-- net.ParseIP, net.ParseCIDR and IPNet.Contains
pub record Net : Type 1 where
  pub Ip : Type 0
  pub Network : Type 0
  pub parse_ip : Bytes → Option Ip
  pub parse_cidr : Bytes → Option Network
  pub in_network : Network → Ip → Bool

-- type DomainMatcher
pub record DomainMatcher : Type 0 where
  pub pattern : Bytes
  pub prefix : Bytes
  pub exact : Bytes

-- NewDomainMatcher
unfoldable pub domain_matcher : Bytes → DomainMatcher
domain_matcher pattern =
    if has_prefix pattern (codes "*.")
    then record { pattern = pattern; prefix = trim_prefix pattern (codes "*"); exact = [] }
    else if contains pattern (codes "*")
    then record { pattern = pattern; prefix = []; exact = [] }
    else record { pattern = pattern; prefix = []; exact = to_lower pattern }

-- the two wildcard branches of DomainMatcher.Match, on the prefix and the lowercase host
unfoldable pub match_wildcard : Bytes → Bytes → Bytes → Bool
match_wildcard pattern [] host = glob_match pattern host
match_wildcard pattern (c ∷ prefix) host =
    let suffix = to_lower (c ∷ prefix) in
    if has_suffix host suffix then true else bytes_eq host (trim_prefix suffix (codes "."))

-- the test of `exact`, and the wildcards behind it
unfoldable pub match_domain_in : DomainMatcher → Bytes → Bytes → Bool
unfolding match_wildcard
match_domain_in m [] host = match_wildcard m.pattern m.prefix host
match_domain_in m (c ∷ exact) host = bytes_eq host (c ∷ exact)

-- DomainMatcher.Match
unfoldable pub match_domain : DomainMatcher → Bytes → Bool
unfolding match_domain_in
match_domain m host = match_domain_in m m.exact (to_lower host)

module _ (net : Net) where
  open net use {Ip, Network, parse_ip, parse_cidr, in_network}

  -- the types that implement Matcher
  pub data Matcher : Type 0 where
    domain : DomainMatcher → Matcher
    cidr : Option Network → Matcher
    exact : Bytes → Matcher

  -- CIDRMatcher.Match
  unfoldable pub match_cidr : Option Network → Option Ip → Option Bool
  match_cidr n none = some false
  match_cidr none (some ip) = none
  match_cidr (some n) (some ip) = some (in_network n ip)

  -- Match of the three types; `exact` is ExactMatcher
  unfoldable pub match_host : Matcher → Bytes → Option Bool
  unfolding match_cidr
  match_host (domain m) host = some (match_domain m host)
  match_host (cidr n) host = match_cidr n (parse_ip host)
  match_host (exact value) host = some (bytes_eq (to_lower host) value)

  -- ParseMatcher on an address without a prefix length; NewCIDRMatcher's error is dropped
  unfoldable pub address_matcher : Bytes → Matcher
  address_matcher pattern =
      if contains pattern (codes ":")
      then cidr (parse_cidr (pattern ++ codes "/128"))
      else cidr (parse_cidr (pattern ++ codes "/32"))

  -- ParseMatcher behind the CIDR test
  unfoldable pub parse_plain : Bytes → Matcher
  unfolding address_matcher
  parse_plain pattern =
      if contains pattern (codes "*") || contains pattern (codes "?")
      then domain (domain_matcher pattern)
      else elim (parse_ip pattern) [
        | some ip ↦ address_matcher pattern
        | none ↦ exact (to_lower pattern)
      ]

  -- ParseMatcher
  unfoldable pub parse_matcher : Bytes → Matcher
  unfolding parse_plain
  parse_matcher pattern =
      if contains pattern (codes "/")
      then elim (parse_cidr pattern) [ some n ↦ cidr (some n) | none ↦ parse_plain pattern ]
      else parse_plain pattern

  -- for _, m := range matchers { if m.Match(host) … }: a panic ends the loop
  unfoldable pub match_any : List Matcher → Bytes → Option Bool
  match_any [] host = some false
  match_any (m ∷ ms) host =
      let rest = match_any ms host in
      elim (match_host m host) [ none ↦ none | some true ↦ some true | some false ↦ rest ]
