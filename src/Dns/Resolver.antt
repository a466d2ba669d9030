-- ===== src/Dns/Resolver.antt =====
-- internal/dns/resolver.go: the resolution of a name by the first rule that covers it. The slices rules,
-- clients and caches, which NewResolver lengthens together, are one list of slots. A lookup that
-- other callers wait for is one call here. A panic of a matcher is `none`.
pub mod Policy
pub mod Cached
pub mod Again
pub mod Ready
pub mod Total
use text.Mathlib.Text.{◌==◌ as text_eq}
use awsocks.Prelude.{
  ℕ, ◌+◌, Bool, true, false, ◌&&◌, Option, none, some, List, [], ◌∷◌, if◌then◌else◌, ltb, Bytes,
  to_lower, length, map, suc, zero,
}
use awsocks.Prelude.Result.{Result, ok, err, ◌>>=◌}
use awsocks.Routing.Router.{Route}
use awsocks.Routing.Matcher.{Net, Matcher, parse_matcher, match_any}
use awsocks.Dns.Config.{Rule, Family, failure_fail, family_ipv6}
use awsocks.Dns.Cache.{
  Entry, Cache, new_cache, get, put, put_negative, delete, default_max_cache_entries,
}
use awsocks.Dns.Client.{
  DnsMessage, Dial, Answer, QueryResult, Client, new_client, query, type_a, type_aaaa,
}

-- errors of NewResolver, with the number of the rule
pub data ResolverError : Type 0 where
  no_dialer : ℕ → Route → ResolverError
  no_rule_servers : ℕ → ResolverError

-- what Resolve returns: no address and no error, an address, or an error
pub data Resolution : Type 0 where
  keep_name : Resolution
  dial_ip : Bytes → Resolution
  resolve_failed : Resolution

-- pickIP, on one family and the other
unfoldable pub pick_first : List Bytes → List Bytes → Option Bytes
pick_first (ip ∷ ips) others = some ip
pick_first [] (ip ∷ ips) = some ip
pick_first [] [] = none

-- pickIP
unfoldable pub pick_ip : Entry Bytes → Family → Option Bytes
unfolding pick_first
pick_ip e prefer =
    if text_eq prefer family_ipv6 then pick_first e.ipv6 e.ipv4 else pick_first e.ipv4 e.ipv6

-- answersToIPs
abbrev pub answers_to_ips : List Answer → List Bytes
answers_to_ips answers = map (λ a. a.ip) answers

-- Resolver.onFailure
unfoldable pub on_failure : Rule → Resolution
on_failure rule =
    if text_eq rule.on_failure failure_fail then Resolution.resolve_failed else Resolution.keep_name

-- Resolve with the entry of a lookup
unfoldable pub resolution_of : Rule → Entry Bytes → Resolution
unfolding pick_ip on_failure
resolution_of rule e =
    if e.negative
    then on_failure rule
    else elim (pick_ip e rule.prefer) [ none ↦ on_failure rule | some ip ↦ Resolution.dial_ip ip ]

module _ (net : Net) where
  -- one rule with its matchers, client and cache
  pub record Slot : Type 0 where
    pub rule : Rule
    pub matchers : List (Matcher net)
    pub client : Client
    pub cache : Cache Bytes

  -- the body of NewResolver's loop
  unfoldable pub new_slot : (Route → Option Dial) → ℕ → Rule → Result ResolverError Slot
  unfolding new_client new_cache
  new_slot dialers n rule = elim (dialers rule.via) [
    | none ↦ err (ResolverError.no_dialer n rule.via)
    | some dial ↦
        if ltb 0 (length rule.servers)
        then ok (record {
          rule = rule;
          matchers = map (parse_matcher net) rule.patterns;
          client = new_client dial rule.servers rule.timeout;
          cache = new_cache rule.min_ttl rule.max_ttl rule.negative_ttl default_max_cache_entries;
        })
        else err (ResolverError.no_rule_servers n)
  ]

  unfoldable pub new_slots :
      (Route → Option Dial) → ℕ → List Rule → Result ResolverError (List Slot)
  unfolding new_slot
  new_slots dialers n [] = ok []
  new_slots dialers n (rule ∷ rules) =
      let rest = new_slots dialers (n + 1) rules in
      new_slot dialers n rule >>= λ slot. rest >>= λ slots. ok (slot ∷ slots)

  -- NewResolver
  unfoldable pub new_resolver :
      Option (List Rule) → (Route → Option Dial) → Result ResolverError (List Slot)
  unfolding new_slots
  new_resolver none dialers = ok []
  new_resolver (some rules) dialers = new_slots dialers 1 rules

  -- the two tests of matchRule on one rule
  unfoldable pub covers : List (Matcher net) → Bytes → Option Bool
  covers [] host = some true
  covers (m ∷ ms) host = match_any net (m ∷ ms) host

  -- Resolver.matchRule; -1 is `some none`
  unfoldable pub match_rule : List Slot → Bytes → Option (Option ℕ)
  unfolding covers
  match_rule [] host = some none
  match_rule (slot ∷ slots) host =
      let rest = match_rule slots host in
      elim (covers slot.matchers host) [
        | none ↦ none
        | some true ↦ some (some 0)
        | some false ↦ elim rest [
          | none ↦ none
          | some none ↦ some none
          | some (some i) ↦ some (some (suc i))
        ]
      ]

  -- the slot with an index, and a slot in its place
  unfoldable pub get_slot : ℕ → List Slot → Option Slot
  get_slot n [] = none
  get_slot zero (slot ∷ slots) = some slot
  get_slot (suc n) (slot ∷ slots) = get_slot n slots

  unfoldable pub set_slot : ℕ → Slot → List Slot → List Slot
  set_slot n new [] = []
  set_slot zero new (slot ∷ slots) = new ∷ slots
  set_slot (suc n) new (slot ∷ slots) = slot ∷ set_slot n new slots

  module _ (dns : DnsMessage) where
    -- the end of Resolver.lookup
    unfoldable pub cache_found : ℕ → Bytes → List Bytes → List Bytes → ℕ → Slot → Slot × Entry Bytes
    unfolding put get
    cache_found now host ipv4 ipv6 ttl slot =
        let (cache, found) = get now host (put now host ipv4 ipv6 ttl slot.cache) in
        (
          record slot { cache = cache },
          elim found [
            | some e ↦ e
            | none ↦ record { ipv4 = ipv4; ipv6 = ipv6; expires_at = 0; negative = false }
          ],
        )

    abbrev found_entry : Slot × Entry Bytes → Slot × Option (Entry Bytes)
    found_entry (slot, e) = (slot, some e)

    -- Resolver.lookup from its query for A
    unfoldable pub lookup_a : ℕ → Bytes → Slot → Slot × Option (Entry Bytes)
    unfolding query cache_found put_negative
    lookup_a now host slot = elim (query dns slot.client host type_a) [
      | none ↦ (slot, none)
      | some res ↦
          if ltb 0 (length res.answers)
          then found_entry (cache_found now host (answers_to_ips res.answers) [] res.min_ttl slot)
          else (
            record slot { cache = put_negative now host slot.cache },
            some (record { ipv4 = []; ipv6 = []; expires_at = 0; negative = true }),
          )
    ]

    -- Resolver.lookup from its query for AAAA
    unfoldable pub lookup_aaaa : ℕ → Bytes → Slot → Slot × Option (Entry Bytes)
    unfolding query cache_found lookup_a
    lookup_aaaa now host slot = elim (query dns slot.client host type_aaaa) [
      | none ↦ (slot, none)
      | some res ↦
          if ltb 0 (length res.answers)
          then found_entry (cache_found now host [] (answers_to_ips res.answers) res.min_ttl slot)
          else lookup_a now host slot
    ]

    -- Resolver.lookup; an error is `none`
    unfoldable pub lookup : ℕ → Bytes → Slot → Slot × Option (Entry Bytes)
    unfolding lookup_aaaa lookup_a
    lookup now host slot =
        if text_eq slot.rule.prefer family_ipv6
        then lookup_aaaa now host slot
        else lookup_a now host slot

    -- Resolve behind its cache
    unfoldable pub resolve_by_lookup : ℕ → Bytes → Slot → Slot × Resolution
    unfolding lookup on_failure resolution_of
    resolve_by_lookup now key slot =
        let (after, found) = lookup now key slot in
        (after, elim found [ none ↦ on_failure slot.rule | some e ↦ resolution_of slot.rule e ])

    -- Resolve with the rule
    unfoldable pub resolve_by : ℕ → Bytes → Slot → Slot × Resolution
    unfolding get on_failure pick_ip resolve_by_lookup
    resolve_by now key slot =
        let (cache, found) = get now key slot.cache in
        let seen = record slot { cache = cache } in
        elim found [
          | none ↦ resolve_by_lookup now key seen
          | some e ↦
              if e.negative
              then (seen, on_failure slot.rule)
              else elim (pick_ip e slot.rule.prefer) [
                | some ip ↦ (seen, Resolution.dial_ip ip)
                | none ↦ resolve_by_lookup now key seen
              ]
        ]

    -- Resolve with the index of a rule
    unfoldable pub resolve_at : ℕ → Bytes → List Slot → ℕ → List Slot × Resolution
    unfolding get_slot set_slot resolve_by
    resolve_at now host slots i = elim (get_slot i slots) [
      | none ↦ (slots, Resolution.keep_name)
      | some slot ↦
          let (after, resolution) = resolve_by now (to_lower host) slot in
          (set_slot i after slots, resolution)
    ]

    -- Resolver.Resolve of a resolver that is not nil
    unfoldable pub resolve : ℕ → Bytes → List Slot → Option (List Slot × Resolution)
    unfolding match_rule resolve_at
    resolve now host [] = some ([], Resolution.keep_name)
    resolve now host (slot ∷ slots) = elim (net.parse_ip host) [
      | some ip ↦ some (slot ∷ slots, Resolution.keep_name)
      | none ↦ elim (match_rule (slot ∷ slots) host) [
        | none ↦ none
        | some none ↦ some (slot ∷ slots, Resolution.keep_name)
        | some (some i) ↦ some (resolve_at now host (slot ∷ slots) i)
      ]
    ]

  -- the body of Invalidate's loop
  unfoldable pub forget : Bytes → Slot → Slot
  unfolding delete
  forget host slot = record slot { cache = delete host slot.cache }

  -- Resolver.Invalidate
  unfoldable pub invalidate : Bytes → List Slot → List Slot
  unfolding forget
  invalidate host slots = map (forget host) slots
