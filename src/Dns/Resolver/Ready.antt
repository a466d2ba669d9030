-- ===== src/Dns/Resolver/Ready.antt =====
-- internal/dns: the resolver of a configuration that BuildConfig has checked.
use awsocks.Prelude.{
  ℕ, ◌+◌, ◌<◌, ◌≤◌, ◌≡◌, refl, Option, some, List, [], ◌∷◌, arith, length, ltb, All, Option-cases,
  Bool-cases, inl, inr,
}
use awsocks.Prelude.Result.{ok, Yields, Yields-bind, of_yields}
use awsocks.Routing.Router.{Route}
use awsocks.Routing.Matcher.{Net}
use awsocks.Dns.Config.{Rule, HostPorts}
use awsocks.Dns.Build.{RuleSpec, ParseDuration, build_config}
use awsocks.Dns.Build.Valid.{IsRule, build_config-IsRule}
use awsocks.Dns.Cache.{new_cache}
use awsocks.Dns.Client.{Dial, new_client}
use awsocks.Dns.Resolver.{Slot, new_slot, new_slots, new_resolver}

module _ (net : Net) where
  -- A slot is ready: its client asks the rule's servers, its cache is empty, and its times to live are
  -- those of a checked rule.
  pub record IsReady (slot : Slot net) : Type 0 where
    pub servers_given : 0 < length slot.client.servers
    pub same_servers : slot.client.servers ≡ slot.rule.servers
    pub empty_cache : slot.cache.entries ≡ []
    pub room : 0 < slot.cache.max_entries
    pub min_ttl_positive : 0 < slot.cache.min_ttl
    pub ttl_ordered : slot.cache.min_ttl ≤ slot.cache.max_ttl
    pub negative_ttl_positive : 0 < slot.cache.negative_ttl

  new_slot-IsReady :
      (ports : HostPorts) (dialers : Route → Option Dial) (n : ℕ) (rule : Rule)
      → IsRule ports rule
      → Yields IsReady (new_slot net dialers n rule)
  unfolding new_slot new_client new_cache
  new_slot-IsReady ports dialers n rule valid = elim (Option-cases (dialers rule.via)) [
    | inl missing ↦ rw (missing, new_slot) tt
    | inr (dial, given) ↦ elim (Bool-cases (ltb 0 (length rule.servers))) [
      | inr empty ↦ rw (given, empty, new_slot) tt
      | inl some_server ↦
          rw (given, some_server, new_slot)
            (record {
              servers_given = valid.servers_given;
              same_servers = refl;
              empty_cache = refl;
              room = omega arith;
              min_ttl_positive = valid.min_ttl_positive;
              ttl_ordered = valid.ttl_ordered;
              negative_ttl_positive = valid.negative_ttl_positive;
            })
    ]
  ]

  new_slots-IsReady :
      (ports : HostPorts) (dialers : Route → Option Dial) (n : ℕ) (rules : List Rule)
      → All (IsRule ports) rules
      → Yields (All IsReady) (new_slots net dialers n rules)
  unfolding new_slots
  new_slots-IsReady ports dialers n [] valid = tt
  new_slots-IsReady ports dialers n (rule ∷ rules) (valid, others) =
      Yields-bind IsReady (All IsReady) _ _ (new_slot-IsReady ports dialers n rule valid)
        (λ slot ready.
          Yields-bind (All IsReady) (All IsReady) _ _
            (new_slots-IsReady ports dialers (n + 1) rules others)
            (λ slots all_ready. (ready, all_ready)))

-- Where BuildConfig has checked the configuration and NewResolver takes it, every rule of the resolver
-- is ready: it has a server to ask, and an empty cache that has room and whose times to live are
-- positive and in order, as Resolve needs them to find a name again.
pub new_resolver-IsReady :
    (net : Net) (ports : HostPorts) (parse : ParseDuration) (specs : List RuleSpec)
    (rules : List Rule) (dialers : Route → Option Dial) (slots : List (Slot net))
    → build_config ports parse specs ≡ ok (some rules)
    → new_resolver net (some rules) dialers ≡ ok slots
    → All (IsReady net) slots
unfolding new_resolver
new_resolver-IsReady net ports parse specs rules dialers slots built made =
    of_yields (All (IsReady net)) (new_slots net dialers 1 rules) slots made (
      new_slots-IsReady net ports dialers 1 rules
        (build_config-IsRule ports parse specs rules built).0)
