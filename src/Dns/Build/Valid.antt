-- ===== src/Dns/Build/Valid.antt =====
-- internal/dns/build.go: what a checked rule is.
use mathlib.Core.Path.{subst}
use awsocks.Prelude.{
  ℕ, ◌+◌, ◌<◌, ◌≤◌, ◌≡◌, refl, true, Option, some, List, [], ◌∷◌, arith, length, All, suc,
}
use awsocks.Prelude.Result.{Yields, Yields-bind, Result, ok, err, ◌>>=◌}
use awsocks.Routing.Router.{route_proxy, is_valid}
use awsocks.Dns.Config.{
  Rule, HostPorts, is_failure_mode, is_family, failure_fallthrough, family_ipv4, default_timeout,
  default_min_ttl, default_max_ttl, default_negative_ttl,
}
use awsocks.Dns.Build.{
  RuleSpec, ParseDuration, Field, BuildError, RuleError, build_rule, build_rules, build_config,
}
use awsocks.Dns.Build.Steps.{
  IsServer, parse_duration-Yields, choose-Yields, check_order-Yields, given_servers-Yields,
  route_proxy-is_valid, failure_fallthrough-is_failure_mode, family_ipv4-is_family,
}

-- a rule that the resolver can work with
pub record IsRule (net : HostPorts) (rule : Rule) : Type 0 where
  pub via_valid : is_valid rule.via ≡ true
  pub servers_valid : All (IsServer net) rule.servers
  pub servers_given : 0 < length rule.servers
  pub timeout_positive : 0 < rule.timeout
  pub min_ttl_positive : 0 < rule.min_ttl
  pub max_ttl_positive : 0 < rule.max_ttl
  pub ttl_ordered : rule.min_ttl ≤ rule.max_ttl
  pub negative_ttl_positive : 0 < rule.negative_ttl
  pub on_failure_valid : is_failure_mode rule.on_failure ≡ true
  pub prefer_valid : is_family rule.prefer ≡ true

build_rule-Yields :
    (net : HostPorts) (parse : ParseDuration) (spec : RuleSpec)
    → Yields (IsRule net) (build_rule net parse spec)
unfolding build_rule
build_rule-Yields net parse spec =
    let Positive : ℕ → Type 0 = λ n. 0 < n in
    Yields-bind (λ x. is_valid x ≡ true) (IsRule net) _ _
      (choose-Yields is_valid BuildError.invalid_via spec.via route_proxy route_proxy-is_valid)
      (λ via v.
        Yields-bind (λ ss. All (IsServer net) ss × (0 < length ss)) (IsRule net) _ _
          (given_servers-Yields net spec.servers)
          (λ servers ss.
            Yields-bind Positive (IsRule net) _ _
              (parse_duration-Yields parse Field.timeout_field spec.timeout default_timeout
                (omega arith))
              (λ timeout t.
                Yields-bind Positive (IsRule net) _ _
                  (parse_duration-Yields parse Field.min_ttl_field spec.min_ttl default_min_ttl
                    (omega arith))
                  (λ min_ttl low.
                    Yields-bind Positive (IsRule net) _ _
                      (parse_duration-Yields parse Field.max_ttl_field spec.max_ttl default_max_ttl
                        (omega arith))
                      (λ max_ttl high.
                        Yields-bind Positive (IsRule net) _ _
                          (parse_duration-Yields parse Field.negative_ttl_field spec.negative_ttl
                            default_negative_ttl (omega arith))
                          (λ negative_ttl n.
                            Yields-bind (λ _. min_ttl ≤ max_ttl) (IsRule net) _ _
                              (check_order-Yields min_ttl max_ttl high)
                              (λ u ordered.
                                Yields-bind (λ x. is_failure_mode x ≡ true) (IsRule net) _ _
                                  (choose-Yields is_failure_mode BuildError.invalid_on_failure
                                    spec.on_failure failure_fallthrough
                                    failure_fallthrough-is_failure_mode)
                                  (λ mode m.
                                    Yields-bind (λ x. is_family x ≡ true) (IsRule net) _ _
                                      (choose-Yields is_family BuildError.invalid_prefer spec.prefer
                                        family_ipv4 family_ipv4-is_family)
                                      (λ family f. record {
                                        via_valid = v;
                                        servers_valid = ss.0;
                                        servers_given = ss.1;
                                        timeout_positive = t;
                                        min_ttl_positive = low;
                                        max_ttl_positive = high;
                                        ttl_ordered = ordered;
                                        negative_ttl_positive = n;
                                        on_failure_valid = m;
                                        prefer_valid = f;
                                      })))))))))

Rules : HostPorts → ℕ → List Rule → Type 0
Rules net n rules = All (IsRule net) rules × (length rules ≡ n)

one_rule_more :
    (net : HostPorts) (n k : ℕ) (r : Result BuildError Rule) (rest : Result RuleError (List Rule))
    → Yields (IsRule net) r
    → Yields (Rules net n) rest
    → Yields (Rules net (suc n)) (elim r [
      | err e ↦ err (record { rule = k; cause = e })
      | ok rule ↦ rest >>= λ rules. ok (rule ∷ rules)
    ])
unfolding Rules
one_rule_more net n k (err e) rest p q = tt
one_rule_more net n k (ok rule) (err e) p q = tt
one_rule_more net n k (ok rule) (ok rules) p q = ((p, q.0), omega (arith, q.1))

build_rules-Yields :
    (net : HostPorts) (parse : ParseDuration) (k : ℕ) (specs : List RuleSpec)
    → Yields (Rules net (length specs)) (build_rules net parse k specs)
unfolding build_rules Rules
build_rules-Yields net parse k [] = (tt, refl)
build_rules-Yields net parse k (spec ∷ specs) =
    one_rule_more net (length specs) k (build_rule net parse spec)
      (build_rules net parse (k + 1) specs) (build_rule-Yields net parse spec)
      (build_rules-Yields net parse (k + 1) specs)

config_of : Result RuleError (List Rule) → Result RuleError (Option (List Rule))
config_of r = r >>= λ rules. ok (some rules)

built :
    (net : HostPorts) (n : ℕ) (rules : List Rule) (r : Result RuleError (List Rule))
    → Yields (Rules net n) r
    → config_of r ≡ ok (some rules)
    → All (IsRule net) rules × (length rules ≡ n)
unfolding config_of Rules
built net n rules (ok rs) w e =
    let same : rs ≡ rules = ground (arith, e) in subst (Rules net n) same w
built net n rules (err x) w e = absurd (ground (arith, e))

pub build_config-IsRule :
    (net : HostPorts) (parse : ParseDuration) (specs : List RuleSpec) (rules : List Rule)
    → build_config net parse specs ≡ ok (some rules)
    → All (IsRule net) rules × (length rules ≡ length specs)
unfolding build_config config_of
build_config-IsRule net parse [] rules e = absurd (ground (arith, e))
build_config-IsRule net parse (spec ∷ specs) rules e =
    built net (length (spec ∷ specs)) rules (build_rules net parse 1 (spec ∷ specs))
      (build_rules-Yields net parse 1 (spec ∷ specs)) e
