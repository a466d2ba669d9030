-- ===== src/Config/Merge/Sharing.antt =====
-- internal/config/merge.go: the settings that are structures: the DNS rules and the upstream proxy.
use text.Mathlib.Text.{◌==◌ as str_eq}
use awsocks.Prelude.{
  ◌≡◌, refl, sym, ◌∙◌, ap, Option, none, some, List, [], ◌∷◌, String, Bool-cases, inl, inr,
}
use awsocks.Config.Types.{
  Durations, DnsRule, RoutingConfig, Defaults, Profile, CliFlags, UpstreamProxyConfig,
}
use awsocks.Config.Upstream.{
  Target, point_to, assign, assign_url, assign_patterns, target_value, defaults_after,
  profile_after,
}
use awsocks.Config.Merge.{Target, merge, upstream_of_defaults, upstream_of_profile, upstream_target}
use awsocks.Config.Routing.{given, given}

abbrev pub rules_of : Option RoutingConfig → List DnsRule
rules_of none = []
rules_of (some r) = r.dns

abbrev pub profile_rules : Option Profile → List DnsRule
profile_rules none = []
profile_rules (some p) = rules_of p.routing

abbrev pub defaults_rules : Option Defaults → List DnsRule
defaults_rules none = []
defaults_rules (some d) = rules_of d.routing

abbrev pub first_rules : List DnsRule → List DnsRule → List DnsRule
first_rules [] last = last
first_rules (r ∷ rs) last = r ∷ rs

assign_url-profile :
    (url : String) (u : UpstreamProxyConfig)
    → assign_url url (Target.to_profile u) ≡ Target.to_profile (record u { url = given url u.url })
unfolding assign_url assign given
assign_url-profile url u = elim (Bool-cases (str_eq url "")) [
  | inl b ↦ rw b refl
  | inr b ↦ rw b refl
]

abbrev pub given_patterns : List String → List String → List String
given_patterns [] old = old
given_patterns (x ∷ xs) old = x ∷ xs

assign_patterns-profile :
    (ps : List String) (u : UpstreamProxyConfig)
    → assign_patterns ps (Target.to_profile u)
      ≡ Target.to_profile (record u { patterns = given_patterns ps u.patterns })
unfolding assign_patterns assign
assign_patterns-profile [] u = refl
assign_patterns-profile (x ∷ xs) u = refl

point_to-profile :
    (d : Option UpstreamProxyConfig) (u : UpstreamProxyConfig)
    → point_to d (some u) ≡ Target.to_profile u
unfolding point_to
point_to-profile none u = refl
point_to-profile (some v) u = refl

upstream_target-profile :
    (d : Option Defaults) (p : Profile) (c : CliFlags) (u : UpstreamProxyConfig)
    → p.upstream_proxy ≡ some u
    → upstream_target d (some p) (some c)
      ≡ Target.to_profile (record {
        url = given c.upstream_proxy_url u.url;
        patterns = given_patterns c.upstream_proxy_patterns u.patterns;
      })
unfolding upstream_target upstream_of_profile
upstream_target-profile d p c u e =
    ap (λ x. assign_patterns c.upstream_proxy_patterns (assign_url c.upstream_proxy_url x))
      (ap (point_to (upstream_of_defaults d)) e ∙ point_to-profile (upstream_of_defaults d) u)
    ∙ ap (assign_patterns c.upstream_proxy_patterns) (assign_url-profile c.upstream_proxy_url u)
    ∙ assign_patterns-profile c.upstream_proxy_patterns _

-- Where the profile has an upstream proxy, the merged one has the URL and the patterns of the flags
-- where they are not empty and else those of the profile; the struct of the profile itself is then
-- the merged one, so it holds the values of the flags afterwards; that of the defaults is kept.
pub merge-upstream_proxy :
    (t : Durations) (d : Option Defaults) (p : Profile) (c : CliFlags) (u : UpstreamProxyConfig)
    → p.upstream_proxy ≡ some u
    → ((merge t d (some p) (some c)).upstream_proxy
        ≡ some (record {
          url = given c.upstream_proxy_url u.url;
          patterns = given_patterns c.upstream_proxy_patterns u.patterns;
        }))
      × (profile_after (some u) (upstream_target d (some p) (some c))
          ≡ (merge t d (some p) (some c)).upstream_proxy)
      × (defaults_after (upstream_of_defaults d) (upstream_target d (some p) (some c))
          ≡ upstream_of_defaults d)
unfolding merge target_value profile_after defaults_after
merge-upstream_proxy t d p c u e =
    let at = upstream_target-profile d p c u e in
    (
      ap target_value at,
      ap (profile_after (some u)) at ∙ sym (ap target_value at),
      ap (defaults_after (upstream_of_defaults d)) at,
    )
