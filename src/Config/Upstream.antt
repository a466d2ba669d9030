-- ===== src/Config/Upstream.antt =====
-- internal/config/merge.go: the upstream proxy. Merge passes the pointer of the defaults or of the
-- profile on to its result and then assigns the fields of the flags through it, so the model keeps
-- the structs of the defaults and of the profile and says which of them the result points to.
use text.Mathlib.Text.{◌==◌}
use awsocks.Prelude.{Option, none, some, List, [], ◌∷◌, String, if◌then◌else◌}
use awsocks.Config.Types.{UpstreamProxyConfig}

-- what result.UpstreamProxy points to
pub data Target : Type 0 where
  no_target : Target
  to_defaults : UpstreamProxyConfig → Target
  to_profile : UpstreamProxyConfig → Target
  to_own : UpstreamProxyConfig → Target

-- &UpstreamProxyConfig{}
abbrev pub empty_upstream : UpstreamProxyConfig
empty_upstream = record { url = ""; patterns = [] }

-- defaults.UpstreamProxy, then profile.UpstreamProxy
unfoldable pub point_to : Option UpstreamProxyConfig → Option UpstreamProxyConfig → Target
point_to none none = no_target
point_to (some d) none = to_defaults d
point_to defaults (some p) = to_profile p

-- an assignment through result.UpstreamProxy, behind `if result.UpstreamProxy == nil`
unfoldable pub assign : (UpstreamProxyConfig → UpstreamProxyConfig) → Target → Target
assign f no_target = to_own (f empty_upstream)
assign f (to_defaults u) = to_defaults (f u)
assign f (to_profile u) = to_profile (f u)
assign f (to_own u) = to_own (f u)

-- cli.UpstreamProxyURL
unfoldable pub assign_url : String → Target → Target
unfolding assign
assign_url url t = if url == "" then t else assign (λ u. record u { url = url }) t

-- cli.UpstreamProxyPatterns
unfoldable pub assign_patterns : List String → Target → Target
unfolding assign
assign_patterns [] t = t
assign_patterns (p ∷ ps) t = assign (λ u. record u { patterns = p ∷ ps }) t

-- *result.UpstreamProxy
unfoldable pub target_value : Target → Option UpstreamProxyConfig
target_value no_target = none
target_value (to_defaults u) = some u
target_value (to_profile u) = some u
target_value (to_own u) = some u

-- *defaults.UpstreamProxy after Merge, from its value before
unfoldable pub defaults_after : Option UpstreamProxyConfig → Target → Option UpstreamProxyConfig
defaults_after before (to_defaults u) = some u
defaults_after before no_target = before
defaults_after before (to_profile u) = before
defaults_after before (to_own u) = before

-- *profile.UpstreamProxy after Merge, from its value before
unfoldable pub profile_after : Option UpstreamProxyConfig → Target → Option UpstreamProxyConfig
profile_after before (to_profile u) = some u
profile_after before no_target = before
profile_after before (to_defaults u) = before
profile_after before (to_own u) = before
