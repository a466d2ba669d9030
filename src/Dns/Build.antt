-- ===== src/Dns/Build.antt =====
-- internal/dns/build.go: the rules of the configuration, checked and completed.
pub mod Steps
pub mod Valid
use text.Mathlib.Text.{◌==◌ as text_eq}
use awsocks.Prelude.{
  ℕ, ◌+◌, Bool, ◌&&◌, not, Option, none, some, List, [], ◌∷◌, ◌++◌, if◌then◌else◌, ltb, Bytes,
  String,
}
use awsocks.Prelude.Result.{Result, ok, err, ◌>>=◌}
use awsocks.Routing.Router.{Route, route_proxy, is_valid}
use awsocks.Dns.Config.{
  Rule, HostPorts, ServerError, FailureMode, Family, normalize_server, is_failure_mode, is_family,
  failure_fallthrough, family_ipv4, default_timeout, default_min_ttl, default_max_ttl,
  default_negative_ttl,
}

-- type RuleSpec
pub record RuleSpec : Type 0 where
  pub via : String
  pub servers : List Bytes
  pub patterns : List Bytes
  pub timeout : String
  pub min_ttl : String
  pub max_ttl : String
  pub negative_ttl : String
  pub on_failure : String
  pub prefer : String

-- a time.Duration: nanoseconds, or their opposite less one
pub data Duration : Type 0 where
  pos : ℕ → Duration
  negsuc : ℕ → Duration

-- time.ParseDuration
abbrev pub ParseDuration : Type 0
ParseDuration = String → Option Duration

-- the field that an error of parseDuration names
pub data Field : Type 0 where
  timeout_field min_ttl_field max_ttl_field negative_ttl_field : Field

pub data BuildError : Type 0 where
  invalid_via : String → BuildError
  no_servers : BuildError
  bad_server : ServerError → BuildError
  invalid_duration : Field → String → BuildError
  not_positive : Field → String → BuildError
  min_above_max : ℕ → ℕ → BuildError
  invalid_on_failure : String → BuildError
  invalid_prefer : String → BuildError

-- BuildConfig's error, with the number of the rule
pub record RuleError : Type 0 where
  pub rule : ℕ
  pub cause : BuildError

-- parseDuration behind time.ParseDuration
unfoldable pub check_duration : Field → String → Option Duration → Result BuildError ℕ
check_duration field value none = err (BuildError.invalid_duration field value)
check_duration field value (some (pos n)) =
    if ltb 0 n then ok n else err (BuildError.not_positive field value)
check_duration field value (some (negsuc n)) = err (BuildError.not_positive field value)

-- parseDuration
unfoldable pub parse_duration : ParseDuration → Field → String → ℕ → Result BuildError ℕ
unfolding check_duration
parse_duration parse field value fallback =
    if text_eq value "" then ok fallback else check_duration field value (parse value)

-- a text with a default and a test of what it may be
unfoldable pub choose :
    (String → Bool) → (String → BuildError) → String → String → Result BuildError String
choose valid wrong value fallback =
    if text_eq value "" then ok fallback else if valid value then ok value else err (wrong value)

-- the loop over the servers
unfoldable pub normalize_servers : HostPorts → List Bytes → Result BuildError (List Bytes)
unfolding normalize_server
normalize_servers net [] = ok []
normalize_servers net (s ∷ ss) =
    let rest = normalize_servers net ss in
    elim (normalize_server net s) [
      | err e ↦ err (BuildError.bad_server e)
      | ok server ↦ rest >>= λ servers. ok (server ∷ servers)
    ]

-- len(spec.Servers) == 0
unfoldable pub given_servers : HostPorts → List Bytes → Result BuildError (List Bytes)
unfolding normalize_servers
given_servers net [] = err BuildError.no_servers
given_servers net (s ∷ ss) = normalize_servers net (s ∷ ss)

-- the test of the times to live
unfoldable pub check_order : ℕ → ℕ → Result BuildError (Unit {0})
check_order min_ttl max_ttl =
    if ltb 0 max_ttl && ltb max_ttl min_ttl
    then err (BuildError.min_above_max min_ttl max_ttl)
    else ok tt

-- buildRule
unfoldable pub build_rule : HostPorts → ParseDuration → RuleSpec → Result BuildError Rule
unfolding choose given_servers parse_duration check_order
build_rule net parse spec = do
  via ← choose is_valid BuildError.invalid_via spec.via route_proxy
  servers ← given_servers net spec.servers
  timeout ← parse_duration parse Field.timeout_field spec.timeout default_timeout
  min_ttl ← parse_duration parse Field.min_ttl_field spec.min_ttl default_min_ttl
  max_ttl ← parse_duration parse Field.max_ttl_field spec.max_ttl default_max_ttl
  negative_ttl ←
      parse_duration parse Field.negative_ttl_field spec.negative_ttl default_negative_ttl
  ordered ← check_order min_ttl max_ttl
  on_failure ←
      choose is_failure_mode BuildError.invalid_on_failure spec.on_failure failure_fallthrough
  prefer ← choose is_family BuildError.invalid_prefer spec.prefer family_ipv4
  ok (record {
    via = via;
    servers = servers;
    patterns = spec.patterns;
    timeout = timeout;
    min_ttl = min_ttl;
    max_ttl = max_ttl;
    negative_ttl = negative_ttl;
    on_failure = on_failure;
    prefer = prefer;
  })

-- the loop of BuildConfig, from the number of the first rule
unfoldable pub build_rules :
    HostPorts → ParseDuration → ℕ → List RuleSpec → Result RuleError (List Rule)
unfolding build_rule
build_rules net parse n [] = ok []
build_rules net parse n (spec ∷ specs) =
    let rest = build_rules net parse (n + 1) specs in
    elim (build_rule net parse spec) [
      | err e ↦ err (record { rule = n; cause = e })
      | ok rule ↦ rest >>= λ rules. ok (rule ∷ rules)
    ]

-- BuildConfig; a nil config is `none`
unfoldable pub build_config :
    HostPorts → ParseDuration → List RuleSpec → Result RuleError (Option (List Rule))
unfolding build_rules
build_config net parse [] = ok none
build_config net parse (spec ∷ specs) =
    build_rules net parse 1 (spec ∷ specs) >>= λ rules. ok (some rules)
