-- ===== src/Dns/Config.antt =====
-- internal/dns/config.go: a resolution rule, and the check of a server's address. A duration is a
-- number of nanoseconds; time.ParseDuration and package net are parameters.
use text.Mathlib.Text.{◌==◌ as text_eq}
use awsocks.Prelude.{
  ℕ, ◌*◌, ◌+◌, ◌-◌, ◌^◌, Bool, false, ◌||◌, ◌&&◌, not, Option, none, some, List, [], ◌∷◌,
  if◌then◌else◌, ltb, leb, ◌==◌, any, Bytes, codes, bytes_eq, String, length,
}
use awsocks.Prelude.Result.{Result, ok, err}
use awsocks.Routing.Router.{Route}

-- time.Second
abbrev second : ℕ
second = 10 ^ 9

abbrev pub default_timeout : ℕ
default_timeout = 3 * second

abbrev pub default_min_ttl : ℕ
default_min_ttl = 10 * second

abbrev pub default_max_ttl : ℕ
default_max_ttl = 300 * second

abbrev pub default_negative_ttl : ℕ
default_negative_ttl = 5 * second

abbrev pub default_port : Bytes
default_port = codes "53"

-- type FailureMode
abbrev pub FailureMode : Type 0
FailureMode = String

abbrev pub failure_fallthrough : FailureMode
failure_fallthrough = "fallthrough"

abbrev pub failure_fail : FailureMode
failure_fail = "fail"

-- FailureMode.IsValid
unfoldable pub is_failure_mode : FailureMode → Bool
is_failure_mode f = text_eq f failure_fallthrough || text_eq f failure_fail

-- type Family
abbrev pub Family : Type 0
Family = String

abbrev pub family_ipv4 : Family
family_ipv4 = "ipv4"

abbrev pub family_ipv6 : Family
family_ipv6 = "ipv6"

-- Family.IsValid
unfoldable pub is_family : Family → Bool
is_family f = text_eq f family_ipv4 || text_eq f family_ipv6

-- type Rule, but for its matchers
pub record Rule : Type 0 where
  pub via : Route
  pub servers : List Bytes
  pub patterns : List Bytes
  pub timeout : ℕ
  pub min_ttl : ℕ
  pub max_ttl : ℕ
  pub negative_ttl : ℕ
  pub on_failure : FailureMode
  pub prefer : Family

-- Config.Enabled; a nil config is `none`
unfoldable pub config_enabled : Option (List Rule) → Bool
config_enabled none = false
config_enabled (some rules) = ltb 0 (length rules)

-- the loop of Config.Routes, from the routes seen
unfoldable pub routes_from : List Route → List Rule → List Route
routes_from seen [] = []
routes_from seen (r ∷ rs) =
    let known = routes_from seen rs in
    let new = routes_from (r.via ∷ seen) rs in
    if any (text_eq r.via) seen then known else r.via ∷ new

-- Config.Routes
unfoldable pub config_routes : Option (List Rule) → List Route
unfolding routes_from
config_routes none = []
config_routes (some rules) = routes_from [] rules

-- net.SplitHostPort, net.JoinHostPort, and whether net.ParseIP takes a text
pub record HostPorts : Type 0 where
  pub split_host_port : Bytes → Option (Bytes × Bytes)
  pub join_host_port : Bytes → Bytes → Bytes
  pub is_ip : Bytes → Bool

-- the ASCII characters that strings.TrimSpace takes away
unfoldable pub is_space : ℕ → Bool
is_space c = c == 32 || (leb 9 c && leb c 13)

unfoldable pub trim_left : Bytes → Bytes
unfolding is_space
trim_left [] = []
trim_left (c ∷ s) = let rest = trim_left s in if is_space c then rest else c ∷ s

-- a text without the space at its end
unfoldable pub trim_end : Bytes → Bytes
unfolding is_space
trim_end [] = []
trim_end (c ∷ s) = elim (trim_end s) [ [] ↦ if is_space c then [] else c ∷ [] | d ∷ t ↦ c ∷ d ∷ t ]

-- strings.TrimSpace on ASCII
unfoldable pub trim_space : Bytes → Bytes
unfolding trim_left trim_end
trim_space s = trim_end (trim_left s)

-- the digits of strconv.Atoi, of any size
unfoldable pub digits_from : ℕ → Bytes → Option ℕ
digits_from n [] = some n
digits_from n (c ∷ s) =
    let rest = digits_from (10 * n + (c - 48)) s in if leb 48 c && leb c 57 then rest else none

-- n, err := strconv.Atoi(port); err != nil || n < 1 || n > 65535, negated. A number after '-' is below
-- one, and one that does not fit an int is above 65535.
unfoldable pub is_port : Bytes → Bool
unfolding digits_from
is_port [] = false
is_port (c ∷ s) =
    let digits = if c == 43 then s else c ∷ s in
    elim (digits_from 0 digits) [
      | none ↦ false
      | some n ↦ ltb 0 (length digits) && (leb 1 n && leb n 65535)
    ]

-- the errors of NormalizeServer
pub data ServerError : Type 0 where
  empty_server : ServerError
  not_an_ip : Bytes → ServerError
  invalid_port : Bytes → ServerError

-- NormalizeServer behind its split
unfoldable pub check_server : HostPorts → Bytes → Bytes × Bytes → Result ServerError Bytes
unfolding is_port
check_server net server (host, port) =
    if not (net.is_ip host)
    then err (not_an_ip server)
    else if bytes_eq port []
    then ok (net.join_host_port host default_port)
    else if is_port port
    then ok (net.join_host_port host port)
    else err (invalid_port server)

-- NormalizeServer. Its test for a bare IPv6 address sets host and port to what they are.
unfoldable pub normalize_server : HostPorts → Bytes → Result ServerError Bytes
unfolding trim_space check_server
normalize_server net server =
    let s = trim_space server in
    if bytes_eq s []
    then err empty_server
    else check_server net server
        (elim (net.split_host_port s) [ none ↦ (s, []) | some (host, port) ↦ (host, port) ])
