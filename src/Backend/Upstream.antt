-- ===== src/Backend/Upstream.antt =====
-- internal/backend/ssm/backend.go: which addresses go through the upstream proxy. A panic of a
-- matcher is `none`. net.SplitHostPort is a field of `HostPorts`.
use awsocks.Prelude.{
  Bool, true, false, Option, none, some, List, [], ◌∷◌, map, any, if◌then◌else◌, Bytes, bytes_eq,
}
use awsocks.Dns.Config.{HostPorts}
use awsocks.Routing.Matcher.{Net, Matcher, parse_matcher, match_any}
use awsocks.Routing.Matcher.Total.{hit}

-- the fields of Backend and its configuration for the upstream proxy
pub record Upstream (net : Net) : Type 0 where
  pub upstream_proxy_url : Bytes
  pub upstream_proxy_matchers : List (Matcher net)

-- New: the patterns
unfoldable pub new_upstream : (net : Net) → Bytes → List Bytes → Upstream net
new_upstream net url patterns = record {
  upstream_proxy_url = url;
  upstream_proxy_matchers = map (parse_matcher net) patterns;
}

-- host, _, err := net.SplitHostPort(address), and the address itself on an error
unfoldable pub host_of : HostPorts → Bytes → Bytes
host_of ports address = elim (ports.split_host_port address) [
  | none ↦ address
  | some (host, port) ↦ host
]

-- no matchers, and the loop over the matchers
unfoldable pub match_upstream : (net : Net) → List (Matcher net) → Bytes → Option Bool
match_upstream net [] host = some true
match_upstream net (m ∷ ms) host = match_any net (m ∷ ms) host

-- shouldUseUpstreamProxy, which is all that UsesUpstreamProxy calls
unfoldable pub should_use_upstream_proxy :
    (net : Net) → HostPorts → Upstream net → Bytes → Option Bool
unfolding match_upstream host_of
should_use_upstream_proxy net ports u address =
    if bytes_eq u.upstream_proxy_url []
    then some false
    else match_upstream net u.upstream_proxy_matchers (host_of ports address)

-- the patterns, none of which stands for all of them
abbrev pub covers_host : (net : Net) → List Bytes → Bytes → Bool
covers_host net [] host = true
covers_host net (p ∷ ps) host = any (λ m. hit net m host) (map (parse_matcher net) (p ∷ ps))
