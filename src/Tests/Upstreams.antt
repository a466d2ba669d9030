-- ===== src/Tests/Upstreams.antt =====
-- Tests of the upstream proxy: a backend with a pattern for names and one for addresses.
use awsocks.Prelude.{if◌then◌else◌, ◌≡◌, refl, true, false, some, none, [], ◌∷◌, bytes_eq, codes}
use awsocks.Dns.Config.{HostPorts}
use awsocks.Backend.Upstream.{new_upstream, match_upstream, should_use_upstream_proxy}
use awsocks.Tests.Network.{small_net}

-- one address with a port
abbrev web_address : HostPorts
web_address = record {
  split_host_port =
      λ s. if bytes_eq s (codes "www.corp:443") then some (codes "www.corp", codes "443") else none;
  join_host_port = λ host port. host;
  is_ip = λ s. false;
}

-- without patterns everything goes through the proxy, and nothing does without a URL
no_patterns :
    should_use_upstream_proxy small_net web_address
      (new_upstream small_net (codes "http://proxy") [])
      (codes "anything")
    ≡ some true
unfolding should_use_upstream_proxy match_upstream new_upstream bytes_eq
no_patterns = refl

no_url :
    should_use_upstream_proxy small_net web_address
      (new_upstream small_net [] (codes "*" ∷ []))
      (codes "anything")
    ≡ some false
unfolding should_use_upstream_proxy new_upstream bytes_eq
no_url = refl
