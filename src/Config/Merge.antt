-- ===== src/Config/Merge.antt =====
-- internal/config/merge.go: Merge. The three pointers may be nil.
pub mod Priority
pub mod Sharing
use text.Mathlib.Text.{◌==◌ as str_eq}
use awsocks.Prelude.{
  ℕ, ◌==◌, Bool, true, false, ◌||◌, Option, none, some, List, [], ◌∷◌, String, map, if◌then◌else◌,
}
use awsocks.Config.Types.{
  UpstreamProxyConfig, Durations, DnsRule, RoutingConfig, Defaults, Profile, CliFlags, MergedConfig,
}
use awsocks.Config.Slices.{merge_string_slices, merge_maps}
use awsocks.Config.Upstream.{Target, point_to, assign_url, assign_patterns, target_value}
use awsocks.Config.Routing.{
  given, empty_routing, routing_of_defaults, routing_of_profile, merge_routing_from_cli,
}

-- if x != 0 { field = x }
unfoldable pub given_port : ℕ → ℕ → ℕ
given_port x old = if x == 0 then old else x

-- if x != nil { field = *x }
unfoldable pub given_flag : Option Bool → Bool → Bool
given_flag none old = old
given_flag (some x) old = x

module _ (t : Durations) where
  -- if d, err := time.ParseDuration(x); err == nil { field = d }
  unfoldable pub parsed : String → t.Duration → t.Duration
  parsed x old = elim (t.parse_duration x) [ none ↦ old | some d ↦ d ]

  -- result before the file is read
  unfoldable pub built_in : MergedConfig t.Duration
  built_in = record {
    instance_id = "";
    name = "";
    aws_profile = "";
    region = "";
    ssh_key = "";
    ssh_user = "ec2-user";
    ssh_key_passphrase = "";
    auto_start = false;
    auto_stop = false;
    idle_timeout = t.zero_duration;
    proxy_network = "";
    listen = "127.0.0.1:1080";
    http_listen = "";
    remote_port = 22;
    lazy = true;
    ssh_keepalive_interval = t.thirty_seconds;
    upstream_proxy = none;
    routing = empty_routing;
  }

  -- Apply file defaults
  unfoldable pub apply_defaults :
      Option Defaults → MergedConfig t.Duration → MergedConfig t.Duration
  unfolding given given_port given_flag parsed routing_of_defaults
  apply_defaults none r = r
  apply_defaults (some defaults) r = record r {
    ssh_user = given defaults.ssh_user r.ssh_user;
    listen = given defaults.listen r.listen;
    http_listen = given defaults.http_listen r.http_listen;
    proxy_network = given defaults.proxy_network r.proxy_network;
    remote_port = given_port defaults.remote_port r.remote_port;
    lazy = given_flag defaults.lazy r.lazy;
    routing = routing_of_defaults defaults.routing r.routing;
    idle_timeout =
        if str_eq defaults.idle_timeout ""
        then r.idle_timeout
        else parsed defaults.idle_timeout r.idle_timeout;
    ssh_keepalive_interval =
        if str_eq defaults.ssh_keepalive ""
        then r.ssh_keepalive_interval
        else parsed defaults.ssh_keepalive r.ssh_keepalive_interval;
  }

  -- Apply profile settings; an invalid idle timeout resets it to zero
  unfoldable pub apply_profile : Option Profile → MergedConfig t.Duration → MergedConfig t.Duration
  unfolding given given_port given_flag parsed routing_of_profile
  apply_profile none r = r
  apply_profile (some profile) r = record r {
    instance_id = given profile.instance_id r.instance_id;
    name = given profile.name r.name;
    aws_profile = given profile.aws_profile r.aws_profile;
    region = given profile.region r.region;
    ssh_key = given profile.ssh_key r.ssh_key;
    ssh_user = given profile.ssh_user r.ssh_user;
    ssh_key_passphrase = given profile.ssh_key_passphrase r.ssh_key_passphrase;
    auto_start = profile.auto_start || r.auto_start;
    auto_stop = profile.auto_stop || r.auto_stop;
    proxy_network = given profile.proxy_network r.proxy_network;
    listen = given profile.listen r.listen;
    http_listen = given profile.http_listen r.http_listen;
    remote_port = given_port profile.remote_port r.remote_port;
    lazy = given_flag profile.lazy r.lazy;
    routing = routing_of_profile profile.routing r.routing;
    idle_timeout =
        if str_eq profile.idle_timeout ""
        then r.idle_timeout
        else parsed profile.idle_timeout t.zero_duration;
    ssh_keepalive_interval =
        if str_eq profile.ssh_keepalive ""
        then r.ssh_keepalive_interval
        else parsed profile.ssh_keepalive r.ssh_keepalive_interval;
  }

  -- cli.SSHKeepalive behind SSHKeepaliveIsSet
  unfoldable pub keepalive_flag : Option String → t.Duration → t.Duration
  unfolding parsed
  keepalive_flag none old = old
  keepalive_flag (some x) old = parsed x old

  -- Apply CLI settings
  unfoldable pub apply_cli : Option CliFlags → MergedConfig t.Duration → MergedConfig t.Duration
  unfolding given given_port given_flag keepalive_flag merge_routing_from_cli
  apply_cli none r = r
  apply_cli (some cli) r = record r {
    instance_id = given cli.instance_id r.instance_id;
    name = given cli.name r.name;
    aws_profile = given cli.aws_profile r.aws_profile;
    region = given cli.region r.region;
    ssh_key = given cli.ssh_key r.ssh_key;
    ssh_user = given cli.ssh_user r.ssh_user;
    ssh_key_passphrase = given cli.ssh_key_passphrase r.ssh_key_passphrase;
    auto_start = given_flag cli.auto_start r.auto_start;
    auto_stop = given_flag cli.auto_stop r.auto_stop;
    proxy_network = given cli.proxy_network r.proxy_network;
    listen = given cli.listen r.listen;
    http_listen = given cli.http_listen r.http_listen;
    remote_port = given_port cli.remote_port r.remote_port;
    lazy = given_flag cli.lazy r.lazy;
    ssh_keepalive_interval = keepalive_flag cli.ssh_keepalive r.ssh_keepalive_interval;
    routing = merge_routing_from_cli r.routing cli;
  }

-- defaults.UpstreamProxy, nil where there are no defaults
unfoldable pub upstream_of_defaults : Option Defaults → Option UpstreamProxyConfig
upstream_of_defaults none = none
upstream_of_defaults (some d) = d.upstream_proxy

-- profile.UpstreamProxy, nil where there is no profile
unfoldable pub upstream_of_profile : Option Profile → Option UpstreamProxyConfig
upstream_of_profile none = none
upstream_of_profile (some p) = p.upstream_proxy

-- the upstream proxy of the defaults and of the profile, then the two flags
unfoldable pub upstream_target : Option Defaults → Option Profile → Option CliFlags → Target
unfolding upstream_of_defaults upstream_of_profile point_to assign_url assign_patterns
upstream_target defaults profile cli =
    let u = point_to (upstream_of_defaults defaults) (upstream_of_profile profile) in
    elim cli [
      | none ↦ u
      | some c ↦ assign_patterns c.upstream_proxy_patterns (assign_url c.upstream_proxy_url u)
    ]

-- Merge
unfoldable pub merge :
    (t : Durations) → Option Defaults → Option Profile → Option CliFlags → MergedConfig t.Duration
unfolding built_in apply_defaults apply_profile apply_cli upstream_target target_value
merge t defaults profile cli =
    record (apply_cli t cli (apply_profile t profile (apply_defaults t defaults (built_in t)))) {
      upstream_proxy = target_value (upstream_target defaults profile cli);
    }
