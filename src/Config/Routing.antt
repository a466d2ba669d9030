-- ===== src/Config/Routing.antt =====
-- internal/config/merge.go: the merges of the routing table. A copy of a slice or of a map is the
-- same value.
use text.Mathlib.Text.{◌==◌ as str_eq}
use awsocks.Prelude.{Option, none, some, List, [], ◌∷◌, String, map, if◌then◌else◌}
use awsocks.Config.Types.{DnsRule, RoutingConfig, CliFlags}
use awsocks.Config.Slices.{merge_string_slices, merge_maps}

-- if x != "" { field = x }
unfoldable pub given : String → String → String
given x old = if str_eq x "" then old else x

-- &RoutingConfig{}
abbrev pub empty_routing : RoutingConfig
empty_routing = record {
  default_route = "";
  proxy = [];
  direct = [];
  vm_direct = [];
  hosts = [];
  dns = [];
  pre_connect_direct = [];
  pre_connect_vm_direct = [];
}

-- DNSRule{}
abbrev pub empty_rule : DnsRule
empty_rule = record {
  via = "";
  servers = [];
  patterns = [];
  timeout = "";
  min_ttl = "";
  max_ttl = "";
  negative_ttl = "";
  on_failure = "";
  prefer = "";
}

-- mergeRoutingFromDefaults
unfoldable pub merge_routing_from_defaults : RoutingConfig → RoutingConfig
merge_routing_from_defaults src = record {
  default_route = src.default_route;
  proxy = src.proxy;
  direct = src.direct;
  vm_direct = src.vm_direct;
  hosts = src.hosts;
  dns = src.dns;
  pre_connect_direct = src.pre_connect_direct;
  pre_connect_vm_direct = src.pre_connect_vm_direct;
}

-- the rules of a profile replace those of the base
unfoldable pub given_rules : List DnsRule → List DnsRule → List DnsRule
given_rules [] old = old
given_rules (r ∷ rs) old = r ∷ rs

-- mergeRoutingFromProfile
unfoldable pub merge_routing_from_profile : RoutingConfig → RoutingConfig → RoutingConfig
unfolding given given_rules merge_string_slices merge_maps
merge_routing_from_profile base profile = record {
  default_route = given profile.default_route base.default_route;
  proxy = merge_string_slices base.proxy profile.proxy;
  direct = merge_string_slices base.direct profile.direct;
  vm_direct = merge_string_slices base.vm_direct profile.vm_direct;
  hosts = merge_maps base.hosts profile.hosts;
  dns = given_rules profile.dns base.dns;
  pre_connect_direct = merge_string_slices base.pre_connect_direct profile.pre_connect_direct;
  pre_connect_vm_direct =
      merge_string_slices base.pre_connect_vm_direct profile.pre_connect_vm_direct;
}

-- result.DNS[i].Servers = copySlice(cli.DNSServers)
unfoldable pub with_servers : List String → DnsRule → DnsRule
with_servers servers rule = record rule { servers = servers }

-- --dns-server
unfoldable pub override_servers : List String → List DnsRule → List DnsRule
unfolding with_servers
override_servers [] rules = rules
override_servers (s ∷ servers) [] = with_servers (s ∷ servers) empty_rule ∷ []
override_servers (s ∷ servers) (r ∷ rules) = map (with_servers (s ∷ servers)) (r ∷ rules)

-- mergeRoutingFromCLI
unfoldable pub merge_routing_from_cli : RoutingConfig → CliFlags → RoutingConfig
unfolding given override_servers merge_string_slices
merge_routing_from_cli base cli = record {
  default_route = given cli.route_default base.default_route;
  proxy = merge_string_slices base.proxy cli.route_proxy;
  direct = merge_string_slices base.direct cli.route_direct;
  vm_direct = merge_string_slices base.vm_direct cli.route_vm_direct;
  hosts = base.hosts;
  dns = override_servers cli.dns_servers base.dns;
  pre_connect_direct = base.pre_connect_direct;
  pre_connect_vm_direct = base.pre_connect_vm_direct;
}

-- if defaults.Routing != nil
unfoldable pub routing_of_defaults : Option RoutingConfig → RoutingConfig → RoutingConfig
unfolding merge_routing_from_defaults
routing_of_defaults none old = old
routing_of_defaults (some r) old = merge_routing_from_defaults r

-- if profile.Routing != nil
unfoldable pub routing_of_profile : Option RoutingConfig → RoutingConfig → RoutingConfig
unfolding merge_routing_from_profile
routing_of_profile none old = old
routing_of_profile (some r) old = merge_routing_from_profile old r
