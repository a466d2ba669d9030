-- ===== src/Config/Types.antt =====
-- internal/config/config.go and merge.go: the records. A pointer that may be nil is an Option, a
-- time.Duration is of a type given by `Durations`, with time.ParseDuration, since the code only
-- passes durations on. A nil slice is an empty one: the code tests slices by their length alone.
use awsocks.Prelude.{ℕ, Bool, List, Option, String}

pub record Durations : Type 1 where
  pub Duration : Type 0
  pub zero_duration : Duration
  pub thirty_seconds : Duration
  -- time.ParseDuration
  pub parse_duration : String → Option Duration

-- type UpstreamProxyConfig
pub record UpstreamProxyConfig : Type 0 where
  pub url : String
  pub patterns : List String

-- type DNSRule
pub record DnsRule : Type 0 where
  pub via : String
  pub servers : List String
  pub patterns : List String
  pub timeout : String
  pub min_ttl : String
  pub max_ttl : String
  pub negative_ttl : String
  pub on_failure : String
  pub prefer : String

-- type RoutingConfig
pub record RoutingConfig : Type 0 where
  pub default_route : String
  pub proxy : List String
  pub direct : List String
  pub vm_direct : List String
  pub hosts : List (String × String)
  pub dns : List DnsRule
  pub pre_connect_direct : List String
  pub pre_connect_vm_direct : List String

-- type Defaults
pub record Defaults : Type 0 where
  pub ssh_user : String
  pub listen : String
  pub http_listen : String
  pub proxy_network : String
  pub remote_port : ℕ
  pub lazy : Option Bool
  pub idle_timeout : String
  pub ssh_keepalive : String
  pub upstream_proxy : Option UpstreamProxyConfig
  pub routing : Option RoutingConfig

-- type Profile
pub record Profile : Type 0 where
  pub instance_id : String
  pub name : String
  pub aws_profile : String
  pub region : String
  pub ssh_key : String
  pub ssh_user : String
  pub ssh_key_passphrase : String
  pub auto_start : Bool
  pub auto_stop : Bool
  pub idle_timeout : String
  pub proxy_network : String
  pub listen : String
  pub http_listen : String
  pub remote_port : ℕ
  pub lazy : Option Bool
  pub ssh_keepalive : String
  pub upstream_proxy : Option UpstreamProxyConfig
  pub routing : Option RoutingConfig

-- type CLIFlags. A flag with its IsSet field is an Option: `none` is not set. (Lazy and LazyIsSet
-- are set together.)
pub record CliFlags : Type 0 where
  pub instance_id : String
  pub name : String
  pub aws_profile : String
  pub region : String
  pub ssh_key : String
  pub ssh_user : String
  pub ssh_key_passphrase : String
  pub auto_start : Option Bool
  pub auto_stop : Option Bool
  pub proxy_network : String
  pub listen : String
  pub http_listen : String
  pub remote_port : ℕ
  pub lazy : Option Bool
  pub route_default : String
  pub route_proxy : List String
  pub route_direct : List String
  pub route_vm_direct : List String
  pub dns_servers : List String
  pub ssh_keepalive : Option String
  pub upstream_proxy_url : String
  pub upstream_proxy_patterns : List String

-- type MergedConfig
pub record MergedConfig (Duration : Type 0) : Type 0 where
  pub instance_id : String
  pub name : String
  pub aws_profile : String
  pub region : String
  pub ssh_key : String
  pub ssh_user : String
  pub ssh_key_passphrase : String
  pub auto_start : Bool
  pub auto_stop : Bool
  pub idle_timeout : Duration
  pub proxy_network : String
  pub listen : String
  pub http_listen : String
  pub remote_port : ℕ
  pub lazy : Bool
  pub ssh_keepalive_interval : Duration
  pub upstream_proxy : Option UpstreamProxyConfig
  pub routing : RoutingConfig
