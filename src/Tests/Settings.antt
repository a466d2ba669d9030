-- ===== src/Tests/Settings.antt =====
-- Tests of the configuration's merge.
use text.Mathlib.Text.{◌==◌}
use awsocks.Prelude.{if◌then◌else◌, ◌≡◌, refl, ℕ, true, false, Option, none, some, [], ◌∷◌, String}
use awsocks.Config.Types.{Durations, UpstreamProxyConfig, Defaults, Profile, CliFlags}
use awsocks.Config.Upstream.{defaults_after, profile_after}
use awsocks.Config.Merge.{merge, upstream_target, upstream_of_defaults}
use awsocks.Config.Routing.{given, empty_rule, empty_routing}
use awsocks.Config.Merge.Priority.{first_given, text_of, duration, merge-text, merge-idle_timeout}
use awsocks.Config.Merge.Sharing.{given_patterns, merge-upstream_proxy}

-- "5m" and "1h" are durations, in minutes
abbrev parse_minutes : String → Option ℕ
parse_minutes x = if x == "5m" then some 5 else if x == "1h" then some 60 else none

abbrev minutes : Durations
minutes = record {
  Duration = ℕ;
  zero_duration = 0;
  thirty_seconds = 1;
  parse_duration = parse_minutes;
}

abbrev proxy_url : UpstreamProxyConfig
proxy_url = record { url = "http://proxy:3128"; patterns = "*" ∷ [] }

abbrev file_defaults : Defaults
file_defaults = record {
  ssh_user = "admin";
  listen = "";
  http_listen = "";
  proxy_network = "vm";
  remote_port = 0;
  lazy = none;
  idle_timeout = "1h";
  ssh_keepalive = "5m";
  upstream_proxy = none;
  routing = some (record empty_routing { dns = empty_rule ∷ [] });
}

abbrev dev : Profile
dev = record {
  instance_id = "i-1";
  name = "";
  aws_profile = "dev";
  region = "";
  ssh_key = "";
  ssh_user = "";
  ssh_key_passphrase = "";
  auto_start = true;
  auto_stop = false;
  idle_timeout = "never";
  proxy_network = "";
  listen = "";
  http_listen = "";
  remote_port = 2222;
  lazy = some false;
  ssh_keepalive = "never";
  upstream_proxy = some proxy_url;
  routing = none;
}

abbrev flags : CliFlags
flags = record {
  instance_id = "";
  name = "";
  aws_profile = "";
  region = "eu-west-1";
  ssh_key = "";
  ssh_user = "ubuntu";
  ssh_key_passphrase = "";
  auto_start = some false;
  auto_stop = none;
  proxy_network = "";
  listen = "";
  http_listen = "";
  remote_port = 0;
  lazy = none;
  route_default = "";
  route_proxy = [];
  route_direct = [];
  route_vm_direct = [];
  dns_servers = "10.0.0.2" ∷ [];
  ssh_keepalive = none;
  upstream_proxy_url = "http://other:3128";
  upstream_proxy_patterns = [];
}

merge-text_example :
    ((merge minutes (some file_defaults) (some dev) (some flags)).ssh_user
      ≡ first_given
          (text_of (λ x. x.ssh_user) (some flags)
            ∷ text_of (λ x. x.ssh_user) (some dev)
            ∷ text_of (λ x. x.ssh_user) (some file_defaults)
            ∷ [])
          "ec2-user")
    × ((merge minutes (some file_defaults) (some dev) (some flags)).listen
        ≡ first_given
            (text_of (λ x. x.listen) (some flags)
              ∷ text_of (λ x. x.listen) (some dev)
              ∷ text_of (λ x. x.listen) (some file_defaults)
              ∷ [])
            "127.0.0.1:1080")
    × ((merge minutes (some file_defaults) (some dev) (some flags)).http_listen
        ≡ first_given
            (text_of (λ x. x.http_listen) (some flags)
              ∷ text_of (λ x. x.http_listen) (some dev)
              ∷ text_of (λ x. x.http_listen) (some file_defaults)
              ∷ [])
            "")
    × ((merge minutes (some file_defaults) (some dev) (some flags)).proxy_network
        ≡ first_given
            (text_of (λ x. x.proxy_network) (some flags)
              ∷ text_of (λ x. x.proxy_network) (some dev)
              ∷ text_of (λ x. x.proxy_network) (some file_defaults)
              ∷ [])
            "")
    × ((merge minutes (some file_defaults) (some dev) (some flags)).instance_id
        ≡ first_given
            (text_of (λ x. x.instance_id) (some flags)
              ∷ text_of (λ x. x.instance_id) (some dev)
              ∷ [])
            "")
    × ((merge minutes (some file_defaults) (some dev) (some flags)).aws_profile
        ≡ first_given
            (text_of (λ x. x.aws_profile) (some flags)
              ∷ text_of (λ x. x.aws_profile) (some dev)
              ∷ [])
            "")
    × ((merge minutes (some file_defaults) (some dev) (some flags)).region
        ≡ first_given
            (text_of (λ x. x.region) (some flags) ∷ text_of (λ x. x.region) (some dev) ∷ [])
            "")
    × ((merge minutes (some file_defaults) (some dev) (some flags)).ssh_key
        ≡ first_given
            (text_of (λ x. x.ssh_key) (some flags) ∷ text_of (λ x. x.ssh_key) (some dev) ∷ [])
            "")
    × ((merge minutes (some file_defaults) (some dev) (some flags)).name
        ≡ first_given
            (text_of (λ x. x.name) (some flags) ∷ text_of (λ x. x.name) (some dev) ∷ [])
            "")
    × ((merge minutes (some file_defaults) (some dev) (some flags)).ssh_key_passphrase
        ≡ first_given
            (text_of (λ x. x.ssh_key_passphrase) (some flags)
              ∷ text_of (λ x. x.ssh_key_passphrase) (some dev)
              ∷ [])
            "")
merge-text_example = merge-text minutes (some file_defaults) (some dev) (some flags)

merge-idle_timeout_example :
    (merge minutes (some file_defaults) (some dev) (some flags)).idle_timeout
    ≡ duration minutes
        (first_given
          (text_of (λ x. x.idle_timeout) (some dev)
            ∷ text_of (λ x. x.idle_timeout) (some file_defaults)
            ∷ [])
          "")
        minutes.zero_duration
merge-idle_timeout_example =
    merge-idle_timeout minutes (some file_defaults) (some dev) (some flags) refl

merge-upstream_proxy_example :
    ((merge minutes (some file_defaults) (some dev) (some flags)).upstream_proxy
      ≡ some (record {
        url = given flags.upstream_proxy_url proxy_url.url;
        patterns = given_patterns flags.upstream_proxy_patterns proxy_url.patterns;
      }))
    × (profile_after (some proxy_url) (upstream_target (some file_defaults) (some dev) (some flags))
        ≡ (merge minutes (some file_defaults) (some dev) (some flags)).upstream_proxy)
    × (defaults_after
          (upstream_of_defaults (some file_defaults))
          (upstream_target (some file_defaults) (some dev) (some flags))
        ≡ upstream_of_defaults (some file_defaults))
merge-upstream_proxy_example =
    merge-upstream_proxy minutes (some file_defaults) dev flags proxy_url refl
