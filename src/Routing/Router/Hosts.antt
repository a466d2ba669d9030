-- ===== src/Routing/Router/Hosts.antt =====
-- The hosts table of a router.
use awsocks.Prelude.{
  ◌≡◌, refl, Bool, Option, none, some, List, [], ◌∷◌, arith, Bytes, bytes_eq, to_lower,
  if◌then◌else◌,
}
use awsocks.Prelude.Maps.{map_set, map_get, map_get-map_set, bytes_key}
use awsocks.Routing.Matcher.{Net}
use awsocks.Routing.Router.{Config, build_hosts, new_router, resolve_host}

-- The value of the last entry whose name is `key` when case is ignored.
abbrev pub last_entry : Bytes → List (Bytes × Bytes) → Option Bytes
last_entry key [] = none
last_entry key ((name, addr) ∷ rest) = elim (last_entry key rest) [
  | some later ↦ some later
  | none ↦ if bytes_eq (to_lower name) key then some addr else none
]

build_hosts-last_entry :
    (key : Bytes) (entries acc : List (Bytes × Bytes))
    → map_get key (build_hosts entries acc)
      ≡ elim (last_entry key entries) [ some addr ↦ some addr | none ↦ map_get key acc ]
unfolding build_hosts
build_hosts-last_entry key [] acc = refl
build_hosts-last_entry key ((k, v) ∷ rest) acc = ground (
  arith,
  build_hosts-last_entry key rest (map_set (to_lower k) v acc),
  map_get-map_set (to_lower k) key v acc,
)

-- A router made of a configuration resolves a host to the address of the hosts entry with the same
-- name, case ignored (the last such entry in the order in which the table is walked), and leaves a
-- host that has no entry as it is.
pub resolve_host-new_router :
    (net : Net) (cfg : Config) (vm_mode : Bool) (host : Bytes)
    → resolve_host net (new_router net cfg vm_mode) host
      ≡ elim (last_entry (to_lower host) cfg.hosts) [ some addr ↦ addr | none ↦ host ]
unfolding resolve_host new_router map_get
resolve_host-new_router net cfg vm_mode host =
    ground (arith, build_hosts-last_entry (to_lower host) cfg.hosts [])
