-- ===== src/Routing/Router.antt =====
-- internal/routing/router.go, route.go and config.go. A route is its string; "" is no route.
pub mod Laws
pub mod Hosts
use text.Mathlib.Text.{◌==◌}
use awsocks.Prelude.{
  Bool, true, false, ◌||◌, Option, none, some, List, [], ◌∷◌, ◌++◌, String, map, if◌then◌else◌,
  Bytes, bytes_eq, to_lower,
}
use awsocks.Prelude.Maps.{map_set, map_get, bytes_key}
use awsocks.Routing.Matcher.{Net, Matcher, parse_matcher, match_any}

abbrev pub Route : Type 0
Route = String

abbrev pub route_proxy : Route
route_proxy = "proxy"

abbrev pub route_direct : Route
route_direct = "direct"

abbrev pub route_vm_direct : Route
route_vm_direct = "vm-direct"

-- Route.IsValid
unfoldable pub is_valid : Route → Bool
is_valid r = r == route_proxy || (r == route_direct || r == route_vm_direct)

-- type Config; a Go map is the list of its entries in the order of some iteration
pub record Config : Type 0 where
  pub default_route : Route
  pub proxy : List Bytes
  pub direct : List Bytes
  pub vm_direct : List Bytes
  pub hosts : List (Bytes × Bytes)
  pub pre_connect_direct : List Bytes
  pub pre_connect_vm_direct : List Bytes

-- the loop of NewRouter over cfg.Hosts
unfoldable pub build_hosts : List (Bytes × Bytes) → List (Bytes × Bytes) → List (Bytes × Bytes)
unfolding map_set
build_hosts [] acc = acc
build_hosts ((k, v) ∷ rest) acc = build_hosts rest (map_set (to_lower k) v acc)

-- the two switches of DefaultRouter.FallbackRoute, on the flag of VM mode
unfoldable pub fallback_in : Bool → Route → Route
fallback_in true current =
    if current == route_proxy
    then route_vm_direct
    else if current == route_vm_direct
    then route_proxy
    else ""
fallback_in false current =
    if current == route_proxy
    then route_direct
    else if current == route_direct
    then route_proxy
    else ""

module _ (net : Net) where
  -- type DefaultRouter
  pub record DefaultRouter : Type 0 where
    pub default_route : Route
    pub proxy_matchers : List (Matcher net)
    pub direct_matchers : List (Matcher net)
    pub vm_direct_matchers : List (Matcher net)
    pub pre_connect_direct_matchers : List (Matcher net)
    pub pre_connect_vm_direct_matchers : List (Matcher net)
    pub vm_mode_enabled : Bool
    pub hosts : List (Bytes × Bytes)

  -- NewRouter; the flag says whether the options hold WithVMMode
  unfoldable pub new_router : Config → Bool → DefaultRouter
  unfolding build_hosts
  new_router cfg vm_mode = record {
    default_route = cfg.default_route;
    proxy_matchers = map (parse_matcher net) cfg.proxy;
    direct_matchers = map (parse_matcher net) cfg.direct;
    vm_direct_matchers = if vm_mode then map (parse_matcher net) cfg.vm_direct else [];
    pre_connect_direct_matchers = map (parse_matcher net) cfg.pre_connect_direct;
    pre_connect_vm_direct_matchers =
        if vm_mode then map (parse_matcher net) cfg.pre_connect_vm_direct else [];
    vm_mode_enabled = vm_mode;
    hosts = build_hosts cfg.hosts [];
  }

  -- NewDefaultRouter
  unfoldable pub new_default_router : Bool → DefaultRouter
  new_default_router vm_mode = record {
    default_route = route_proxy;
    proxy_matchers = [];
    direct_matchers = [];
    vm_direct_matchers = [];
    pre_connect_direct_matchers = [];
    pre_connect_vm_direct_matchers = [];
    vm_mode_enabled = vm_mode;
    hosts = [];
  }

  -- one loop over matchers with its early return; `later` is what follows the loop
  unfoldable pub route_if : List (Matcher net) → Bytes → Route → Option Route → Option Route
  route_if ms host route later = elim (match_any net ms host) [
    | none ↦ none
    | some true ↦ some route
    | some false ↦ later
  ]

  -- DefaultRouter.Route
  unfoldable pub route : DefaultRouter → Bytes → Option Route
  unfolding route_if
  route r host =
      let rest =
        route_if r.direct_matchers host route_direct
          (route_if r.proxy_matchers host route_proxy (some r.default_route)) in
      if r.vm_mode_enabled then route_if r.vm_direct_matchers host route_vm_direct rest else rest

  -- DefaultRouter.RoutePreConnect
  unfoldable pub route_pre_connect : DefaultRouter → Bytes → Option Route
  unfolding route_if
  route_pre_connect r host =
      let rest = route_if r.pre_connect_direct_matchers host route_direct (some "") in
      if r.vm_mode_enabled
      then route_if r.pre_connect_vm_direct_matchers host route_vm_direct rest
      else rest

  -- DefaultRouter.ResolveHost
  unfoldable pub resolve_host : DefaultRouter → Bytes → Bytes
  unfolding map_get
  resolve_host r host = elim (map_get (to_lower host) r.hosts) [ some addr ↦ addr | none ↦ host ]

  -- DefaultRouter.HasVMDirectRoutes
  unfoldable pub has_vm_direct_routes : DefaultRouter → Bool
  has_vm_direct_routes r = elim r.vm_direct_matchers [ [] ↦ false | m ∷ ms ↦ true ]

  -- DefaultRouter.FallbackRoute
  unfoldable pub fallback_route : DefaultRouter → Route → Route
  unfolding fallback_in
  fallback_route r current = fallback_in r.vm_mode_enabled current
