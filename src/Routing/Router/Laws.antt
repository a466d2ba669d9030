-- ===== src/Routing/Router/Laws.antt =====
-- Routes: their precedence, the pre-connect overrides and the fallbacks.
use text.Mathlib.Text.{◌==◌}
use text.Mathlib.TextEquality.{eq_iff}
use awsocks.Prelude.{
  refl, inr, inl, true, false, sym, Bool-cases, ◌≡◌, ◌≢◌, ◌⊎◌, Bool, ◌&&◌, some, List, map, any,
  arith, Bytes, to_lower, if◌then◌else◌,
}
use awsocks.Routing.Matcher.{Net, parse_matcher, match_any}
use awsocks.Routing.Matcher.Total.{
  NetLaws, hit, match_any-IsReady, match_any-to_lower, map-parse_matcher-IsReady,
}
use awsocks.Routing.Router.{
  fallback_in, Route, route_proxy, route_direct, route_vm_direct, Config, DefaultRouter, new_router,
  route, route_pre_connect, fallback_route,
}

-- Does one of the patterns match the host?
abbrev pub covered : Net → List Bytes → Bytes → Bool
covered net patterns host = any (λ m. hit net m host) (map (parse_matcher net) patterns)

module _ (net : Net) (laws : NetLaws net) where
  match_patterns :
      (patterns : List Bytes) (host : Bytes)
      → match_any net (map (parse_matcher net) patterns) host ≡ some (covered net patterns host)
  match_patterns patterns host =
      match_any-IsReady net _ host (map-parse_matcher-IsReady net laws patterns)

  -- A router made of a configuration always answers. In VM mode the vm-direct patterns come first;
  -- then the direct patterns, then the proxy patterns, then the default route. Outside VM mode the
  -- vm-direct patterns count for nothing.
  pub route-new_router :
      (cfg : Config) (vm_mode : Bool) (host : Bytes)
      → route net (new_router net cfg vm_mode) host
        ≡ some (
            if vm_mode && covered net cfg.vm_direct host
            then route_vm_direct
            else if covered net cfg.direct host
            then route_direct
            else if covered net cfg.proxy host
            then route_proxy
            else cfg.default_route)
  unfolding route new_router
  route-new_router cfg vm_mode host = ground (
    arith,
    match_patterns cfg.vm_direct host,
    match_patterns cfg.direct host,
    match_patterns cfg.proxy host,
  )

  -- While the backend is not up, a router made of a configuration names vm-direct for a host that
  -- a pre-connect-vm-direct pattern matches in VM mode, else direct for a host that a
  -- pre-connect-direct pattern matches, else no route.
  pub route_pre_connect-new_router :
      (cfg : Config) (vm_mode : Bool) (host : Bytes)
      → route_pre_connect net (new_router net cfg vm_mode) host
        ≡ some (
            if vm_mode && covered net cfg.pre_connect_vm_direct host
            then route_vm_direct
            else if covered net cfg.pre_connect_direct host
            then route_direct
            else "")
  unfolding route_pre_connect new_router
  route_pre_connect-new_router cfg vm_mode host = ground (
    arith,
    match_patterns cfg.pre_connect_vm_direct host,
    match_patterns cfg.pre_connect_direct host,
  )

  -- Routing does not depend on the case of the host, whatever the router holds.
  pub route-to_lower :
      (r : DefaultRouter net) (host : Bytes)
      → (route net r (to_lower host) ≡ route net r host)
        × (route_pre_connect net r (to_lower host) ≡ route_pre_connect net r host)
  unfolding route route_pre_connect
  route-to_lower r host = (
    ground (
      arith,
      match_any-to_lower net laws r.vm_direct_matchers host,
      match_any-to_lower net laws r.direct_matchers host,
      match_any-to_lower net laws r.proxy_matchers host,
    ),
    ground (
      arith,
      match_any-to_lower net laws r.pre_connect_vm_direct_matchers host,
      match_any-to_lower net laws r.pre_connect_direct_matchers host,
    ),
  )

abbrev pub isolated : Bool → Route
isolated true = route_direct
isolated false = route_vm_direct

abbrev Mutual : Bool → Route → Type 0
Mutual vm a =
    ((fallback_in vm a ≡ "") ⊎ (fallback_in vm (fallback_in vm a) ≡ a))
    × (fallback_in vm a ≢ isolated vm)
    × (fallback_in vm (isolated vm) ≡ "")

distinct :
    (◌≢◌ {A = Route} route_vm_direct route_direct)
    × (◌≢◌ {A = Route} route_proxy route_direct)
    × (◌≢◌ {A = Route} route_proxy route_vm_direct)
    × (◌≢◌ {A = Route} "" route_direct)
    × (◌≢◌ {A = Route} "" route_vm_direct)
distinct = ground (
  arith,
  eq_iff route_vm_direct route_direct,
  eq_iff route_proxy route_direct,
  eq_iff route_proxy route_vm_direct,
  eq_iff "" route_direct,
  eq_iff "" route_vm_direct,
)

fallback_in-Mutual : (vm : Bool) (a : Route) → Mutual vm a
unfolding fallback_in
fallback_in-Mutual true a = elim (Bool-cases (a == route_proxy)) [
  | inl is_proxy ↦ rw ((eq_iff a route_proxy).0 is_proxy) (inr refl, distinct.0, refl)
  | inr other ↦ elim (Bool-cases (a == route_vm_direct)) [
    | inl is_vm ↦ rw ((eq_iff a route_vm_direct).0 is_vm) (inr refl, distinct.1, refl)
    | inr none_of ↦ rw (other, none_of) (inl refl, distinct.3, refl)
  ]
]
fallback_in-Mutual false a = elim (Bool-cases (a == route_proxy)) [
  | inl is_proxy ↦
      rw ((eq_iff a route_proxy).0 is_proxy) (inr refl, (λ e. distinct.0 (sym e)), refl)
  | inr other ↦ elim (Bool-cases (a == route_direct)) [
    | inl is_direct ↦ rw ((eq_iff a route_direct).0 is_direct) (inr refl, distinct.2, refl)
    | inr none_of ↦ rw (other, none_of) (inl refl, distinct.4, refl)
  ]
]

-- Fallbacks are mutual: a route's fallback, where there is one, has that route for its fallback. In
-- VM mode the direct route, outside VM mode the vm-direct route, neither has a fallback nor is one.
pub fallback_route-mutual :
    (net : Net) (r : DefaultRouter net) (a : Route)
    → ((fallback_route net r a ≡ "") ⊎ (fallback_route net r (fallback_route net r a) ≡ a))
      × (fallback_route net r a ≢ isolated r.vm_mode_enabled)
      × (fallback_route net r (isolated r.vm_mode_enabled) ≡ "")
unfolding fallback_route
fallback_route-mutual net r a = fallback_in-Mutual r.vm_mode_enabled a
