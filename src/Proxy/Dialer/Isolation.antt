-- ===== src/Proxy/Dialer/Isolation.antt =====
-- internal/proxy/dialer.go: which ways a connection is attempted.
use text.Mathlib.Text.{◌==◌}
use awsocks.Prelude.{
  not, ◌&&◌, if◌then◌else◌, ◌∙◌, ◌≡◌, refl, ap, Bool, true, false, ◌||◌, Option, none, some, List,
  [], ◌∷◌, ◌++◌, inl, inr, arith, any, Bool-cases, Bytes,
}
use awsocks.Routing.Router.{Route, route_direct, route_vm_direct}
use awsocks.Routing.Fallback.{Error}
use awsocks.Proxy.Dialer.{
  is_fallbackable_error, Router, ProxyDialer, Dialed, Wait, wait_ready, wait_failed, Way,
  direct_way, agent_way, backend_way, agent_dial, backend_dial, DialRun, Address, dial_via_agent,
  dial_proxy, dial_with_route, split_address, route_for, map_host, resolve_addr, only, fall_back,
  primary_addr, after_primary, dial_primary, after_wait, wait_and_dial, pre_route, dial_backend,
  dial,
}

abbrev pub is_direct : Way → Bool
is_direct direct_way = true
is_direct agent_way = false
is_direct backend_way = false

-- Did an address go to the host's own dialer?
abbrev pub went_direct : List (Way × Bytes) → Bool
went_direct = any (λ a. is_direct a.0)

agent_dial_isolated :
    (o : Option (Bytes → Dialed)) (addr : Bytes) → went_direct (agent_dial o addr).1 ≡ false
unfolding agent_dial
agent_dial_isolated none addr = refl
agent_dial_isolated (some dial) addr = refl

dial_via_agent_isolated :
    (d : ProxyDialer) (addr : Bytes) → went_direct (dial_via_agent d addr).1 ≡ false
unfolding dial_via_agent
dial_via_agent_isolated d addr = agent_dial_isolated d.agent addr

dial_proxy_isolated :
    (d : ProxyDialer) (addr : Bytes) (f : Bytes → Dialed)
    → d.backend ≡ some f
    → went_direct (dial_proxy d addr).1 ≡ false
unfolding dial_proxy backend_dial
dial_proxy_isolated d addr f h = ap (λ o. went_direct (backend_dial d.direct o addr).1) h

dial_with_route_isolated :
    (d : ProxyDialer) (addr : Bytes) (route : Route) (f : Bytes → Dialed)
    → d.backend ≡ some f
    → (route == route_direct) ≡ false
    → went_direct (dial_with_route d addr route).1 ≡ false
unfolding dial_with_route
dial_with_route_isolated d addr route f h n = elim (Bool-cases (route == route_vm_direct)) [
  | inl vm ↦ rw (n, vm) (dial_via_agent_isolated d addr)
  | inr other ↦ rw (n, other) (dial_proxy_isolated d addr f h)
]

went_direct-append :
    (xs ys : List (Way × Bytes)) → went_direct (xs ++ ys) ≡ (went_direct xs || went_direct ys)
went_direct-append [] ys = refl
went_direct-append (x ∷ xs) ys = ground (arith, went_direct-append xs ys)

fall_back_isolated :
    (d : ProxyDialer) (r : Router) (a : Address) (route : Route) (dial_addr : Bytes) (err : Error)
    (attempts : List (Way × Bytes)) (f : Bytes → Dialed)
    → d.backend ≡ some f
    → d.router ≡ some r
    → (r.fallback_of route == route_direct) ≡ false
    → went_direct attempts ≡ false
    → went_direct (fall_back d a route dial_addr err attempts).attempts ≡ false
unfolding fall_back
fall_back_isolated d r a route dial_addr err attempts f h k n before = ground (
  arith,
  k,
  before,
  went_direct-append attempts (dial_with_route d a.addr (r.fallback_of route)).1,
  dial_with_route_isolated d a.addr (r.fallback_of route) f h n,
)

either_isolated :
    (b : Bool) (x y : DialRun)
    → went_direct x.attempts ≡ false
    → went_direct y.attempts ≡ false
    → went_direct (if b then x else y).attempts ≡ false
either_isolated true x y h k = h
either_isolated false x y h k = k

else_isolated :
    (b : Bool) (x y : DialRun)
    → b ≡ false
    → went_direct y.attempts ≡ false
    → went_direct (if b then x else y).attempts ≡ false
else_isolated b x y h k = rw h k

module _ (d : ProxyDialer) (r : Router) (f : Bytes → Dialed) (h : d.backend ≡ some f)
    (k : d.router ≡ some r) where
  primary_failed :
      (a : Address) (route : Route) (dial_addr : Bytes) (err : Error)
      (attempts : List (Way × Bytes))
      → (r.fallback_of route == route_direct) ≡ false
      → went_direct attempts ≡ false
      → went_direct (after_primary d a route dial_addr (some err) attempts).attempts ≡ false
  unfolding after_primary only
  primary_failed a route dial_addr err attempts n before =
      elim (Bool-cases (is_fallbackable_error (some err))) [
        | inl again ↦
            rw again (fall_back_isolated d r a route dial_addr err attempts f h k n before)
        | inr final ↦ rw final before
      ]

  after_primary_isolated :
      (a : Address) (route : Route) (dial_addr : Bytes) (dialed : Dialed)
      (attempts : List (Way × Bytes))
      → (r.fallback_of route == route_direct) ≡ false
      → went_direct attempts ≡ false
      → went_direct (after_primary d a route dial_addr dialed attempts).attempts ≡ false
  unfolding after_primary only
  after_primary_isolated a route dial_addr none attempts n before = before
  after_primary_isolated a route dial_addr (some err) attempts n before =
      primary_failed a route dial_addr err attempts n before

  dial_primary_isolated :
      (a : Address) (route : Route)
      → (r.fallback_of route == route_direct) ≡ false
      → went_direct (dial_primary d a route).attempts ≡ false
  unfolding dial_primary
  dial_primary_isolated a route n =
      let to = primary_addr d a in
      after_primary_isolated a route to (dial_proxy d to).0 (dial_proxy d to).1 n
        (dial_proxy_isolated d to f h)

  after_wait_isolated :
      (a : Address) (route : Route) (w : Wait)
      → (r.fallback_of route == route_direct) ≡ false
      → went_direct (after_wait d a route w).attempts ≡ false
  unfolding after_wait only
  after_wait_isolated a route wait_ready n = dial_primary_isolated a route n
  after_wait_isolated a route (wait_failed err) n = refl

  wait_and_dial_isolated :
      (a : Address) (route : Route)
      → (r.fallback_of route == route_direct) ≡ false
      → went_direct (wait_and_dial d a route).attempts ≡ false
  unfolding wait_and_dial
  wait_and_dial_isolated a route n =
      either_isolated d.not_initialized _ _ (after_wait_isolated a route d.wait n)
        (dial_primary_isolated a route n)

  pre_route_lem : (host : Bytes) → pre_route d host ≡ r.pre_connect_route host
  unfolding pre_route
  pre_route_lem host = ground (arith, k)

  route_for_lem : (host : Bytes) → route_for d host ≡ r.route_of host
  unfolding route_for
  route_for_lem host = ground (arith, k)

  dial_backend_isolated :
      (a : Address) (route : Route)
      → (r.fallback_of route == route_direct) ≡ false
      → (r.pre_connect_route a.host == route_direct) ≡ false
      → went_direct (dial_backend d a route).attempts ≡ false
  unfolding dial_backend only
  dial_backend_isolated a route n m =
      either_isolated ((d.not_initialized || not d.backend_ready) && not (pre_route d a.host == ""))
        (only d.not_initialized (dial_with_route d a.addr (pre_route d a.host)))
        (wait_and_dial d a route)
        (dial_with_route_isolated d a.addr (pre_route d a.host) f h
          (ap (λ x. x == route_direct) (pre_route_lem a.host) ∙ m))
        (wait_and_dial_isolated a route n)

  -- A dialer with a router and a backend sends nothing to the host's own dialer for a target whose
  -- name the router does not route directly, when the router does not give the direct route for a
  -- fallback of that route, nor before the connection for the host that the hosts table gives.
  pub dial_isolated :
      (addr : Bytes)
      → (r.route_of (split_address d addr).0 == route_direct) ≡ false
      → (r.fallback_of (r.route_of (split_address d addr).0) == route_direct) ≡ false
      → (r.pre_connect_route
            (map_host d (split_address d addr).0 (split_address d addr).1 addr).host
          == route_direct)
        ≡ false
      → went_direct (dial d addr).attempts ≡ false
  unfolding dial only
  dial_isolated addr n fallback m =
      let (host, port) = split_address d addr in
      let a = map_host d host port addr in
      let same = route_for_lem host in
      else_isolated (route_for d host == route_direct) _ _ (ap (λ x. x == route_direct) same ∙ n) (
        either_isolated (route_for d host == route_vm_direct)
          (only false (dial_via_agent d (resolve_addr d a))) (dial_backend d a (route_for d host))
          (dial_via_agent_isolated d (resolve_addr d a))
          (dial_backend_isolated a (route_for d host)
            (ap (λ x. r.fallback_of x == route_direct) same ∙ fallback) m))
