-- ===== src/Proxy/Dialer.antt =====
-- internal/proxy/dialer.go: ProxyDialer.Dial. What it calls is a record of functions: the answers of
-- the router, of the resolver, of the three ways to dial and of the initialization.
pub mod Isolation
use text.Mathlib.Text.{◌==◌}
use awsocks.Prelude.{
  Bool, true, false, not, ◌&&◌, ◌||◌, Option, none, some, List, [], ◌∷◌, ◌++◌, if◌then◌else◌, Bytes,
  bytes_eq, codes,
}
use awsocks.Routing.Router.{Route, route_proxy, route_direct, route_vm_direct}
use awsocks.Routing.Fallback.{Error, is_fallbackable_error}

-- the methods of routing.Router that Dial calls
pub record Router : Type 0 where
  pub route_of : Bytes → Route
  pub resolved_host : Bytes → Bytes
  pub pre_connect_route : Bytes → Route
  pub fallback_of : Route → Route

-- the error of a dial, `none` for a connection
abbrev pub Dialed : Type 0
Dialed = Option Error

-- how the wait for the lazy initialization ends
pub data Wait : Type 0 where
  wait_ready : Wait
  wait_failed : Error → Wait

-- type ProxyDialer, with what its parts answer. `agent` and `backend` are nil or a Dial method, the
-- latter as it stands when it is used; `resolve` is the address of Resolver.Resolve in text, where
-- there is one to dial.
pub record ProxyDialer : Type 0 where
  pub router : Option Router
  pub direct : Bytes → Dialed
  pub agent : Option (Bytes → Dialed)
  pub backend : Option (Bytes → Dialed)
  pub resolve : Bytes → Option Bytes
  pub uses_upstream_proxy : Bytes → Bool
  pub not_initialized : Bool
  pub backend_ready : Bool
  pub wait : Wait
  pub has_idle_tracker : Bool
  -- net.SplitHostPort and net.JoinHostPort
  pub split_host_port : Bytes → Option (Bytes × Bytes)
  pub join_host_port : Bytes → Bytes → Bytes

-- which dialer an address went to
pub data Way : Type 0 where
  direct_way agent_way backend_way : Way

pub data DialResult : Type 0 where
  dial_returned : Dialed → DialResult
  -- a call of a nil router
  dial_panicked : DialResult

-- What Dial returns and what it has called: the dialers with their addresses, IdleTracker.Touch,
-- Resolver.Invalidate and LazyInitializer.EnsureInitialized.
pub record DialRun : Type 0 where
  pub result : DialResult
  pub attempts : List (Way × Bytes)
  pub touched : Bool
  pub invalidated : List Bytes
  pub initializing : Bool

-- ProxyDialer.dialViaAgent, on the multiplexer
unfoldable pub agent_dial : Option (Bytes → Dialed) → Bytes → Dialed × List (Way × Bytes)
agent_dial none addr = (
  some (record {
    errno = none;
    message = codes "no agent connection available for vm-direct route";
  }),
  [],
)
agent_dial (some dial) addr = (dial addr, (Way.agent_way, addr) ∷ [])

-- ProxyDialer.dialViaAgent
unfoldable pub dial_via_agent : ProxyDialer → Bytes → Dialed × List (Way × Bytes)
unfolding agent_dial
dial_via_agent d addr = agent_dial d.agent addr

-- ProxyDialer.dialProxy, on the backend
unfoldable pub backend_dial :
    (Bytes → Dialed) → Option (Bytes → Dialed) → Bytes → Dialed × List (Way × Bytes)
backend_dial direct none addr = (direct addr, (Way.direct_way, addr) ∷ [])
backend_dial direct (some dial) addr = (dial addr, (Way.backend_way, addr) ∷ [])

-- ProxyDialer.dialProxy
unfoldable pub dial_proxy : ProxyDialer → Bytes → Dialed × List (Way × Bytes)
unfolding backend_dial
dial_proxy d addr = backend_dial d.direct d.backend addr

-- ProxyDialer.dialWithRoute
unfoldable pub dial_with_route : ProxyDialer → Bytes → Route → Dialed × List (Way × Bytes)
unfolding dial_via_agent dial_proxy
dial_with_route d addr route =
    if route == route_direct
    then (d.direct addr, (Way.direct_way, addr) ∷ [])
    else if route == route_vm_direct
    then dial_via_agent d addr
    else dial_proxy d addr

-- what Dial knows of its target: host and addr after the hosts table, port, hostsMapped
pub record Address : Type 0 where
  pub host : Bytes
  pub port : Bytes
  pub addr : Bytes
  pub hosts_mapped : Bool

abbrev pub no_text : Bytes → Bool
no_text [] = true
no_text (c ∷ s) = false

-- net.SplitHostPort with Dial's fallback: host and port
unfoldable pub split_address : ProxyDialer → Bytes → Bytes × Bytes
split_address d addr = elim (d.split_host_port addr) [ none ↦ (addr, []) | some hp ↦ hp ]

-- the route of the original name
unfoldable pub route_for : ProxyDialer → Bytes → Route
route_for d host = elim d.router [ none ↦ route_proxy | some r ↦ r.route_of host ]

-- the hosts mapping
unfoldable pub map_host : ProxyDialer → Bytes → Bytes → Bytes → Address
map_host d host port addr =
    let resolved : Bytes = elim d.router [ none ↦ host | some r ↦ r.resolved_host host ] in
    if bytes_eq resolved host
    then record { host = host; port = port; addr = addr; hosts_mapped = false }
    else record {
      host = resolved;
      port = port;
      addr = if no_text port then resolved else d.join_host_port resolved port;
      hosts_mapped = true;
    }

-- ProxyDialer.resolveAddr
unfoldable pub resolve_addr : ProxyDialer → Address → Bytes
resolve_addr d a = if a.hosts_mapped then a.addr else elim (d.resolve a.host) [
  | none ↦ a.addr
  | some ip ↦ if no_text a.port then ip else d.join_host_port ip a.port
]

-- a run that ends with one dial
unfoldable pub only : Bool → Dialed × List (Way × Bytes) → DialRun
only initializing (dialed, attempts) = record {
  result = DialResult.dial_returned dialed;
  attempts = attempts;
  touched = false;
  invalidated = [];
  initializing = initializing;
}

-- Dial behind a failure of the primary dial that allows a fallback
unfoldable pub fall_back :
    ProxyDialer → Address → Route → Bytes → Error → List (Way × Bytes) → DialRun
unfolding dial_with_route
fall_back d a route dial_addr err attempts =
    let invalidated = if bytes_eq dial_addr a.addr then [] else a.host ∷ [] in
    let stop : DialResult → DialRun = λ result. record {
      result = result;
      attempts = attempts;
      touched = false;
      invalidated = invalidated;
      initializing = d.not_initialized;
    } in
    elim d.router [
      | none ↦ stop DialResult.dial_panicked
      | some r ↦
          let next = r.fallback_of route in
          let (dialed, more) = dial_with_route d a.addr next in
          if next == "" then stop (DialResult.dial_returned (some err)) else record {
            result = DialResult.dial_returned dialed;
            attempts = attempts ++ more;
            touched = elim dialed [
              | none ↦ next == route_proxy && d.has_idle_tracker
              | some e ↦ false
            ];
            invalidated = invalidated;
            initializing = d.not_initialized;
          }
    ]

-- the address of the primary dial
unfoldable pub primary_addr : ProxyDialer → Address → Bytes
unfolding resolve_addr
primary_addr d a = if d.uses_upstream_proxy a.addr then a.addr else resolve_addr d a

-- Dial behind the primary dial
unfoldable pub after_primary :
    ProxyDialer → Address → Route → Bytes → Dialed → List (Way × Bytes) → DialRun
unfolding fall_back only is_fallbackable_error
after_primary d a route dial_addr none attempts = record (only d.not_initialized (none, attempts)) {
  touched = d.has_idle_tracker;
}
after_primary d a route dial_addr (some err) attempts =
    if is_fallbackable_error (some err)
    then fall_back d a route dial_addr err attempts
    else only d.not_initialized (some err, attempts)

-- Dial from the primary dial on
unfoldable pub dial_primary : ProxyDialer → Address → Route → DialRun
unfolding dial_proxy primary_addr after_primary
dial_primary d a route =
    let to = primary_addr d a in after_primary d a route to (dial_proxy d to).0 (dial_proxy d to).1

-- Dial behind the wait for the initialization
unfoldable pub after_wait : ProxyDialer → Address → Route → Wait → DialRun
unfolding dial_primary only
after_wait d a route wait_ready = dial_primary d a route
after_wait d a route (wait_failed err) = only true (some err, [])

-- the wait for the initialization, where it is needed
unfoldable pub wait_and_dial : ProxyDialer → Address → Route → DialRun
unfolding dial_primary after_wait
wait_and_dial d a route =
    if d.not_initialized then after_wait d a route d.wait else dial_primary d a route

-- RoutePreConnect, "" without a router
unfoldable pub pre_route : ProxyDialer → Bytes → Route
pre_route d host = elim d.router [ none ↦ "" | some r ↦ r.pre_connect_route host ]

-- Dial on the proxy route
unfoldable pub dial_backend : ProxyDialer → Address → Route → DialRun
unfolding wait_and_dial pre_route dial_with_route only
dial_backend d a route =
    let pre = pre_route d a.host in
    if (d.not_initialized || not d.backend_ready) && not (pre == "")
    then only d.not_initialized (dial_with_route d a.addr pre)
    else wait_and_dial d a route

-- ProxyDialer.Dial
unfoldable pub dial : ProxyDialer → Bytes → DialRun
unfolding split_address route_for map_host resolve_addr dial_via_agent dial_backend only
dial d addr =
    let (host, port) = split_address d addr in
    let route = route_for d host in
    let a = map_host d host port addr in
    if route == route_direct
    then only false (d.direct (resolve_addr d a), (Way.direct_way, resolve_addr d a) ∷ [])
    else if route == route_vm_direct
    then only false (dial_via_agent d (resolve_addr d a))
    else dial_backend d a route
