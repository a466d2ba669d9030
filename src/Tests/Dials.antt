-- ===== src/Tests/Dials.antt =====
-- Tests of the dialer: a target behind a backend that fails, with a fallback to the agent.
use text.Mathlib.Text.{◌==◌}
use awsocks.Prelude.{◌≡◌, refl, true, false, none, some, Bytes, codes}
use awsocks.Routing.Router.{route_proxy, route_vm_direct, route_direct, fallback_in}
use awsocks.Routing.Fallback.{Errno}
use awsocks.Proxy.Dialer.{Router, ProxyDialer, Dialed, Wait, dial}
use awsocks.Proxy.Dialer.Isolation.{went_direct, dial_isolated}

abbrev vm_router : Router
vm_router = record {
  route_of = λ host. route_proxy;
  resolved_host = λ host. codes "10.0.0.7";
  pre_connect_route = λ host. route_vm_direct;
  fallback_of = fallback_in true;
}

abbrev unreachable_backend : Bytes → Dialed
unreachable_backend addr = some (record { errno = some Errno.ehostunreach; message = codes "no" })

abbrev vm_dialer : ProxyDialer
vm_dialer = record {
  router = some vm_router;
  direct = λ addr. none;
  agent = some (λ addr. none);
  backend = some unreachable_backend;
  resolve = λ host. none;
  uses_upstream_proxy = λ addr. false;
  not_initialized = false;
  backend_ready = true;
  wait = Wait.wait_ready;
  has_idle_tracker = true;
  split_host_port = λ addr. some (addr, codes "22");
  join_host_port = λ host port. host;
}

proxy_fallback : (vm_router.fallback_of route_proxy == route_direct) ≡ false
unfolding fallback_in
proxy_fallback = refl

dial_isolated_example : went_direct (dial vm_dialer (codes "db")).attempts ≡ false
dial_isolated_example =
    dial_isolated vm_dialer vm_router unreachable_backend refl refl (codes "db") refl proxy_fallback
      refl
