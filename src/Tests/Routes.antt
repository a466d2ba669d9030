-- ===== src/Tests/Routes.antt =====
-- Tests of the routing: a router with a pattern of every kind.
use awsocks.Prelude.{
  ◌≡◌, ◌↔◌, ◌⊎◌, refl, true, false, ◌&&◌, none, some, [], ◌∷◌, ◌++◌, if◌then◌else◌, Bytes, bytes_eq,
  codes, contains, has_prefix, to_lower,
}
use awsocks.Routing.Glob.{glob_match}
use awsocks.Routing.Glob.Decides.{Matches, glob_match-Matches}
use awsocks.Routing.Matcher.{domain_matcher, match_domain, match_host, parse_matcher}
use awsocks.Routing.Matcher.Patterns.{match_domain_star, match_host_question}
use awsocks.Routing.Router.{
  Config, route_proxy, route_direct, route_vm_direct, new_router, route, route_pre_connect,
  resolve_host,
}
use awsocks.Routing.Router.Laws.{
  covered, route-new_router, route_pre_connect-new_router, route-to_lower,
}
use awsocks.Routing.Router.Hosts.{last_entry, resolve_host-new_router}
use awsocks.Tests.Network.{small_net, small_net-NetLaws}

abbrev office : Config
office = record {
  default_route = route_direct;
  proxy = codes "*.internal" ∷ codes "10.0.0.0/8" ∷ [];
  direct = codes "www.internal" ∷ [];
  vm_direct = codes "db-??.internal" ∷ [];
  hosts = (codes "DB.internal", codes "10.0.0.7") ∷ [];
  pre_connect_direct = codes "login.internal" ∷ [];
  pre_connect_vm_direct = codes "*.boot" ∷ [];
}

glob_match-Matches_example :
    (glob_match (codes "a*.Com") (codes "abc.com") ≡ true)
    ↔ Matches (to_lower (codes "a*.Com")) (to_lower (codes "abc.com"))
glob_match-Matches_example = glob_match-Matches (codes "a*.Com") (codes "abc.com")

match_domain_star_example :
    (match_domain (domain_matcher (codes "*." ++ codes "Example")) (codes "www.example") ≡ true) ↔ (
      (to_lower (codes "www.example") ≡ to_lower (codes "Example"))
      ⊎ ((front : Bytes) × (to_lower (codes "www.example")
            ≡ front ++ (b'.' ∷ to_lower (codes "Example")))))
match_domain_star_example = match_domain_star (codes "Example") (codes "www.example")

match_host_question_example :
    match_host small_net (parse_matcher small_net (codes "db-?")) (codes "db-1")
    ≡ some (bytes_eq (to_lower (codes "db-1")) (to_lower (codes "db-?")))
unfolding contains has_prefix
match_host_question_example =
    match_host_question small_net (codes "db-?") (codes "db-1") refl refl refl

route-new_router_example :
    route small_net (new_router small_net office true) (codes "db-01.internal")
    ≡ some (
        if true && covered small_net office.vm_direct (codes "db-01.internal")
        then route_vm_direct
        else if covered small_net office.direct (codes "db-01.internal")
        then route_direct
        else if covered small_net office.proxy (codes "db-01.internal")
        then route_proxy
        else office.default_route)
route-new_router_example =
    route-new_router small_net small_net-NetLaws office true (codes "db-01.internal")

route_pre_connect-new_router_example :
    route_pre_connect small_net (new_router small_net office false) (codes "x.boot")
    ≡ some (
        if false && covered small_net office.pre_connect_vm_direct (codes "x.boot")
        then route_vm_direct
        else if covered small_net office.pre_connect_direct (codes "x.boot")
        then route_direct
        else "")
route_pre_connect-new_router_example =
    route_pre_connect-new_router small_net small_net-NetLaws office false (codes "x.boot")

route-to_lower_example :
    (route small_net (new_router small_net office true) (to_lower (codes "WWW.internal"))
      ≡ route small_net (new_router small_net office true) (codes "WWW.internal"))
    × (route_pre_connect small_net
          (new_router small_net office true)
          (to_lower (codes "WWW.internal"))
        ≡ route_pre_connect small_net (new_router small_net office true) (codes "WWW.internal"))
route-to_lower_example =
    route-to_lower small_net small_net-NetLaws (new_router small_net office true)
      (codes "WWW.internal")

resolve_host-new_router_example :
    resolve_host small_net (new_router small_net office false) (codes "db.INTERNAL")
    ≡ elim (last_entry (to_lower (codes "db.INTERNAL")) office.hosts) [
      | some addr ↦ addr
      | none ↦ codes "db.INTERNAL"
    ]
resolve_host-new_router_example =
    resolve_host-new_router small_net office false (codes "db.INTERNAL")
