-- ===== src/Dns/Build/Steps.antt =====
-- internal/dns/build.go: what each step of buildRule yields.
use text.Mathlib.Text.{◌==◌ as text_eq}
use awsocks.Prelude.{
  ℕ, ◌<◌, ◌≤◌, ◌≡◌, refl, Bool, true, ◌&&◌, Option, none, some, List, [], ◌∷◌, inl, inr, Bool-cases,
  ltb, Bytes, String, arith, length, All, suc, bytes_eq,
}
use awsocks.Prelude.Result.{Yields, Result, ok, err, ◌>>=◌}
use awsocks.Routing.Router.{route_proxy, is_valid}
use awsocks.Dns.Config.{
  HostPorts, ServerError, normalize_server, check_server, trim_space, is_port, digits_from,
  default_port, is_failure_mode, is_family, failure_fallthrough, family_ipv4,
}
use awsocks.Dns.Build.{
  Duration, ParseDuration, Field, BuildError, check_duration, parse_duration, choose,
  normalize_servers, given_servers, check_order, pos, negsuc,
}

check_duration-Yields :
    (field : Field) (value : String) (o : Option Duration)
    → Yields (λ n. 0 < n) (check_duration field value o)
unfolding check_duration
check_duration-Yields field value none = tt
check_duration-Yields field value (some (pos n)) = elim (Bool-cases (ltb 0 n)) [
  | inl positive ↦ rw positive (ground (arith, positive))
  | inr zero_long ↦ rw zero_long tt
]
check_duration-Yields field value (some (negsuc n)) = tt

pub parse_duration-Yields :
    (parse : ParseDuration) (field : Field) (value : String) (fallback : ℕ)
    → 0 < fallback
    → Yields (λ n. 0 < n) (parse_duration parse field value fallback)
unfolding parse_duration
parse_duration-Yields parse field value fallback positive = elim (Bool-cases (text_eq value "")) [
  | inl unset ↦ rw unset positive
  | inr given ↦ rw given (check_duration-Yields field value (parse value))
]

pub choose-Yields :
    (valid : String → Bool) (wrong : String → BuildError) (value fallback : String)
    → valid fallback ≡ true
    → Yields (λ x. valid x ≡ true) (choose valid wrong value fallback)
unfolding choose
choose-Yields valid wrong value fallback default_valid = elim (Bool-cases (text_eq value "")) [
  | inl unset ↦ rw unset default_valid
  | inr given ↦
      rw given (elim (Bool-cases (valid value)) [ inl good ↦ rw good good | inr bad ↦ rw bad tt ])
]

pub check_order-Yields :
    (min_ttl max_ttl : ℕ)
    → 0 < max_ttl
    → Yields (λ _. min_ttl ≤ max_ttl) (check_order min_ttl max_ttl)
unfolding check_order
check_order-Yields min_ttl max_ttl positive =
    elim (Bool-cases (ltb 0 max_ttl && ltb max_ttl min_ttl)) [
      | inl above ↦ rw above tt
      | inr fine ↦ rw fine (ground (arith, fine, positive))
    ]

default_port-is_port : is_port default_port ≡ true
unfolding is_port digits_from
default_port-is_port = refl

-- a server in the form of net.JoinHostPort, an address and a port
abbrev pub IsServer : HostPorts → Bytes → Type 0
IsServer net s =
    (host : Bytes) × (port : Bytes) × (s ≡ net.join_host_port host port)
    × (net.is_ip host ≡ true)
    × (is_port port ≡ true)

check_server-Yields :
    (net : HostPorts) (server : Bytes) (at : Bytes × Bytes)
    → Yields (IsServer net) (check_server net server at)
unfolding check_server
check_server-Yields net server (host, port) = elim (Bool-cases (net.is_ip host)) [
  | inr name ↦ rw name tt
  | inl ip ↦ rw ip (elim (Bool-cases (bytes_eq port [])) [
    | inl unset ↦ rw unset (host, default_port, refl, ip, default_port-is_port)
    | inr given ↦ rw given (elim (Bool-cases (is_port port)) [
      | inl good ↦ rw good (host, port, refl, ip, good)
      | inr bad ↦ rw bad tt
    ])
  ])
]

normalize_server-Yields :
    (net : HostPorts) (server : Bytes) → Yields (IsServer net) (normalize_server net server)
unfolding normalize_server
normalize_server-Yields net server = elim (Bool-cases (bytes_eq (trim_space server) [])) [
  | inl blank ↦ rw blank tt
  | inr given ↦ rw given (check_server-Yields net server _)
]

-- the servers of a rule, as many as are given
Servers : HostPorts → ℕ → List Bytes → Type 0
Servers net n ss = All (IsServer net) ss × (length ss ≡ n)

one_more :
    (net : HostPorts) (ss : List Bytes) (r : Result ServerError Bytes)
    (rest : Result BuildError (List Bytes))
    → Yields (IsServer net) r
    → Yields (Servers net (length ss)) rest
    → Yields (Servers net (suc (length ss))) (elim r [
      | err e ↦ err (BuildError.bad_server e)
      | ok server ↦ rest >>= λ servers. ok (server ∷ servers)
    ])
unfolding Servers
one_more net ss (err e) rest p q = tt
one_more net ss (ok server) (err e) p q = tt
one_more net ss (ok server) (ok servers) p q = ((p, q.0), omega (arith, q.1))

normalize_servers-Yields :
    (net : HostPorts) (ss : List Bytes)
    → Yields (Servers net (length ss)) (normalize_servers net ss)
unfolding normalize_servers Servers
normalize_servers-Yields net [] = (tt, refl)
normalize_servers-Yields net (s ∷ ss) =
    one_more net ss (normalize_server net s) (normalize_servers net ss)
      (normalize_server-Yields net s) (normalize_servers-Yields net ss)

some_given :
    (net : HostPorts) (ss : List Bytes) (r : Result BuildError (List Bytes))
    → Yields (Servers net (suc (length ss))) r
    → Yields (λ servers. All (IsServer net) servers × (0 < length servers)) r
unfolding Servers
some_given net ss (err e) w = tt
some_given net ss (ok servers) w = (w.0, omega (arith, w.1))

pub route_proxy-is_valid : is_valid route_proxy ≡ true
unfolding is_valid
route_proxy-is_valid = refl

pub failure_fallthrough-is_failure_mode : is_failure_mode failure_fallthrough ≡ true
unfolding is_failure_mode
failure_fallthrough-is_failure_mode = refl

pub family_ipv4-is_family : is_family family_ipv4 ≡ true
unfolding is_family
family_ipv4-is_family = refl

pub given_servers-Yields :
    (net : HostPorts) (ss : List Bytes)
    → Yields (λ servers. All (IsServer net) servers × (0 < length servers)) (given_servers net ss)
unfolding given_servers
given_servers-Yields net [] = tt
given_servers-Yields net (s ∷ ss) =
    some_given net ss (normalize_servers net (s ∷ ss)) (normalize_servers-Yields net (s ∷ ss))
