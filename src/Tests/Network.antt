-- ===== src/Tests/Network.antt =====
-- A small instance of the parsers of package net: the texts that begin with '1' are the addresses
-- and the networks, and a network holds every address.
use awsocks.Prelude.{
  ◌≡◌, refl, Bool, true, Option, none, some, [], ◌∷◌, ◌++◌, if◌then◌else◌, arith, Bytes, codes,
  has_prefix, to_lower, lower,
}
use awsocks.Routing.Matcher.{Net}
use awsocks.Routing.Matcher.Total.{NetLaws}

unfoldable pub starts_with_one : Bytes → Bool
unfolding has_prefix
starts_with_one s = has_prefix s (codes "1")

unfoldable pub as_address : Bytes → Option (Unit {0})
unfolding starts_with_one
as_address s = if starts_with_one s then some tt else none

abbrev pub small_net : Net
small_net = record {
  Ip = Unit {0};
  Network = Unit {0};
  parse_ip = as_address;
  parse_cidr = as_address;
  in_network = λ _ _. true;
}

as_address-append :
    (p suffix : Bytes) (ip : Unit {0})
    → as_address p ≡ some ip
    → (n : Unit {0}) × (as_address (p ++ suffix) ≡ some n)
unfolding as_address has_prefix
as_address-append [] suffix ip h = cc
as_address-append (c ∷ p) suffix ip h = (tt, ground arith)

as_address-to_lower : (p : Bytes) → as_address (to_lower p) ≡ as_address p
unfolding as_address has_prefix lower
as_address-to_lower [] = refl
as_address-to_lower (c ∷ p) = ground arith

pub small_net-NetLaws : NetLaws small_net
small_net-NetLaws = record {
  full_v6 = λ p ip h _. as_address-append p (codes "/128") ip h;
  full_v4 = λ p ip h _. as_address-append p (codes "/32") ip h;
  parse_ip-to_lower = as_address-to_lower;
}
