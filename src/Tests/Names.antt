-- ===== src/Tests/Names.antt =====
-- Tests of the cache of resolved names; the addresses are numbers.
use awsocks.Prelude.{
  ℕ, ◌+◌, ◌≤◌, ◌≡◌, refl, true, false, none, some, List, [], ◌∷◌, if◌then◌else◌, ltb, ◌==◌, arith,
  length, codes, to_lower, lower,
}
use awsocks.Dns.Cache.{
  Cache, default_max_cache_entries, new_cache, clamp_ttl, get, put, put_negative,
}
use awsocks.Dns.Cache.Bounds.{Operation, apply_operations, apply_operations-new_cache}
use awsocks.Dns.Cache.Expiry.{get-put}

abbrev two_puts : List (Operation ℕ)
two_puts =
    Operation.put_host 0 (codes "db") (7 ∷ []) [] 60
    ∷ Operation.put_host 1 (codes "web") (8 ∷ []) [] 60
    ∷ Operation.get_host 2 (codes "DB")
    ∷ Operation.put_failure 3 (codes "old")
    ∷ []

apply_operations-new_cache_example :
    length (apply_operations two_puts (new_cache 10 300 5 1)).entries
    ≤ (if 1 == 0 then default_max_cache_entries else 1)
apply_operations-new_cache_example =
    apply_operations-new_cache 10 300 5 1 two_puts (λ h. cc, (λ h. cc, (λ h. cc, (λ h. cc, tt))))

abbrev small_cache : Cache ℕ
small_cache = record {
  entries = [];
  min_ttl = 10;
  max_ttl = 300;
  negative_ttl = 5;
  max_entries = 1;
}

same_name : to_lower (codes "DB") ≡ to_lower (codes "db")
unfolding lower
same_name = refl

get-put_example :
    ((get 12 (codes "DB") (put 0 (codes "db") (7 ∷ []) [] 3 small_cache)).1 ≡ (
      if ltb 12 (0 + clamp_ttl 3 small_cache)
      then some (record {
        ipv4 = 7 ∷ [];
        ipv6 = [];
        expires_at = 0 + clamp_ttl 3 small_cache;
        negative = false;
      })
      else none))
    × (small_cache.min_ttl ≤ clamp_ttl 3 small_cache)
    × (clamp_ttl 3 small_cache ≤ small_cache.max_ttl)
    × ((get 12 (codes "DB") (put_negative 0 (codes "db") small_cache)).1 ≡ (
        if ltb 12 (0 + small_cache.negative_ttl)
        then some (record {
          ipv4 = [];
          ipv6 = [];
          expires_at = 0 + small_cache.negative_ttl;
          negative = true;
        })
        else none))
get-put_example =
    get-put 0 12 (codes "db") (codes "DB") (7 ∷ []) [] 3 small_cache same_name (omega arith)
      (omega arith)
