-- ===== src/Dns/Resolver/Policy.antt =====
-- internal/dns/resolver.go: when Resolve fails, and what Invalidate forgets.
use text.Mathlib.Text.{◌==◌ as text_eq}
use awsocks.Prelude.{
  ℕ, ◌≡◌, refl, ap, ◌∙◌, true, none, some, List, [], ◌∷◌, Bytes, to_lower, arith, All,
  bytes_eq_refl,
}
use awsocks.Prelude.Maps.{map_get, map_delete, map_get-map_delete, bytes_key}
use awsocks.Routing.Matcher.{Net}
use awsocks.Dns.Config.{Rule, failure_fail}
use awsocks.Dns.Cache.{Cache, Entry, get, delete}
use awsocks.Dns.Cache.Expiry.{get_lem, fresh_only}
use awsocks.Dns.Resolver.{
  Slot, Resolution, on_failure, resolution_of, match_rule, get_slot, forget, invalidate,
}

on_failure-fail :
    (rule : Rule)
    → on_failure rule ≡ Resolution.resolve_failed
    → text_eq rule.on_failure failure_fail ≡ true
unfolding on_failure
on_failure-fail rule e = ground (arith, e)

resolution_of-fail :
    (rule : Rule) (e : Entry Bytes)
    → resolution_of rule e ≡ Resolution.resolve_failed
    → text_eq rule.on_failure failure_fail ≡ true
unfolding resolution_of on_failure
resolution_of-fail rule e h = ground (arith, h)

forget-get :
    (now : ℕ) (host other : Bytes) (c : Cache Bytes)
    → to_lower other ≡ to_lower host
    → (get now other (delete host c)).1 ≡ none
unfolding delete
forget-get now host other c same =
    let key = to_lower host in
    let removed : map_get key (map_delete key c.entries) ≡ none =
      map_get-map_delete key key c.entries ∙ rw (bytes_eq_refl key) refl in
    get_lem now other (delete host c)
    ∙ ap (fresh_only now) (ap (λ k. map_get k (map_delete key c.entries)) same ∙ removed)

module _ (net : Net) where
  -- the rule that decides on a name
  abbrev pub Decides : Bytes → List (Slot net) → Slot net → Type 0
  Decides host slots slot =
      (i : ℕ) × (match_rule net slots host ≡ some (some i)) × (get_slot net i slots ≡ some slot)

  -- After Invalidate of a name, no rule's cache holds an entry of it, in any case of its letters.
  pub invalidate-get :
      (now : ℕ) (host other : Bytes) (slots : List (Slot net))
      → to_lower other ≡ to_lower host
      → All (λ slot. (get now other slot.cache).1 ≡ none) (invalidate net host slots)
  unfolding invalidate forget
  invalidate-get now host other [] same = tt
  invalidate-get now host other (slot ∷ slots) same =
      (forget-get now host other slot.cache same, invalidate-get now host other slots same)
