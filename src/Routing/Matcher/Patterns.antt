-- ===== src/Routing/Matcher/Patterns.antt =====
-- What the patterns of a configuration mean.
use awsocks.Prelude.{
  bytes_eq_refl, if◌then◌else◌, ℕ, ◌-◌, ◌≡◌, refl, ap, sym, ◌∙◌, ◌↔◌, ◌⊎◌, inl, inr, true, false,
  some, [], ◌∷◌, ◌++◌, arith, Bytes, codes, length, drop, length-append, take, take-append-drop,
  drop-append, lower, to_lower, bytes_eq, bytes_eq_iff, has_prefix, has_suffix, trim_prefix,
  contains, Bool-cases,
}
use awsocks.Routing.Matcher.{Net, domain_matcher, match_domain, parse_matcher, match_host}

has_suffix-append : (front suffix : Bytes) → has_suffix (front ++ suffix) suffix ≡ true
unfolding has_suffix
has_suffix-append front suffix =
    let n : length (front ++ suffix) - length suffix ≡ length front =
      omega (arith, length-append front suffix) in
    rw (n, drop-append front suffix)
      (ground (arith, length-append front suffix, bytes_eq_refl suffix))

ending :
    (s suffix : Bytes) → has_suffix s suffix ≡ true → drop (length s - length suffix) s ≡ suffix
unfolding has_suffix
ending s suffix h = ground (arith, bytes_eq_iff (drop (length s - length suffix) s) suffix)

-- strings.HasSuffix finds exactly the endings of a text
has_suffix_iff :
    (s suffix : Bytes) → (has_suffix s suffix ≡ true) ↔ ((front : Bytes) × (s ≡ front ++ suffix))
has_suffix_iff s suffix = (
  λ h. (
    take (length s - length suffix) s,
    sym (take-append-drop (length s - length suffix) s)
        ∙ ap (◌++◌ (take (length s - length suffix) s)) (ending s suffix h),
  ),
  λ (front, e). rw e (has_suffix-append front suffix),
)

-- the test of the wildcard branch, on the lowercase host
suffix_test_iff :
    (host name : Bytes)
    → ((if has_suffix host (b'.' ∷ name) then true else bytes_eq host name) ≡ true)
      ↔ ((host ≡ name) ⊎ ((front : Bytes) × (host ≡ front ++ (b'.' ∷ name))))
suffix_test_iff host name =
    let suffix = has_suffix_iff host (b'.' ∷ name) in
    let same = bytes_eq_iff host name in
    elim (Bool-cases (has_suffix host (b'.' ∷ name))) [
      | inl ends_so ↦ rw ends_so (λ _. inr (suffix.0 ends_so), λ _. refl)
      | inr other ↦
          rw other
            (λ h. inl (same.0 h), elim [ inl e ↦ same.1 e | inr found ↦ cc (suffix.1 found) ])
    ]

-- The pattern "*." followed by a name matches a host exactly when the host, in lowercase, is that
-- name in lowercase or ends in a dot and that name.
pub match_domain_star :
    (name host : Bytes)
    → (match_domain (domain_matcher (codes "*." ++ name)) host ≡ true) ↔ (
        (to_lower host ≡ to_lower name)
        ⊎ ((front : Bytes) × (to_lower host ≡ front ++ (b'.' ∷ to_lower name))))
unfolding match_domain domain_matcher has_prefix trim_prefix lower
match_domain_star name host = suffix_test_iff (to_lower host) (to_lower name)

no_star_prefix : (s : Bytes) → contains s (codes "*") ≡ false → has_prefix s (codes "*.") ≡ false
unfolding contains has_prefix
no_star_prefix [] h = refl
no_star_prefix (c ∷ s) h = ground arith

-- without a '*' a domain matcher compares whole names
match_domain_exact :
    (c : ℕ) (pattern host : Bytes)
    → contains (c ∷ pattern) (codes "*") ≡ false
    → match_domain (domain_matcher (c ∷ pattern)) host
      ≡ bytes_eq (to_lower host) (to_lower (c ∷ pattern))
unfolding match_domain domain_matcher
match_domain_exact c pattern host h = rw (no_star_prefix (c ∷ pattern) h, h)

empty_question : ¬ (contains [] (codes "?") ≡ true)
unfolding contains has_prefix
empty_question h = cc

-- A pattern with a '?' and neither '*' nor '/' matches, whatever the case, the hosts that are spelled
-- like the pattern and no others: the '?' is no wildcard there.
pub match_host_question :
    (net : Net) (pattern host : Bytes)
    → contains pattern (codes "?") ≡ true
    → contains pattern (codes "*") ≡ false
    → contains pattern (codes "/") ≡ false
    → match_host net (parse_matcher net pattern) host
      ≡ some (bytes_eq (to_lower host) (to_lower pattern))
unfolding match_host parse_matcher
match_host_question net [] host question star slash = absurd (empty_question question)
match_host_question net (c ∷ pattern) host question star slash =
    rw (slash, star, question) (ap some (match_domain_exact c pattern host star))
