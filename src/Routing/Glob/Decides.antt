-- ===== src/Routing/Glob/Decides.antt =====
-- `glob_match` against the usual relation between a pattern with '*' and '?' and a text.
use mathlib.Core.Path.{subst}
use awsocks.Prelude.{
  ◌∙◌, not, ◌&&◌, ℕ, zero, suc, ◌<◌, ◌≤◌, ◌≡◌, ◌≢◌, refl, ap, sym, ◌↔◌, ◌⊎◌, inl, inr, Bool, true,
  false, [], ◌∷◌, arith, ◌==◌, Bytes, All, length, lower, to_lower, lower_idem, Bool-cases, ==_iff,
}
use awsocks.Routing.Glob.{drop_stars, any_suffix, after_stars, glob_loop, glob_match}

-- A '*' stands for any text, a '?' for any one character, any other character for itself.
pub data Matches : Bytes → Bytes → Type 0 where
  done : Matches [] []
  skip : {c : ℕ} {p s : Bytes} → c ≡ b'*' → Matches p s → Matches (c ∷ p) s
  eat : {c x : ℕ} {p s : Bytes} → c ≡ b'*' → Matches (c ∷ p) s → Matches (c ∷ p) (x ∷ s)
  one :
      {c x : ℕ} {p s : Bytes}
      → c ≢ b'*'
      → (c ≡ b'?') ⊎ (c ≡ x)
      → Matches p s
      → Matches (c ∷ p) (x ∷ s)

-- a text that `to_lower` leaves alone
abbrev pub IsLower : Bytes → Type 0
IsLower = All (λ c. lower c ≡ c)

pub to_lower-IsLower : (s : Bytes) → IsLower (to_lower s)
to_lower-IsLower [] = tt
to_lower-IsLower (c ∷ s) = (lower_idem c, to_lower-IsLower s)

pub to_lower_fixed : (s : Bytes) → IsLower s → to_lower s ≡ s
to_lower_fixed [] h = refl
to_lower_fixed (c ∷ s) (p, h) = cc (to_lower_fixed s h)

pub length-to_lower : (s : Bytes) → length (to_lower s) ≡ length s
length-to_lower [] = refl
length-to_lower (c ∷ s) = ap suc (length-to_lower s)

drop_stars-IsLower : (p : Bytes) → IsLower p → IsLower (drop_stars p)
unfolding drop_stars
drop_stars-IsLower [] h = tt
drop_stars-IsLower (c ∷ p) (e, h) = elim (Bool-cases (c == b'*')) [
  | inl star ↦ rw star (drop_stars-IsLower p h)
  | inr plain ↦ rw plain (e, h)
]

length-drop_stars : (p : Bytes) → length (drop_stars p) ≤ length p
unfolding drop_stars
length-drop_stars [] = omega arith
length-drop_stars (c ∷ p) = ground (arith, length-drop_stars p)

star_any : (c : ℕ) → c ≡ b'*' → (s : Bytes) → Matches (c ∷ []) s
star_any c e [] = skip e done
star_any c e (x ∷ s) = eat e (star_any c e s)

star_more :
    {c d : ℕ} {p s : Bytes} → d ≡ b'*' → Matches (c ∷ p) s → c ≡ b'*' → Matches (c ∷ d ∷ p) s
star_more ed (skip e m) _ = skip e (skip ed m)
star_more ed (eat e m) ec = eat e (star_more ed m ec)
star_more ed (one ne _ m) ec = absurd (ne ec)

star_less :
    {c d : ℕ} {p s : Bytes} → d ≡ b'*' → Matches (c ∷ d ∷ p) s → c ≡ b'*' → Matches (c ∷ p) s
star_less {p = p} {s = s} ed (skip e m) _ = subst (λ x. Matches (x ∷ p) s) (ed ∙ sym e) m
star_less ed (eat e m) ec = eat e (star_less ed m ec)
star_less ed (one ne _ m) ec = absurd (ne ec)

-- a run of asterisks is as good as one
stars-Matches : (c : ℕ) (p s : Bytes) → c ≡ b'*' → Matches (c ∷ drop_stars p) s ↔ Matches (c ∷ p) s
unfolding drop_stars
stars-Matches c [] s e = (λ m. m, λ m. m)
stars-Matches c (d ∷ p) s e = elim (Bool-cases (d == b'*')) [
  | inl star ↦
      let ed = (==_iff d b'*').0 star in
      (
        λ m. star_more ed ((stars-Matches c p s e).0 (rw star at m)) e,
        λ m. rw star ((stars-Matches c p s e).1 (star_less ed m e)),
      )
  | inr plain ↦ (λ m. rw plain at m, λ m. rw plain m)
]

any_suffix_sound :
    (try : Bytes → Bool) (c : ℕ) (q s : Bytes)
    → c ≡ b'*'
    → ((t : Bytes) → IsLower t → try t ≡ true → Matches q t)
    → IsLower s
    → any_suffix try s ≡ true
    → Matches (c ∷ q) s
unfolding any_suffix
any_suffix_sound try c q [] e sound l h = skip e (sound [] l h)
any_suffix_sound try c q (x ∷ s) e sound l h = elim (Bool-cases (try (x ∷ s))) [
  | inl now ↦ skip e (sound (x ∷ s) l now)
  | inr later ↦ eat e (any_suffix_sound try c q s e sound l.1 (rw later at h))
]

any_suffix_complete :
    (try : Bytes → Bool) {c : ℕ} {q s : Bytes}
    → c ≡ b'*'
    → ((t : Bytes) → IsLower t → Matches q t → try t ≡ true)
    → IsLower s
    → Matches (c ∷ q) s
    → any_suffix try s ≡ true
unfolding any_suffix
any_suffix_complete try {s = []} e complete l (skip _ m) = complete [] l m
any_suffix_complete try {s = x ∷ s} e complete l (skip _ m) = ground (arith, complete (x ∷ s) l m)
any_suffix_complete try e complete l (eat {x = x} {s = s} _ m) =
    ground (arith, any_suffix_complete try e complete l.1 m)
any_suffix_complete try e complete l (one ne _ m) = absurd (ne e)

after_stars-Matches :
    (try : Bytes → Bytes → Bool) (c : ℕ) (q s : Bytes)
    → c ≡ b'*'
    → ((t : Bytes) → IsLower t → (try q t ≡ true) ↔ Matches q t)
    → IsLower s
    → (after_stars try q s ≡ true) ↔ Matches (c ∷ q) s
unfolding after_stars
after_stars-Matches try c [] s e spec l = (λ _. star_any c e s, λ _. refl)
after_stars-Matches try c (d ∷ q) s e spec l = (
  any_suffix_sound (try (d ∷ q)) c (d ∷ q) s e (λ t lt. (spec t lt).0) l,
  any_suffix_complete (try (d ∷ q)) e (λ t lt. (spec t lt).1) l,
)

-- the meaning of a recursive call, on a shorter pattern
abbrev Decided : ℕ → Type 0
Decided f =
    (p s : Bytes) → length p < f → IsLower p → IsLower s → (glob_loop f p s ≡ true) ↔ Matches p s

star_branch :
    (f : ℕ)
    → Decided f
    → (c : ℕ) (p s : Bytes) → c ≡ b'*'
    → length p < f
    → IsLower p
    → IsLower s
    → (after_stars (λ q t. glob_loop f (to_lower q) (to_lower t)) (drop_stars p) s ≡ true)
      ↔ Matches (c ∷ p) s
star_branch f ih c p s e fuel lp ls =
    let lq = drop_stars-IsLower p lp in
    let spec =
      after_stars-Matches (λ q t. glob_loop f (to_lower q) (to_lower t)) c (drop_stars p) s e
        (λ t lt.
          rw (to_lower_fixed (drop_stars p) lq, to_lower_fixed t lt)
            (ih (drop_stars p) t (omega (arith, length-drop_stars p)) lq lt))
        ls in
    let stars = stars-Matches c p s e in (λ h. stars.0 (spec.0 h), λ m. spec.1 (stars.1 m))

one_inv :
    {c x : ℕ} {p s : Bytes}
    → Matches (c ∷ p) (x ∷ s)
    → c ≢ b'*'
    → ((c ≡ b'?') ⊎ (c ≡ x)) × Matches p s
one_inv (skip e m) ne = absurd (ne e)
one_inv (eat e m) ne = absurd (ne e)
one_inv (one _ same m) _ = (same, m)

no_match_end : {c : ℕ} {p : Bytes} → c ≢ b'*' → ¬ Matches (c ∷ p) []
no_match_end ne (skip e m) = ne e

plain_ne : (c : ℕ) → (c == b'*') ≡ false → c ≢ b'*'
plain_ne c h = ground arith

differs : (c x : ℕ) → (not (c == b'?') && not (c == x)) ≡ true → ¬ ((c ≡ b'?') ⊎ (c ≡ x))
differs c x h = ground arith

agrees : (c x : ℕ) → (not (c == b'?') && not (c == x)) ≡ false → (c ≡ b'?') ⊎ (c ≡ x)
agrees c x h = ground arith

one_branch :
    (f : ℕ)
    → Decided f
    → (c x : ℕ) (p s : Bytes) → (c == b'*') ≡ false
    → length p < f
    → IsLower p
    → IsLower s
    → (elim (not (c == b'?') && not (c == x)) [ true ↦ false | false ↦ glob_loop f p s ] ≡ true)
      ↔ Matches (c ∷ p) (x ∷ s)
one_branch f ih c x p s plain fuel lp ls = elim (Bool-cases (not (c == b'?') && not (c == x))) [
  | inl differ ↦
      rw differ (λ h. cc, λ m. absurd (differs c x differ (one_inv m (plain_ne c plain)).0))
  | inr same ↦
      let rec = ih p s fuel lp ls in
      rw same (
        λ h. one (plain_ne c plain) (agrees c x same) (rec.0 h),
        λ m. rec.1 (one_inv m (plain_ne c plain)).1,
      )
]

glob_loop-Matches : (f : ℕ) → Decided f
unfolding glob_loop
glob_loop-Matches zero p s fuel lp ls = absurd (omega arith)
glob_loop-Matches (suc f) [] [] fuel lp ls = (λ _. done, λ _. refl)
glob_loop-Matches (suc f) [] (x ∷ s) fuel lp ls = (λ h. cc, λ m. elim m [ ])
glob_loop-Matches (suc f) (c ∷ p) [] fuel lp ls = elim (Bool-cases (c == b'*')) [
  | inl star ↦
      rw (star, glob_loop)
        (star_branch f (glob_loop-Matches f) c p [] ((==_iff c b'*').0 star) (omega arith) lp.1 ls)
  | inr plain ↦ rw (plain, glob_loop) (λ h. cc, λ m. absurd (no_match_end (λ e. ground arith) m))
]
glob_loop-Matches (suc f) (c ∷ p) (x ∷ s) fuel lp ls = elim (Bool-cases (c == b'*')) [
  | inl star ↦
      rw (star, glob_loop)
        (star_branch f (glob_loop-Matches f) c p (x ∷ s) ((==_iff c b'*').0 star) (omega arith) lp.1
          ls)
  | inr plain ↦
      rw (plain, glob_loop)
        (one_branch f (glob_loop-Matches f) c x p s plain (omega arith) lp.1 ls.1)
]

-- `glob_match` answers exactly whether the pattern matches the text, case ignored, for every
-- pattern and text: its fuel is always enough.
pub glob_match-Matches :
    (pattern str : Bytes)
    → (glob_match pattern str ≡ true) ↔ Matches (to_lower pattern) (to_lower str)
unfolding glob_match
glob_match-Matches pattern str =
    glob_loop-Matches (suc (length pattern)) (to_lower pattern) (to_lower str)
      (omega (arith, length-to_lower pattern)) (to_lower-IsLower pattern) (to_lower-IsLower str)
