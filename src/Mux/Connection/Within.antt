-- ===== src/Mux/Connection/Within.antt =====
-- internal/mux/agent_mux.go: bytes of which some were dropped.
use mathlib.Core.Path.{subst}
use awsocks.Prelude.{◌≡◌, ◌⊎◌, refl, sym, ap, inl, inr, [], ◌∷◌, ◌++◌, Bytes, arith}

-- The first bytes are, in their order, some of the others.
abbrev pub Within : Bytes → Bytes → Type 0
Within xs [] = xs ≡ []
Within xs (y ∷ ys) = Within xs ys ⊎ ((rest : Bytes) × (xs ≡ y ∷ rest) × Within rest ys)

pub Within-refl : (xs : Bytes) → Within xs xs
Within-refl [] = refl
Within-refl (x ∷ xs) = inr (xs, refl, Within-refl xs)

pub Within-append :
    (xs ys us vs : Bytes) → Within xs ys → Within us vs → Within (xs ++ us) (ys ++ vs)
Within-append xs [] us vs e w = subst (λ x. Within (x ++ us) vs) (sym e) w
Within-append xs (y ∷ ys) us vs (inl later) w = inl (Within-append xs ys us vs later w)
Within-append xs (y ∷ ys) us vs (inr (rest, e, s)) w =
    inr (rest ++ us, ap (λ x. x ++ us) e, Within-append rest ys us vs s w)

Within-nil : (ys : Bytes) → Within [] ys
Within-nil [] = refl
Within-nil (y ∷ ys) = inl (Within-nil ys)

pub Within-front : (xs us ys : Bytes) → Within (xs ++ us) ys → Within xs ys
Within-front [] us ys w = Within-nil ys
Within-front (x ∷ xs) us [] e = absurd (ground (arith, e))
Within-front (x ∷ xs) us (y ∷ ys) (inl later) = inl (Within-front (x ∷ xs) us ys later)
Within-front (x ∷ xs) us (y ∷ ys) (inr (rest, e, s)) =
    let same : (x ≡ y) × (xs ++ us ≡ rest) = ground (arith, e) in
    inr
      (xs, ap (λ z. z ∷ xs) same.0, Within-front xs us ys (subst (λ z. Within z ys) (sym same.1) s))
