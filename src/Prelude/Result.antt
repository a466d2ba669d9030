-- ===== src/Prelude/Result.antt =====
-- A value or an error, and what follows a value.
use awsocks.Prelude.{◌≡◌, sym, arith}

pub data Result (E A : Type 0) : Type 0 where
  ok : A → Result E A
  err : E → Result E A

infixl 5 ◌>>=◌
abbrev pub ◌>>=◌ : {E A B : Type 0} → Result E A → (A → Result E B) → Result E B
ok a >>= f = f a
err e >>= f = err e

-- a value of which something holds, where there is one
abbrev pub Yields : {E A : Type 0} → (A → Type 0) → Result E A → Type 0
Yields P (ok a) = P a
Yields P (err e) = Unit

-- P of the first step, and then Q of what follows
pub Yields-bind :
    {E A B : Type 0}
    → (P : A → Type 0) (Q : B → Type 0) (r : Result E A) (f : A → Result E B) → Yields P r
    → ((a : A) → P a → Yields Q (f a))
    → Yields Q (r >>= f)
Yields-bind P Q (ok a) f p k = k a p
Yields-bind P Q (err e) f p k = tt

-- what holds of a value that is known
pub of_yields :
    {E A : Type 0} → (P : A → Type 0) (r : Result E A) (a : A) → r ≡ ok a → Yields P r → P a
of_yields P (ok b) a e w = let same : b ≡ a = ground (arith, e) in rw (sym same) w
of_yields P (err x) a e w = absurd (ground (arith, e))
