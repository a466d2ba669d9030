-- ===== src/Mux/Death/Answers.antt =====
-- internal/mux/agent_mux.go, declareDead: its loop over the pending calls.
use mathlib.Core.Path.{subst}
use awsocks.Prelude.{
  ℕ, ◌≡◌, inl, inr, refl, sym, Bool, true, ◌&&◌, none, some, List, [], ◌∷◌, ◌==◌, ==_iff, any,
  Bytes, arith, Option-cases, Bool-cases,
}
use awsocks.Prelude.Maps.{map_get, map_set, map_get-map_set, nat_eq}
use awsocks.Mux.State.{ConnResult, DialCall}
use awsocks.Mux.Teardown.{offer, fail_all}

-- an entry of a table, as a list
abbrev pub listed : ℕ → ℕ → List (ℕ × ℕ) → Bool
listed id h = any (λ e. (e.0 == id) && (e.1 == h))

pub listed-map_get : (id h : ℕ) (m : List (ℕ × ℕ)) → map_get id m ≡ some h → listed id h m ≡ true
unfolding map_get
listed-map_get id h [] e = absurd (ground (arith, e))
listed-map_get id h ((j, k) ∷ m) e =
    ground (arith, e, listed-map_get id h m, ==_iff j id, ==_iff k h)

-- a call, and one whose channel holds a result
abbrev pub Asked : List (ℕ × DialCall) → ℕ → Type 0
Asked calls d = (call : DialCall) × (map_get d calls ≡ some call)

abbrev pub Answered : List (ℕ × DialCall) → ℕ → Type 0
Answered calls d =
    (call : DialCall) × (result : ConnResult) × (rest : List ConnResult) × (map_get d calls
      ≡ some call)
    × (call.resp ≡ result ∷ rest)

offer-Answered :
    (reason : Bytes) (call : DialCall) (rs : List ConnResult)
    → call.resp ≡ rs
    → (result : ConnResult) × (rest : List ConnResult) × ((offer reason call).resp ≡ result ∷ rest)
unfolding offer
offer-Answered reason call [] e = (ConnResult.refused reason, [], ground (arith, e))
offer-Answered reason call (r ∷ rs) e = (r, rs, ground (arith, e))

-- declareDead for one pending call
abbrev offer_to : Bytes → ℕ → List (ℕ × DialCall) → List (ℕ × DialCall)
offer_to reason k calls = elim (map_get k calls) [
  | none ↦ calls
  | some call ↦ map_set k (offer reason call) calls
]

set-Answered :
    (calls : List (ℕ × DialCall)) (k d : ℕ) (new : DialCall) (result : ConnResult)
    (rest : List ConnResult)
    → new.resp ≡ result ∷ rest
    → Answered calls d
    → Answered (map_set k new calls) d
set-Answered calls k d new result rest e (call, r, rs, g, f) = elim (Bool-cases (k == d)) [
  | inl same ↦ (new, result, rest, ground (arith, same, map_get-map_set k d new calls), e)
  | inr other ↦ (call, r, rs, ground (arith, other, g, map_get-map_set k d new calls), f)
]

offer_to-Answered :
    (reason : Bytes) (calls : List (ℕ × DialCall)) (k d : ℕ)
    → Answered calls d
    → Answered (offer_to reason k calls) d
offer_to-Answered reason calls k d a = elim (Option-cases (map_get k calls)) [
  | inl missing ↦ rw (offer_to, missing) a
  | inr (call, g) ↦
      let (result, rest, e) = offer-Answered reason call call.resp refl in
      rw (offer_to, g) (set-Answered calls k d (offer reason call) result rest e a)
]

offer_to-own :
    (reason : Bytes) (calls : List (ℕ × DialCall)) (d : ℕ)
    → Asked calls d
    → Answered (offer_to reason d calls) d
offer_to-own reason calls d (call, g) =
    let (result, rest, e) = offer-Answered reason call call.resp refl in
    rw (offer_to, g)
      (
        offer reason call,
        result,
        rest,
        ground (arith, map_get-map_set d d (offer reason call) calls, ==_iff d d),
        e,
      )

offer_to-Asked :
    (reason : Bytes) (calls : List (ℕ × DialCall)) (k d : ℕ)
    → Asked calls d
    → Asked (offer_to reason k calls) d
offer_to-Asked reason calls k d (call, g) = elim (Option-cases (map_get k calls)) [
  | inl missing ↦ rw (offer_to, missing) (call, g)
  | inr (old, h) ↦
      rw (offer_to, h)
        (elim (Bool-cases (k == d)) [
          | inl same ↦
              (offer reason old, ground (arith, same, map_get-map_set k d (offer reason old) calls))
          | inr other ↦
              (call, ground (arith, other, g, map_get-map_set k d (offer reason old) calls))
        ])
]

fail_all-Answered :
    (reason : Bytes) (es : List (ℕ × ℕ)) (calls : List (ℕ × DialCall)) (d : ℕ)
    → Answered calls d
    → Answered (fail_all reason es calls) d
unfolding fail_all
fail_all-Answered reason [] calls d a = a
fail_all-Answered reason ((id, k) ∷ es) calls d a =
    fail_all-Answered reason es (offer_to reason k calls) d (offer_to-Answered reason calls k d a)

pub fail_all-listed :
    (reason : Bytes) (es : List (ℕ × ℕ)) (calls : List (ℕ × DialCall)) (id d : ℕ)
    → listed id d es ≡ true
    → Asked calls d
    → Answered (fail_all reason es calls) d
unfolding fail_all
fail_all-listed reason [] calls id d l a = absurd (ground (arith, l))
fail_all-listed reason ((i, k) ∷ es) calls id d l a = elim (Bool-cases (k == d)) [
  | inl same ↦ fail_all-Answered reason es (offer_to reason k calls) d (
      subst (λ x. Answered (offer_to reason x calls) d) (sym ((==_iff k d).0 same))
        (offer_to-own reason calls d a))
  | inr other ↦
      fail_all-listed reason es (offer_to reason k calls) id d (ground (arith, l, other))
        (offer_to-Asked reason calls k d a)
]
