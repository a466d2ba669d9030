-- ===== src/Mux/Jobs/Pursuit.antt =====
-- internal/mux/agent_mux.go, Close, closeFromRemote and declareDead: a section that is listed is reached
-- before the call ends, whatever the goroutines do meanwhile.
use mathlib.Core.Path.{subst}
use awsocks.Prelude.{
  ℕ, ◌+◌, ◌<◌, ◌≡◌, ◌⊎◌, sym, ◌∙◌, ap, inl, inr, Bool, true, ◌||◌, some, List, [], ◌∷◌, ◌++◌, ◌==◌,
  ==_iff, any, arith, Bool-cases,
}
use awsocks.Prelude.Maps.{map_get, map_set, map_set-cases, map_get-map_set, nat_eq}
use awsocks.Mux.State.{Action, AgentMux, new_agent_mux}
use awsocks.Mux.Teardown.{act, run_job}
use awsocks.Mux.System.{Event, Reach, here, next, step}
use awsocks.Mux.Inversion.Jobs.{run_job-cases}
use awsocks.Mux.Jobs.{Jobbed, same_jobs, spawned, ran, step-Jobbed}
use awsocks.Mux.Jobs.Sections.{act-Leaves}

any-append : (p : Action → Bool) (xs ys : List Action) → any p ys ≡ true → any p (xs ++ ys) ≡ true
any-append p [] ys e = e
any-append p (x ∷ xs) ys e = ground (arith, any-append p xs ys e)

-- the jobs have numbers below the next one
abbrev pub IsNumbered : AgentMux → Type 0
IsNumbered m = (j : ℕ) (actions : List Action) → map_get j m.jobs ≡ some actions → j < m.next_job

IsNumbered-on :
    (k n : ℕ) (new : List Action) (m t : AgentMux)
    → t.jobs ≡ map_set k new m.jobs
    → k < n
    → ((j : ℕ) → j < m.next_job → j < n)
    → t.next_job ≡ n
    → IsNumbered m
    → IsNumbered t
IsNumbered-on k n new m t e below grows f w j actions g =
    elim (map_set-cases k j new actions m.jobs (ap (map_get j) (sym e) ∙ g)) [
      | inl (same, at) ↦ ground (arith, same, below, f)
      | inr (other, old) ↦ ground (arith, f, grows j (w j actions old))
    ]

step-IsNumbered : (m t : AgentMux) → Jobbed m t → IsNumbered m → IsNumbered t
step-IsNumbered m t (same_jobs e f) w =
    λ j actions g. ground (arith, f, w j actions (ap (map_get j) (sym e) ∙ g))
step-IsNumbered m t (spawned new e f) w =
    IsNumbered-on m.next_job (m.next_job + 1) new m t e (omega arith) (λ j b. omega (arith, b)) f w
step-IsNumbered m t (ran writes j h) w =
    let (a, rest, g, e) = run_job-cases writes j m t h in
    let l = act-Leaves writes j a rest m t e in
    IsNumbered-on j m.next_job (l.more ++ rest) m t l.left (w j (a ∷ rest) g) (λ i b. b) l.same_next
      w

pub Reach-IsNumbered : (m : AgentMux) → Reach new_agent_mux m → IsNumbered m
unfolding new_agent_mux map_get
Reach-IsNumbered m here = λ j actions e. absurd (ground (arith, e))
Reach-IsNumbered m (next {s} r e h) =
    step-IsNumbered s m (step-Jobbed e s m h) (Reach-IsNumbered s r)

-- `p` says which section has the effect `E`, which no step takes back.
module _ (p : Action → Bool) (E : AgentMux → Type 0)
    (lasts : (e : Event) (m t : AgentMux) → step e m ≡ some t → Reach new_agent_mux m → E m → E t)
    (does : (writes : Bool) (j : ℕ) (a : Action) (rest : List Action) (m t : AgentMux)
      → act writes j a rest m ≡ some t
      → p a ≡ true
      → E t)
    (j : ℕ) where
  abbrev pub Pursued : AgentMux → Type 0
  Pursued m =
      (actions : List Action) × (map_get j m.jobs ≡ some actions)
      × (j < m.next_job)
      × (E m ⊎ (any p actions ≡ true))

  -- a section of the call itself
  own :
      (writes : Bool) (m t : AgentMux)
      → run_job writes j m ≡ some t
      → (E m → E t)
      → Pursued m
      → Pursued t
  own writes m t h keeps (actions, g, below, w) =
      let (a, rest, found, e) = run_job-cases writes j m t h in
      let l = act-Leaves writes j a rest m t e in
      let same : actions ≡ a ∷ rest = ground (arith, g, found) in
      (
        l.more ++ rest,
        ap (map_get j) l.left
            ∙ ground (arith, map_get-map_set j j (l.more ++ rest) m.jobs, ==_iff j j),
        ground (arith, l.same_next, below),
        elim w [
          | inl done ↦ inl (keeps done)
          | inr listed ↦
              let now : p a || any p rest ≡ true = ap (any p) (sym same) ∙ listed in
              elim (Bool-cases (p a)) [
                | inl here_it_is ↦ inl (does writes j a rest m t e here_it_is)
                | inr later ↦ inr (any-append p l.more rest (ground (arith, now, later)))
              ]
        ],
      )

  -- a step that leaves the call where it is
  beside :
      (m t : AgentMux)
      → map_get j t.jobs ≡ map_get j m.jobs
      → (j < m.next_job → j < t.next_job)
      → (E m → E t)
      → Pursued m
      → Pursued t
  beside m t same grows keeps (actions, g, below, w) = (
    actions,
    same ∙ g,
    grows below,
    elim w [ inl done ↦ inl (keeps done) | inr listed ↦ inr listed ],
  )

  Jobbed-Pursued : (m t : AgentMux) → Jobbed m t → (E m → E t) → Pursued m → Pursued t
  Jobbed-Pursued m t (same_jobs e f) keeps w =
      beside m t (ap (map_get j) e) (λ b. ground (arith, f, b)) keeps w
  Jobbed-Pursued m t (spawned new e f) keeps (actions, g, below, w) =
      beside m t (ap (map_get j) e ∙ ground (arith, below, map_get-map_set m.next_job j new m.jobs))
        (λ b. ground (arith, f, b)) keeps (actions, g, below, w)
  Jobbed-Pursued m t (ran writes k h) keeps w = elim (Bool-cases (k == j)) [
    | inl same ↦
        own writes m t (subst (λ x. run_job writes x m ≡ some t) ((==_iff k j).0 same) h) keeps w
    | inr other ↦
        let (a, rest, found, e) = run_job-cases writes k m t h in
        let l = act-Leaves writes k a rest m t e in
        beside m t
          (ap (map_get j) l.left
            ∙ ground (arith, other, map_get-map_set k j (l.more ++ rest) m.jobs))
          (λ b. ground (arith, l.same_next, b)) keeps w
  ]

  pub Reach-Pursued :
      (m t : AgentMux)
      → Reach new_agent_mux m
      → Reach m t
      → Pursued m
      → Reach new_agent_mux t × Pursued t
  Reach-Pursued m t r here w = (r, w)
  Reach-Pursued m t r (next {s} path e h) w =
      let (before, pursued) = Reach-Pursued m s r path w in
      (next before e h, Jobbed-Pursued s t (step-Jobbed e s t h) (lasts e s t h before) pursued)

  -- When the call has ended, it has had its effect.
  pub ended-Pursued : (m : AgentMux) → map_get j m.jobs ≡ some [] → Pursued m → E m
  ended-Pursued m over (actions, g, below, inl done) = done
  ended-Pursued m over (actions, g, below, inr listed) =
      let same : actions ≡ [] = ground (arith, g, over) in
      absurd (ground (arith, ap (any p) (sym same) ∙ listed))
