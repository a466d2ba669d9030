-- ===== src/Backend/Notify/Lost.antt =====
-- internal/backend/ssm/backend.go: a change of state between the load and the fetch of a wait.
use mathlib.Core.Path.{subst}
use awsocks.Prelude.{
  ℕ, ◌+◌, ◌<◌, ◌≤◌, ◌≡◌, ◌⊎◌, refl, sym, ◌∙◌, Bool, true, false, some, List, [], ◌∷◌, ◌==◌, any,
  arith, All, Option-cases, inl, inr,
}
use awsocks.Backend.Notify.{
  BackendState, WaitOutcome, Waiter, Setter, Backend, BackendEvent, new_backend, store_state,
  exchange_channel, close_channel, check_state, fetch_channel, wake, give_up, backend_step,
  backend_run, no_setter, stored, exchanged, stores, exchanges, closes, checks, fetches, wakes,
  gives_up,
}

-- the channel that setState is about to close is an old one
abbrev pub OldSetter : ℕ → Setter → Type 0
OldSetter n (exchanged old) = old < n
OldSetter n _ = Unit

pub record IsNotified (b : Backend) : Type 0 where
  pub old_closed : All (λ k. k < b.state_notify) b.closed
  pub old_setter : OldSetter b.state_notify b.setter

All-weaken : (n m : ℕ) (ks : List ℕ) → n ≤ m → All (λ k. k < n) ks → All (λ k. k < m) ks
All-weaken n m [] h a = tt
All-weaken n m (k ∷ ks) h (a, b) = (omega (arith, h, a), All-weaken n m ks h b)

-- no change of the channels
kept-IsNotified :
    (b c : Backend)
    → c.state_notify ≡ b.state_notify
    → c.closed ≡ b.closed
    → c.setter ≡ b.setter
    → IsNotified b
    → IsNotified c
kept-IsNotified b c n k s w = record {
  old_closed =
      subst (λ x. All (λ y. y < x) c.closed) (sym n)
        (subst (All (λ y. y < b.state_notify)) (sym k) w.old_closed);
  old_setter =
      subst (λ x. OldSetter x c.setter) (sym n)
        (subst (OldSetter b.state_notify) (sym s) w.old_setter);
}

setter_by :
    (b c : Backend) (e : BackendEvent) (s : Setter)
    → b.setter ≡ s
    → backend_step e b ≡ some c
    → IsNotified b
    → IsNotified c
unfolding backend_step store_state exchange_channel close_channel check_state fetch_channel wake
    give_up
setter_by b c (stores t) no_setter e h w =
    let done : record b { state = t; setter = Setter.stored } ≡ c = ground (arith, e, h) in
    subst IsNotified done (record { old_closed = w.old_closed; old_setter = tt })
setter_by b c (stores t) stored e h w = absurd (ground (arith, e, h))
setter_by b c (stores t) (exchanged old) e h w = absurd (ground (arith, e, h))
setter_by b c exchanges no_setter e h w = absurd (ground (arith, e, h))
setter_by b c exchanges stored e h w =
    let done : record b {
      state_notify = b.state_notify + 1;
      setter = Setter.exchanged b.state_notify;
    }
        ≡ c =
      ground (arith, e, h) in
    subst IsNotified done (record {
      old_closed =
          All-weaken b.state_notify (b.state_notify + 1) b.closed (omega arith) w.old_closed;
      old_setter = omega arith;
    })
setter_by b c exchanges (exchanged old) e h w = absurd (ground (arith, e, h))
setter_by b c closes no_setter e h w = absurd (ground (arith, e, h))
setter_by b c closes stored e h w = absurd (ground (arith, e, h))
setter_by b c closes (exchanged old) e h w =
    let done : record b { closed = old ∷ b.closed; setter = Setter.no_setter } ≡ c =
      ground (arith, e, h) in
    subst IsNotified done (record {
      old_closed = (subst (OldSetter b.state_notify) e w.old_setter, w.old_closed);
      old_setter = tt;
    })
setter_by b c checks s e h w =
    kept-IsNotified b c (ground (arith, h)) (ground (arith, h)) (ground (arith, h)) w
setter_by b c fetches s e h w =
    kept-IsNotified b c (ground (arith, h)) (ground (arith, h)) (ground (arith, h)) w
setter_by b c wakes s e h w =
    kept-IsNotified b c (ground (arith, h)) (ground (arith, h)) (ground (arith, h)) w
setter_by b c gives_up s e h w =
    kept-IsNotified b c (ground (arith, h)) (ground (arith, h)) (ground (arith, h)) w

backend_run-IsNotified :
    (es : List BackendEvent) (b c : Backend)
    → backend_run es b ≡ some c
    → IsNotified b
    → IsNotified c
unfolding backend_run
backend_run-IsNotified [] b c h w = let same : b ≡ c = ground (arith, h) in subst IsNotified same w
backend_run-IsNotified (e ∷ es) b c h w = elim (Option-cases (backend_step e b)) [
  | inl stuck ↦ absurd (ground (arith, stuck, h))
  | inr (d, at) ↦
      backend_run-IsNotified es d c (ground (arith, at, h)) (setter_by b d e b.setter refl at w)
]

-- a schedule in which no call of setState begins
abbrev pub stores_none : List BackendEvent → Bool
stores_none [] = true
stores_none (stores s ∷ es) = false
stores_none (e ∷ es) = stores_none es

-- the call waits for a channel that nobody will close, or has given up
record IsStuck (s : BackendState) (b : Backend) : Type 0 where
  same_state : b.state ≡ s
  no_setter_left : b.setter ≡ Setter.no_setter
  open_channel : All (λ k. k < b.state_notify) b.closed
  asleep :
      (b.waiter ≡ Waiter.waiting b.state_notify)
      ⊎ (b.waiter ≡ Waiter.returned WaitOutcome.wait_ended)

not_closed : (n : ℕ) (ks : List ℕ) → All (λ k. k < n) ks → any (λ k. k == n) ks ≡ false
not_closed n [] a = refl
not_closed n (k ∷ ks) (a, b) = ground (arith, a, not_closed n ks b)

-- In such a state only the end of the wait can happen, once.
gives_up-IsStuck :
    (s : BackendState) (b c : Backend) → give_up b ≡ some c → IsStuck s b → IsStuck s c
unfolding give_up
gives_up-IsStuck s b c h w = elim w.asleep [
  | inr over ↦ absurd (ground (arith, over, h))
  | inl asleep ↦
      let done : record b { waiter = Waiter.returned WaitOutcome.wait_ended } ≡ c =
        ground (arith, asleep, h) in
      subst (IsStuck s) done (record {
        same_state = w.same_state;
        no_setter_left = w.no_setter_left;
        open_channel = w.open_channel;
        asleep = inr refl;
      })
]

wakes-IsStuck : (s : BackendState) (b c : Backend) → wake b ≡ some c → IsStuck s b → IsStuck s c
unfolding wake
wakes-IsStuck s b c h w = elim w.asleep [
  | inr over ↦ absurd (ground (arith, over, h))
  | inl asleep ↦
      absurd (ground (arith, asleep, h, not_closed b.state_notify b.closed w.open_channel))
]

backend_run-IsStuck :
    (s : BackendState) (es : List BackendEvent) (b c : Backend)
    → stores_none es ≡ true
    → backend_run es b ≡ some c
    → IsStuck s b
    → IsStuck s c
unfolding backend_run backend_step exchange_channel close_channel check_state fetch_channel
backend_run-IsStuck s [] b c quiet h w =
    let same : b ≡ c = ground (arith, h) in subst (IsStuck s) same w
backend_run-IsStuck s (stores t ∷ es) b c quiet h w = absurd (ground (arith, quiet))
backend_run-IsStuck s (exchanges ∷ es) b c quiet h w = absurd (ground (arith, h, w.no_setter_left))
backend_run-IsStuck s (closes ∷ es) b c quiet h w = absurd (ground (arith, h, w.no_setter_left))
backend_run-IsStuck s (checks ∷ es) b c quiet h w = elim w.asleep [
  | inl asleep ↦ absurd (ground (arith, h, asleep))
  | inr over ↦ absurd (ground (arith, h, over))
]
backend_run-IsStuck s (fetches ∷ es) b c quiet h w = elim w.asleep [
  | inl asleep ↦ absurd (ground (arith, h, asleep))
  | inr over ↦ absurd (ground (arith, h, over))
]
backend_run-IsStuck s (wakes ∷ es) b c quiet h w = elim (Option-cases (wake b)) [
  | inl stuck ↦ absurd (ground (arith, stuck, h))
  | inr (d, at) ↦
      backend_run-IsStuck s es d c quiet (ground (arith, at, h)) (wakes-IsStuck s b d at w)
]
backend_run-IsStuck s (gives_up ∷ es) b c quiet h w = elim (Option-cases (give_up b)) [
  | inl stuck ↦ absurd (ground (arith, stuck, h))
  | inr (d, at) ↦
      backend_run-IsStuck s es d c quiet (ground (arith, at, h)) (gives_up-IsStuck s b d at w)
]

-- setState from its store to its end, and then the fetch
abbrev pub changed_between : BackendState → List BackendEvent → List BackendEvent
changed_between s es =
    BackendEvent.stores s ∷ BackendEvent.exchanges ∷ BackendEvent.closes ∷ BackendEvent.fetches ∷ es

slept : BackendState → Backend → Backend
slept s b = record b {
  state = s;
  state_notify = b.state_notify + 1;
  closed = b.state_notify ∷ b.closed;
  waiter = Waiter.waiting (b.state_notify + 1);
  setter = Setter.no_setter;
}

changed_between-slept :
    (s : BackendState) (es : List BackendEvent) (b : Backend)
    → b.waiter ≡ Waiter.checked
    → b.setter ≡ Setter.no_setter
    → backend_run (changed_between s es) b ≡ backend_run es (slept s b)
unfolding backend_run backend_step store_state exchange_channel close_channel fetch_channel slept
changed_between-slept s es b at idle = ground (arith, at, idle)

new_backend-IsNotified : IsNotified new_backend
unfolding new_backend
new_backend-IsNotified = record { old_closed = tt; old_setter = tt }

-- A change of state can be lost: where a call of waitForActive has loaded a state that decides nothing,
-- and setState of any state, the active one included, runs as a whole before the call fetches its
-- channel, then the call is not woken until setState is called again. It sleeps, or gives up when its
-- context or its time ends, though the state is the new one.
pub changed_between-lost :
    (before es : List BackendEvent) (b c : Backend) (s : BackendState)
    → backend_run before new_backend ≡ some b
    → b.waiter ≡ Waiter.checked
    → b.setter ≡ Setter.no_setter
    → stores_none es ≡ true
    → backend_run (changed_between s es) b ≡ some c
    → (c.state ≡ s)
      × ((c.waiter ≡ Waiter.waiting c.state_notify)
          ⊎ (c.waiter ≡ Waiter.returned WaitOutcome.wait_ended))
unfolding slept
changed_between-lost before es b c s ran at idle quiet h =
    let w = backend_run-IsNotified before new_backend b ran new_backend-IsNotified in
    let stuck =
      backend_run-IsStuck s es (slept s b) c quiet (sym (changed_between-slept s es b at idle) ∙ h)
        (record {
          same_state = refl;
          no_setter_left = refl;
          open_channel = (
            omega arith,
            All-weaken b.state_notify (b.state_notify + 1) b.closed (omega arith) w.old_closed,
          );
          asleep = inl refl;
        }) in
    (stuck.same_state, stuck.asleep)
