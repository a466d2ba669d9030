-- ===== src/Proxy/IdleTracker/Alone.antt =====
-- internal/proxy/idle_tracker.go: the one timer that is armed.
use mathlib.Core.Path.{subst}
use awsocks.Prelude.{
  ℕ, ◌+◌, ◌-◌, ◌≤◌, ◌≡◌, ◌≢◌, refl, sym, ap, true, false, Option, none, some, List, [], ◌∷◌, arith,
  Option-cases, inl, inr,
}
use awsocks.Prelude.Maps.{map_get, map_delete, map_set-cases, map_delete-cases, nat_eq}
use awsocks.Proxy.IdleTracker.{
  IdleTracker, IdleEvent, new_idle_tracker, stop_timer, touch, stop, fire, run_callback,
  clear_suspended, idle_step, idle_run, touches, stops, clears, calls_back, fires, passes,
}

-- Every armed timer is the tracker's own, and due a whole timeout after the last activity.
pub record IsAlone (t : IdleTracker) : Type 0 where
  pub own : (id due : ℕ) → map_get id t.armed ≡ some due → t.timer ≡ some id
  pub due_then : (id due : ℕ) → map_get id t.armed ≡ some due → due ≡ t.last_activity + t.timeout

stopped :
    (t : IdleTracker) (id due : ℕ) (timer : Option ℕ)
    → t.timer ≡ timer
    → IsAlone t
    → map_get id (stop_timer timer t.armed) ≢ some due
unfolding stop_timer
stopped t id due none e w h = absurd (ground (arith, e, w.own id due h))
stopped t id due (some k) e w h =
    let (other, old) = map_delete-cases k id due t.armed h in
    other (ground (arith, e, w.own id due old))

-- Behind stop_timer, nothing is armed.
stop_timer-none :
    (t : IdleTracker) (id due : ℕ) → IsAlone t → map_get id (stop_timer t.timer t.armed) ≢ some due
stop_timer-none t id due w h = stopped t id due t.timer refl w h

touch-IsAlone : (t : IdleTracker) → IsAlone t → IsAlone (touch t)
unfolding touch
touch-IsAlone t w = record {
  own = λ id due h.
      elim (map_set-cases t.next_timer id (t.now + t.timeout) due (stop_timer t.timer t.armed) h) [
        | inl (same, new) ↦ ap some same
        | inr (other, old) ↦ absurd (stop_timer-none t id due w old)
      ];
  due_then = λ id due h.
      elim (map_set-cases t.next_timer id (t.now + t.timeout) due (stop_timer t.timer t.armed) h) [
        | inl (same, new) ↦ new
        | inr (other, old) ↦ absurd (stop_timer-none t id due w old)
      ];
}

stop-IsAlone : (t : IdleTracker) → IsAlone t → IsAlone (stop t)
unfolding stop
stop-IsAlone t w = record {
  own = λ id due h. absurd (stop_timer-none t id due w h);
  due_then = λ id due h. absurd (stop_timer-none t id due w h);
}

fire-due :
    (id : ℕ) (t u : IdleTracker)
    → fire id t ≡ some u
    → (due : ℕ) × (map_get id t.armed ≡ some due)
      × (due ≤ t.now)
      × (u ≡ record t { armed = map_delete id t.armed; begun = t.begun + 1 })
unfolding fire
fire-due id t u h = elim (Option-cases (map_get id t.armed)) [
  | inl missing ↦ absurd (ground (arith, missing, h))
  | inr (due, g) ↦ (due, g, ground (arith, g, h), ground (arith, g, h))
]

idle_step-IsAlone :
    (e : IdleEvent) (t u : IdleTracker) → idle_step e t ≡ some u → IsAlone t → IsAlone u
unfolding idle_step clear_suspended run_callback
idle_step-IsAlone touches t u h w =
    let same : touch t ≡ u = ground (arith, h) in subst IsAlone same (touch-IsAlone t w)
idle_step-IsAlone stops t u h w =
    let same : stop t ≡ u = ground (arith, h) in subst IsAlone same (stop-IsAlone t w)
idle_step-IsAlone clears t u h w =
    let same : record t { suspended = false } ≡ u = ground (arith, h) in
    subst IsAlone same (record { own = w.own; due_then = w.due_then })
idle_step-IsAlone calls_back t u h w =
    let same : record t { begun = t.begun - 1; suspended = true; idle_calls = t.idle_calls + 1 }
        ≡ u =
      ground (arith, h) in
    subst IsAlone same (record { own = w.own; due_then = w.due_then })
idle_step-IsAlone (fires id) t u h w =
    let (due, g, late, e) = fire-due id t u h in
    subst IsAlone (sym e) (record {
      own = λ k d x. w.own k d (map_delete-cases id k d t.armed x).1;
      due_then = λ k d x. w.due_then k d (map_delete-cases id k d t.armed x).1;
    })
idle_step-IsAlone (passes d) t u h w =
    let same : record t { now = t.now + d } ≡ u = ground (arith, h) in
    subst IsAlone same (record { own = w.own; due_then = w.due_then })

idle_run-IsAlone :
    (es : List IdleEvent) (t u : IdleTracker) → idle_run es t ≡ some u → IsAlone t → IsAlone u
unfolding idle_run
idle_run-IsAlone [] t u h w = let same : t ≡ u = ground (arith, h) in subst IsAlone same w
idle_run-IsAlone (e ∷ es) t u h w = elim (Option-cases (idle_step e t)) [
  | inl stuck ↦ absurd (ground (arith, stuck, h))
  | inr (v, at) ↦ idle_run-IsAlone es v u (ground (arith, at, h)) (idle_step-IsAlone e t v at w)
]

new_idle_tracker-IsAlone : (timeout now : ℕ) → IsAlone (new_idle_tracker timeout now)
unfolding new_idle_tracker map_get
new_idle_tracker-IsAlone timeout now = record {
  own = λ id due h. absurd (ground (arith, h));
  due_then = λ id due h. absurd (ground (arith, h));
}

only_one :
    (t : IdleTracker) (id other due d : ℕ)
    → IsAlone t
    → map_get id t.armed ≡ some due
    → (id ≢ other) × (map_get other t.armed ≡ some d)
    → ⊥
only_one t id other due d w g (apart, h) = apart (ground (arith, w.own id due g, w.own other d h))

-- Whatever calls of Start, Touch, Stop and ClearSuspended there were, and whatever timers have fired:
-- a timer fires only when a whole timeout has passed since the last Start or Touch, and no other timer
-- is armed then.
pub fire-idle :
    (timeout begin : ℕ) (es : List IdleEvent) (t u : IdleTracker) (id other : ℕ)
    → idle_run es (new_idle_tracker timeout begin) ≡ some t
    → fire id t ≡ some u
    → (t.last_activity + t.timeout ≤ t.now) × (map_get other u.armed ≡ none)
fire-idle timeout begin es t u id other ran fired =
    let w =
      idle_run-IsAlone es (new_idle_tracker timeout begin) t ran
        (new_idle_tracker-IsAlone timeout begin) in
    let (due, g, late, e) = fire-due id t u fired in
    (
      omega (arith, w.due_then id due g, late),
      elim (Option-cases (map_get other u.armed)) [
        | inl empty ↦ empty
        | inr (d, h) ↦ absurd (
            only_one t id other due d w g (
              map_delete-cases id other d t.armed
                (subst (λ x. map_get other x.armed ≡ some d) e h)))
      ],
    )
