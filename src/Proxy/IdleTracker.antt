-- ===== src/Proxy/IdleTracker.antt =====
-- internal/proxy/idle_tracker.go: the timer that suspends an idle proxy. The timers of the clock are
-- part of the state: those that are armed, with the time at which they are due, and how many callbacks
-- have begun and wait for the lock.
pub mod Alone
use awsocks.Prelude.{
  ◌≡◌, ℕ, ◌+◌, ◌-◌, Bool, true, false, Option, none, some, List, [], ◌∷◌, if◌then◌else◌, ltb, leb,
}
use awsocks.Prelude.Maps.{map_set, map_get, map_delete, nat_eq}

-- type IdleTracker, its clock, the calls of onIdle, and the time of the last Start or Touch
pub record IdleTracker : Type 0 where
  pub timeout : ℕ
  pub timer : Option ℕ
  pub suspended : Bool
  pub armed : List (ℕ × ℕ)
  pub next_timer : ℕ
  pub begun : ℕ
  pub idle_calls : ℕ
  pub now : ℕ
  pub last_activity : ℕ

-- NewIdleTracker, at a time
unfoldable pub new_idle_tracker : ℕ → ℕ → IdleTracker
new_idle_tracker timeout now = record {
  timeout = timeout;
  timer = none;
  suspended = false;
  armed = [];
  next_timer = 0;
  begun = 0;
  idle_calls = 0;
  now = now;
  last_activity = now;
}

-- if t.timer != nil { t.timer.Stop() }, on the timers of the clock; one that has fired stays so
unfoldable pub stop_timer : Option ℕ → List (ℕ × ℕ) → List (ℕ × ℕ)
unfolding map_delete
stop_timer none armed = armed
stop_timer (some id) armed = map_delete id armed

-- Touch, and Start
unfoldable pub touch : IdleTracker → IdleTracker
unfolding stop_timer map_set
touch t = record t {
  timer = some t.next_timer;
  armed = map_set t.next_timer (t.now + t.timeout) (stop_timer t.timer t.armed);
  next_timer = t.next_timer + 1;
  last_activity = t.now;
}

-- Stop
unfoldable pub stop : IdleTracker → IdleTracker
unfolding stop_timer
stop t = record t { timer = none; armed = stop_timer t.timer t.armed }

-- the clock runs a timer that is due: its callback begins
unfoldable pub fire : ℕ → IdleTracker → Option IdleTracker
unfolding map_get map_delete
fire id t = elim (map_get id t.armed) [
  | none ↦ none
  | some due ↦
      if leb due t.now
      then some (record t { armed = map_delete id t.armed; begun = t.begun + 1 })
      else none
]

-- the callback, once it has the lock
unfoldable pub run_callback : IdleTracker → Option IdleTracker
run_callback t =
    if ltb 0 t.begun
    then some (record t { begun = t.begun - 1; suspended = true; idle_calls = t.idle_calls + 1 })
    else none

-- IsSuspended
unfoldable pub is_suspended : IdleTracker → Bool
is_suspended t = t.suspended

-- ClearSuspended
unfoldable pub clear_suspended : IdleTracker → IdleTracker
clear_suspended t = record t { suspended = false }

pub data IdleEvent : Type 0 where
  touches stops clears calls_back : IdleEvent
  fires : ℕ → IdleEvent
  passes : ℕ → IdleEvent

-- one event; `none` where it cannot happen
unfoldable pub idle_step : IdleEvent → IdleTracker → Option IdleTracker
unfolding touch stop fire run_callback clear_suspended
idle_step touches t = some (touch t)
idle_step stops t = some (stop t)
idle_step clears t = some (clear_suspended t)
idle_step calls_back t = run_callback t
idle_step (fires id) t = fire id t
idle_step (passes d) t = some (record t { now = t.now + d })

unfoldable pub idle_run : List IdleEvent → IdleTracker → Option IdleTracker
unfolding idle_step
idle_run [] t = some t
idle_run (e ∷ es) t = elim (idle_step e t) [ none ↦ none | some u ↦ idle_run es u ]
