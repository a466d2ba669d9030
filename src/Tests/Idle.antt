-- ===== src/Tests/Idle.antt =====
-- Tests of the idle tracker: two activities, and the time of the second timer.
use awsocks.Prelude.{◌≡◌, ◌≤◌, ◌+◌, refl, false, none, some, List, [], ◌∷◌}
use awsocks.Prelude.Maps.{map_get, map_set, map_delete, nat_eq}
use awsocks.Proxy.IdleTracker.{
  IdleTracker, IdleEvent, new_idle_tracker, stop_timer, touch, fire, idle_step, idle_run,
}
use awsocks.Proxy.IdleTracker.Alone.{fire-idle}

abbrev two_touches : List IdleEvent
two_touches = IdleEvent.touches ∷ IdleEvent.passes 3 ∷ IdleEvent.touches ∷ IdleEvent.passes 5 ∷ []

abbrev due_tracker : IdleTracker
due_tracker = record {
  timeout = 5;
  timer = some 1;
  suspended = false;
  armed = (1, 108) ∷ [];
  next_timer = 2;
  begun = 0;
  idle_calls = 0;
  now = 108;
  last_activity = 103;
}

touched : idle_run two_touches (new_idle_tracker 5 100) ≡ some due_tracker
unfolding idle_run idle_step touch stop_timer new_idle_tracker map_set map_delete
touched = refl

fired : fire 1 due_tracker ≡ some (record due_tracker { armed = []; begun = 1 })
unfolding fire map_get map_delete
fired = refl

fire-idle_example :
    (due_tracker.last_activity + due_tracker.timeout ≤ due_tracker.now)
    × (map_get 1 (record due_tracker { armed = []; begun = 1 }).armed ≡ none)
fire-idle_example =
    fire-idle 5 100 two_touches due_tracker (record due_tracker { armed = []; begun = 1 }) 1 1
      touched fired
