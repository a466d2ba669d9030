-- ===== src/Tests/Waits.antt =====
-- Tests of the wait for the backend: it becomes active between the load and the fetch.
use awsocks.Prelude.{◌≡◌, ◌⊎◌, refl, some, List, [], ◌∷◌}
use awsocks.Backend.Notify.{
  BackendState, WaitOutcome, Waiter, Setter, Backend, BackendEvent, new_backend, backend_run,
  backend_step, store_state, exchange_channel, close_channel, check_state, decide, fetch_channel,
  give_up,
}
use awsocks.Backend.Notify.Lost.{changed_between, changed_between-lost}

abbrev connecting : List BackendEvent
connecting =
    BackendEvent.stores BackendState.state_connecting
    ∷ BackendEvent.exchanges
    ∷ BackendEvent.closes
    ∷ BackendEvent.checks
    ∷ []

abbrev loaded_backend : Backend
loaded_backend = record {
  state = BackendState.state_connecting;
  state_notify = 1;
  closed = 0 ∷ [];
  waiter = Waiter.checked;
  setter = Setter.no_setter;
}

abbrev late_backend : Backend
late_backend = record {
  state = BackendState.state_active;
  state_notify = 2;
  closed = 1 ∷ 0 ∷ [];
  waiter = Waiter.returned WaitOutcome.wait_ended;
  setter = Setter.no_setter;
}

loaded : backend_run connecting new_backend ≡ some loaded_backend
unfolding backend_run backend_step store_state exchange_channel close_channel check_state decide
    new_backend
loaded = refl

late :
    backend_run
      (changed_between BackendState.state_active (BackendEvent.gives_up ∷ []))
      loaded_backend
    ≡ some late_backend
unfolding backend_run backend_step store_state exchange_channel close_channel fetch_channel give_up
late = refl

changed_between-lost_example :
    (late_backend.state ≡ BackendState.state_active)
    × ((late_backend.waiter ≡ Waiter.waiting late_backend.state_notify)
        ⊎ (late_backend.waiter ≡ Waiter.returned WaitOutcome.wait_ended))
changed_between-lost_example =
    changed_between-lost connecting (BackendEvent.gives_up ∷ []) loaded_backend late_backend
      BackendState.state_active loaded refl refl refl late
