-- ===== src/Backend/Notify.antt =====
-- internal/backend/ssm/backend.go: the state of the backend, setState, and the wait for it. Channels
-- are numbers; the channel of the state is the last that was made. setState and the wait are
-- taken apart where another goroutine can come between: behind the atomic store, behind the
-- exchange of the channel, and behind the load. Calls of setState come one after the other.
pub mod Lost
use awsocks.Prelude.{
  ℕ, ◌+◌, Bool, true, false, Option, none, some, List, [], ◌∷◌, if◌then◌else◌, ◌==◌, any,
}

-- type State
pub data BackendState : Type 0 where
  state_idle state_starting_ec2 state_connecting state_handshaking state_active state_reconnecting
        state_error :
      BackendState

-- the results of waitForActiveWithTimeout
pub data WaitOutcome : Type 0 where
  became_active entered_error wait_ended : WaitOutcome

-- where a call of waitForActiveWithTimeout is: before its load, behind a load that decides nothing,
-- in its select on a channel, or at its end
pub data Waiter : Type 0 where
  checking : Waiter
  checked : Waiter
  waiting : ℕ → Waiter
  returned : WaitOutcome → Waiter

-- where the call of setState is: there is none, it has stored, or it is about to
-- close a channel
pub data Setter : Type 0 where
  no_setter : Setter
  stored : Setter
  exchanged : ℕ → Setter

pub record Backend : Type 0 where
  pub state : BackendState
  pub state_notify : ℕ
  pub closed : List ℕ
  pub waiter : Waiter
  pub setter : Setter

-- New, with a call of waitForActive
unfoldable pub new_backend : Backend
new_backend = record {
  state = BackendState.state_idle;
  state_notify = 0;
  closed = [];
  waiter = Waiter.checking;
  setter = Setter.no_setter;
}

-- setState: the store
unfoldable pub store_state : BackendState → Backend → Option Backend
store_state s b = elim b.setter [
  | no_setter ↦ some (record b { state = s; setter = Setter.stored })
  | _ ↦ none
]

-- setState: the exchange, under the lock
unfoldable pub exchange_channel : Backend → Option Backend
exchange_channel b = elim b.setter [
  | stored ↦
      some
        (record b { state_notify = b.state_notify + 1; setter = Setter.exchanged b.state_notify })
  | _ ↦ none
]

-- setState: close(old)
unfoldable pub close_channel : Backend → Option Backend
close_channel b = elim b.setter [
  | exchanged old ↦ some (record b { closed = old ∷ b.closed; setter = Setter.no_setter })
  | _ ↦ none
]

-- the two tests of the loaded state
unfoldable pub decide : BackendState → Waiter
decide state_active = Waiter.returned WaitOutcome.became_active
decide state_error = Waiter.returned WaitOutcome.entered_error
decide _ = Waiter.checked

-- waitForActiveWithTimeout: the load and its tests
unfoldable pub check_state : Backend → Option Backend
unfolding decide
check_state b = elim b.waiter [ checking ↦ some (record b { waiter = decide b.state }) | _ ↦ none ]

-- waitForActiveWithTimeout: waitCh := b.stateNotify
unfoldable pub fetch_channel : Backend → Option Backend
fetch_channel b = elim b.waiter [
  | checked ↦ some (record b { waiter = Waiter.waiting b.state_notify })
  | _ ↦ none
]

-- case <-waitCh
unfoldable pub wake : Backend → Option Backend
wake b = elim b.waiter [
  | waiting c ↦
      if any (λ k. k == c) b.closed then some (record b { waiter = Waiter.checking }) else none
  | _ ↦ none
]

-- case <-ctx.Done(), case <-timeout
unfoldable pub give_up : Backend → Option Backend
give_up b = elim b.waiter [
  | waiting c ↦ some (record b { waiter = Waiter.returned WaitOutcome.wait_ended })
  | _ ↦ none
]

pub data BackendEvent : Type 0 where
  stores : BackendState → BackendEvent
  exchanges closes checks fetches wakes gives_up : BackendEvent

unfoldable pub backend_step : BackendEvent → Backend → Option Backend
unfolding store_state exchange_channel close_channel check_state fetch_channel wake give_up
backend_step (stores s) b = store_state s b
backend_step exchanges b = exchange_channel b
backend_step closes b = close_channel b
backend_step checks b = check_state b
backend_step fetches b = fetch_channel b
backend_step wakes b = wake b
backend_step gives_up b = give_up b

unfoldable pub backend_run : List BackendEvent → Backend → Option Backend
unfolding backend_step
backend_run [] b = some b
backend_run (e ∷ es) b = elim (backend_step e b) [ none ↦ none | some c ↦ backend_run es c ]
