-- ===== src/Mux/Dials.antt =====
-- internal/mux/agent_mux.go, Dial: whose connection a call gets.
pub mod Changes
pub mod Steps
pub mod Messages
pub mod Ends
pub mod Results
use awsocks.Prelude.{
  ℕ, ◌+◌, ◌<◌, ◌≡◌, ◌≢◌, inl, inr, refl, sym, ap, ◌∙◌, Bool, true, false, Option, none, some, List,
  [], ◌∷◌, ◌==◌, ==_iff, Bytes, arith, Option-cases, Bool-cases, All,
}
use awsocks.Prelude.Maps.{
  map_get, map_set, map_delete, map_get-map_set, map_set-cases, map_delete-cases, nat_eq,
}
use awsocks.Mux.State.{
  ConnResult, connected, refused, DialOutcome, got, dial_cancelled, dial_mux_closed,
  dial_write_failed, DialPhase, requesting, waiting, returned, DialCall, Reader, Connections,
  AgentMux, looping, reading, acking, answering, delivering, joining, reader_stopped,
}
use awsocks.Mux.Teardown.{offer, fail_all}
use awsocks.Mux.Table.Owned.{Owned, Grows}

-- a result for the call with this ID: an error, or a connection under the same ID
abbrev pub ResultFor : Connections → ℕ → ConnResult → Type 0
ResultFor s id (connected h) = Owned s h id
ResultFor s id (refused reason) = Unit

abbrev pub OutcomeFor : Connections → ℕ → DialPhase → Type 0
OutcomeFor s id (returned (got result)) = ResultFor s id result
OutcomeFor s id _ = Unit

abbrev pub CallFor : Connections → DialCall → Type 0
CallFor s call = All (ResultFor s call.conn_id) call.resp × OutcomeFor s call.conn_id call.phase

-- a call under a number, with this ID
abbrev pub Called : List (ℕ × DialCall) → ℕ → ℕ → Type 0
Called calls d id = (call : DialCall) × (map_get d calls ≡ some call) × (call.conn_id ≡ id)

-- what readLoop holds for a call, or for a connection
abbrev pub ReaderFor : Connections → List (ℕ × DialCall) → Reader → Type 0
ReaderFor s calls (acking id d) = Called calls d id
ReaderFor s calls (answering d result after) = (id : ℕ) × Called calls d id × ResultFor s id result
ReaderFor s calls (delivering k bytes) = (id : ℕ) × Owned s k id
ReaderFor s calls _ = Unit

pub record IsDialed (s : Connections) (pending : List (ℕ × ℕ)) (calls : List (ℕ × DialCall))
    (next_call : ℕ) (reader : Reader) : Type 0 where
  pub pending_for : (id d : ℕ) → map_get id pending ≡ some d → Called calls d id
  pub fresh_calls : (d : ℕ) (call : DialCall) → map_get d calls ≡ some call → d < next_call
  pub calls_for : (d : ℕ) (call : DialCall) → map_get d calls ≡ some call → CallFor s call
  pub reader_for : ReaderFor s calls reader

ResultFor-Grows :
    (s t : Connections) (id : ℕ) (result : ConnResult)
    → Grows s t
    → ResultFor s id result
    → ResultFor t id result
ResultFor-Grows s t id (connected h) g o = g h id o
ResultFor-Grows s t id (refused reason) g o = tt

OutcomeFor-Grows :
    (s t : Connections) (id : ℕ) (phase : DialPhase)
    → Grows s t
    → OutcomeFor s id phase
    → OutcomeFor t id phase
OutcomeFor-Grows s t id requesting g o = tt
OutcomeFor-Grows s t id waiting g o = tt
OutcomeFor-Grows s t id (returned (got result)) g o = ResultFor-Grows s t id result g o
OutcomeFor-Grows s t id (returned dial_cancelled) g o = tt
OutcomeFor-Grows s t id (returned dial_mux_closed) g o = tt
OutcomeFor-Grows s t id (returned dial_write_failed) g o = tt

All-Grows :
    (s t : Connections) (id : ℕ) (results : List ConnResult)
    → Grows s t
    → All (ResultFor s id) results
    → All (ResultFor t id) results
All-Grows s t id [] g a = tt
All-Grows s t id (r ∷ rs) g (a, b) = (ResultFor-Grows s t id r g a, All-Grows s t id rs g b)

-- The connections change, and readLoop goes on.
pub IsDialed-Grows :
    (s t : Connections) (pending : List (ℕ × ℕ)) (calls : List (ℕ × DialCall)) (next_call : ℕ)
    (r r' : Reader)
    → Grows s t
    → ReaderFor t calls r'
    → IsDialed s pending calls next_call r
    → IsDialed t pending calls next_call r'
IsDialed-Grows s t pending calls next_call r r' g held w = record {
  pending_for = w.pending_for;
  fresh_calls = w.fresh_calls;
  calls_for = λ d call e. (
    All-Grows s t call.conn_id call.resp g (w.calls_for d call e).0,
    OutcomeFor-Grows s t call.conn_id call.phase g (w.calls_for d call e).1,
  );
  reader_for = held;
}

pub ReaderFor-Grows :
    (s t : Connections) (calls : List (ℕ × DialCall)) (r : Reader)
    → Grows s t
    → ReaderFor s calls r
    → ReaderFor t calls r
ReaderFor-Grows s t calls looping g h = tt
ReaderFor-Grows s t calls reading g h = tt
ReaderFor-Grows s t calls (acking id d) g h = h
ReaderFor-Grows s t calls (answering d result after) g (id, c, h) =
    (id, c, ResultFor-Grows s t id result g h)
ReaderFor-Grows s t calls (delivering k bytes) g (id, o) = (id, g k id o)
ReaderFor-Grows s t calls (joining j) g h = tt
ReaderFor-Grows s t calls reader_stopped g h = tt

-- A call changes, but not its ID.
Called-set :
    (calls : List (ℕ × DialCall)) (d : ℕ) (call new : DialCall) (k id : ℕ)
    → map_get d calls ≡ some call
    → new.conn_id ≡ call.conn_id
    → Called calls k id
    → Called (map_set d new calls) k id
Called-set calls d call new k id g i (other, h, e) = elim (Bool-cases (d == k)) [
  | inl same ↦ (
    new,
    ground (arith, same, map_get-map_set d k new calls),
    ground (arith, ==_iff d k, same, g, i, h, e),
  )
  | inr apart ↦ (other, ground (arith, apart, h, map_get-map_set d k new calls), e)
]

ReaderFor-set :
    (s : Connections) (calls : List (ℕ × DialCall)) (d : ℕ) (call new : DialCall) (r : Reader)
    → map_get d calls ≡ some call
    → new.conn_id ≡ call.conn_id
    → ReaderFor s calls r
    → ReaderFor s (map_set d new calls) r
ReaderFor-set s calls d call new looping g i h = tt
ReaderFor-set s calls d call new reading g i h = tt
ReaderFor-set s calls d call new (acking id k) g i h = Called-set calls d call new k id g i h
ReaderFor-set s calls d call new (answering k result after) g i (id, c, h) =
    (id, Called-set calls d call new k id g i c, h)
ReaderFor-set s calls d call new (delivering k bytes) g i h = h
ReaderFor-set s calls d call new (joining j) g i h = tt
ReaderFor-set s calls d call new reader_stopped g i h = tt

pub IsDialed-set :
    (s : Connections) (pending : List (ℕ × ℕ)) (calls : List (ℕ × DialCall)) (next_call : ℕ)
    (r : Reader) (d : ℕ) (call new : DialCall)
    → map_get d calls ≡ some call
    → new.conn_id ≡ call.conn_id
    → CallFor s new
    → IsDialed s pending calls next_call r
    → IsDialed s pending (map_set d new calls) next_call r
IsDialed-set s pending calls next_call r d call new g i ok w = record {
  pending_for = λ id k e. Called-set calls d call new k id g i (w.pending_for id k e);
  fresh_calls = λ k c e. elim (map_set-cases d k new c calls e) [
    | inl (same, at) ↦ ground (arith, same, w.fresh_calls d call g)
    | inr (other, old) ↦ w.fresh_calls k c old
  ];
  calls_for = λ k c e. elim (map_set-cases d k new c calls e) [
    | inl (same, at) ↦ rw at ok
    | inr (other, old) ↦ w.calls_for k c old
  ];
  reader_for = ReaderFor-set s calls d call new r g i w.reader_for;
}
