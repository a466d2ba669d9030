-- ===== src/Mux/Dials/Changes.antt =====
-- internal/mux/agent_mux.go: Dial begins and ends, and declareDead offers its reason.
use awsocks.Prelude.{
  ◌⊎◌, ℕ, ◌+◌, ◌≡◌, inl, inr, refl, sym, some, List, [], ◌∷◌, Bytes, arith, Option-cases, All,
}
use awsocks.Prelude.Maps.{
  map_get, map_set, map_delete, map_get-map_set, map_set-cases, map_delete-cases, nat_eq,
}
use awsocks.Mux.State.{
  ConnResult, DialOutcome, DialPhase, DialCall, Reader, Connections, AgentMux, looping, reading,
  acking, answering, delivering, joining, reader_stopped,
}
use awsocks.Mux.Teardown.{offer, fail_all}
use awsocks.Mux.Dials.{ResultFor, OutcomeFor, CallFor, Called, ReaderFor, IsDialed, IsDialed-set}
use awsocks.Mux.Calls.{finish_dial}

abbrev pub IsCalled : AgentMux → Type 0
IsCalled m = IsDialed m.connections m.pending m.calls m.next_call m.reader

offer-cases :
    (reason : Bytes) (call : DialCall)
    → ((offer reason call).conn_id ≡ call.conn_id)
      × ((offer reason call).phase ≡ call.phase)
      × (((offer reason call).resp ≡ call.resp)
          ⊎ ((offer reason call).resp ≡ ConnResult.refused reason ∷ []))
unfolding offer
offer-cases reason call = ground arith

offer-CallFor :
    (reason : Bytes) (s : Connections) (call : DialCall)
    → CallFor s call
    → CallFor s (offer reason call)
offer-CallFor reason s call w =
    let (i, p, r) = offer-cases reason call in
    elim r [ inl same ↦ rw (i, p, same) w | inr new ↦ rw (i, p, new) ((tt, tt), w.1) ]

pub IsDialed-fail_all :
    (reason : Bytes) (es : List (ℕ × ℕ)) (s : Connections) (pending : List (ℕ × ℕ))
    (calls : List (ℕ × DialCall)) (next_call : ℕ) (r : Reader)
    → IsDialed s pending calls next_call r
    → IsDialed s pending (fail_all reason es calls) next_call r
unfolding fail_all
IsDialed-fail_all reason [] s pending calls next_call r w = w
IsDialed-fail_all reason ((id, d) ∷ es) s pending calls next_call r w =
    elim (Option-cases (map_get d calls)) [
      | inl missing ↦ rw missing (IsDialed-fail_all reason es s pending calls next_call r w)
      | inr (call, g) ↦ rw g (
          IsDialed-fail_all reason es s pending (map_set d (offer reason call) calls) next_call r (
            IsDialed-set s pending calls next_call r d call (offer reason call) g
              (offer-cases reason call).0 (offer-CallFor reason s call (w.calls_for d call g)) w))
    ]

-- the deferred delete
IsDialed-forget :
    (s : Connections) (pending : List (ℕ × ℕ)) (calls : List (ℕ × DialCall)) (next_call : ℕ)
    (r : Reader) (id : ℕ)
    → IsDialed s pending calls next_call r
    → IsDialed s (map_delete id pending) calls next_call r
IsDialed-forget s pending calls next_call r id w = record {
  pending_for = λ k d e. w.pending_for k d (map_delete-cases id k d pending e).1;
  fresh_calls = w.fresh_calls;
  calls_for = w.calls_for;
  reader_for = w.reader_for;
}

pub finish_dial-IsCalled :
    (d : ℕ) (call : DialCall) (resp : List ConnResult) (outcome : DialOutcome) (m : AgentMux)
    → map_get d m.calls ≡ some call
    → All (ResultFor m.connections call.conn_id) resp
    → OutcomeFor m.connections call.conn_id (DialPhase.returned outcome)
    → IsCalled m
    → IsCalled (finish_dial d call resp outcome m)
unfolding finish_dial
finish_dial-IsCalled d call resp outcome m g rs o w =
    let new : DialCall = record call { resp = resp; phase = DialPhase.returned outcome } in
    IsDialed-forget m.connections m.pending (map_set d new m.calls) m.next_call m.reader
      call.conn_id
      (IsDialed-set m.connections m.pending m.calls m.next_call m.reader d call new g refl (rs, o)
        w)

ReaderFor-keeps :
    (s : Connections) (calls more : List (ℕ × DialCall)) (r : Reader)
    → ((k id : ℕ) → Called calls k id → Called more k id)
    → ReaderFor s calls r
    → ReaderFor s more r
ReaderFor-keeps s calls more looping f h = tt
ReaderFor-keeps s calls more reading f h = tt
ReaderFor-keeps s calls more (acking id k) f h = f k id h
ReaderFor-keeps s calls more (answering k result after) f (id, c, h) = (id, f k id c, h)
ReaderFor-keeps s calls more (delivering k bytes) f h = h
ReaderFor-keeps s calls more (joining j) f h = tt
ReaderFor-keeps s calls more reader_stopped f h = tt

-- A new call has a number of its own.
pub IsDialed-call :
    (s : Connections) (pending : List (ℕ × ℕ)) (calls : List (ℕ × DialCall)) (next_call : ℕ)
    (r : Reader) (new : DialCall)
    → new.resp ≡ []
    → OutcomeFor s new.conn_id new.phase
    → IsDialed s pending calls next_call r
    → IsDialed s pending (map_set next_call new calls) (next_call + 1) r
IsDialed-call s pending calls next_call r new e o w =
    let keeps : (k id : ℕ) → Called calls k id → Called (map_set next_call new calls) k id =
      λ k id c. (
        c.0,
        ground (arith, c.1, w.fresh_calls k c.0 c.1, map_get-map_set next_call k new calls),
        c.2,
      ) in
    record {
      pending_for = λ id d p. keeps d id (w.pending_for id d p);
      fresh_calls = λ d c g. elim (map_set-cases next_call d new c calls g) [
        | inl (same, at) ↦ omega (arith, same)
        | inr (other, old) ↦ omega (arith, w.fresh_calls d c old)
      ];
      calls_for = λ d c g. elim (map_set-cases next_call d new c calls g) [
        | inl (same, at) ↦ rw (at, e) (tt, o)
        | inr (other, old) ↦ w.calls_for d c old
      ];
      reader_for = ReaderFor-keeps s calls (map_set next_call new calls) r keeps w.reader_for;
    }

pub IsDialed-ask :
    (s : Connections) (pending : List (ℕ × ℕ)) (calls : List (ℕ × DialCall)) (next_call : ℕ)
    (r : Reader) (id d : ℕ)
    → Called calls d id
    → IsDialed s pending calls next_call r
    → IsDialed s (map_set id d pending) calls next_call r
IsDialed-ask s pending calls next_call r id d c w = record {
  pending_for = λ k e g. elim (map_set-cases id k d e pending g) [
    | inl (same, at) ↦ rw (sym same, at) c
    | inr (other, old) ↦ w.pending_for k e old
  ];
  fresh_calls = w.fresh_calls;
  calls_for = w.calls_for;
  reader_for = w.reader_for;
}
