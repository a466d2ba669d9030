-- ===== src/Mux/Dials/Messages.antt =====
-- internal/mux/agent_mux.go, readLoop: the results that it hands to the calls of Dial.
use mathlib.Core.Path.{subst}
use awsocks.Prelude.{
  ◌++◌, if◌then◌else◌, ℕ, ◌≡◌, inl, inr, refl, Bool, true, false, none, some, [], ◌∷◌, ◌==◌, arith,
  Option-cases,
}
use awsocks.Prelude.Maps.{map_get, map_set, nat_eq}
use awsocks.Mux.State.{
  ConnResult, DialCall, Reader, AgentMux, looping, reading, acking, answering, delivering, joining,
  reader_stopped,
}
use awsocks.Mux.Table.Owned.{Owned}
use awsocks.Mux.Dials.{ResultFor, ReaderFor, IsDialed-set}
use awsocks.Protocol.{Message}
use awsocks.Mux.Connection.{MuxConn}
use awsocks.Mux.Teardown.{update_object, close_registered, spawn}
use awsocks.Mux.Reader.{
  answer, receive, dispatch, handle_connect_ack, handle_data, handle_close, handle_error,
}
use awsocks.Mux.Table.{Tables}
use awsocks.Mux.Table.Owned.{Grows-update_object}
use awsocks.Mux.Dials.Changes.{IsCalled}
use awsocks.Mux.Dials.Steps.{holds_something, Kept, quiet-IsCalled, idle-IsCalled, unchanged}
use awsocks.Protocol.{Message, connect_ack, data_type, close_type, error_type, pong}

-- the result is in the channel of its call
answered : ℕ → DialCall → ConnResult → AgentMux → AgentMux
answered d call result m = record m {
  calls = map_set d (record call { resp = result ∷ [] }) m.calls;
}

answered-IsCalled :
    (d : ℕ) (call : DialCall) (result : ConnResult) (m t : AgentMux)
    → map_get d m.calls ≡ some call
    → ResultFor m.connections call.conn_id result
    → Kept (answered d call result m) t
    → t.connections ≡ m.connections
    → holds_something t.reader ≡ false
    → IsCalled m
    → IsCalled t
unfolding answered
answered-IsCalled d call result m t g r k e idle w =
    idle-IsCalled (answered d call result m) t k (unchanged m.connections t.connections e) idle (
      IsDialed-set m.connections m.pending m.calls m.next_call m.reader d call
        (record call { resp = result ∷ [] }) g refl ((r, tt), (w.calls_for d call g).1) w)

answer_by :
    (m t : AgentMux) (r : Reader)
    → m.reader ≡ r
    → ReaderFor m.connections m.calls r
    → answer m ≡ some t
    → IsCalled m
    → IsCalled t
unfolding answer answered close_registered spawn
answer_by m t looping e f h w = absurd (ground (arith, e, h))
answer_by m t reading e f h w = absurd (ground (arith, e, h))
answer_by m t (acking id d) e f h w = absurd (ground (arith, e, h))
answer_by m t (answering d result none) e (id, (call, g, i), f) h w =
    answered-IsCalled d call result m t g (rw i f) (ground (arith, e, g, h))
      (ground (arith, e, g, h)) (ground (arith, e, g, h)) w
answer_by m t (answering d result (some at)) e (id, (call, g, i), f) h w =
    answered-IsCalled d call result m t g (rw i f) (ground (arith, e, g, h))
      (ground (arith, e, g, h)) (ground (arith, e, g, h)) w
answer_by m t (delivering k bytes) e f h w = absurd (ground (arith, e, h))
answer_by m t (joining j) e f h w = absurd (ground (arith, e, h))
answer_by m t reader_stopped e f h w = absurd (ground (arith, e, h))

pub answer-IsCalled : (m t : AgentMux) → answer m ≡ some t → IsCalled m → IsCalled t
answer-IsCalled m t h w = answer_by m t m.reader refl w.reader_for h w

handle_connect_ack-IsCalled :
    (msg : Message) (m : AgentMux) → IsCalled m → IsCalled (handle_connect_ack msg m)
unfolding handle_connect_ack
handle_connect_ack-IsCalled msg m w = elim (Option-cases (map_get msg.conn_id m.pending)) [
  | inl missing ↦
      rw (handle_connect_ack, missing)
        (quiet-IsCalled m (record m { reader = Reader.looping }) (refl, refl, refl) (λ k i o. o) tt
          w)
  | inr (d, g) ↦
      rw (handle_connect_ack, g)
        (quiet-IsCalled m (record m { reader = Reader.acking msg.conn_id d }) (refl, refl, refl)
          (λ k i o. o) (w.pending_for msg.conn_id d g) w)
]

-- the connection that handleData finds
found :
    (msg : Message) (m : AgentMux) (h : ℕ)
    → map_get msg.conn_id m.connections.conns ≡ some h
    → Tables m.connections
    → Owned
        (update_object h (λ c. record c { routed = c.routed ++ msg.payload }) m.connections)
        h
        msg.conn_id
found msg m h g ts =
    let (c, gc, i) = ts.registered msg.conn_id h g in
    Grows-update_object h (λ d. record d { routed = d.routed ++ msg.payload }) m.connections
      (record { same_id = λ d. refl }) h msg.conn_id (c, gc, i)

handle_data-IsCalled :
    (msg : Message) (m : AgentMux)
    → Tables m.connections
    → IsCalled m
    → IsCalled (handle_data msg m)
unfolding handle_data
handle_data-IsCalled msg m ts w = elim (Option-cases (map_get msg.conn_id m.connections.conns)) [
  | inl missing ↦
      rw (handle_data, missing)
        (quiet-IsCalled m (record m { reader = Reader.looping }) (refl, refl, refl) (λ k i o. o) tt
          w)
  | inr (h, g) ↦
      let route : MuxConn → MuxConn = λ c. record c { routed = c.routed ++ msg.payload } in
      rw (handle_data, g)
        (quiet-IsCalled m
          (record m {
            connections = update_object h route m.connections;
            reader = Reader.delivering h msg.payload;
          })
          (refl, refl, refl)
          (Grows-update_object h route m.connections (record { same_id = λ c. refl }))
          (msg.conn_id, found msg m h g ts) w)
]

handle_error-IsCalled : (msg : Message) (m : AgentMux) → IsCalled m → IsCalled (handle_error msg m)
unfolding handle_error close_registered spawn
handle_error-IsCalled msg m w = elim (Option-cases (map_get msg.conn_id m.pending)) [
  | inl missing ↦
      rw (handle_error, missing)
        (idle-IsCalled m
          (record (close_registered msg.conn_id m) { reader = Reader.joining m.next_job })
          (refl, refl, refl) (λ k i o. o) refl w)
  | inr (d, g) ↦
      rw (handle_error, g)
        (quiet-IsCalled m
          (record m {
            reader = Reader.answering d (ConnResult.refused msg.payload) (some msg.conn_id);
          })
          (refl, refl, refl) (λ k i o. o) (msg.conn_id, w.pending_for msg.conn_id d g, tt) w)
]

either : (b : Bool) (x y : AgentMux) → IsCalled x → IsCalled y → IsCalled (if b then x else y)
either true x y p q = p
either false x y p q = q

dispatch-IsCalled :
    (msg : Message) (m : AgentMux) → Tables m.connections → IsCalled m → IsCalled (dispatch msg m)
unfolding dispatch handle_close close_registered spawn
dispatch-IsCalled msg m ts w =
    let idle : (n : AgentMux)
        → Kept m n
        → n.connections ≡ m.connections
        → n.reader ≡ Reader.looping
        → IsCalled n =
      λ n k e r.
        idle-IsCalled m n k (unchanged m.connections n.connections e) (ground (arith, r)) w in
    either (msg.type == connect_ack) _ _ (handle_connect_ack-IsCalled msg m w) (
      either (msg.type == data_type) _ _ (handle_data-IsCalled msg m ts w) (
        either (msg.type == close_type) _ _
          (idle-IsCalled m (handle_close msg m) (refl, refl, refl) (λ k i o. o) refl w)
          (either (msg.type == error_type) _ _ (handle_error-IsCalled msg m w) (
            either (msg.type == pong) _ _
              (idle (record m { pong = true; reader = Reader.looping }) (refl, refl, refl) refl
                refl)
              (idle (record m { reader = Reader.looping }) (refl, refl, refl) refl refl)))))

pub receive-IsCalled :
    (msg : Message) (m t : AgentMux)
    → receive msg m ≡ some t
    → Tables m.connections
    → IsCalled m
    → IsCalled t
unfolding receive
receive-IsCalled msg m t h ts w =
    let done : dispatch msg m ≡ t = ground (arith, h) in
    subst IsCalled done (dispatch-IsCalled msg m ts w)
