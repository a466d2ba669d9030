-- ===== src/Mux/Inversion/Sends.antt =====
-- internal/mux/agent_mux.go, readLoop: what its steps behind a lookup can have been.
use awsocks.Prelude.{
  ℕ, ◌+◌, ◌<◌, ◌≡◌, inl, inr, refl, sym, ap, true, false, ◌||◌, Option, none, some, length, Bytes,
  arith, Option-cases,
}
use awsocks.Prelude.Maps.{map_get, map_set, nat_eq}
use awsocks.Mux.Connection.{MuxConn, push, new_mux_conn, read_buf_capacity}
use awsocks.Mux.State.{
  Reader, AgentMux, looping, reading, acking, answering, delivering, joining, reader_stopped,
}
use awsocks.Mux.Teardown.{update_object, close_registered, spawn}
use awsocks.Mux.Reader.{register_conn, deliver_data, drop_data, answer, join_job}
use awsocks.Mux.Flow.{stalled}
use awsocks.Mux.Inversion.Messages.{delivers, acks}

-- handleConnectAck from newMuxConn to its send
abbrev Registers : AgentMux → AgentMux → Type 0
Registers m t =
    (acks m.reader ≡ true)
    × (delivers t.reader ≡ false)
    × (t.cancelled ≡ m.cancelled)
    × ((id : ℕ) × (t.connections ≡ record m.connections {
      objects = map_set m.connections.next_object (new_mux_conn id) m.connections.objects;
      conns = map_set id m.connections.next_object m.connections.conns;
      next_object = m.connections.next_object + 1;
    }))

register_conn_by :
    (m t : AgentMux) (r : Reader) → m.reader ≡ r → register_conn m ≡ some t → Registers m t
unfolding register_conn
register_conn_by m t looping e h = absurd (ground (arith, e, h))
register_conn_by m t reading e h = absurd (ground (arith, e, h))
register_conn_by m t (acking id d) e h =
    (ground (arith, e), ground (arith, e, h), ground (arith, e, h), (id, ground (arith, e, h)))
register_conn_by m t (answering d result after) e h = absurd (ground (arith, e, h))
register_conn_by m t (delivering k bytes) e h = absurd (ground (arith, e, h))
register_conn_by m t (joining j) e h = absurd (ground (arith, e, h))
register_conn_by m t reader_stopped e h = absurd (ground (arith, e, h))

pub register_conn-cases : (m t : AgentMux) → register_conn m ≡ some t → Registers m t
register_conn-cases m t h = register_conn_by m t m.reader refl h

-- a payload that is in flight to an object
abbrev Delivering : AgentMux → ℕ → Bytes → MuxConn → Type 0
Delivering m k bytes c =
    (m.reader ≡ Reader.delivering k bytes) × (map_get k m.connections.objects ≡ some c)

-- Where the reader is not at the send of handleData, there is no such step.
in_flight :
    (f : AgentMux → Option AgentMux) (m t : AgentMux) (r : Reader)
    → m.reader ≡ r
    → (delivers m.reader ≡ false → f m ≡ none)
    → f m ≡ some t
    → (k : ℕ) × (bytes : Bytes) × (m.reader ≡ Reader.delivering k bytes)
in_flight f m t looping e stays h = absurd (ground (arith, stays (ap delivers e), h))
in_flight f m t reading e stays h = absurd (ground (arith, stays (ap delivers e), h))
in_flight f m t (acking id d) e stays h = absurd (ground (arith, stays (ap delivers e), h))
in_flight f m t (answering d result after) e stays h =
    absurd (ground (arith, stays (ap delivers e), h))
in_flight f m t (delivering k bytes) e stays h = (k, bytes, e)
in_flight f m t (joining j) e stays h = absurd (ground (arith, stays (ap delivers e), h))
in_flight f m t reader_stopped e stays h = absurd (ground (arith, stays (ap delivers e), h))

pub deliver_data-cases :
    (m t : AgentMux)
    → deliver_data m ≡ some t
    → (k : ℕ) × (bytes : Bytes) × (c : MuxConn) × Delivering m k bytes c
      × (length c.read_buf < read_buf_capacity)
      × (t.connections ≡ update_object k (push bytes) m.connections)
      × (t.reader ≡ Reader.looping)
      × (t.cancelled ≡ m.cancelled)
unfolding deliver_data
deliver_data-cases m t h =
    let (k, bytes, e) = in_flight deliver_data m t m.reader refl (λ d. ground (arith, d)) h in
    elim (Option-cases (map_get k m.connections.objects)) [
      | inl missing ↦ absurd (ground (arith, e, missing, h))
      | inr (c, g) ↦ (
        k,
        bytes,
        c,
        (e, g),
        ground (arith, e, g, h),
        ground (arith, e, g, h),
        ground (arith, e, g, h),
        ground (arith, e, g, h),
      )
    ]

pub drop_data-cases :
    (m t : AgentMux)
    → drop_data m ≡ some t
    → (k : ℕ) × (bytes : Bytes) × (c : MuxConn) × Delivering m k bytes c
      × ((c.closed || m.cancelled) ≡ true)
      × (t.connections ≡ m.connections)
      × (t.reader ≡ Reader.looping)
      × (t.cancelled ≡ m.cancelled)
unfolding drop_data
drop_data-cases m t h =
    let (k, bytes, e) = in_flight drop_data m t m.reader refl (λ d. ground (arith, d)) h in
    elim (Option-cases (map_get k m.connections.objects)) [
      | inl missing ↦ absurd (ground (arith, e, missing, h))
      | inr (c, g) ↦ (
        k,
        bytes,
        c,
        (e, g),
        ground (arith, e, g, h),
        ground (arith, e, g, h),
        ground (arith, e, g, h),
        ground (arith, e, g, h),
      )
    ]

-- a send of a result; readLoop goes on, or begins to close a connection
abbrev Answers : AgentMux → AgentMux → Type 0
Answers m t =
    (delivers m.reader ≡ false)
    × (stalled m.reader ≡ false)
    × (delivers t.reader ≡ false)
    × (t.cancelled ≡ m.cancelled)
    × (t.connections ≡ m.connections)

answer_by : (m t : AgentMux) (r : Reader) → m.reader ≡ r → answer m ≡ some t → Answers m t
unfolding answer close_registered spawn
answer_by m t looping e h = absurd (ground (arith, e, h))
answer_by m t reading e h = absurd (ground (arith, e, h))
answer_by m t (acking id d) e h = absurd (ground (arith, e, h))
answer_by m t (answering d result none) e h = (
  ground (arith, e),
  ground (arith, e),
  ground (arith, e, h),
  ground (arith, e, h),
  ground (arith, e, h),
)
answer_by m t (answering d result (some id)) e h = (
  ground (arith, e),
  ground (arith, e),
  ground (arith, e, h),
  ground (arith, e, h),
  ground (arith, e, h),
)
answer_by m t (delivering k bytes) e h = absurd (ground (arith, e, h))
answer_by m t (joining j) e h = absurd (ground (arith, e, h))
answer_by m t reader_stopped e h = absurd (ground (arith, e, h))

pub answer-cases : (m t : AgentMux) → answer m ≡ some t → Answers m t
answer-cases m t h = answer_by m t m.reader refl h

join_by : (m t : AgentMux) (r : Reader) → m.reader ≡ r → join_job m ≡ some t → Answers m t
unfolding join_job
join_by m t looping e h = absurd (ground (arith, e, h))
join_by m t reading e h = absurd (ground (arith, e, h))
join_by m t (acking id d) e h = absurd (ground (arith, e, h))
join_by m t (answering d result next) e h = absurd (ground (arith, e, h))
join_by m t (delivering k bytes) e h = absurd (ground (arith, e, h))
join_by m t (joining j) e h =
    let done : record m { reader = Reader.looping } ≡ t = ground (arith, e, h) in
    (
      ground (arith, e),
      ground (arith, e),
      ap (λ x. delivers x.reader) (sym done),
      ap (λ x. x.cancelled) (sym done),
      ap (λ x. x.connections) (sym done),
    )
join_by m t reader_stopped e h = absurd (ground (arith, e, h))

-- handleClose or handleError is over.
pub join_job-cases : (m t : AgentMux) → join_job m ≡ some t → Answers m t
join_job-cases m t h = join_by m t m.reader refl h
