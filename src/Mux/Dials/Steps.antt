-- ===== src/Mux/Dials/Steps.antt =====
-- internal/mux/agent_mux.go: every step keeps the results with the calls that they are for.
use mathlib.Core.Path.{subst}
use awsocks.Prelude.{ℕ, ◌+◌, ◌≡◌, refl, sym, Bool, true, false, none, some, List, ==_iff, arith}
use awsocks.Prelude.Maps.{map_set, map_get-map_set, nat_eq}
use awsocks.Mux.State.{
  ConnResult, DialCall, Reader, Connections, AgentMux, looping, reading, acking, answering,
  delivering, joining, reader_stopped,
}
use awsocks.Mux.Table.Owned.{Grows}
use awsocks.Mux.Dials.{Called, ReaderFor, IsDialed, IsDialed-Grows, ReaderFor-Grows}
use awsocks.Mux.Connection.{new_mux_conn}
use awsocks.Mux.Reader.{check_reader, register_conn}
use awsocks.Mux.Table.{Tables}
use awsocks.Mux.Table.Owned.{Grows-register}
use awsocks.Mux.Dials.Changes.{IsCalled}

-- no change of the calls
abbrev pub Kept : AgentMux → AgentMux → Type 0
Kept m t = (t.pending ≡ m.pending) × (t.calls ≡ m.calls) × (t.next_call ≡ m.next_call)

pub quiet-IsCalled :
    (m t : AgentMux)
    → Kept m t
    → Grows m.connections t.connections
    → ReaderFor t.connections m.calls t.reader
    → IsCalled m
    → IsCalled t
quiet-IsCalled m t (p, c, n) g r w =
    subst (λ x. IsDialed t.connections x t.calls t.next_call t.reader) (sym p)
      (subst (λ x. IsDialed t.connections m.pending x t.next_call t.reader) (sym c)
        (subst (λ x. IsDialed t.connections m.pending m.calls x t.reader) (sym n)
          (IsDialed-Grows m.connections t.connections m.pending m.calls m.next_call m.reader
            t.reader g r w)))

-- neither the calls nor the reader change
pub still-IsCalled :
    (m t : AgentMux)
    → Kept m t
    → Grows m.connections t.connections
    → t.reader ≡ m.reader
    → IsCalled m
    → IsCalled t
still-IsCalled m t k g e w =
    quiet-IsCalled m t k g
      (subst (ReaderFor t.connections m.calls) (sym e)
        (ReaderFor-Grows m.connections t.connections m.calls m.reader g w.reader_for))
      w

abbrev pub holds_something : Reader → Bool
holds_something (acking id d) = true
holds_something (answering d result after) = true
holds_something (delivering k bytes) = true
holds_something _ = false

-- Where readLoop holds nothing, there is nothing to keep.
pub ReaderFor-idle :
    (s : Connections) (calls : List (ℕ × DialCall)) (r : Reader)
    → holds_something r ≡ false
    → ReaderFor s calls r
ReaderFor-idle s calls looping e = tt
ReaderFor-idle s calls reading e = tt
ReaderFor-idle s calls (acking id d) e = absurd (ground (arith, e))
ReaderFor-idle s calls (answering d result after) e = absurd (ground (arith, e))
ReaderFor-idle s calls (delivering k bytes) e = absurd (ground (arith, e))
ReaderFor-idle s calls (joining j) e = tt
ReaderFor-idle s calls reader_stopped e = tt

pub idle-IsCalled :
    (m t : AgentMux)
    → Kept m t
    → Grows m.connections t.connections
    → holds_something t.reader ≡ false
    → IsCalled m
    → IsCalled t
idle-IsCalled m t k g e w =
    quiet-IsCalled m t k g (ReaderFor-idle t.connections m.calls t.reader e) w

pub unchanged : (s t : Connections) → t ≡ s → Grows s t
unchanged s t e = rw e (λ h id o. o)

pub check_reader-IsCalled : (m t : AgentMux) → check_reader m ≡ some t → IsCalled m → IsCalled t
unfolding check_reader
check_reader-IsCalled m t h =
    idle-IsCalled m t (ground (arith, h))
      (unchanged m.connections t.connections (ground (arith, h))) (ground (arith, h))

-- handleConnectAck from newMuxConn to its send
abbrev registered : ℕ → ℕ → AgentMux → AgentMux
registered id d m = record m {
  connections = record m.connections {
    objects = map_set m.connections.next_object (new_mux_conn id) m.connections.objects;
    conns = map_set id m.connections.next_object m.connections.conns;
    next_object = m.connections.next_object + 1;
  };
  reader = Reader.answering d (ConnResult.connected m.connections.next_object) none;
}

registered-IsCalled :
    (id d : ℕ) (m : AgentMux)
    → Tables m.connections
    → m.reader ≡ Reader.acking id d
    → IsCalled m
    → IsCalled (registered id d m)
unfolding new_mux_conn
registered-IsCalled id d m t e w =
    let called : Called m.calls d id = subst (ReaderFor m.connections m.calls) e w.reader_for in
    quiet-IsCalled m (registered id d m) (refl, refl, refl) (Grows-register id m.connections t)
      (
        id,
        called,
        (
          new_mux_conn id,
          ground (
            arith,
            map_get-map_set m.connections.next_object m.connections.next_object (new_mux_conn id)
                m.connections.objects,
            ==_iff m.connections.next_object m.connections.next_object,
          ),
          refl,
        ),
      )
      w

register_conn_by :
    (m t : AgentMux) (r : Reader)
    → m.reader ≡ r
    → register_conn m ≡ some t
    → Tables m.connections
    → IsCalled m
    → IsCalled t
unfolding register_conn
register_conn_by m t looping e h ts w = absurd (ground (arith, e, h))
register_conn_by m t reading e h ts w = absurd (ground (arith, e, h))
register_conn_by m t (acking id d) e h ts w =
    let done : registered id d m ≡ t = ground (arith, e, h) in
    subst IsCalled done (registered-IsCalled id d m ts e w)
register_conn_by m t (answering d result after) e h ts w = absurd (ground (arith, e, h))
register_conn_by m t (delivering k bytes) e h ts w = absurd (ground (arith, e, h))
register_conn_by m t (joining j) e h ts w = absurd (ground (arith, e, h))
register_conn_by m t reader_stopped e h ts w = absurd (ground (arith, e, h))

pub register_conn-IsCalled :
    (m t : AgentMux) → register_conn m ≡ some t → Tables m.connections → IsCalled m → IsCalled t
register_conn-IsCalled m t h = register_conn_by m t m.reader refl h
