-- ===== src/Mux/Table/Owned.antt =====
-- internal/mux/agent_mux.go: an object keeps its ID.
use awsocks.Prelude.{ℕ, ◌+◌, ◌≡◌, inl, inr, some, Option-cases, Bool-cases, arith, ◌==◌, ==_iff}
use awsocks.Prelude.Maps.{map_get, map_set, map_get-map_set, nat_eq}
use awsocks.Mux.Connection.{MuxConn, new_mux_conn}
use awsocks.Mux.State.{Connections}
use awsocks.Mux.Teardown.{update_object}
use awsocks.Mux.Table.{Tables, update_object-some, update_object-none}
use awsocks.Mux.Table.Kept.{Quiet}

-- the object exists, and has this ID
abbrev pub Owned : Connections → ℕ → ℕ → Type 0
Owned s h id = (c : MuxConn) × (map_get h s.objects ≡ some c) × (c.id ≡ id)

abbrev pub Grows : Connections → Connections → Type 0
Grows s t = (h id : ℕ) → Owned s h id → Owned t h id

Owned-set :
    (k h id : ℕ) (c d : MuxConn) (s : Connections)
    → map_get k s.objects ≡ some c
    → d.id ≡ c.id
    → Owned s h id
    → (e : MuxConn) × (map_get h (map_set k d s.objects) ≡ some e) × (e.id ≡ id)
Owned-set k h id c d s g i (e, ge, ie) = elim (Bool-cases (k == h)) [
  | inl same ↦ (
    d,
    ground (arith, same, map_get-map_set k h d s.objects),
    ground (arith, ==_iff k h, same, g, i, ge, ie),
  )
  | inr other ↦ (e, ground (arith, other, ge, map_get-map_set k h d s.objects), ie)
]

pub Grows-update_object :
    (k : ℕ) (f : MuxConn → MuxConn) (s : Connections) → Quiet f → Grows s (update_object k f s)
Grows-update_object k f s q = elim (Option-cases (map_get k s.objects)) [
  | inl missing ↦ rw (update_object-none k f s missing) (λ h id o. o)
  | inr (c, g) ↦
      rw (update_object-some k f s c g) (λ h id o. Owned-set k h id c (f c) s g (q.same_id c) o)
]

-- handleConnectAck: the new object is not one of the old ones.
pub Grows-register :
    (id : ℕ) (s : Connections)
    → Tables s
    → Grows s (record s {
      objects = map_set s.next_object (new_mux_conn id) s.objects;
      conns = map_set id s.next_object s.conns;
      next_object = s.next_object + 1;
    })
Grows-register id s t h i (c, g, e) = (
  c,
  ground (arith, g, t.fresh h c g, map_get-map_set s.next_object h (new_mux_conn id) s.objects),
  e,
)
