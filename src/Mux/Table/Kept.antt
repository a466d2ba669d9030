-- ===== src/Mux/Table/Kept.antt =====
-- internal/mux/agent_mux.go: what every change of the connections keeps of their table.
use awsocks.Prelude.{ℕ, ◌+◌, ◌<◌, ◌≡◌, inl, inr, some, Option-cases, arith}
use awsocks.Prelude.Maps.{
  map_get, map_set, map_set-cases, map_delete-cases, map_delete, map_get-map_set, nat_eq,
}
use awsocks.Mux.Connection.{MuxConn, new_mux_conn}
use awsocks.Mux.State.{Connections}
use awsocks.Mux.Teardown.{update_object}
use awsocks.Mux.Table.{
  Each-update, Registered, Registered-set, Tables, update_object-some, update_object-none,
}

-- What a change of a connection has to keep for the table.
pub record Quiet (f : MuxConn → MuxConn) : Type 0 where
  pub same_id : (c : MuxConn) → (f c).id ≡ c.id

next_object-update_object :
    (h : ℕ) (f : MuxConn → MuxConn) (s : Connections)
    → (update_object h f s).next_object ≡ s.next_object
unfolding update_object
next_object-update_object h f s = ground (arith)

registered-update_object :
    (h : ℕ) (f : MuxConn → MuxConn) (s : Connections)
    → Quiet f
    → ((id k : ℕ) → map_get id s.conns ≡ some k → Registered s id k)
    → (id k : ℕ) → map_get id (update_object h f s).conns ≡ some k
    → Registered (update_object h f s) id k
registered-update_object h f s q r = elim (Option-cases (map_get h s.objects)) [
  | inl missing ↦ rw (update_object-none h f s missing) r
  | inr (c, g) ↦
      rw (update_object-some h f s c g)
        (λ id k e. Registered-set s h k id c (f c) g (q.same_id c) (r id k e))
]

pub Tables-update_object :
    (h : ℕ) (f : MuxConn → MuxConn) (s : Connections)
    → Quiet f
    → Tables s
    → Tables (update_object h f s)
Tables-update_object h f s q t = record {
  registered = registered-update_object h f s q t.registered;
  fresh = rw (next_object-update_object h f s) (
      Each-update (λ k c. k < s.next_object) (λ k c. k < s.next_object) h f s t.fresh (λ c b. b)
        (λ k c o b. b));
}

-- unregisterConn
pub Tables-unregister :
    (id : ℕ) (s : Connections) → Tables s → Tables (record s { conns = map_delete id s.conns })
Tables-unregister id s t = record {
  registered = λ j k e. t.registered j k (map_delete-cases id j k s.conns e).1;
  fresh = t.fresh;
}

-- handleConnectAck: a new object under an ID
pub Tables-register :
    (id : ℕ) (s : Connections)
    → Tables s
    → Tables (record s {
      objects = map_set s.next_object (new_mux_conn id) s.objects;
      conns = map_set id s.next_object s.conns;
      next_object = s.next_object + 1;
    })
unfolding new_mux_conn
Tables-register id s t = record {
  registered = λ j k e. elim (map_set-cases id j s.next_object k s.conns e) [
    | inl (same, new) ↦ (
      new_mux_conn id,
      ground (arith, new, map_get-map_set s.next_object k (new_mux_conn id) s.objects),
      same,
    )
    | inr (other, old) ↦
        let (c, g, i) = t.registered j k old in
        (
          c,
          ground (
            arith,
            g,
            t.fresh k c g,
            map_get-map_set s.next_object k (new_mux_conn id) s.objects,
          ),
          i,
        )
  ];
  fresh = λ k c g. elim (map_set-cases s.next_object k (new_mux_conn id) c s.objects g) [
    | inl (same, new) ↦ omega (arith, same)
    | inr (other, old) ↦ omega (arith, t.fresh k c old)
  ];
}
