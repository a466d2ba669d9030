-- ===== src/Mux/Table.antt =====
-- internal/mux/agent_mux.go: the table of connections and their objects, under every change that the
-- goroutines make.
pub mod Kept
pub mod Owned
use awsocks.Prelude.{
  ℕ, ◌+◌, ◌<◌, ◌≤◌, ◌≡◌, ◌≢◌, ◌⊎◌, inl, inr, refl, sym, ap, ◌∙◌, Bool, true, false, Option, none,
  some, List, ◌==◌, [], ◌∷◌, ◌++◌, length, Bytes, Option-cases, Bool-cases, arith,
}
use awsocks.Prelude.Maps.{
  map_get, map_set, map_delete, map_set-cases, map_delete-cases, map_get-map_set, nat_eq,
}
use awsocks.Mux.Connection.{MuxConn, read_buf_capacity, new_mux_conn}
use awsocks.Mux.State.{Connections}
use awsocks.Mux.Teardown.{update_object}

-- a property of every object
abbrev pub Each : (ℕ → MuxConn → Type 0) → Connections → Type 0
Each P s = (h : ℕ) (c : MuxConn) → map_get h s.objects ≡ some c → P h c

pub update_object-some :
    (h : ℕ) (f : MuxConn → MuxConn) (s : Connections) (c : MuxConn)
    → map_get h s.objects ≡ some c
    → update_object h f s ≡ record s { objects = map_set h (f c) s.objects }
unfolding update_object
update_object-some h f s c g = rw (update_object, g) refl

pub update_object-none :
    (h : ℕ) (f : MuxConn → MuxConn) (s : Connections)
    → map_get h s.objects ≡ none
    → update_object h f s ≡ s
unfolding update_object
update_object-none h f s g = rw (update_object, g) refl

pub Each-update :
    (P Q : ℕ → MuxConn → Type 0) (h : ℕ) (f : MuxConn → MuxConn) (s : Connections)
    → Each P s
    → ((c : MuxConn) → P h c → Q h (f c))
    → ((j : ℕ) (c : MuxConn) → h ≢ j → P j c → Q j c)
    → Each Q (update_object h f s)
Each-update P Q h f s each here others = elim (Option-cases (map_get h s.objects)) [
  | inl missing ↦
      rw (update_object-none h f s missing)
        (λ j c g. others j c (λ e. ground (arith, missing, g, e)) (each j c g))
  | inr (c, g) ↦ rw (update_object-some h f s c g) (λ j d k.
      elim (map_set-cases h j (f c) d s.objects k) [
        | inl (same, new) ↦ rw (sym same, new) (here c (each h c g))
        | inr (other, old) ↦ others j d other (each j d old)
      ])
]

-- What the table says of a connection: its object carries the ID.
abbrev pub Registered : Connections → ℕ → ℕ → Type 0
Registered s id h = (c : MuxConn) × (map_get h s.objects ≡ some c) × (c.id ≡ id)

pub record Tables (s : Connections) : Type 0 where
  pub registered : (id h : ℕ) → map_get id s.conns ≡ some h → Registered s id h
  pub fresh : (h : ℕ) (c : MuxConn) → map_get h s.objects ≡ some c → h < s.next_object

pub Registered-set :
    (s : Connections) (h k id : ℕ) (c d : MuxConn)
    → map_get h s.objects ≡ some c
    → d.id ≡ c.id
    → Registered s id k
    → (e : MuxConn) × (map_get k (map_set h d s.objects) ≡ some e) × (e.id ≡ id)
Registered-set s h k id c d g i (e, ge, ie) = elim (Bool-cases (h == k)) [
  | inl same ↦
      (d, ground (arith, same, map_get-map_set h k d s.objects), ground (arith, same, g, i, ge, ie))
  | inr other ↦ (e, ground (arith, other, ge, map_get-map_set h k d s.objects), ie)
]
