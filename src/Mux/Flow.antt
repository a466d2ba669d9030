-- ===== src/Mux/Flow.antt =====
-- internal/mux/agent_mux.go: the way of the bytes from readLoop into a connection.
use mathlib.Core.Path.{subst}
use awsocks.Prelude.{
  ℕ, ◌≡◌, ◌⊎◌, inl, inr, refl, sym, ap, ◌∙◌, Bool, true, false, ◌||◌, [], ◌++◌, if◌then◌else◌, ◌==◌,
  ==_iff, Bytes, arith, append-nil, Bool-cases,
}
use awsocks.Prelude.Maps.{nat_eq}
use awsocks.Mux.Connection.{MuxConn, read_conn, push}
use awsocks.Mux.Connection.Within.{Within, Within-refl, Within-append, Within-front}
use awsocks.Mux.Connection.Stream.{content, read_conn-Keeps, push-content}
use awsocks.Mux.State.{Reader, looping, delivering, reader_stopped}
use awsocks.Mux.Teardown.{begin_close}

-- the payload that readLoop holds for an object
abbrev pub flying : Reader → ℕ → Bytes
flying (delivering k bytes) h = if k == h then bytes else []
flying _ h = []

abbrev pub busy : Reader → ℕ → Bool
busy (delivering k bytes) h = k == h
busy _ h = false

-- readLoop will look at its context before it reads again, or is gone.
abbrev pub stalled : Reader → Bool
stalled looping = true
stalled reader_stopped = true
stalled _ = false

-- While the connection is open, what is routed to it is what came into it and a rest: the payload in
-- flight, or one that was dropped because the context has ended, behind which nothing follows.
abbrev pub Dropped : Reader → Bool → ℕ → Type 0
Dropped r cancelled h = (busy r h ≡ false) × (cancelled ≡ true) × (stalled r ≡ true)

abbrev pub OpenFlow : Reader → Bool → ℕ → MuxConn → Type 0
OpenFlow r cancelled h c =
    (rest : Bytes) × (content c ++ rest ≡ c.routed) × ((rest ≡ flying r h) ⊎ Dropped r cancelled h)

-- Open or closed, what came into it and what is in flight are, in their order, some of the bytes that
-- are routed to it.
abbrev pub Flow : Reader → Bool → ℕ → MuxConn → Type 0
Flow r cancelled h c =
    Within (content c ++ flying r h) c.routed × ((c.closed ≡ true) ⊎ OpenFlow r cancelled h c)

OpenFlow-change :
    (r r' : Reader) (b b' : Bool) (h : ℕ) (c : MuxConn)
    → flying r h ≡ flying r' h
    → busy r' h ≡ false ⊎ (busy r h ≡ busy r' h)
    → (b ≡ true → stalled r ≡ true → (b' ≡ true) × (stalled r' ≡ true))
    → OpenFlow r b h c
    → OpenFlow r' b' h c
OpenFlow-change r r' b b' h c f y s (rest, e, inl all) = (rest, e, inl (all ∙ f))
OpenFlow-change r r' b b' h c f y s (rest, e, inr (idle, cancelled, stops)) =
    (rest, e, inr (ground (arith, y, idle), (s cancelled stops).0, (s cancelled stops).1))

-- a change of readLoop or of the context, with no payload taken or left
pub Flow-change :
    (r r' : Reader) (b b' : Bool) (h : ℕ) (c : MuxConn)
    → flying r h ≡ flying r' h
    → busy r' h ≡ false ⊎ (busy r h ≡ busy r' h)
    → (b ≡ true → stalled r ≡ true → (b' ≡ true) × (stalled r' ≡ true))
    → Flow r b h c
    → Flow r' b' h c
Flow-change r r' b b' h c f y s (in_order, inl shut) =
    (subst (λ x. Within (content c ++ x) c.routed) f in_order, inl shut)
Flow-change r r' b b' h c f y s (in_order, inr o) = (
  subst (λ x. Within (content c ++ x) c.routed) f in_order,
  inr (OpenFlow-change r r' b b' h c f y s o),
)

pub Flow-close :
    (r : Reader) (b : Bool) (h : ℕ) (c : MuxConn) → Flow r b h c → Flow r b h (begin_close c)
unfolding begin_close
Flow-close r b h c (in_order, w) = (in_order, inl refl)

pub Flow-read :
    (n : ℕ) (r : Reader) (b : Bool) (h : ℕ) (c : MuxConn)
    → Flow r b h c
    → Flow r b h (read_conn n c).0
Flow-read n r b h c (in_order, w) =
    let k = read_conn-Keeps n c in
    (
      subst (λ x. Within (x ++ flying r h) (read_conn n c).0.routed) (sym k.same_content)
          (subst (Within (content c ++ flying r h)) (sym k.same_routed) in_order),
      elim w [
        | inl shut ↦ inl (k.same_closed ∙ shut)
        | inr (rest, e, o) ↦
            inr (rest, ap (λ x. x ++ rest) k.same_content ∙ e ∙ sym k.same_routed, o)
      ],
    )

-- handleData finds a connection while readLoop holds nothing.
pub Flow-take :
    (b : Bool) (h : ℕ) (bytes : Bytes) (c : MuxConn)
    → Flow Reader.reading b h c
    → Flow (Reader.delivering h bytes) b h (record c { routed = c.routed ++ bytes })
Flow-take b h bytes c (in_order, w) =
    let same : flying (Reader.delivering h bytes) h ≡ bytes = ground (arith, (==_iff h h).1 refl) in
    (
      subst (λ x. Within (content c ++ x) (c.routed ++ bytes)) (sym same)
          (Within-append (content c) c.routed bytes bytes
            (Within-front (content c) [] c.routed in_order) (Within-refl bytes)),
      elim w [
        | inl shut ↦ inl shut
        | inr (rest, e, inl all) ↦ inr (
          bytes,
          ap (λ x. x ++ bytes) (sym (append-nil (content c)) ∙ ap (◌++◌ (content c)) (sym all) ∙ e),
          inl (sym same),
        )
        | inr (rest, e, inr (idle, cancelled, stops)) ↦ absurd (ground (arith, stops))
      ],
    )

pub Flow-push :
    (b : Bool) (h : ℕ) (bytes : Bytes) (c : MuxConn)
    → Flow (Reader.delivering h bytes) b h c
    → Flow Reader.looping b h (push bytes c)
unfolding push
Flow-push b h bytes c (in_order, w) =
    let same : flying (Reader.delivering h bytes) h ≡ bytes = ground (arith, (==_iff h h).1 refl) in
    let pushed : content (push bytes c) ++ [] ≡ content c ++ bytes =
      append-nil (content (push bytes c)) ∙ push-content bytes c in
    (
      subst (λ x. Within x c.routed) (sym pushed)
          (subst (λ x. Within (content c ++ x) c.routed) same in_order),
      elim w [
        | inl shut ↦ inl shut
        | inr (rest, e, inl all) ↦
            inr ([], pushed ∙ ap (◌++◌ (content c)) (sym (all ∙ same)) ∙ e, inl refl)
        | inr (rest, e, inr (idle, cancelled, stops)) ↦
            absurd (ground (arith, idle, (==_iff h h).1 refl))
      ],
    )

-- closeSignal or the context ends the wait.
pub Flow-drop :
    (b : Bool) (h : ℕ) (bytes : Bytes) (c : MuxConn)
    → (c.closed || b) ≡ true
    → Flow (Reader.delivering h bytes) b h c
    → Flow Reader.looping b h c
Flow-drop b h bytes c ends (in_order, w) = (
  subst (λ x. Within x c.routed) (sym (append-nil (content c)))
      (Within-front (content c) (flying (Reader.delivering h bytes) h) c.routed in_order),
  elim (Bool-cases c.closed) [
    | inl shut ↦ inl shut
    | inr open_still ↦ elim w [
      | inl shut ↦ inl shut
      | inr (rest, e, o) ↦ inr (rest, e, inr (refl, ground (arith, ends, open_still), refl))
    ]
  ],
)
