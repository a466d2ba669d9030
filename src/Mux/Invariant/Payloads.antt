-- ===== src/Mux/Invariant/Payloads.antt =====
-- internal/mux/agent_mux.go: the steps that move bytes keep the invariant.
use mathlib.Core.Path.{subst}
use awsocks.Prelude.{
  ℕ, ◌≡◌, ◌≢◌, inl, inr, refl, sym, Bool, true, false, ◌||◌, some, ◌++◌, ◌==◌, ==_iff, Bytes, arith,
  Bool-cases,
}
use awsocks.Prelude.Maps.{map_get, nat_eq}
use awsocks.Protocol.{Message}
use awsocks.Mux.Connection.{MuxConn, read_conn, push}
use awsocks.Mux.Connection.Stream.{read_conn-Keeps}
use awsocks.Mux.State.{Reader, Connections, AgentMux}
use awsocks.Mux.Teardown.{update_object}
use awsocks.Mux.Reader.{deliver_data, drop_data, receive}
use awsocks.Mux.Calls.{read_object}
use awsocks.Mux.Table.{Each-update}
use awsocks.Mux.Table.Kept.{Tables-update_object}
use awsocks.Mux.Flow.{Flow, Flow-change, Flow-read, Flow-take, Flow-push, Flow-drop}
use awsocks.Mux.Inversion.Messages.{receive-cases, nothing, taken}
use awsocks.Mux.Inversion.Sends.{deliver_data-cases, drop_data-cases}
use awsocks.Mux.Invariant.{IsSound, IsWellFormed, moved, IsSound-change}

apart : (h j : ℕ) → h ≢ j → (h == j) ≡ false
apart h j d = ground (arith, d, ==_iff h j)

IsSound-take :
    (id h : ℕ) (bytes : Bytes) (s : Connections) (b : Bool)
    → map_get id s.conns ≡ some h
    → IsSound s Reader.reading b
    → IsSound
        (update_object h (λ c. record c { routed = c.routed ++ bytes }) s)
        (Reader.delivering h bytes)
        b
IsSound-take id h bytes s b listed w = record {
  tables =
      Tables-update_object h (λ c. record c { routed = c.routed ++ bytes }) s
        (record { same_id = λ c. refl }) w.tables;
  flow =
      Each-update (Flow Reader.reading b) (Flow (Reader.delivering h bytes) b) h
        (λ c. record c { routed = c.routed ++ bytes }) s w.flow (Flow-take b h bytes)
        (λ j c other f.
          Flow-change Reader.reading (Reader.delivering h bytes) b b j c
            (ground (arith, apart h j other)) (inl (apart h j other))
            (λ x y. absurd (ground (arith, y))) f);
}

pub receive-IsWellFormed :
    (msg : Message) (m t : AgentMux) → receive msg m ≡ some t → IsWellFormed m → IsWellFormed t
receive-IsWellFormed msg m t h w =
    let (at, b, handled) = receive-cases msg m t h in
    let before : IsSound m.connections Reader.reading m.cancelled =
      subst (λ x. IsSound m.connections x m.cancelled) at w in
    elim handled [
      | nothing idle e ↦ moved t m.connections t.reader m.cancelled e refl b (
          IsSound-change m.connections Reader.reading t.reader m.cancelled m.cancelled refl idle
            (λ x y. absurd (ground (arith, y))) before)
      | taken k g r e ↦
          moved t _ (Reader.delivering k msg.payload) m.cancelled e r b
            (IsSound-take msg.conn_id k msg.payload m.connections m.cancelled g before)
    ]

-- readLoop leaves the send of handleData: nothing changes for the other objects.
Flow-leave :
    (k j : ℕ) (bytes : Bytes) (b : Bool) (c : MuxConn)
    → k ≢ j
    → Flow (Reader.delivering k bytes) b j c
    → Flow Reader.looping b j c
Flow-leave k j bytes b c other =
    Flow-change (Reader.delivering k bytes) Reader.looping b b j c (ground (arith, apart k j other))
      (inl refl) (λ x y. absurd (ground (arith, y)))

IsSound-push :
    (k : ℕ) (bytes : Bytes) (c : MuxConn) (s : Connections) (b : Bool)
    → map_get k s.objects ≡ some c
    → IsSound s (Reader.delivering k bytes) b
    → IsSound (update_object k (push bytes) s) Reader.looping b
unfolding push
IsSound-push k bytes c s b g w = record {
  tables = Tables-update_object k (push bytes) s (record { same_id = λ d. refl }) w.tables;
  flow =
      Each-update (Flow (Reader.delivering k bytes) b) (Flow Reader.looping b) k (push bytes) s
        w.flow (λ d f. Flow-push b k bytes d f) (λ j d other f. Flow-leave k j bytes b d other f);
}

pub deliver_data-IsWellFormed :
    (m t : AgentMux) → deliver_data m ≡ some t → IsWellFormed m → IsWellFormed t
deliver_data-IsWellFormed m t h w =
    let (k, bytes, c, (at, g), room, e, r, b) = deliver_data-cases m t h in
    moved t (update_object k (push bytes) m.connections) Reader.looping m.cancelled e r b (
      IsSound-push k bytes c m.connections m.cancelled g
        (subst (λ x. IsSound m.connections x m.cancelled) at w))

IsSound-drop :
    (k : ℕ) (bytes : Bytes) (c : MuxConn) (s : Connections) (b : Bool)
    → map_get k s.objects ≡ some c
    → (c.closed || b) ≡ true
    → IsSound s (Reader.delivering k bytes) b
    → IsSound s Reader.looping b
IsSound-drop k bytes c s b g ends w = record {
  tables = w.tables;
  flow = λ j d e. elim (Bool-cases (k == j)) [
    | inl same ↦
        let at : k ≡ j = (==_iff k j).0 same in
        subst (λ x. Flow Reader.looping b x d) at
          (Flow-drop b k bytes d (ground (arith, at, e, g, ends))
            (subst (λ x. Flow (Reader.delivering k bytes) b x d) (sym at) (w.flow j d e)))
    | inr other ↦
        Flow-leave k j bytes b d (λ x. ground (arith, other, (==_iff k j).1 x)) (w.flow j d e)
  ];
}

pub drop_data-IsWellFormed :
    (m t : AgentMux) → drop_data m ≡ some t → IsWellFormed m → IsWellFormed t
drop_data-IsWellFormed m t h w =
    let (k, bytes, c, (at, g), ends, e, r, b) = drop_data-cases m t h in
    moved t m.connections Reader.looping m.cancelled e r b (
      IsSound-drop k bytes c m.connections m.cancelled g ends
        (subst (λ x. IsSound m.connections x m.cancelled) at w))

pub read_object-IsWellFormed :
    (h n : ℕ) (m : AgentMux) → IsWellFormed m → IsWellFormed (read_object h n m)
unfolding read_object
read_object-IsWellFormed h n m w = record {
  tables =
      Tables-update_object h (λ c. (read_conn n c).0) m.connections
        (record { same_id = λ c. (read_conn-Keeps n c).same_id }) w.tables;
  flow =
      Each-update (Flow m.reader m.cancelled) (Flow m.reader m.cancelled) h (λ c. (read_conn n c).0)
        m.connections w.flow (Flow-read n m.reader m.cancelled h) (λ j c other f. f);
}
