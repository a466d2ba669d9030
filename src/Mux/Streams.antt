-- ===== src/Mux/Streams.antt =====
-- internal/mux/agent_mux.go: the bytes of every connection, in every schedule.
use awsocks.Prelude.{
  ℕ, ◌≡◌, ◌∙◌, ap, sym, inl, inr, true, false, ◌⊎◌, some, ◌++◌, Bytes, arith, append_assoc,
}
use awsocks.Prelude.Maps.{map_get, nat_eq}
use awsocks.Mux.Connection.{MuxConn}
use awsocks.Mux.Connection.Stream.{content, flatten}
use awsocks.Mux.State.{AgentMux, new_agent_mux}
use awsocks.Mux.System.{Reach}
use awsocks.Mux.Connection.Within.{Within, Within-front}
use awsocks.Mux.Flow.{flying, Flow}
use awsocks.Mux.Invariant.Schedules.{Reach-IsWellFormed}

-- The first bytes are the first of the others.
abbrev pub IsPrefix : Bytes → Bytes → Type 0
IsPrefix xs ys = (rest : Bytes) × (xs ++ rest ≡ ys)

-- In every state that a schedule of the reader, the ping loop and any callers leads to: what the calls
-- of Read on a connection have returned is, in its order, some of the bytes that handleData found
-- that connection for; and while the connection is not closed it is the first of them, with none
-- left out.
pub delivered-IsPrefix :
    (m : AgentMux) (h : ℕ) (c : MuxConn)
    → Reach new_agent_mux m
    → map_get h m.connections.objects ≡ some c
    → Within c.delivered c.routed × ((c.closed ≡ true) ⊎ IsPrefix c.delivered c.routed)
delivered-IsPrefix m h c r g =
    let (in_order, w) = (Reach-IsWellFormed m r).flow h c g in
    (
      Within-front c.delivered (c.remaining ++ flatten c.read_buf) c.routed
          (Within-front (content c) (flying m.reader h) c.routed in_order),
      elim w [
        | inl shut ↦ inl shut
        | inr (rest, e, o) ↦ inr (
          (c.remaining ++ flatten c.read_buf) ++ rest,
          sym (append_assoc c.delivered (c.remaining ++ flatten c.read_buf) rest) ∙ e,
        )
      ],
    )

all_there :
    (m : AgentMux) (h : ℕ) (c : MuxConn)
    → c.closed ≡ false
    → m.cancelled ≡ false
    → Flow m.reader m.cancelled h c
    → content c ++ flying m.reader h ≡ c.routed
all_there m h c o b (in_order, inl shut) = absurd (ground (arith, o, shut))
all_there m h c o b (in_order, inr (rest, e, inl all)) = ap (◌++◌ (content c)) (sym all) ∙ e
all_there m h c o b (in_order, inr (rest, e, inr (idle, ended, stops))) =
    absurd (ground (arith, b, ended))

-- While a connection is not closed and the mux not cancelled, no byte is lost: what Read has returned,
-- what is left of a partial read, the buffered frames and the frame that handleData is sending are
-- together the payloads found for it.
pub content-flying :
    (m : AgentMux) (h : ℕ) (c : MuxConn)
    → Reach new_agent_mux m
    → map_get h m.connections.objects ≡ some c
    → c.closed ≡ false
    → m.cancelled ≡ false
    → content c ++ flying m.reader h ≡ c.routed
content-flying m h c r g o b = all_there m h c o b ((Reach-IsWellFormed m r).flow h c g)
