-- ===== src/Dns/Client/Answers.antt =====
-- internal/dns/client.go, parseAnswers: which records become answers, and the time to live.
use mathlib.Core.Path.{subst}
use awsocks.Prelude.{
  Bool, ◌&&◌, ◌||◌, ◌⊎◌, ltb, ◌==◌, ==_iff, ℕ, ◌*◌, ◌^◌, ◌≤◌, ◌≡◌, refl, sym, ap, ◌∙◌, Option, none,
  some, List, [], ◌∷◌, ◌++◌, if◌then◌else◌, Bytes, arith, append_assoc, append-nil, Option-cases,
  Bool-cases, inl, inr,
}
use awsocks.Dns.Client.{
  Record, Response, Answer, QueryResult, DnsMessage, lower_ttl, is_asked, parse_records,
  query_result, parse_answers,
}

abbrev pub ttl_of : Record → ℕ
ttl_of r = r.ttl_seconds * 10 ^ 9

-- A record counts where it is of the type that was asked for, and that is A (1) or AAAA (28).
abbrev pub counts : ℕ → Record → Bool
counts qtype r = (r.type == qtype) && ((qtype == 1) || (qtype == 28))

is_asked-counts : (qtype : ℕ) (r : Record) → is_asked qtype r ≡ counts qtype r
unfolding is_asked
is_asked-counts qtype r = ground (arith, ==_iff r.type qtype)

-- the addresses of the records that count, in their order
abbrev pub wanted : ℕ → List (Option Record) → List Answer
wanted qtype [] = []
wanted qtype (none ∷ rs) = wanted qtype rs
wanted qtype (some r ∷ rs) = elim r.resource [
  | none ↦ wanted qtype rs
  | some ip ↦
      if counts qtype r
      then record { ip = ip; ttl = ttl_of r } ∷ wanted qtype rs
      else wanted qtype rs
]

-- Does every record live at least this long?
abbrev pub Outlived : ℕ → List (Option Record) → Type 0
Outlived low [] = Unit
Outlived low (none ∷ rs) = Outlived low rs
Outlived low (some r ∷ rs) = (low ≤ ttl_of r) × Outlived low rs

-- Does one of them live exactly this long?
abbrev pub Reached : ℕ → List (Option Record) → Type 0
Reached low [] = ⊥
Reached low (none ∷ rs) = Reached low rs
Reached low (some r ∷ rs) = (ttl_of r ≡ low) ⊎ Reached low rs

-- the least time to live of the records, or 0 where there are none
abbrev pub IsShortest : ℕ → List (Option Record) → Type 0
IsShortest low rs = Outlived low rs × (((rs ≡ []) × (low ≡ 0)) ⊎ Reached low rs)

abbrev Bounded : Option ℕ → Option ℕ → List (Option Record) → Type 0
Bounded before none rs = (before ≡ none) × (rs ≡ [])
Bounded none (some low) rs = Outlived low rs × Reached low rs
Bounded (some old) (some low) rs = (low ≤ old) × Outlived low rs × ((old ≡ low) ⊎ Reached low rs)

lower_ttl-Reached :
    (old low : ℕ) (r : Record) (rs : List (Option Record))
    → (lower_ttl (some old) (ttl_of r) ≡ low) ⊎ Reached low rs
    → (old ≡ low) ⊎ Reached low (some r ∷ rs)
unfolding lower_ttl
lower_ttl-Reached old low r rs (inr later) = inr (inr later)
lower_ttl-Reached old low r rs (inl here) = elim (Bool-cases (ltb (ttl_of r) old)) [
  | inl lower ↦ inr (inl (ground (arith, here, lower)))
  | inr higher ↦ inl (ground (arith, here, higher))
]

lower_ttl-Bounded :
    (before after : Option ℕ) (r : Record) (rs : List (Option Record))
    → Bounded (some (lower_ttl before (ttl_of r))) after rs
    → Bounded before after (some r ∷ rs)
unfolding lower_ttl
lower_ttl-Bounded before none r rs (e, f) = absurd (ground (arith, e))
lower_ttl-Bounded none (some low) r rs (below, rest, reached) = ((below, rest), reached)
lower_ttl-Bounded (some old) (some low) r rs (below, rest, reached) =
    (ground (arith, below), (ground (arith, below), rest), lower_ttl-Reached old low r rs reached)

Bounded-refl : (low : Option ℕ) → Bounded low low []
Bounded-refl none = (refl, refl)
Bounded-refl (some n) = (omega arith, tt, inl refl)

wanted-some :
    (qtype : ℕ) (r : Record) (ip : Bytes) (rs : List (Option Record))
    → r.resource ≡ some ip
    → wanted qtype (some r ∷ rs) ≡ (
        if counts qtype r
        then record { ip = ip; ttl = ttl_of r } ∷ wanted qtype rs
        else wanted qtype rs)
wanted-some qtype r ip rs g = ground (arith, g)

parse_records-wanted :
    (qtype : ℕ) (rs : List (Option Record)) (acc found : List Answer) (before after : Option ℕ)
    → parse_records qtype acc before rs ≡ some (found, after)
    → (found ≡ acc ++ wanted qtype rs) × Bounded before after rs
unfolding parse_records
parse_records-wanted qtype [] acc found before after e =
    let same : (acc ≡ found) × (before ≡ after) = ground (arith, e) in
    (
      sym same.0 ∙ sym (append-nil acc),
      subst (λ x. Bounded before x []) same.1 (Bounded-refl before),
    )
parse_records-wanted qtype (none ∷ rs) acc found before after e = absurd (ground (arith, e))
parse_records-wanted qtype (some r ∷ rs) acc found before after e = elim (Option-cases r.resource) [
  | inl broken ↦ absurd (ground (arith, broken, e))
  | inr (ip, g) ↦
      let low = some (lower_ttl before (ttl_of r)) in
      let a : Answer = record { ip = ip; ttl = ttl_of r } in
      elim (Bool-cases (is_asked qtype r)) [
        | inl asked ↦
            let (f, b) =
              parse_records-wanted qtype rs (acc ++ a ∷ []) found low after
                (ground (arith, g, asked, e)) in
            (
              f
                  ∙ append_assoc acc (a ∷ []) (wanted qtype rs)
                  ∙ ap (◌++◌ acc) (
                      sym (
                        wanted-some qtype r ip rs g
                        ∙ rw (sym (is_asked-counts qtype r), asked) refl)),
              lower_ttl-Bounded before after r rs b,
            )
        | inr other ↦
            let (f, b) =
              parse_records-wanted qtype rs acc found low after (ground (arith, g, other, e)) in
            (
              f
                  ∙ ap (◌++◌ acc) (
                      sym (
                        wanted-some qtype r ip rs g
                        ∙ rw (sym (is_asked-counts qtype r), other) refl)),
              lower_ttl-Bounded before after r rs b,
            )
      ]
]

query_result-wanted :
    (qtype rcode : ℕ) (rs : List (Option Record)) (o : Option (List Answer × Option ℕ))
    (res : QueryResult)
    → parse_records qtype [] none rs ≡ o
    → query_result rcode o ≡ some res
    → (res.answers ≡ wanted qtype rs) × (res.rcode ≡ rcode) × IsShortest res.min_ttl rs
unfolding query_result
query_result-wanted qtype rcode rs none res p e = absurd (ground (arith, e))
query_result-wanted qtype rcode rs (some (found, none)) res p e =
    let (f, (b, nothing)) = parse_records-wanted qtype rs [] found none none p in
    (
      ground (arith, f, e),
      ground (arith, e),
      (subst (Outlived res.min_ttl) (sym nothing) tt, inl (nothing, ground (arith, e))),
    )
query_result-wanted qtype rcode rs (some (found, some low)) res p e =
    let (f, b) = parse_records-wanted qtype rs [] found none (some low) p in
    let at : low ≡ res.min_ttl = ground (arith, e) in
    (ground (arith, f, e), ground (arith, e), subst (λ x. IsShortest x rs) at (b.0, inr b.1))

-- What parseAnswers returns for a response that the parser takes: where the type that was asked for is
-- A or AAAA, the addresses of the records of that type, in their order, and else none; the response's
-- code; and the least time to live of all the records, aliases included, or 0 where there are none.
pub parse_answers-wanted :
    (dns : DnsMessage) (msg : Bytes) (qtype : ℕ) (response : Response) (res : QueryResult)
    → dns.parse msg ≡ some response
    → parse_answers dns msg qtype ≡ some res
    → (res.answers ≡ wanted qtype response.records)
      × (res.rcode ≡ response.rcode)
      × IsShortest res.min_ttl response.records
unfolding parse_answers
parse_answers-wanted dns msg qtype response res p e =
    query_result-wanted qtype response.rcode response.records
      (parse_records qtype [] none response.records) res refl (ground (arith, p, e))
