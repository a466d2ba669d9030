-- ===== src/Dns/Resolver/Total.antt =====
-- internal/dns/resolver.go: the matchers of the rules, over any use of a resolver.
use mathlib.Core.Path.{subst}
use awsocks.Prelude.{
  ℕ, ◌+◌, ◌≡◌, refl, sym, Bool, true, false, Option, none, some, List, [], ◌∷◌, Bytes, to_lower,
  arith, Option-cases, Bool-cases, inl, inr, All, map, suc, zero, ltb, length,
}
use awsocks.Prelude.Result.{ok, Yields, Yields-bind, of_yields}
use awsocks.Routing.Router.{Route}
use awsocks.Routing.Matcher.{Net, Matcher, parse_matcher}
use awsocks.Routing.Matcher.Total.{NetLaws, IsReady, match_any-IsReady, parse_matcher-IsReady}
use awsocks.Dns.Config.{Rule}
use awsocks.Dns.Cache.{get}
use awsocks.Dns.Client.{DnsMessage, Dial}
use awsocks.Dns.Resolver.{
  Slot, Resolution, match_rule, covers, get_slot, set_slot, resolve_by, resolve_at, resolve, forget,
  invalidate, new_slot, new_slots, new_resolver,
}
use awsocks.Dns.Resolver.Again.{matchers-lookup}

-- a use of a resolver: at a time, with what the parser makes of the responses
pub data Operation : Type 0 where
  resolves : ℕ → DnsMessage → Bytes → Operation
  invalidates : Bytes → Operation

module _ (net : Net) where
  -- the calls of Resolve and Invalidate, one after the other; a panic is `none`
  unfoldable pub operate : List Operation → List (Slot net) → Option (List (Slot net))
  unfolding resolve invalidate
  operate [] slots = some slots
  operate (resolves now dns host ∷ ops) slots = elim (resolve net dns now host slots) [
    | none ↦ none
    | some (after, resolution) ↦ operate ops after
  ]
  operate (invalidates host ∷ ops) slots = operate ops (invalidate net host slots)

  -- no nil matcher
  abbrev pub Armed : Slot net → Type 0
  Armed slot = All (IsReady net) slot.matchers

  covered :
      (ms : List (Matcher net)) (host : Bytes)
      → All (IsReady net) ms
      → (b : Bool) × (covers net ms host ≡ some b)
  unfolding covers
  covered [] host armed = (true, refl)
  covered (m ∷ ms) host armed = (_, match_any-IsReady net (m ∷ ms) host armed)

  covers-Armed :
      (slot : Slot net) (host : Bytes)
      → Armed slot
      → (b : Bool) × (covers net slot.matchers host ≡ some b)
  covers-Armed slot host armed = covered slot.matchers host armed

  next_rule :
      (slot : Slot net) (slots : List (Slot net)) (host : Bytes) (b : Bool) (o : Option ℕ)
      → covers net slot.matchers host ≡ some b
      → match_rule net slots host ≡ some o
      → (found : Option ℕ) × (match_rule net (slot ∷ slots) host ≡ some found)
  unfolding match_rule
  next_rule slot slots host true o now later = (some 0, ground (arith, now))
  next_rule slot slots host false none now later = (none, ground (arith, now, later))
  next_rule slot slots host false (some i) now later = (some (suc i), ground (arith, now, later))

  match_rule-Armed :
      (slots : List (Slot net)) (host : Bytes)
      → All Armed slots
      → (o : Option ℕ) × (match_rule net slots host ≡ some o)
  unfolding match_rule
  match_rule-Armed [] host armed = (none, refl)
  match_rule-Armed (slot ∷ slots) host (armed, others) =
      let (b, now) = covers-Armed slot host armed in
      let (o, later) = match_rule-Armed slots host others in next_rule slot slots host b o now later

  matchers-resolve_by :
      (dns : DnsMessage) (now : ℕ) (key : Bytes) (slot : Slot net)
      → (resolve_by net dns now key slot).0.matchers ≡ slot.matchers
  unfolding resolve_by
  matchers-resolve_by dns now key slot =
      ground (
        arith,
        matchers-lookup net dns now key (record slot { cache = (get now key slot.cache).0 }),
      )

  set_slot-Armed :
      (i : ℕ) (slots : List (Slot net)) (new : Slot net)
      → Armed new
      → All Armed slots
      → All Armed (set_slot net i new slots)
  unfolding set_slot
  set_slot-Armed zero [] new a armed = tt
  set_slot-Armed (suc n) [] new a armed = tt
  set_slot-Armed zero (slot ∷ slots) new a (_, others) = (a, others)
  set_slot-Armed (suc n) (slot ∷ slots) new a (armed, others) =
      (armed, set_slot-Armed n slots new a others)

  get_slot-Armed :
      (i : ℕ) (slots : List (Slot net)) (slot : Slot net)
      → get_slot net i slots ≡ some slot
      → All Armed slots
      → Armed slot
  unfolding get_slot
  get_slot-Armed zero [] slot g armed = absurd (ground (arith, g))
  get_slot-Armed (suc n) [] slot g armed = absurd (ground (arith, g))
  get_slot-Armed zero (s ∷ slots) slot g (armed, others) =
      let same : s ≡ slot = ground (arith, g) in subst Armed same armed
  get_slot-Armed (suc n) (s ∷ slots) slot g (armed, others) = get_slot-Armed n slots slot g others

  resolve_at-Armed :
      (dns : DnsMessage) (now : ℕ) (host : Bytes) (slots : List (Slot net)) (i : ℕ)
      → All Armed slots
      → All Armed (resolve_at net dns now host slots i).0
  unfolding resolve_at
  resolve_at-Armed dns now host slots i armed = elim (Option-cases (get_slot net i slots)) [
    | inl missing ↦ rw (resolve_at, missing) armed
    | inr (slot, g) ↦
        rw (resolve_at, g)
          (set_slot-Armed i slots (resolve_by net dns now (to_lower host) slot).0
            (subst (All (IsReady net)) (sym (matchers-resolve_by dns now (to_lower host) slot))
              (get_slot-Armed i slots slot g armed))
            armed)
  ]

  resolve-Armed :
      (dns : DnsMessage) (now : ℕ) (host : Bytes) (slots : List (Slot net))
      → All Armed slots
      → (after : List (Slot net)) × (r : Resolution) × (resolve net dns now host slots
          ≡ some (after, r))
        × All Armed after
  unfolding resolve
  resolve-Armed dns now host [] armed = ([], Resolution.keep_name, refl, tt)
  resolve-Armed dns now host (s ∷ ss) armed = elim (Option-cases (net.parse_ip host)) [
    | inr (ip, literal) ↦ (s ∷ ss, Resolution.keep_name, rw (resolve, literal) refl, armed)
    | inl name ↦
        let (o, matched) = match_rule-Armed (s ∷ ss) host armed in
        elim (Option-cases o) [
          | inl uncovered ↦
              (s ∷ ss, Resolution.keep_name, rw (resolve, name, matched, uncovered) refl, armed)
          | inr (i, at) ↦ (
            (resolve_at net dns now host (s ∷ ss) i).0,
            (resolve_at net dns now host (s ∷ ss) i).1,
            rw (resolve, name, matched, at) refl,
            resolve_at-Armed dns now host (s ∷ ss) i armed,
          )
        ]
  ]

  invalidate-Armed :
      (host : Bytes) (slots : List (Slot net))
      → All Armed slots
      → All Armed (invalidate net host slots)
  unfolding invalidate forget
  invalidate-Armed host [] armed = tt
  invalidate-Armed host (slot ∷ slots) (armed, others) = (armed, invalidate-Armed host slots others)

  operate-Armed :
      (ops : List Operation) (slots : List (Slot net))
      → All Armed slots
      → (after : List (Slot net)) × (operate ops slots ≡ some after)
  unfolding operate
  operate-Armed [] slots armed = (slots, refl)
  operate-Armed (resolves now dns host ∷ ops) slots armed =
      let (next, r, e, kept) = resolve-Armed dns now host slots armed in
      let (after, f) = operate-Armed ops next kept in (after, rw (operate, e) f)
  operate-Armed (invalidates host ∷ ops) slots armed =
      operate-Armed ops (invalidate net host slots) (invalidate-Armed host slots armed)

  map-parse_matcher :
      NetLaws net → (patterns : List Bytes) → All (IsReady net) (map (parse_matcher net) patterns)
  map-parse_matcher laws [] = tt
  map-parse_matcher laws (p ∷ ps) = (parse_matcher-IsReady net laws p, map-parse_matcher laws ps)

  new_slot-Armed :
      NetLaws net
      → (dialers : Route → Option Dial) (n : ℕ) (rule : Rule)
      → Yields Armed (new_slot net dialers n rule)
  unfolding new_slot
  new_slot-Armed laws dialers n rule = elim (Option-cases (dialers rule.via)) [
    | inl missing ↦ rw (missing, new_slot) tt
    | inr (dial, given) ↦ elim (Bool-cases (ltb 0 (length rule.servers))) [
      | inr empty ↦ rw (given, empty, new_slot) tt
      | inl some_server ↦ rw (given, some_server, new_slot) (map-parse_matcher laws rule.patterns)
    ]
  ]

  new_slots-Armed :
      NetLaws net
      → (dialers : Route → Option Dial) (n : ℕ) (rules : List Rule)
      → Yields (All Armed) (new_slots net dialers n rules)
  unfolding new_slots
  new_slots-Armed laws dialers n [] = tt
  new_slots-Armed laws dialers n (rule ∷ rules) =
      Yields-bind Armed (All Armed) _ _ (new_slot-Armed laws dialers n rule) (λ slot armed.
        Yields-bind (All Armed) (All Armed) _ _ (new_slots-Armed laws dialers (n + 1) rules)
          (λ slots others. (armed, others)))

-- A resolver that NewResolver makes never panics on a matcher: by the laws of package net, every
-- sequence of calls of Resolve and Invalidate, at any times and with any responses, comes to its end.
pub operate-total :
    (net : Net) (laws : NetLaws net) (rules : List Rule) (dialers : Route → Option Dial)
    (slots : List (Slot net)) (ops : List Operation)
    → new_resolver net (some rules) dialers ≡ ok slots
    → (after : List (Slot net)) × (operate net ops slots ≡ some after)
unfolding new_resolver
operate-total net laws rules dialers slots ops made = operate-Armed net ops slots (
    of_yields (All (Armed net)) (new_slots net dialers 1 rules) slots made
      (new_slots-Armed net laws dialers 1 rules))
