-- ===== src/Dns/Client.antt =====
-- internal/dns/client.go: queries over TCP. Package dnsmessage, and what a dialled connection gives to
-- read before the timeout, are parameters. An error is `none`.
pub mod Wire
pub mod Answers
use awsocks.Prelude.{
  ℕ, ◌+◌, ◌*◌, ◌/◌, ◌%◌, ◌^◌, Bool, ◌&&◌, ◌||◌, Option, none, some, List, [], ◌∷◌, ◌++◌,
  if◌then◌else◌, ltb, ◌==◌, Bytes, length, take, has_suffix, codes,
}

-- dnsmessage.TypeA and dnsmessage.TypeAAAA
abbrev pub type_a : ℕ
type_a = 1

abbrev pub type_aaaa : ℕ
type_aaaa = 28

-- maxDNSMessageSize
abbrev pub max_message_size : ℕ
max_message_size = 65535

-- an answer as the parser gives it: its header, and what AResource, AAAAResource or SkipAnswer make of
-- the rest
pub record Record : Type 0 where
  pub type : ℕ
  pub ttl_seconds : ℕ
  pub resource : Option Bytes

-- a response: what Start and SkipAllQuestions leave, with `none` for a header that is not one
pub record Response : Type 0 where
  pub rcode : ℕ
  pub records : List (Option Record)

-- package dnsmessage: the message with one question, and the parser
pub record DnsMessage : Type 0 where
  pub pack : Bytes → ℕ → Option Bytes
  pub parse : Bytes → Option Response

-- DialFunc and the connection: from the timeout, the server and what is written to what can be read
abbrev pub Dial : Type 0
Dial = ℕ → Bytes → Bytes → Option Bytes

-- type Answer
pub record Answer : Type 0 where
  pub ip : Bytes
  pub ttl : ℕ

-- type Result
pub record QueryResult : Type 0 where
  pub answers : List Answer
  pub rcode : ℕ
  pub min_ttl : ℕ

-- type Client
pub record Client : Type 0 where
  pub dial : Dial
  pub servers : List Bytes
  pub timeout : ℕ

-- NewClient
unfoldable pub new_client : Dial → List Bytes → ℕ → Client
new_client dial servers timeout = record { dial = dial; servers = servers; timeout = timeout }

-- buildQuestion
unfoldable pub build_question : DnsMessage → Bytes → ℕ → Option Bytes
build_question dns name qtype =
    dns.pack (if has_suffix name (codes ".") then name else name ++ codes ".") qtype

-- writeMsg
unfoldable pub write_msg : Bytes → Option Bytes
write_msg msg =
    if ltb max_message_size (length msg)
    then none
    else some (length msg / 256 % 256 ∷ length msg % 256 ∷ msg)

-- readMsg, of what the reader holds
unfoldable pub read_msg : Bytes → Option Bytes
read_msg (a ∷ b ∷ rest) =
    let n = a * 256 + b in if ltb (length rest) n then none else some (take n rest)
read_msg _ = none

-- res.MinTTL < 0 || ttl < res.MinTTL; `none` is -1
unfoldable pub lower_ttl : Option ℕ → ℕ → ℕ
lower_ttl none ttl = ttl
lower_ttl (some low) ttl = if ltb ttl low then ttl else low

-- does the switch take the resource of this record?
unfoldable pub is_asked : ℕ → Record → Bool
is_asked qtype r =
    (r.type == type_a && qtype == type_a) || (r.type == type_aaaa && qtype == type_aaaa)

-- the loop of parseAnswers, from Answers and MinTTL
unfoldable pub parse_records :
    ℕ → List Answer → Option ℕ → List (Option Record) → Option (List Answer × Option ℕ)
unfolding lower_ttl is_asked
parse_records qtype answers min_ttl [] = some (answers, min_ttl)
parse_records qtype answers min_ttl (none ∷ rs) = none
parse_records qtype answers min_ttl (some r ∷ rs) =
    let ttl = r.ttl_seconds * 10 ^ 9 in
    let low = some (lower_ttl min_ttl ttl) in
    let skip = parse_records qtype answers low rs in
    elim r.resource [
      | none ↦ none
      | some ip ↦
          let keep = parse_records qtype (answers ++ record { ip = ip; ttl = ttl } ∷ []) low rs in
          if is_asked qtype r then keep else skip
    ]

-- parseAnswers behind its loop
unfoldable pub query_result : ℕ → Option (List Answer × Option ℕ) → Option QueryResult
query_result rcode none = none
query_result rcode (some (answers, none)) =
    some (record { answers = answers; rcode = rcode; min_ttl = 0 })
query_result rcode (some (answers, some low)) =
    some (record { answers = answers; rcode = rcode; min_ttl = low })

-- parseAnswers
unfoldable pub parse_answers : DnsMessage → Bytes → ℕ → Option QueryResult
unfolding parse_records query_result
parse_answers dns msg qtype = elim (dns.parse msg) [
  | none ↦ none
  | some response ↦ query_result response.rcode (parse_records qtype [] none response.records)
]

-- Client.exchange
unfoldable pub exchange : DnsMessage → Client → Bytes → Bytes → ℕ → Option QueryResult
unfolding write_msg read_msg parse_answers
exchange dns c server question qtype = elim (write_msg question) [
  | none ↦ none
  | some written ↦ elim (c.dial c.timeout server written) [
    | none ↦ none
    | some readable ↦ elim (read_msg readable) [
      | none ↦ none
      | some msg ↦ parse_answers dns msg qtype
    ]
  ]
]

-- the loop over the servers
unfoldable pub first_answer : DnsMessage → Client → Bytes → ℕ → List Bytes → Option QueryResult
unfolding exchange
first_answer dns c question qtype [] = none
first_answer dns c question qtype (server ∷ servers) =
    let rest = first_answer dns c question qtype servers in
    elim (exchange dns c server question qtype) [ none ↦ rest | some res ↦ some res ]

-- Client.Query
unfoldable pub query : DnsMessage → Client → Bytes → ℕ → Option QueryResult
unfolding build_question first_answer
query dns c name qtype = elim (build_question dns name qtype) [
  | none ↦ none
  | some question ↦ first_answer dns c question qtype c.servers
]
