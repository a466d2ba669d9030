-- ===== src/Tests/Resolvers.antt =====
-- Tests of the resolution of names: one rule, a server that answers with one address, and one that
-- does not answer.
use text.Mathlib.Text.{◌==◌ as text_eq}
use awsocks.Prelude.{
  List, ◌≡◌, ◌++◌, lower, bytes_eq, ◌*◌, ◌^◌, refl, false, none, some, [], ◌∷◌, Bytes, codes, arith,
  All, to_lower, has_prefix, has_suffix,
}
use awsocks.Prelude.Maps.{map_get, map_set, map_delete, bytes_key}
use awsocks.Prelude.Result.{ok}
use awsocks.Routing.Router.{route_proxy, is_valid}
use awsocks.Routing.Matcher.{parse_matcher}
use awsocks.Dns.Config.{
  Rule, HostPorts, failure_fail, family_ipv4, normalize_server, check_server, is_port, digits_from,
  trim_space, trim_left, trim_end, is_space, is_failure_mode, is_family,
}
use awsocks.Dns.Build.{
  RuleSpec, Duration, ParseDuration, build_config, build_rules, build_rule, choose, given_servers,
  normalize_servers, parse_duration, check_duration, check_order,
}
use awsocks.Dns.Cache.{get, put, store, make_room, clamp_ttl, new_cache}
use awsocks.Dns.Client.{
  Record, Response, DnsMessage, Dial, QueryResult, write_msg, read_msg, parse_answers,
  parse_records, query_result, lower_ttl, is_asked, query, first_answer, exchange, build_question,
  new_client, type_a,
}
use awsocks.Dns.Client.Wire.{read_msg-write_msg}
use awsocks.Dns.Client.Answers.{wanted, IsShortest, parse_answers-wanted}
use awsocks.Dns.Resolver.{
  Slot, Resolution, new_resolver, new_slots, new_slot, resolve, resolve_at, resolve_by,
  resolve_by_lookup, lookup, lookup_a, cache_found, resolution_of, pick_ip, pick_first, on_failure,
  match_rule, covers, get_slot, set_slot, invalidate,
}
use awsocks.Dns.Resolver.Policy.{Decides, invalidate-get}
use awsocks.Dns.Resolver.Again.{resolve-again}
use awsocks.Dns.Resolver.Total.{Operation, operate, operate-total}
use awsocks.Dns.Resolver.Ready.{IsReady, new_resolver-IsReady}
use awsocks.Tests.Network.{small_net-NetLaws, small_net, starts_with_one, as_address}

abbrev ports : HostPorts
ports = record {
  split_host_port = λ s. none;
  join_host_port = λ host port. host ++ codes ":" ++ port;
  is_ip = starts_with_one;
}

abbrev always_a_second : ParseDuration
always_a_second s = some (Duration.pos (10 ^ 9))

abbrev internal_spec : RuleSpec
internal_spec = record {
  via = "";
  servers = codes " 10.0.0.2" ∷ [];
  patterns = [];
  timeout = "1s";
  min_ttl = "";
  max_ttl = "";
  negative_ttl = "";
  on_failure = "fail";
  prefer = "";
}

abbrev internal_rule : Rule
internal_rule = record {
  via = route_proxy;
  servers = codes "10.0.0.2:53" ∷ [];
  patterns = [];
  timeout = 10 ^ 9;
  min_ttl = 10 * 10 ^ 9;
  max_ttl = 300 * 10 ^ 9;
  negative_ttl = 5 * 10 ^ 9;
  on_failure = failure_fail;
  prefer = family_ipv4;
}

built : build_config ports always_a_second (internal_spec ∷ []) ≡ ok (some (internal_rule ∷ []))
unfolding build_config build_rules build_rule choose given_servers normalize_servers parse_duration
    check_duration check_order normalize_server check_server is_port digits_from trim_space
    trim_left trim_end is_space is_failure_mode is_family is_valid starts_with_one has_prefix
    bytes_eq
built = refl

-- a server that answers, and one that does not
abbrev answering_dial : Dial
answering_dial timeout server written = some (0 ∷ 1 ∷ 7 ∷ [])

abbrev silent_dial : Dial
silent_dial timeout server written = none

abbrev one_record : Record
one_record = record { type = type_a; ttl_seconds = 60; resource = some (10 ∷ 0 ∷ 0 ∷ 5 ∷ []) }

abbrev alias_record : Record
alias_record = record { type = 5; ttl_seconds = 30; resource = some [] }

abbrev one_response : Response
one_response = record { rcode = 0; records = some alias_record ∷ some one_record ∷ [] }

abbrev small_dns : DnsMessage
small_dns = record { pack = λ name qtype. some name; parse = λ msg. some one_response }

-- a parser that takes nothing
abbrev no_dns : DnsMessage
no_dns = record { pack = λ name qtype. none; parse = λ msg. none }

abbrev one_result : QueryResult
one_result = record {
  answers = record { ip = 10 ∷ 0 ∷ 0 ∷ 5 ∷ []; ttl = 60 * 10 ^ 9 } ∷ [];
  rcode = 0;
  min_ttl = 30 * 10 ^ 9;
}

response_parsed : parse_answers small_dns (7 ∷ []) type_a ≡ some one_result
unfolding parse_answers parse_records query_result lower_ttl is_asked
response_parsed = refl

parse_answers-wanted_example :
    (one_result.answers ≡ wanted type_a one_response.records)
    × (one_result.rcode ≡ one_response.rcode)
    × IsShortest one_result.min_ttl one_response.records
parse_answers-wanted_example =
    parse_answers-wanted small_dns (7 ∷ []) type_a one_response one_result refl response_parsed

read_msg-write_msg_example :
    (frame : Bytes) × (write_msg (7 ∷ 8 ∷ []) ≡ some frame)
    × (read_msg (frame ++ 9 ∷ []) ≡ some (7 ∷ 8 ∷ []))
read_msg-write_msg_example = read_msg-write_msg (7 ∷ 8 ∷ []) (9 ∷ []) (omega arith)

abbrev slot_with : Dial → Slot small_net
slot_with dial = record {
  rule = internal_rule;
  matchers = [];
  client = record { dial = dial; servers = codes "10.0.0.2:53" ∷ []; timeout = 10 ^ 9 };
  cache = record {
    entries = [];
    min_ttl = 10 * 10 ^ 9;
    max_ttl = 300 * 10 ^ 9;
    negative_ttl = 5 * 10 ^ 9;
    max_entries = 1024;
  };
}

made :
    new_resolver small_net (some (internal_rule ∷ [])) (λ route. some answering_dial)
    ≡ ok (slot_with answering_dial ∷ [])
unfolding new_resolver new_slots new_slot new_client new_cache
made = refl

new_resolver-IsReady_example : All (IsReady small_net) (slot_with answering_dial ∷ [])
new_resolver-IsReady_example =
    new_resolver-IsReady small_net ports always_a_second (internal_spec ∷ []) (internal_rule ∷ [])
      (λ route. some answering_dial) (slot_with answering_dial ∷ []) built made

covered : (dial : Dial) → Decides small_net (codes "DB") (slot_with dial ∷ []) (slot_with dial)
unfolding match_rule covers get_slot
covered dial = (0, refl, refl)

-- the slot with the address in its cache
abbrev filled_slot : Slot small_net
filled_slot = record (slot_with answering_dial) {
  cache = record (slot_with answering_dial).cache {
    entries =
        (
          codes "db",
          record {
            ipv4 = (10 ∷ 0 ∷ 0 ∷ 5 ∷ []) ∷ [];
            ipv6 = [];
            expires_at = 30 * 10 ^ 9;
            negative = false;
          },
        )
        ∷ [];
  };
}

resolved :
    resolve small_net small_dns 0 (codes "DB") (slot_with answering_dial ∷ [])
    ≡ some (filled_slot ∷ [], Resolution.dial_ip (10 ∷ 0 ∷ 0 ∷ 5 ∷ []))
unfolding resolve resolve_at resolve_by resolve_by_lookup lookup lookup_a cache_found resolution_of
    pick_ip pick_first match_rule covers get_slot set_slot query first_answer exchange
    build_question write_msg read_msg parse_answers parse_records query_result lower_ttl is_asked
    get put store make_room clamp_ttl map_get map_set map_delete has_suffix has_prefix as_address
    starts_with_one lower bytes_eq
resolved = refl

unknown : (get 0 (to_lower (codes "DB")) (slot_with answering_dial).cache).1 ≡ none
unfolding get map_get lower
unknown = refl

resolve-again_example :
    resolve small_net no_dns (9 * 10 ^ 9) (codes "DB") (filled_slot ∷ [])
    ≡ some (filled_slot ∷ [], Resolution.dial_ip (10 ∷ 0 ∷ 0 ∷ 5 ∷ []))
resolve-again_example =
    resolve-again small_net small_dns no_dns 0 (9 * 10 ^ 9) (codes "DB") (10 ∷ 0 ∷ 0 ∷ 5 ∷ [])
      (slot_with answering_dial ∷ []) (filled_slot ∷ []) (slot_with answering_dial)
      (covered answering_dial) unknown (omega arith) (omega arith) (omega arith) resolved

same_name : to_lower (codes "db") ≡ to_lower (codes "DB")
unfolding lower
same_name = refl

invalidate-get_example :
    All
      (λ slot. (get 0 (codes "db") slot.cache).1 ≡ none)
      (invalidate small_net (codes "DB") (filled_slot ∷ []))
invalidate-get_example =
    invalidate-get small_net 0 (codes "DB") (codes "db") (filled_slot ∷ []) same_name

-- a rule for one address and the names below a domain
abbrev narrow_rule : Rule
narrow_rule = record internal_rule { patterns = codes "10.0.0.9" ∷ codes "*.corp" ∷ [] }

abbrev narrow_slot : Slot small_net
narrow_slot = record (slot_with answering_dial) {
  rule = narrow_rule;
  matchers =
      parse_matcher small_net (codes "10.0.0.9") ∷ parse_matcher small_net (codes "*.corp") ∷ [];
}

narrow_made :
    new_resolver small_net (some (narrow_rule ∷ [])) (λ route. some answering_dial)
    ≡ ok (narrow_slot ∷ [])
unfolding new_resolver new_slots new_slot new_client new_cache
narrow_made = refl

abbrev some_operations : List Operation
some_operations =
    Operation.resolves 0 small_dns (codes "db.corp")
    ∷ Operation.invalidates (codes "db.corp")
    ∷ Operation.resolves 7 no_dns (codes "db.corp")
    ∷ []

operate-total_example :
    (after : List (Slot small_net)) × (operate small_net some_operations (narrow_slot ∷ [])
      ≡ some after)
operate-total_example =
    operate-total small_net small_net-NetLaws (narrow_rule ∷ []) (λ route. some answering_dial)
      (narrow_slot ∷ []) some_operations narrow_made
