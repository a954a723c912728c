-- ===== src/Traffic/Dns/Tests.antt =====
-- Queries to the fake DNS server of src/traffic/shared/dns, and instances of the theorems.
use native.Mathlib.Decide.{ℕ_discrete}
use mathlib.Core.Logic.{ite, if_pos}
use any_mirror.Traffic.Samples.{range4, range6, state, hickory, clock}
use any_mirror.Common.{
  if◌then◌else◌, ◌==◌, nat_eq, pair_eq, list_eq, option_eq, ok, ip_eq, ℕ, ◌+◌, ◌<◌, ◌≡◌, refl, true,
  false, Option, none, some, List, [], ◌∷◌, ◌++◌, arith,
}
use any_mirror.Text.{
  codes, trim_end_matches, to_ascii_lowercase, ends_with, split, rsplit, trim, contains_text,
  no_uppercase,
}
use any_mirror.HashMap.{get, insert, remove, keys_where}
use any_mirror.FakeIp.{
  new, normalize_domain, drop_domain, drop_domains, prune_family, prune_expired_entries,
  allocate_next, store_new, allocate_or_refresh, allocate_or_refresh_ipv4, allocate_or_refresh_ipv6,
  resolve_domain,
}
use any_mirror.FakeIp.Range.{
  first_allocatable_ipv4, last_usable_ipv4, first_allocatable_ipv6, last_usable_ipv6,
  clamp_candidate, advance_candidate,
}
use any_mirror.FakeIp.Allocate.{search_candidate}
use any_mirror.FakeIp.Store.{IsValid, new-IsValid}
use any_mirror.Rules.Matching.{normalize_host}
use any_mirror.Rules.Compiled.{
  origin_eq, exact_url_eq, dns_host_keys, push_entry, push_entries, index_host, index_matcher,
  mark_all, note_dns,
}
use any_mirror.Rules.Live.{new_live, live_matches_dns_host}
use any_mirror.Rules.Resolve.{new_rule_set}
use any_mirror.Rules.Runtime.{matches_dns_host}
use any_mirror.Trie.Host.{insert_rule, mark_dns, matches}
use any_mirror.Trie.Nodes.{note_index, get_child, set_child}
use any_mirror.Trie.Cutoff.{update_min_rule_index}
use any_mirror.Traffic.Bytes.{Bytes}
use any_mirror.Traffic.Dns.{
  RecordType, type_a, type_aaaa, rdata_a, rdata_aaaa, DnsLookupQuery, no_error, is_query, Message,
  Hickory, new_state, from_message, build_fake_answers,
}
use any_mirror.Traffic.Dns.Promise.{IsReply, build_fake_answers-IsReply}
use any_mirror.Traffic.Dns.Response.{build_response_message, build_fake_response, handle_request}
use any_mirror.Traffic.Dns.Exchange.{IsCodec, IsFakeResponse, build_fake_response-IsFakeResponse}

program : Unit {0}
unfolding get insert remove keys_where trim_end_matches to_ascii_lowercase new normalize_domain
    drop_domain drop_domains prune_family prune_expired_entries search_candidate allocate_next
    store_new allocate_or_refresh allocate_or_refresh_ipv4 allocate_or_refresh_ipv6 resolve_domain
    first_allocatable_ipv4 last_usable_ipv4 first_allocatable_ipv6 last_usable_ipv6 clamp_candidate
    advance_candidate build_fake_answers build_fake_response from_message live_matches_dns_host
    new_live new_rule_set new_state handle_request normalize_host trim contains_text no_uppercase
    note_dns index_matcher note_index update_min_rule_index get_child set_child insert_rule mark_dns
    matches matches_dns_host rsplit split ends_with dns_host_keys mark_all push_entry push_entries
    index_host
program = tt

-- A message of one query, in bytes: its number, and what it asks for.
abbrev asks : ℕ → RecordType → Message
asks id kind = record {
  id = id;
  message_type = is_query;
  op_code = 0;
  recursion_desired = true;
  recursion_available = false;
  response_code = no_error;
  queries = record { name = codes "API.example.com."; query_type = kind } ∷ [];
  answers = [];
}

abbrev queries : List DnsLookupQuery
queries = from_message (asks 7 type_a) ++ from_message (asks 8 type_aaaa)

answers_both_families :
    (build_fake_answers hickory clock state queries).1
    ≡ ok (
        some (
          record { name = codes "api.example.com"; ttl = 60; rdata = rdata_a (range4.network + 3) }
          ∷ record {
            name = codes "api.example.com";
            ttl = 60;
            rdata = rdata_aaaa (range6.network + 3);
          }
          ∷ []))
unfolding program
answers_both_families = refl

state-IsValid : IsValid range4 range6 state.fake_ip_store
unfolding program
state-IsValid = new-IsValid range4 range6

ttl_of_state : 20 < clock 0 + state.options.record_ttl
unfolding new_state
ttl_of_state = omega arith

build_fake_answers-IsReply_example :
    IsReply hickory range4 range6 state
      (build_fake_answers hickory clock state queries).0
      10
      20
      queries
      (some (
        record { name = codes "api.example.com"; ttl = 60; rdata = rdata_a (range4.network + 3) }
        ∷ record {
          name = codes "api.example.com";
          ttl = 60;
          rdata = rdata_aaaa (range6.network + 3);
        }
        ∷ []))
build_fake_answers-IsReply_example =
    build_fake_answers-IsReply hickory range4 range6 clock state queries 20 _ state-IsValid
      (λ k l h. omega arith) (omega arith) (λ k h. omega arith) ttl_of_state answers_both_families

Message-discrete : Discrete Message
Message-discrete = hlevel ℕ_discrete

abbrev request : Message
request = asks 7 type_a

abbrev response : Message
response = record (build_response_message request) {
  answers =
      record { name = codes "api.example.com"; ttl = 60; rdata = rdata_a (range4.network + 3) }
      ∷ [];
}

-- A codec of these two messages.
abbrev of_first : ℕ → Message
of_first b = if b == 1 then response else request

abbrev reads : Bytes → Option Message
reads [] = none
reads (b ∷ bytes) = some (of_first b)

abbrev codec : Hickory
codec = record hickory {
  from_vec = reads;
  to_vec = λ m. ite (Message-discrete m response) (some (1 ∷ [])) none;
}

codec-IsCodec : IsCodec codec
codec-IsCodec m bytes =
    elim (Message-discrete m response)
      as (λ d. ite d (some (1 ∷ [])) none ≡ some bytes → reads bytes ≡ some m) [
        | yes same ↦ λ e. ground (arith, e, same)
        | no differ ↦ λ e. absurd (ground (arith, e))
      ]

writes_response : codec.to_vec response ≡ some (1 ∷ [])
writes_response = if_pos (Message-discrete response response) refl (some (1 ∷ [])) none

responds : (build_fake_response codec clock state (0 ∷ [])).1 ≡ ok (some (1 ∷ []))
unfolding program
responds = rw writes_response refl

build_fake_response-IsFakeResponse_example :
    IsFakeResponse codec range4 range6 state
      (build_fake_response codec clock state (0 ∷ [])).0
      10
      20
      request
      (1 ∷ [])
build_fake_response-IsFakeResponse_example =
    build_fake_response-IsFakeResponse codec range4 range6 clock state 20 (0 ∷ []) (1 ∷ []) request
      codec-IsCodec state-IsValid (λ k l h. omega arith) (omega arith) (λ k h. omega arith)
      ttl_of_state refl responds
