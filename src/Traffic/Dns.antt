-- ===== src/Traffic/Dns.antt =====
-- src/traffic/shared/dns: the fake DNS server. Names and messages are `hickory`'s: a name is the text
-- that it spells, a message has the fields that the code reads and sets. The parser and the writer of
-- messages and the resolver of the system are parameters.
pub mod Answers
mod Tests
pub mod Rounds
pub mod Promise
pub mod Response
pub mod Exchange
use any_mirror.Common.{
  if◌then◌else◌, is_some, nat_eq, pair_eq, list_eq, option_eq, Result, ok, err, IpAddr, ip_eq, ℕ,
  ◌+◌, ◌%◌, ◌^◌, Bool, false, ◌||◌, Option, none, some, List, [], ◌∷◌, ◌++◌, map,
}
use any_mirror.Text.{Text, trim_end_matches, to_ascii_lowercase}
use any_mirror.FakeIp.Range.{Ipv4Net, Ipv6Net}
use any_mirror.FakeIp.{
  FakeIpStore, StoreError, new, allocate_or_refresh_ipv4, allocate_or_refresh_ipv6,
}
use any_mirror.Rules.Live.{LiveRuleSet, live_matches_dns_host}
use any_mirror.Traffic.Bytes.{Bytes}

pub data RecordType : Type 0 where
  type_a type_aaaa : RecordType
  type_other : ℕ → RecordType

pub data RData : Type 0 where
  rdata_a rdata_aaaa : ℕ → RData
  rdata_other : Bytes → RData

pub record Record : Type 0 where
  pub name : Text
  pub ttl : ℕ
  pub rdata : RData

pub record DnsLookupQuery : Type 0 where
  pub name : Text
  pub record_type : RecordType

-- The codes that the program gives.
pub data ResponseCode : Type 0 where
  no_error nx_domain serv_fail : ResponseCode

pub data MessageType : Type 0 where
  is_query is_response : MessageType

-- A question of a message: `name().to_utf8()` and `query_type()`.
pub record Query : Type 0 where
  pub name : Text
  pub query_type : RecordType

pub record Message : Type 0 where
  pub id : ℕ
  pub message_type : MessageType
  pub op_code : ℕ
  pub recursion_desired : Bool
  pub recursion_available : Bool
  pub response_code : ResponseCode
  pub queries : List Query
  pub answers : List Record

pub record FakeDnsOptions : Type 0 where
  pub listen_addr : IpAddr × ℕ
  pub fake_ipv4_range : Ipv4Net
  pub fake_ipv6_range : Ipv6Net
  pub record_ttl : ℕ

pub record FakeDnsState : Type 0 where
  pub fake_ip_store : FakeIpStore
  pub rules : LiveRuleSet
  pub options : FakeDnsOptions

pub record DnsResolution : Type 0 where
  pub response_code : ResponseCode
  pub answers : List Record

pub record ResolveError : Type 0 where
  pub is_nx_domain : Bool
  pub is_no_records_found : Bool

pub data DnsError : Type 0 where
  invalid_packet invalid_query_name invalid_record_name serialize_failed : DnsError
  store_failed : StoreError → DnsError

-- What the server calls of `hickory`. `lookup` is what the system's resolver answers.
pub record Hickory : Type 0 where
  pub from_vec : Bytes → Option Message
  pub to_vec : Message → Option Bytes
  pub name_from_ascii : Text → Option Text
  pub lookup : Text → RecordType → Result ResolveError (List Record)

-- Runs of fallible steps.
infixl 5 ◌and_then◌
abbrev pub ◌and_then◌ :
    {A B : Type 0} → Result DnsError A → (A → Result DnsError B) → Result DnsError B
ok a and_then f = f a
err e and_then f = err e

-- `ok_or`, and `with_context` on an error of another crate.
abbrev pub or_error : {A : Type 0} → DnsError → Option A → Result DnsError A
or_error e none = err e
or_error e (some a) = ok a

abbrev pub of_store : {A : Type 0} → Result StoreError A → Result DnsError A
of_store (ok a) = ok a
of_store (err e) = err (store_failed e)

unfoldable pub new_state : FakeDnsOptions → LiveRuleSet → FakeDnsState
new_state options rules = record {
  fake_ip_store = new options.fake_ipv4_range options.fake_ipv6_range;
  rules = rules;
  options = options;
}

-- `DnsLookupQuery::normalize_name`
unfoldable pub normalize_name : Text → Text
normalize_name name = to_ascii_lowercase (trim_end_matches b'.' name)

unfoldable pub new_query : Text → RecordType → DnsLookupQuery
unfolding normalize_name
new_query name record_type = record { name = normalize_name name; record_type = record_type }

unfoldable pub from_message : Message → List DnsLookupQuery
unfolding new_query
from_message request =
    map (λ (query : Query). new_query query.name query.query_type) request.queries

module _ (hickory : Hickory) where
  unfoldable pub build_record : DnsLookupQuery → ℕ → RData → Result DnsError Record
  build_record query ttl rdata =
      or_error invalid_record_name (hickory.name_from_ascii query.name) and_then λ record_name.
      ok (record { name = record_name; ttl = ttl % 2 ^ 32; rdata = rdata })

  -- The arms of the loop for one query: the store, and the record that the arm pushes.
  unfoldable pub fake_answer :
      LiveRuleSet
      → ℕ
      → FakeIpStore
      → ℕ
      → DnsLookupQuery
      → RecordType
      → FakeIpStore × Result DnsError (Option Record)
  unfolding build_record
  fake_answer rules ttl store now query type_a =
      if live_matches_dns_host rules query.name
      then (let (store', result) = allocate_or_refresh_ipv4 store query.name ttl now in
          (
            store',
            of_store result and_then λ fake_ip.
                build_record query ttl (rdata_a fake_ip) and_then λ answer. ok (some answer),
          ))
      else (store, ok none)
  fake_answer rules ttl store now query type_aaaa =
      if live_matches_dns_host rules query.name
      then (let (store', result) = allocate_or_refresh_ipv6 store query.name ttl now in
          (
            store',
            of_store result and_then λ fake_ip.
                build_record query ttl (rdata_aaaa fake_ip) and_then λ answer. ok (some answer),
          ))
      else (store, ok none)
  fake_answer rules ttl store now query (type_other other) = (store, ok none)

  abbrev pub push_answer : Option Record → List Record → List Record
  push_answer none answers = answers
  push_answer (some answer) answers = answers ++ answer ∷ []

  -- The loop over the queries. `clock i` is what `Instant::now()` returns for query number `i`.
  unfoldable pub build_fake_answers_loop :
      LiveRuleSet
      → ℕ
      → (ℕ → ℕ)
      → ℕ
      → FakeIpStore
      → List Record
      → Bool
      → List DnsLookupQuery
      → FakeIpStore × Result DnsError (Option (List Record))
  unfolding fake_answer
  build_fake_answers_loop rules ttl clock i store answers matched [] =
      (store, ok (if matched then some answers else none))
  build_fake_answers_loop rules ttl clock i store answers matched (query ∷ queries) =
      let (store', result) = fake_answer rules ttl store (clock i) query query.record_type in
      elim result [
        | err e ↦ (store', err e)
        | ok answer ↦
            build_fake_answers_loop rules ttl clock (i + 1) store' (push_answer answer answers)
              (matched || is_some answer) queries
      ]

  unfoldable pub build_fake_answers :
      (ℕ → ℕ)
      → FakeDnsState
      → List DnsLookupQuery
      → FakeDnsState × Result DnsError (Option (List Record))
  unfolding build_fake_answers_loop
  build_fake_answers clock state queries =
      let (store, result) =
        build_fake_answers_loop state.rules state.options.record_ttl clock 0 state.fake_ip_store []
          false queries in
      (record state { fake_ip_store = store }, result)
