-- ===== src/Traffic/Dns/Answers.antt =====
-- The fake answers of src/traffic/shared/dns/mod.rs: which queries get one, and what the addresses in
-- them resolve to.
use any_mirror.Common.{
  if◌then◌else◌, Bool-cases, Option-cases, nat_eq, pair_eq, list_eq, option_eq, Result, ok, err,
  ip_eq, ℕ, ◌+◌, ◌%◌, ◌^◌, ◌≡◌, refl, inl, inr, Bool, true, false, ◌||◌, Option, none, some, List,
  [], ◌∷◌, ◌++◌, arith,
}
use any_mirror.Text.{Text}
use any_mirror.FakeIp.Range.{Ipv4Net, Ipv6Net}
use any_mirror.FakeIp.{FakeIpStore, StoreError, normalize_domain}
use any_mirror.FakeIp.Store.{IsValid, allocate4-IsValid, allocate6-IsValid}
use any_mirror.FakeIp.Promises.{Version, ipv4, ipv6, allocate, address, resolved}
use any_mirror.Rules.Live.{LiveRuleSet, live_matches_dns_host}
use any_mirror.Traffic.Dns.{
  RecordType, type_a, type_aaaa, type_other, RData, rdata_a, rdata_aaaa, Record, DnsLookupQuery,
  DnsError, Hickory, ◌and_then◌, of_store, build_record, fake_answer, build_fake_answers_loop,
}

-- The address family that a query asks for, if any.
abbrev pub version_of : RecordType → Option Version
version_of type_a = some ipv4
version_of type_aaaa = some ipv6
version_of (type_other other) = none

abbrev pub rdata_of : Version → ℕ → RData
rdata_of ipv4 = rdata_a
rdata_of ipv6 = rdata_aaaa

abbrev pub wanted : LiveRuleSet → DnsLookupQuery → Option Version
wanted rules query =
    if live_matches_dns_host rules query.name then version_of query.record_type else none

-- A record for the name of a query with an address that resolves to the query's domain.
pub record IsAnswer (hickory : Hickory) (ttl : ℕ) (store : FakeIpStore) (later : ℕ)
    (query : DnsLookupQuery) (w : Version) (answer : Record) : Type 0 where
  pub ip : ℕ
  pub named_after : hickory.name_from_ascii query.name ≡ some answer.name
  pub ttl_of : answer.ttl ≡ ttl % 2 ^ 32
  pub holds : answer.rdata ≡ rdata_of w ip
  pub resolves : resolved store (address w ip) later ≡ some (normalize_domain query.name)

-- Each query for an address of a host that the rules match has its answer, in order; no other query has.
pub data Answered (hickory : Hickory) (rules : LiveRuleSet) (ttl : ℕ) (store : FakeIpStore)
    (later : ℕ) : List DnsLookupQuery → List Record → Type 0 where
  done : Answered hickory rules ttl store later [] []
  skipped :
      {query : DnsLookupQuery} {queries : List DnsLookupQuery} {answers : List Record}
      → wanted rules query ≡ none
      → Answered hickory rules ttl store later queries answers
      → Answered hickory rules ttl store later (query ∷ queries) answers
  answered :
      {query : DnsLookupQuery} {queries : List DnsLookupQuery} {answer : Record}
      {answers : List Record}
      → (w : Version) → wanted rules query ≡ some w
      → IsAnswer hickory ttl store later query w answer
      → Answered hickory rules ttl store later queries answers
      → Answered hickory rules ttl store later (query ∷ queries) (answer ∷ answers)

pub allocate-IsValid :
    (r4 : Ipv4Net) (r6 : Ipv6Net) (store : FakeIpStore) (v : IsValid r4 r6 store) (domain : Text)
    (ttl now : ℕ) (w : Version)
    → IsValid r4 r6 (allocate w store domain ttl now).0
allocate-IsValid r4 r6 store v domain ttl now ipv4 = allocate4-IsValid r4 r6 store v domain ttl now
allocate-IsValid r4 r6 store v domain ttl now ipv6 = allocate6-IsValid r4 r6 store v domain ttl now

module _ (hickory : Hickory) (rules : LiveRuleSet) (ttl : ℕ) where
  abbrev pub answer_for :
      Version → DnsLookupQuery → Result StoreError ℕ → Result DnsError (Option Record)
  answer_for w query result = of_store result and_then λ fake_ip.
      build_record hickory query ttl (rdata_of w fake_ip) and_then λ answer. ok (some answer)

  -- The step for a query, by the family that it wants.
  abbrev step_for :
      FakeIpStore
      → ℕ
      → DnsLookupQuery
      → Option Version
      → FakeIpStore × Result DnsError (Option Record)
  step_for store now query none = (store, ok none)
  step_for store now query (some w) = (
    (allocate w store query.name ttl now).0,
    answer_for w query (allocate w store query.name ttl now).1,
  )

  fake_answer_of :
      (store : FakeIpStore) (now : ℕ) (query : DnsLookupQuery) (kind : RecordType)
      → fake_answer hickory rules ttl store now query kind
        ≡ step_for store now query
            (if live_matches_dns_host rules query.name then version_of kind else none)
  unfolding fake_answer
  fake_answer_of store now query type_a =
      elim (Bool-cases (live_matches_dns_host rules query.name)) [
        | inl e ↦ rw (e, fake_answer) refl
        | inr e ↦ rw (e, fake_answer) refl
      ]
  fake_answer_of store now query type_aaaa =
      elim (Bool-cases (live_matches_dns_host rules query.name)) [
        | inl e ↦ rw (e, fake_answer) refl
        | inr e ↦ rw (e, fake_answer) refl
      ]
  fake_answer_of store now query (type_other other) =
      elim (Bool-cases (live_matches_dns_host rules query.name)) [
        | inl e ↦ rw (e, fake_answer) refl
        | inr e ↦ rw (e, fake_answer) refl
      ]

  fake_answer_lem :
      (store : FakeIpStore) (now : ℕ) (query : DnsLookupQuery)
      → fake_answer hickory rules ttl store now query query.record_type
        ≡ step_for store now query (wanted rules query)
  fake_answer_lem store now query = fake_answer_of store now query query.record_type

  -- The address of an answer that was made.
  pub answer_for_ok :
      (w : Version) (query : DnsLookupQuery) (result : Result StoreError ℕ) (answer : Option Record)
      → answer_for w query result ≡ ok answer
      → (ip : ℕ) × (name : Text) × (result ≡ ok ip)
        × (hickory.name_from_ascii query.name ≡ some name)
        × (answer ≡ some (record { name = name; ttl = ttl % 2 ^ 32; rdata = rdata_of w ip }))
  unfolding build_record
  answer_for_ok w query (err e) answer h = absurd (ground arith)
  answer_for_ok w query (ok ip) answer h =
      elim (Option-cases (hickory.name_from_ascii query.name)) [
        | inl e ↦ absurd (ground arith)
        | inr (name, e) ↦ (ip, name, refl, e, ground arith)
      ]

-- One round of the loop.
module _ (hickory : Hickory) (rules : LiveRuleSet) (ttl : ℕ) (clock : ℕ → ℕ) (i : ℕ)
    (store : FakeIpStore) (answers : List Record) (matched : Bool) (query : DnsLookupQuery)
    (queries : List DnsLookupQuery) where
  abbrev pub loop_from :
      ℕ
      → FakeIpStore
      → List Record
      → Bool
      → List DnsLookupQuery
      → FakeIpStore × Result DnsError (Option (List Record))
  loop_from = build_fake_answers_loop hickory rules ttl clock

  pub round_skip :
      wanted rules query ≡ none
      → loop_from i store answers matched (query ∷ queries)
        ≡ loop_from (i + 1) store answers (matched || false) queries
  unfolding build_fake_answers_loop
  round_skip e = ground (arith, fake_answer_lem hickory rules ttl store (clock i) query, e)

  module _ (w : Version) (e : wanted rules query ≡ some w) where
    abbrev pub allocated : FakeIpStore × Result StoreError ℕ
    allocated = allocate w store query.name ttl (clock i)

    pub round_answer :
        (answer : Record)
        → answer_for hickory rules ttl w query allocated.1 ≡ ok (some answer)
        → loop_from i store answers matched (query ∷ queries)
          ≡ loop_from (i + 1) allocated.0 (answers ++ answer ∷ []) (matched || true) queries
    unfolding build_fake_answers_loop
    round_answer answer a =
        ground (arith, fake_answer_lem hickory rules ttl store (clock i) query, e, a)

    pub round_err :
        (er : DnsError)
        → answer_for hickory rules ttl w query allocated.1 ≡ err er
        → loop_from i store answers matched (query ∷ queries) ≡ (allocated.0, err er)
    unfolding build_fake_answers_loop
    round_err er a = ground (arith, fake_answer_lem hickory rules ttl store (clock i) query, e, a)
