-- ===== src/Traffic/Dns/Rounds.antt =====
-- The rounds of the loop over the queries in src/traffic/shared/dns/mod.rs.
use mathlib.Core.List.{append-nil, append_assoc}
use any_mirror.Common.{
  if◌then◌else◌, Option-cases, length, nat_eq, pair_eq, list_eq, option_eq, Result, ok, err, IpAddr,
  ip_eq, ℕ, suc, ◌+◌, ◌%◌, ◌^◌, ◌≤◌, ◌<◌, ◌≡◌, refl, ap, ◌∙◌, inl, inr, Bool, true, false, ◌||◌,
  Option, none, some, List, [], ◌∷◌, ◌++◌, arith,
}
use any_mirror.Text.{Text}
use any_mirror.FakeIp.Range.{Ipv4Net, Ipv6Net}
use any_mirror.FakeIp.{FakeIpStore, normalize_domain}
use any_mirror.FakeIp.Store.{IsValid}
use any_mirror.FakeIp.Promises.{Version, allocate, address, resolved, resolve-allocate}
use any_mirror.FakeIp.Repeat.{resolved_kept}
use any_mirror.Rules.Live.{LiveRuleSet}
use any_mirror.Traffic.Dns.{Record, DnsLookupQuery, DnsError, Hickory, build_fake_answers_loop}
use any_mirror.Traffic.Dns.Answers.{
  rdata_of, wanted, Answered, done, skipped, answered, allocate-IsValid, answer_for, answer_for_ok,
  round_skip, round_answer, round_err,
}

abbrev pub Until : FakeIpStore → ℕ → ℕ → IpAddr → Text → Type 0
Until store now later other j = (t : ℕ) → now ≤ t → t ≤ later → resolved store other t ≡ some j

abbrev pub is_nonempty : List Record → Bool
is_nonempty [] = false
is_nonempty (answer ∷ answers) = true

-- The records that the loop adds.
module _ (hickory : Hickory) (rules : LiveRuleSet) (ttl : ℕ) (r4 : Ipv4Net) (r6 : Ipv6Net)
    (clock : ℕ → ℕ) (later : ℕ) where
  pub record Outcome (store : FakeIpStore) (now : ℕ) (answers : List Record) (matched : Bool)
      (queries : List DnsLookupQuery) (final : FakeIpStore) (o : Option (List Record))
      : Type 0 where
    pub rest : List Record
    pub result : o ≡ (if matched || is_nonempty rest then some (answers ++ rest) else none)
    pub replied : Answered hickory rules ttl final later queries rest
    pub valid : IsValid r4 r6 final
    pub kept :
        (other : IpAddr) (j : Text)
        → Until store now later other j
        → resolved final other later ≡ some j

  -- The readings of the clock for the queries that are left.
  pub record Times (now i count : ℕ) : Type 0 where
    pub in_time : now ≤ later
    pub soon : later < now + ttl
    pub since : (k : ℕ) → i ≤ k → k < i + count → now ≤ clock k
    pub past : (k : ℕ) → i ≤ k → k < i + count → clock k ≤ later

  module _ (ordered : (k l : ℕ) → k ≤ l → clock k ≤ clock l) where
    pub Times-skip : (now i count : ℕ) → Times now i (suc count) → Times now (i + 1) count
    Times-skip now i count t = record {
      in_time = t.in_time;
      soon = t.soon;
      since = λ k a b. t.since k (omega arith) (omega arith);
      past = λ k a b. t.past k (omega arith) (omega arith);
    }

    pub Times-next : (now i count : ℕ) → Times now i (suc count) → Times (clock i) (i + 1) count
    Times-next now i count t =
        let p = t.since i (omega arith) (omega arith) in
        record {
          in_time = t.past i (omega arith) (omega arith);
          soon = omega (arith, t.soon, p);
          since = λ k a b. ordered i k (omega arith);
          past = λ k a b. t.past k (omega arith) (omega arith);
        }

    pub Until-allocate :
        (store : FakeIpStore) (v : IsValid r4 r6 store) (domain : Text) (w : Version) (now i : ℕ)
        (ip : ℕ) (other : IpAddr) (j : Text)
        → (allocate w store domain ttl (clock i)).1 ≡ ok ip
        → now ≤ clock i
        → clock i ≤ later
        → later < now + ttl
        → Until store now later other j
        → Until (allocate w store domain ttl (clock i)).0 (clock i) later other j
    Until-allocate store v domain w now i ip other j h a b soon u t low high =
        resolved_kept r4 r6 store v domain ttl (clock i) w ip other j t h low (omega arith)
          (u (clock i) a b) (u t (omega arith) high)

    -- What the rounds that are left make of the state after one round.
    pub after_skip :
        (query : DnsLookupQuery) (queries : List DnsLookupQuery) (now : ℕ) (store : FakeIpStore)
        (answers : List Record) (matched : Bool) (final : FakeIpStore) (o : Option (List Record))
        → wanted rules query ≡ none
        → Outcome store now answers (matched || false) queries final o
        → Outcome store now answers matched (query ∷ queries) final o
    after_skip query queries now store answers matched final o e out = record {
      rest = out.rest;
      result = ground (arith, out.result);
      replied = skipped e out.replied;
      valid = out.valid;
      kept = out.kept;
    }

    pub after_answer :
        (query : DnsLookupQuery) (queries : List DnsLookupQuery) (now i : ℕ) (store : FakeIpStore)
        (v : IsValid r4 r6 store) (answers : List Record) (matched : Bool) (w : Version) (ip : ℕ)
        (name : Text) (final : FakeIpStore) (o : Option (List Record))
        → wanted rules query ≡ some w
        → Times now i (suc (length queries))
        → (allocate w store query.name ttl (clock i)).1 ≡ ok ip
        → hickory.name_from_ascii query.name ≡ some name
        → Outcome
            (allocate w store query.name ttl (clock i)).0
            (clock i)
            (answers ++ (record { name = name; ttl = ttl % 2 ^ 32; rdata = rdata_of w ip }) ∷ [])
            (matched || true)
            queries
            final
            o
        → Outcome store now answers matched (query ∷ queries) final o
    after_answer query queries now i store v answers matched w ip name final o e t h named out =
        let answer : Record = record { name = name; ttl = ttl % 2 ^ 32; rdata = rdata_of w ip } in
        let from = t.since i (omega arith) (omega arith) in
        let to = t.past i (omega arith) (omega arith) in
        record {
          rest = answer ∷ out.rest;
          result = ground (arith, out.result, append_assoc answers (answer ∷ []) out.rest);
          replied =
              answered w e
                (record {
                  ip = ip;
                  named_after = named;
                  ttl_of = refl;
                  holds = refl;
                  resolves = out.kept (address w ip) (normalize_domain query.name) (λ u low high.
                      resolve-allocate r4 r6 store v query.name ttl (clock i) w ip u h
                        (omega (arith, t.soon, from)));
                })
                out.replied;
          valid = out.valid;
          kept = λ other j u.
              out.kept other j
                (Until-allocate store v query.name w now i ip other j h from to t.soon u);
        }

    module _ (query : DnsLookupQuery) (queries : List DnsLookupQuery) (i now : ℕ)
        (store : FakeIpStore) (answers : List Record) (matched : Bool) (o : Option (List Record))
        (v : IsValid r4 r6 store) (times : Times now i (suc (length queries))) where
      abbrev pub loop :
          ℕ
          → FakeIpStore
          → List Record
          → Bool
          → List DnsLookupQuery
          → FakeIpStore × Result DnsError (Option (List Record))
      loop = build_fake_answers_loop hickory rules ttl clock

      pub after_round :
          (w : Version)
          → wanted rules query ≡ some w
          → ((s : FakeIpStore) (rs : List Record)
              → IsValid r4 r6 s
              → (loop (i + 1) s rs (matched || true) queries).1 ≡ ok o
              → Outcome s
                  (clock i)
                  rs
                  (matched || true)
                  queries
                  (loop (i + 1) s rs (matched || true) queries).0
                  o)
          → (r : Result DnsError (Option Record))
          → answer_for hickory rules ttl w query (allocate w store query.name ttl (clock i)).1 ≡ r
          → (loop i store answers matched (query ∷ queries)).1 ≡ ok o
          → Outcome store now answers matched
              (query ∷ queries)
              (loop i store answers matched (query ∷ queries)).0
              o
      after_round w e ih (err er) a h =
          let failed =
            round_err hickory rules ttl clock i store answers matched query queries w e er a in
          absurd (ground (arith, failed, h))
      after_round w e ih (ok answer) a h =
          let (ip, name, got, named, is) =
            answer_for_ok hickory rules ttl w query (allocate w store query.name ttl (clock i)).1
              answer a in
          let made : Record = record { name = name; ttl = ttl % 2 ^ 32; rdata = rdata_of w ip } in
          let step =
            round_answer hickory rules ttl clock i store answers matched query queries w e made
              (a ∙ ap ok is) in
          rw step (
            after_answer query queries now i store v answers matched w ip name _ o e times got named
              (ih (allocate w store query.name ttl (clock i)).0 (answers ++ made ∷ [])
                (allocate-IsValid r4 r6 store v query.name ttl (clock i) w) (rw step at h)))

    pub loop-Outcome :
        (queries : List DnsLookupQuery) (i now : ℕ) (store : FakeIpStore) (answers : List Record)
        (matched : Bool) (o : Option (List Record))
        → IsValid r4 r6 store
        → Times now i (length queries)
        → (build_fake_answers_loop hickory rules ttl clock i store answers matched queries).1 ≡ ok o
        → Outcome store now answers matched queries
            (build_fake_answers_loop hickory rules ttl clock i store answers matched queries).0
            o
    unfolding build_fake_answers_loop
    loop-Outcome [] i now store answers matched o v times h = record {
      rest = [];
      result = ground (arith, append-nil answers);
      replied = done;
      valid = v;
      kept = λ other j u. u later times.in_time (omega arith);
    }
    loop-Outcome (query ∷ queries) i now store answers matched o v times h =
        elim (Option-cases (wanted rules query)) [
          | inl e ↦
              let skip =
                round_skip hickory rules ttl clock i store answers matched query queries e in
              rw skip (
                after_skip query queries now store answers matched _ o e (
                  loop-Outcome queries (i + 1) now store answers (matched || false) o v
                    (Times-skip now i (length queries) times) (rw skip at h)))
          | inr (w, e) ↦
              after_round query queries i now store answers matched o v times w e
                (λ s rs sv sh.
                  loop-Outcome queries (i + 1) (clock i) s rs (matched || true) o sv
                    (Times-next now i (length queries) times) sh)
                (answer_for hickory rules ttl w query (allocate w store query.name ttl (clock i)).1)
                refl h
        ]
