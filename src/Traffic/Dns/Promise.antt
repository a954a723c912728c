-- ===== src/Traffic/Dns/Promise.antt =====
-- What the fake answers of src/traffic/shared/dns/mod.rs promise: the addresses in them resolve to the
-- domains that were asked for.
use any_mirror.Traffic.Dns.Rounds.{is_nonempty, loop-Outcome}
use any_mirror.Common.{
  if◌then◌else◌, length, nat_eq, pair_eq, list_eq, option_eq, ok, IpAddr, ip_eq, ℕ, ◌+◌, ◌≤◌, ◌<◌,
  ◌≡◌, refl, ◌∙◌, false, ◌||◌, Option, none, some, List, [], ◌∷◌, ◌++◌, arith,
}
use any_mirror.Text.{Text}
use any_mirror.FakeIp.Range.{Ipv4Net, Ipv6Net}
use any_mirror.FakeIp.Store.{IsValid}
use any_mirror.FakeIp.Promises.{resolved}
use any_mirror.Traffic.Dns.{Record, DnsLookupQuery, FakeDnsState, Hickory, build_fake_answers}
use any_mirror.Traffic.Dns.Answers.{Answered}

-- An address resolves to a domain from one time to another.
abbrev pub reply_of : List Record → Option (List Record)
reply_of [] = none
reply_of (answer ∷ answers) = some (answer ∷ answers)

-- A successful reply to queries: the answers, the store behind it, and what it keeps of the store before.
pub record IsReply (hickory : Hickory) (r4 : Ipv4Net) (r6 : Ipv6Net) (before after : FakeDnsState)
    (first later : ℕ) (queries : List DnsLookupQuery) (reply : Option (List Record)) : Type 0 where
  pub answers : List Record
  pub reply_eq : reply ≡ reply_of answers
  pub each_answered :
      Answered hickory after.rules after.options.record_ttl after.fake_ip_store later queries
        answers
  pub rules_kept : after.rules ≡ before.rules
  pub valid : IsValid r4 r6 after.fake_ip_store
  pub kept :
      (other : IpAddr) (domain : Text)
      → ((t : ℕ) → first ≤ t → t ≤ later → resolved before.fake_ip_store other t ≡ some domain)
      → resolved after.fake_ip_store other later ≡ some domain

-- With a valid store and a clock that does not run backwards, queries that are answered have, in their
-- order, an answer for each query for an IPv4 or IPv6 address of a host that the rules match, and none
-- for others; with no answer there is no reply. Until the time to live of the first query is over, the
-- address in an answer resolves to the domain of its query, and what else resolved still does.
pub build_fake_answers-IsReply :
    (hickory : Hickory) (r4 : Ipv4Net) (r6 : Ipv6Net) (clock : ℕ → ℕ) (state : FakeDnsState)
    (queries : List DnsLookupQuery) (later : ℕ) (reply : Option (List Record))
    → IsValid r4 r6 state.fake_ip_store
    → ((k l : ℕ) → k ≤ l → clock k ≤ clock l)
    → clock 0 ≤ later
    → ((k : ℕ) → k < length queries → clock k ≤ later)
    → later < clock 0 + state.options.record_ttl
    → (build_fake_answers hickory clock state queries).1 ≡ ok reply
    → IsReply hickory r4 r6 state
        (build_fake_answers hickory clock state queries).0
        (clock 0)
        later
        queries
        reply
unfolding build_fake_answers
build_fake_answers-IsReply hickory r4 r6 clock state queries later reply v ordered here past soon
      h =
    let out =
      loop-Outcome hickory state.rules state.options.record_ttl r4 r6 clock later ordered queries 0
        (clock 0) state.fake_ip_store [] false reply v
        (record {
          in_time = here;
          soon = soon;
          since = λ k a b. ordered 0 k a;
          past = λ k a b. past k (omega arith);
        })
        h in
    record {
      answers = out.rest;
      reply_eq = out.result ∙ as_reply out.rest;
      each_answered = out.replied;
      rules_kept = refl;
      valid = out.valid;
      kept = out.kept;
    }
  where
    as_reply :
        (rs : List Record)
        → (if false || is_nonempty rs then some ([] ++ rs) else none) ≡ reply_of rs
    as_reply [] = refl
    as_reply (r ∷ rs) = refl
