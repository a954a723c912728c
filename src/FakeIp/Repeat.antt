-- ===== src/FakeIp/Repeat.antt =====
-- An address that src/traffic/shared/dns/fake_ip.rs hands out again, and what a series of calls keeps.
use any_mirror.Common.{
  Bool-cases, ◌==◌, nat_eq, pair_eq, list_eq, option_eq, ok, IpAddr, ip_same_iff, ip_eq, ℕ, ◌+◌,
  ◌≤◌, ◌<◌, ◌≡◌, sym, ◌∙◌, inl, inr, some, arith,
}
use any_mirror.Text.{Text}
use any_mirror.FakeIp.{FakeIpStore, normalize_domain}
use any_mirror.FakeIp.Range.{Ipv4Net, Ipv6Net}
use any_mirror.FakeIp.After.{answer_same}
use any_mirror.FakeIp.Store.{IsValid}
use any_mirror.FakeIp.Promises.{
  Version, allocate, address, first_of, last_of, resolved, family, linked, resolved_here,
  result-allocate, resolve-allocate, resolve-allocate_ne,
}

-- What an allocation returns is an address that resolved to nothing before, or to the same domain.
pub allocate_same :
    (r4 : Ipv4Net) (r6 : Ipv6Net) (store : FakeIpStore) (v : IsValid r4 r6 store) (domain : Text)
    (ttl now : ℕ) (w : Version) (ip : ℕ) (j : Text)
    → (allocate w store domain ttl now).1 ≡ ok ip
    → resolved store (address w ip) now ≡ some j
    → j ≡ normalize_domain domain
allocate_same r4 r6 store v domain ttl now w ip j h a =
    answer_same (first_of r4 r6 w) (last_of r4 r6 w) (normalize_domain domain) ttl now
      (family w store) (linked r4 r6 store v w) ip
      (sym (result-allocate r4 r6 store v domain ttl now w) ∙ h) j
      (sym (resolved_here r4 r6 store v w ip now) ∙ a)

-- Where an address resolves to a domain until a time, it still does so after an allocation for any domain.
pub resolved_kept :
    (r4 : Ipv4Net) (r6 : Ipv6Net) (store : FakeIpStore) (v : IsValid r4 r6 store) (domain : Text)
    (ttl now : ℕ) (w : Version) (ip : ℕ) (other : IpAddr) (j : Text) (later : ℕ)
    → (allocate w store domain ttl now).1 ≡ ok ip
    → now ≤ later
    → later < now + ttl
    → resolved store other now ≡ some j
    → resolved store other later ≡ some j
    → resolved (allocate w store domain ttl now).0 other later ≡ some j
resolved_kept r4 r6 store v domain ttl now w ip other j later h ord soon a b =
    elim (Bool-cases (other == address w ip)) [
      | inl same ↦
          let e = (ip_same_iff other (address w ip)).0 same in
          let d = allocate_same r4 r6 store v domain ttl now w ip j h (rw (← e) a) in
          rw (e, d) (resolve-allocate r4 r6 store v domain ttl now w ip later h soon)
      | inr differ ↦
          resolve-allocate_ne r4 r6 store v domain ttl now w ip later other h ord
            (λ e. absurd (ground (arith, ip_same_iff other (address w ip))))
          ∙ b
    ]
