-- ===== src/FakeIp/Promises.antt =====
-- What the callers of `FakeIpStore` in src/traffic/shared/dns/fake_ip.rs rely on: the DNS server
-- that hands addresses out, and the packet handlers that ask for the domain behind one.
use any_mirror.Common.{
  nat_eq, pair_eq, list_eq, option_eq, Result, ok, err, IpAddr, ip_eq, ℕ, ◌+◌, ◌≤◌, ◌<◌, ◌≡◌, sym,
  ap, ◌∙◌, ◌≢◌, false, Option, some,
}
use any_mirror.Text.{Text}
use any_mirror.FakeIp.{
  Family, FakeIpStore, StoreError, pool_exhausted, normalize_domain, prune_expired_entries,
  allocate_or_refresh_ipv4, allocate_or_refresh_ipv6, resolve_domain,
}
use any_mirror.FakeIp.Range.{
  Ipv4Net, Ipv6Net, first_allocatable_ipv4, last_usable_ipv4, first_allocatable_ipv6,
  last_usable_ipv6,
}
use any_mirror.FakeIp.Invariant.{IsLinked}
use any_mirror.FakeIp.Laws.{Allocatable}
use any_mirror.FakeIp.Resolve.{answer, answer_injective, answer-prune}
use any_mirror.FakeIp.After.{after, answer-after, answer-after_ne, answer_stable, after_exhausted}
use any_mirror.FakeIp.Store.{
  IsValid, allocated4, allocated6, allocate4_lem, allocate6_lem, allocate4-IsValid,
  allocate6-IsValid,
}

-- The two address families, to state a promise for both.
pub data Version : Type 0 where
  ipv4 ipv6 : Version

abbrev pub allocate : Version → FakeIpStore → Text → ℕ → ℕ → FakeIpStore × Result StoreError ℕ
allocate ipv4 = allocate_or_refresh_ipv4
allocate ipv6 = allocate_or_refresh_ipv6

abbrev pub address : Version → ℕ → IpAddr
address ipv4 = IpAddr.v4
address ipv6 = IpAddr.v6

abbrev pub first_of : Ipv4Net → Ipv6Net → Version → ℕ
first_of r4 r6 ipv4 = first_allocatable_ipv4 r4
first_of r4 r6 ipv6 = first_allocatable_ipv6 r6

abbrev pub last_of : Ipv4Net → Ipv6Net → Version → Option ℕ
last_of r4 r6 ipv4 = last_usable_ipv4 r4
last_of r4 r6 ipv6 = last_usable_ipv6 r6

abbrev pub InRange : Ipv4Net → Ipv6Net → Version → ℕ → Type 0
InRange r4 r6 w = Allocatable (first_of r4 r6 w) (last_of r4 r6 w)

abbrev pub resolved : FakeIpStore → IpAddr → ℕ → Option Text
resolved store ip now = (resolve_domain store ip now).1

abbrev pub family : Version → FakeIpStore → Family
family ipv4 store = store.value.v4
family ipv6 store = store.value.v6

resolved_lem :
    (w : Version) (store : FakeIpStore) (ip now : ℕ)
    → store.poisoned ≡ false
    → resolved store (address w ip) now ≡ answer (family w store) ip now
unfolding resolve_domain prune_expired_entries
resolved_lem ipv4 store ip now u = rw (u, resolve_domain)
resolved_lem ipv6 store ip now u = rw (u, resolve_domain)

module _ (r4 : Ipv4Net) (r6 : Ipv6Net) (store : FakeIpStore) (v : IsValid r4 r6 store) where
  pub linked : (w : Version) → IsLinked (InRange r4 r6 w) (family w store)
  linked ipv4 = v.linked4
  linked ipv6 = v.linked6

  pub resolved_here :
      (w : Version) (ip now : ℕ)
      → resolved store (address w ip) now ≡ answer (family w store) ip now
  resolved_here w ip now = resolved_lem w store ip now v.unpoisoned

  -- In a valid store two addresses of one family that resolve to the same domain are the same.
  pub resolve_injective :
      (w : Version) (ip ip' now : ℕ) (domain : Text)
      → resolved store (address w ip) now ≡ some domain
      → resolved store (address w ip') now ≡ some domain
      → ip ≡ ip'
  resolve_injective w ip ip' now domain h h' =
      answer_injective (InRange r4 r6 w) (family w store) (linked w) now ip ip' domain
        (sym (resolved_here w ip now) ∙ h) (sym (resolved_here w ip' now) ∙ h')

module _ (r4 : Ipv4Net) (r6 : Ipv6Net) (store : FakeIpStore) (v : IsValid r4 r6 store)
    (domain : Text) (ttl now : ℕ) where
  abbrev pub outcome : Version → Family × Result StoreError ℕ
  outcome w =
      after (first_of r4 r6 w) (last_of r4 r6 w) (normalize_domain domain) ttl now (family w store)
        (linked r4 r6 store v w)

  family-allocate : (w : Version) → family w (allocate w store domain ttl now).0 ≡ (outcome w).0
  unfolding allocated4 allocated6
  family-allocate ipv4 = ap (λ q. q.0.value.v4) (allocate4_lem r4 r6 store v domain ttl now)
  family-allocate ipv6 = ap (λ q. q.0.value.v6) (allocate6_lem r4 r6 store v domain ttl now)

  pub result-allocate : (w : Version) → (allocate w store domain ttl now).1 ≡ (outcome w).1
  unfolding allocated4 allocated6
  result-allocate ipv4 = ap (λ q. q.1) (allocate4_lem r4 r6 store v domain ttl now)
  result-allocate ipv6 = ap (λ q. q.1) (allocate6_lem r4 r6 store v domain ttl now)

  pub unpoisoned-allocate : (w : Version) → (allocate w store domain ttl now).0.poisoned ≡ false
  unpoisoned-allocate ipv4 = (allocate4-IsValid r4 r6 store v domain ttl now).unpoisoned
  unpoisoned-allocate ipv6 = (allocate6-IsValid r4 r6 store v domain ttl now).unpoisoned

  -- What the addresses of a family resolve to after an allocation.
  resolved-allocate :
      (w : Version) (ip later : ℕ)
      → resolved (allocate w store domain ttl now).0 (address w ip) later
        ≡ answer (outcome w).0 ip later
  resolved-allocate w ip later =
      resolved_lem w (allocate w store domain ttl now).0 ip later (unpoisoned-allocate w)
      ∙ ap (λ s. answer s ip later) (family-allocate w)

  -- In a valid store an address that was handed out resolves to its domain, in its normal form,
  -- until the time to live is over.
  pub resolve-allocate :
      (w : Version) (ip later : ℕ)
      → (allocate w store domain ttl now).1 ≡ ok ip
      → later < now + ttl
      → resolved (allocate w store domain ttl now).0 (address w ip) later
        ≡ some (normalize_domain domain)
  resolve-allocate w ip later h soon =
      resolved-allocate w ip later
      ∙ answer-after (first_of r4 r6 w) (last_of r4 r6 w) (normalize_domain domain) ttl now
          (family w store) (linked r4 r6 store v w) ip (sym (result-allocate w) ∙ h) later soon

  -- In a valid store a domain that still holds an address gets the same one again.
  pub allocate_stable :
      (w : Version) (ip held : ℕ)
      → (allocate w store domain ttl now).1 ≡ ok ip
      → resolved store (address w held) now ≡ some (normalize_domain domain)
      → ip ≡ held
  allocate_stable w ip held h a =
      answer_stable (first_of r4 r6 w) (last_of r4 r6 w) (normalize_domain domain) ttl now
        (family w store) (linked r4 r6 store v w) ip (sym (result-allocate w) ∙ h) held
        (sym (resolved_here r4 r6 store v w held now) ∙ a)

  same_family :
      (w : Version) (ip other later : ℕ)
      → (allocate w store domain ttl now).1 ≡ ok ip
      → now ≤ later
      → other ≢ ip
      → resolved (allocate w store domain ttl now).0 (address w other) later
        ≡ resolved store (address w other) later
  same_family w ip other later h ord ne =
      resolved-allocate w other later
      ∙ answer-after_ne (first_of r4 r6 w) (last_of r4 r6 w) (normalize_domain domain) ttl now
          (family w store) (linked r4 r6 store v w) ip (sym (result-allocate w) ∙ h) later other ord
          ne
      ∙ sym (resolved_here r4 r6 store v w other later)

  ipv6_kept :
      (ip later : ℕ)
      → now ≤ later
      → resolved (allocate ipv4 store domain ttl now).0 (IpAddr.v6 ip) later
        ≡ resolved store (IpAddr.v6 ip) later
  ipv6_kept ip later ord =
      resolved_lem ipv6 (allocate ipv4 store domain ttl now).0 ip later (unpoisoned-allocate ipv4)
      ∙ ap (λ q. answer q.0.value.v6 ip later) (allocate4_lem r4 r6 store v domain ttl now)
      ∙ answer-prune (InRange r4 r6 ipv6) store.value.v6 v.linked6 now later ip ord
      ∙ sym (resolved_here r4 r6 store v ipv6 ip later)

  ipv4_kept :
      (ip later : ℕ)
      → now ≤ later
      → resolved (allocate ipv6 store domain ttl now).0 (IpAddr.v4 ip) later
        ≡ resolved store (IpAddr.v4 ip) later
  ipv4_kept ip later ord =
      resolved_lem ipv4 (allocate ipv6 store domain ttl now).0 ip later (unpoisoned-allocate ipv6)
      ∙ ap (λ q. answer q.0.value.v4 ip later) (allocate6_lem r4 r6 store v domain ttl now)
      ∙ answer-prune (InRange r4 r6 ipv4) store.value.v4 v.linked4 now later ip ord
      ∙ sym (resolved_here r4 r6 store v ipv4 ip later)

  -- In a valid store an allocation does not change what any other address of either family resolves
  -- to, then or later.
  pub resolve-allocate_ne :
      (w : Version) (ip later : ℕ) (other : IpAddr)
      → (allocate w store domain ttl now).1 ≡ ok ip
      → now ≤ later
      → other ≢ address w ip
      → resolved (allocate w store domain ttl now).0 other later ≡ resolved store other later
  resolve-allocate_ne ipv4 ip later (IpAddr.v4 x) h ord ne =
      same_family ipv4 ip x later h ord (λ e. ne (ap IpAddr.v4 e))
  resolve-allocate_ne ipv4 ip later (IpAddr.v6 x) h ord ne = ipv6_kept x later ord
  resolve-allocate_ne ipv6 ip later (IpAddr.v4 x) h ord ne = ipv4_kept x later ord
  resolve-allocate_ne ipv6 ip later (IpAddr.v6 x) h ord ne =
      same_family ipv6 ip x later h ord (λ e. ne (ap IpAddr.v6 e))

  -- In a valid store an allocation fails only with an exhausted pool: the domain holds no address, and
  -- each address of the range resolves to some domain.
  pub allocate_exhausted :
      (w : Version) (er : StoreError)
      → (allocate w store domain ttl now).1 ≡ err er
      → (er ≡ pool_exhausted)
        × ((x : ℕ) → resolved store (address w x) now ≢ some (normalize_domain domain))
        × ((x : ℕ) → InRange r4 r6 w x → (j : Text) × (resolved store (address w x) now ≡ some j))
  allocate_exhausted w er h =
      let o =
        after_exhausted (first_of r4 r6 w) (last_of r4 r6 w) (normalize_domain domain) ttl now
          (family w store) (linked r4 r6 store v w) er (sym (result-allocate w) ∙ h) in
      (
        o.0,
        λ x a. o.1 x (sym (resolved_here r4 r6 store v w x now) ∙ a),
        λ x a. let (j, found_at) = o.2 x a in (j, resolved_here r4 r6 store v w x now ∙ found_at),
      )
