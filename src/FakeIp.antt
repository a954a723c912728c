-- ===== src/FakeIp.antt =====
-- src/traffic/shared/dns/fake_ip.rs: the store of fake addresses. `Instant` and `Duration` are
-- counts of seconds, an address is the number that its octets spell, a domain a list of code points.
-- The two maps and the candidate of each address family are grouped in a `Family`.
pub mod Range
pub mod Allocate
pub mod Invariant
pub mod Pruning
pub mod Laws
pub mod Resolve
pub mod After
pub mod Store
pub mod Promises
pub mod Repeat
mod Tests
use any_mirror.Common.{
  ltb, leb, if◌then◌else◌, ◌>>=◌, nat_eq, pair_eq, list_eq, option_eq, Result, ok, err, Mutex,
  IpAddr, v4, v6, ℕ, ◌+◌, Bool, true, false, Option, none, some, List, [], ◌∷◌,
}
use any_mirror.HashMap.{HashMap, get, contains_key, insert, remove, keys_where}
use any_mirror.Text.{Text, trim_end_matches, to_ascii_lowercase}
use Range.{
  Ipv4Net, Ipv6Net, first_allocatable_ipv4, last_usable_ipv4, first_allocatable_ipv6,
  last_usable_ipv6,
}
use Allocate.{Search, found, exhausted, out_of_fuel, search_candidate}

-- `FakeIpv4Entry` and `FakeIpv6Entry`
pub record FakeIpEntry : Type 0 where
  pub ip : ℕ
  pub expires_at : ℕ

pub record Family : Type 0 where
  pub domain_to_entry : HashMap Text FakeIpEntry
  pub ip_to_domain : HashMap ℕ Text
  pub next_candidate : ℕ

pub record FakeIpStoreInner : Type 0 where
  pub v4 : Family
  pub fake_ipv4_range : Ipv4Net
  pub v6 : Family
  pub fake_ipv6_range : Ipv6Net

abbrev pub FakeIpStore : Type 0
FakeIpStore = Mutex FakeIpStoreInner

pub data StoreError : Type 0 where
  lock_poisoned pool_exhausted : StoreError

abbrev pub empty_family : ℕ → Family
empty_family first = record { domain_to_entry = []; ip_to_domain = []; next_candidate = first }

unfoldable pub new : Ipv4Net → Ipv6Net → FakeIpStore
new fake_ipv4_range fake_ipv6_range = record {
  poisoned = false;
  value = record {
    v4 = empty_family (first_allocatable_ipv4 fake_ipv4_range);
    fake_ipv4_range = fake_ipv4_range;
    v6 = empty_family (first_allocatable_ipv6 fake_ipv6_range);
    fake_ipv6_range = fake_ipv6_range;
  };
}

unfoldable pub normalize_domain : Text → Text
normalize_domain domain = to_ascii_lowercase (trim_end_matches b'.' domain)

-- The test of the two `filter_map`s of `prune_expired_entries`.
abbrev pub is_expired : ℕ → FakeIpEntry → Bool
is_expired now entry = leb entry.expires_at now

-- The body of the loop that removes expired domains.
unfoldable pub drop_domain : Text → Family → Family
drop_domain domain s = elim (get domain s.domain_to_entry) [
  | none ↦ s
  | some entry ↦ record s {
    domain_to_entry = remove domain s.domain_to_entry;
    ip_to_domain = remove entry.ip s.ip_to_domain;
  }
]

unfoldable pub drop_domains : List Text → Family → Family
drop_domains [] s = s
drop_domains (domain ∷ domains) s = drop_domains domains (drop_domain domain s)

unfoldable pub prune_family : ℕ → Family → Family
prune_family now s = drop_domains (keys_where (is_expired now) s.domain_to_entry) s

unfoldable pub prune_expired_entries : FakeIpStoreInner → ℕ → FakeIpStoreInner
prune_expired_entries inner now = record inner {
  v4 = prune_family now inner.v4;
  v6 = prune_family now inner.v6;
}

-- `allocate_next_ipv4` and `allocate_next_ipv6`, given the bounds that they compute.
unfoldable pub allocate_next : ℕ → Option ℕ → Family → Family × Option ℕ
allocate_next first none s = (s, none)
allocate_next first (some last) s =
    if ltb last first
    then (s, none)
    else elim (search_candidate (λ ip. contains_key ip s.ip_to_domain) first last
        s.next_candidate) [
          | found candidate next ↦ (record s { next_candidate = next }, some candidate)
          | exhausted ↦ (s, none)
          | out_of_fuel ↦ (s, none)
        ]

-- What a fresh address, or the lack of one, makes of the maps.
unfoldable pub store_new : Text → ℕ → Family × Option ℕ → Family × Result StoreError ℕ
store_new domain expires_at (s, none) = (s, err pool_exhausted)
store_new domain expires_at (s, some fake_ip) = (
  record s {
    domain_to_entry =
        insert domain (record { ip = fake_ip; expires_at = expires_at }) s.domain_to_entry;
    ip_to_domain = insert fake_ip domain s.ip_to_domain;
  },
  ok fake_ip,
)

-- `allocate_or_refresh_ipv4` and `allocate_or_refresh_ipv6` past the pruning, for the family's
-- maps: the entry of a known domain is refreshed, a new domain gets the next free address.
unfoldable pub allocate_or_refresh :
    ℕ → Option ℕ → Text → ℕ → ℕ → Family → Family × Result StoreError ℕ
unfolding allocate_next store_new
allocate_or_refresh first last normalized_domain ttl now s =
    elim (get normalized_domain s.domain_to_entry) [
      | some entry ↦ (
        record s {
          domain_to_entry =
              insert normalized_domain (record entry { expires_at = now + ttl }) s.domain_to_entry;
        },
        ok entry.ip,
      )
      | none ↦ store_new normalized_domain (now + ttl) (allocate_next first last s)
    ]

unfoldable pub allocate_or_refresh_ipv4 :
    FakeIpStore → Text → ℕ → ℕ → FakeIpStore × Result StoreError ℕ
allocate_or_refresh_ipv4 store domain ttl now =
    if store.poisoned
    then (store, err lock_poisoned)
    else (let inner = prune_expired_entries store.value now in
        let range = inner.fake_ipv4_range in
        let (family, result) =
          allocate_or_refresh (first_allocatable_ipv4 range) (last_usable_ipv4 range)
            (normalize_domain domain) ttl now inner.v4 in
        (record store { value = record inner { v4 = family } }, result))

unfoldable pub allocate_or_refresh_ipv6 :
    FakeIpStore → Text → ℕ → ℕ → FakeIpStore × Result StoreError ℕ
allocate_or_refresh_ipv6 store domain ttl now =
    if store.poisoned
    then (store, err lock_poisoned)
    else (let inner = prune_expired_entries store.value now in
        let range = inner.fake_ipv6_range in
        let (family, result) =
          allocate_or_refresh (first_allocatable_ipv6 range) (last_usable_ipv6 range)
            (normalize_domain domain) ttl now inner.v6 in
        (record store { value = record inner { v6 = family } }, result))

-- The two branches of the `match` in `resolve_domain`.
unfoldable pub resolve_family : Family → ℕ → ℕ → Option Text
resolve_family s ip now = do
  domain ← get ip s.ip_to_domain
  entry ← get domain s.domain_to_entry
  if ltb now entry.expires_at then some domain else none

unfoldable pub resolve_inner : FakeIpStoreInner → ℕ → IpAddr → Option Text
unfolding resolve_family
resolve_inner inner now (v4 ip) = resolve_family inner.v4 ip now
resolve_inner inner now (v6 ip) = resolve_family inner.v6 ip now

-- The store is pruned in passing.
unfoldable pub resolve_domain : FakeIpStore → IpAddr → ℕ → FakeIpStore × Option Text
unfolding resolve_inner
resolve_domain store ip now =
    if store.poisoned
    then (store, none)
    else (let inner = prune_expired_entries store.value now in
        (record store { value = inner }, resolve_inner inner now ip))
