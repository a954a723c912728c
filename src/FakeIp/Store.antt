-- ===== src/FakeIp/Store.antt =====
-- The promises of `FakeIpStore` in src/traffic/shared/dns/fake_ip.rs, for both address families.
use any_mirror.Common.{
  nat_eq, pair_eq, list_eq, option_eq, Result, IpAddr, ip_eq, ℕ, ◌≡◌, refl, false, List, [], ◌∷◌,
}
use any_mirror.Text.{Text}
use any_mirror.FakeIp.{
  Family, FakeIpStore, StoreError, new, normalize_domain, prune_family, prune_expired_entries,
  allocate_or_refresh, allocate_or_refresh_ipv4, allocate_or_refresh_ipv6, resolve_domain,
}
use any_mirror.FakeIp.Range.{
  Ipv4Net, Ipv6Net, first_allocatable_ipv4, last_usable_ipv4, first_allocatable_ipv6,
  last_usable_ipv6,
}
use any_mirror.FakeIp.Invariant.{IsLinked, empty-IsLinked}
use any_mirror.FakeIp.Pruning.{prune-IsLinked}
use any_mirror.FakeIp.Laws.{Allocatable}
use any_mirror.FakeIp.After.{after-IsLinked}

-- The addresses that a range hands out.
abbrev pub Allocatable4 : Ipv4Net → ℕ → Type 0
Allocatable4 range = Allocatable (first_allocatable_ipv4 range) (last_usable_ipv4 range)

abbrev pub Allocatable6 : Ipv6Net → ℕ → Type 0
Allocatable6 range = Allocatable (first_allocatable_ipv6 range) (last_usable_ipv6 range)

pub record IsValid (r4 : Ipv4Net) (r6 : Ipv6Net) (store : FakeIpStore) : Type 0 where
  pub unpoisoned : store.poisoned ≡ false
  pub range4 : store.value.fake_ipv4_range ≡ r4
  pub range6 : store.value.fake_ipv6_range ≡ r6
  pub linked4 : IsLinked (Allocatable4 r4) store.value.v4
  pub linked6 : IsLinked (Allocatable6 r6) store.value.v6

-- A call of the store's interface.
pub data Call : Type 0 where
  allocate4 : Text → ℕ → ℕ → Call
  allocate6 : Text → ℕ → ℕ → Call
  resolve : IpAddr → ℕ → Call

unfoldable pub step : FakeIpStore → Call → FakeIpStore
step store (allocate4 domain ttl now) = (allocate_or_refresh_ipv4 store domain ttl now).0
step store (allocate6 domain ttl now) = (allocate_or_refresh_ipv6 store domain ttl now).0
step store (resolve ip now) = (resolve_domain store ip now).0

unfoldable pub run : FakeIpStore → List Call → FakeIpStore
run store [] = store
run store (call ∷ calls) = run (step store call) calls

-- What `allocate_or_refresh_ipv4` makes of an unpoisoned store.
unfoldable pub allocated4 : Ipv4Net → FakeIpStore → Text → ℕ → ℕ → Family × Result StoreError ℕ
allocated4 r4 store domain ttl now =
    allocate_or_refresh (first_allocatable_ipv4 r4) (last_usable_ipv4 r4) (normalize_domain domain)
      ttl now (prune_family now store.value.v4)

unfoldable pub allocated6 : Ipv6Net → FakeIpStore → Text → ℕ → ℕ → Family × Result StoreError ℕ
allocated6 r6 store domain ttl now =
    allocate_or_refresh (first_allocatable_ipv6 r6) (last_usable_ipv6 r6) (normalize_domain domain)
      ttl now (prune_family now store.value.v6)

module _ (r4 : Ipv4Net) (r6 : Ipv6Net) where
  pub new-IsValid : IsValid r4 r6 (new r4 r6)
  unfolding new
  new-IsValid = record {
    unpoisoned = refl;
    range4 = refl;
    range6 = refl;
    linked4 = empty-IsLinked (Allocatable4 r4) (first_allocatable_ipv4 r4);
    linked6 = empty-IsLinked (Allocatable6 r6) (first_allocatable_ipv6 r6);
  }

  module _ (store : FakeIpStore) (v : IsValid r4 r6 store) (domain : Text) (ttl now : ℕ) where
    pub allocate4_lem : allocate_or_refresh_ipv4 store domain ttl now ≡ (
      record store {
        value = record store.value {
          v4 = (allocated4 r4 store domain ttl now).0;
          v6 = prune_family now store.value.v6;
        };
      },
      (allocated4 r4 store domain ttl now).1,
    )
    unfolding allocate_or_refresh_ipv4 prune_expired_entries allocated4
    allocate4_lem = rw (v.unpoisoned, v.range4)

    pub allocate6_lem : allocate_or_refresh_ipv6 store domain ttl now ≡ (
      record store {
        value = record store.value {
          v4 = prune_family now store.value.v4;
          v6 = (allocated6 r6 store domain ttl now).0;
        };
      },
      (allocated6 r6 store domain ttl now).1,
    )
    unfolding allocate_or_refresh_ipv6 prune_expired_entries allocated6
    allocate6_lem = rw (v.unpoisoned, v.range6)

    pub allocate4-IsValid : IsValid r4 r6 (allocate_or_refresh_ipv4 store domain ttl now).0
    unfolding allocated4
    allocate4-IsValid = rw allocate4_lem (record {
      unpoisoned = v.unpoisoned;
      range4 = v.range4;
      range6 = v.range6;
      linked4 =
          after-IsLinked (first_allocatable_ipv4 r4) (last_usable_ipv4 r4) (normalize_domain domain)
            ttl now store.value.v4 v.linked4;
      linked6 = prune-IsLinked (Allocatable6 r6) now store.value.v6 v.linked6;
    })

    pub allocate6-IsValid : IsValid r4 r6 (allocate_or_refresh_ipv6 store domain ttl now).0
    unfolding allocated6
    allocate6-IsValid = rw allocate6_lem (record {
      unpoisoned = v.unpoisoned;
      range4 = v.range4;
      range6 = v.range6;
      linked4 = prune-IsLinked (Allocatable4 r4) now store.value.v4 v.linked4;
      linked6 =
          after-IsLinked (first_allocatable_ipv6 r6) (last_usable_ipv6 r6) (normalize_domain domain)
            ttl now store.value.v6 v.linked6;
    })

  pub resolve-IsValid :
      (store : FakeIpStore) (ip : IpAddr) (now : ℕ)
      → IsValid r4 r6 store
      → IsValid r4 r6 (resolve_domain store ip now).0
  unfolding resolve_domain prune_expired_entries
  resolve-IsValid store ip now v =
      rw (v.unpoisoned, resolve_domain)
        (record {
          unpoisoned = refl;
          range4 = v.range4;
          range6 = v.range6;
          linked4 = prune-IsLinked (Allocatable4 r4) now store.value.v4 v.linked4;
          linked6 = prune-IsLinked (Allocatable6 r6) now store.value.v6 v.linked6;
        })

  step-IsValid :
      (store : FakeIpStore) (call : Call) → IsValid r4 r6 store → IsValid r4 r6 (step store call)
  unfolding step
  step-IsValid store (allocate4 domain ttl now) v = allocate4-IsValid store v domain ttl now
  step-IsValid store (allocate6 domain ttl now) v = allocate6-IsValid store v domain ttl now
  step-IsValid store (resolve ip now) v = resolve-IsValid store ip now v

  run-IsValid :
      (calls : List Call) (store : FakeIpStore)
      → IsValid r4 r6 store
      → IsValid r4 r6 (run store calls)
  unfolding run
  run-IsValid [] store v = v
  run-IsValid (call ∷ calls) store v =
      run-IsValid calls (step store call) (step-IsValid store call v)

-- Every store that calls lead to from a new one keeps its two maps inverse to one another, and
-- hands out addresses of its ranges only.
pub run-new-IsValid :
    (r4 : Ipv4Net) (r6 : Ipv6Net) (calls : List Call) → IsValid r4 r6 (run (new r4 r6) calls)
run-new-IsValid r4 r6 calls = run-IsValid r4 r6 calls (new r4 r6) (new-IsValid r4 r6)
