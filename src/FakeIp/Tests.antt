-- ===== src/FakeIp/Tests.antt =====
-- The tests of src/traffic/shared/dns/fake_ip.rs, and instances of the theorems.
use any_mirror.Common.{
  ltb, nat_eq, pair_eq, list_eq, option_eq, ok, err, IpAddr, ip_eq, ℕ, ◌+◌, ◌≡◌, refl, ◌≢◌, none,
  some, List, [], ◌∷◌, arith,
}
use any_mirror.HashMap.{get, insert, remove, keys_where}
use any_mirror.Text.{Text, codes, trim_end_matches, to_ascii_lowercase}
use any_mirror.FakeIp.{
  FakeIpStore, pool_exhausted, new, normalize_domain, drop_domain, drop_domains, prune_family,
  prune_expired_entries, allocate_next, store_new, allocate_or_refresh, allocate_or_refresh_ipv4,
  allocate_or_refresh_ipv6, resolve_domain,
}
use any_mirror.FakeIp.Range.{
  Ipv4Net, Ipv6Net, first_allocatable_ipv4, last_usable_ipv4, first_allocatable_ipv6,
  last_usable_ipv6, clamp_candidate, advance_candidate,
}
use any_mirror.FakeIp.Allocate.{search_candidate, Outcome, search-Outcome}
use any_mirror.FakeIp.Store.{IsValid, Call, allocate4, allocate6, step, run, run-new-IsValid}
use any_mirror.FakeIp.Promises.{
  ipv4, allocate, address, InRange, resolved, resolve_injective, resolve-allocate, allocate_stable,
  resolve-allocate_ne, allocate_exhausted,
}

-- What the tests compute with.
program : Unit {0}
unfolding get insert remove keys_where trim_end_matches to_ascii_lowercase new normalize_domain
    drop_domain drop_domains prune_family prune_expired_entries search_candidate allocate_next
    store_new allocate_or_refresh allocate_or_refresh_ipv4 allocate_or_refresh_ipv6 resolve_domain
    first_allocatable_ipv4 last_usable_ipv4 first_allocatable_ipv6 last_usable_ipv6 clamp_candidate
    advance_candidate run step
program = tt

-- 198.18.0.0/24 and fd00:198:18::/64
abbrev range4 : Ipv4Net
range4 = record { network = 3323068416; broadcast = 3323068671 }

abbrev range6 : Ipv6Net
range6 = record { network = 0xfd00_0198_0018_0000_0000_0000_0000_0000; prefix_len = 64 }

abbrev empty : FakeIpStore
empty = new range4 range6

abbrev calls : List Call
calls = allocate4 (codes "Example.com.") 60 0 ∷ allocate6 (codes "example.com") 60 0 ∷ []

abbrev store : FakeIpStore
store = run empty calls

allocates_and_resolves :
    ((allocate_or_refresh_ipv4 empty (codes "example.com") 60 0).1 ≡ ok (range4.network + 3))
    × ((allocate_or_refresh_ipv6 empty (codes "example.com") 60 0).1 ≡ ok (range6.network + 3))
    × ((resolve_domain store (IpAddr.v4 (range4.network + 3)) 59).1 ≡ some (codes "example.com"))
    × ((resolve_domain store (IpAddr.v4 (range4.network + 3)) 60).1 ≡ none)
unfolding program
allocates_and_resolves = (refl, refl, refl, refl)

reuses_existing_mapping :
    (allocate_or_refresh_ipv4 store (codes "example.com") 60 30).1 ≡ ok (range4.network + 3)
unfolding program
reuses_existing_mapping = refl

-- A range of six addresses has two to hand out.
abbrev small : FakeIpStore
small =
    run (new (record { network = 8; broadcast = 13 }) range6)
      (allocate4 (codes "a") 60 0 ∷ allocate4 (codes "b") 60 0 ∷ [])

small_exhausted :
    ((allocate_or_refresh_ipv4 small (codes "c") 60 59).1 ≡ err pool_exhausted)
    × ((allocate_or_refresh_ipv4 small (codes "c") 60 60).1 ≡ ok 11)
unfolding program
small_exhausted = (refl, refl)

search-Outcome_example : Outcome (λ x. ltb x 12) 11 12 (search_candidate (λ x. ltb x 12) 11 12 11)
search-Outcome_example = search-Outcome (λ x. ltb x 12) 11 12 11 (omega arith)

run-new-IsValid_example : IsValid range4 range6 store
run-new-IsValid_example = run-new-IsValid range4 range6 calls

small-IsValid : IsValid (record { network = 8; broadcast = 13 }) range6 small
small-IsValid =
    run-new-IsValid _ range6 (allocate4 (codes "a") 60 0 ∷ allocate4 (codes "b") 60 0 ∷ [])

resolve-allocate_example :
    resolved (allocate ipv4 store (codes "Maven.org.") 60 10).0 (IpAddr.v4 (range4.network + 4)) 69
    ≡ some (normalize_domain (codes "Maven.org."))
unfolding program
resolve-allocate_example =
    resolve-allocate range4 range6 store (run-new-IsValid range4 range6 calls) (codes "Maven.org.")
      60 10 ipv4 (range4.network + 4) 69 refl (omega arith)

resolve-allocate_ne_example :
    resolved (allocate ipv4 store (codes "maven.org") 60 10).0 (IpAddr.v4 (range4.network + 3)) 59
    ≡ resolved store (IpAddr.v4 (range4.network + 3)) 59
unfolding program
resolve-allocate_ne_example =
    resolve-allocate_ne range4 range6 store (run-new-IsValid range4 range6 calls)
      (codes "maven.org") 60 10 ipv4 (range4.network + 4) 59 (IpAddr.v4 (range4.network + 3)) refl
      (omega arith) (λ e. ground arith)

allocate_stable_example : ◌≡◌ {A = ℕ} (range4.network + 3) (range4.network + 3)
unfolding program
allocate_stable_example =
    allocate_stable range4 range6 store (run-new-IsValid range4 range6 calls) (codes "EXAMPLE.com")
      60 30 ipv4 (range4.network + 3) (range4.network + 3) refl refl

allocate_exhausted_example :
    (pool_exhausted ≡ pool_exhausted)
    × ((x : ℕ) → resolved small (address ipv4 x) 59 ≢ some (normalize_domain (codes "c")))
    × ((x : ℕ)
        → InRange (record { network = 8; broadcast = 13 }) range6 ipv4 x
        → (j : Text) × (resolved small (address ipv4 x) 59 ≡ some j))
unfolding program
allocate_exhausted_example =
    allocate_exhausted (record { network = 8; broadcast = 13 }) range6 small small-IsValid
      (codes "c") 60 59 ipv4 pool_exhausted refl

resolve_injective_example : ◌≡◌ {A = ℕ} 12 12
unfolding program
resolve_injective_example =
    resolve_injective (record { network = 8; broadcast = 13 }) range6 small small-IsValid ipv4 12 12
      5 (codes "b") refl refl
