-- ===== src/FakeIp/Laws.antt =====
-- Allocation and resolution of fake addresses, for the maps of one family.
use any_mirror.Common.{
  ltb, le→ltb, tests, Bool-cases, Option-cases, ◌==◌, nat_eq, pair_eq, eq_refl, list_eq, option_eq,
  Result, ok, err, ℕ, ◌+◌, ◌≤◌, ◌≡◌, refl, inl, inr, true, false, Option, none, some, arith,
}
use any_mirror.HashMap.{get-insert, get, contains_key}
use any_mirror.Text.{Text}
use any_mirror.FakeIp.{
  FakeIpEntry, Family, StoreError, pool_exhausted, allocate_next, store_new, allocate_or_refresh,
}
use any_mirror.FakeIp.Allocate.{
  Search, found, exhausted, out_of_fuel, search_candidate, Outcome, search-Outcome,
}
use any_mirror.FakeIp.Invariant.{IsLinked, link, IsLinked-same, relink}

-- The addresses that a family hands out, given the bounds that the code computes.
abbrev pub Allocatable : ℕ → Option ℕ → ℕ → Type 0
Allocatable first none x = ⊥
Allocatable first (some last) x = (first ≤ x) × (x ≤ last)

-- What `allocate_next` promises.
abbrev pub NextOutcome : ℕ → Option ℕ → Family → Family × Option ℕ → Type 0
NextOutcome first last s (s', none) =
    (s' ≡ s) × ((x : ℕ) → Allocatable first last x → contains_key x s.ip_to_domain ≡ true)
NextOutcome first last s (s', some ip) =
    (s'.domain_to_entry ≡ s.domain_to_entry)
    × (s'.ip_to_domain ≡ s.ip_to_domain)
    × Allocatable first last ip
    × (get ip s.ip_to_domain ≡ none)

next_searched :
    (first last : ℕ) (s : Family) (r : Search)
    → search_candidate (λ ip. contains_key ip s.ip_to_domain) first last s.next_candidate ≡ r
    → first ≤ last
    → Outcome (λ ip. contains_key ip s.ip_to_domain) first last r
    → NextOutcome first (some last) s (allocate_next first (some last) s)
unfolding allocate_next
next_searched first last s (found ip next) e h o =
    rw (e, allocate_next, le→ltb first last h) (refl, refl, (o.0, o.1), ground (arith, o.2))
next_searched first last s exhausted e h o =
    rw (e, allocate_next, le→ltb first last h) (refl, λ x a. o x a.0 a.1)
next_searched first last s out_of_fuel e h o = absurd o

pub next-Outcome :
    (first : ℕ) (last : Option ℕ) (s : Family)
    → NextOutcome first last s (allocate_next first last s)
unfolding allocate_next
next-Outcome first none s = (refl, λ x a. absurd a)
next-Outcome first (some last) s = elim (Bool-cases (ltb last first)) [
  | inl empty ↦ rw (empty, allocate_next) (refl, λ x a. absurd (omega (tests, a.0, a.1)))
  | inr some_address ↦
      let h : first ≤ last = ground arith in
      next_searched first last s _ refl h
        (search-Outcome (λ ip. contains_key ip s.ip_to_domain) first last s.next_candidate h)
]

-- How `allocate_or_refresh` ends for a family: what the maps say of the domain, or of every address.
abbrev pub AllocateOutcome :
    ℕ → Option ℕ → Text → ℕ → Family → Family × Result StoreError ℕ → Type 0
AllocateOutcome first last d expires s (s', ok ip) =
    IsLinked (Allocatable first last) s'
    × (get d s'.domain_to_entry ≡ some (record { ip = ip; expires_at = expires }))
    × ((j : Text) → (d == j) ≡ false → get j s'.domain_to_entry ≡ get j s.domain_to_entry)
    × ((en : FakeIpEntry) → get d s.domain_to_entry ≡ some en → en.ip ≡ ip)
    × (get d s.domain_to_entry ≡ none → get ip s.ip_to_domain ≡ none)
AllocateOutcome first last d expires s (s', err e) =
    (e ≡ pool_exhausted)
    × (s' ≡ s)
    × (get d s.domain_to_entry ≡ none)
    × ((x : ℕ) → Allocatable first last x → contains_key x s.ip_to_domain ≡ true)

module _ (first : ℕ) (last : Option ℕ) (d : Text) (ttl now : ℕ) (s : Family) where
  stored_new :
      (n : Family × Option ℕ)
      → get d s.domain_to_entry ≡ none
      → NextOutcome first last s n
      → IsLinked (Allocatable first last) s
      → AllocateOutcome first last d (now + ttl) s (store_new d (now + ttl) n)
  unfolding store_new
  stored_new (s', none) fresh o v = (refl, o.0, fresh, o.1)
  stored_new (s', some ip) fresh o v = (
    link (Allocatable first last) s' d ip (now + ttl) (ground (arith, o.0))
        (ground (arith, o.1, o.3)) o.2 (IsLinked-same (Allocatable first last) s s' o.0 o.1 v),
    ground (
      arith,
      eq_refl d,
      get-insert d d (record { ip = ip; expires_at = now + ttl }) s'.domain_to_entry,
    ),
    λ j ne. ground (
      arith,
      get-insert j d (record { ip = ip; expires_at = now + ttl }) s'.domain_to_entry,
      o.0,
    ),
    λ en hit. absurd (ground arith),
    λ _. o.3,
  )

  -- With an unexpired entry the address stays; without one a free address is taken, or there is none.
  pub allocate-Outcome :
      IsLinked (Allocatable first last) s
      → AllocateOutcome first last d (now + ttl) s (allocate_or_refresh first last d ttl now s)
  unfolding allocate_or_refresh
  allocate-Outcome v = elim (Option-cases (get d s.domain_to_entry)) [
    | inl fresh ↦
        rw (fresh, allocate_or_refresh)
          (stored_new (allocate_next first last s) fresh (next-Outcome first last s) v)
    | inr (en, hit) ↦
        rw (hit, allocate_or_refresh)
          (
            relink (Allocatable first last) s d en (now + ttl) hit v,
            ground (
              arith,
              eq_refl d,
              get-insert d d (record en { expires_at = now + ttl }) s.domain_to_entry,
            ),
            λ j ne.
                ground
                  (arith, get-insert j d (record en { expires_at = now + ttl }) s.domain_to_entry),
            λ en' hit'. ground (arith, hit, hit'),
            λ fresh. absurd (ground arith),
          )
  ]
