-- ===== src/FakeIp/Allocate.antt =====
-- src/traffic/shared/dns/fake_ip.rs: the search for a free address in `allocate_next_ipv4` and
-- `allocate_next_ipv6`, which differ in the width of their numbers and in the range only.
use any_mirror.Common.{
  leb, if◌then◌else◌, nat_beq_iff, Bool-cases, ◌==◌, nat_eq, pair_eq, list_eq, option_eq, ip_eq, ℕ,
  zero, suc, ◌+◌, ◌-◌, ◌≤◌, ◌<◌, ◌≡◌, refl, ◌≢◌, ◌⊎◌, inl, inr, Bool, true, false, arith,
}
use any_mirror.FakeIp.Range.{clamp_candidate, advance_candidate, clamp_bounds, advance_bounds}

-- How the loop ends: with an address and the next candidate, with the start reached again, or,
-- in the model only, with its rounds used up.
pub data Search : Type 0 where
  found : ℕ → ℕ → Search
  exhausted : Search
  out_of_fuel : Search

-- The loop over candidates; `taken` is `ip_to_domain.contains_key`.
unfoldable pub search_loop : ℕ → (ℕ → Bool) → ℕ → ℕ → ℕ → ℕ → Search
search_loop zero taken first last start candidate = out_of_fuel
search_loop (suc fuel) taken first last start candidate =
    let next = advance_candidate candidate first last in
    let rest = search_loop fuel taken first last start next in
    if taken candidate then (if next == start then exhausted else rest) else found candidate next

-- The body past the guard on an empty range; the loop makes a round for each address at most.
unfoldable pub search_candidate : (ℕ → Bool) → ℕ → ℕ → ℕ → Search
unfolding search_loop
search_candidate taken first last next_candidate =
    let start = clamp_candidate next_candidate first last in
    search_loop (suc (last - first)) taken first last start start

-- The candidates seen before `candidate`, on the way round from `start`.
abbrev Seen : ℕ → ℕ → ℕ → Type 0
Seen start candidate x =
    ((start ≤ candidate) × (start ≤ x) × (x < candidate))
    ⊎ ((candidate < start) × ((start ≤ x) ⊎ (x < candidate)))

-- The rounds that are left.
left : ℕ → ℕ → ℕ → ℕ → ℕ
left first last start candidate =
    if leb start candidate then (last - candidate) + (start - first) else (start - candidate) - 1

-- What the search promises: a free address of the range, or no address of it is free.
abbrev pub Outcome : (ℕ → Bool) → ℕ → ℕ → Search → Type 0
Outcome taken first last (found ip next) =
    (first ≤ ip) × (ip ≤ last) × (taken ip ≡ false) × (next ≡ advance_candidate ip first last)
Outcome taken first last exhausted = (x : ℕ) → first ≤ x → x ≤ last → taken x ≡ true
Outcome taken first last out_of_fuel = ⊥

module _ (taken : ℕ → Bool) (first last start : ℕ) (h₁ : first ≤ start) (h₂ : start ≤ last) where
  module _ (candidate : ℕ) (lo : first ≤ candidate) (hi : candidate ≤ last) where
    -- The way round is complete, or the next candidate has seen one address more.
    Seen-all :
        advance_candidate candidate first last ≡ start
        → (x : ℕ) → first ≤ x
        → x ≤ last
        → (x ≡ candidate) ⊎ Seen start candidate x
    unfolding advance_candidate
    Seen-all e x a b = ground arith

    Seen-next :
        advance_candidate candidate first last ≢ start
        → (x : ℕ) → first ≤ x
        → x ≤ last
        → Seen start (advance_candidate candidate first last) x
        → (x ≡ candidate) ⊎ Seen start candidate x
    unfolding advance_candidate
    Seen-next e x a b seen = ground arith

    left_next :
        advance_candidate candidate first last ≢ start
        → left first last start (advance_candidate candidate first last)
          < left first last start candidate
    unfolding advance_candidate left
    left_next e = ground arith

    taken-Seen :
        taken candidate ≡ true
        → ((x : ℕ) → first ≤ x → x ≤ last → Seen start candidate x → taken x ≡ true)
        → (x : ℕ) → first ≤ x
        → x ≤ last
        → (x ≡ candidate) ⊎ Seen start candidate x
        → taken x ≡ true
    taken-Seen used seen x a b (inl e) = rw e used
    taken-Seen used seen x a b (inr s) = seen x a b s

  loop-Outcome :
      (fuel candidate : ℕ)
      → first ≤ candidate
      → candidate ≤ last
      → left first last start candidate < fuel
      → ((x : ℕ) → first ≤ x → x ≤ last → Seen start candidate x → taken x ≡ true)
      → Outcome taken first last (search_loop fuel taken first last start candidate)
  unfolding search_loop
  loop-Outcome zero candidate lo hi enough seen = absurd (omega arith)
  loop-Outcome (suc fuel) candidate lo hi enough seen = elim (Bool-cases (taken candidate)) [
    | inr free ↦ rw free (lo, hi, free, refl)
    | inl used ↦
        let next = advance_candidate candidate first last in
        let bounds = advance_bounds candidate first last lo hi in
        elim (Bool-cases (next == start)) [
          | inl round ↦
              rw (used, round)
                (λ x a b.
                  taken-Seen candidate lo hi used seen x a b
                    (Seen-all candidate lo hi ((nat_beq_iff next start).0 round) x a b))
          | inr more ↦
              let ne : next ≢ start = λ p. ground (arith, nat_beq_iff next start) in
              rw (used, more)
                (loop-Outcome fuel next bounds.0 bounds.1
                  (omega (arith, left_next candidate lo hi ne))
                  (λ x a b s.
                    taken-Seen candidate lo hi used seen x a b
                      (Seen-next candidate lo hi ne x a b s)))
        ]
  ]

-- In a range that is not empty the search never uses up its rounds. It finds an address of the range
-- that is not taken, and a next candidate in the range, or every address of the range is taken.
pub search-Outcome :
    (taken : ℕ → Bool) (first last next_candidate : ℕ)
    → first ≤ last
    → Outcome taken first last (search_candidate taken first last next_candidate)
unfolding search_candidate left
search-Outcome taken first last next_candidate h =
    let start = clamp_candidate next_candidate first last in
    let bounds = clamp_bounds next_candidate first last h in
    loop-Outcome taken first last start bounds.0 bounds.1 (suc (last - first)) start bounds.0
      bounds.1 (ground (arith, bounds.0, bounds.1)) (λ x a b s. absurd (ground arith))
