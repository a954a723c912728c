-- ===== src/FakeIp/After.antt =====
-- What `resolve_domain` answers for one family after an allocation.
use any_mirror.Common.{
  lt→ltb, Bool-cases, Option-cases, ◌==◌, nat_eq, pair_eq, list_beq_iff, list_eq, option_eq, Result,
  ok, err, ip_eq, ℕ, ◌+◌, ◌≤◌, ◌<◌, ◌≡◌, refl, sym, ap, ◌∙◌, subst, ◌≢◌, inl, inr, false, Option,
  none, some, arith,
}
use any_mirror.HashMap.{get}
use any_mirror.Text.{Text}
use any_mirror.FakeIp.{
  FakeIpEntry, Family, StoreError, pool_exhausted, prune_family, allocate_or_refresh,
}
use any_mirror.FakeIp.Invariant.{IsLinked}
use any_mirror.FakeIp.Pruning.{prune-IsLinked, valid_at, get-prune}
use any_mirror.FakeIp.Laws.{Allocatable, AllocateOutcome, allocate-Outcome}
use any_mirror.FakeIp.Resolve.{
  Option_ext, answer, answer_reverse, answer_iff, valid_at-valid_at, ok_outcome, err_outcome,
}

-- An allocation at `now` for the domain `d`, after the pruning.
module _ (first : ℕ) (last : Option ℕ) (d : Text) (ttl now : ℕ) (s : Family)
    (v : IsLinked (Allocatable first last) s) where
  abbrev pub after : Family × Result StoreError ℕ
  after = allocate_or_refresh first last d ttl now (prune_family now s)

  outcome : AllocateOutcome first last d (now + ttl) (prune_family now s) after
  outcome =
      allocate-Outcome first last d ttl now (prune_family now s)
        (prune-IsLinked (Allocatable first last) now s v)

  IsLinked-of :
      (r : Family × Result StoreError ℕ)
      → AllocateOutcome first last d (now + ttl) (prune_family now s) r
      → IsLinked (Allocatable first last) r.0
  IsLinked-of (s', ok ip) o = o.0
  IsLinked-of (s', err e) o = rw o.1 (prune-IsLinked (Allocatable first last) now s v)

  pub after-IsLinked : IsLinked (Allocatable first last) after.0
  after-IsLinked = IsLinked-of after outcome

  module _ (ip : ℕ) (h : after.1 ≡ ok ip) where
    done : AllocateOutcome first last d (now + ttl) (prune_family now s) (after.0, ok ip)
    done = ok_outcome first last d (now + ttl) ip (prune_family now s) after h outcome

    -- The address resolves to the domain until the entry expires.
    pub answer-after : (later : ℕ) → later < now + ttl → answer after.0 ip later ≡ some d
    answer-after later soon = (answer_iff (Allocatable first last) after.0 done.0 later ip d).1 (
      record { ip = ip; expires_at = now + ttl },
      rw (done.1, lt→ltb later (now + ttl) soon),
      refl,
    )

    -- The entries of the other domains, at a later time.
    valid_other :
        (later : ℕ) (j : Text)
        → now ≤ later
        → (d == j) ≡ false
        → valid_at later (get j after.0.domain_to_entry) ≡ valid_at later (get j s.domain_to_entry)
    valid_other later j ord ne =
        ap (valid_at later) (done.2 j ne ∙ get-prune now j s v.unique)
        ∙ valid_at-valid_at now later (get j s.domain_to_entry) ord

    -- The address that the domain held before is the one that it gets.
    held_before :
        (later : ℕ) (en : FakeIpEntry)
        → now ≤ later
        → valid_at later (get d s.domain_to_entry) ≡ some en
        → en.ip ≡ ip
    held_before later en ord alive = done.3 en (get-prune now d s v.unique ∙ still)
      where
        still : valid_at now (get d s.domain_to_entry) ≡ some en
        still = ground (arith, alive)

    -- No other address changes its meaning.
    pub answer-after_ne :
        (later other : ℕ)
        → now ≤ later
        → other ≢ ip
        → answer after.0 other later ≡ answer s other later
    answer-after_ne later other ord ne = Option_ext _ _ forth back
      where
        P : ℕ → Type 0
        P = Allocatable first last

        forth : (j : Text) → answer after.0 other later ≡ some j → answer s other later ≡ some j
        forth j a =
            let (en, alive, at) = (answer_iff P after.0 done.0 later other j).0 a in
            elim (Bool-cases (d == j)) [
              | inl same ↦
                  absurd (ne (ground (arith, (list_beq_iff d j).0 same, done.1, alive, at)))
              | inr differ ↦
                  (answer_iff P s v later other j).1
                    (en, sym (valid_other later j ord differ) ∙ alive, at)
            ]

        back : (j : Text) → answer s other later ≡ some j → answer after.0 other later ≡ some j
        back j a =
            let (en, alive, at) = (answer_iff P s v later other j).0 a in
            elim (Bool-cases (d == j)) [
              | inl same ↦ absurd (
                  ne (
                    sym at
                    ∙ held_before later en ord (
                        subst (λ k. valid_at later (get k s.domain_to_entry) ≡ some en)
                          (sym ((list_beq_iff d j).0 same)) alive)))
              | inr differ ↦
                  (answer_iff P after.0 done.0 later other j).1
                    (en, valid_other later j ord differ ∙ alive, at)
            ]

    -- A domain that still holds an address gets the same one.
    pub answer_stable : (held : ℕ) → answer s held now ≡ some d → ip ≡ held
    answer_stable held a =
        let (en, alive, at) = (answer_iff (Allocatable first last) s v now held d).0 a in
        sym (held_before now en le_self alive) ∙ at
      where
        le_self : now ≤ now
        le_self = omega arith

    -- What the address resolved to before is the domain itself.
    pub answer_same : (j : Text) → answer s ip now ≡ some j → j ≡ d
    answer_same j a = elim (Option-cases (get d (prune_family now s).domain_to_entry)) [
      | inl fresh ↦ absurd (ground (arith, done.4 fresh, answer_reverse s now ip j a))
      | inr (en, hit) ↦
          let held =
            (answer_iff (Allocatable first last) s v now ip d).1
              (en, sym (get-prune now d s v.unique) ∙ hit, done.3 en hit) in
          ground (arith, a, held)
    ]

  -- Failure means that the domain holds no address and that every address of the range is held.
  pub after_exhausted :
      (er : StoreError)
      → after.1 ≡ err er
      → (er ≡ pool_exhausted)
        × ((x : ℕ) → answer s x now ≢ some d)
        × ((x : ℕ) → Allocatable first last x → (j : Text) × (answer s x now ≡ some j))
  after_exhausted er h = (failed.0, unheld, full)
    where
      P : ℕ → Type 0
      P = Allocatable first last

      w : IsLinked P (prune_family now s)
      w = prune-IsLinked P now s v

      failed : AllocateOutcome first last d (now + ttl) (prune_family now s) (after.0, err er)
      failed = err_outcome first last d (now + ttl) er (prune_family now s) after h outcome

      unheld : (x : ℕ) → answer s x now ≢ some d
      unheld x a =
          let (en, alive, at) = (answer_iff P s v now x d).0 a in
          let none_now : valid_at now (get d s.domain_to_entry) ≡ none =
            sym (get-prune now d s v.unique) ∙ failed.2 in
          ground (arith, alive, none_now)

      full : (x : ℕ) → P x → (j : Text) × (answer s x now ≡ some j)
      full x a = elim (Option-cases (get x (prune_family now s).ip_to_domain)) [
        | inl free ↦ absurd (ground (arith, failed.3 x a))
        | inr (j, hit) ↦
            let (en, found_at, at) = w.backward x j hit in
            (j, (answer_iff P s v now x j).1 (en, sym (get-prune now j s v.unique) ∙ found_at, at))
      ]
