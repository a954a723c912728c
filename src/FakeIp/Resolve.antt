-- ===== src/FakeIp/Resolve.antt =====
-- What `resolve_domain` answers for one family, before and after an allocation.
use any_mirror.Common.{
  Option-cases, nat_eq, pair_eq, list_eq, option_eq, Result, ok, err, ip_eq, ℕ, ◌≤◌, ◌≡◌, refl, sym,
  ap, ◌∙◌, subst, ◌↔◌, inl, inr, Option, none, some, arith,
}
use any_mirror.HashMap.{get}
use any_mirror.Text.{Text}
use any_mirror.FakeIp.{FakeIpEntry, Family, StoreError, prune_family, resolve_family}
use any_mirror.FakeIp.Invariant.{IsLinked}
use any_mirror.FakeIp.Pruning.{prune-IsLinked, valid_at, get-prune}
use any_mirror.FakeIp.Laws.{AllocateOutcome}

-- Options that hold the same values are equal.
pub Option_ext {ℓ} :
    {A : Type ℓ} (o p : Option A)
    → ((a : A) → o ≡ some a → p ≡ some a)
    → ((a : A) → p ≡ some a → o ≡ some a)
    → o ≡ p
Option_ext none none f g = refl
Option_ext none (some b) f g = g b refl
Option_ext (some a) p f g = sym (f a refl)

-- The answer after the pruning that every call starts with.
abbrev pub answer : Family → ℕ → ℕ → Option Text
answer s ip now = resolve_family (prune_family now s) ip now

-- A domain holds an address at a time.
abbrev pub Holds : Family → ℕ → Text → ℕ → Type 0
Holds s now d ip =
    (en : FakeIpEntry) × (valid_at now (get d s.domain_to_entry) ≡ some en) × (en.ip ≡ ip)

pub answer_reverse :
    (s : Family) (now ip : ℕ) (j : Text)
    → answer s ip now ≡ some j
    → get ip (prune_family now s).ip_to_domain ≡ some j
unfolding resolve_family
answer_reverse s now ip j a = ground (arith, a)

module _ (P : ℕ → Type 0) (s : Family) (v : IsLinked P s) (now ip : ℕ) (d : Text) where
  Holds-answer : answer s ip now ≡ some d → Holds s now d ip
  unfolding resolve_family
  Holds-answer h =
      let w = prune-IsLinked P now s v in
      elim (Option-cases (get ip (prune_family now s).ip_to_domain)) [
        | inl miss ↦ absurd (ground arith)
        | inr (d', hit) ↦
            let (en, found_at, at) = w.backward ip d' hit in
            let same : d' ≡ d = ground (arith, hit, found_at) in
            (en, sym (get-prune now d s v.unique) ∙ rw (← same) found_at, at)
      ]

  answer-Holds : Holds s now d ip → answer s ip now ≡ some d
  unfolding resolve_family
  answer-Holds (en, alive, at) =
      let w = prune-IsLinked P now s v in
      let held = get-prune now d s v.unique ∙ alive in
      let back = w.forward d en held in
      let rev : get ip (prune_family now s).ip_to_domain ≡ some d = rw (← at) back in
      ground (arith, rev, held, alive)

  -- A resolution succeeds exactly while the domain holds the address.
  pub answer_iff : (answer s ip now ≡ some d) ↔ Holds s now d ip
  answer_iff = (Holds-answer, answer-Holds)

-- At one time an address resolves to one domain, and a domain is behind one address.
pub answer_injective :
    (P : ℕ → Type 0) (s : Family)
    → IsLinked P s
    → (now ip ip' : ℕ) (d : Text) → answer s ip now ≡ some d
    → answer s ip' now ≡ some d
    → ip ≡ ip'
answer_injective P s v now ip ip' d h h' =
    let (en, alive, at) = (answer_iff P s v now ip d).0 h in
    let (en', alive', at') = (answer_iff P s v now ip' d).0 h' in
    ground (arith, alive, at, alive', at')

pub valid_at-valid_at :
    (now later : ℕ) (o : Option FakeIpEntry)
    → now ≤ later
    → valid_at later (valid_at now o) ≡ valid_at later o
valid_at-valid_at now later none h = refl
valid_at-valid_at now later (some entry) h = ground arith

pub ok_outcome :
    (first : ℕ) (last : Option ℕ) (d : Text) (expires ip : ℕ) (s : Family)
    (r : Family × Result StoreError ℕ)
    → r.1 ≡ ok ip
    → AllocateOutcome first last d expires s r
    → AllocateOutcome first last d expires s (r.0, ok ip)
ok_outcome first last d expires ip s r e o =
    subst (λ q. AllocateOutcome first last d expires s (r.0, q)) e o

pub err_outcome :
    (first : ℕ) (last : Option ℕ) (d : Text) (expires : ℕ) (er : StoreError) (s : Family)
    (r : Family × Result StoreError ℕ)
    → r.1 ≡ err er
    → AllocateOutcome first last d expires s r
    → AllocateOutcome first last d expires s (r.0, err er)
err_outcome first last d expires er s r e o =
    subst (λ q. AllocateOutcome first last d expires s (r.0, q)) e o

-- Pruning early does not change what a later call answers.
pub answer-prune :
    (P : ℕ → Type 0) (s : Family)
    → IsLinked P s
    → (now later ip : ℕ) → now ≤ later
    → answer (prune_family now s) ip later ≡ answer s ip later
answer-prune P s v now later ip ord = Option_ext _ _ forth back
  where
    w : IsLinked P (prune_family now s)
    w = prune-IsLinked P now s v

    same :
        (d : Text)
        → valid_at later (get d (prune_family now s).domain_to_entry)
          ≡ valid_at later (get d s.domain_to_entry)
    same d =
        ap (valid_at later) (get-prune now d s v.unique)
        ∙ valid_at-valid_at now later (get d s.domain_to_entry) ord

    forth : (d : Text) → answer (prune_family now s) ip later ≡ some d → answer s ip later ≡ some d
    forth d a =
        let (en, alive, at) = (answer_iff P (prune_family now s) w later ip d).0 a in
        (answer_iff P s v later ip d).1 (en, sym (same d) ∙ alive, at)

    back : (d : Text) → answer s ip later ≡ some d → answer (prune_family now s) ip later ≡ some d
    back d a =
        let (en, alive, at) = (answer_iff P s v later ip d).0 a in
        (answer_iff P (prune_family now s) w later ip d).1 (en, same d ∙ alive, at)
