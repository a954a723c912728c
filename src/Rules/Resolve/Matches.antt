-- ===== src/Rules/Resolve/Matches.antt =====
-- The loop of `resolve_candidates` in src/rules/pool/runtime.rs on the candidates that match.
use any_mirror.Common.{
  if◌then◌else◌, Bool-cases, Option-cases, is_some, All, nat_eq, pair_eq, list_eq, option_eq, ip_eq,
  int_ltb, int_beq, int_beq_iff, int_ltb_trans, int_total, ℕ, ◌≡◌, refl, sym, ap, ◌∙◌, ◌↔◌, inl,
  inr, true, false, not, Option, none, some, List, [], ◌∷◌, arith,
}
use any_mirror.Rules.Url.{Url}
use any_mirror.Rules.Model.{RulePriority, Rule}
use any_mirror.Rules.Runtime.{Crates, LookupContext}
use any_mirror.Rules.Order.{Candidate, precedes}
use any_mirror.Rules.Order.Laws.{
  precedes_asym, IsSorted, IsStrict, In, All-In, In-All, strict_unique,
}
use any_mirror.Rules.Resolve.{MatchedRule, attempt, resolve_loop, resolve_candidates}

abbrev pub matching : (Rule → Option MatchedRule) → List Candidate → List Candidate
matching f [] = []
matching f ((index, rule) ∷ cs) =
    if is_some (f rule) then (index, rule) ∷ matching f cs else matching f cs

module _ (f : Rule → Option MatchedRule) where
  pub In-matching :
      (c : Candidate) (cs : List Candidate)
      → In c (matching f cs) ↔ (In c cs × (is_some (f c.1) ≡ true))
  In-matching c [] = (λ i. absurd i, λ i. absurd i.0)
  In-matching c ((index, rule) ∷ cs) =
      let ih = In-matching c cs in
      elim (Bool-cases (is_some (f rule))) [
        | inl hit ↦ rw hit (
          λ i. elim i [
            | inl e ↦ (inl e, ap (λ x. is_some (f x.1)) e ∙ hit)
            | inr j ↦ (inr (ih.0 j).0, (ih.0 j).1)
          ],
          λ i. elim (i.0) [ inl e ↦ inl e | inr j ↦ inr (ih.1 (j, i.1)) ],
        )
        | inr miss ↦ rw miss (
          λ i. (inr (ih.0 i).0, (ih.0 i).1),
          λ i. elim (i.0) [
            | inl e ↦ absurd (ground (arith, sym (i.1) ∙ ap (λ x. is_some (f x.1)) e ∙ miss))
            | inr j ↦ ih.1 (j, i.1)
          ],
        )
      ]

  pub All-matching :
      (P : Candidate → Type 0) (cs : List Candidate) → All P cs → All P (matching f cs)
  All-matching P cs h = In-All (matching f cs) (λ c i. All-In P c cs h ((In-matching c cs).0 i).0)

  pub matching-IsStrict : (cs : List Candidate) → IsStrict cs → IsStrict (matching f cs)
  matching-IsStrict [] h = tt
  matching-IsStrict ((index, rule) ∷ cs) h = elim (Bool-cases (is_some (f rule))) [
    | inl hit ↦ rw hit (All-matching _ cs h.0, matching-IsStrict cs h.1)
    | inr miss ↦ rw miss (matching-IsStrict cs h.1)
  ]

pub strict-IsSorted : (cs : List Candidate) → IsStrict cs → IsSorted cs
strict-IsSorted [] h = tt
strict-IsSorted (c ∷ cs) h =
    (In-All cs (λ x i. precedes_asym c x (All-In _ x cs h.0 i)), strict-IsSorted cs h.1)

-- No candidate has a higher priority.
abbrev Below : RulePriority → List Candidate → Type 0
Below p cs = All (λ c. int_ltb p c.1.priority ≡ false) cs

-- No candidate has this priority.
abbrev Other : RulePriority → List Candidate → Type 0
Other p cs = All (λ c. int_beq p c.1.priority ≡ false) cs

sorted-Below : (c : Candidate) (cs : List Candidate) → IsSorted (c ∷ cs) → Below c.1.priority cs
unfolding precedes
sorted-Below c cs h = In-All cs (λ d i. ground (arith, All-In _ d cs h.0 i))

Below-Other :
    (p q : RulePriority) (cs : List Candidate)
    → int_ltb p q ≡ false
    → int_beq p q ≡ false
    → Below q cs
    → Other p cs
Below-Other p q cs lower differ h = In-All cs (λ d i.
    ground
      (arith, All-In _ d cs h i, int_total p q lower, int_beq_iff p q, int_beq_iff p d.1.priority))

Below-Below :
    (p q : RulePriority) (cs : List Candidate) → int_ltb p q ≡ false → Below q cs → Below p cs
Below-Below p q cs lower h =
    In-All cs (λ d i.
      ground (arith, All-In _ d cs h i, int_total p q lower, int_ltb_trans q p d.1.priority))

module _ (crates : Crates) (original : Url) (lookup : LookupContext) where
  abbrev tried : Rule → Option MatchedRule
  tried = attempt crates original lookup

  abbrev loop :
      Option MatchedRule
      → Option RulePriority
      → Option MatchedRule
      → List Candidate
      → Option MatchedRule
  loop = resolve_loop crates original lookup

  -- At a new priority a match without `spread` is returned.
  next_group :
      (propagated : Option MatchedRule) (p : RulePriority) (found : MatchedRule)
      (cs : List Candidate)
      → Other p cs
      → loop propagated (some p) (some found) cs
        ≡ (if not found.rule.spread then some found else loop (some found) (some p) none cs)
  unfolding resolve_loop
  next_group propagated p found [] h = ground arith
  next_group propagated p found ((index, rule) ∷ cs) h = ground (arith, h.0)

  any_active :
      (propagated : Option MatchedRule) (a b : Option RulePriority) (cs : List Candidate)
      → loop propagated a none cs ≡ loop propagated b none cs
  unfolding resolve_loop
  any_active propagated a b [] = refl
  any_active propagated a b ((index, rule) ∷ cs) = refl

  -- What holds of the loop for a list, with no match of the group yet and with one.
  abbrev Reads : List Candidate → Type 0
  Reads cs =
      ((propagated : Option MatchedRule) (a b : Option RulePriority)
        → loop propagated a none cs ≡ loop propagated b none (matching tried cs))
      × ((propagated : Option MatchedRule) (p : RulePriority) (found : MatchedRule)
          → Below p cs
          → loop propagated (some p) (some found) cs
            ≡ loop propagated (some p) (some found) (matching tried cs))

  Reads-none :
      (index : ℕ) (rule : Rule) (cs : List Candidate)
      → IsSorted ((index, rule) ∷ cs)
      → Reads cs
      → (propagated : Option MatchedRule) (a b : Option RulePriority)
      → loop propagated a none ((index, rule) ∷ cs)
        ≡ loop propagated b none (matching tried ((index, rule) ∷ cs))
  unfolding resolve_loop
  Reads-none index rule cs s ih propagated a b = elim (Option-cases (tried rule)) [
    | inl miss ↦ rw (miss, resolve_loop) (ih.0 propagated (some rule.priority) b)
    | inr (found, hit) ↦
        rw (hit, resolve_loop)
          (rw hit (ih.1 propagated rule.priority found (sorted-Below (index, rule) cs s)))
  ]

  Reads-some :
      (index : ℕ) (rule : Rule) (cs : List Candidate)
      → IsSorted ((index, rule) ∷ cs)
      → Reads cs
      → (propagated : Option MatchedRule) (p : RulePriority) (found : MatchedRule)
      → Below p ((index, rule) ∷ cs)
      → loop propagated (some p) (some found) ((index, rule) ∷ cs)
        ≡ loop propagated (some p) (some found) (matching tried ((index, rule) ∷ cs))
  unfolding resolve_loop
  Reads-some index rule cs s ih propagated p found h = elim (Bool-cases (int_beq p rule.priority)) [
    | inl same ↦ ground (arith, same, ih.1 propagated p found h.1)
    | inr differ ↦
        let others : Other p ((index, rule) ∷ cs) =
          (differ, Below-Other p rule.priority cs h.0 differ (sorted-Below (index, rule) cs s)) in
        next_group propagated p found ((index, rule) ∷ cs) others
        ∙ ap (λ r. if not found.rule.spread then some found else r)
            (Reads-none index rule cs s ih (some found) (some p) (some p))
        ∙ sym (
            next_group propagated p found (matching tried ((index, rule) ∷ cs))
              (All-matching tried _ ((index, rule) ∷ cs) others))
  ]

  Reads-matching : (cs : List Candidate) → IsSorted cs → Reads cs
  unfolding resolve_loop
  Reads-matching [] s = (λ p a b. refl, λ p q m h. refl)
  Reads-matching ((index, rule) ∷ cs) s =
      let ih = Reads-matching cs s.1 in
      (Reads-none index rule cs s ih, Reads-some index rule cs s ih)

  -- Two lists without repetitions that agree on the candidates that match are resolved alike.
  pub resolve-same_matches :
      (xs ys : List Candidate)
      → IsStrict xs
      → IsStrict ys
      → ((c : Candidate) → is_some (tried c.1) ≡ true → In c xs ↔ In c ys)
      → resolve_candidates crates original lookup xs ≡ resolve_candidates crates original lookup ys
  resolve-same_matches xs ys s t same =
      (Reads-matching xs (strict-IsSorted xs s)).0 none none none
      ∙ ap (loop none none none) (
          strict_unique (matching tried xs) (matching tried ys) (matching-IsStrict tried xs s)
            (matching-IsStrict tried ys t)
            (λ c i.
              let (j, hit) = (In-matching tried c xs).0 i in
              (In-matching tried c ys).1 ((same c hit).0 j, hit))
            (λ c i.
              let (j, hit) = (In-matching tried c ys).0 i in
              (In-matching tried c xs).1 ((same c hit).1 j, hit)))
      ∙ sym ((Reads-matching ys (strict-IsSorted ys t)).0 none none none)
