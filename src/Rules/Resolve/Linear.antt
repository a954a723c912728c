-- ===== src/Rules/Resolve/Linear.antt =====
-- The resolution by the compiled index of src/rules/pool/runtime.rs compared with one that tries all
-- the rules in order, without an index.
use any_mirror.Common.{
  nat_beq_iff, Bool-cases, Option-cases, get_elem?, is_some, All, ◌==◌, nat_eq, pair_eq, list_eq,
  option_eq, ip_eq, ℕ, zero, suc, ◌+◌, ◌≤◌, ◌≡◌, refl, sym, ap, ap₂, ◌∙◌, subst, ◌↔◌, inl, inr,
  true, Option, some, List, [], ◌∷◌, arith,
}
use any_mirror.Text.{starts_with}
use any_mirror.Rules.Url.{Url}
use any_mirror.Rules.Model.{Rule}
use any_mirror.Rules.Compiled.{origin_eq, exact_url_eq, compile}
use any_mirror.Rules.Runtime.{
  Crates, LookupContext, explain_with_lookup, lookup_from_url, collect_candidate_indices,
}
use any_mirror.Rules.Order.{Candidate, sort, dedup}
use any_mirror.Rules.Order.Laws.{In, In-All}
use any_mirror.Rules.Order.Sorting.{
  In-sort, sort-IsSorted, IsConsistent, In-dedup, dedup-IsStrict, IsDistinct, sort-IsStrict,
}
use any_mirror.Rules.Resolve.{
  MatchedRule, rules_at, attempt, resolve_loop, resolve_candidates, resolve_offered, new_rule_set,
  resolve,
}
use any_mirror.Rules.Resolve.Matches.{resolve-same_matches}
use any_mirror.Rules.Candidates.Step.{IsFitMatcher}
use any_mirror.Rules.Candidates.Exact.{occurrences_at, count-collect}
use any_mirror.Rules.Candidates.Complete.{IsCrates, is_matched, matched-occurrences, lookup_fits}
use any_mirror.Trie.Cutoff.{count}

-- All the rules with their indices.
abbrev pub enumerate : ℕ → List Rule → List Candidate
enumerate index [] = []
enumerate index (rule ∷ rules) = (index, rule) ∷ enumerate (index + 1) rules

-- Tries every rule, the highest priority first, and in the order of the file within a priority.
unfoldable pub resolve_all : Crates → List Rule → Url → Option MatchedRule
unfolding lookup_from_url sort resolve_loop
resolve_all crates entries original =
    resolve_candidates crates original (lookup_from_url crates original)
      (sort (enumerate 0 entries))

In-enumerate_low :
    (c : Candidate) (index : ℕ) (rules : List Rule) → In c (enumerate index rules) → index ≤ c.0
In-enumerate_low c index [] i = absurd i
In-enumerate_low c index (rule ∷ rules) (inl e) = omega (arith, ap (λ x. x.0) e)
In-enumerate_low c index (rule ∷ rules) (inr i) =
    omega (arith, In-enumerate_low c (index + 1) rules i)

enumerate-IsDistinct : (index : ℕ) (rules : List Rule) → IsDistinct (enumerate index rules)
enumerate-IsDistinct index [] = tt
enumerate-IsDistinct index (rule ∷ rules) = (
  In-All (enumerate (index + 1) rules)
      (λ c i. ground (arith, In-enumerate_low c (index + 1) rules i)),
  enumerate-IsDistinct (index + 1) rules,
)

In-enumerate :
    (index k : ℕ) (rule : Rule) (rules : List Rule)
    → get_elem? rules k ≡ some rule
    → In (index + k, rule) (enumerate index rules)
In-enumerate index k rule [] h = absurd (ground arith)
In-enumerate index zero rule (r ∷ rules) h =
    inl (ap₂ (λ a b. (a, b)) (omega arith) (ground (arith, h)))
In-enumerate index (suc k) rule (r ∷ rules) h =
    let next : index + 1 + k ≡ index + suc k = omega arith in
    inr (
      subst (λ n. In (n, rule) (enumerate (index + 1) rules)) next
        (In-enumerate (index + 1) k rule rules h))

enumerate-In :
    (index : ℕ) (c : Candidate) (rules : List Rule)
    → In c (enumerate index rules)
    → (k : ℕ) × (c.0 ≡ index + k) × (get_elem? rules k ≡ some c.1)
enumerate-In index c [] i = absurd i
enumerate-In index c (rule ∷ rules) (inl e) =
    (0, omega (arith, ap (λ x. x.0) e), ap (λ x. some (x.1)) (sym e))
enumerate-In index c (rule ∷ rules) (inr i) =
    let (k, e, h) = enumerate-In (index + 1) c rules i in (suc k, omega (arith, e), h)

-- A candidate is a rule of the list with its index.
abbrev Stands : List Rule → Candidate → Type 0
Stands entries c = get_elem? entries c.0 ≡ some c.1

In-all : (entries : List Rule) (c : Candidate) → In c (enumerate 0 entries) ↔ Stands entries c
In-all entries c = (
  λ i. let (k, e, h) = enumerate-In 0 c entries i in ap (get_elem? entries) (omega (arith, e)) ∙ h,
  λ h.
      subst (λ n. In (n, c.1) (enumerate 0 entries)) (omega arith)
        (In-enumerate 0 c.0 c.1 entries h),
)

some_injective : {a b : Rule} → some a ≡ some b → a ≡ b
some_injective e = ground (arith, e)

-- The candidates of indices that are all in range.
abbrev Selected : List Rule → List ℕ → Type 0
Selected entries indices =
    (cs : List Candidate) × (rules_at entries indices ≡ some cs)
    × ((c : Candidate) → In c cs ↔ ((1 ≤ count c.0 indices) × Stands entries c))

select :
    (entries : List Rule) (indices : List ℕ)
    → ((i : ℕ) → 1 ≤ count i indices → is_some (get_elem? entries i) ≡ true)
    → Selected entries indices
unfolding rules_at
select entries [] h = ([], refl, λ c. (λ i. absurd i, λ p. absurd (omega (arith, p.0))))
select entries (index ∷ indices) h = elim (Option-cases (get_elem? entries index)) [
  | inl none_there ↦ absurd (ground (arith, h index (ground arith), none_there))
  | inr (rule, there) ↦
      let (cs, at, member) = select entries indices (λ i p. h i (ground (arith, p))) in
      (
        (index, rule) ∷ cs,
        rw (there, at) refl,
        λ c. (
          λ i. elim i [
            | inl e ↦ (
              ground (arith, ap (λ x. x.0) e),
              ap (λ x. get_elem? entries x.0) e ∙ there ∙ ap (λ x. some (x.1)) (sym e),
            )
            | inr j ↦ (ground (arith, ((member c).0 j).0), ((member c).0 j).1)
          ],
          λ p. elim (Bool-cases (index == c.0)) [
            | inl here ↦
                let same = (nat_beq_iff index c.0).0 here in
                inl (
                  ap₂ (λ a b. (a, b)) (sym same)
                    (some_injective (sym p.1 ∙ ap (get_elem? entries) (sym same) ∙ there)))
            | inr other ↦ inr ((member c).1 (ground (arith, p.0, other), p.1))
          ],
        ),
      )
]

attempt-matched :
    (crates : Crates) (rule : Rule) (original : Url) (lookup : LookupContext)
    → is_some (attempt crates original lookup rule) ≡ true
    → is_matched (explain_with_lookup crates rule.matcher original lookup) ≡ true
unfolding attempt
attempt-matched crates rule original lookup h = ground (arith, h)

module _ (crates : Crates) (laws : IsCrates crates) (entries : List Rule) (original : Url)
    (fit : All (λ rule. IsFitMatcher rule.matcher) entries)
    (slash : starts_with original.path (b'/' ∷ []) ≡ true) where
  abbrev lookup : LookupContext
  lookup = lookup_from_url crates original

  abbrev offered : List ℕ
  offered = collect_candidate_indices (compile entries) original lookup

  count-offered : (i : ℕ) → count i offered ≡ occurrences_at original lookup (get_elem? entries i)
  count-offered i =
      count-collect entries original lookup i fit slash (lookup_fits crates laws original)

  offered_exists : (i : ℕ) → 1 ≤ count i offered → is_some (get_elem? entries i) ≡ true
  offered_exists i h = elim (Option-cases (get_elem? entries i)) [
    | inl missing ↦ absurd (ground (arith, count-offered i, missing, h))
    | inr (rule, there) ↦ ground (arith, there)
  ]

  offered_match :
      (c : Candidate)
      → is_some (attempt crates original lookup c.1) ≡ true
      → Stands entries c
      → 1 ≤ count c.0 offered
  offered_match c hit at =
      let key =
        matched-occurrences crates laws c.1.matcher original
          (attempt-matched crates c.1 original lookup hit) in
      omega (arith, key, count-offered c.0, ap (occurrences_at original lookup) at)

  -- For crates that behave as documented, rules whose networks have the width of their family and
  -- whose prefixes are not empty, and a request whose path begins with a slash: the index never
  -- names a rule out of range, and its answer is the one of trying every rule in order.
  pub resolve-resolve_all :
      resolve crates (new_rule_set entries) original ≡ some (resolve_all crates entries original)
  unfolding resolve resolve_all new_rule_set
  resolve-resolve_all =
      let (cs, at, member) = select entries offered offered_exists in
      let stands : (c : Candidate) → In c cs → Stands entries c = λ c i. ((member c).0 i).1 in
      let same_rule : (x y : Candidate) → In x cs → In y cs → (x.0 == y.0) ≡ true → x ≡ y =
        λ x y i j e. unique x y (stands x i) (stands y j) ((nat_beq_iff x.0 y.0).0 e) in
      let sorted_rule : IsConsistent (sort cs) =
        λ x y i j e. same_rule x y ((In-sort x cs).0 i) ((In-sort y cs).0 j) e in
      ap (resolve_offered crates original lookup) at
      ∙ (ap some (
          resolve-same_matches crates original lookup (dedup (sort cs)) (sort (enumerate 0 entries))
            (dedup-IsStrict (sort cs) sorted_rule (sort-IsSorted cs))
            (sort-IsStrict (enumerate 0 entries) (enumerate-IsDistinct 0 entries))
            (λ c hit. (
              λ i. (In-sort c (enumerate 0 entries)).1 (
                  (In-all entries c).1
                    (stands c ((In-sort c cs).0 ((In-dedup c (sort cs) sorted_rule).0 i)))),
              λ i.
                  let at_index = (In-all entries c).0 ((In-sort c (enumerate 0 entries)).0 i) in
                  (In-dedup c (sort cs) sorted_rule).1
                    ((In-sort c cs).1 ((member c).1 (offered_match c hit at_index, at_index))),
            ))))
    where
      unique : (x y : Candidate) → Stands entries x → Stands entries y → x.0 ≡ y.0 → x ≡ y
      unique x y h k e =
          ap₂ (λ a b. (a, b)) e (some_injective (sym h ∙ ap (get_elem? entries) e ∙ k))
