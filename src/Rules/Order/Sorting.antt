-- ===== src/Rules/Order/Sorting.antt =====
-- What sorting and the removal of duplicates in src/rules/pool/runtime.rs make of the candidates.
use any_mirror.Common.{
  Bool-cases, All, ◌==◌, nat_eq, pair_eq, list_eq, option_eq, ip_eq, ◌≡◌, refl, ap, ◌∙◌, ◌↔◌, ◌⊎◌,
  inl, inr, true, false, List, [], ◌∷◌, arith,
}
use any_mirror.Rules.Order.{Candidate, precedes, sort_insert, sort, dedup_from, dedup}
use any_mirror.Rules.Order.Laws.{
  precedes_trans, precedes_asym, precedes_total, follows_trans, IsSorted, IsStrict, In, All-In,
  In-All,
}

In-sort_insert :
    (x c : Candidate) (ds : List Candidate) → In x (sort_insert c ds) ↔ ((x ≡ c) ⊎ In x ds)
unfolding sort_insert
In-sort_insert x c [] = (λ i. i, λ i. i)
In-sort_insert x c (d ∷ ds) =
    let ih = In-sort_insert x c ds in
    elim (Bool-cases (precedes d c)) [
      | inr stop ↦ rw stop (λ i. i, λ i. i)
      | inl past ↦ rw past (
        λ i. elim i [
          | inl e ↦ inr (inl e)
          | inr j ↦ elim (ih.0 j) [ inl e ↦ inl e | inr k ↦ inr (inr k) ]
        ],
        λ i. elim i [
          | inl e ↦ inr (ih.1 (inl e))
          | inr j ↦ elim j [ inl e ↦ inl e | inr k ↦ inr (ih.1 (inr k)) ]
        ],
      )
    ]

pub In-sort : (x : Candidate) (cs : List Candidate) → In x (sort cs) ↔ In x cs
unfolding sort
In-sort x [] = (λ i. i, λ i. i)
In-sort x (c ∷ cs) =
    let ih = In-sort x cs in
    let step = In-sort_insert x c (sort cs) in
    (
      λ i. elim (step.0 i) [ inl e ↦ inl e | inr j ↦ inr (ih.0 j) ],
      λ i. elim i [ inl e ↦ step.1 (inl e) | inr j ↦ step.1 (inr (ih.1 j)) ],
    )

sort_insert-IsSorted :
    (c : Candidate) (ds : List Candidate) → IsSorted ds → IsSorted (sort_insert c ds)
unfolding sort_insert
sort_insert-IsSorted c [] h = (tt, tt)
sort_insert-IsSorted c (d ∷ ds) h = elim (Bool-cases (precedes d c)) [
  | inl past ↦ rw past (
    In-All (sort_insert c ds) (λ x i. elim ((In-sort_insert x c ds).0 i) [
      | inl e ↦ ground (arith, ap (λ y. precedes y d) e, precedes_asym d c)
      | inr j ↦ All-In _ x ds h.0 j
    ]),
    sort_insert-IsSorted c ds h.1,
  )
  | inr stop ↦
      rw stop ((stop, In-All ds (λ x i. follows_trans c d x stop (All-In _ x ds h.0 i))), h)
]

pub sort-IsSorted : (cs : List Candidate) → IsSorted (sort cs)
unfolding sort
sort-IsSorted [] = tt
sort-IsSorted (c ∷ cs) = sort_insert-IsSorted c (sort cs) (sort-IsSorted cs)

-- An index stands for one rule.
abbrev pub IsConsistent : List Candidate → Type 0
IsConsistent cs = (x y : Candidate) → In x cs → In y cs → (x.0 == y.0) ≡ true → x ≡ y

abbrev rest_consistent :
    (c : Candidate) (cs : List Candidate) → IsConsistent (c ∷ cs) → IsConsistent cs
rest_consistent c cs h x y i j = h x y (inr i) (inr j)

In-dedup_from :
    (x c : Candidate) (cs : List Candidate)
    → IsConsistent (c ∷ cs)
    → In x (dedup_from c cs) ↔ ((x ≡ c) ⊎ In x cs)
unfolding dedup_from
In-dedup_from x c [] h = (λ i. i, λ i. i)
In-dedup_from x c (d ∷ ds) h =
    let ih = In-dedup_from x d ds (rest_consistent c (d ∷ ds) h) in
    elim (Bool-cases (c.0 == d.0)) [
      | inr other ↦ rw other (
        λ i. elim i [ inl e ↦ inl e | inr j ↦ inr (ih.0 j) ],
        λ i. elim i [ inl e ↦ inl e | inr j ↦ inr (ih.1 j) ],
      )
      | inl again ↦ rw again (
        λ i. inr (ih.0 i),
        λ i. elim i [
          | inl e ↦ ih.1 (inl (e ∙ h c d (inl refl) (inr (inl refl)) again))
          | inr j ↦ ih.1 j
        ],
      )
    ]

pub In-dedup : (x : Candidate) (cs : List Candidate) → IsConsistent cs → In x (dedup cs) ↔ In x cs
unfolding dedup
In-dedup x [] h = (λ i. i, λ i. i)
In-dedup x (c ∷ cs) h = In-dedup_from x c cs h

dedup_from-IsStrict :
    (c : Candidate) (cs : List Candidate)
    → IsConsistent (c ∷ cs)
    → IsSorted (c ∷ cs)
    → IsStrict (dedup_from c cs)
unfolding dedup_from
dedup_from-IsStrict c [] h s = (tt, tt)
dedup_from-IsStrict c (d ∷ ds) h s =
    let below = rest_consistent c (d ∷ ds) h in
    elim (Bool-cases (c.0 == d.0)) [
      | inl again ↦ rw again (dedup_from-IsStrict d ds below s.1)
      | inr other ↦
          let first = precedes_total c d s.0.0 other in
          rw other (
            In-All (dedup_from d ds) (λ x i. elim ((In-dedup_from x d ds below).0 i) [
              | inl e ↦ ap (λ y. precedes c y) e ∙ first
              | inr j ↦ after first x (All-In _ x ds s.1.0 j)
            ]),
            dedup_from-IsStrict d ds below s.1,
          )
    ]
  where
    after : precedes c d ≡ true → (x : Candidate) → precedes x d ≡ false → precedes c x ≡ true
    after first x later = elim (Bool-cases (precedes c x)) [
      | inl good ↦ good
      | inr bad ↦ absurd (
          ground
            (arith, first, follows_trans x c d, follows_trans d x c later, bad, precedes_asym c d))
    ]

pub dedup-IsStrict : (cs : List Candidate) → IsConsistent cs → IsSorted cs → IsStrict (dedup cs)
unfolding dedup
dedup-IsStrict [] h s = tt
dedup-IsStrict (c ∷ cs) h s = dedup_from-IsStrict c cs h s

-- No index occurs twice.
abbrev pub IsDistinct : List Candidate → Type 0
IsDistinct [] = Unit
IsDistinct (c ∷ cs) = All (λ d. (c.0 == d.0) ≡ false) cs × IsDistinct cs

sort_insert-IsStrict :
    (c : Candidate) (ds : List Candidate)
    → All (λ d. (c.0 == d.0) ≡ false) ds
    → IsStrict ds
    → IsStrict (sort_insert c ds)
unfolding sort_insert
sort_insert-IsStrict c [] h s = (tt, tt)
sort_insert-IsStrict c (d ∷ ds) h s = elim (Bool-cases (precedes d c)) [
  | inl past ↦ rw past (
    In-All (sort_insert c ds) (λ x i. elim ((In-sort_insert x c ds).0 i) [
      | inl e ↦ ap (λ y. precedes d y) e ∙ past
      | inr j ↦ All-In _ x ds s.0 j
    ]),
    sort_insert-IsStrict c ds h.1 s.1,
  )
  | inr stop ↦
      let first = precedes_total c d stop h.0 in
      rw stop ((first, In-All ds (λ x i. precedes_trans c d x first (All-In _ x ds s.0 i))), s)
]

pub sort-IsStrict : (cs : List Candidate) → IsDistinct cs → IsStrict (sort cs)
unfolding sort
sort-IsStrict [] h = tt
sort-IsStrict (c ∷ cs) h =
    sort_insert-IsStrict c (sort cs)
      (In-All (sort cs) (λ x i. All-In _ x cs h.0 ((In-sort x cs).0 i))) (sort-IsStrict cs h.1)
