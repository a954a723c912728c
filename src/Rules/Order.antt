-- ===== src/Rules/Order.antt =====
-- src/rules/pool/runtime.rs: the order of the candidates, and their removal of duplicates. A candidate
-- is an index with the rule that it stands for.
pub mod Laws
pub mod Sorting
use any_mirror.Common.{
  ltb, if◌then◌else◌, ◌==◌, nat_eq, pair_eq, list_eq, option_eq, ip_eq, int_ltb, int_beq, ℕ, Bool,
  ◌&&◌, ◌||◌, List, [], ◌∷◌,
}
use any_mirror.Rules.Model.{Rule}

abbrev pub Candidate : Type 0
Candidate = ℕ × Rule

-- `compare_candidate_order` is `Less`: the higher priority first, then the lower index.
unfoldable pub precedes : Candidate → Candidate → Bool
precedes left right =
    int_ltb right.1.priority left.1.priority
    || int_beq right.1.priority left.1.priority && ltb left.0 right.0

-- `sort_unstable_by`, of which only the order of the result counts.
unfoldable pub sort_insert : Candidate → List Candidate → List Candidate
sort_insert c [] = c ∷ []
sort_insert c (d ∷ ds) =
    let rest = sort_insert c ds in if precedes d c then d ∷ rest else c ∷ d ∷ ds

unfoldable pub sort : List Candidate → List Candidate
unfolding sort_insert
sort [] = []
sort (c ∷ cs) = sort_insert c (sort cs)

-- `dedup` by the index, of a list given by its first element and the others.
unfoldable pub dedup_from : Candidate → List Candidate → List Candidate
dedup_from c [] = c ∷ []
dedup_from c (d ∷ ds) = let rest = dedup_from d ds in if c.0 == d.0 then rest else c ∷ rest

unfoldable pub dedup : List Candidate → List Candidate
unfolding dedup_from
dedup [] = []
dedup (c ∷ cs) = dedup_from c cs
