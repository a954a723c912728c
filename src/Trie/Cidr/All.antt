-- ===== src/Trie/Cidr/All.antt =====
-- What `visit_cidr_matches` in src/rules/pool/trie.rs visits, without the subtrees that it skips.
use any_mirror.Common.{
  Bool-cases, nat_eq, pair_eq, list_eq, option_eq, ip_eq, ℕ, zero, suc, ◌+◌, ◌≡◌, refl, sym, ◌∙◌,
  inl, inr, true, Option, List, [], ◌++◌, arith,
}
use any_mirror.Trie.Cutoff.{should_skip_subtree, visit_terminal_indices, skip_below, skip_terminals}
use any_mirror.Trie.Cidr.{
  CidrNode, node, Link, vacant, boxed, terminal_indices, min_rule_index, child, cidr_bit,
  visit_loop, visit_cidr_matches,
}
use any_mirror.Trie.Cidr.Pruning.{IsBounded, IsBelow, child-IsBelow}

module _ (ip max_depth : ℕ) (cutoff_index : Option ℕ) where
  -- The visits below a node without the skipping of subtrees.
  unfoldable pub all_below : ℕ → ℕ → CidrNode → List ℕ
  unfolding child
  all_below zero depth n = []
  all_below (suc rounds) depth n = elim (child n (cidr_bit ip max_depth depth)) [
    | vacant ↦ []
    | boxed next ↦
        visit_terminal_indices (terminal_indices next) cutoff_index
        ++ all_below rounds (depth + 1) next
  ]

  abbrev pub all_from : ℕ → ℕ → CidrNode → List ℕ
  all_from rounds depth n =
      visit_terminal_indices (terminal_indices n) cutoff_index ++ all_below rounds depth n

  abbrev pub all_link : ℕ → ℕ → Link → List ℕ
  all_link rounds depth vacant = []
  all_link rounds depth (boxed next) = all_from rounds depth next

  pub below_link :
      (rounds depth : ℕ) (n : CidrNode)
      → all_below (suc rounds) depth n
        ≡ all_link rounds (depth + 1) (child n (cidr_bit ip max_depth depth))
  unfolding all_below
  below_link rounds depth n = ground arith

  pub skipped_link :
      (rounds depth : ℕ) (l : Link) (m : Option ℕ)
      → IsBelow l m
      → should_skip_subtree m cutoff_index ≡ true
      → ((n : CidrNode)
          → IsBounded n
          → should_skip_subtree (min_rule_index n) cutoff_index ≡ true
          → all_below rounds depth n ≡ [])
      → all_link rounds depth l ≡ []
  skipped_link rounds depth vacant m h s rec = refl
  skipped_link rounds depth (boxed (node z o ts k)) m h s rec =
      let s' = skip_below m k cutoff_index h.0 s in
      rw (skip_terminals k cutoff_index ts h.1.0 s', rec (node z o ts k) h.1 s')

  -- Below a node that is skipped there is nothing to visit.
  pub skipped :
      (rounds depth : ℕ) (n : CidrNode)
      → IsBounded n
      → should_skip_subtree (min_rule_index n) cutoff_index ≡ true
      → all_below rounds depth n ≡ []
  unfolding all_below
  skipped zero depth n h s = refl
  skipped (suc rounds) depth n h s =
      let bit = cidr_bit ip max_depth depth in
      below_link rounds depth n
      ∙ skipped_link rounds (depth + 1) (child n bit) (min_rule_index n) (child-IsBelow n bit h) s
          (skipped rounds (depth + 1))

  pub skipped_from :
      (rounds depth : ℕ) (n : CidrNode)
      → IsBounded n
      → should_skip_subtree (min_rule_index n) cutoff_index ≡ true
      → all_from rounds depth n ≡ []
  skipped_from rounds depth (node z o ts m) h s =
      rw (skip_terminals m cutoff_index ts h.0 s, skipped rounds depth (node z o ts m) h s)

  pub pruned_link :
      (rounds depth : ℕ) (n : CidrNode) (l : Link)
      → child n (cidr_bit ip max_depth depth) ≡ l
      → IsBelow l (min_rule_index n)
      → ((next : CidrNode)
          → IsBounded next
          → visit_loop rounds (depth + 1) ip max_depth cutoff_index next
            ≡ all_below rounds (depth + 1) next)
      → visit_loop (suc rounds) depth ip max_depth cutoff_index n ≡ all_link rounds (depth + 1) l
  unfolding visit_loop
  pruned_link rounds depth n vacant e h rec = rw (e, visit_loop)
  pruned_link rounds depth n (boxed next) e h rec =
      elim (Bool-cases (should_skip_subtree (min_rule_index next) cutoff_index)) [
        | inl skip ↦ rw (e, visit_loop, skip) (sym (skipped_from rounds (depth + 1) next h.1 skip))
        | inr enter ↦ rw (e, visit_loop, enter, rec next h.1)
      ]

  pub pruned :
      (rounds depth : ℕ) (n : CidrNode)
      → IsBounded n
      → visit_loop rounds depth ip max_depth cutoff_index n ≡ all_below rounds depth n
  unfolding visit_loop all_below
  pruned zero depth n h = refl
  pruned (suc rounds) depth n h =
      let bit = cidr_bit ip max_depth depth in
      pruned_link rounds depth n (child n bit) refl (child-IsBelow n bit h)
        (pruned rounds (depth + 1))
      ∙ sym (below_link rounds depth n)

  -- The skipping of subtrees loses nothing.
  pub visit-all_from :
      (root : CidrNode)
      → IsBounded root
      → visit_cidr_matches root ip max_depth cutoff_index ≡ all_from max_depth 0 root
  unfolding visit_cidr_matches
  visit-all_from root h =
      elim (Bool-cases (should_skip_subtree (min_rule_index root) cutoff_index)) [
        | inl skip ↦ rw skip (sym (skipped_from max_depth 0 root h skip))
        | inr enter ↦ rw (enter, pruned max_depth 0 root h)
      ]
