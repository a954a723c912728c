-- ===== src/Rules/Candidates/Maps.antt =====
-- What the insertions into the maps of src/rules/pool/compiled.rs change of their lookups.
use any_mirror.Common.{
  if◌then◌else◌, Bool-cases, Option-cases, KeyEq, ◌==◌, nat_eq, pair_eq, list_eq, option_eq, ip_eq,
  ℕ, ◌+◌, ◌≡◌, refl, sym, ap, ap₂, ◌∙◌, ◌≢◌, inl, inr, true, ◌&&◌, Option, none, some, List, [],
  ◌∷◌, ◌++◌, arith,
}
use any_mirror.HashMap.{get-insert, HashMap, get}
use any_mirror.Text.{Text, starts_with}
use any_mirror.Rules.Matching.{path_has_prefix}
use any_mirror.Rules.Compiled.{
  OriginKey, origin_same_iff, origin_eq, exact_url_eq, push_entry, insert_prefix,
}
use any_mirror.Rules.Runtime.{indices_of, prefix_candidates}
use any_mirror.Trie.Cutoff.{
  should_skip_index, should_skip_subtree, count, count-append, visited_once,
}
use any_mirror.Trie.Path.{insert as insert_path, PrefixPathNode, empty_trie, visit_matches}
use any_mirror.Trie.Path as PathTrie
use any_mirror.Trie.Path.Laws.{
  IsBoundedTrie, empty-IsBoundedTrie, insert-IsBoundedTrie, visit-insert,
}
use any_mirror.Trie.Path.Laws as PathLaws

abbrev pub once : ℕ → ℕ → ℕ
once i index = if index == i then 1 else 0

pub once-visited : (i index : ℕ) → visited_once i index none ≡ once i index
unfolding should_skip_index
once-visited i index = refl

module _ {K : Type 0} ⦃e : KeyEq K⦄ (i index : ℕ) where
  pub count-push_entry :
      (j k : K) (m : HashMap K (List ℕ))
      → count i (indices_of (get j (push_entry k index m)))
        ≡ count i (indices_of (get j m)) + (if k == j then once i index else 0)
  unfolding push_entry
  count-push_entry j k m = elim (Option-cases (get k m)) [
    | inl missing ↦
        rw (push_entry, missing, get-insert j k (index ∷ []) m)
          (ground (arith, e.same_iff k j, missing, ap (λ x. get x m)))
    | inr (indices, found) ↦
        rw (push_entry, found, get-insert j k (indices ++ index ∷ []) m)
          (elim (Bool-cases (k == j)) [
            | inr other ↦ rw other (omega arith)
            | inl here ↦ rw here (
                count-append i indices (index ∷ [])
                ∙ ap₂ ◌+◌
                    (ap (λ o. count i (indices_of o))
                      (sym found ∙ ap (λ x. get x m) ((e.same_iff k j).0 here)))
                    (ground arith))
          ])
  ]

abbrev pub IsBoundedSlot : Option PrefixPathNode → Type 0
IsBoundedSlot none = Unit
IsBoundedSlot (some trie) = PathLaws.IsBoundedTrie trie

abbrev trie_of : Option PrefixPathNode → PrefixPathNode
trie_of none = PathTrie.empty_trie
trie_of (some trie) = trie

trie_visits :
    (path : Text) (o : Option PrefixPathNode)
    → visit_matches (trie_of o) path none ≡ prefix_candidates path o
unfolding visit_matches should_skip_subtree
trie_visits path none = refl
trie_visits path (some trie) = refl

trie-IsBounded : (o : Option PrefixPathNode) → IsBoundedSlot o → PathLaws.IsBoundedTrie (trie_of o)
trie-IsBounded none h = PathLaws.empty-IsBoundedTrie
trie-IsBounded (some trie) h = h

module _ (prefix : Text) (index : ℕ) where
  get-insert_prefix :
      (j k : OriginKey) (m : HashMap OriginKey PrefixPathNode)
      → get j (insert_prefix k prefix index m)
        ≡ (if k == j then some (insert_path (trie_of (get k m)) prefix index) else get j m)
  unfolding insert_prefix
  get-insert_prefix j k m = elim (Option-cases (get k m)) [
    | inl missing ↦
        rw (insert_prefix, missing)
          (get-insert j k (insert_path PathTrie.empty_trie prefix index) m)
    | inr (trie, found) ↦
        rw (insert_prefix, found) (get-insert j k (insert_path trie prefix index) m)
  ]

  pub insert_prefix-IsBoundedSlot :
      (j k : OriginKey) (m : HashMap OriginKey PrefixPathNode)
      → ((x : OriginKey) → IsBoundedSlot (get x m))
      → IsBoundedSlot (get j (insert_prefix k prefix index m))
  insert_prefix-IsBoundedSlot j k m h = rw (get-insert_prefix j k m) (elim (Bool-cases (k == j)) [
    | inl here ↦
        rw here
          (insert-IsBoundedTrie (trie_of (get k m)) prefix index (trie-IsBounded (get k m) (h k)))
    | inr other ↦ rw other (h j)
  ])

  pub count-insert_prefix :
      (i : ℕ) (path : Text) (j k : OriginKey) (m : HashMap OriginKey PrefixPathNode)
      → ((x : OriginKey) → IsBoundedSlot (get x m))
      → prefix ≢ []
      → starts_with path (b'/' ∷ []) ≡ true
      → count i (prefix_candidates path (get j (insert_prefix k prefix index m)))
        ≡ count i (prefix_candidates path (get j m))
          + (if k == j && path_has_prefix path prefix then once i index else 0)
  count-insert_prefix i path j k m h ne slash =
      rw (get-insert_prefix j k m) (elim (Bool-cases (k == j)) [
        | inr other ↦ rw other (omega arith)
        | inl here ↦ rw here (
            visit-insert (trie_of (get k m)) prefix index path none i
              (trie-IsBounded (get k m) (h k)) ne slash
            ∙ ap₂ ◌+◌
                (ap (count i) (
                  trie_visits path (get k m)
                  ∙ ap (λ x. prefix_candidates path (get x m)) ((origin_same_iff k j).0 here)))
                (ap (λ n. if path_has_prefix path prefix then n else 0) (once-visited i index)))
      ])
