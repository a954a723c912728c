-- ===== src/Trie/Nodes.antt =====
-- src/rules/pool/trie.rs: what `PrefixPathNode` and `SuffixHostNode` share: a node with a map of
-- children, and the loops that walk down it. `P` is what else a node holds.
pub mod Pruning
pub mod Visit
use any_mirror.Common.{
  if◌then◌else◌, KeyEq, ◌==◌, nat_eq, pair_eq, list_eq, option_eq, ℕ, Option, none, some, List, [],
  ◌∷◌, ◌++◌,
}
use any_mirror.Trie.Cutoff.{update_min_rule_index, should_skip_subtree}

mutual
  pub data Node (K P : Type 0) : Type 0 where
    node : Children K P → P → Option ℕ → Node K P

  -- `HashMap<K, Node>`
  pub data Children (K P : Type 0) : Type 0 where
    no_child : Children K P
    entry : K → Node K P → Children K P → Children K P

module _ {K P : Type 0} where
  abbrev pub payload : Node K P → P
  payload (node children p min_index) = p

  abbrev pub min_rule_index : Node K P → Option ℕ
  min_rule_index (node children p min_index) = min_index

  abbrev pub children_of : Node K P → Children K P
  children_of (node children p min_index) = children

  abbrev pub map_payload : (P → P) → Node K P → Node K P
  map_payload f (node children p min_index) = node children (f p) min_index

  unfoldable pub note_index : ℕ → Node K P → Node K P
  note_index index (node children p min_index) =
      node children p (update_min_rule_index min_index index)

module _ {K P : Type 0} ⦃e : KeyEq K⦄ where
  unfoldable pub get_child : K → Children K P → Option (Node K P)
  get_child k no_child = none
  get_child k (entry j n c) = if j == k then some n else get_child k c

  unfoldable pub set_child : K → Node K P → Children K P → Children K P
  set_child k next no_child = entry k next no_child
  set_child k next (entry j n c) = if j == k then entry j next c else entry j n (set_child k next c)

module _ {K P : Type 0} ⦃e : KeyEq K⦄ (empty : P) where
  abbrev pub default : Node K P
  default = node no_child empty none

  -- `entry(k).or_default()`
  abbrev pub or_default : Option (Node K P) → Node K P
  or_default none = default
  or_default (some n) = n

  -- The loops of the insertions: on the way down each node is entered by `touch`, and the last one
  -- gets what `finish` adds.
  unfoldable pub descend : (Node K P → Node K P) → (P → P) → List K → Node K P → Node K P
  descend touch finish [] n = map_payload finish n
  descend touch finish (k ∷ ks) (node children p min_index) =
      node
        (set_child k (descend touch finish ks (touch (or_default (get_child k children)))) children)
        p min_index

-- The loops of the visits: `emit` is what a node's payload adds, given the keys that follow.
module _ {K P : Type 0} ⦃e : KeyEq K⦄ (emit : List K → P → List ℕ) (cutoff_index : Option ℕ) where
  unfoldable pub walk : List K → Node K P → List ℕ
  walk [] n = []
  walk (k ∷ ks) n = elim (get_child k (children_of n)) [
    | none ↦ []
    | some next ↦
        let rest = emit ks (payload next) ++ walk ks next in
        if should_skip_subtree (min_rule_index next) cutoff_index then [] else rest
  ]

  abbrev pub visit : List K → Node K P → List ℕ
  visit ks root =
      if should_skip_subtree (min_rule_index root) cutoff_index then [] else walk ks root
