-- ===== src/Trie/Cutoff.antt =====
-- src/rules/pool/trie.rs: the least rule index below a node, and what a cutoff skips.
use any_mirror.Common.{
  leb, if◌then◌else◌, All, ◌==◌, nat_eq, pair_eq, list_eq, option_eq, ℕ, suc, ◌+◌, ◌≤◌, ◌≡◌, refl,
  Bool, true, false, Option, none, some, List, [], ◌∷◌, ◌++◌, arith,
}

unfoldable pub update_min_rule_index : Option ℕ → ℕ → Option ℕ
update_min_rule_index none index = some index
update_min_rule_index (some current) index = if leb current index then some current else some index

unfoldable pub should_skip_index : ℕ → Option ℕ → Bool
should_skip_index index none = false
should_skip_index index (some cutoff) = leb cutoff index

unfoldable pub should_skip_subtree : Option ℕ → Option ℕ → Bool
should_skip_subtree none cutoff_index = true
should_skip_subtree (some min_index) none = false
should_skip_subtree (some min_index) (some cutoff) = leb cutoff min_index

unfoldable pub visit_terminal_indices : List ℕ → Option ℕ → List ℕ
visit_terminal_indices [] cutoff_index = []
visit_terminal_indices (index ∷ indices) cutoff_index =
    if should_skip_index index cutoff_index
    then visit_terminal_indices indices cutoff_index
    else index ∷ visit_terminal_indices indices cutoff_index

-- How often a number occurs.
abbrev pub count : ℕ → List ℕ → ℕ
count i [] = 0
count i (x ∷ xs) = if x == i then suc (count i xs) else count i xs

pub count-append : (i : ℕ) (xs ys : List ℕ) → count i (xs ++ ys) ≡ count i xs + count i ys
count-append i [] ys = omega arith
count-append i (x ∷ xs) ys = ground (arith, count-append i xs ys)

-- One visit of an index that is not skipped.
abbrev pub visited_once : ℕ → ℕ → Option ℕ → ℕ
visited_once i index cutoff_index =
    if should_skip_index index cutoff_index then 0 else if index == i then 1 else 0

pub count-visit_push :
    (i : ℕ) (indices : List ℕ) (index : ℕ) (cutoff_index : Option ℕ)
    → count i (visit_terminal_indices (indices ++ index ∷ []) cutoff_index)
      ≡ count i (visit_terminal_indices indices cutoff_index) + visited_once i index cutoff_index
unfolding visit_terminal_indices
count-visit_push i [] index cutoff_index = ground arith
count-visit_push i (x ∷ xs) index cutoff_index =
    ground (arith, count-visit_push i xs index cutoff_index)

-- `min_index` bounds an index from below; no bound means that there is no index.
abbrev pub Bounds : Option ℕ → ℕ → Type 0
Bounds none index = ⊥
Bounds (some min_index) index = min_index ≤ index

abbrev pub BoundsMin : Option ℕ → Option ℕ → Type 0
BoundsMin min_index none = Unit
BoundsMin none (some m) = ⊥
BoundsMin (some min_index) (some m) = min_index ≤ m

pub update-Bounds : (m : Option ℕ) (index : ℕ) → Bounds (update_min_rule_index m index) index
unfolding update_min_rule_index
update-Bounds none index = omega arith
update-Bounds (some m) index = ground arith

pub Bounds-update :
    (m : Option ℕ) (index k : ℕ) → Bounds m k → Bounds (update_min_rule_index m index) k
unfolding update_min_rule_index
Bounds-update none index k h = absurd h
Bounds-update (some m) index k h = ground arith

pub BoundsMin-update :
    (m k : Option ℕ) (index : ℕ) → BoundsMin m k → BoundsMin (update_min_rule_index m index) k
unfolding update_min_rule_index
BoundsMin-update m none index h = tt
BoundsMin-update none (some k) index h = absurd h
BoundsMin-update (some m) (some k) index h = ground arith

pub BoundsMin-updated :
    (m k : Option ℕ) (index : ℕ)
    → BoundsMin m k
    → Bounds m index
    → BoundsMin m (update_min_rule_index k index)
unfolding update_min_rule_index
BoundsMin-updated none k index h b = absurd b
BoundsMin-updated (some m) none index h b = b
BoundsMin-updated (some m) (some k) index h b = ground arith

-- What is below a skipped subtree is skipped.
pub skip_below :
    (m k cutoff_index : Option ℕ)
    → BoundsMin m k
    → should_skip_subtree m cutoff_index ≡ true
    → should_skip_subtree k cutoff_index ≡ true
unfolding should_skip_subtree
skip_below m none cutoff_index h s = refl
skip_below none (some k) cutoff_index h s = absurd h
skip_below (some m) (some k) none h s = s
skip_below (some m) (some k) (some cutoff) h s = ground arith

pub skip_terminals :
    (m cutoff_index : Option ℕ) (indices : List ℕ)
    → All (Bounds m) indices
    → should_skip_subtree m cutoff_index ≡ true
    → visit_terminal_indices indices cutoff_index ≡ []
unfolding should_skip_subtree visit_terminal_indices should_skip_index
skip_terminals m cutoff_index [] h s = refl
skip_terminals none cutoff_index (x ∷ xs) h s = absurd h.0
skip_terminals (some m) none (x ∷ xs) h s = cc
skip_terminals (some m) (some cutoff) (x ∷ xs) h s =
    ground (arith, skip_terminals (some m) (some cutoff) xs)

pub All-push :
    (m : Option ℕ) (indices : List ℕ) (index : ℕ)
    → All (Bounds m) indices
    → Bounds m index
    → All (Bounds m) (indices ++ index ∷ [])
All-push m [] index h b = (b, tt)
All-push m (x ∷ xs) index h b = (h.0, All-push m xs index h.1 b)

pub All-update :
    (m : Option ℕ) (indices : List ℕ) (index : ℕ)
    → All (Bounds m) indices
    → All (Bounds (update_min_rule_index m index)) indices
All-update m [] index h = tt
All-update m (x ∷ xs) index h = (Bounds-update m index x h.0, All-update m xs index h.1)
