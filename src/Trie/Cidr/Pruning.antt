-- ===== src/Trie/Cidr/Pruning.antt =====
-- `min_rule_index` in src/rules/pool/trie.rs as a bound of the indices below its node.
use any_mirror.Common.{All, ℕ, zero, suc, ◌+◌, ◌≡◌, refl, Bool, true, false, Option, none, arith}
use any_mirror.Trie.Cutoff.{
  update_min_rule_index, Bounds, BoundsMin, update-Bounds, BoundsMin-update, BoundsMin-updated,
  All-push, All-update,
}
use any_mirror.Trie.Cidr.{
  CidrNode, node, Link, vacant, boxed, min_rule_index, default, child, unbox_or_default, set_child,
  note_index, push_terminal, cidr_bit, insert_loop, insert_cidr,
}

abbrev mutual
  pub IsBounded : CidrNode → Type 0
  IsBounded (node zero_link one_link terminals min_index) =
      All (Bounds min_index) terminals × IsBelow zero_link min_index × IsBelow one_link min_index

  pub IsBelow : Link → Option ℕ → Type 0
  IsBelow vacant min_index = Unit
  IsBelow (boxed next) min_index = BoundsMin min_index (min_rule_index next) × IsBounded next

pub default-IsBounded : IsBounded default
default-IsBounded = (tt, tt, tt)

IsBelow-update :
    (l : Link) (m : Option ℕ) (index : ℕ) → IsBelow l m → IsBelow l (update_min_rule_index m index)
IsBelow-update vacant m index h = tt
IsBelow-update (boxed next) m index h = (BoundsMin-update m (min_rule_index next) index h.0, h.1)

pub note-IsBounded : (index : ℕ) (n : CidrNode) → IsBounded n → IsBounded (note_index index n)
unfolding note_index
note-IsBounded index (node z o ts m) h =
    (All-update m ts index h.0, IsBelow-update z m index h.1, IsBelow-update o m index h.2)

pub child-IsBelow :
    (n : CidrNode) (bit : Bool) → IsBounded n → IsBelow (child n bit) (min_rule_index n)
unfolding child
child-IsBelow (node z o ts m) true h = h.2
child-IsBelow (node z o ts m) false h = h.1

-- The child that a step of `insert_loop` goes to.
abbrev pub next_node : ℕ → CidrNode → Bool → CidrNode
next_node index n bit = note_index index (unbox_or_default (child n bit))

unboxed :
    (l : Link) (m : Option ℕ) (index : ℕ)
    → IsBelow l m
    → Bounds m index
    → IsBounded (note_index index (unbox_or_default l))
      × BoundsMin m (min_rule_index (note_index index (unbox_or_default l)))
      × Bounds (min_rule_index (note_index index (unbox_or_default l))) index
unfolding unbox_or_default note_index update_min_rule_index
unboxed vacant m index h b = ((tt, tt, tt), BoundsMin-updated m none index tt b, omega arith)
unboxed (boxed (node z o ts k)) m index h b = (
  note-IsBounded index (node z o ts k) h.1,
  BoundsMin-updated m k index h.0 b,
  update-Bounds k index,
)

set-IsBounded :
    (bit : Bool) (next n : CidrNode)
    → IsBounded n
    → BoundsMin (min_rule_index n) (min_rule_index next)
    → IsBounded next
    → IsBounded (set_child bit next n)
unfolding set_child
set-IsBounded true next (node z o ts m) h b w = (h.0, h.1, (b, w))
set-IsBounded false next (node z o ts m) h b w = (h.0, (b, w), h.2)

min-set :
    (bit : Bool) (next n : CidrNode) → min_rule_index (set_child bit next n) ≡ min_rule_index n
unfolding set_child
min-set true next (node z o ts m) = refl
min-set false next (node z o ts m) = refl

min-insert :
    (rounds depth bits max_depth index : ℕ) (n : CidrNode)
    → min_rule_index (insert_loop rounds depth bits max_depth index n) ≡ min_rule_index n
unfolding insert_loop push_terminal
min-insert zero depth bits max_depth index (node z o ts m) = refl
min-insert (suc rounds) depth bits max_depth index n = min-set _ _ n

loop-IsBounded :
    (rounds depth bits max_depth index : ℕ) (n : CidrNode)
    → IsBounded n
    → Bounds (min_rule_index n) index
    → IsBounded (insert_loop rounds depth bits max_depth index n)
unfolding insert_loop push_terminal
loop-IsBounded zero depth bits max_depth index (node z o ts m) h b =
    (All-push m ts index h.0 b, h.1, h.2)
loop-IsBounded (suc rounds) depth bits max_depth index n h b =
    let bit = cidr_bit bits max_depth depth in
    let next = next_node index n bit in
    let u = unboxed (child n bit) (min_rule_index n) index (child-IsBelow n bit h) b in
    set-IsBounded bit (insert_loop rounds (depth + 1) bits max_depth index next) n h
      (rw (min-insert rounds (depth + 1) bits max_depth index next) u.1)
      (loop-IsBounded rounds (depth + 1) bits max_depth index next u.0 u.2)

noted-Bounds : (index : ℕ) (n : CidrNode) → Bounds (min_rule_index (note_index index n)) index
unfolding note_index
noted-Bounds index (node z o ts m) = update-Bounds m index

-- Every insertion keeps the bounds.
pub insert-IsBounded :
    (root : CidrNode) (bits prefix_len max_depth index : ℕ)
    → IsBounded root
    → IsBounded (insert_cidr root bits prefix_len max_depth index)
unfolding insert_cidr
insert-IsBounded root bits prefix_len max_depth index h =
    loop-IsBounded prefix_len 0 bits max_depth index (note_index index root)
      (note-IsBounded index root h) (noted-Bounds index root)
