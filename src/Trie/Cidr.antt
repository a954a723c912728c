-- ===== src/Trie/Cidr.antt =====
-- src/rules/pool/trie.rs: `Ipv4CidrTrie` and `Ipv6CidrTrie`, binary tries over the bits of an
-- address, and the functions that they share.
pub mod Pruning
pub mod All
pub mod Visit
pub mod Contains
use any_mirror.Common.{
  if◌then◌else◌, ◌==◌, nat_eq, pair_eq, list_eq, option_eq, ℕ, zero, suc, ◌+◌, ◌-◌, ◌/◌, ◌%◌, ◌^◌,
  Bool, true, false, Option, none, List, [], ◌∷◌, ◌++◌,
}
use any_mirror.Trie.Cutoff.{update_min_rule_index, should_skip_subtree, visit_terminal_indices}

-- A node's `zero` and `one` are `Option<Box<CidrNode>>`, here a `Link`.
mutual
  pub data CidrNode : Type 0 where
    node : Link → Link → List ℕ → Option ℕ → CidrNode

  pub data Link : Type 0 where
    vacant : Link
    boxed : CidrNode → Link

abbrev pub terminal_indices : CidrNode → List ℕ
terminal_indices (node zero_link one_link terminals min_index) = terminals

abbrev pub min_rule_index : CidrNode → Option ℕ
min_rule_index (node zero_link one_link terminals min_index) = min_index

abbrev pub default : CidrNode
default = node vacant vacant [] none

unfoldable pub child : CidrNode → Bool → Link
child (node zero_link one_link terminals min_index) true = one_link
child (node zero_link one_link terminals min_index) false = zero_link

-- `get_or_insert_with(Box::default)`, read and written back.
unfoldable pub unbox_or_default : Link → CidrNode
unbox_or_default vacant = default
unbox_or_default (boxed next) = next

unfoldable pub set_child : Bool → CidrNode → CidrNode → CidrNode
set_child true next (node zero_link one_link terminals min_index) =
    node zero_link (boxed next) terminals min_index
set_child false next (node zero_link one_link terminals min_index) =
    node (boxed next) one_link terminals min_index

unfoldable pub note_index : ℕ → CidrNode → CidrNode
note_index index (node zero_link one_link terminals min_index) =
    node zero_link one_link terminals (update_min_rule_index min_index index)

unfoldable pub push_terminal : ℕ → CidrNode → CidrNode
push_terminal index (node zero_link one_link terminals min_index) =
    node zero_link one_link (terminals ++ index ∷ []) min_index

unfoldable pub cidr_bit : ℕ → ℕ → ℕ → Bool
cidr_bit value max_depth depth = (value / 2 ^ (max_depth - depth - 1)) % 2 == 1

-- The `for` loop of `insert_cidr`, with the number of rounds left.
unfoldable pub insert_loop : ℕ → ℕ → ℕ → ℕ → ℕ → CidrNode → CidrNode
insert_loop zero depth bits max_depth index n = push_terminal index n
insert_loop (suc rounds) depth bits max_depth index n =
    let bit = cidr_bit bits max_depth depth in
    set_child bit
      (insert_loop rounds (depth + 1) bits max_depth index
        (note_index index (unbox_or_default (child n bit))))
      n

unfoldable pub insert_cidr : CidrNode → ℕ → ℕ → ℕ → ℕ → CidrNode
insert_cidr root bits prefix_len max_depth index =
    insert_loop prefix_len 0 bits max_depth index (note_index index root)

-- The `for` loop of `visit_cidr_matches`, with the number of rounds left.
unfoldable pub visit_loop : ℕ → ℕ → ℕ → ℕ → Option ℕ → CidrNode → List ℕ
visit_loop zero depth bits max_depth cutoff_index n = []
visit_loop (suc rounds) depth bits max_depth cutoff_index n =
    elim (child n (cidr_bit bits max_depth depth)) [
      | vacant ↦ []
      | boxed next ↦
          let rest =
            visit_terminal_indices (terminal_indices next) cutoff_index
            ++ visit_loop rounds (depth + 1) bits max_depth cutoff_index next in
          if should_skip_subtree (min_rule_index next) cutoff_index then [] else rest
    ]

unfoldable pub visit_cidr_matches : CidrNode → ℕ → ℕ → Option ℕ → List ℕ
visit_cidr_matches root bits max_depth cutoff_index =
    if should_skip_subtree (min_rule_index root) cutoff_index
    then []
    else visit_terminal_indices (terminal_indices root) cutoff_index
      ++ visit_loop max_depth 0 bits max_depth cutoff_index root

-- A network as its address and the length of its prefix.
pub record Cidr : Type 0 where
  pub network : ℕ
  pub prefix_len : ℕ

unfoldable pub insert_v4 : CidrNode → Cidr → ℕ → CidrNode
insert_v4 root cidr index = insert_cidr root cidr.network cidr.prefix_len 32 index

unfoldable pub visit_matches_v4 : CidrNode → ℕ → Option ℕ → List ℕ
visit_matches_v4 root ip cutoff_index = visit_cidr_matches root ip 32 cutoff_index

unfoldable pub insert_v6 : CidrNode → Cidr → ℕ → CidrNode
insert_v6 root cidr index = insert_cidr root cidr.network cidr.prefix_len 128 index

unfoldable pub visit_matches_v6 : CidrNode → ℕ → Option ℕ → List ℕ
visit_matches_v6 root ip cutoff_index = visit_cidr_matches root ip 128 cutoff_index
