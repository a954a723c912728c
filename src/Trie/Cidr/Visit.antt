-- ===== src/Trie/Cidr/Visit.antt =====
-- What `visit_cidr_matches` in src/rules/pool/trie.rs visits after an insertion.
use any_mirror.Trie.Cidr.All.{all_below, all_from, all_link, below_link, visit-all_from}
use any_mirror.Common.{
  if◌then◌else◌, nat_eq, pair_eq, list_eq, option_eq, ip_eq, ℕ, zero, suc, ◌+◌, ◌≤◌, ◌≡◌, refl, sym,
  ap, ◌∙◌, Bool, true, false, not, ◌&&◌, Option, [], ◌∷◌, ◌++◌, arith,
}
use any_mirror.Trie.Cutoff.{
  visit_terminal_indices, count, count-append, visited_once, count-visit_push,
}
use any_mirror.Trie.Cidr.{
  CidrNode, node, Link, vacant, boxed, terminal_indices, child, unbox_or_default, set_child,
  note_index, push_terminal, cidr_bit, insert_loop, insert_cidr, visit_cidr_matches,
}
use any_mirror.Trie.Cidr.Pruning.{IsBounded, next_node, insert-IsBounded}

abbrev pub same : Bool → Bool → Bool
same true b = b
same false b = not b

module _ (ip max_depth : ℕ) where
  -- The next bits of a network and of the address are the same.
  abbrev pub agree : ℕ → ℕ → ℕ → Bool
  agree zero depth bits = true
  agree (suc k) depth bits =
      same (cidr_bit bits max_depth depth) (cidr_bit ip max_depth depth) && agree k (depth + 1) bits

terminals-set :
    (bit : Bool) (next n : CidrNode) → terminal_indices (set_child bit next n) ≡ terminal_indices n
unfolding set_child
terminals-set true next (node z o ts m) = refl
terminals-set false next (node z o ts m) = refl

child-set :
    (bit bit' : Bool) (next n : CidrNode)
    → child (set_child bit next n) bit' ≡ (if same bit bit' then boxed next else child n bit')
unfolding set_child child
child-set true true next (node z o ts m) = refl
child-set true false next (node z o ts m) = refl
child-set false true next (node z o ts m) = refl
child-set false false next (node z o ts m) = refl

module _ (ip max_depth : ℕ) (cutoff_index : Option ℕ) where
  all-note :
      (rounds depth index : ℕ) (n : CidrNode)
      → all_from ip max_depth cutoff_index rounds depth (note_index index n)
        ≡ all_from ip max_depth cutoff_index rounds depth n
  unfolding note_index all_below child
  all-note zero depth index (node z o ts m) = refl
  all-note (suc rounds) depth index (node z o ts m) = refl

  all-unbox :
      (rounds depth : ℕ) (l : Link)
      → all_from ip max_depth cutoff_index rounds depth (unbox_or_default l)
        ≡ all_link ip max_depth cutoff_index rounds depth l
  unfolding unbox_or_default all_below visit_terminal_indices child
  all-unbox zero depth vacant = refl
  all-unbox (suc rounds) depth vacant = ground arith
  all-unbox zero depth (boxed next) = refl
  all-unbox (suc rounds) depth (boxed next) = refl

  abbrev pub added : Bool → ℕ → ℕ → ℕ
  added matched i index = if matched then visited_once i index cutoff_index else 0

  module _ (i index : ℕ) where
    count-push :
        (rounds depth : ℕ) (n : CidrNode)
        → count i (all_from ip max_depth cutoff_index rounds depth (push_terminal index n))
          ≡ count i (all_from ip max_depth cutoff_index rounds depth n)
            + visited_once i index cutoff_index
    unfolding push_terminal all_below child
    count-push zero depth (node z o ts m) = omega (
      arith,
      count-visit_push i ts index cutoff_index,
      count-append i (visit_terminal_indices (ts ++ index ∷ []) cutoff_index) [],
      count-append i (visit_terminal_indices ts cutoff_index) [],
    )
    count-push (suc rounds) depth (node z o ts m) =
        let rest = all_below ip max_depth cutoff_index (suc rounds) depth (node z o ts m) in
        omega (
          arith,
          count-visit_push i ts index cutoff_index,
          count-append i (visit_terminal_indices (ts ++ index ∷ []) cutoff_index) rest,
          count-append i (visit_terminal_indices ts cutoff_index) rest,
        )

    count-set_link :
        (rounds depth : ℕ) (bit bit' : Bool) (next n : CidrNode) (extra : ℕ)
        → count i (all_from ip max_depth cutoff_index rounds depth next)
          ≡ count i (all_link ip max_depth cutoff_index rounds depth (child n bit)) + extra
        → count i
            (all_link ip max_depth cutoff_index rounds depth (child (set_child bit next n) bit'))
          ≡ count i (all_link ip max_depth cutoff_index rounds depth (child n bit'))
            + (if same bit bit' then extra else 0)
    unfolding set_child child
    count-set_link rounds depth true true next (node z o ts m) extra h = h
    count-set_link rounds depth true false next (node z o ts m) extra h = omega arith
    count-set_link rounds depth false true next (node z o ts m) extra h = omega arith
    count-set_link rounds depth false false next (node z o ts m) extra h = h

    count-all :
        (rounds depth : ℕ) (n : CidrNode)
        → count i (all_from ip max_depth cutoff_index (suc rounds) depth n)
          ≡ count i (visit_terminal_indices (terminal_indices n) cutoff_index)
            + count i (
                all_link ip max_depth cutoff_index rounds
                  (depth + 1)
                  (child n (cidr_bit ip max_depth depth)))
    count-all rounds depth n =
        count-append i (visit_terminal_indices (terminal_indices n) cutoff_index)
          (all_below ip max_depth cutoff_index (suc rounds) depth n)
        ∙ ap (λ l. count i (visit_terminal_indices (terminal_indices n) cutoff_index) + count i l)
            (below_link ip max_depth cutoff_index rounds depth n)

    -- A node after the child on one side has been replaced.
    count-set :
        (rounds depth : ℕ) (bit : Bool) (next n : CidrNode) (extra : ℕ)
        → count i (all_from ip max_depth cutoff_index rounds (depth + 1) next)
          ≡ count i (all_link ip max_depth cutoff_index rounds (depth + 1) (child n bit)) + extra
        → count i (all_from ip max_depth cutoff_index (suc rounds) depth (set_child bit next n))
          ≡ count i (all_from ip max_depth cutoff_index (suc rounds) depth n)
            + (if same bit (cidr_bit ip max_depth depth) then extra else 0)
    count-set rounds depth bit next n extra h = omega (
      arith,
      count-all rounds depth n,
      count-all rounds depth (set_child bit next n),
      ap (λ ts. count i (visit_terminal_indices ts cutoff_index)) (terminals-set bit next n),
      count-set_link rounds (depth + 1) bit (cidr_bit ip max_depth depth) next n extra h,
    )

    count-insert_loop :
        (k rounds depth bits : ℕ) (n : CidrNode)
        → k ≤ rounds
        → count i (
            all_from ip max_depth cutoff_index rounds depth
              (insert_loop k depth bits max_depth index n))
          ≡ count i (all_from ip max_depth cutoff_index rounds depth n)
            + added (agree ip max_depth k depth bits) i index
    unfolding insert_loop
    count-insert_loop zero rounds depth bits n h = count-push rounds depth n
    count-insert_loop (suc k) zero depth bits n h = absurd (omega arith)
    count-insert_loop (suc k) (suc rounds) depth bits n h =
        let bit = cidr_bit bits max_depth depth in
        let next = next_node index n bit in
        let extra = added (agree ip max_depth k (depth + 1) bits) i index in
        let ih = count-insert_loop k rounds (depth + 1) bits next (omega arith) in
        let next_same : count i (all_from ip max_depth cutoff_index rounds (depth + 1) next)
            ≡ count i (all_link ip max_depth cutoff_index rounds (depth + 1) (child n bit)) =
          ap (count i) (
            all-note rounds (depth + 1) index (unbox_or_default (child n bit))
            ∙ all-unbox rounds (depth + 1) (child n bit)) in
        count-set rounds depth bit (insert_loop k (depth + 1) bits max_depth index next) n extra
          (omega (arith, ih, next_same))
        ∙ ground arith

    -- An insertion adds one visit of its index if the first bits of the network and of the
    -- address are the same.
    pub count-insert :
        (root : CidrNode) (bits prefix_len : ℕ)
        → IsBounded root
        → prefix_len ≤ max_depth
        → count i (
            visit_cidr_matches
              (insert_cidr root bits prefix_len max_depth index)
              ip
              max_depth
              cutoff_index)
          ≡ count i (visit_cidr_matches root ip max_depth cutoff_index)
            + added (agree ip max_depth prefix_len 0 bits) i index
    unfolding insert_cidr
    count-insert root bits prefix_len h le =
        ap (count i) (
          visit-all_from ip max_depth cutoff_index
            (insert_cidr root bits prefix_len max_depth index)
            (insert-IsBounded root bits prefix_len max_depth index h))
        ∙ count-insert_loop prefix_len max_depth 0 bits (note_index index root) le
        ∙ ap (λ l. count i l + added (agree ip max_depth prefix_len 0 bits) i index)
            (all-note max_depth 0 index root
              ∙ sym (visit-all_from ip max_depth cutoff_index root h))
