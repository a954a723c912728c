-- ===== src/Trie/Nodes/Visit.antt =====
-- What a walk down a trie of src/rules/pool/trie.rs visits after an insertion.
use any_mirror.Common.{
  if◌then◌else◌, Bool-cases, KeyEq, ◌==◌, nat_eq, pair_eq, list_eq, option_eq, ℕ, ◌+◌, ◌≡◌, refl,
  sym, ap, ap₂, ◌∙◌, inl, inr, true, Option, none, some, List, [], ◌∷◌, ◌++◌, arith,
}
use any_mirror.Trie.Cutoff.{should_skip_subtree, count, count-append, skip_below}
use any_mirror.Trie.Nodes.{
  Node, node, Children, no_child, entry, payload, min_rule_index, children_of, note_index,
  get_child, set_child, or_default, descend, walk, visit,
}
use any_mirror.Trie.Nodes.Pruning.{IsBounded, IsBelowChild, Payload, get-IsBelow}

module _ {K P : Type 0} ⦃e : KeyEq K⦄ (emit : List K → P → List ℕ) where
  -- The visits below a node without the skipping of subtrees.
  unfoldable pub all_below : List K → Node K P → List ℕ
  all_below [] n = []
  all_below (k ∷ ks) n = elim (get_child k (children_of n)) [
    | none ↦ []
    | some next ↦ emit ks (payload next) ++ all_below ks next
  ]

  abbrev pub all_from : List K → Node K P → List ℕ
  all_from ks n = emit ks (payload n) ++ all_below ks n

  abbrev pub all_child : List K → Option (Node K P) → List ℕ
  all_child ks none = []
  all_child ks (some next) = all_from ks next

  pub below_child :
      (k : K) (ks : List K) (n : Node K P)
      → all_below (k ∷ ks) n ≡ all_child ks (get_child k (children_of n))
  unfolding all_below
  below_child k ks n = ground arith

  pub below_children :
      (ks : List K) (n n' : Node K P)
      → children_of n ≡ children_of n'
      → all_below ks n ≡ all_below ks n'
  unfolding all_below
  below_children [] n n' h = refl
  below_children (k ∷ ks) n n' h =
      below_child k ks n ∙ ap (λ c. all_child ks (get_child k c)) h ∙ sym (below_child k ks n')

module _ {K P : Type 0} ⦃e : KeyEq K⦄ {Covers : Option ℕ → P → Type 0} {emit : List K → P → List ℕ}
    {cutoff_index : Option ℕ} {empty : P} (law : Payload Covers emit cutoff_index empty) where
  skipped_child :
      (ks : List K) (o : Option (Node K P)) (m : Option ℕ)
      → IsBelowChild Covers m o
      → should_skip_subtree m cutoff_index ≡ true
      → ((n : Node K P)
          → IsBounded Covers n
          → should_skip_subtree (min_rule_index n) cutoff_index ≡ true
          → all_below emit ks n ≡ [])
      → all_child emit ks o ≡ []
  skipped_child ks none m h s rec = refl
  skipped_child ks (some (node c p k)) m h s rec =
      let s' = skip_below m k cutoff_index h.0 s in
      rw (law.skip_payload k p ks h.1.0 s', rec (node c p k) h.1 s')

  -- Below a node that is skipped there is nothing to visit.
  skipped :
      (ks : List K) (n : Node K P)
      → IsBounded Covers n
      → should_skip_subtree (min_rule_index n) cutoff_index ≡ true
      → all_below emit ks n ≡ []
  unfolding all_below
  skipped [] n h s = refl
  skipped (k ∷ ks) (node c p m) h s =
      below_child emit k ks (node c p m)
      ∙ skipped_child ks (get_child k c) m (get-IsBelow law k c m h.1) s (skipped ks)

  walk_child :
      (k : K) (ks : List K) (n : Node K P) (o : Option (Node K P))
      → get_child k (children_of n) ≡ o
      → IsBelowChild Covers (min_rule_index n) o
      → ((next : Node K P)
          → IsBounded Covers next
          → walk emit cutoff_index ks next ≡ all_below emit ks next)
      → walk emit cutoff_index (k ∷ ks) n ≡ all_child emit ks o
  unfolding walk
  walk_child k ks n none eq h rec = rw (eq, walk)
  walk_child k ks n (some (node c p m)) eq h rec =
      elim (Bool-cases (should_skip_subtree m cutoff_index)) [
        | inl skip ↦
            rw (eq, walk, skip, law.skip_payload m p ks h.1.0 skip)
              (sym (skipped ks (node c p m) h.1 skip))
        | inr enter ↦ rw (eq, walk, enter, rec (node c p m) h.1)
      ]

  walk-all_below :
      (ks : List K) (n : Node K P)
      → IsBounded Covers n
      → walk emit cutoff_index ks n ≡ all_below emit ks n
  unfolding walk all_below
  walk-all_below [] n h = refl
  walk-all_below (k ∷ ks) (node c p m) h =
      walk_child k ks (node c p m) (get_child k c) refl (get-IsBelow law k c m h.1)
        (walk-all_below ks)
      ∙ sym (below_child emit k ks (node c p m))

  -- The skipping of subtrees loses nothing.
  pub visit-all_below :
      (ks : List K) (root : Node K P)
      → IsBounded Covers root
      → visit emit cutoff_index ks root ≡ all_below emit ks root
  visit-all_below ks root h =
      elim (Bool-cases (should_skip_subtree (min_rule_index root) cutoff_index)) [
        | inl skip ↦ rw skip (sym (skipped ks root h skip))
        | inr enter ↦ rw (enter, walk-all_below ks root h)
      ]

module _ {K P : Type 0} ⦃e : KeyEq K⦄ where
  pub get-set_child :
      (j k : K) (next : Node K P) (c : Children K P)
      → get_child j (set_child k next c) ≡ (if k == j then some next else get_child j c)
  unfolding get_child set_child
  get-set_child j k next no_child = refl
  get-set_child j k next (entry i n c) =
      ground (arith, e.same_iff i k, e.same_iff i j, e.same_iff k j, get-set_child j k next c)

module _ {K : Type 0} ⦃e : KeyEq K⦄ where
  -- The keys begin with a path, and what follows.
  abbrev pub hit : (List K → ℕ) → List K → List K → ℕ
  hit extra [] ks = extra ks
  hit extra (p ∷ ps) [] = 0
  hit extra (p ∷ ps) (k ∷ ks) = if p == k then hit extra ps ks else 0

  -- The root's own payload is never visited.
  abbrev pub hit_below : (List K → ℕ) → List K → List K → ℕ
  hit_below extra [] ks = 0
  hit_below extra (p ∷ ps) ks = hit extra (p ∷ ps) ks

module _ {K P : Type 0} ⦃e : KeyEq K⦄ (emit : List K → P → List ℕ) (empty : P)
    (touch : Node K P → Node K P) (finish : P → P) (i : ℕ) (extra : List K → ℕ)
    (emit-empty : (ks : List K) → emit ks empty ≡ [])
    (touch_payload : (n : Node K P) → payload (touch n) ≡ payload n)
    (touch_children : (n : Node K P) → children_of (touch n) ≡ children_of n)
    (count-finish : (ks : List K) (p : P)
      → count i (emit ks (finish p)) ≡ count i (emit ks p) + extra ks) where
  from-default :
      (ks : List K) (o : Option (Node K P))
      → all_from emit ks (or_default empty o) ≡ all_child emit ks o
  unfolding all_below get_child
  from-default [] none = rw emit-empty
  from-default (k ∷ ks) none = rw emit-empty
  from-default [] (some n) = refl
  from-default (k ∷ ks) (some n) = refl

  from-next :
      (ks : List K) (o : Option (Node K P))
      → all_from emit ks (touch (or_default empty o)) ≡ all_child emit ks o
  from-next ks o =
      ap₂ ◌++◌ (ap (emit ks) (touch_payload (or_default empty o))) (
        below_children emit ks (touch (or_default empty o)) (or_default empty o)
          (touch_children (or_default empty o)))
      ∙ from-default ks o

  -- The child for the next key, after an insertion.
  count-child :
      (p k : K) (ps ks : List K) (c : Children K P)
      → ((n : Node K P)
          → count i (all_from emit ks (descend empty touch finish ps n))
            ≡ count i (all_from emit ks n) + hit extra ps ks)
      → count i (
          all_child emit ks (
            get_child k (
              set_child p
                (descend empty touch finish ps (touch (or_default empty (get_child p c))))
                c)))
        ≡ count i (all_child emit ks (get_child k c)) + hit extra (p ∷ ps) (k ∷ ks)
  count-child p k ps ks c ih = rw (get-set_child k p _ c) (elim (Bool-cases (p == k)) [
    | inr other ↦ rw other (omega arith)
    | inl here ↦ rw here (
        ih (touch (or_default empty (get_child p c)))
        ∙ ap (λ l. count i l + hit extra ps ks)
            (from-next ks (get_child p c)
              ∙ ap (λ j. all_child emit ks (get_child j c)) ((e.same_iff p k).0 here)))
  ])

  count-below_cons :
      (p k : K) (ps ks : List K) (n : Node K P)
      → ((n : Node K P)
          → count i (all_from emit ks (descend empty touch finish ps n))
            ≡ count i (all_from emit ks n) + hit extra ps ks)
      → count i (all_below emit (k ∷ ks) (descend empty touch finish (p ∷ ps) n))
        ≡ count i (all_below emit (k ∷ ks) n) + hit extra (p ∷ ps) (k ∷ ks)
  unfolding descend
  count-below_cons p k ps ks (node c q m) ih =
      let next = descend empty touch finish ps (touch (or_default empty (get_child p c))) in
      ap (count i) (below_child emit k ks (node (set_child p next c) q m))
      ∙ count-child p k ps ks c ih
      ∙ ap (λ l. count i l + hit extra (p ∷ ps) (k ∷ ks)) (sym (below_child emit k ks (node c q m)))

  count-descend :
      (ps ks : List K) (n : Node K P)
      → count i (all_from emit ks (descend empty touch finish ps n))
        ≡ count i (all_from emit ks n) + hit extra ps ks
  unfolding descend all_below
  count-descend [] ks (node c p m) =
      let below = below_children emit ks (node c (finish p) m) (node c p m) refl in
      omega (
        arith,
        count-append i (emit ks (finish p)) (all_below emit ks (node c (finish p) m)),
        count-append i (emit ks p) (all_below emit ks (node c p m)),
        count-finish ks p,
        ap (count i) below,
      )
  count-descend (p ∷ ps) [] (node c q m) = omega arith
  count-descend (p ∷ ps) (k ∷ ks) (node c q m) =
      let next = descend empty touch finish ps (touch (or_default empty (get_child p c))) in
      omega (
        arith,
        count-append i (emit (k ∷ ks) q) (all_below emit (k ∷ ks) (node (set_child p next c) q m)),
        count-append i (emit (k ∷ ks) q) (all_below emit (k ∷ ks) (node c q m)),
        count-below_cons p k ps ks (node c q m) (count-descend ps ks),
      )

  -- A visit of the whole trie after an insertion.
  pub count-below_descend :
      (ps ks : List K) (n : Node K P)
      → count i (all_below emit ks (descend empty touch finish ps n))
        ≡ count i (all_below emit ks n) + hit_below extra ps ks
  unfolding descend all_below
  count-below_descend [] ks (node c p m) =
      ap (count i) (below_children emit ks (node c (finish p) m) (node c p m) refl) ∙ omega arith
  count-below_descend (p ∷ ps) [] (node c q m) = omega arith
  count-below_descend (p ∷ ps) (k ∷ ks) (node c q m) =
      count-below_cons p k ps ks (node c q m) (count-descend ps ks)

module _ {K P : Type 0} (index : ℕ) where
  pub note-payload : (n : Node K P) → payload (note_index index n) ≡ payload n
  unfolding note_index
  note-payload (node c p m) = refl

  pub note-children : (n : Node K P) → children_of (note_index index n) ≡ children_of n
  unfolding note_index
  note-children (node c p m) = refl
