-- ===== src/Trie/Nodes/Pruning.antt =====
-- `min_rule_index` in the tries of src/rules/pool/trie.rs with maps of children, as a bound of the
-- indices below its node.
use any_mirror.Common.{
  Bool-cases, KeyEq, ◌==◌, nat_eq, pair_eq, list_eq, option_eq, ℕ, ◌≡◌, refl, inl, inr, true,
  Option, none, some, List, [], ◌∷◌,
}
use any_mirror.Trie.Cutoff.{
  update_min_rule_index, should_skip_subtree, Bounds, BoundsMin, update-Bounds, BoundsMin-update,
  BoundsMin-updated,
}
use any_mirror.Trie.Nodes.{
  Node, node, Children, no_child, entry, min_rule_index, note_index, get_child, set_child, default,
  or_default, descend,
}

-- `Covers m p`: `m` bounds every index of the payload `p`.
module _ {K P : Type 0} (Covers : Option ℕ → P → Type 0) where
  abbrev mutual
    pub IsBounded : Node K P → Type 0
    IsBounded (node children p min_index) = Covers min_index p × IsBelow children min_index

    pub IsBelow : Children K P → Option ℕ → Type 0
    IsBelow no_child min_index = Unit
    IsBelow (entry k next c) min_index =
        (BoundsMin min_index (min_rule_index next) × IsBounded next) × IsBelow c min_index

  abbrev pub IsBelowChild : Option ℕ → Option (Node K P) → Type 0
  IsBelowChild min_index none = Unit
  IsBelowChild min_index (some next) = BoundsMin min_index (min_rule_index next) × IsBounded next

-- What the payloads of a trie promise of the bounds.
pub record Payload {K P : Type 0} (Covers : Option ℕ → P → Type 0) (emit : List K → P → List ℕ)
    (cutoff_index : Option ℕ) (empty : P) : Type 0 where
  pub skip_payload :
      (m : Option ℕ) (p : P) (ks : List K)
      → Covers m p
      → should_skip_subtree m cutoff_index ≡ true
      → emit ks p ≡ []
  pub Covers-update :
      (m : Option ℕ) (p : P) (index : ℕ) → Covers m p → Covers (update_min_rule_index m index) p
  pub Covers-empty : (m : Option ℕ) → Covers m empty
  pub emit-empty : (ks : List K) → emit ks empty ≡ []

module _ {K P : Type 0} ⦃e : KeyEq K⦄ {Covers : Option ℕ → P → Type 0} {emit : List K → P → List ℕ}
    {cutoff_index : Option ℕ} {empty : P} (law : Payload Covers emit cutoff_index empty) where
  pub get-IsBelow :
      (k : K) (c : Children K P) (m : Option ℕ)
      → IsBelow Covers c m
      → IsBelowChild Covers m (get_child k c)
  unfolding get_child
  get-IsBelow k no_child m h = tt
  get-IsBelow k (entry j n c) m h = elim (Bool-cases (j == k)) [
    | inl here ↦ rw here h.0
    | inr there ↦ rw there (get-IsBelow k c m h.1)
  ]

  set-IsBelow :
      (k : K) (next : Node K P) (c : Children K P) (m : Option ℕ)
      → IsBelow Covers c m
      → BoundsMin m (min_rule_index next)
      → IsBounded Covers next
      → IsBelow Covers (set_child k next c) m
  unfolding set_child
  set-IsBelow k next no_child m h b w = ((b, w), tt)
  set-IsBelow k next (entry j n c) m h b w = elim (Bool-cases (j == k)) [
    | inl here ↦ rw here ((b, w), h.1)
    | inr there ↦ rw there (h.0, set-IsBelow k next c m h.1 b w)
  ]

  IsBelow-update :
      (c : Children K P) (m : Option ℕ) (index : ℕ)
      → IsBelow Covers c m
      → IsBelow Covers c (update_min_rule_index m index)
  IsBelow-update no_child m index h = tt
  IsBelow-update (entry k n c) m index h =
      ((BoundsMin-update m (min_rule_index n) index h.0.0, h.0.1), IsBelow-update c m index h.1)

  pub note-IsBounded :
      (index : ℕ) (n : Node K P) → IsBounded Covers n → IsBounded Covers (note_index index n)
  unfolding note_index
  note-IsBounded index (node c p m) h =
      (law.Covers-update m p index h.0, IsBelow-update c m index h.1)

  pub noted-Bounds : (index : ℕ) (n : Node K P) → Bounds (min_rule_index (note_index index n)) index
  unfolding note_index
  noted-Bounds index (node c p m) = update-Bounds m index

  -- The child that an insertion goes on to.
  next-Bounds :
      (o : Option (Node K P)) (m : Option ℕ) (index : ℕ)
      → IsBelowChild Covers m o
      → Bounds m index
      → IsBounded Covers (note_index index (or_default empty o))
        × BoundsMin m (min_rule_index (note_index index (or_default empty o)))
  unfolding note_index
  next-Bounds none m index h b = (
    note-IsBounded index (default empty) (law.Covers-empty none, tt),
    BoundsMin-updated m none index tt b,
  )
  next-Bounds (some (node c p k)) m index h b =
      (note-IsBounded index (node c p k) h.1, BoundsMin-updated m k index h.0 b)

  min-descend :
      (touch : Node K P → Node K P) (finish : P → P) (ks : List K) (n : Node K P)
      → min_rule_index (descend empty touch finish ks n) ≡ min_rule_index n
  unfolding descend
  min-descend touch finish [] (node c p m) = refl
  min-descend touch finish (k ∷ ks) (node c p m) = refl

  -- An insertion that notes its index on the way keeps the bounds.
  pub descend-IsBounded :
      (finish : P → P) (index : ℕ) (ks : List K) (n : Node K P)
      → ((m : Option ℕ) (p : P) → Covers m p → Bounds m index → Covers m (finish p))
      → IsBounded Covers n
      → Bounds (min_rule_index n) index
      → IsBounded Covers (descend empty (note_index index) finish ks n)
  unfolding descend
  descend-IsBounded finish index [] (node c p m) keeps h b = (keeps m p h.0 b, h.1)
  descend-IsBounded finish index (k ∷ ks) (node c p m) keeps h b =
      let next = note_index index (or_default empty (get_child k c)) in
      let u = next-Bounds (get_child k c) m index (get-IsBelow k c m h.1) b in
      (
        h.0,
        set-IsBelow k (descend empty (note_index index) finish ks next) c m h.1
            (rw (min-descend (note_index index) finish ks next) u.1)
            (descend-IsBounded finish index ks next keeps u.0
              (noted-Bounds index (or_default empty (get_child k c)))),
      )

  -- So does one that notes nothing, since a node without a bound has no index below it.
  pub unnoted-IsBounded :
      (finish : P → P) (ks : List K) (n : Node K P)
      → ((m : Option ℕ) (p : P) → Covers m p → Covers m (finish p))
      → IsBounded Covers n
      → IsBounded Covers (descend empty (λ n. n) finish ks n)
  unfolding descend
  unnoted-IsBounded finish [] (node c p m) keeps h = (keeps m p h.0, h.1)
  unnoted-IsBounded finish (k ∷ ks) (node c p m) keeps h =
      let next = or_default empty (get_child k c) in
      let u = unnoted_next (get_child k c) m (get-IsBelow k c m h.1) in
      (
        h.0,
        set-IsBelow k (descend empty (λ n. n) finish ks next) c m h.1
            (rw (min-descend (λ n. n) finish ks next) u.1)
            (unnoted-IsBounded finish ks next keeps u.0),
      )
    where
      unnoted_next :
          (o : Option (Node K P)) (m : Option ℕ)
          → IsBelowChild Covers m o
          → IsBounded Covers (or_default empty o)
            × BoundsMin m (min_rule_index (or_default empty o))
      unnoted_next none m h = ((law.Covers-empty none, tt), tt)
      unnoted_next (some n) m h = (h.1, h.0)
