-- ===== src/Trie/Host/Dns.antt =====
-- The DNS marks of the host trie in src/rules/pool/trie.rs.
use any_mirror.Common.{
  Bool-cases, ◌==◌, nat_eq, pair_eq, list_beq_iff, list_eq, option_eq, ℕ, ◌≡◌, refl, sym, ap, ap₂,
  ◌∙◌, ◌≢◌, inl, inr, Bool, true, false, ◌&&◌, ◌||◌, Option, none, some, List, [], ◌∷◌, arith,
}
use any_mirror.Text.{Text, rsplit}
use any_mirror.Text.Pieces.{is_prefix, has_piece_suffix, is_prefix-has_piece_suffix, rsplit-ne}
use any_mirror.Trie.Nodes.{
  node, payload, children_of, note_index, get_child, set_child, or_default, descend,
}
use any_mirror.Trie.Nodes.Visit.{get-set_child, note-payload, note-children}
use any_mirror.Trie.Host.{
  HostPayload, SuffixHostNode, no_payload, push_rule, insert_rule, set_dns, mark_dns, matches_loop,
  matches,
}

-- A node or one below it is marked.
abbrev marked_from : List Text → SuffixHostNode → Bool
marked_from labels n = (payload n).dns_terminal || matches_loop labels n

abbrev marked_child : List Text → Option SuffixHostNode → Bool
marked_child labels none = false
marked_child labels (some n) = marked_from labels n

loop_child :
    (label : Text) (labels : List Text) (n : SuffixHostNode)
    → matches_loop (label ∷ labels) n ≡ marked_child labels (get_child label (children_of n))
unfolding matches_loop
loop_child label labels n = ground arith

loop_children :
    (labels : List Text) (n n' : SuffixHostNode)
    → children_of n ≡ children_of n'
    → matches_loop labels n ≡ matches_loop labels n'
unfolding matches_loop
loop_children [] n n' h = refl
loop_children (k ∷ ks) n n' h =
    loop_child k ks n ∙ ap (λ c. marked_child ks (get_child k c)) h ∙ sym (loop_child k ks n')

marked_default :
    (labels : List Text) (o : Option SuffixHostNode)
    → marked_from labels (or_default no_payload o) ≡ marked_child labels o
unfolding matches_loop get_child
marked_default [] none = refl
marked_default (k ∷ ks) none = refl
marked_default [] (some n) = refl
marked_default (k ∷ ks) (some n) = refl

module _ (touch : SuffixHostNode → SuffixHostNode) (finish : HostPayload → HostPayload)
    (mark : Bool) (touch_payload : (n : SuffixHostNode) → payload (touch n) ≡ payload n)
    (touch_children : (n : SuffixHostNode) → children_of (touch n) ≡ children_of n)
    (finish_dns : (p : HostPayload) → (finish p).dns_terminal ≡ (p.dns_terminal || mark)) where
  marked_next :
      (labels : List Text) (o : Option SuffixHostNode)
      → marked_from labels (touch (or_default no_payload o)) ≡ marked_child labels o
  marked_next labels o =
      ap₂ ◌||◌ (ap (λ p. p.dns_terminal) (touch_payload (or_default no_payload o))) (
        loop_children labels (touch (or_default no_payload o)) (or_default no_payload o)
          (touch_children (or_default no_payload o)))
      ∙ marked_default labels o

  -- Below a node, after an insertion.
  loop_step :
      (p k : Text) (ps ks : List Text) (n : SuffixHostNode)
      → ((n : SuffixHostNode)
          → marked_from ks (descend no_payload touch finish ps n)
            ≡ (marked_from ks n || mark && is_prefix ps ks))
      → matches_loop (k ∷ ks) (descend no_payload touch finish (p ∷ ps) n)
        ≡ (matches_loop (k ∷ ks) n || mark && is_prefix (p ∷ ps) (k ∷ ks))
  unfolding descend
  loop_step p k ps ks (node c q m) ih =
      let next =
        descend no_payload touch finish ps (touch (or_default no_payload (get_child p c))) in
      let old = loop_child k ks (node c q m) in
      loop_child k ks (node (set_child p next c) q m)
      ∙ rw (get-set_child k p next c) (elim (Bool-cases (p == k)) [
        | inr other ↦ ground (arith, other, old)
        | inl here ↦ rw here (
            ih (touch (or_default no_payload (get_child p c)))
            ∙ ap (λ b. b || mark && is_prefix ps ks)
                (marked_next ks (get_child p c)
                  ∙ ap (λ j. marked_child ks (get_child j c)) ((list_beq_iff p k).0 here)
                  ∙ sym old))
      ])

  marked_descend :
      (ps ks : List Text) (n : SuffixHostNode)
      → marked_from ks (descend no_payload touch finish ps n)
        ≡ (marked_from ks n || mark && is_prefix ps ks)
  unfolding descend matches_loop
  marked_descend [] ks (node c p m) =
      ground (arith, finish_dns p, loop_children ks (node c (finish p) m) (node c p m) refl)
  marked_descend (p ∷ ps) [] (node c q m) = ground arith
  marked_descend (p ∷ ps) (k ∷ ks) (node c q m) =
      ground (arith, loop_step p k ps ks (node c q m) (marked_descend ps ks))

  -- The root itself is no label of a host.
  loop_descend :
      (ps ks : List Text) (n : SuffixHostNode)
      → ps ≢ []
      → matches_loop ks (descend no_payload touch finish ps n)
        ≡ (matches_loop ks n || mark && is_prefix ps ks)
  unfolding descend matches_loop
  loop_descend [] ks n ne = absurd (ne refl)
  loop_descend (p ∷ ps) [] (node c q m) ne = ground arith
  loop_descend (p ∷ ps) (k ∷ ks) n ne = loop_step p k ps ks n (marked_descend ps ks)

-- A host matches after a mark if it did before, or if it is the suffix that is marked or ends with a
-- dot and that suffix.
pub matches-mark_dns :
    (root : SuffixHostNode) (suffix host : Text)
    → matches (mark_dns root suffix) host ≡ (matches root host || has_piece_suffix b'.' host suffix)
unfolding mark_dns matches
matches-mark_dns root suffix host =
    loop_descend (λ n. n) set_dns true (λ n. refl) (λ n. refl) (λ p. ground arith)
      (rsplit b'.' suffix) (rsplit b'.' host) root (rsplit-ne b'.' suffix)
    ∙ ap (λ b. matches root host || b) (is_prefix-has_piece_suffix b'.' suffix host)

-- A rule marks no host: its insertion leaves the hosts that match as they were.
pub matches-insert_rule :
    (root : SuffixHostNode) (suffix : Text) (index : ℕ) (host : Text)
    → matches (insert_rule root suffix index) host ≡ matches root host
unfolding insert_rule matches
matches-insert_rule root suffix index host =
    loop_descend (note_index index) (push_rule index) false (note-payload index)
      (note-children index) (λ p. ground arith) (rsplit b'.' suffix) (rsplit b'.' host)
      (note_index index root) (rsplit-ne b'.' suffix)
    ∙ ground (
      arith,
      loop_children (rsplit b'.' host) (note_index index root) root (note-children index root),
    )
