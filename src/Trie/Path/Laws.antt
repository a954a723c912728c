-- ===== src/Trie/Path/Laws.antt =====
-- The visits of the path trie in src/rules/pool/trie.rs, and `path_has_prefix`.
use any_mirror.Common.{
  if◌then◌else◌, nat_beq_iff, All, ◌==◌, nat_eq, pair_eq, list_eq, option_eq, ℕ, ◌+◌, ◌≡◌, refl,
  sym, ap, ap₂, ◌∙◌, ◌≢◌, true, ◌||◌, Option, none, some, List, [], ◌∷◌, arith,
}
use any_mirror.Text.{Text, ends_with, starts_with, strip_prefix}
use any_mirror.Trie.Cutoff.{
  update_min_rule_index, should_skip_index, should_skip_subtree, count, visited_once, Bounds,
  Bounds-update,
}
use any_mirror.Trie.Nodes.{note_index}
use any_mirror.Trie.Nodes.Pruning.{
  IsBounded, Payload, note-IsBounded, noted-Bounds, descend-IsBounded,
}
use any_mirror.Trie.Nodes.Visit.{
  below_children, visit-all_below, hit, hit_below, count-below_descend, note-payload, note-children,
}
use any_mirror.Trie.Path.{
  PrefixTerminal, PrefixPathNode, empty_trie, push_terminal, insert, at_boundary, visit_terminals,
  visit_matches,
}
use any_mirror.Rules.Matching.{path_has_prefix}
use any_mirror.Rules.Matching.Laws.{begins_segment, segment_match, slash_ends, path_has_prefix_lem}

abbrev pub Covers : Option ℕ → List PrefixTerminal → Type 0
Covers m terminals = All (λ t. Bounds m t.index) terminals

-- What a terminal adds to the visits, given the bytes that follow.
abbrev pub terminal_visits : ℕ → Option ℕ → PrefixTerminal → Text → ℕ
terminal_visits i cutoff_index t rest =
    if t.matches_descendants || begins_segment rest then visited_once i t.index cutoff_index else 0

at_boundary-begins : (rest : Text) → at_boundary rest ≡ begins_segment rest
at_boundary-begins [] = refl
at_boundary-begins (c ∷ cs) = refl

count-push :
    (i : ℕ) (cutoff_index : Option ℕ) (t : PrefixTerminal) (rest : Text)
    (terminals : List PrefixTerminal)
    → count i (visit_terminals cutoff_index rest (push_terminal t terminals))
      ≡ count i (visit_terminals cutoff_index rest terminals)
        + terminal_visits i cutoff_index t rest
unfolding visit_terminals
count-push i cutoff_index t rest [] = ground (arith, at_boundary-begins rest)
count-push i cutoff_index t rest (u ∷ us) = ground (arith, count-push i cutoff_index t rest us)

skip_terminal :
    (cutoff_index m : Option ℕ) (index : ℕ)
    → Bounds m index
    → should_skip_subtree m cutoff_index ≡ true
    → should_skip_index index cutoff_index ≡ true
unfolding should_skip_index should_skip_subtree
skip_terminal cutoff_index none index b s = absurd b
skip_terminal none (some m) index b s = s
skip_terminal (some cutoff) (some m) index b s = ground arith

skip_all :
    (cutoff_index m : Option ℕ) (ts : List PrefixTerminal) (rest : Text)
    → Covers m ts
    → should_skip_subtree m cutoff_index ≡ true
    → visit_terminals cutoff_index rest ts ≡ []
unfolding visit_terminals
skip_all cutoff_index m [] rest h s = refl
skip_all cutoff_index m (t ∷ ts) rest h s =
    rw (skip_terminal cutoff_index m t.index h.0 s) (skip_all cutoff_index m ts rest h.1 s)

Covers-update :
    (m : Option ℕ) (ts : List PrefixTerminal) (index : ℕ)
    → Covers m ts
    → Covers (update_min_rule_index m index) ts
Covers-update m [] index h = tt
Covers-update m (t ∷ ts) index h = (Bounds-update m index t.index h.0, Covers-update m ts index h.1)

Covers-push :
    (t : PrefixTerminal) (m : Option ℕ) (ts : List PrefixTerminal)
    → Covers m ts
    → Bounds m t.index
    → Covers m (push_terminal t ts)
Covers-push t m [] h b = (b, tt)
Covers-push t m (u ∷ us) h b = (h.0, Covers-push t m us h.1 b)

path-Payload :
    (cutoff_index : Option ℕ) → Payload Covers (visit_terminals cutoff_index) cutoff_index []
unfolding visit_terminals
path-Payload cutoff_index = record {
  skip_payload = λ m ts rest h s. skip_all cutoff_index m ts rest h s;
  Covers-update = Covers-update;
  Covers-empty = λ m. tt;
  emit-empty = λ rest. refl;
}

abbrev pub IsBoundedTrie : PrefixPathNode → Type 0
IsBoundedTrie root = IsBounded Covers root

pub empty-IsBoundedTrie : IsBoundedTrie empty_trie
empty-IsBoundedTrie = (tt, tt)

-- Every insertion keeps the bounds.
pub insert-IsBoundedTrie :
    (root : PrefixPathNode) (path : Text) (index : ℕ)
    → IsBoundedTrie root
    → IsBoundedTrie (insert root path index)
unfolding insert
insert-IsBoundedTrie root path index h =
    descend-IsBounded (path-Payload none) _ index path (note_index index root)
      (λ m ts c b. Covers-push _ m ts c b) (note-IsBounded (path-Payload none) index root h)
      (noted-Bounds (path-Payload none) index root)

hit-strip :
    (extra : Text → ℕ) (ps ks : Text)
    → hit extra ps ks ≡ elim (strip_prefix ks ps) [ none ↦ 0 | some rest ↦ extra rest ]
unfolding strip_prefix
hit-strip extra [] ks = refl
hit-strip extra (p ∷ ps) [] = refl
hit-strip extra (p ∷ ps) (k ∷ ks) =
    ground (arith, nat_beq_iff p k, nat_beq_iff k p, hit-strip extra ps ks)

terminal : Text → ℕ → PrefixTerminal
terminal path index = record {
  index = index;
  matches_descendants = path == b'/' ∷ [] || ends_with b'/' path;
}

module _ (i : ℕ) (cutoff_index : Option ℕ) (path : Text) (index : ℕ) where
  left_visits :
      (o : Option Text)
      → elim o [ none ↦ 0 | some rest ↦ terminal_visits i cutoff_index (terminal path index) rest ]
        ≡ (if segment_match path o then visited_once i index cutoff_index else 0)
  unfolding terminal
  left_visits none = refl
  left_visits (some rest) = ground (arith, slash_ends path)

  hit-prefix :
      (ks : Text)
      → path ≢ []
      → starts_with ks (b'/' ∷ []) ≡ true
      → hit_below (terminal_visits i cutoff_index (terminal path index)) path ks
        ≡ (if path_has_prefix ks path then visited_once i index cutoff_index else 0)
  hit-prefix ks ne slash =
      below ks path ne
      ∙ hit-strip (terminal_visits i cutoff_index (terminal path index)) path ks
      ∙ left_visits (strip_prefix ks path)
      ∙ ap (λ b. if b then visited_once i index cutoff_index else 0)
          (sym (path_has_prefix_lem ks path slash))
    where
      below :
          (ks path' : Text)
          → path' ≢ []
          → hit_below (terminal_visits i cutoff_index (terminal path index)) path' ks
            ≡ hit (terminal_visits i cutoff_index (terminal path index)) path' ks
      below ks [] ne = absurd (ne refl)
      below ks (p ∷ ps) ne = refl

-- In a bounded trie the insertion of a prefix that is not empty adds one visit of its index, below the
-- cutoff, for a path that has the prefix by `path_has_prefix`, and none for any other path that begins
-- with a slash.
pub visit-insert :
    (root : PrefixPathNode) (prefix : Text) (index : ℕ) (path : Text) (cutoff_index : Option ℕ)
    (i : ℕ)
    → IsBoundedTrie root
    → prefix ≢ []
    → starts_with path (b'/' ∷ []) ≡ true
    → count i (visit_matches (insert root prefix index) path cutoff_index)
      ≡ count i (visit_matches root path cutoff_index)
        + (if path_has_prefix path prefix then visited_once i index cutoff_index else 0)
unfolding insert visit_matches terminal
visit-insert root prefix index path cutoff_index i h ne slash =
    let emit = visit_terminals cutoff_index in
    let t = terminal prefix index in
    let law = path-Payload cutoff_index in
    ap (count i) (
      visit-all_below law path (insert root prefix index)
        (insert-IsBoundedTrie root prefix index h))
    ∙ count-below_descend emit [] (note_index index) (push_terminal t) i
        (terminal_visits i cutoff_index t) (law.emit-empty) (note-payload index)
        (note-children index) (λ rest ts. count-push i cutoff_index t rest ts) prefix path
        (note_index index root)
    ∙ ap₂ ◌+◌
        (ap (count i) (
          below_children emit path (note_index index root) root (note-children index root)
          ∙ sym (visit-all_below law path root h)))
        (hit-prefix i cutoff_index prefix index path ne slash)
