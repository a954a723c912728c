-- ===== src/Trie/Path.antt =====
-- src/rules/pool/trie.rs: `PrefixPathTrie`, a trie over the bytes of a path.
pub mod Laws
use any_mirror.Common.{
  if◌then◌else◌, ◌==◌, nat_eq, pair_eq, list_eq, option_eq, ℕ, Bool, true, ◌||◌, Option, List, [],
  ◌∷◌, ◌++◌,
}
use any_mirror.Text.{Text, ends_with}
use any_mirror.Trie.Cutoff.{should_skip_index}
use any_mirror.Trie.Nodes.{Node, note_index, default, descend, walk, visit}

pub record PrefixTerminal : Type 0 where
  pub index : ℕ
  pub matches_descendants : Bool

abbrev pub PrefixPathNode : Type 0
PrefixPathNode = Node ℕ (List PrefixTerminal)

abbrev pub empty_trie : PrefixPathNode
empty_trie = default []

abbrev pub push_terminal : PrefixTerminal → List PrefixTerminal → List PrefixTerminal
push_terminal t terminals = terminals ++ t ∷ []

unfoldable pub insert : PrefixPathNode → Text → ℕ → PrefixPathNode
unfolding descend
insert root path index =
    descend [] (note_index index)
      (push_terminal
        (record { index = index; matches_descendants = path == b'/' ∷ [] || ends_with b'/' path }))
      path (note_index index root)

-- `matches!(next_byte, None | Some(b'/'))`
abbrev pub at_boundary : Text → Bool
at_boundary [] = true
at_boundary (c ∷ cs) = c == b'/'

-- The inner loop of `visit_matches`, with the bytes that follow.
unfoldable pub visit_terminals : Option ℕ → Text → List PrefixTerminal → List ℕ
visit_terminals cutoff_index rest [] = []
visit_terminals cutoff_index rest (t ∷ ts) =
    if should_skip_index t.index cutoff_index
    then visit_terminals cutoff_index rest ts
    else (if t.matches_descendants || at_boundary rest
        then t.index ∷ visit_terminals cutoff_index rest ts
        else visit_terminals cutoff_index rest ts)

unfoldable pub visit_matches : PrefixPathNode → Text → Option ℕ → List ℕ
unfolding visit_terminals walk
visit_matches root path cutoff_index = visit (visit_terminals cutoff_index) cutoff_index path root
