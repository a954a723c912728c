-- ===== src/Trie/Host.antt =====
-- src/rules/pool/trie.rs: `SuffixHostTrie`, a trie over the labels of a host, last label first.
pub mod Laws
pub mod Dns
use any_mirror.Common.{
  if◌then◌else◌, nat_eq, pair_eq, list_eq, option_eq, ℕ, Bool, true, false, Option, none, some,
  List, [], ◌∷◌, ◌++◌,
}
use any_mirror.Text.{Text, rsplit}
use any_mirror.Trie.Cutoff.{visit_terminal_indices}
use any_mirror.Trie.Nodes.{
  Node, payload, children_of, note_index, get_child, default, descend, walk, visit,
}

pub record HostPayload : Type 0 where
  pub rule_indices : List ℕ
  pub dns_terminal : Bool

abbrev pub SuffixHostNode : Type 0
SuffixHostNode = Node Text HostPayload

abbrev pub no_payload : HostPayload
no_payload = record { rule_indices = []; dns_terminal = false }

abbrev pub empty_trie : SuffixHostNode
empty_trie = default no_payload

abbrev pub push_rule : ℕ → HostPayload → HostPayload
push_rule index p = record p { rule_indices = p.rule_indices ++ index ∷ [] }

unfoldable pub insert_rule : SuffixHostNode → Text → ℕ → SuffixHostNode
unfolding descend
insert_rule root suffix index =
    descend no_payload (note_index index) (push_rule index) (rsplit b'.' suffix)
      (note_index index root)

abbrev pub set_dns : HostPayload → HostPayload
set_dns p = record p { dns_terminal = true }

-- No rule index is noted on the way.
unfoldable pub mark_dns : SuffixHostNode → Text → SuffixHostNode
unfolding descend
mark_dns root suffix = descend no_payload (λ n. n) set_dns (rsplit b'.' suffix) root

abbrev pub emit_rules : Option ℕ → List Text → HostPayload → List ℕ
emit_rules cutoff_index rest p = visit_terminal_indices p.rule_indices cutoff_index

unfoldable pub visit_rule_matches : SuffixHostNode → Text → Option ℕ → List ℕ
unfolding walk
visit_rule_matches root host cutoff_index =
    visit (emit_rules cutoff_index) cutoff_index (rsplit b'.' host) root

-- The loop of `matches`.
unfoldable pub matches_loop : List Text → SuffixHostNode → Bool
matches_loop [] n = false
matches_loop (label ∷ labels) n = elim (get_child label (children_of n)) [
  | none ↦ false
  | some next ↦
      let rest = matches_loop labels next in if (payload next).dns_terminal then true else rest
]

unfoldable pub matches : SuffixHostNode → Text → Bool
unfolding matches_loop
matches root host = matches_loop (rsplit b'.' host) root
