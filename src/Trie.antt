-- ===== src/Trie.antt =====
-- src/rules/pool/trie.rs: the three tries of the compiled rule index. A visitor is the list of the
-- indices that it is called with; `min_rule_index` prunes subtrees by a cutoff.
pub mod Cutoff
pub mod Cidr
pub mod Nodes
pub mod Path
pub mod Host
mod Tests
