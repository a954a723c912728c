-- ===== src/Trie/Host/Laws.antt =====
-- The host trie of src/rules/pool/trie.rs: the rules and the DNS marks of the suffixes of a host.
use any_mirror.Common.{
  if◌then◌else◌, All, nat_eq, pair_eq, list_eq, option_eq, ℕ, ◌+◌, ◌≡◌, refl, sym, ap, ap₂, ◌∙◌,
  ◌≢◌, Option, none, List, [], ◌∷◌, arith,
}
use any_mirror.Text.{Text, rsplit}
use any_mirror.Text.Pieces.{is_prefix, has_piece_suffix, is_prefix-has_piece_suffix, rsplit-ne}
use any_mirror.Trie.Cutoff.{
  visit_terminal_indices, count, visited_once, count-visit_push, Bounds, skip_terminals, All-push,
  All-update,
}
use any_mirror.Trie.Nodes.{note_index}
use any_mirror.Trie.Nodes.Pruning.{
  IsBounded, Payload, note-IsBounded, noted-Bounds, descend-IsBounded, unnoted-IsBounded,
}
use any_mirror.Trie.Nodes.Visit.{
  below_children, visit-all_below, hit, hit_below, count-below_descend, note-payload, note-children,
}
use any_mirror.Trie.Host.{
  HostPayload, SuffixHostNode, no_payload, empty_trie, push_rule, insert_rule, set_dns, mark_dns,
  emit_rules, visit_rule_matches,
}

abbrev pub Covers : Option ℕ → HostPayload → Type 0
Covers m p = All (Bounds m) p.rule_indices

host-Payload :
    (cutoff_index : Option ℕ) → Payload Covers (emit_rules cutoff_index) cutoff_index no_payload
unfolding visit_terminal_indices
host-Payload cutoff_index = record {
  skip_payload = λ m p rest h s. skip_terminals m cutoff_index p.rule_indices h s;
  Covers-update = λ m p index h. All-update m p.rule_indices index h;
  Covers-empty = λ m. tt;
  emit-empty = λ rest. refl;
}

abbrev pub IsBoundedTrie : SuffixHostNode → Type 0
IsBoundedTrie root = IsBounded Covers root

pub empty-IsBoundedTrie : IsBoundedTrie empty_trie
empty-IsBoundedTrie = (tt, tt)

-- Both insertions keep the bounds.
pub insert_rule-IsBoundedTrie :
    (root : SuffixHostNode) (suffix : Text) (index : ℕ)
    → IsBoundedTrie root
    → IsBoundedTrie (insert_rule root suffix index)
unfolding insert_rule
insert_rule-IsBoundedTrie root suffix index h =
    descend-IsBounded (host-Payload none) _ index (rsplit b'.' suffix) (note_index index root)
      (λ m p c b. All-push m p.rule_indices index c b)
      (note-IsBounded (host-Payload none) index root h)
      (noted-Bounds (host-Payload none) index root)

pub mark_dns-IsBoundedTrie :
    (root : SuffixHostNode) (suffix : Text)
    → IsBoundedTrie root
    → IsBoundedTrie (mark_dns root suffix)
unfolding mark_dns
mark_dns-IsBoundedTrie root suffix h =
    unnoted-IsBounded (host-Payload none) set_dns (rsplit b'.' suffix) root (λ m p c. c) h

-- `hit` with a constant is a test for a prefix of keys.
hit-is_prefix :
    (c : ℕ) (ps ks : List Text) → hit (λ _. c) ps ks ≡ (if is_prefix ps ks then c else 0)
hit-is_prefix c [] ks = refl
hit-is_prefix c (p ∷ ps) [] = refl
hit-is_prefix c (p ∷ ps) (k ∷ ks) = ground (arith, hit-is_prefix c ps ks)

hit-rsplit :
    (c : ℕ) (suffix host : Text)
    → hit_below (λ _. c) (rsplit b'.' suffix) (rsplit b'.' host)
      ≡ (if has_piece_suffix b'.' host suffix then c else 0)
hit-rsplit c suffix host =
    below (rsplit b'.' suffix) (rsplit-ne b'.' suffix)
    ∙ hit-is_prefix c (rsplit b'.' suffix) (rsplit b'.' host)
    ∙ ap (λ b. if b then c else 0) (is_prefix-has_piece_suffix b'.' suffix host)
  where
    below :
        (ps : List Text)
        → ps ≢ []
        → hit_below (λ _. c) ps (rsplit b'.' host) ≡ hit (λ _. c) ps (rsplit b'.' host)
    below [] ne = absurd (ne refl)
    below (p ∷ ps) ne = refl

-- In a bounded trie the insertion of a rule for a suffix adds one visit of its index, below the
-- cutoff, for a host that is the suffix or ends with a dot and the suffix, and none for any other.
pub visit-insert_rule :
    (root : SuffixHostNode) (suffix : Text) (index : ℕ) (host : Text) (cutoff_index : Option ℕ)
    (i : ℕ)
    → IsBoundedTrie root
    → count i (visit_rule_matches (insert_rule root suffix index) host cutoff_index)
      ≡ count i (visit_rule_matches root host cutoff_index)
        + (if has_piece_suffix b'.' host suffix then visited_once i index cutoff_index else 0)
unfolding insert_rule visit_rule_matches
visit-insert_rule root suffix index host cutoff_index i h =
    let emit = emit_rules cutoff_index in
    let law = host-Payload cutoff_index in
    let labels = rsplit b'.' host in
    ap (count i) (
      visit-all_below law labels (insert_rule root suffix index)
        (insert_rule-IsBoundedTrie root suffix index h))
    ∙ count-below_descend emit no_payload (note_index index) (push_rule index) i
        (λ _. visited_once i index cutoff_index) law.emit-empty (note-payload index)
        (note-children index) (λ rest p. count-visit_push i p.rule_indices index cutoff_index)
        (rsplit b'.' suffix) labels (note_index index root)
    ∙ ap₂ ◌+◌
        (ap (count i) (
          below_children emit labels (note_index index root) root (note-children index root)
          ∙ sym (visit-all_below law labels root h)))
        (hit-rsplit (visited_once i index cutoff_index) suffix host)

hit-zero : (ps ks : List Text) → hit_below (λ _. 0) ps ks ≡ 0
hit-zero [] ks = refl
hit-zero (p ∷ ps) ks = hit-is_prefix 0 (p ∷ ps) ks ∙ ground arith

-- In a bounded trie a DNS mark changes no count of the visits of a rule.
pub visit-mark_dns :
    (root : SuffixHostNode) (suffix host : Text) (cutoff_index : Option ℕ) (i : ℕ)
    → IsBoundedTrie root
    → count i (visit_rule_matches (mark_dns root suffix) host cutoff_index)
      ≡ count i (visit_rule_matches root host cutoff_index)
unfolding mark_dns visit_rule_matches
visit-mark_dns root suffix host cutoff_index i h =
    let emit = emit_rules cutoff_index in
    let law = host-Payload cutoff_index in
    let labels = rsplit b'.' host in
    ap (count i)
      (visit-all_below law labels (mark_dns root suffix) (mark_dns-IsBoundedTrie root suffix h))
    ∙ count-below_descend emit no_payload (λ n. n) set_dns i (λ _. 0) law.emit-empty (λ n. refl)
        (λ n. refl) (λ rest p. omega arith) (rsplit b'.' suffix) labels root
    ∙ omega (
      arith,
      hit-zero (rsplit b'.' suffix) labels,
      ap (count i) (visit-all_below law labels root h),
    )
