-- ===== src/Trie/Tests.antt =====
-- The tries of src/rules/pool/trie.rs on small inputs.
use any_mirror.Common.{
  if◌then◌else◌, All, nat_eq, pair_eq, list_eq, option_eq, ℕ, ◌+◌, ◌*◌, ◌^◌, ◌≡◌, refl, ◌||◌, none,
  some, List, [], ◌∷◌, arith,
}
use any_mirror.Text.{Text, codes, ends_with, starts_with, rsplit}
use any_mirror.Text.Pieces.{has_piece_suffix}
use any_mirror.Rules.Matching.{path_has_prefix}
use any_mirror.Trie.Cutoff.{
  update_min_rule_index, should_skip_index, should_skip_subtree, visit_terminal_indices, count,
  visited_once,
}
use any_mirror.Trie.Nodes.{note_index, get_child, set_child}
use any_mirror.Trie.Cidr.{
  child, unbox_or_default, push_terminal, cidr_bit, insert_loop, insert_cidr, visit_loop,
  visit_cidr_matches, Cidr,
}
use any_mirror.Trie.Cidr.Contains.{IsCidr, insert_all, containing, visit-insert_all}
use any_mirror.Trie.Path.{empty_trie, insert, visit_matches}
use any_mirror.Trie.Path as PathTrie
use any_mirror.Trie.Cidr as Networks
use any_mirror.Trie.Path.Laws.{empty-IsBoundedTrie, visit-insert}
use any_mirror.Trie.Path.Laws as PathLaws
use any_mirror.Trie.Host.{insert_rule, mark_dns, visit_rule_matches, matches}
use any_mirror.Trie.Host as Host
use any_mirror.Trie.Host.Laws.{insert_rule-IsBoundedTrie, visit-insert_rule, visit-mark_dns}
use any_mirror.Trie.Host.Laws as HostLaws
use any_mirror.Trie.Host.Dns.{matches-mark_dns, matches-insert_rule}

program : Unit {0}
unfolding visit_cidr_matches insert_all insert_cidr insert_loop visit_loop child Networks.set_child
    Networks.note_index Networks.push_terminal cidr_bit unbox_or_default insert visit_matches
    should_skip_subtree note_index update_min_rule_index get_child set_child should_skip_index
    ends_with visit_terminal_indices rsplit insert_rule mark_dns visit_rule_matches
program = tt

-- 10.0.0.0/8 and 10.128.0.0/9, and an address in both.
abbrev networks : List (Cidr × ℕ)
networks =
    (record { network = 10 * 2 ^ 24; prefix_len = 8 }, 0)
    ∷ (record { network = 10 * 2 ^ 24 + 128 * 2 ^ 16; prefix_len = 9 }, 3)
    ∷ []

abbrev address : ℕ
address = 10 * 2 ^ 24 + 129 * 2 ^ 16 + 7

networks-IsCidr : All (λ e. IsCidr 32 e.0) networks
networks-IsCidr = (
  record { prefix_fits = omega arith; network_fits = omega arith },
  (record { prefix_fits = omega arith; network_fits = omega arith }, tt),
)

visits_both :
    visit_cidr_matches (insert_all 32 Networks.default networks) address 32 none ≡ 0 ∷ 3 ∷ []
unfolding program
visits_both = refl

visits_before_cutoff :
    visit_cidr_matches (insert_all 32 Networks.default networks) address 32 (some 3) ≡ 0 ∷ []
unfolding program
visits_before_cutoff = refl

visit-insert_all_example :
    count 3 (visit_cidr_matches (insert_all 32 Networks.default networks) address 32 none)
    ≡ count 3 (containing 32 address none networks)
visit-insert_all_example = visit-insert_all 32 address none networks (omega arith) networks-IsCidr 3

abbrev api : Text
api = codes "/api"

abbrev api_users : Text
api_users = codes "/api/users"

visits_descendant : visit_matches (insert PathTrie.empty_trie api 4) api_users none ≡ 4 ∷ []
unfolding program
visits_descendant = refl

visits_no_sibling : visit_matches (insert PathTrie.empty_trie api 4) (codes "/apis") none ≡ []
unfolding program
visits_no_sibling = refl

visit-insert_example :
    count 4 (visit_matches (insert PathTrie.empty_trie api 4) api_users none)
    ≡ count 4 (visit_matches PathTrie.empty_trie api_users none)
      + (if path_has_prefix api_users api then visited_once 4 4 none else 0)
unfolding starts_with
visit-insert_example =
    visit-insert PathTrie.empty_trie api 4 api_users none 4 PathLaws.empty-IsBoundedTrie
      (λ h. ground (arith, h)) refl

abbrev suffix : Text
suffix = codes "example.com"

abbrev host : Text
host = codes "www.example.com"

visits_suffix :
    visit_rule_matches (insert_rule (mark_dns Host.empty_trie suffix) suffix 2) host none ≡ 2 ∷ []
unfolding program
visits_suffix = refl

visits_no_other_label :
    visit_rule_matches (insert_rule Host.empty_trie suffix 2) (codes "badexample.com") none ≡ []
unfolding program
visits_no_other_label = refl

visit-insert_rule_example :
    count 2 (visit_rule_matches (insert_rule Host.empty_trie suffix 2) host none)
    ≡ count 2 (visit_rule_matches Host.empty_trie host none)
      + (if has_piece_suffix b'.' host suffix then visited_once 2 2 none else 0)
visit-insert_rule_example =
    visit-insert_rule Host.empty_trie suffix 2 host none 2 HostLaws.empty-IsBoundedTrie

visit-mark_dns_example :
    count 2 (visit_rule_matches (mark_dns (insert_rule Host.empty_trie suffix 2) suffix) host none)
    ≡ count 2 (visit_rule_matches (insert_rule Host.empty_trie suffix 2) host none)
visit-mark_dns_example =
    visit-mark_dns (insert_rule Host.empty_trie suffix 2) suffix host none 2
      (insert_rule-IsBoundedTrie Host.empty_trie suffix 2 HostLaws.empty-IsBoundedTrie)

matches-mark_dns_example :
    matches (mark_dns Host.empty_trie suffix) host
    ≡ (matches Host.empty_trie host || has_piece_suffix b'.' host suffix)
matches-mark_dns_example = matches-mark_dns Host.empty_trie suffix host

matches-insert_rule_example :
    matches (insert_rule (mark_dns Host.empty_trie suffix) (codes "com") 5) host
    ≡ matches (mark_dns Host.empty_trie suffix) host
matches-insert_rule_example =
    matches-insert_rule (mark_dns Host.empty_trie suffix) (codes "com") 5 host
