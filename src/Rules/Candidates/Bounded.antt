-- ===== src/Rules/Candidates/Bounded.antt =====
-- The bounds of the tries of an index in src/rules/pool/compiled.rs while it is compiled.
use any_mirror.Common.{
  nat_eq, pair_eq, list_eq, option_eq, ip_eq, ℕ, ◌≡◌, refl, ◌∙◌, none, List, [], ◌∷◌,
}
use any_mirror.HashMap.{get}
use any_mirror.Text.{Text}
use any_mirror.Rules.Model.{
  net_v4, net_v6, HostPattern, exact_host, any_of, suffix, IpPattern, exact_ip, cidr, RuleMatcher,
  exact_url, prefix_url, host_matcher, ip_matcher,
}
use any_mirror.Rules.Compiled.{
  origin_eq, exact_url_eq, CompiledRuleIndex, origin_from_url, RuleDnsKeys, index_host, index_ip,
  index_matcher, mark_all, note_dns, empty_index,
}
use any_mirror.Rules.Candidates.Maps.{insert_prefix-IsBoundedSlot}
use any_mirror.Rules.Candidates.Step.{IsIndexed}
use any_mirror.Trie.Cutoff.{count}
use any_mirror.Trie.Cidr.{insert_v4, insert_v6}
use any_mirror.Trie.Cidr.Pruning.{default-IsBounded, insert-IsBounded}
use any_mirror.Trie.Host.{SuffixHostNode, mark_dns, visit_rule_matches}
use any_mirror.Trie.Host.Laws.{
  IsBoundedTrie, empty-IsBoundedTrie, insert_rule-IsBoundedTrie, mark_dns-IsBoundedTrie,
  visit-mark_dns,
}
use any_mirror.Trie.Host.Laws as HostLaws

mark_all-IsBoundedTrie :
    (suffixes : List Text) (n : SuffixHostNode)
    → HostLaws.IsBoundedTrie n
    → HostLaws.IsBoundedTrie (mark_all suffixes n)
unfolding mark_all
mark_all-IsBoundedTrie [] n h = h
mark_all-IsBoundedTrie (s ∷ suffixes) n h =
    mark_all-IsBoundedTrie suffixes (mark_dns n s) (mark_dns-IsBoundedTrie n s h)

pub visit-mark_all :
    (suffixes : List Text) (n : SuffixHostNode) (name : Text) (i : ℕ)
    → HostLaws.IsBoundedTrie n
    → count i (visit_rule_matches (mark_all suffixes n) name none)
      ≡ count i (visit_rule_matches n name none)
unfolding mark_all
visit-mark_all [] n name i h = refl
visit-mark_all (s ∷ suffixes) n name i h =
    visit-mark_all suffixes (mark_dns n s) name i (mark_dns-IsBoundedTrie n s h)
    ∙ visit-mark_dns n s name none i h

index_host-IsIndexed :
    (index : ℕ) (pattern : HostPattern) (c : CompiledRuleIndex)
    → IsIndexed c
    → IsIndexed (index_host index pattern c)
unfolding index_host
index_host-IsIndexed index (exact_host key) c h = record {
  prefixes_bounded = h.prefixes_bounded;
  hosts_bounded = h.hosts_bounded;
  v4_bounded = h.v4_bounded;
  v6_bounded = h.v6_bounded;
}
index_host-IsIndexed index (any_of keys) c h = record {
  prefixes_bounded = h.prefixes_bounded;
  hosts_bounded = h.hosts_bounded;
  v4_bounded = h.v4_bounded;
  v6_bounded = h.v6_bounded;
}
index_host-IsIndexed index (suffix s) c h = record {
  prefixes_bounded = h.prefixes_bounded;
  hosts_bounded = insert_rule-IsBoundedTrie c.suffix_hosts s index h.hosts_bounded;
  v4_bounded = h.v4_bounded;
  v6_bounded = h.v6_bounded;
}

index_ip-IsIndexed :
    (index : ℕ) (pattern : IpPattern) (c : CompiledRuleIndex)
    → IsIndexed c
    → IsIndexed (index_ip index pattern c)
unfolding index_ip insert_v4 insert_v6
index_ip-IsIndexed index (exact_ip a) c h = record {
  prefixes_bounded = h.prefixes_bounded;
  hosts_bounded = h.hosts_bounded;
  v4_bounded = h.v4_bounded;
  v6_bounded = h.v6_bounded;
}
index_ip-IsIndexed index (cidr (net_v4 n)) c h = record {
  prefixes_bounded = h.prefixes_bounded;
  hosts_bounded = h.hosts_bounded;
  v4_bounded = insert-IsBounded c.ipv4_cidr_ips n.network n.prefix_len 32 index h.v4_bounded;
  v6_bounded = h.v6_bounded;
}
index_ip-IsIndexed index (cidr (net_v6 n)) c h = record {
  prefixes_bounded = h.prefixes_bounded;
  hosts_bounded = h.hosts_bounded;
  v4_bounded = h.v4_bounded;
  v6_bounded = insert-IsBounded c.ipv6_cidr_ips n.network n.prefix_len 128 index h.v6_bounded;
}

pub index_matcher-IsIndexed :
    (index : ℕ) (m : RuleMatcher) (c : CompiledRuleIndex)
    → IsIndexed c
    → IsIndexed (index_matcher index m c)
unfolding index_matcher
index_matcher-IsIndexed index (exact_url origin) c h = record {
  prefixes_bounded = h.prefixes_bounded;
  hosts_bounded = h.hosts_bounded;
  v4_bounded = h.v4_bounded;
  v6_bounded = h.v6_bounded;
}
index_matcher-IsIndexed index (prefix_url origin) c h = record {
  prefixes_bounded = λ key.
      insert_prefix-IsBoundedSlot origin.path index key (origin_from_url origin) c.prefix_origins
        h.prefixes_bounded;
  hosts_bounded = h.hosts_bounded;
  v4_bounded = h.v4_bounded;
  v6_bounded = h.v6_bounded;
}
index_matcher-IsIndexed index (host_matcher m) c h = index_host-IsIndexed index m.pattern c h
index_matcher-IsIndexed index (ip_matcher m) c h = index_ip-IsIndexed index m.pattern c h

pub note_dns-IsIndexed :
    (keys : RuleDnsKeys) (c : CompiledRuleIndex) → IsIndexed c → IsIndexed (note_dns keys c)
unfolding note_dns
note_dns-IsIndexed keys c h = record {
  prefixes_bounded = h.prefixes_bounded;
  hosts_bounded = mark_all-IsBoundedTrie keys.suffix_hosts c.suffix_hosts h.hosts_bounded;
  v4_bounded = h.v4_bounded;
  v6_bounded = h.v6_bounded;
}

pub empty-IsIndexed : IsIndexed empty_index
unfolding get
empty-IsIndexed = record {
  prefixes_bounded = λ key. tt;
  hosts_bounded = HostLaws.empty-IsBoundedTrie;
  v4_bounded = default-IsBounded;
  v6_bounded = default-IsBounded;
}
