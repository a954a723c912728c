-- ===== src/Rules/Candidates/Step.antt =====
-- What the compilation of one rule in src/rules/pool/compiled.rs adds to the candidates of a request.
use any_mirror.Common.{
  if◌then◌else◌, ◌==◌, nat_eq, pair_eq, list_eq, option_eq, IpAddr, v4, v6, ip_eq, ℕ, ◌+◌, ◌^◌, ◌<◌,
  ◌≡◌, ap₂, ◌∙◌, ◌≢◌, Option, none, some, List, [], ◌∷◌, arith,
}
use any_mirror.HashMap.{HashMap, get}
use any_mirror.Text.{Text}
use any_mirror.Rules.Model.{
  net_v4, net_v6, HostPattern, exact_host, any_of, suffix, IpPattern, exact_ip, cidr, RuleMatcher,
  exact_url, prefix_url, host_matcher, ip_matcher,
}
use any_mirror.Rules.Compiled.{
  OriginKey, origin_eq, exact_url_eq, CompiledRuleIndex, push_entry, push_entries, index_host,
  index_ip,
}
use any_mirror.Rules.Runtime.{indices_of, host_candidates, ip_candidates}
use any_mirror.Rules.Candidates.{host_count, host_occurrences, ip_occurrences}
use any_mirror.Rules.Candidates.Maps.{once, once-visited, count-push_entry, IsBoundedSlot}
use any_mirror.Trie.Cutoff.{count, count-append}
use any_mirror.Trie.Cidr.{CidrNode, Cidr, insert_v4, visit_matches_v4, insert_v6, visit_matches_v6}
use any_mirror.Trie.Cidr.Pruning.{IsBounded}
use any_mirror.Trie.Cidr.Pruning as Cidrs
use any_mirror.Trie.Cidr.Visit.{count-insert}
use any_mirror.Trie.Cidr.Contains.{in_network, agree-in_network, IsCidr}
use any_mirror.Trie.Host.{visit_rule_matches}
use any_mirror.Trie.Host.Laws.{IsBoundedTrie, visit-insert_rule}
use any_mirror.Trie.Host.Laws as HostLaws

-- The tries of an index are bounded.
pub record IsIndexed (c : CompiledRuleIndex) : Type 0 where
  pub prefixes_bounded : (key : OriginKey) → IsBoundedSlot (get key c.prefix_origins)
  pub hosts_bounded : HostLaws.IsBoundedTrie c.suffix_hosts
  pub v4_bounded : Cidrs.IsBounded c.ipv4_cidr_ips
  pub v6_bounded : Cidrs.IsBounded c.ipv6_cidr_ips

-- The path of a URL is not empty, and a network has the width of its family.
abbrev pub IsFitPattern : IpPattern → Type 0
IsFitPattern (exact_ip a) = Unit
IsFitPattern (cidr (net_v4 n)) = IsCidr 32 n
IsFitPattern (cidr (net_v6 n)) = IsCidr 128 n

abbrev pub IsFitMatcher : RuleMatcher → Type 0
IsFitMatcher (exact_url origin) = Unit
IsFitMatcher (prefix_url origin) = origin.path ≢ []
IsFitMatcher (host_matcher m) = Unit
IsFitMatcher (ip_matcher m) = IsFitPattern m.pattern

abbrev pub IsFitAddress : Option IpAddr → Type 0
IsFitAddress none = Unit
IsFitAddress (some (v4 a)) = a < 2 ^ 32
IsFitAddress (some (v6 a)) = a < 2 ^ 128

module _ (i index : ℕ) where
  count-push_entries :
      (name : Text) (keys : List Text) (m : HashMap Text (List ℕ))
      → count i (indices_of (get name (push_entries keys index m)))
        ≡ count i (indices_of (get name m)) + (if index == i then host_count name keys else 0)
  unfolding push_entries
  count-push_entries name [] m = ground arith
  count-push_entries name (key ∷ keys) m = ground (
    arith,
    count-push_entries name keys (push_entry key index m),
    count-push_entry i index name key m,
  )

  -- The candidates for a host are those of the two indices of hosts.
  host_parts :
      (c : CompiledRuleIndex) (name : Text)
      → count i (host_candidates c (some name))
        ≡ count i (indices_of (get name c.exact_hosts))
          + count i (visit_rule_matches c.suffix_hosts name none)
  host_parts c name =
      count-append i (indices_of (get name c.exact_hosts))
        (visit_rule_matches c.suffix_hosts name none)

  pub count-index_host :
      (pattern : HostPattern) (c : CompiledRuleIndex) (host : Option Text)
      → IsIndexed c
      → count i (host_candidates (index_host index pattern c) host)
        ≡ count i (host_candidates c host)
          + (if index == i then host_occurrences pattern host else 0)
  unfolding index_host
  count-index_host pattern c none h = ground arith
  count-index_host (exact_host key) c (some name) h = ground (
    arith,
    host_parts c name,
    host_parts (index_host index (exact_host key) c) name,
    count-push_entry i index name key c.exact_hosts,
  )
  count-index_host (any_of keys) c (some name) h = ground (
    arith,
    host_parts c name,
    host_parts (index_host index (any_of keys) c) name,
    count-push_entries name keys c.exact_hosts,
  )
  count-index_host (suffix s) c (some name) h = ground (
    arith,
    host_parts c name,
    host_parts (index_host index (suffix s) c) name,
    visit-insert_rule c.suffix_hosts s index name none i h.hosts_bounded,
    once-visited i index,
  )

  v4_parts :
      (c : CompiledRuleIndex) (a : ℕ)
      → count i (ip_candidates c (some (v4 a)))
        ≡ count i (indices_of (get (v4 a) c.exact_ips))
          + count i (visit_matches_v4 c.ipv4_cidr_ips a none)
  v4_parts c a =
      count-append i (indices_of (get (v4 a) c.exact_ips)) (visit_matches_v4 c.ipv4_cidr_ips a none)

  v6_parts :
      (c : CompiledRuleIndex) (a : ℕ)
      → count i (ip_candidates c (some (v6 a)))
        ≡ count i (indices_of (get (v6 a) c.exact_ips))
          + count i (visit_matches_v6 c.ipv6_cidr_ips a none)
  v6_parts c a =
      count-append i (indices_of (get (v6 a) c.exact_ips)) (visit_matches_v6 c.ipv6_cidr_ips a none)

  count-insert_v4 :
      (root : CidrNode) (n : Cidr) (a : ℕ)
      → Cidrs.IsBounded root
      → IsCidr 32 n
      → a < 2 ^ 32
      → count i (visit_matches_v4 (insert_v4 root n index) a none)
        ≡ count i (visit_matches_v4 root a none) + (if in_network 32 n a then once i index else 0)
  unfolding insert_v4 visit_matches_v4
  count-insert_v4 root n a h w fits =
      count-insert a 32 none i index root n.network n.prefix_len h w.prefix_fits
      ∙ ap₂ (λ b x. count i (visit_matches_v4 root a none) + (if b then x else 0))
          (agree-in_network 32 n a w.prefix_fits w.network_fits fits) (once-visited i index)

  count-insert_v6 :
      (root : CidrNode) (n : Cidr) (a : ℕ)
      → Cidrs.IsBounded root
      → IsCidr 128 n
      → a < 2 ^ 128
      → count i (visit_matches_v6 (insert_v6 root n index) a none)
        ≡ count i (visit_matches_v6 root a none) + (if in_network 128 n a then once i index else 0)
  unfolding insert_v6 visit_matches_v6
  count-insert_v6 root n a h w fits =
      count-insert a 128 none i index root n.network n.prefix_len h w.prefix_fits
      ∙ ap₂ (λ b x. count i (visit_matches_v6 root a none) + (if b then x else 0))
          (agree-in_network 128 n a w.prefix_fits w.network_fits fits) (once-visited i index)

  pub count-index_ip :
      (pattern : IpPattern) (c : CompiledRuleIndex) (ip : Option IpAddr)
      → IsIndexed c
      → IsFitPattern pattern
      → IsFitAddress ip
      → count i (ip_candidates (index_ip index pattern c) ip)
        ≡ count i (ip_candidates c ip) + (if index == i then ip_occurrences pattern ip else 0)
  unfolding index_ip
  count-index_ip pattern c none h w fits = ground arith
  count-index_ip (exact_ip e) c (some (v4 a)) h w fits = ground (
    arith,
    v4_parts c a,
    v4_parts (index_ip index (exact_ip e) c) a,
    count-push_entry i index (v4 a) e c.exact_ips,
  )
  count-index_ip (exact_ip e) c (some (v6 a)) h w fits = ground (
    arith,
    v6_parts c a,
    v6_parts (index_ip index (exact_ip e) c) a,
    count-push_entry i index (v6 a) e c.exact_ips,
  )
  count-index_ip (cidr (net_v4 n)) c (some (v4 a)) h w fits = ground (
    arith,
    v4_parts c a,
    v4_parts (index_ip index (cidr (net_v4 n)) c) a,
    count-insert_v4 c.ipv4_cidr_ips n a h.v4_bounded w fits,
  )
  count-index_ip (cidr (net_v4 n)) c (some (v6 a)) h w fits = ground arith
  count-index_ip (cidr (net_v6 n)) c (some (v4 a)) h w fits = ground arith
  count-index_ip (cidr (net_v6 n)) c (some (v6 a)) h w fits = ground (
    arith,
    v6_parts c a,
    v6_parts (index_ip index (cidr (net_v6 n)) c) a,
    count-insert_v6 c.ipv6_cidr_ips n a h.v6_bounded w fits,
  )
