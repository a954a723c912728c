-- ===== src/Rules/Candidates/Parts.antt =====
-- What one rule of src/rules/pool/compiled.rs adds to the candidates of a request, over all the
-- lookups of src/rules/pool/runtime.rs.
use any_mirror.Common.{
  if◌then◌else◌, ◌==◌, nat_eq, pair_eq, list_eq, option_eq, IpAddr, v4, v6, ip_eq, ℕ, ◌+◌, ◌≡◌,
  refl, ap, ap₂, ◌∙◌, true, Option, none, some, [], ◌∷◌, ◌++◌, arith,
}
use any_mirror.HashMap.{get}
use any_mirror.Text.{Text, starts_with}
use any_mirror.Rules.Url.{Url}
use any_mirror.Rules.Model.{
  net_v4, net_v6, HostPattern, exact_host, any_of, suffix, IpPattern, exact_ip, cidr, RuleMatcher,
  exact_url, prefix_url, host_matcher, ip_matcher,
}
use any_mirror.Rules.Compiled.{
  origin_eq, exact_url_eq, CompiledRuleIndex, origin_from_url, exact_url_from_url, RuleDnsKeys,
  index_host, index_ip, index_matcher, mark_all, note_dns,
}
use any_mirror.Rules.Runtime.{
  LookupContext, indices_of, prefix_candidates, host_candidates, ip_candidates,
  collect_candidate_indices,
}
use any_mirror.Rules.Candidates.{occurrences}
use any_mirror.Rules.Candidates.Maps.{count-push_entry, count-insert_prefix}
use any_mirror.Rules.Candidates.Step.{
  IsIndexed, IsFitMatcher, IsFitAddress, count-index_host, count-index_ip,
}
use any_mirror.Rules.Candidates.Bounded.{visit-mark_all}
use any_mirror.Trie.Cutoff.{count, count-append}
use any_mirror.Trie.Cidr.{visit_matches_v4, visit_matches_v6}
use any_mirror.Trie.Host.{visit_rule_matches}

module _ (original : Url) (lookup : LookupContext) (i : ℕ)
    (slash : starts_with original.path (b'/' ∷ []) ≡ true) (fits : IsFitAddress lookup.ip) where
  abbrev pub collected : CompiledRuleIndex → ℕ
  collected c = count i (collect_candidate_indices c original lookup)

  -- Each of the four lookups adds its candidates.
  pub collected_parts :
      (c : CompiledRuleIndex)
      → collected c
        ≡ count i (indices_of (get lookup.exact_url_key c.exact_urls))
          + (count i (prefix_candidates original.path (get lookup.origin_key c.prefix_origins))
              + (count i (host_candidates c lookup.normalized_host)
                  + count i (ip_candidates c lookup.ip)))
  unfolding collect_candidate_indices
  collected_parts c =
      let urls = indices_of (get lookup.exact_url_key c.exact_urls) in
      let prefixes = prefix_candidates original.path (get lookup.origin_key c.prefix_origins) in
      let hosts = host_candidates c lookup.normalized_host in
      let ips = ip_candidates c lookup.ip in
      count-append i (urls ++ prefixes ++ hosts) ips
      ∙ ap (λ n. n + count i ips)
          (count-append i (urls ++ prefixes) hosts
            ∙ ap (λ n. n + count i hosts) (count-append i urls prefixes))
      ∙ omega arith

  same_hosts :
      (c d : CompiledRuleIndex) (host : Option Text)
      → c.exact_hosts ≡ d.exact_hosts
      → c.suffix_hosts ≡ d.suffix_hosts
      → count i (host_candidates c host) ≡ count i (host_candidates d host)
  same_hosts c d none h k = refl
  same_hosts c d (some name) h k =
      ap₂ (λ m n. count i (indices_of (get name m) ++ visit_rule_matches n name none)) h k

  same_ips :
      (c d : CompiledRuleIndex) (ip : Option IpAddr)
      → c.exact_ips ≡ d.exact_ips
      → c.ipv4_cidr_ips ≡ d.ipv4_cidr_ips
      → c.ipv6_cidr_ips ≡ d.ipv6_cidr_ips
      → count i (ip_candidates c ip) ≡ count i (ip_candidates d ip)
  same_ips c d none h k l = refl
  same_ips c d (some (v4 a)) h k l =
      ap₂ (λ m n. count i (indices_of (get (v4 a) m) ++ visit_matches_v4 n a none)) h k
  same_ips c d (some (v6 a)) h k l =
      ap₂ (λ m n. count i (indices_of (get (v6 a) m) ++ visit_matches_v6 n a none)) h l

  pub count-index_matcher :
      (index : ℕ) (m : RuleMatcher) (c : CompiledRuleIndex)
      → IsIndexed c
      → IsFitMatcher m
      → collected (index_matcher index m c)
        ≡ collected c + (if index == i then occurrences m original lookup else 0)
  unfolding index_matcher
  count-index_matcher index (exact_url origin) c h w =
      let c' = index_matcher index (exact_url origin) c in
      ground (
        arith,
        collected_parts c,
        collected_parts c',
        count-push_entry i index lookup.exact_url_key (exact_url_from_url origin) c.exact_urls,
        same_hosts c' c lookup.normalized_host refl refl,
        same_ips c' c lookup.ip refl refl refl,
      )
  count-index_matcher index (prefix_url origin) c h w =
      let c' = index_matcher index (prefix_url origin) c in
      ground (
        arith,
        collected_parts c,
        collected_parts c',
        count-insert_prefix origin.path index i original.path lookup.origin_key
            (origin_from_url origin) c.prefix_origins h.prefixes_bounded w slash,
        same_hosts c' c lookup.normalized_host refl refl,
        same_ips c' c lookup.ip refl refl refl,
      )
  count-index_matcher index (host_matcher m) c h w =
      let c' = index_host index m.pattern c in
      let (urls, prefixes, ips) = host_keeps m.pattern in
      omega (
        arith,
        collected_parts c,
        collected_parts c',
        count-index_host i index m.pattern c lookup.normalized_host h,
        urls,
        prefixes,
        ips,
      )
    where
      host_keeps :
          (pattern : HostPattern)
          → (count i (indices_of (get lookup.exact_url_key (index_host index pattern c).exact_urls))
              ≡ count i (indices_of (get lookup.exact_url_key c.exact_urls)))
            × (count i (
                  prefix_candidates original.path
                    (get lookup.origin_key (index_host index pattern c).prefix_origins))
                ≡ count i
                    (prefix_candidates original.path (get lookup.origin_key c.prefix_origins)))
            × (count i (ip_candidates (index_host index pattern c) lookup.ip)
                ≡ count i (ip_candidates c lookup.ip))
      host_keeps (exact_host key) =
          (refl, refl, same_ips (index_host index (exact_host key) c) c lookup.ip refl refl refl)
      host_keeps (any_of keys) =
          (refl, refl, same_ips (index_host index (any_of keys) c) c lookup.ip refl refl refl)
      host_keeps (suffix s) =
          (refl, refl, same_ips (index_host index (suffix s) c) c lookup.ip refl refl refl)
  count-index_matcher index (ip_matcher m) c h w =
      let c' = index_ip index m.pattern c in
      let (urls, prefixes, hosts) = ip_keeps m.pattern in
      omega (
        arith,
        collected_parts c,
        collected_parts c',
        count-index_ip i index m.pattern c lookup.ip h w fits,
        urls,
        prefixes,
        hosts,
      )
    where
      ip_keeps :
          (pattern : IpPattern)
          → (count i (indices_of (get lookup.exact_url_key (index_ip index pattern c).exact_urls))
              ≡ count i (indices_of (get lookup.exact_url_key c.exact_urls)))
            × (count i (
                  prefix_candidates original.path
                    (get lookup.origin_key (index_ip index pattern c).prefix_origins))
                ≡ count i
                    (prefix_candidates original.path (get lookup.origin_key c.prefix_origins)))
            × (count i (host_candidates (index_ip index pattern c) lookup.normalized_host)
                ≡ count i (host_candidates c lookup.normalized_host))
      ip_keeps (exact_ip key) = (
        refl,
        refl,
        same_hosts (index_ip index (exact_ip key) c) c lookup.normalized_host refl refl,
      )
      ip_keeps (cidr (net_v4 n)) = (
        refl,
        refl,
        same_hosts (index_ip index (cidr (net_v4 n)) c) c lookup.normalized_host refl refl,
      )
      ip_keeps (cidr (net_v6 n)) = (
        refl,
        refl,
        same_hosts (index_ip index (cidr (net_v6 n)) c) c lookup.normalized_host refl refl,
      )

  pub count-note_dns :
      (keys : RuleDnsKeys) (c : CompiledRuleIndex)
      → IsIndexed c
      → collected (note_dns keys c) ≡ collected c
  unfolding note_dns
  count-note_dns keys c h =
      let c' = note_dns keys c in
      omega (
        arith,
        collected_parts c,
        collected_parts c',
        same_ips c' c lookup.ip refl refl refl,
        marked lookup.normalized_host,
      )
    where
      marked :
          (host : Option Text)
          → count i (host_candidates (note_dns keys c) host) ≡ count i (host_candidates c host)
      marked none = refl
      marked (some name) = omega (
        arith,
        visit-mark_all keys.suffix_hosts c.suffix_hosts name i h.hosts_bounded,
        count-append i (indices_of (get name c.exact_hosts))
            (visit_rule_matches c.suffix_hosts name none),
        count-append i (indices_of (get name c.exact_hosts))
            (visit_rule_matches (mark_all keys.suffix_hosts c.suffix_hosts) name none),
      )
