-- ===== src/Rules/Candidates/Exact.antt =====
-- The candidates of a request in src/rules/pool/runtime.rs against the keys of the rules.
use any_mirror.Common.{
  if◌then◌else◌, get_elem?, All, ◌==◌, nat_eq, pair_eq, list_eq, option_eq, IpAddr, v4, v6, ip_eq,
  ℕ, zero, suc, ◌+◌, ◌<◌, ◌≡◌, refl, ap, true, Option, none, some, List, [], ◌∷◌, arith,
}
use any_mirror.HashMap.{get}
use any_mirror.Text.{Text, starts_with}
use any_mirror.Rules.Url.{Url}
use any_mirror.Rules.Model.{Rule}
use any_mirror.Rules.Compiled.{
  origin_eq, exact_url_eq, CompiledRuleIndex, dns_host_keys, index_matcher, note_dns, compile_loop,
  empty_index, compile,
}
use any_mirror.Rules.Runtime.{
  LookupContext, host_candidates, ip_candidates, collect_candidate_indices,
}
use any_mirror.Rules.Candidates.{occurrences}
use any_mirror.Rules.Candidates.Step.{IsIndexed, IsFitMatcher, IsFitAddress}
use any_mirror.Rules.Candidates.Bounded.{
  index_matcher-IsIndexed, note_dns-IsIndexed, empty-IsIndexed,
}
use any_mirror.Trie.Cutoff.{should_skip_subtree, count}
use any_mirror.Trie.Cidr.{visit_cidr_matches, visit_matches_v4, visit_matches_v6}
use any_mirror.Trie.Host.{visit_rule_matches}
use any_mirror.Rules.Candidates.Parts.{collected_parts, count-index_matcher, count-note_dns}

-- The rules of a list that starts at an index are offered as their keys say.
abbrev scan : Url → LookupContext → ℕ → ℕ → List Rule → ℕ
scan original lookup i index [] = 0
scan original lookup i index (rule ∷ rules) =
    (if index == i then occurrences rule.matcher original lookup else 0)
    + scan original lookup i (index + 1) rules

abbrev pub occurrences_at : Url → LookupContext → Option Rule → ℕ
occurrences_at original lookup none = 0
occurrences_at original lookup (some rule) = occurrences rule.matcher original lookup

module _ (original : Url) (lookup : LookupContext) where
  scan_low : (i index : ℕ) (rules : List Rule) → i < index → scan original lookup i index rules ≡ 0
  scan_low i index [] h = refl
  scan_low i index (rule ∷ rules) h = ground (arith, scan_low i (index + 1) rules)

  scan_at :
      (i index : ℕ) (rules : List Rule)
      → scan original lookup (index + i) index rules
        ≡ occurrences_at original lookup (get_elem? rules i)
  scan_at i index [] = refl
  scan_at zero index (rule ∷ rules) =
      ground (arith, scan_low (index + 0) (index + 1) rules (omega arith))
  scan_at (suc i) index (rule ∷ rules) =
      let next : index + 1 + i ≡ index + suc i = omega arith in
      ground (
        arith,
        scan_at i (index + 1) rules,
        ap (λ n. scan original lookup n (index + 1) rules) next,
      )

module _ (original : Url) (lookup : LookupContext) (i : ℕ)
    (slash : starts_with original.path (b'/' ∷ []) ≡ true) (fits : IsFitAddress lookup.ip) where
  count-compile_loop :
      (rules : List Rule) (index : ℕ) (c : CompiledRuleIndex)
      → IsIndexed c
      → All (λ rule. IsFitMatcher rule.matcher) rules
      → count i (collect_candidate_indices (compile_loop index rules c) original lookup)
        ≡ count i (collect_candidate_indices c original lookup) + scan original lookup i index rules
  unfolding compile_loop
  count-compile_loop [] index c h w = omega arith
  count-compile_loop (rule ∷ rules) index c h w =
      let matched_at = index_matcher index rule.matcher c in
      let indexed = index_matcher-IsIndexed index rule.matcher c h in
      omega (
        arith,
        count-compile_loop rules (index + 1) (note_dns (dns_host_keys rule) matched_at)
            (note_dns-IsIndexed (dns_host_keys rule) matched_at indexed) w.1,
        count-note_dns original lookup i slash fits (dns_host_keys rule) matched_at indexed,
        count-index_matcher original lookup i slash fits index rule.matcher c h w.0,
      )

module _ (original : Url) (lookup : LookupContext) (i : ℕ)
    (slash : starts_with original.path (b'/' ∷ []) ≡ true) (fits : IsFitAddress lookup.ip) where
  no_host : (host : Option Text) → host_candidates empty_index host ≡ []
  unfolding visit_rule_matches should_skip_subtree get
  no_host none = refl
  no_host (some name) = refl

  no_ip : (ip : Option IpAddr) → ip_candidates empty_index ip ≡ []
  unfolding visit_matches_v4 visit_matches_v6 visit_cidr_matches should_skip_subtree get
  no_ip none = refl
  no_ip (some (v4 a)) = refl
  no_ip (some (v6 a)) = refl

  nothing : count i (collect_candidate_indices empty_index original lookup) ≡ 0
  unfolding get
  nothing = omega (
    arith,
    collected_parts original lookup i slash fits empty_index,
    ap (count i) (no_host lookup.normalized_host),
    ap (count i) (no_ip lookup.ip),
  )

-- For rules whose networks have the width of their family and whose prefixes are not empty, and a
-- request with a path that begins with a slash and an address of its family's width, the compiled
-- index offers each index as often as the key of its rule is looked up, and no other index.
pub count-collect :
    (entries : List Rule) (original : Url) (lookup : LookupContext) (i : ℕ)
    → All (λ rule. IsFitMatcher rule.matcher) entries
    → starts_with original.path (b'/' ∷ []) ≡ true
    → IsFitAddress lookup.ip
    → count i (collect_candidate_indices (compile entries) original lookup)
      ≡ occurrences_at original lookup (get_elem? entries i)
unfolding compile
count-collect entries original lookup i w slash fits = omega (
  arith,
  count-compile_loop original lookup i slash fits entries 0 empty_index empty-IsIndexed w,
  nothing original lookup i slash fits,
  scan_at original lookup i 0 entries,
  ap (λ n. scan original lookup n 0 entries) start,
)
  where
    start : 0 + i ≡ i
    start = omega arith
