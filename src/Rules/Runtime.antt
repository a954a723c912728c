-- ===== src/Rules/Runtime.antt =====
-- src/rules/pool/runtime.rs: the lookup of the candidates of a request, and the match of one rule.
use any_mirror.Common.{
  if◌then◌else◌, is_some, ◌>>=◌, KeyEq, ◌==◌, nat_eq, pair_eq, list_eq, option_eq, Result, ok, err,
  IpAddr, v4, v6, ip_eq, ℕ, Bool, false, not, ◌||◌, Option, none, some, List, [], ◌∷◌, ◌++◌,
}
use any_mirror.HashMap.{get}
use any_mirror.Text.{Text, strip_prefix}
use any_mirror.Text.Pieces.{has_piece_suffix}
use any_mirror.Rules.Url.{Url}
use any_mirror.Rules.Model.{
  IpNet, HostPattern, exact_host, any_of, suffix, IpPattern, exact_ip, cidr, HostRuleMatcher,
  IpRuleMatcher, RuleMatcher, exact_url, prefix_url, host_matcher, ip_matcher, UpstreamPlan,
  RuleAction, mirror, direct, respond, plugin, reject, ResolvedRuleAction, to_mirror, to_direct,
  to_respond, to_plugin, to_reject, Rule,
}
use any_mirror.Rules.Matching.{same_origin, same_url, path_has_prefix, join_paths, normalize_host}
use any_mirror.Rules.Compiled.{
  OriginKey, ExactUrlKey, origin_eq, exact_url_eq, CompiledRuleIndex, origin_from_url,
  exact_url_from_url,
}
use any_mirror.Trie.Cidr.{visit_matches_v4, visit_matches_v6}
use any_mirror.Trie.Path.{PrefixPathNode, visit_matches}
use any_mirror.Trie.Host.{visit_rule_matches, matches}

-- What the rules call of the standard library's address parser, of `ipnet` and of `url`.
pub record Crates : Type 0 where
  pub parse_ip : Text → Option IpAddr
  pub net_contains : IpNet → IpAddr → Bool
  pub set_path : Url → Text → Url
  pub set_query : Url → Option Text → Url
  pub set_fragment : Url → Option Text → Url

pub record LookupContext : Type 0 where
  pub exact_url_key : ExactUrlKey
  pub origin_key : OriginKey
  pub scheme : Text
  pub port : Option ℕ
  pub path : Text
  pub normalized_host : Option Text
  pub ip : Option IpAddr

-- Why a rule does not match; the text of the reason is left out.
pub data Mismatch : Type 0 where
  url_mismatch origin_mismatch path_prefix_mismatch scheme_mismatch port_mismatch : Mismatch
  no_hostname host_mismatch host_suffix_mismatch no_ip_address ip_mismatch ip_cidr_mismatch :
      Mismatch

pub data RuleMatchExplain : Type 0 where
  matched : Option Text → RuleMatchExplain
  mismatch : Mismatch → RuleMatchExplain

abbrev pub ok_value : {E : Type 0} → Result E Text → Option Text
ok_value (ok t) = some t
ok_value (err e) = none

abbrev pub unwrap_or_default : Option Text → Text
unwrap_or_default none = []
unwrap_or_default (some t) = t

-- `strip_prefix(prefix).or_else(|| strip_prefix('/')).unwrap_or_default()`
abbrev pub suffix_after : Text → Text → Text
suffix_after path prefix = elim (strip_prefix path prefix) [
  | some rest ↦ rest
  | none ↦ unwrap_or_default (strip_prefix path (b'/' ∷ []))
]

unfoldable pub resolve_path_suffix : Option Text → Text → Text
resolve_path_suffix none original_path = unwrap_or_default (strip_prefix original_path (b'/' ∷ []))
resolve_path_suffix (some prefix) original_path = suffix_after original_path prefix

-- `expected.is_none() || actual == expected`
abbrev pub differs : {A : Type 0} ⦃e : KeyEq A⦄ → Option A → A → Bool
differs none actual = false
differs (some expected) actual = not (actual == expected)

abbrev pub lacks_prefix : Option Text → Text → Bool
lacks_prefix none path = false
lacks_prefix (some prefix) path = not (path_has_prefix path prefix)

abbrev pub port_differs : Option ℕ → Option ℕ → Bool
port_differs none actual = false
port_differs (some expected) actual = not (actual == some expected)

unfoldable pub explain_common_lookup_parts :
    Option Text → Option ℕ → Option Text → LookupContext → Result Mismatch (Unit {0})
explain_common_lookup_parts expected_scheme expected_port path_prefix lookup =
    if differs expected_scheme lookup.scheme
    then err scheme_mismatch
    else (if port_differs expected_port lookup.port
        then err port_mismatch
        else (if lacks_prefix path_prefix lookup.path then err path_prefix_mismatch else ok tt))

abbrev pub has_host : List Text → Text → Bool
has_host [] name = false
has_host (value ∷ values) name = value == name || has_host values name

unfoldable pub host_pattern_match : HostPattern → Text → Option Text → RuleMatchExplain
host_pattern_match (exact_host expected) name rest =
    if expected == name then matched rest else mismatch host_mismatch
host_pattern_match (any_of expected) name rest =
    if has_host expected name then matched rest else mismatch host_mismatch
host_pattern_match (suffix expected) name rest =
    if has_piece_suffix b'.' name expected then matched rest else mismatch host_suffix_mismatch

-- `HostRuleMatcher::explain_match`
unfoldable pub host_explain_match : HostRuleMatcher → LookupContext → RuleMatchExplain
unfolding explain_common_lookup_parts host_pattern_match resolve_path_suffix
host_explain_match m lookup =
    elim (explain_common_lookup_parts m.scheme m.port m.path_prefix lookup) [
      | err reason ↦ mismatch reason
      | ok done ↦ elim (lookup.normalized_host) [
        | none ↦ mismatch no_hostname
        | some name ↦
            host_pattern_match m.pattern name (some (resolve_path_suffix m.path_prefix lookup.path))
      ]
    ]

module _ (crates : Crates) where
  unfoldable pub ip_pattern_match : IpPattern → IpAddr → Option Text → RuleMatchExplain
  ip_pattern_match (exact_ip expected) original_ip rest =
      if expected == original_ip then matched rest else mismatch ip_mismatch
  ip_pattern_match (cidr expected) original_ip rest =
      if crates.net_contains expected original_ip then matched rest else mismatch ip_cidr_mismatch

  -- `IpRuleMatcher::explain_match`
  unfoldable pub ip_explain_match : IpRuleMatcher → LookupContext → RuleMatchExplain
  unfolding explain_common_lookup_parts ip_pattern_match resolve_path_suffix
  ip_explain_match m lookup =
      elim (explain_common_lookup_parts m.scheme m.port m.path_prefix lookup) [
        | err reason ↦ mismatch reason
        | ok done ↦ elim (lookup.ip) [
          | none ↦ mismatch no_ip_address
          | some original_ip ↦
              ip_pattern_match m.pattern original_ip
                (some (resolve_path_suffix m.path_prefix lookup.path))
        ]
      ]

  -- `RuleMatcher::explain_with_lookup`
  unfoldable pub explain_with_lookup : RuleMatcher → Url → LookupContext → RuleMatchExplain
  unfolding host_explain_match ip_explain_match
  explain_with_lookup (exact_url origin) original lookup =
      if same_url original origin then matched none else mismatch url_mismatch
  explain_with_lookup (prefix_url origin) original lookup =
      if not (same_origin original origin)
      then mismatch origin_mismatch
      else (if not (path_has_prefix original.path origin.path)
          then mismatch path_prefix_mismatch
          else matched (some (suffix_after original.path origin.path)))
  explain_with_lookup (host_matcher m) original lookup = host_explain_match m lookup
  explain_with_lookup (ip_matcher m) original lookup = ip_explain_match m lookup

  -- `LookupContext::from_url`
  unfoldable pub lookup_from_url : Url → LookupContext
  lookup_from_url original = record {
    exact_url_key = exact_url_from_url original;
    origin_key = origin_from_url original;
    scheme = original.scheme;
    port = original.port_or_known_default;
    path = original.path;
    normalized_host = original.host_str >>= (λ value. ok_value (normalize_host value));
    ip = original.host_str >>= crates.parse_ip;
  }

abbrev pub indices_of : Option (List ℕ) → List ℕ
indices_of none = []
indices_of (some indices) = indices

abbrev pub prefix_candidates : Text → Option PrefixPathNode → List ℕ
prefix_candidates path none = []
prefix_candidates path (some prefixes) = visit_matches prefixes path none

abbrev pub host_candidates : CompiledRuleIndex → Option Text → List ℕ
host_candidates c none = []
host_candidates c (some name) =
    indices_of (get name c.exact_hosts) ++ visit_rule_matches c.suffix_hosts name none

abbrev pub ip_candidates : CompiledRuleIndex → Option IpAddr → List ℕ
ip_candidates c none = []
ip_candidates c (some (v4 a)) =
    indices_of (get (v4 a) c.exact_ips) ++ visit_matches_v4 c.ipv4_cidr_ips a none
ip_candidates c (some (v6 a)) =
    indices_of (get (v6 a) c.exact_ips) ++ visit_matches_v6 c.ipv6_cidr_ips a none

unfoldable pub collect_candidate_indices : CompiledRuleIndex → Url → LookupContext → List ℕ
collect_candidate_indices c original lookup =
    indices_of (get lookup.exact_url_key c.exact_urls)
    ++ prefix_candidates original.path (get lookup.origin_key c.prefix_origins)
    ++ host_candidates c lookup.normalized_host
    ++ ip_candidates c lookup.ip

unfoldable pub matches_dns_host : CompiledRuleIndex → Text → Bool
matches_dns_host c host = elim (normalize_host host) [
  | err e ↦ false
  | ok normalized ↦ is_some (get normalized c.dns_exact_hosts) || matches c.suffix_hosts normalized
]

unfoldable pub direct_plan : Url → UpstreamPlan
direct_plan original = record {
  url = original;
  sni = none;
  host = none;
  connect_host = none;
  connect_ip = none;
  dns = none;
}

module _ (crates : Crates) where
  unfoldable pub resolve_mirror_upstream : UpstreamPlan → Url → Option Text → UpstreamPlan
  resolve_mirror_upstream upstream original none = upstream
  resolve_mirror_upstream upstream original (some path_suffix) =
      let at_path = crates.set_path upstream.url (join_paths upstream.url.path path_suffix) in
      record upstream { url = crates.set_fragment (crates.set_query at_path original.query) none }

  -- The `match` on an action when its rule matches.
  unfoldable pub resolve_action : RuleAction → Url → Option Text → ResolvedRuleAction
  unfolding resolve_mirror_upstream direct_plan
  resolve_action (mirror upstream) original path_suffix =
      to_mirror (resolve_mirror_upstream upstream original path_suffix)
  resolve_action direct original path_suffix = to_direct (direct_plan original)
  resolve_action (respond r) original path_suffix = to_respond r
  resolve_action (plugin name) original path_suffix = to_plugin name
  resolve_action (reject r) original path_suffix = to_reject r

  unfoldable pub resolve_with_lookup : Rule → Url → LookupContext → Option ResolvedRuleAction
  unfolding explain_with_lookup resolve_action
  resolve_with_lookup rule original lookup =
      elim (explain_with_lookup crates rule.matcher original lookup) [
        | matched path_suffix ↦ some (resolve_action rule.action original path_suffix)
        | mismatch reason ↦ none
      ]
