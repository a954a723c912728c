-- ===== src/Rules/Tests.antt =====
-- A rule set in the manner of src/rules/tests.rs, and instances of the theorems on rules.
use any_mirror.Common.{
  if◌then◌else◌, Bool-cases, All, ◌==◌, nat_eq, pair_eq, list_eq, option_eq, IpAddr, v4, v6, ip_eq,
  ◌+◌, ◌*◌, ◌^◌, ◌≡◌, refl, inl, inr, Bool, true, false, Option, none, some, List, [], ◌∷◌, ◌++◌,
  arith,
}
use any_mirror.HashMap.{get, insert}
use any_mirror.Text.{
  Text, codes, is_empty, trim_end_matches, to_ascii_lowercase, ends_with, starts_with, strip_prefix,
  split, rsplit, strip_suffix, trim_start_matches, trim, contains_text, no_uppercase,
}
use any_mirror.Rules.Url.{Url}
use any_mirror.Rules.Model.{
  kind_prefix, kind_host, kind_host_suffix, kind_ip_cidr, low, medium, high, xhigh, IpNet, net_v4,
  net_v6, HostPattern, exact_host, suffix, cidr, RuleMatcher, prefix_url, host_matcher, ip_matcher,
  RejectRuleAction, direct, plugin, reject, to_direct, to_reject, Rule,
}
use any_mirror.Rules.Matching.{same_origin, same_url, path_has_prefix, join_paths, normalize_host}
use any_mirror.Rules.Matching.Normal.{base_of, join_paths_lem, host_form, normalize_host_lem}
use any_mirror.Rules.Matching.Laws.{segment_match, path_has_prefix_lem}
use any_mirror.Rules.Compiled.{
  origin_eq, exact_url_eq, origin_from_url, exact_url_from_url, dns_host_keys, push_entry,
  push_entries, insert_prefix, index_host, index_ip, index_matcher, extend, mark_all, note_dns,
  compile,
}
use any_mirror.Rules.Runtime.{
  Crates, host_explain_match, ip_explain_match, explain_with_lookup, lookup_from_url,
  collect_candidate_indices, matches_dns_host, direct_plan, resolve_action,
}
use any_mirror.Rules.Resolve.{new_rule_set, resolve}
use any_mirror.Rules.Resolve.Linear.{resolve_all, resolve-resolve_all}
use any_mirror.Rules.Candidates.Complete.{IsCrates, lookup_fits}
use any_mirror.Rules.Candidates.Step.{IsFitMatcher}
use any_mirror.Rules.Candidates.Exact.{occurrences_at, count-collect}
use any_mirror.Rules.Explain.{RuleExplainTrace, explain_candidates, explain}
use any_mirror.Rules.Dns.{any_names, matches_dns_host-compile}
use any_mirror.Trie.Nodes.{note_index, get_child, set_child}
use any_mirror.Trie.Path.{insert as insert_path, visit_matches}
use any_mirror.Trie.Host.{insert_rule, mark_dns, visit_rule_matches}
use any_mirror.Trie.Cidr.{insert_cidr, visit_cidr_matches, insert_v4, visit_matches_v4}
use any_mirror.Rules.Order.{Candidate, precedes}
use any_mirror.Trie.Cutoff.{
  update_min_rule_index, should_skip_index, should_skip_subtree, visit_terminal_indices, count,
}
use any_mirror.Trie.Cidr.Contains.{in_network}

abbrev net_test : IpNet → IpAddr → Bool
net_test (net_v4 n) (v4 a) = in_network 32 n a
net_test (net_v4 n) (v6 a) = false
net_test (net_v6 n) (v4 a) = false
net_test (net_v6 n) (v6 a) = in_network 128 n a

abbrev address_text : Text
address_text = codes "10.0.0.1"

abbrev parse_test : Text → Option IpAddr
parse_test t = if t == address_text then some (v4 (10 * 2 ^ 24 + 1)) else none

-- A reading of the crates, to run the model with.
abbrev crates : Crates
crates = record {
  parse_ip = parse_test;
  net_contains = net_test;
  set_path = λ u p. record u { path = p };
  set_query = λ u q. record u { query = q };
  set_fragment = λ u f. record u { fragment = f };
}

crates-IsCrates : IsCrates crates
crates-IsCrates = record {
  contains_v4 = λ n a. refl;
  contains_v6 = λ n a. refl;
  other_v4 = λ n a. refl;
  other_v6 = λ n a. refl;
  parse_fits = λ t. elim (Bool-cases (t == address_text)) [
    | inl here ↦ rw here (omega arith)
    | inr other ↦ rw other tt
  ];
}

abbrev url : Text → Text → Url
url host path = record {
  scheme = codes "https";
  host_str = some host;
  port_or_known_default = some 443;
  path = path;
  query = none;
  fragment = none;
}

abbrev api_host : Text
api_host = codes "api.example.com"

abbrev request : Url
request = url api_host (codes "/ping")

abbrev for_host : HostPattern → RuleMatcher
for_host p = host_matcher (record { pattern = p; scheme = none; port = none; path_prefix = none })

abbrev refusal : RejectRuleAction
refusal = record { status = 451; message = codes "lower priority" }

abbrev spreading : Rule
spreading = record {
  kind = kind_host_suffix;
  matcher = for_host (suffix (codes "example.com"));
  action = direct;
  priority = xhigh;
  spread = true;
}

abbrev refusing : Rule
refusing = record {
  kind = kind_host;
  matcher = for_host (exact_host api_host);
  action = reject refusal;
  priority = low;
  spread = false;
}

abbrev network : Rule
network = record {
  kind = kind_ip_cidr;
  matcher = ip_matcher (record {
    pattern = cidr (net_v4 (record { network = 10 * 2 ^ 24; prefix_len = 8 }));
    scheme = none;
    port = none;
    path_prefix = none;
  });
  action = plugin (codes "lan");
  priority = high;
  spread = false;
}

abbrev by_prefix : Rule
by_prefix = record {
  kind = kind_prefix;
  matcher = prefix_url (url api_host (codes "/p"));
  action = direct;
  priority = medium;
  spread = false;
}

abbrev entries : List Rule
entries = refusing ∷ network ∷ spreading ∷ by_prefix ∷ []

entries-fit : All (λ rule. IsFitMatcher rule.matcher) entries
entries-fit = (
  tt,
  (
    record { prefix_fits = omega arith; network_fits = omega arith },
    (tt, ((λ h. ground (arith, h)), tt)),
  ),
)

program : Unit {0}
unfolding resolve new_rule_set get insert note_dns index_matcher normalize_host trim_end_matches
    trim contains_text no_uppercase visit_matches should_skip_subtree insert_path note_index
    update_min_rule_index get_child set_child origin_from_url exact_url_from_url insert_rule
    mark_dns visit_rule_matches visit_terminal_indices should_skip_index rsplit split
    to_ascii_lowercase strip_prefix starts_with ends_with same_url same_origin path_has_prefix
    precedes visit_matches_v4 insert_v4 insert_cidr visit_cidr_matches strip_suffix dns_host_keys
    extend mark_all push_entry push_entries index_host index_ip insert_prefix host_explain_match
    ip_explain_match explain_with_lookup resolve_action direct_plan
program = tt

lower_priority_wins :
    resolve crates (new_rule_set entries) request
    ≡ some (some (record { action = to_reject refusal; rule = refusing }))
unfolding program
lower_priority_wins = refl

resolve-resolve_all_example :
    resolve crates (new_rule_set entries) request ≡ some (resolve_all crates entries request)
unfolding starts_with
resolve-resolve_all_example =
    resolve-resolve_all crates crates-IsCrates entries request entries-fit refl

count-collect_example :
    count 2 (collect_candidate_indices (compile entries) request (lookup_from_url crates request))
    ≡ occurrences_at request (lookup_from_url crates request) (some spreading)
unfolding starts_with
count-collect_example =
    count-collect entries request (lookup_from_url crates request) 2 entries-fit refl
      (lookup_fits crates crates-IsCrates request)

matches_dns_host-compile_example :
    matches_dns_host (compile entries) (codes "API.example.com.")
    ≡ any_names entries (normalize_host (codes "API.example.com."))
matches_dns_host-compile_example = matches_dns_host-compile entries (codes "API.example.com.")

path_has_prefix_lem_example :
    path_has_prefix (codes "/api/users") (codes "/api")
    ≡ segment_match (codes "/api") (strip_prefix (codes "/api/users") (codes "/api"))
unfolding starts_with
path_has_prefix_lem_example = path_has_prefix_lem (codes "/api/users") (codes "/api") refl

-- A match without `spread` at a higher priority ends a resolution, but not an explanation.
abbrev stopping : Rule
stopping = record spreading { spread = false }

abbrev stopping_entries : List Rule
stopping_entries = refusing ∷ stopping ∷ []

resolution_stops :
    resolve crates (new_rule_set stopping_entries) request
    ≡ some (some (record { action = to_direct (direct_plan request); rule = stopping }))
unfolding program
resolution_stops = refl

explained_kind : Option RuleExplainTrace → Option Text
explained_kind none = none
explained_kind (some trace) = elim (trace.final_match) [ none ↦ none | some w ↦ some w.action_kind ]

explanation_goes_on :
    explained_kind (explain crates (new_rule_set stopping_entries) request) ≡ some (codes "reject")
unfolding program explained_kind explain explain_candidates
explanation_goes_on = refl

abbrev two_candidates : List Candidate
two_candidates = (1, stopping) ∷ (0, refusing) ∷ []

join_paths_lem_example : join_paths (codes "/base//") (codes "/a") ≡ (
    if is_empty (trim_start_matches b'/' (codes "/a"))
    then base_of (trim_end_matches b'/' (codes "/base//"))
    else trim_end_matches b'/' (codes "/base//") ++ b'/' ∷ trim_start_matches b'/' (codes "/a"))
join_paths_lem_example = join_paths_lem (codes "/base//") (codes "/a")

joins_with_one_slash : join_paths (codes "/base//") (codes "/a") ≡ codes "/base/a"
unfolding program join_paths trim_start_matches
joins_with_one_slash = refl

normalize_host_lem_example : codes "api.example.com" ≡ host_form (codes " API.example.com.")
unfolding program
normalize_host_lem_example =
    normalize_host_lem (codes " API.example.com.") (codes "api.example.com") refl
