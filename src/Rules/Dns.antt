-- ===== src/Rules/Dns.antt =====
-- The hosts of a rule set that the DNS server answers with a fake address: `matches_dns_host` in
-- src/rules/pool/runtime.rs over the marks of src/rules/pool/compiled.rs.
use any_mirror.Common.{
  if◌then◌else◌, is_some, ◌==◌, nat_eq, pair_eq, list_eq, option_eq, Result, ok, err, ip_eq, ℕ, ◌+◌,
  ◌≡◌, refl, Bool, true, false, ◌&&◌, ◌||◌, Option, none, some, List, [], ◌∷◌, arith,
}
use any_mirror.HashMap.{get-insert, HashMap, get, insert}
use any_mirror.Text.{Text, rsplit}
use any_mirror.Text.Pieces.{has_piece_suffix}
use any_mirror.Rules.Model.{
  net_v4, net_v6, HostPattern, exact_host, any_of, suffix, IpPattern, exact_ip, cidr, RuleMatcher,
  exact_url, prefix_url, host_matcher, ip_matcher, RuleAction, mirror, direct, respond, plugin,
  reject, Rule,
}
use any_mirror.Rules.Matching.{MatcherError, normalize_host}
use any_mirror.Rules.Compiled.{
  origin_eq, exact_url_eq, CompiledRuleIndex, RuleDnsKeys, no_keys, is_direct, url_dns_keys,
  pattern_dns_keys, matcher_dns_keys, dns_host_keys, index_host, index_ip, index_matcher, extend,
  mark_all, note_dns, compile_loop, empty_index, compile,
}
use any_mirror.Rules.Runtime.{has_host, matches_dns_host}
use any_mirror.Trie.Host.{SuffixHostNode, mark_dns, matches_loop, matches}
use any_mirror.Trie.Nodes.{get_child}
use any_mirror.Trie.Host.Dns.{matches-mark_dns, matches-insert_rule}

abbrev pub any_suffix : Text → List Text → Bool
any_suffix name [] = false
any_suffix name (s ∷ suffixes) = has_piece_suffix b'.' name s || any_suffix name suffixes

-- The keys of a rule name a host.
abbrev names_host : RuleDnsKeys → Text → Bool
names_host keys name = has_host keys.exact_hosts name || any_suffix name keys.suffix_hosts

-- What the DNS server is to answer, rule by rule. A direct rule needs no fake address.
abbrev pub takes_traffic : RuleAction → Bool
takes_traffic (mirror _) = true
takes_traffic direct = false
takes_traffic (respond _) = true
takes_traffic (plugin _) = true
takes_traffic (reject _) = true

abbrev pub one_of : List Text → Text → Bool
one_of [] name = false
one_of (host ∷ hosts) name = host == name || one_of hosts name

-- The host of a URL, in its normal form.
abbrev pub is_url_host : Option Text → Text → Bool
is_url_host none name = false
is_url_host (some host) name = elim (normalize_host host) [
  | ok normalized ↦ normalized == name
  | err e ↦ false
]

abbrev pub pattern_names : HostPattern → Text → Bool
pattern_names (exact_host host) name = host == name
pattern_names (any_of hosts) name = one_of hosts name
pattern_names (suffix s) name = has_piece_suffix b'.' name s

abbrev pub matcher_names : RuleMatcher → Text → Bool
matcher_names (exact_url origin) name = is_url_host origin.host_str name
matcher_names (prefix_url origin) name = is_url_host origin.host_str name
matcher_names (host_matcher m) name = pattern_names m.pattern name
matcher_names (ip_matcher m) name = false

abbrev pub any_names_host : List Rule → Text → Bool
any_names_host [] name = false
any_names_host (rule ∷ rules) name =
    takes_traffic rule.action && matcher_names rule.matcher name || any_names_host rules name

has_host-one_of : (hosts : List Text) (name : Text) → has_host hosts name ≡ one_of hosts name
has_host-one_of [] name = refl
has_host-one_of (host ∷ hosts) name = ground (arith, has_host-one_of hosts name)

url_keys_lem :
    (host : Option Text) (name : Text) → names_host (url_dns_keys host) name ≡ is_url_host host name
url_keys_lem none name = refl
url_keys_lem (some host) name = by_result (normalize_host host)
  where
    by_result :
        (r : Result MatcherError Text)
        → names_host
            (elim r as (λ x. RuleDnsKeys) [
              | ok normalized ↦ record { exact_hosts = normalized ∷ []; suffix_hosts = [] }
              | err e ↦ no_keys
            ])
            name
          ≡ elim r as (λ x. Bool) [ ok normalized ↦ normalized == name | err e ↦ false ]
    by_result (ok normalized) = ground arith
    by_result (err e) = refl

pattern_keys_lem :
    (p : HostPattern) (name : Text) → names_host (pattern_dns_keys p) name ≡ pattern_names p name
pattern_keys_lem (exact_host host) name = ground arith
pattern_keys_lem (any_of hosts) name = ground (arith, has_host-one_of hosts name)
pattern_keys_lem (suffix s) name = ground arith

matcher_keys_lem :
    (m : RuleMatcher) (name : Text) → names_host (matcher_dns_keys m) name ≡ matcher_names m name
matcher_keys_lem (exact_url origin) name = url_keys_lem origin.host_str name
matcher_keys_lem (prefix_url origin) name = url_keys_lem origin.host_str name
matcher_keys_lem (host_matcher m) name = pattern_keys_lem m.pattern name
matcher_keys_lem (ip_matcher m) name = refl

-- The keys of a rule name what the rule is to answer.
dns_host_keys_lem :
    (rule : Rule) (name : Text)
    → names_host (dns_host_keys rule) name
      ≡ (takes_traffic rule.action && matcher_names rule.matcher name)
unfolding dns_host_keys
dns_host_keys_lem rule name = by_action rule.action
  where
    by_action :
        (a : RuleAction)
        → names_host (if is_direct a then no_keys else matcher_dns_keys rule.matcher) name
          ≡ (takes_traffic a && matcher_names rule.matcher name)
    by_action direct = refl
    by_action (mirror _) = matcher_keys_lem rule.matcher name
    by_action (respond _) = matcher_keys_lem rule.matcher name
    by_action (plugin _) = matcher_keys_lem rule.matcher name
    by_action (reject _) = matcher_keys_lem rule.matcher name

-- What a normalized host is looked up in.
abbrev known : CompiledRuleIndex → Text → Bool
known c name = is_some (get name c.dns_exact_hosts) || matches c.suffix_hosts name

module _ (name : Text) where
  get-extend :
      (keys : List Text) (m : HashMap Text (Unit {0}))
      → is_some (get name (extend keys m)) ≡ (is_some (get name m) || has_host keys name)
  unfolding extend
  get-extend [] m = ground arith
  get-extend (key ∷ keys) m =
      ground (arith, get-extend keys (insert key tt m), get-insert name key tt m)

  matches-mark_all :
      (suffixes : List Text) (n : SuffixHostNode)
      → matches (mark_all suffixes n) name ≡ (matches n name || any_suffix name suffixes)
  unfolding mark_all
  matches-mark_all [] n = ground arith
  matches-mark_all (s ∷ suffixes) n =
      ground (arith, matches-mark_all suffixes (mark_dns n s), matches-mark_dns n s name)

  known-note_dns :
      (keys : RuleDnsKeys) (c : CompiledRuleIndex)
      → known (note_dns keys c) name ≡ (known c name || names_host keys name)
  unfolding note_dns
  known-note_dns keys c = ground (
    arith,
    get-extend keys.exact_hosts c.dns_exact_hosts,
    matches-mark_all keys.suffix_hosts c.suffix_hosts,
  )

  known-index_host :
      (index : ℕ) (pattern : HostPattern) (c : CompiledRuleIndex)
      → known (index_host index pattern c) name ≡ known c name
  unfolding index_host
  known-index_host index (exact_host key) c = refl
  known-index_host index (any_of keys) c = refl
  known-index_host index (suffix s) c =
      ground (arith, matches-insert_rule c.suffix_hosts s index name)

  known-index_ip :
      (index : ℕ) (pattern : IpPattern) (c : CompiledRuleIndex)
      → known (index_ip index pattern c) name ≡ known c name
  unfolding index_ip
  known-index_ip index (exact_ip a) c = refl
  known-index_ip index (cidr (net_v4 n)) c = refl
  known-index_ip index (cidr (net_v6 n)) c = refl

  known-index_matcher :
      (index : ℕ) (m : RuleMatcher) (c : CompiledRuleIndex)
      → known (index_matcher index m c) name ≡ known c name
  unfolding index_matcher
  known-index_matcher index (exact_url origin) c = refl
  known-index_matcher index (prefix_url origin) c = refl
  known-index_matcher index (host_matcher m) c = known-index_host index m.pattern c
  known-index_matcher index (ip_matcher m) c = known-index_ip index m.pattern c

  known-compile_loop :
      (rules : List Rule) (index : ℕ) (c : CompiledRuleIndex)
      → known (compile_loop index rules c) name ≡ (known c name || any_names_host rules name)
  unfolding compile_loop
  known-compile_loop [] index c = ground arith
  known-compile_loop (rule ∷ rules) index c =
      let at_rule = index_matcher index rule.matcher c in
      ground (
        arith,
        known-compile_loop rules (index + 1) (note_dns (dns_host_keys rule) at_rule),
        known-note_dns (dns_host_keys rule) at_rule,
        dns_host_keys_lem rule name,
        known-index_matcher index rule.matcher c,
      )

  known_empty : known empty_index name ≡ false
  unfolding get matches get_child
  known_empty = labels (rsplit b'.' name)
    where
      labels : (ks : List Text) → matches_loop ks empty_index.suffix_hosts ≡ false
      labels [] = refl
      labels (k ∷ ks) = refl

-- The description of `matches_dns_host` without the index.
abbrev pub any_names : List Rule → Result MatcherError Text → Bool
any_names entries (err e) = false
any_names entries (ok name) = any_names_host entries name

-- A host is answered exactly if it has a normal form, and some rule that is not direct names it: by its
-- host or one of its hosts, by a suffix that is the host or that the host ends with behind a dot, or by
-- the normal form of the host of its URL. A rule for addresses names none.
pub matches_dns_host-compile :
    (entries : List Rule) (host : Text)
    → matches_dns_host (compile entries) host ≡ any_names entries (normalize_host host)
unfolding matches_dns_host compile
matches_dns_host-compile entries host = cases (normalize_host host)
  where
    cases :
        (r : Result MatcherError Text)
        → elim r [ err e ↦ false | ok name ↦ known (compile entries) name ] ≡ any_names entries r
    cases (err e) = refl
    cases (ok name) =
        ground (arith, known-compile_loop name entries 0 empty_index, known_empty name)
