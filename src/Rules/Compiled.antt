-- ===== src/Rules/Compiled.antt =====
-- src/rules/pool/compiled.rs: the index that a rule set is compiled to.
use any_mirror.Common.{
  if◌then◌else◌, nat_beq_iff, KeyEq, ◌==◌, nat_eq, pair_eq, list_beq_iff, list_eq, option_beq_iff,
  option_eq, Result, ok, err, IpAddr, ip_eq, ℕ, ◌+◌, ◌≡◌, ◌↔◌, Bool, true, false, ◌&&◌, Option,
  none, some, List, [], ◌∷◌, ◌++◌, arith,
}
use any_mirror.HashMap.{HashMap, get, insert}
use any_mirror.Text.{Text}
use any_mirror.Rules.Url.{Url}
use any_mirror.Rules.Model.{
  net_v4, net_v6, HostPattern, exact_host, any_of, suffix, IpPattern, exact_ip, cidr, RuleMatcher,
  exact_url, prefix_url, host_matcher, ip_matcher, RuleAction, mirror, direct, respond, plugin,
  reject, Rule,
}
use any_mirror.Rules.Matching.{normalize_host}
use any_mirror.Trie.Cidr.{CidrNode, insert_v4, insert_v6}
use any_mirror.Trie.Cidr as Cidrs
use any_mirror.Trie.Path.{insert as insert_path, PrefixPathNode, empty_trie}
use any_mirror.Trie.Path as PathTrie
use any_mirror.Trie.Host.{SuffixHostNode, insert_rule, mark_dns}
use any_mirror.Trie.Host as HostTrie

pub record OriginKey : Type 0 where
  pub scheme : Text
  pub host : Text
  pub port : ℕ

pub record ExactUrlKey : Type 0 where
  pub origin : OriginKey
  pub path : Text
  pub query : Option Text

abbrev pub origin_beq : OriginKey → OriginKey → Bool
origin_beq a b = a.scheme == b.scheme && a.host == b.host && a.port == b.port

pub origin_same_iff : (a b : OriginKey) → (origin_beq a b ≡ true) ↔ (a ≡ b)
origin_same_iff a b =
    ground
      (arith, list_beq_iff a.scheme b.scheme, list_beq_iff a.host b.host, nat_beq_iff a.port b.port)

instance abbrev pub origin_eq : KeyEq OriginKey
origin_eq = record { same = origin_beq; same_iff = origin_same_iff }

-- `PartialEq for ExactUrlKey`
abbrev pub exact_url_beq : ExactUrlKey → ExactUrlKey → Bool
exact_url_beq a b = a.origin == b.origin && a.path == b.path && a.query == b.query

pub exact_url_same_iff : (a b : ExactUrlKey) → (exact_url_beq a b ≡ true) ↔ (a ≡ b)
exact_url_same_iff a b = ground (
  arith,
  origin_same_iff a.origin b.origin,
  list_beq_iff a.path b.path,
  option_beq_iff a.query b.query,
)

instance abbrev pub exact_url_eq : KeyEq ExactUrlKey
exact_url_eq = record { same = exact_url_beq; same_iff = exact_url_same_iff }

-- A `HashSet` is a map to nothing.
pub record CompiledRuleIndex : Type 0 where
  pub exact_urls : HashMap ExactUrlKey (List ℕ)
  pub prefix_origins : HashMap OriginKey PrefixPathNode
  pub exact_hosts : HashMap Text (List ℕ)
  pub suffix_hosts : SuffixHostNode
  pub exact_ips : HashMap IpAddr (List ℕ)
  pub ipv4_cidr_ips : CidrNode
  pub ipv6_cidr_ips : CidrNode
  pub dns_exact_hosts : HashMap Text (Unit {0})

abbrev pub ok_or_empty : {E : Type 0} → Result E Text → Text
ok_or_empty (ok t) = t
ok_or_empty (err e) = []

abbrev pub text_or_empty : Option Text → Text
text_or_empty none = []
text_or_empty (some t) = t

abbrev pub port_or_zero : Option ℕ → ℕ
port_or_zero none = 0
port_or_zero (some p) = p

unfoldable pub origin_from_url : Url → OriginKey
origin_from_url url = record {
  scheme = url.scheme;
  host = ok_or_empty (normalize_host (text_or_empty url.host_str));
  port = port_or_zero url.port_or_known_default;
}

unfoldable pub exact_url_from_url : Url → ExactUrlKey
unfolding origin_from_url
exact_url_from_url url = record { origin = origin_from_url url; path = url.path; query = url.query }

pub record RuleDnsKeys : Type 0 where
  pub exact_hosts : List Text
  pub suffix_hosts : List Text

abbrev pub no_keys : RuleDnsKeys
no_keys = record { exact_hosts = []; suffix_hosts = [] }

abbrev pub is_direct : RuleAction → Bool
is_direct (mirror _) = false
is_direct direct = true
is_direct (respond _) = false
is_direct (plugin _) = false
is_direct (reject _) = false

abbrev pub url_dns_keys : Option Text → RuleDnsKeys
url_dns_keys none = no_keys
url_dns_keys (some host) = elim (normalize_host host) [
  | ok normalized ↦ record { exact_hosts = normalized ∷ []; suffix_hosts = [] }
  | err e ↦ no_keys
]

abbrev pub pattern_dns_keys : HostPattern → RuleDnsKeys
pattern_dns_keys (exact_host host) = record { exact_hosts = host ∷ []; suffix_hosts = [] }
pattern_dns_keys (any_of hosts) = record { exact_hosts = hosts; suffix_hosts = [] }
pattern_dns_keys (suffix s) = record { exact_hosts = []; suffix_hosts = s ∷ [] }

abbrev pub matcher_dns_keys : RuleMatcher → RuleDnsKeys
matcher_dns_keys (exact_url origin) = url_dns_keys origin.host_str
matcher_dns_keys (prefix_url origin) = url_dns_keys origin.host_str
matcher_dns_keys (host_matcher m) = pattern_dns_keys m.pattern
matcher_dns_keys (ip_matcher m) = no_keys

unfoldable pub dns_host_keys : Rule → RuleDnsKeys
dns_host_keys rule = if is_direct rule.action then no_keys else matcher_dns_keys rule.matcher

-- `entry(key).or_insert_with(Vec::new).push(index)`
unfoldable pub push_entry :
    {K : Type 0} ⦃e : KeyEq K⦄ → K → ℕ → HashMap K (List ℕ) → HashMap K (List ℕ)
push_entry key index m = elim (get key m) [
  | none ↦ insert key (index ∷ []) m
  | some indices ↦ insert key (indices ++ index ∷ []) m
]

unfoldable pub push_entries :
    {K : Type 0} ⦃e : KeyEq K⦄ → List K → ℕ → HashMap K (List ℕ) → HashMap K (List ℕ)
push_entries [] index m = m
push_entries (key ∷ keys) index m = push_entries keys index (push_entry key index m)

-- `entry(key).or_insert_with(PrefixPathTrie::default).insert(path, index)`
unfoldable pub insert_prefix :
    OriginKey → Text → ℕ → HashMap OriginKey PrefixPathNode → HashMap OriginKey PrefixPathNode
insert_prefix key path index m = elim (get key m) [
  | none ↦ insert key (insert_path PathTrie.empty_trie path index) m
  | some trie ↦ insert key (insert_path trie path index) m
]

-- The `match` on the pattern of a host.
unfoldable pub index_host : ℕ → HostPattern → CompiledRuleIndex → CompiledRuleIndex
unfolding push_entry push_entries
index_host index (exact_host host) c = record c {
  exact_hosts = push_entry host index c.exact_hosts;
}
index_host index (any_of hosts) c = record c {
  exact_hosts = push_entries hosts index c.exact_hosts;
}
index_host index (suffix s) c = record c { suffix_hosts = insert_rule c.suffix_hosts s index }

-- The `match` on the pattern of an address.
unfoldable pub index_ip : ℕ → IpPattern → CompiledRuleIndex → CompiledRuleIndex
unfolding push_entry
index_ip index (exact_ip ip) c = record c { exact_ips = push_entry ip index c.exact_ips }
index_ip index (cidr (net_v4 n)) c = record c { ipv4_cidr_ips = insert_v4 c.ipv4_cidr_ips n index }
index_ip index (cidr (net_v6 n)) c = record c { ipv6_cidr_ips = insert_v6 c.ipv6_cidr_ips n index }

-- The `match` on a rule's matcher.
unfoldable pub index_matcher : ℕ → RuleMatcher → CompiledRuleIndex → CompiledRuleIndex
unfolding push_entry insert_prefix index_host index_ip
index_matcher index (exact_url origin) c = record c {
  exact_urls = push_entry (exact_url_from_url origin) index c.exact_urls;
}
index_matcher index (prefix_url origin) c = record c {
  prefix_origins = insert_prefix (origin_from_url origin) origin.path index c.prefix_origins;
}
index_matcher index (host_matcher m) c = index_host index m.pattern c
index_matcher index (ip_matcher m) c = index_ip index m.pattern c

unfoldable pub extend : List Text → HashMap Text (Unit {0}) → HashMap Text (Unit {0})
extend [] m = m
extend (host ∷ hosts) m = extend hosts (insert host tt m)

unfoldable pub mark_all : List Text → SuffixHostNode → SuffixHostNode
mark_all [] n = n
mark_all (s ∷ suffixes) n = mark_all suffixes (mark_dns n s)

-- What the loop of `compile` does with the keys of a rule.
unfoldable pub note_dns : RuleDnsKeys → CompiledRuleIndex → CompiledRuleIndex
unfolding extend mark_all
note_dns keys c = record c {
  dns_exact_hosts = extend keys.exact_hosts c.dns_exact_hosts;
  suffix_hosts = mark_all keys.suffix_hosts c.suffix_hosts;
}

unfoldable pub compile_loop : ℕ → List Rule → CompiledRuleIndex → CompiledRuleIndex
compile_loop index [] c = c
compile_loop index (rule ∷ rules) c =
    compile_loop (index + 1) rules
      (note_dns (dns_host_keys rule) (index_matcher index rule.matcher c))

abbrev pub empty_index : CompiledRuleIndex
empty_index = record {
  exact_urls = [];
  prefix_origins = [];
  exact_hosts = [];
  suffix_hosts = HostTrie.empty_trie;
  exact_ips = [];
  ipv4_cidr_ips = Cidrs.default;
  ipv6_cidr_ips = Cidrs.default;
  dns_exact_hosts = [];
}

unfoldable pub compile : List Rule → CompiledRuleIndex
unfolding compile_loop
compile entries = compile_loop 0 entries empty_index
