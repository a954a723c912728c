-- ===== src/Rules/Candidates/Complete.antt =====
-- The matchers of src/rules/pool/runtime.rs against the keys of src/rules/pool/compiled.rs.
use any_mirror.Common.{
  ◌>>=◌, nat_eq, pair_eq, list_beq_iff, list_eq, option_beq_iff, option_eq, IpAddr, v4, v6, ip_eq,
  ℕ, ◌≤◌, ◌≡◌, refl, Bool, true, false, Option, none, some, List, [], ◌∷◌, arith,
}
use any_mirror.Text.{Text}
use any_mirror.Rules.Url.{Url}
use any_mirror.Rules.Model.{
  net_v4, net_v6, HostPattern, exact_host, any_of, suffix, IpPattern, exact_ip, cidr,
  HostRuleMatcher, IpRuleMatcher, RuleMatcher, exact_url, prefix_url, host_matcher, ip_matcher,
}
use any_mirror.Rules.Matching.{same_origin, same_url}
use any_mirror.Rules.Compiled.{
  origin_same_iff, origin_eq, exact_url_same_iff, exact_url_eq, origin_from_url, exact_url_from_url,
}
use any_mirror.Rules.Runtime.{
  Crates, LookupContext, RuleMatchExplain, matched, mismatch, resolve_path_suffix, has_host,
  host_pattern_match, host_explain_match, ip_pattern_match, ip_explain_match, explain_with_lookup,
  lookup_from_url,
}
use any_mirror.Rules.Candidates.{host_count, host_occurrences, ip_occurrences, occurrences}
use any_mirror.Rules.Candidates.Step.{IsFitAddress}
use any_mirror.Trie.Cidr.{Cidr}
use any_mirror.Trie.Cidr.Contains.{in_network}

-- What the rules rely on in `ipnet` and in the parser of addresses.
pub record IsCrates (crates : Crates) : Type 0 where
  pub contains_v4 : (n : Cidr) (a : ℕ) → crates.net_contains (net_v4 n) (v4 a) ≡ in_network 32 n a
  pub contains_v6 : (n : Cidr) (a : ℕ) → crates.net_contains (net_v6 n) (v6 a) ≡ in_network 128 n a
  pub other_v4 : (n : Cidr) (a : ℕ) → crates.net_contains (net_v4 n) (v6 a) ≡ false
  pub other_v6 : (n : Cidr) (a : ℕ) → crates.net_contains (net_v6 n) (v4 a) ≡ false
  pub parse_fits : (t : Text) → IsFitAddress (crates.parse_ip t)

abbrev pub is_matched : RuleMatchExplain → Bool
is_matched (matched rest) = true
is_matched (mismatch reason) = false

same_origin_key : (a b : Url) → same_origin a b ≡ true → origin_from_url b ≡ origin_from_url a
unfolding same_origin origin_from_url
same_origin_key a b h = ground (
  arith,
  list_beq_iff a.scheme b.scheme,
  option_beq_iff a.host_str b.host_str,
  option_beq_iff a.port_or_known_default b.port_or_known_default,
)

same_url_key : (a b : Url) → same_url a b ≡ true → exact_url_from_url b ≡ exact_url_from_url a
unfolding same_url exact_url_from_url
same_url_key a b h =
    ground (arith, same_origin_key a b, list_beq_iff a.path b.path, option_beq_iff a.query b.query)

host_count_has :
    (name : Text) (keys : List Text) → has_host keys name ≡ true → 1 ≤ host_count name keys
host_count_has name [] h = absurd (ground arith)
host_count_has name (key ∷ keys) h = ground (arith, host_count_has name keys)

host_complete :
    (pattern : HostPattern) (name : Text) (rest : Option Text)
    → is_matched (host_pattern_match pattern name rest) ≡ true
    → 1 ≤ host_occurrences pattern (some name)
unfolding host_pattern_match
host_complete (exact_host key) name rest h = ground arith
host_complete (any_of keys) name rest h = ground (arith, host_count_has name keys)
host_complete (suffix s) name rest h = ground arith

module _ (crates : Crates) (laws : IsCrates crates) where
  ip_complete :
      (pattern : IpPattern) (a : IpAddr) (rest : Option Text)
      → is_matched (ip_pattern_match crates pattern a rest) ≡ true
      → 1 ≤ ip_occurrences pattern (some a)
  unfolding ip_pattern_match
  ip_complete (exact_ip e) a rest h = ground arith
  ip_complete (cidr (net_v4 n)) (v4 a) rest h = ground (arith, laws.contains_v4 n a)
  ip_complete (cidr (net_v4 n)) (v6 a) rest h = absurd (ground (arith, laws.other_v4 n a))
  ip_complete (cidr (net_v6 n)) (v4 a) rest h = absurd (ground (arith, laws.other_v6 n a))
  ip_complete (cidr (net_v6 n)) (v6 a) rest h = ground (arith, laws.contains_v6 n a)

  host_matcher_complete :
      (m : HostRuleMatcher) (lookup : LookupContext) (host : Option Text)
      → lookup.normalized_host ≡ host
      → is_matched (host_explain_match m lookup) ≡ true
      → 1 ≤ host_occurrences m.pattern host
  unfolding host_explain_match
  host_matcher_complete m lookup none e h = absurd (ground (arith, e))
  host_matcher_complete m lookup (some name) e h = ground (
    arith,
    e,
    host_complete m.pattern name (some (resolve_path_suffix m.path_prefix lookup.path)),
  )

  ip_matcher_complete :
      (m : IpRuleMatcher) (lookup : LookupContext) (ip : Option IpAddr)
      → lookup.ip ≡ ip
      → is_matched (ip_explain_match crates m lookup) ≡ true
      → 1 ≤ ip_occurrences m.pattern ip
  unfolding ip_explain_match
  ip_matcher_complete m lookup none e h = absurd (ground (arith, e))
  ip_matcher_complete m lookup (some a) e h =
      ground
        (arith, e, ip_complete m.pattern a (some (resolve_path_suffix m.path_prefix lookup.path)))

  pub matched-occurrences :
      (m : RuleMatcher) (original : Url)
      → is_matched (explain_with_lookup crates m original (lookup_from_url crates original)) ≡ true
      → 1 ≤ occurrences m original (lookup_from_url crates original)
  unfolding explain_with_lookup lookup_from_url
  matched-occurrences (exact_url origin) original h = ground (
    arith,
    same_url_key original origin,
    exact_url_same_iff (exact_url_from_url origin) (exact_url_from_url original),
  )
  matched-occurrences (prefix_url origin) original h = ground (
    arith,
    same_origin_key original origin,
    origin_same_iff (origin_from_url origin) (origin_from_url original),
  )
  matched-occurrences (host_matcher m) original h =
      host_matcher_complete m (lookup_from_url crates original)
        (lookup_from_url crates original).normalized_host refl h
  matched-occurrences (ip_matcher m) original h =
      ip_matcher_complete m (lookup_from_url crates original) (lookup_from_url crates original).ip
        refl h

  pub lookup_fits : (original : Url) → IsFitAddress (lookup_from_url crates original).ip
  unfolding lookup_from_url
  lookup_fits original = fits original.host_str
    where
      fits : (host : Option Text) → IsFitAddress (host >>= crates.parse_ip)
      fits none = tt
      fits (some t) = laws.parse_fits t
