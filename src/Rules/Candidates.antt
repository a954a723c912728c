-- ===== src/Rules/Candidates.antt =====
-- Which rules the index of src/rules/pool/compiled.rs offers for a request, described without the
-- index: how often the key of a rule is the one that the request is looked up by.
pub mod Maps
pub mod Step
pub mod Bounded
pub mod Parts
pub mod Exact
pub mod Complete
use any_mirror.Common.{
  if◌then◌else◌, ◌==◌, nat_eq, pair_eq, list_eq, option_eq, IpAddr, v4, v6, ip_eq, ℕ, ◌+◌, ◌&&◌,
  Option, none, some, List, [], ◌∷◌,
}
use any_mirror.Text.{Text}
use any_mirror.Text.Pieces.{has_piece_suffix}
use any_mirror.Rules.Url.{Url}
use any_mirror.Rules.Model.{
  net_v4, net_v6, HostPattern, exact_host, any_of, suffix, IpPattern, exact_ip, cidr, RuleMatcher,
  exact_url, prefix_url, host_matcher, ip_matcher,
}
use any_mirror.Rules.Matching.{path_has_prefix}
use any_mirror.Rules.Compiled.{origin_eq, exact_url_eq, origin_from_url, exact_url_from_url}
use any_mirror.Rules.Runtime.{LookupContext}
use any_mirror.Trie.Cidr.Contains.{in_network}

-- How often a host is in a list.
abbrev pub host_count : Text → List Text → ℕ
host_count name [] = 0
host_count name (host ∷ rest) = (if host == name then 1 else 0) + host_count name rest

abbrev pub host_occurrences : HostPattern → Option Text → ℕ
host_occurrences pattern none = 0
host_occurrences (exact_host host) (some name) = if host == name then 1 else 0
host_occurrences (any_of listed) (some name) = host_count name listed
host_occurrences (suffix s) (some name) = if has_piece_suffix b'.' name s then 1 else 0

abbrev pub ip_occurrences : IpPattern → Option IpAddr → ℕ
ip_occurrences pattern none = 0
ip_occurrences (exact_ip expected) (some a) = if expected == a then 1 else 0
ip_occurrences (cidr (net_v4 n)) (some (v4 a)) = if in_network 32 n a then 1 else 0
ip_occurrences (cidr (net_v4 n)) (some (v6 a)) = 0
ip_occurrences (cidr (net_v6 n)) (some (v4 a)) = 0
ip_occurrences (cidr (net_v6 n)) (some (v6 a)) = if in_network 128 n a then 1 else 0

abbrev pub occurrences : RuleMatcher → Url → LookupContext → ℕ
occurrences (exact_url origin) original lookup =
    if exact_url_from_url origin == lookup.exact_url_key then 1 else 0
occurrences (prefix_url origin) original lookup =
    if origin_from_url origin == lookup.origin_key && path_has_prefix original.path origin.path
    then 1
    else 0
occurrences (host_matcher m) original lookup = host_occurrences m.pattern lookup.normalized_host
occurrences (ip_matcher m) original lookup = ip_occurrences m.pattern lookup.ip
