-- ===== src/Rules/Compile/Tests.antt =====
-- A configuration in the manner of src/rules/tests.rs, compiled.
use any_mirror.Rules.Compile.{expect_failed, Parsers, exact_count, choose_matcher, matcher_try_from}
use any_mirror.Common.{
  nat_eq, pair_eq, list_eq, option_eq, ok, err, IpAddr, v4, v6, ip_eq, ℕ, ◌≡◌, refl, ap, ◌≢◌, Bool,
  true, false, none, some, List, [], ◌∷◌, arith,
}
use any_mirror.Text.{
  Text, codes, trim_end_matches, to_ascii_lowercase, starts_with, trim_start_matches, is_whitespace,
  trim_start, trim_end, trim, contains_text,
}
use any_mirror.Rules.Url.{Url}
use any_mirror.Rules.Model.{
  kind_prefix, kind_host_suffix, medium, high, IpNet, net_v4, net_v6, suffix, prefix_url,
  host_matcher, udp, UpstreamPlan, mirror, reject, Rule,
}
use any_mirror.Rules.Schema.{
  named_high, named_priority, named, into_priority, RuleMatcherSchema, UpstreamPlanSchema,
  mirror_to, reject_with, RuleSchema,
}
use any_mirror.Rules.Matching.{normalize_host_suffix}
use any_mirror.Rules.Runtime.{Crates}
use any_mirror.Rules.Resolve.{new_rule_set, resolve}
use any_mirror.Rules.Resolve.Linear.{resolve_all}
use any_mirror.Rules.Candidates.Complete.{IsCrates}
use any_mirror.Rules.Compile.Actions.{
  dns_plan_try_from, validate, upstream_try_from, action_try_from,
}
use any_mirror.Rules.Compile.Sets.{
  kind_of, validate_matcher_action, rule_try_from, rule_set_try_from,
}
use any_mirror.Rules.Compile.Fit.{IsParsers, compiled-resolve_all}
use any_mirror.Rules.Compile.Valid.{
  IsValidPlan, upstream_try_from-IsValidPlan, matcher_try_from-panic,
}
use any_mirror.Trie.Cidr.Contains.{in_network}

abbrev net_test : IpNet → IpAddr → Bool
net_test (net_v4 n) (v4 a) = in_network 32 n a
net_test (net_v4 n) (v6 a) = false
net_test (net_v6 n) (v4 a) = false
net_test (net_v6 n) (v6 a) = in_network 128 n a

-- Readings of the crates, to run the model with.
abbrev crates : Crates
crates = record {
  parse_ip = λ t. none;
  net_contains = net_test;
  set_path = λ u p. record u { path = p };
  set_query = λ u q. record u { query = q };
  set_fragment = λ u f. record u { fragment = f };
}

crates-IsCrates : IsCrates crates
crates-IsCrates = record {
  contains_v4 = λ n a. refl;
  contains_v6 = λ n a. refl;
  other_v4 = λ n a. refl;
  other_v6 = λ n a. refl;
  parse_fits = λ t. tt;
}

abbrev api_host : Text
api_host = codes "api.example.com"

-- Every text is the URL of one path on one host.
abbrev url : Text → Url
url path = record {
  scheme = codes "https";
  host_str = some api_host;
  port_or_known_default = some 443;
  path = b'/' ∷ path;
  query = none;
  fragment = none;
}

abbrev parsers : Parsers ℕ
parsers = record {
  parse_url = λ t. some (url t);
  parse_net = λ t. none;
  header_name = λ t. some t;
  header_value = λ t. some t;
  header_insert = λ n b h. (n, b) ∷ h;
  static_value = λ t. t;
  bytes = λ t. t;
  json_bytes = λ j. some (j ∷ []);
  decode_base64 = λ t. some t;
  is_file = λ t. some true;
  content_type_of = λ t. none;
}

parsers-IsParsers : IsParsers parsers
parsers-IsParsers = record {
  net_fits = λ t n h. absurd (ground (arith, h));
  http_path = λ t u h http e. ground (arith, h, e, ap (λ x. x.path) (some_injective h));
}
  where
    some_injective : {a b : Url} → some a ≡ some b → a ≡ b
    some_injective h = ground (arith, h)

abbrev no_matcher : RuleMatcherSchema
no_matcher = record {
  exact = none;
  prefix = none;
  host = none;
  hosts = none;
  host_suffix = none;
  ip = none;
  ip_cidr = none;
  scheme = none;
  port = none;
  path_prefix = none;
}

abbrev upstream : UpstreamPlanSchema
upstream = record {
  url = codes "mirror";
  sni = some [];
  host = none;
  connect_host = some (codes "edge");
  connect_ip = none;
  dns = some (record { mode = udp; server = some (codes "1.1.1.1") });
}

abbrev schemas : List (RuleSchema ℕ)
schemas =
    record {
      matcher = record no_matcher { prefix = some (codes "p") };
      priority = some (named named_high);
      spread = none;
      action = mirror_to upstream;
    }
    ∷ record {
      matcher = record no_matcher { host_suffix = some (codes ".Example.com") };
      priority = none;
      spread = some true;
      action = reject_with none none;
    }
    ∷ []

abbrev plan : UpstreamPlan
plan = record {
  url = url (codes "mirror");
  sni = none;
  host = none;
  connect_host = some (codes "edge");
  connect_ip = none;
  dns = some (record { mode = udp; server = some (codes "1.1.1.1") });
}

abbrev entries : List Rule
entries =
    record {
      kind = kind_prefix;
      matcher = prefix_url (url (codes "p"));
      action = mirror plan;
      priority = high;
      spread = false;
    }
    ∷ record {
      kind = kind_host_suffix;
      matcher = host_matcher (record {
        pattern = suffix (codes "example.com");
        scheme = none;
        port = none;
        path_prefix = none;
      });
      action = reject (record { status = 403; message = codes "request rejected by rule" });
      priority = medium;
      spread = true;
    }
    ∷ []

program : Unit {0}
unfolding matcher_try_from exact_count choose_matcher upstream_try_from action_try_from validate
    dns_plan_try_from rule_try_from rule_set_try_from kind_of validate_matcher_action into_priority
    named_priority normalize_host_suffix trim trim_end_matches trim_start_matches trim_start
    trim_end to_ascii_lowercase contains_text starts_with new_rule_set is_whitespace
program = tt

compiles : rule_set_try_from parsers schemas ≡ ok (new_rule_set entries)
unfolding program
compiles = refl

compiled-resolve_all_example :
    resolve crates (new_rule_set entries) (url (codes "p/q"))
    ≡ some (resolve_all crates (new_rule_set entries).entries (url (codes "p/q")))
unfolding program
compiled-resolve_all_example =
    compiled-resolve_all parsers parsers-IsParsers crates schemas (new_rule_set entries)
      (url (codes "p/q")) crates-IsCrates compiles (refl, (tt, tt)) refl

upstream_compiles : upstream_try_from parsers upstream ≡ ok plan
unfolding program
upstream_compiles = refl

upstream_try_from-IsValidPlan_example : IsValidPlan plan
upstream_try_from-IsValidPlan_example =
    upstream_try_from-IsValidPlan parsers upstream plan upstream_compiles

matcher_try_from-panic_example : matcher_try_from parsers no_matcher ≢ err expect_failed
matcher_try_from-panic_example = matcher_try_from-panic parsers no_matcher
