-- ===== src/Rules/Compile/Fit.antt =====
-- The rules that src/rules/compile.rs lets through, and what the compiled index asks of them.
use any_mirror.Rules.Compile.{
  CompileError, matcher_count, exact_combined, prefix_combined, bad_url, bad_cidr, Parsers, ◌>>=◌,
  ensure, ok_or, in_compile, each_option, each, exact_count, nothing_else, choose_matcher,
  matcher_try_from,
}
use any_mirror.Common.{
  All, ◌==◌, nat_eq, pair_eq, list_eq, option_eq, Result, ok, err, IpAddr, ip_eq, ℕ, ◌≡◌, refl, sym,
  ap, subst, ◌≢◌, Bool, true, ◌||◌, Option, none, some, List, [], ◌∷◌, arith,
}
use any_mirror.Rules.Matching.{
  normalize_host, normalize_host_suffix, normalize_scheme, normalize_path_prefix,
}
use any_mirror.Text.{Text, codes, starts_with}
use any_mirror.Rules.Url.{Url}
use any_mirror.Rules.Model.{
  IpNet, cidr, RuleMatcher, exact_url, prefix_url, host_matcher, ip_matcher, Rule,
}
use any_mirror.Rules.Schema.{RuleMatcherSchema, RuleSchema}
use any_mirror.Rules.Runtime.{Crates}
use any_mirror.Rules.Resolve.{RuleSet, new_rule_set, resolve}
use any_mirror.Rules.Resolve.Linear.{resolve_all, resolve-resolve_all}
use any_mirror.Rules.Candidates.Step.{IsFitPattern, IsFitMatcher}
use any_mirror.Rules.Candidates.Complete.{IsCrates}
use any_mirror.Rules.Compile.Actions.{action_try_from}
use any_mirror.Rules.Compile.Sets.{validate_matcher_action, rule_try_from, rule_set_try_from}

abbrev pub is_http : Url → Bool
is_http u = u.scheme == codes "http" || u.scheme == codes "https"

-- What the rules rely on in the parsers of URLs and of networks.
pub record IsParsers {Json : Type 0} (parsers : Parsers Json) : Type 0 where
  pub net_fits : (t : Text) (n : IpNet) → parsers.parse_net t ≡ some n → IsFitPattern (cidr n)
  pub http_path :
      (t : Text) (u : Url) → parsers.parse_url t ≡ some u → is_http u ≡ true → u.path ≢ []

-- A prefix is an HTTP URL.
abbrev pub IsHttpPrefix : RuleMatcher → Type 0
IsHttpPrefix (exact_url origin) = Unit
IsHttpPrefix (prefix_url origin) = is_http origin ≡ true
IsHttpPrefix (host_matcher m) = Unit
IsHttpPrefix (ip_matcher m) = Unit

-- The first step of a chain that succeeds has succeeded.
pub bind_ok :
    {E A B : Type 0} (r : Result E A) (f : A → Result E B) (b : B)
    → (r >>= f) ≡ ok b
    → (a : A) × (r ≡ ok a) × (f a ≡ ok b)
bind_ok (ok a) f b h = (a, refl, h)
bind_ok (err e) f b h = absurd (ground (arith, h))

pub ok_injective : {E A : Type 0} {a b : A} → ◌≡◌ {A = Result E A} (ok a) (ok b) → a ≡ b
ok_injective h = ground (arith, h)

ok_or-some : {A : Type 0} (e : CompileError) (o : Option A) (a : A) → ok_or e o ≡ ok a → o ≡ some a
ok_or-some e none a h = absurd (ground (arith, h))
ok_or-some e (some b) a h = ground (arith, h)

module _ {Json : Type 0} (parsers : Parsers Json) (laws : IsParsers parsers) where
  module _ (scheme : Option Text) (port : Option ℕ) (path_prefix : Option Text)
      (m : RuleMatcher) where
    abbrev chosen :
        Option Text
        → Option Text
        → Option Text
        → Option (List Text)
        → Option IpAddr
        → Option Text
        → Option Text
        → Result CompileError RuleMatcher
    chosen = choose_matcher parsers scheme port path_prefix

    choose_matcher-fit :
        (exact prefix host : Option Text) (hosts : Option (List Text)) (ip : Option IpAddr)
        (ip_cidr host_suffix : Option Text)
        → chosen exact prefix host hosts ip ip_cidr host_suffix ≡ ok m
        → IsHttpPrefix m
        → IsFitMatcher m
    unfolding choose_matcher
    choose_matcher-fit (some exact) prefix host hosts ip ip_cidr host_suffix h http =
        let (alone, a, h1) =
          bind_ok (ensure (nothing_else scheme port path_prefix) exact_combined) _ m h in
        let (origin, b, h2) = bind_ok (ok_or bad_url (parsers.parse_url exact)) _ m h1 in
        subst IsFitMatcher (ok_injective h2) tt
    choose_matcher-fit none (some prefix) host hosts ip ip_cidr host_suffix h http =
        let (alone, a, h1) =
          bind_ok (ensure (nothing_else scheme port path_prefix) prefix_combined) _ m h in
        let (origin, b, h2) = bind_ok (ok_or bad_url (parsers.parse_url prefix)) _ m h1 in
        let same = ok_injective h2 in
        subst IsFitMatcher same (
          laws.http_path prefix origin (ok_or-some bad_url (parsers.parse_url prefix) origin b)
            (subst IsHttpPrefix (sym same) http))
    choose_matcher-fit none none (some host) hosts ip ip_cidr host_suffix h http =
        let (normalized, a, h1) = bind_ok (in_compile (normalize_host host)) _ m h in
        subst IsFitMatcher (ok_injective h1) tt
    choose_matcher-fit none none none (some []) ip ip_cidr host_suffix h http =
        absurd (ground (arith, h))
    choose_matcher-fit none none none (some (first ∷ others)) ip ip_cidr host_suffix h http =
        let (normalized, a, h1) =
          bind_ok (each (λ value. in_compile (normalize_host value)) (first ∷ others)) _ m h in
        subst IsFitMatcher (ok_injective h1) tt
    choose_matcher-fit none none none none (some ip) ip_cidr host_suffix h http =
        subst IsFitMatcher (ok_injective h) tt
    choose_matcher-fit none none none none none (some ip_cidr) host_suffix h http =
        let (net, a, h1) = bind_ok (ok_or bad_cidr (parsers.parse_net ip_cidr)) _ m h in
        subst IsFitMatcher (ok_injective h1)
          (laws.net_fits ip_cidr net (ok_or-some bad_cidr (parsers.parse_net ip_cidr) net a))
    choose_matcher-fit none none none none none none (some host_suffix) h http =
        let (normalized, a, h1) = bind_ok (in_compile (normalize_host_suffix host_suffix)) _ m h in
        subst IsFitMatcher (ok_injective h1) tt
    choose_matcher-fit none none none none none none none h http = absurd (ground (arith, h))

  matcher_try_from-fit :
      (v : RuleMatcherSchema) (m : RuleMatcher)
      → matcher_try_from parsers v ≡ ok m
      → IsHttpPrefix m
      → IsFitMatcher m
  unfolding matcher_try_from
  matcher_try_from-fit v m h http =
      let (scheme, a, h1) =
        bind_ok (each_option (λ s. in_compile (normalize_scheme s)) v.scheme) _ m h in
      let (path_prefix, b, h2) =
        bind_ok (each_option (λ p. in_compile (normalize_path_prefix p)) v.path_prefix) _ m h1 in
      let (one, c, h3) = bind_ok (ensure (exact_count v == 1) matcher_count) _ m h2 in
      choose_matcher-fit scheme v.port path_prefix m v.exact v.prefix v.host v.hosts v.ip v.ip_cidr
        v.host_suffix h3 http

  rule_try_from-fit :
      (v : RuleSchema Json) (rule : Rule)
      → rule_try_from parsers v ≡ ok rule
      → IsHttpPrefix rule.matcher
      → IsFitMatcher rule.matcher
  unfolding rule_try_from
  rule_try_from-fit v rule h http =
      let (matcher, a, h1) = bind_ok (matcher_try_from parsers v.matcher) _ rule h in
      let (action, b, h2) = bind_ok (action_try_from parsers v.action) _ rule h1 in
      let (valid, c, h3) = bind_ok (validate_matcher_action matcher action) _ rule h2 in
      let same = ap (λ r. r.matcher) (ok_injective h3) in
      subst IsFitMatcher same
        (matcher_try_from-fit v.matcher matcher a (subst IsHttpPrefix (sym same) http))

  each-fit :
      (schemas : List (RuleSchema Json)) (entries : List Rule)
      → each (rule_try_from parsers) schemas ≡ ok entries
      → All (λ rule. IsHttpPrefix rule.matcher) entries
      → All (λ rule. IsFitMatcher rule.matcher) entries
  each-fit [] [] h http = tt
  each-fit [] (rule ∷ entries) h http = absurd (ground (arith, h))
  each-fit (v ∷ schemas) entries h http =
      let (rule, a, h1) = bind_ok (rule_try_from parsers v) _ entries h in
      let (rest, b, h2) = bind_ok (each (rule_try_from parsers) schemas) _ entries h1 in
      let same = ok_injective h2 in
      let http' = subst (All (λ r. IsHttpPrefix r.matcher)) (sym same) http in
      subst (All (λ r. IsFitMatcher r.matcher)) same
        (rule_try_from-fit v rule a http'.0, each-fit schemas rest b http'.1)

  -- With parsers and crates that behave as documented, a rule set that the configuration compiles to,
  -- with HTTP URLs as its prefixes, resolves a request whose path begins with a slash as trying every
  -- rule in order does.
  pub compiled-resolve_all :
      (crates : Crates) (schemas : List (RuleSchema Json)) (rules : RuleSet) (original : Url)
      → IsCrates crates
      → rule_set_try_from parsers schemas ≡ ok rules
      → All (λ rule. IsHttpPrefix rule.matcher) rules.entries
      → starts_with original.path (b'/' ∷ []) ≡ true
      → resolve crates rules original ≡ some (resolve_all crates rules.entries original)
  unfolding rule_set_try_from new_rule_set
  compiled-resolve_all crates schemas rules original w h http slash =
      let (entries, a, h1) = bind_ok (each (rule_try_from parsers) schemas) _ rules h in
      let same = ok_injective h1 in
      subst (λ r. resolve crates r original ≡ some (resolve_all crates r.entries original)) same
        (resolve-resolve_all crates w entries original
          (each-fit schemas entries a
            (subst (λ r. All (λ rule. IsHttpPrefix rule.matcher) r.entries) (sym same) http))
          slash)
