-- ===== src/Rules/Compile.antt =====
-- src/rules/compile.rs: from the rules of the configuration to a rule set.
pub mod Actions
pub mod Sets
pub mod Fit
pub mod Valid
mod Tests
use any_mirror.Common.{
  if◌then◌else◌, is_some, ◌==◌, nat_eq, pair_eq, list_eq, option_eq, Result, ok, err, IpAddr, ip_eq,
  ℕ, ◌+◌, Bool, true, false, not, ◌&&◌, Option, none, some, List, [], ◌∷◌,
}
use any_mirror.Text.{Text, is_empty}
use any_mirror.Rules.Url.{Url}
use any_mirror.Rules.Model.{
  IpNet, HostPattern, exact_host, any_of, suffix, IpPattern, exact_ip, cidr, RuleMatcher, exact_url,
  prefix_url, host_matcher, ip_matcher, HeaderMap,
}
use any_mirror.Rules.Schema.{RuleMatcherSchema}
use any_mirror.Rules.Matching.{
  MatcherError, normalize_host, normalize_host_suffix, normalize_scheme, normalize_path_prefix,
}

pub data CompileError : Type 0 where
  bad_matcher_text : MatcherError → CompileError
  matcher_count exact_combined prefix_combined bad_url empty_hosts bad_cidr : CompileError
  empty_plugin_name bad_status empty_message bad_header length_header type_header : CompileError
  empty_content_type body_count bad_json empty_file no_file not_regular_file bad_base64 :
      CompileError
  host_and_ip dns_and_ip system_with_server server_missing query_in_prefix : CompileError
  -- the panic of an `expect`
  expect_failed : CompileError

-- What the compilation calls of `url`, `ipnet`, `http`, `serde_json`, `base64`, `mime_guess` and the
-- file system. `is_file` is nothing where the file's metadata cannot be read.
pub record Parsers (Json : Type 0) : Type 0 where
  pub parse_url : Text → Option Url
  pub parse_net : Text → Option IpNet
  pub header_name : Text → Option Text
  pub header_value : Text → Option (List ℕ)
  pub header_insert : Text → List ℕ → HeaderMap → HeaderMap
  pub static_value : Text → List ℕ
  pub bytes : Text → List ℕ
  pub json_bytes : Json → Option (List ℕ)
  pub decode_base64 : Text → Option (List ℕ)
  pub is_file : Text → Option Bool
  pub content_type_of : Text → Option Text

infixl 5 ◌>>=◌
abbrev pub ◌>>=◌ : {E A B : Type 0} → Result E A → (A → Result E B) → Result E B
ok a >>= f = f a
err e >>= f = err e

abbrev pub ensure : {E : Type 0} → Bool → E → Result E (Unit {0})
ensure true e = ok tt
ensure false e = err e

abbrev pub ok_or : {E A : Type 0} → E → Option A → Result E A
ok_or e none = err e
ok_or e (some a) = ok a

abbrev pub in_compile : {A : Type 0} → Result MatcherError A → Result CompileError A
in_compile (ok a) = ok a
in_compile (err e) = err (bad_matcher_text e)

-- `as_deref().map(f).transpose()?`
abbrev pub each_option :
    {A B : Type 0} → (A → Result CompileError B) → Option A → Result CompileError (Option B)
each_option f none = ok none
each_option f (some a) = f a >>= (λ b. ok (some b))

abbrev pub each : {E A B : Type 0} → (A → Result E B) → List A → Result E (List B)
each f [] = ok []
each f (a ∷ as') = f a >>= (λ b. each f as' >>= (λ bs. ok (b ∷ bs)))

abbrev pub non_empty : Option Text → Option Text
non_empty none = none
non_empty (some t) = if is_empty t then none else some t

abbrev pub bool_count : Bool → ℕ
bool_count true = 1
bool_count false = 0

unfoldable pub exact_count : RuleMatcherSchema → ℕ
exact_count v =
    bool_count (is_some v.exact)
    + bool_count (is_some v.prefix)
    + bool_count (is_some v.host)
    + bool_count (is_some v.hosts)
    + bool_count (is_some v.host_suffix)
    + bool_count (is_some v.ip)
    + bool_count (is_some v.ip_cidr)

abbrev pub nothing_else : Option Text → Option ℕ → Option Text → Bool
nothing_else scheme port path_prefix =
    not (is_some scheme) && not (is_some port) && not (is_some path_prefix)

module _ {Json : Type 0} (parsers : Parsers Json) where
  module _ (scheme : Option Text) (port : Option ℕ) (path_prefix : Option Text) where
    abbrev pub host_rule : HostPattern → RuleMatcher
    host_rule pattern =
        host_matcher
          (record { pattern = pattern; scheme = scheme; port = port; path_prefix = path_prefix })

    abbrev pub ip_rule : IpPattern → RuleMatcher
    ip_rule pattern =
        ip_matcher
          (record { pattern = pattern; scheme = scheme; port = port; path_prefix = path_prefix })

    -- The `if let`s of `RuleMatcher::try_from`, in their order: `exact`, `prefix`, `host`, `hosts`,
    -- `ip`, `ip_cidr`, `host_suffix`.
    unfoldable pub choose_matcher :
        Option Text
        → Option Text
        → Option Text
        → Option (List Text)
        → Option IpAddr
        → Option Text
        → Option Text
        → Result CompileError RuleMatcher
    choose_matcher (some exact) prefix host hosts ip ip_cidr host_suffix = do
      alone ← ensure (nothing_else scheme port path_prefix) exact_combined
      origin ← ok_or bad_url (parsers.parse_url exact)
      ok (exact_url origin)
    choose_matcher none (some prefix) host hosts ip ip_cidr host_suffix = do
      alone ← ensure (nothing_else scheme port path_prefix) prefix_combined
      origin ← ok_or bad_url (parsers.parse_url prefix)
      ok (prefix_url origin)
    choose_matcher none none (some host) hosts ip ip_cidr host_suffix = do
      normalized ← in_compile (normalize_host host)
      ok (host_rule (exact_host normalized))
    choose_matcher none none none (some []) ip ip_cidr host_suffix = err empty_hosts
    choose_matcher none none none (some (first ∷ others)) ip ip_cidr host_suffix = do
      normalized ← each (λ value. in_compile (normalize_host value)) (first ∷ others)
      ok (host_rule (any_of normalized))
    choose_matcher none none none none (some ip) ip_cidr host_suffix = ok (ip_rule (exact_ip ip))
    choose_matcher none none none none none (some ip_cidr) host_suffix = do
      net ← ok_or bad_cidr (parsers.parse_net ip_cidr)
      ok (ip_rule (cidr net))
    choose_matcher none none none none none none (some host_suffix) = do
      normalized ← in_compile (normalize_host_suffix host_suffix)
      ok (host_rule (suffix normalized))
    choose_matcher none none none none none none none = err expect_failed

  unfoldable pub matcher_try_from : RuleMatcherSchema → Result CompileError RuleMatcher
  unfolding exact_count choose_matcher
  matcher_try_from v = do
    scheme ← each_option (λ s. in_compile (normalize_scheme s)) v.scheme
    path_prefix ← each_option (λ p. in_compile (normalize_path_prefix p)) v.path_prefix
    one ← ensure (exact_count v == 1) matcher_count
    choose_matcher scheme v.port path_prefix v.exact v.prefix v.host v.hosts v.ip v.ip_cidr
        v.host_suffix
