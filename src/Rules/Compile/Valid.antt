-- ===== src/Rules/Compile/Valid.antt =====
-- The checks of matchers and of upstream plans in src/rules/compile.rs.
use any_mirror.Rules.Compile.{
  CompileError, matcher_count, exact_combined, prefix_combined, bad_url, bad_cidr, host_and_ip,
  dns_and_ip, expect_failed, Parsers, ◌>>=◌, ensure, ok_or, in_compile, each_option, each,
  non_empty, bool_count, exact_count, nothing_else, choose_matcher, matcher_try_from,
}
use any_mirror.Common.{
  nat_beq_iff, is_some, ◌==◌, nat_eq, pair_eq, list_eq, option_eq, Result, ok, err, IpAddr, ip_eq,
  ℕ, ◌+◌, ◌≡◌, refl, subst, ◌≢◌, Bool, true, false, not, ◌&&◌, Option, none, some, List, [], ◌∷◌,
  arith,
}
use any_mirror.Text.{Text}
use any_mirror.Rules.Model.{
  exact_url, prefix_url, DnsMode, system, udp, dot, doh, DnsPlan, UpstreamPlan,
}
use any_mirror.Rules.Schema.{RuleMatcherSchema, DnsPlanSchema, UpstreamPlanSchema}
use any_mirror.Rules.Matching.{
  MatcherError, normalize_host, normalize_host_suffix, normalize_scheme, normalize_path_prefix,
}
use any_mirror.Rules.Compile.Actions.{check_server, dns_plan_try_from, validate, upstream_try_from}
use any_mirror.Rules.Compile.Fit.{bind_ok, ok_injective}

-- A chain panics only if one of its steps does.
bind-panic :
    {A B : Type 0} (r : Result CompileError A) (f : A → Result CompileError B)
    → r ≢ err expect_failed
    → ((a : A) → f a ≢ err expect_failed)
    → (r >>= f) ≢ err expect_failed
bind-panic (ok a) f h k = k a
bind-panic (err e) f h k = λ x. h (ground (arith, x))

in_compile-panic : {A : Type 0} (r : Result MatcherError A) → in_compile r ≢ err expect_failed
in_compile-panic (ok a) = λ x. ground (arith, x)
in_compile-panic (err e) = λ x. ground (arith, x)

ok-panic : {A : Type 0} (a : A) → ◌≡◌ {A = Result CompileError A} (ok a) (err expect_failed) → ⊥
ok-panic a = λ x. ground (arith, x)

ensure-panic : (b : Bool) (e : CompileError) → e ≢ expect_failed → ensure b e ≢ err expect_failed
ensure-panic true e h = λ x. ground (arith, x)
ensure-panic false e h = λ x. h (ground (arith, x))

ok_or-panic :
    {A : Type 0} (o : Option A) (e : CompileError)
    → e ≢ expect_failed
    → ok_or e o ≢ err expect_failed
ok_or-panic none e h = λ x. h (ground (arith, x))
ok_or-panic (some a) e h = λ x. ground (arith, x)

each_option-panic :
    {A B : Type 0} (f : A → Result CompileError B) (o : Option A)
    → ((a : A) → f a ≢ err expect_failed)
    → each_option f o ≢ err expect_failed
each_option-panic f none h = ok-panic none
each_option-panic f (some a) h = bind-panic (f a) (λ b. ok (some b)) (h a) (λ b. ok-panic (some b))

each-panic :
    {A B : Type 0} (f : A → Result CompileError B) (xs : List A)
    → ((a : A) → f a ≢ err expect_failed)
    → each f xs ≢ err expect_failed
each-panic f [] h = ok-panic []
each-panic f (x ∷ xs) h =
    bind-panic (f x) (λ b. each f xs >>= (λ bs. ok (b ∷ bs))) (h x)
      (λ b.
        bind-panic (each f xs) (λ bs. ok (b ∷ bs)) (each-panic f xs h) (λ bs. ok-panic (b ∷ bs)))

-- A name is given, and it is not empty.
abbrev pub IsGiven : Option Text → Type 0
IsGiven none = ⊥
IsGiven (some name) = name ≢ []

-- The system's resolver has no server, and each of the others has one.
abbrev pub IsServed : DnsMode → Option Text → Type 0
IsServed system server = server ≡ none
IsServed udp server = IsGiven server
IsServed dot server = IsGiven server
IsServed doh server = IsGiven server

abbrev pub IsValidDns : DnsPlan → Type 0
IsValidDns plan = IsServed plan.mode plan.server

abbrev pub IsValidSlot : Option DnsPlan → Type 0
IsValidSlot none = Unit
IsValidSlot (some plan) = IsValidDns plan

-- A plan connects to a host or to an address, not to both, and an address leaves nothing to resolve.
pub record IsValidPlan (plan : UpstreamPlan) : Type 0 where
  pub one_target : (is_some plan.connect_host && is_some plan.connect_ip) ≡ false
  pub nothing_to_resolve : (is_some plan.connect_ip && is_some plan.dns) ≡ false
  pub valid_dns : IsValidSlot plan.dns

dns_plan-IsValidDns :
    (v : DnsPlanSchema) (plan : DnsPlan) → dns_plan_try_from v ≡ ok plan → IsValidDns plan
unfolding dns_plan_try_from
dns_plan-IsValidDns v plan h =
    let (checked, a, h1) = bind_ok (check_server v.mode (non_empty v.server)) _ plan h in
    subst IsValidDns (ok_injective h1) (served v.mode v.server checked a)
  where
    served :
        (mode : DnsMode) (server : Option Text) (u : Unit {0})
        → check_server mode (non_empty server) ≡ ok u
        → IsServed mode (non_empty server)
    served system none u e = refl
    served system (some []) u e = refl
    served system (some (c ∷ cs)) u e = absurd (ground (arith, e))
    served udp none u e = absurd (ground (arith, e))
    served udp (some []) u e = absurd (ground (arith, e))
    served udp (some (c ∷ cs)) u e = λ same. ground (arith, same)
    served dot none u e = absurd (ground (arith, e))
    served dot (some []) u e = absurd (ground (arith, e))
    served dot (some (c ∷ cs)) u e = λ same. ground (arith, same)
    served doh none u e = absurd (ground (arith, e))
    served doh (some []) u e = absurd (ground (arith, e))
    served doh (some (c ∷ cs)) u e = λ same. ground (arith, same)

slot-IsValidSlot :
    (o : Option DnsPlanSchema) (slot : Option DnsPlan)
    → each_option dns_plan_try_from o ≡ ok slot
    → IsValidSlot slot
slot-IsValidSlot none slot h = subst IsValidSlot (ok_injective h) tt
slot-IsValidSlot (some v) slot h =
    let (plan, a, h1) = bind_ok (dns_plan_try_from v) _ slot h in
    subst IsValidSlot (ok_injective h1) (dns_plan-IsValidDns v plan a)

ensured : (b : Bool) (e : CompileError) (u : Unit {0}) → ensure b e ≡ ok u → b ≡ true
ensured true e u h = refl
ensured false e u h = absurd (ground (arith, h))

not-true : (b : Bool) → not b ≡ true → b ≡ false
not-true b h = ground (arith, h)

module _ {Json : Type 0} (parsers : Parsers Json) where
  -- The upstream plans that the configuration compiles to are valid: they connect to a host or to an
  -- address and not to both, have no resolver beside an address, name no server for the resolver of
  -- the system, and name one that is not empty for UDP, DoT and DoH.
  pub upstream_try_from-IsValidPlan :
      (v : UpstreamPlanSchema) (plan : UpstreamPlan)
      → upstream_try_from parsers v ≡ ok plan
      → IsValidPlan plan
  unfolding upstream_try_from validate
  upstream_try_from-IsValidPlan v plan h =
      let (url, a, h1) = bind_ok (ok_or bad_url (parsers.parse_url v.url)) _ plan h in
      let (dns, b, h2) = bind_ok (each_option dns_plan_try_from v.dns) _ plan h1 in
      let built : UpstreamPlan = record {
        url = url;
        sni = non_empty v.sni;
        host = non_empty v.host;
        connect_host = non_empty v.connect_host;
        connect_ip = v.connect_ip;
        dns = dns;
      } in
      let (valid, c, h3) = bind_ok (validate built) _ plan h2 in
      let (one, d, h4) =
        bind_ok
          (ensure (not (is_some (non_empty v.connect_host) && is_some v.connect_ip)) host_and_ip) _
          valid c in
      subst IsValidPlan (ok_injective h3) (record {
        one_target = not-true _ (ensured _ host_and_ip one d);
        nothing_to_resolve = not-true _ (ensured _ dns_and_ip valid h4);
        valid_dns = slot-IsValidSlot v.dns dns b;
      })

  choose_matcher-panic :
      (scheme : Option Text) (port : Option ℕ) (path_prefix : Option Text)
      (exact prefix host : Option Text) (hosts : Option (List Text)) (ip : Option IpAddr)
      (ip_cidr host_suffix : Option Text)
      → bool_count (is_some exact)
          + bool_count (is_some prefix)
          + bool_count (is_some host)
          + bool_count (is_some hosts)
          + bool_count (is_some host_suffix)
          + bool_count (is_some ip)
          + bool_count (is_some ip_cidr)
        ≡ 1
      → choose_matcher parsers scheme port path_prefix exact prefix host hosts ip ip_cidr
          host_suffix
        ≢ err expect_failed
  unfolding choose_matcher
  choose_matcher-panic scheme port path_prefix (some exact) prefix host hosts ip ip_cidr host_suffix
        one =
      bind-panic (ensure (nothing_else scheme port path_prefix) exact_combined) _
        (ensure-panic (nothing_else scheme port path_prefix) exact_combined
          (λ x. ground (arith, x)))
        (λ alone.
          bind-panic (ok_or bad_url (parsers.parse_url exact)) _
            (ok_or-panic (parsers.parse_url exact) bad_url (λ x. ground (arith, x)))
            (λ origin. ok-panic (exact_url origin)))
  choose_matcher-panic scheme port path_prefix none (some prefix) host hosts ip ip_cidr host_suffix
        one =
      bind-panic (ensure (nothing_else scheme port path_prefix) prefix_combined) _
        (ensure-panic (nothing_else scheme port path_prefix) prefix_combined
          (λ x. ground (arith, x)))
        (λ alone.
          bind-panic (ok_or bad_url (parsers.parse_url prefix)) _
            (ok_or-panic (parsers.parse_url prefix) bad_url (λ x. ground (arith, x)))
            (λ origin. ok-panic (prefix_url origin)))
  choose_matcher-panic scheme port path_prefix none none (some host) hosts ip ip_cidr host_suffix
        one =
      bind-panic (in_compile (normalize_host host)) _ (in_compile-panic (normalize_host host))
        (λ n. ok-panic _)
  choose_matcher-panic scheme port path_prefix none none none (some []) ip ip_cidr host_suffix one =
      λ x. ground (arith, x)
  choose_matcher-panic scheme port path_prefix none none none (some (f ∷ fs)) ip ip_cidr host_suffix
        one =
      bind-panic (each (λ value. in_compile (normalize_host value)) (f ∷ fs)) _
        (each-panic (λ value. in_compile (normalize_host value)) (f ∷ fs)
          (λ value. in_compile-panic (normalize_host value)))
        (λ n. ok-panic _)
  choose_matcher-panic scheme port path_prefix none none none none (some ip) ip_cidr host_suffix
        one =
      ok-panic _
  choose_matcher-panic scheme port path_prefix none none none none none (some ip_cidr) host_suffix
        one =
      bind-panic (ok_or bad_cidr (parsers.parse_net ip_cidr)) _
        (ok_or-panic (parsers.parse_net ip_cidr) bad_cidr (λ x. ground (arith, x)))
        (λ net. ok-panic _)
  choose_matcher-panic scheme port path_prefix none none none none none none (some host_suffix)
        one =
      bind-panic (in_compile (normalize_host_suffix host_suffix)) _
        (in_compile-panic (normalize_host_suffix host_suffix)) (λ n. ok-panic _)
  choose_matcher-panic scheme port path_prefix none none none none none none none one =
      absurd (omega (arith, one))

  counted :
      {A : Type 0} (b : Bool) (e : CompileError) (r : Result CompileError A)
      → e ≢ expect_failed
      → (b ≡ true → r ≢ err expect_failed)
      → (ensure b e >>= (λ u. r)) ≢ err expect_failed
  counted true e r h k = k refl
  counted false e r h k = λ x. h (ground (arith, x))

  -- The compilation of a matcher never reaches the `expect` on the suffix of a host.
  pub matcher_try_from-panic :
      (v : RuleMatcherSchema) → matcher_try_from parsers v ≢ err expect_failed
  unfolding matcher_try_from exact_count
  matcher_try_from-panic v =
      bind-panic (each_option (λ s. in_compile (normalize_scheme s)) v.scheme) _
        (each_option-panic (λ s. in_compile (normalize_scheme s)) v.scheme
          (λ s. in_compile-panic (normalize_scheme s)))
        (λ scheme.
          bind-panic (each_option (λ p. in_compile (normalize_path_prefix p)) v.path_prefix) _
            (each_option-panic (λ p. in_compile (normalize_path_prefix p)) v.path_prefix
              (λ p. in_compile-panic (normalize_path_prefix p)))
            (λ path_prefix.
              counted (exact_count v == 1) matcher_count
                (choose_matcher parsers scheme v.port path_prefix v.exact v.prefix v.host v.hosts
                  v.ip v.ip_cidr v.host_suffix)
                (λ x. ground (arith, x))
                (λ one.
                  choose_matcher-panic scheme v.port path_prefix v.exact v.prefix v.host v.hosts
                    v.ip v.ip_cidr v.host_suffix ((nat_beq_iff (exact_count v) 1).0 one))))
