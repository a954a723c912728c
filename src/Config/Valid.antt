-- ===== src/Config/Valid.antt =====
-- What src/config.rs promises of a configuration that it loads.
use mathlib.Core.List.{Nodup}
use any_mirror.Config.Checks.{
  names_of, ensure_ok, observability-valid, backend-valid, plugins-valid,
}
use any_mirror.Rules.Compile.{Parsers, ensure, ok_or, each}
use any_mirror.Rules.Compile.Actions.{unwrap_or}
use any_mirror.Rules.Compile.Sets.{rule_try_from, rule_set_try_from}
use any_mirror.Rules.Compile.Fit.{bind_ok, ok_injective}
use any_mirror.Rules.Resolve.{RuleSet, new_rule_set}
use any_mirror.Common.{
  nat_eq, pair_eq, list_eq, option_eq, Result, ok, err, ip_eq, ◌≡◌, refl, ap, subst, ◌≢◌, false,
  not, List, ◌++◌, arith,
}
use any_mirror.Text.{Text, codes}
use any_mirror.Rules.Schema.{RuleSchema}
use any_mirror.Config.{file_unreadable, bad_yaml, bad_listen, no_rules, Filled, RawConfig, System}
use any_mirror.Config.Raw.{fill_config}
use any_mirror.Config.Backend.{is_blank, backend_try_from, observability_try_from}
use any_mirror.Config.Plugins.{plugins_from_raw}
use any_mirror.Config.Load.{
  AppConfig, no_entries, compile_rules, resolve_rule_body_file_paths, load_parsed, load_config,
}

pub record IsValidConfig {Json : Type 0} (config : AppConfig Json) : Type 0 where
  pub some_rule : no_entries config.rules.entries ≡ false
  pub indexed : config.rules ≡ new_rule_set config.rules.entries
  pub some_worker : config.plugins.workers ≢ 0
  pub distinct_plugins : Nodup (names_of config.plugins.definitions)
  pub named_tun : is_blank config.backend.tun.name ≡ false
  pub positive_mtu : config.backend.tun.mtu ≢ 0
  pub named_service : is_blank config.observability.telemetry.service_name ≡ false
  pub named_endpoint : is_blank config.observability.telemetry.otlp_endpoint ≡ false

compile_rules_ok : {A : Type 0} (r : Result _ A) (a : A) → compile_rules r ≡ ok a → r ≡ ok a
compile_rules_ok (ok b) a h = ap ok (ok_injective h)
compile_rules_ok (err e) a h = absurd (ground (arith, h))

module _ {Json Yaml : Type 0} (system : System Json Yaml) where
  module _ (parsers : Parsers Json) where
    indexed-rules :
        (schemas : List (RuleSchema Json)) (rules : RuleSet)
        → rule_set_try_from parsers schemas ≡ ok rules
        → rules ≡ new_rule_set rules.entries
    unfolding rule_set_try_from new_rule_set
    indexed-rules schemas rules h =
        let (entries, a, h1) = bind_ok (each (rule_try_from parsers) schemas) _ rules h in
        subst (λ r. r ≡ new_rule_set r.entries) (ok_injective h1) refl

    -- The steps that a load has gone through.
    pub record IsLoad (path : Text) (raw : RawConfig Json Yaml Filled) (config : AppConfig Json)
        : Type 0 where
      pub implicit : List (RuleSchema Json)
      pub schemas : List (RuleSchema Json)
      pub plugins_done :
          plugins_from_raw system (unwrap_or (codes ".") (system.parent path)) raw.plugins
          ≡ ok (config.plugins, implicit)
      pub paths_done :
          resolve_rule_body_file_paths system
            (unwrap_or (codes ".") (system.parent path))
            (raw.includes ++ implicit)
          ≡ ok schemas
      pub rules_done : rule_set_try_from parsers schemas ≡ ok config.rules
      pub not_empty : no_entries config.rules.entries ≡ false
      pub backend_done : backend_try_from system raw.backend ≡ ok config.backend
      pub observability_done : observability_try_from raw.observability ≡ ok config.observability

    pub load_parsed-steps :
        (path : Text) (raw : RawConfig Json Yaml Filled) (config : AppConfig Json)
        → load_parsed system parsers path raw ≡ ok config
        → IsLoad path raw config
    unfolding load_parsed
    load_parsed-steps path raw config h =
        let dir = unwrap_or (codes ".") (system.parent path) in
        let (addr, a, h1) = bind_ok (ok_or bad_listen (system.parse_addr raw.listen)) _ config h in
        let (plugins, b, h2) = bind_ok (plugins_from_raw system dir raw.plugins) _ config h1 in
        let (schemas, c, h3) =
          bind_ok (resolve_rule_body_file_paths system dir (raw.includes ++ plugins.1)) _ config
            h2 in
        let (rules, d, h4) =
          bind_ok (compile_rules (rule_set_try_from parsers schemas)) _ config h3 in
        let (u, e, h5) = bind_ok (ensure (not (no_entries rules.entries)) no_rules) _ config h4 in
        let (backend, f, h6) = bind_ok (backend_try_from system raw.backend) _ config h5 in
        let (observability, g, h7) =
          bind_ok (observability_try_from raw.observability) _ config h6 in
        subst (IsLoad path raw) (ok_injective h7) (record {
          implicit = plugins.1;
          schemas = schemas;
          plugins_done = b;
          paths_done = c;
          rules_done = compile_rules_ok (rule_set_try_from parsers schemas) rules d;
          not_empty = ensure_ok _ _ u e;
          backend_done = f;
          observability_done = g;
        })

    load_parsed-valid :
        (path : Text) (raw : RawConfig Json Yaml Filled) (config : AppConfig Json)
        → load_parsed system parsers path raw ≡ ok config
        → IsValidConfig config
    load_parsed-valid path raw config h =
        let steps = load_parsed-steps path raw config h in
        let plugins =
          plugins-valid system (unwrap_or (codes ".") (system.parent path)) raw.plugins
            (config.plugins, steps.implicit) steps.plugins_done in
        let backend = backend-valid system raw.backend config.backend steps.backend_done in
        let telemetry =
          observability-valid raw.observability config.observability steps.observability_done in
        record {
          some_rule = steps.not_empty;
          indexed = indexed-rules steps.schemas config.rules steps.rules_done;
          some_worker = plugins.0;
          distinct_plugins = plugins.1;
          named_tun = backend.0;
          positive_mtu = backend.1;
          named_service = telemetry.0;
          named_endpoint = telemetry.1;
        }

    -- A configuration that loads is valid: it has a rule, its rules are indexed, plugins have a
    -- worker and names that differ, and the TUN device, its MTU, the service and the endpoint of the
    -- telemetry are given.
    pub load_config-IsValidConfig :
        (path : Text) (config : AppConfig Json)
        → load_config system parsers path ≡ ok config
        → IsValidConfig config
    unfolding load_config
    load_config-IsValidConfig path config h =
        let (text, a, h1) =
          bind_ok (ok_or file_unreadable (system.read_to_string path)) _ config h in
        let (raw, b, h2) = bind_ok (ok_or bad_yaml (system.from_str text)) _ config h1 in
        load_parsed-valid path (fill_config system raw) config h2
