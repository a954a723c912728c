-- ===== src/Config/Load.antt =====
-- src/config.rs: the loading of a configuration.
use any_mirror.Rules.Compile.{CompileError, Parsers, ◌>>=◌, ensure, ok_or, each}
use any_mirror.Rules.Compile.Actions.{unwrap_or}
use any_mirror.Rules.Compile.Sets.{rule_set_try_from}
use any_mirror.Rules.Resolve.{RuleSet}
use any_mirror.Common.{
  if◌then◌else◌, nat_eq, pair_eq, list_eq, option_eq, Result, ok, err, ip_eq, ℕ, Bool, true, false,
  not, Option, none, some, List, [], ◌∷◌, ◌++◌,
}
use any_mirror.Text.{Text, codes, trim}
use any_mirror.Rules.Schema.{
  RespondBodySchema, RuleActionSchema, mirror_to, go_direct, respond_with, call_plugin, reject_with,
  RuleSchema,
}
use any_mirror.Rules.Model.{Rule}
use any_mirror.Config.{
  SocketAddr, ConfigError, file_unreadable, bad_yaml, bad_listen, no_rules, bad_rules,
  empty_body_file, Filled, RawConfig, System,
}
use any_mirror.Config.Raw.{fill_config}
use any_mirror.Config.Backend.{
  BackendOptions, ObservabilityOptions, is_blank, backend_try_from, observability_try_from,
}
use any_mirror.Config.Plugins.{PluginRuntimeOptions, plugins_from_raw}

pub record AppConfig (Json : Type 0) : Type 0 where
  pub listen_addr : SocketAddr
  pub tls_port : Option ℕ
  pub backend : BackendOptions
  pub observability : ObservabilityOptions
  pub plugins : PluginRuntimeOptions Json
  pub rules : RuleSet

-- `RuleSet::is_empty`
abbrev pub no_entries : List Rule → Bool
no_entries [] = true
no_entries (r ∷ rs) = false

abbrev pub compile_rules : {A : Type 0} → Result CompileError A → Result ConfigError A
compile_rules (ok a) = ok a
compile_rules (err e) = err (bad_rules e)

module _ {Json Yaml : Type 0} (system : System Json Yaml) where
  module _ (base_dir : Text) where
    unfoldable pub resolve_rule_asset_path : Text → Text
    resolve_rule_asset_path asset =
        if system.is_absolute asset then asset else system.join base_dir asset

    unfoldable pub resolve_respond_body_file_path :
        RespondBodySchema Json → Result ConfigError (RespondBodySchema Json)
    unfolding trim resolve_rule_asset_path
    resolve_respond_body_file_path body = elim body.file [
      | none ↦ ok body
      | some asset ↦ do
        not_empty ← ensure (not (is_blank asset)) empty_body_file
        ok (record body { file = some (resolve_rule_asset_path (trim asset)) })
    ]

    unfoldable pub resolve_action :
        RuleActionSchema Json → Result ConfigError (RuleActionSchema Json)
    unfolding resolve_respond_body_file_path
    resolve_action (respond_with status headers content_type (some body)) = do
      body ← resolve_respond_body_file_path body
      ok (respond_with status headers content_type (some body))
    resolve_action (respond_with status headers content_type none) =
        ok (respond_with status headers content_type none)
    resolve_action (mirror_to plan) = ok (mirror_to plan)
    resolve_action go_direct = ok go_direct
    resolve_action (call_plugin name) = ok (call_plugin name)
    resolve_action (reject_with status message) = ok (reject_with status message)

    unfoldable pub resolve_rule : RuleSchema Json → Result ConfigError (RuleSchema Json)
    unfolding resolve_action
    resolve_rule rule =
        resolve_action rule.action >>= (λ action. ok (record rule { action = action }))

    unfoldable pub resolve_rule_body_file_paths :
        List (RuleSchema Json) → Result ConfigError (List (RuleSchema Json))
    unfolding resolve_rule
    resolve_rule_body_file_paths rules = each resolve_rule rules

  module _ (parsers : Parsers Json) where
    -- `load_config`, from the parsed file on.
    unfoldable pub load_parsed :
        Text → RawConfig Json Yaml Filled → Result ConfigError (AppConfig Json)
    unfolding plugins_from_raw resolve_rule_body_file_paths rule_set_try_from backend_try_from
        observability_try_from
    load_parsed path parsed = do
      listen_addr ← ok_or bad_listen (system.parse_addr parsed.listen)
      let config_dir = unwrap_or (codes ".") (system.parent path)
      plugins ← plugins_from_raw system config_dir parsed.plugins
      schemas ← resolve_rule_body_file_paths config_dir (parsed.includes ++ plugins.1)
      rules ← compile_rules (rule_set_try_from parsers schemas)
      some_rule ← ensure (not (no_entries rules.entries)) no_rules
      backend ← backend_try_from system parsed.backend
      observability ← observability_try_from parsed.observability
      ok (record {
        listen_addr = listen_addr;
        tls_port = parsed.tls_port;
        backend = backend;
        observability = observability;
        plugins = plugins.0;
        rules = rules;
      })

    unfoldable pub load_config : Text → Result ConfigError (AppConfig Json)
    unfolding fill_config load_parsed
    load_config path = do
      raw ← ok_or file_unreadable (system.read_to_string path)
      parsed ← ok_or bad_yaml (system.from_str raw)
      load_parsed path (fill_config system parsed)
