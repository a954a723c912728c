-- ===== src/Config/Plugins.antt =====
-- src/config.rs: the plugins of a configuration, and the rules that they bring.
use any_mirror.Rules.Compile.{◌>>=◌, ensure, ok_or}
use any_mirror.Rules.Compile.Actions.{unwrap_or}
use any_mirror.Common.{
  if◌then◌else◌, ◌==◌, nat_eq, pair_eq, list_eq, option_eq, Result, ok, err, ip_eq, ℕ, Bool, true,
  false, not, ◌||◌, Option, none, some, List, [], ◌∷◌,
}
use any_mirror.Text.{Text, codes, to_ascii_lowercase, trim}
use any_mirror.Rules.Schema.{RuleMatcherSchema, call_plugin, RuleSchema}
use any_mirror.Config.{
  ConfigError, zero_workers, duplicate_plugin, empty_plugin, empty_root, bad_engine, bad_config,
  Filled, RawPluginPermissions, RawPluginDefinition, RawPluginRuntimeOptions, System,
}
use any_mirror.Config.Backend.{is_blank}

pub data PluginEngine : Type 0 where
  quick_js : PluginEngine

pub record PluginPermissions : Type 0 where
  pub on_request_body : Bool
  pub on_response_body : Bool

pub record PluginDefinition (Json : Type 0) : Type 0 where
  pub name : Text
  pub engine : PluginEngine
  pub enabled : Bool
  pub root : Text
  pub permissions : PluginPermissions
  pub config : Json

pub record PluginRuntimeOptions (Json : Type 0) : Type 0 where
  pub enabled : Bool
  pub workers : ℕ
  pub definitions : List (PluginDefinition Json)

pub record ParsedPluginDefinition (Json : Type 0) : Type 0 where
  pub definition : PluginDefinition Json
  pub implicit_rule : Option (RuleSchema Json)

unfoldable pub parse_plugin_engine : Text → Result ConfigError PluginEngine
unfolding trim to_ascii_lowercase
parse_plugin_engine value =
    if to_ascii_lowercase (trim value) == codes "quickjs" then ok quick_js else err bad_engine

-- `PluginPermissions::from_raw`
unfoldable pub permissions_from_raw : RawPluginPermissions Filled → PluginPermissions
permissions_from_raw value = record {
  on_request_body = value.on_request.body;
  on_response_body = value.on_response.body;
}

abbrev pub plugin_rule : {Json : Type 0} → Text → RuleMatcherSchema → RuleSchema Json
plugin_rule name matcher = record {
  matcher = matcher;
  priority = none;
  spread = none;
  action = call_plugin name;
}

abbrev pub implicit_rule_of :
    {Json : Type 0} → Bool → Text → Option RuleMatcherSchema → Option (RuleSchema Json)
implicit_rule_of false name matcher = none
implicit_rule_of true name none = none
implicit_rule_of true name (some matcher) = some (plugin_rule name matcher)

-- `names.insert(name)` gives true exactly if the name was not there.
abbrev pub has_name : Text → List Text → Bool
has_name name [] = false
has_name name (other ∷ names) = name == other || has_name name names

abbrev pub extend_option : {A : Type 0} → Option A → List A → List A
extend_option none rest = rest
extend_option (some a) rest = a ∷ rest

module _ {Json Yaml : Type 0} (system : System Json Yaml) where
  unfoldable pub resolve_plugin_root : Text → Text → Text
  resolve_plugin_root base_dir root =
      if system.is_absolute root
      then root
      else if system.components root == 1
      then system.join (system.join base_dir (codes "plugins")) root
      else system.join base_dir root

  module _ (base_dir : Text) where
    -- `ParsedPluginDefinition::from_raw`
    unfoldable pub plugin_from_raw :
        RawPluginDefinition Yaml Filled → Result ConfigError (ParsedPluginDefinition Json)
    unfolding trim resolve_plugin_root parse_plugin_engine permissions_from_raw
    plugin_from_raw value = do
      has_text ← ensure (not (is_blank value.name)) empty_plugin
      let root_value = unwrap_or value.name value.root
      rooted ← ensure (not (is_blank root_value)) empty_root
      engine ← parse_plugin_engine value.engine
      config ← ok_or bad_config (system.to_value value.config)
      ok (record {
        definition = record {
          name = value.name;
          engine = engine;
          enabled = value.enabled;
          root = resolve_plugin_root base_dir root_value;
          permissions = permissions_from_raw value.permissions;
          config = config;
        };
        implicit_rule = implicit_rule_of value.enabled value.name value.matcher;
      })

    -- The loop over the plugins, with the names before.
    unfoldable pub plugins_loop :
        List Text
        → List (RawPluginDefinition Yaml Filled)
        → Result ConfigError (List (PluginDefinition Json) × List (RuleSchema Json))
    unfolding plugin_from_raw
    plugins_loop names [] = ok ([], [])
    plugins_loop names (raw ∷ raws) = do
      parsed ← plugin_from_raw raw
      new ← ensure (not (has_name parsed.definition.name names)) duplicate_plugin
      rest ← plugins_loop (parsed.definition.name ∷ names) raws
      ok (parsed.definition ∷ rest.0, extend_option parsed.implicit_rule rest.1)

    -- `PluginRuntimeOptions::from_raw`
    unfoldable pub plugins_from_raw :
        RawPluginRuntimeOptions Yaml Filled
        → Result ConfigError (PluginRuntimeOptions Json × List (RuleSchema Json))
    unfolding plugins_loop
    plugins_from_raw value = do
      positive ← ensure (not (value.workers == 0)) zero_workers
      parsed ← plugins_loop [] value.includes
      ok (
        record { enabled = value.enabled; workers = value.workers; definitions = parsed.0 },
        parsed.1,
      )
