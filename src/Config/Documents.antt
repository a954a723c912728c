-- ===== src/Config/Documents.antt =====
-- src/config.rs: what becomes of the parts of a configuration file.
use mathlib.Core.List.{Memᴰ}
use mathlib.Core.List.Memᴰ
use any_mirror.Rules.Compile.{empty_plugin_name, Parsers, ensure, ok_or, each, matcher_try_from}
use any_mirror.Rules.Compile.Actions.{unwrap_or, action_try_from}
use any_mirror.Rules.Compile.Sets.{validate_matcher_action, rule_try_from, rule_set_try_from}
use any_mirror.Rules.Compile.Fit.{bind_ok, ok_injective}
use any_mirror.Rules.Resolve.{RuleSet, new_rule_set}
use any_mirror.Common.{
  ◌==◌, nat_eq, pair_eq, list_eq, option_eq, Result, ok, ip_eq, ◌≡◌, refl, sym, ap, ap₂, ◌∙◌, subst,
  ◌≢◌, inl, inr, true, not, Option, none, some, List, [], ◌∷◌, ◌++◌, arith,
}
use any_mirror.Text.{Text, codes, is_empty, trim}
use any_mirror.Rules.Schema.{RuleMatcherSchema, call_plugin, RuleSchema}
use any_mirror.Rules.Model.{plugin, Rule}
use any_mirror.Config.{
  zero_workers, duplicate_plugin, empty_plugin, empty_root, bad_config, Filled, RawPluginDefinition,
  RawPluginRuntimeOptions, RawConfig, System,
}
use any_mirror.Config.Raw.{fill_or, no_backend, fill_backend, fill_config}
use any_mirror.Config.Backend.{is_blank, backend_try_from}
use any_mirror.Config.Plugins.{
  PluginDefinition, PluginRuntimeOptions, ParsedPluginDefinition, parse_plugin_engine, plugin_rule,
  implicit_rule_of, has_name, extend_option, plugin_from_raw, plugins_loop, plugins_from_raw,
}
use any_mirror.Config.Load.{
  AppConfig, resolve_rule, resolve_rule_body_file_paths, load_parsed, load_config,
}
use any_mirror.Config.Valid.{load_parsed-steps}

each-mem :
    {E A B : Type 0} (f : A → Result E B) (xs : List A) (ys : List B) (x : A)
    → each f xs ≡ ok ys
    → Memᴰ x xs
    → (y : B) × Memᴰ y ys × (f x ≡ ok y)
each-mem f [] ys x h m = absurd (Memᴰ.not-nil m)
each-mem f (x' ∷ xs) ys x h (Memᴰ.head e) =
    let (b, a, h1) = bind_ok (f x') _ ys h in
    let (bs, c, h2) = bind_ok (each f xs) _ ys h1 in
    (b, subst (Memᴰ b) (ok_injective h2) (Memᴰ.head refl), ap f e ∙ a)
each-mem f (x' ∷ xs) ys x h (Memᴰ.tail m) =
    let (b, a, h1) = bind_ok (f x') _ ys h in
    let (bs, c, h2) = bind_ok (each f xs) _ ys h1 in
    let (y, n, d) = each-mem f xs bs x c m in (y, subst (Memᴰ y) (ok_injective h2) (Memᴰ.tail n), d)

extend_option-head :
    {A : Type 0} (o : Option A) (a : A) (rest : List A) → o ≡ some a → Memᴰ a (extend_option o rest)
extend_option-head none a rest h = absurd (ground (arith, h))
extend_option-head (some b) a rest h = Memᴰ.head (ground (arith, h))

extend_option-tail :
    {A : Type 0} (o : Option A) (a : A) (rest : List A)
    → Memᴰ a rest
    → Memᴰ a (extend_option o rest)
extend_option-tail none a rest m = m
extend_option-tail (some b) a rest m = Memᴰ.tail m

module _ {Json Yaml : Type 0} (system : System Json Yaml) where
  module _ (base_dir : Text) where
    plugin_from_raw-implicit :
        (raw : RawPluginDefinition Yaml Filled) (parsed : ParsedPluginDefinition Json)
        → plugin_from_raw system base_dir raw ≡ ok parsed
        → implicit_rule_of raw.enabled raw.name raw.matcher ≡ parsed.implicit_rule
    unfolding plugin_from_raw
    plugin_from_raw-implicit raw parsed h =
        let (u, a, h1) = bind_ok (ensure (not (is_blank raw.name)) empty_plugin) _ parsed h in
        let (v, b, h2) =
          bind_ok (ensure (not (is_blank (unwrap_or raw.name raw.root))) empty_root) _ parsed h1 in
        let (engine, c, h3) = bind_ok (parse_plugin_engine raw.engine) _ parsed h2 in
        let (config, d, h4) = bind_ok (ok_or bad_config (system.to_value raw.config)) _ parsed h3 in
        ap (λ p. p.implicit_rule) (ok_injective h4)

    module _ (raw : RawPluginDefinition Yaml Filled) (matcher : RuleMatcherSchema)
        (on : raw.enabled ≡ true) (matches : raw.matcher ≡ some matcher) where
      implicit_some :
          implicit_rule_of {Json = Json} raw.enabled raw.name raw.matcher
          ≡ some (plugin_rule raw.name matcher)
      implicit_some = ap₂ (λ enabled m. implicit_rule_of enabled raw.name m) on matches

      plugins_loop-implicit :
          (names : List Text) (raws : List (RawPluginDefinition Yaml Filled))
          (result : List (PluginDefinition Json) × List (RuleSchema Json))
          → plugins_loop system base_dir names raws ≡ ok result
          → Memᴰ raw raws
          → Memᴰ (plugin_rule raw.name matcher) result.1
      unfolding plugins_loop
      plugins_loop-implicit names [] result h m = absurd (Memᴰ.not-nil m)
      plugins_loop-implicit names (next ∷ raws) result h m =
          let (parsed, a, h1) = bind_ok (plugin_from_raw system base_dir next) _ result h in
          let (u, b, h2) =
            bind_ok (ensure (not (has_name parsed.definition.name names)) duplicate_plugin) _ result
              h1 in
          let (rest, c, h3) =
            bind_ok (plugins_loop system base_dir (parsed.definition.name ∷ names) raws) _ result
              h2 in
          subst (λ r. Memᴰ (plugin_rule raw.name matcher) r.1) (ok_injective h3)
            (elim (Memᴰ.cases_cons m) [
              | inl e ↦ extend_option-head parsed.implicit_rule _ rest.1 (
                  sym (plugin_from_raw-implicit next parsed a)
                  ∙ ap (λ r. implicit_rule_of r.enabled r.name r.matcher) (sym e)
                  ∙ implicit_some)
              | inr n ↦
                  extend_option-tail parsed.implicit_rule _ rest.1
                    (plugins_loop-implicit (parsed.definition.name ∷ names) raws rest c n)
            ])

      plugins_from_raw-implicit :
          (options : RawPluginRuntimeOptions Yaml Filled)
          (result : PluginRuntimeOptions Json × List (RuleSchema Json))
          → plugins_from_raw system base_dir options ≡ ok result
          → Memᴰ raw options.includes
          → Memᴰ (plugin_rule raw.name matcher) result.1
      unfolding plugins_from_raw
      plugins_from_raw-implicit options result h m =
          let (u, a, h1) = bind_ok (ensure (not (options.workers == 0)) zero_workers) _ result h in
          let (parsed, b, h2) =
            bind_ok (plugins_loop system base_dir [] options.includes) _ result h1 in
          subst (λ r. Memᴰ (plugin_rule raw.name matcher) r.1) (ok_injective h2)
            (plugins_loop-implicit [] options.includes parsed b m)

    resolve-plugin_rule :
        (rules schemas : List (RuleSchema Json)) (name : Text) (matcher : RuleMatcherSchema)
        → resolve_rule_body_file_paths system base_dir rules ≡ ok schemas
        → Memᴰ (plugin_rule name matcher) rules
        → Memᴰ (plugin_rule name matcher) schemas
    unfolding resolve_rule_body_file_paths
    resolve-plugin_rule rules schemas name matcher h m =
        let (same, n, e) =
          each-mem (resolve_rule system base_dir) rules schemas (plugin_rule name matcher) h m in
        Memᴰ.cast (ok_injective e) n

  module _ (parsers : Parsers Json) where
    rule_set_try_from-mem :
        (schemas : List (RuleSchema Json)) (rules : RuleSet) (schema : RuleSchema Json)
        → rule_set_try_from parsers schemas ≡ ok rules
        → Memᴰ schema schemas
        → (rule : Rule) × Memᴰ rule rules.entries × (rule_try_from parsers schema ≡ ok rule)
    unfolding rule_set_try_from new_rule_set
    rule_set_try_from-mem schemas rules schema h m =
        let (entries, a, h1) = bind_ok (each (rule_try_from parsers) schemas) _ rules h in
        subst (λ r. (rule : Rule) × Memᴰ rule r.entries × (rule_try_from parsers schema ≡ ok rule))
          (ok_injective h1) (each-mem (rule_try_from parsers) schemas entries schema a m)

    plugin_rule-action :
        (name : Text) (matcher : RuleMatcherSchema) (rule : Rule)
        → rule_try_from parsers (plugin_rule name matcher) ≡ ok rule
        → rule.action ≡ plugin name
    unfolding rule_try_from action_try_from
    plugin_rule-action name matcher rule h =
        let (m, a, h1) = bind_ok (matcher_try_from parsers matcher) _ rule h in
        let (action, b, h2) = bind_ok (action_try_from parsers (call_plugin name)) _ rule h1 in
        let (valid, c, h3) = bind_ok (validate_matcher_action m action) _ rule h2 in
        let (u, d, h4) =
          bind_ok (ensure (not (is_empty (trim name))) empty_plugin_name) _ action b in
        sym (ap (λ r. r.action) (ok_injective h3)) ∙ sym (ok_injective h4)

    module _ (path text : Text) (document : RawConfig Json Yaml Option)
        (reads : system.read_to_string path ≡ some text)
        (parses : system.from_str text ≡ some document) where
      load_config-parsed :
          load_config system parsers path
          ≡ load_parsed system parsers path (fill_config system document)
      unfolding load_config
      load_config-parsed = rw (reads, parses) refl

      -- In a configuration that loads, a plugin that is enabled and has a matcher has brought a rule:
      -- the rule set has the compiled rule of that matcher, and its action calls the plugin.
      pub load_config-plugin_rule :
          (raw : RawPluginDefinition Yaml Filled) (matcher : RuleMatcherSchema)
          (config : AppConfig Json)
          → Memᴰ raw (fill_config system document).plugins.includes
          → raw.enabled ≡ true
          → raw.matcher ≡ some matcher
          → load_config system parsers path ≡ ok config
          → (rule : Rule) × Memᴰ rule config.rules.entries
            × (rule_try_from parsers (plugin_rule raw.name matcher) ≡ ok rule)
            × (rule.action ≡ plugin raw.name)
      load_config-plugin_rule raw matcher config m on matches h =
          let full = fill_config system document in
          let dir = unwrap_or (codes ".") (system.parent path) in
          let steps =
            load_parsed-steps system parsers path full config (sym load_config-parsed ∙ h) in
          let brought =
            plugins_from_raw-implicit dir raw matcher on matches full.plugins
              (config.plugins, steps.implicit) steps.plugins_done m in
          let (rule, n, compiled) =
            rule_set_try_from-mem steps.schemas config.rules (plugin_rule raw.name matcher)
              steps.rules_done
              (resolve-plugin_rule dir (full.includes ++ steps.implicit) steps.schemas raw.name
                matcher steps.paths_done (Memᴰ.append_right full.includes brought)) in
          (rule, n, compiled, plugin_rule-action raw.name matcher rule compiled)

      -- A file without the section `backend` does not load, whatever else it holds.
      pub load_config-no_backend :
          document.backend ≡ none
          → (config : AppConfig Json) → load_config system parsers path ≢ ok config
      unfolding fill_config backend_try_from
      load_config-no_backend missing config = λ h.
          let steps =
            load_parsed-steps system parsers path (fill_config system document) config
              (sym load_config-parsed ∙ h) in
          let done =
            subst
              (λ b.
                backend_try_from system (fill_or (no_backend system) (fill_backend system) b)
                ≡ ok config.backend)
              missing steps.backend_done in
          absurd (ground (arith, done))
