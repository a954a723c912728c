-- ===== src/Config/Path.antt =====
-- src/config.rs: the file that a name on the command line stands for.
use any_mirror.Rules.Compile.{ok_or}
use any_mirror.Common.{
  if◌then◌else◌, ◌==◌, nat_eq, pair_eq, list_eq, option_eq, Result, ok, ip_eq, not, ◌||◌, Option,
  none, some, List, [], ◌∷◌, ◌++◌,
}
use any_mirror.Text.{Text, codes, to_ascii_lowercase, contains_text}
use any_mirror.Config.{ConfigError, unknown_alias, System}

-- A file name that may be an alias.
unfoldable pub alias_name : Text → Option Text
unfolding to_ascii_lowercase contains_text
alias_name file_name =
    if to_ascii_lowercase file_name == codes "config.yml"
      || to_ascii_lowercase file_name == codes "config.yaml"
    then none
    else if contains_text (codes ".") file_name
    then none
    else some file_name

abbrev pub candidates : Text → List Text
candidates alias =
    (codes "config." ++ alias ++ codes ".yaml")
    ∷ (codes "config." ++ alias ++ codes ".yml")
    ∷ (alias ++ codes ".yaml")
    ∷ (alias ++ codes ".yml")
    ∷ []

module _ {Json Yaml : Type 0} (system : System Json Yaml) where
  unfoldable pub extract_config_alias : Text → Option Text
  unfolding alias_name
  extract_config_alias path =
      if not (system.components path == 1)
      then none
      else elim (system.file_name path) [ none ↦ none | some file_name ↦ alias_name file_name ]

  abbrev pub first_file : List Text → Option Text
  first_file [] = none
  first_file (path ∷ paths) =
      let rest = first_file paths in if system.is_file path then some path else rest

  unfoldable pub resolve_config_path : Text → Result ConfigError Text
  unfolding extract_config_alias
  resolve_config_path path =
      if system.is_file path then ok path else elim (extract_config_alias path) [
        | none ↦ ok path
        | some alias ↦ ok_or unknown_alias (first_file (candidates alias))
      ]
