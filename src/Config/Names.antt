-- ===== src/Config/Names.antt =====
-- src/config.rs: the files that the names on the command line stand for.
use any_mirror.Rules.Compile.{ok_or}
use any_mirror.Common.{
  leb, if◌then◌else◌, nat_beq_iff, Bool-cases, All, ◌==◌, nat_eq, pair_eq, list_beq_iff, list_eq,
  option_eq, Result, ok, err, ip_eq, ℕ, ◌+◌, ◌≡◌, refl, sym, ap, ◌∙◌, subst, inl, inr, Bool, true,
  false, not, ◌&&◌, ◌||◌, Option, none, some, List, [], ◌∷◌, ◌++◌, arith,
}
use any_mirror.Text.{Text, codes, to_ascii_lowercase, starts_with, contains_text}
use any_mirror.Config.{ConfigError, unknown_alias, System}
use any_mirror.Config.Path.{
  alias_name, candidates, extract_config_alias, first_file, resolve_config_path,
}

alias_name_lem :
    (name alias : Text)
    → alias_name name ≡ some alias
    → (name ≡ alias) × (contains_text (codes ".") alias ≡ false)
unfolding alias_name
alias_name_lem name alias h =
    cases
      (to_ascii_lowercase name == codes "config.yml"
        || to_ascii_lowercase name == codes "config.yaml")
      (contains_text (codes ".") name) refl h
  where
    cases :
        (a b : Bool)
        → contains_text (codes ".") name ≡ b
        → (if a then none else if b then none else some name) ≡ some alias
        → (name ≡ alias) × (contains_text (codes ".") alias ≡ false)
    cases true b e k = absurd (ground (arith, k))
    cases false true e k = absurd (ground (arith, k))
    cases false false e k =
        let same : name ≡ alias = ground (arith, k) in
        (same, subst (λ t. contains_text (codes ".") t ≡ false) same e)

lower_dot : (c : ℕ) → ((if leb b'A' c && leb c b'Z' then c + 32 else c) == b'.') ≡ (c == b'.')
lower_dot c = ground arith

contains_dot-lower :
    (cs : Text) → contains_text (codes ".") (to_ascii_lowercase cs) ≡ contains_text (codes ".") cs
unfolding contains_text starts_with to_ascii_lowercase
contains_dot-lower [] = refl
contains_dot-lower (c ∷ cs) = rw (lower_dot c, contains_dot-lower cs) refl

dotted :
    (name config : Text)
    → contains_text (codes ".") config ≡ true
    → contains_text (codes ".") name ≡ false
    → (to_ascii_lowercase name == config) ≡ false
dotted name config dot no_dot = elim (Bool-cases (to_ascii_lowercase name == config)) [
  | inr other ↦ other
  | inl same ↦
      let lower = (list_beq_iff (to_ascii_lowercase name) config).0 same in
      absurd (
        ground (
          arith,
          sym no_dot ∙ sym (contains_dot-lower name) ∙ ap (contains_text (codes ".")) lower ∙ dot,
        ))
]

alias_name_of : (name : Text) → contains_text (codes ".") name ≡ false → alias_name name ≡ some name
unfolding alias_name contains_text starts_with
alias_name_of name no_dot =
    rw
      (
        dotted name (codes "config.yml") refl no_dot,
        dotted name (codes "config.yaml") refl no_dot,
        no_dot,
      )
      refl

-- The files that an alias may stand for, the one that is preferred first.
abbrev pub files_of : Text → List Text
files_of name =
    (codes "config." ++ name ++ codes ".yaml")
    ∷ (codes "config." ++ name ++ codes ".yml")
    ∷ (name ++ codes ".yaml")
    ∷ (name ++ codes ".yml")
    ∷ []

module _ {Json Yaml : Type 0} (system : System Json Yaml) where
  abbrev pub AreMissing : List Text → Type 0
  AreMissing paths = All (λ path. system.is_file path ≡ false) paths

  pub record IsAlias (path alias : Text) : Type 0 where
    pub one_component : system.components path ≡ 1
    pub is_name : system.file_name path ≡ some alias
    pub no_dot : contains_text (codes ".") alias ≡ false

  pub data IsResolved (path : Text) : Result ConfigError Text → Type 0 where
    existing : system.is_file path ≡ true → IsResolved path (ok path)
    no_alias :
        system.is_file path ≡ false
        → ((alias : Text) → ¬ IsAlias path alias)
        → IsResolved path (ok path)
    found :
        (alias file_path : Text) (before after : List Text)
        → system.is_file path ≡ false
        → IsAlias path alias
        → files_of alias ≡ before ++ file_path ∷ after
        → AreMissing before
        → system.is_file file_path ≡ true
        → IsResolved path (ok file_path)
    missing :
        (alias : Text)
        → system.is_file path ≡ false
        → IsAlias path alias
        → AreMissing (files_of alias)
        → IsResolved path (err unknown_alias)

  abbrev pub IsFirst : List Text → Option Text → Type 0
  IsFirst paths none = AreMissing paths
  IsFirst paths (some file_path) =
      (before : List Text) × (after : List Text) × (paths ≡ before ++ file_path ∷ after)
      × AreMissing before
      × (system.is_file file_path ≡ true)

  first_file-IsFirst : (paths : List Text) → IsFirst paths (first_file system paths)
  first_file-IsFirst [] = tt
  first_file-IsFirst (path ∷ paths) =
      step (system.is_file path) refl (first_file system paths) (first_file-IsFirst paths)
    where
      step :
          (b : Bool)
          → system.is_file path ≡ b
          → (o : Option Text) → IsFirst paths o
          → IsFirst (path ∷ paths) (if b then some path else o)
      step true e o h = ([], paths, refl, tt, e)
      step false e none h = (e, h)
      step false e (some file_path) (before, after, same, none_before, is) =
          (path ∷ before, after, ap (λ ps. path ∷ ps) same, (e, none_before), is)

  extract-IsAlias :
      (path alias : Text) → extract_config_alias system path ≡ some alias → IsAlias path alias
  unfolding extract_config_alias
  extract-IsAlias path alias h =
      step (system.components path == 1) refl (system.file_name path) refl h
    where
      step :
          (b : Bool)
          → (system.components path == 1) ≡ b
          → (o : Option Text) → system.file_name path ≡ o
          → (if not b
              then none
              else elim o as (λ x. Option Text) [ none ↦ none | some name ↦ alias_name name ])
            ≡ some alias
          → IsAlias path alias
      step false e o f k = absurd (ground (arith, k))
      step true e none f k = absurd (ground (arith, k))
      step true e (some name) f k =
          let (same, no_dot) = alias_name_lem name alias k in
          record {
            one_component = (nat_beq_iff (system.components path) 1).0 e;
            is_name = f ∙ ap some same;
            no_dot = no_dot;
          }

  resolve_alias :
      (path alias : Text) (o : Option Text)
      → system.is_file path ≡ false
      → IsAlias path alias
      → IsFirst (candidates alias) o
      → IsResolved path (ok_or unknown_alias o)
  resolve_alias path alias none other is h = missing alias other is h
  resolve_alias path alias (some file_path) other is (before, after, same, none_before, file) =
      found alias file_path before after other is same none_before file

  extract_alias :
      (path alias : Text) → IsAlias path alias → extract_config_alias system path ≡ some alias
  unfolding extract_config_alias
  extract_alias path alias is = rw (is.one_component, is.is_name) (alias_name_of alias is.no_dot)

  -- A path that is a file is kept, and so is one that is no alias, that is, no name of one component
  -- without a dot. An alias `name` gives the first of `config.name.yaml`, `config.name.yml`,
  -- `name.yaml` and `name.yml` that is a file, and an error if none is.
  pub resolve_config_path-IsResolved :
      (path : Text) → IsResolved path (resolve_config_path system path)
  unfolding resolve_config_path
  resolve_config_path-IsResolved path =
      step (system.is_file path) refl (extract_config_alias system path) refl
    where
      step :
          (b : Bool)
          → system.is_file path ≡ b
          → (o : Option Text) → extract_config_alias system path ≡ o
          → IsResolved path (
              if b then ok path else elim o as (λ x. Result ConfigError Text) [
                | none ↦ ok path
                | some alias ↦ ok_or unknown_alias (first_file system (candidates alias))
              ])
      step true e o f = existing e
      step false e none f =
          no_alias e (λ alias is. ground (arith, sym f ∙ extract_alias path alias is))
      step false e (some alias) f =
          resolve_alias path alias (first_file system (candidates alias)) e
            (extract-IsAlias path alias f) (first_file-IsFirst (candidates alias))
