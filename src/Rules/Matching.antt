-- ===== src/Rules/Matching.antt =====
-- src/rules/matching.rs: comparison of URLs, path prefixes, and the normal forms of the texts in a
-- rule.
pub mod Laws
pub mod Normal
use any_mirror.Common.{
  if◌then◌else◌, length, get_elem?, ◌==◌, nat_eq, pair_eq, list_eq, option_eq, Result, ok, err, ℕ,
  Bool, true, false, not, ◌&&◌, ◌||◌, Option, none, some, [], ◌∷◌, ◌++◌,
}
use any_mirror.Text.{
  Text, codes, is_empty, trim_end_matches, to_ascii_lowercase, ends_with, starts_with,
  trim_start_matches, trim, contains_text, no_uppercase,
}
use any_mirror.Rules.Url.{Url}

unfoldable pub same_origin : Url → Url → Bool
same_origin left right =
    left.scheme == right.scheme
    && left.host_str == right.host_str
    && left.port_or_known_default == right.port_or_known_default

unfoldable pub same_url : Url → Url → Bool
unfolding same_origin
same_url left right = same_origin left right && left.path == right.path && left.query == right.query

-- `matches!(byte, None | Some(b'/'))`
abbrev pub none_or_slash : Option ℕ → Bool
none_or_slash none = true
none_or_slash (some c) = c == b'/'

unfoldable pub path_has_prefix : Text → Text → Bool
path_has_prefix path prefix =
    if prefix == b'/' ∷ []
    then true
    else (if not (starts_with path prefix)
        then false
        else (if ends_with b'/' prefix
            then true
            else none_or_slash (get_elem? path (length prefix))))

unfoldable pub join_paths : Text → Text → Text
join_paths base suffix =
    let trimmed = trim_end_matches b'/' base in
    let rest = trim_start_matches b'/' suffix in
    let result = if is_empty trimmed then b'/' ∷ [] else trimmed in
    if is_empty rest
    then result
    else (if ends_with b'/' result then result ++ rest else result ++ b'/' ∷ rest)

-- What the checks of the rules complain about.
pub data MatcherError : Type 0 where
  empty_host not_bare_host empty_suffix not_bare_suffix bad_scheme bad_path_prefix : MatcherError

abbrev pub scheme_separator : Text
scheme_separator = b':' ∷ b'/' ∷ b'/' ∷ []

-- `normalize_host_cow`; a borrowed and an owned text are the same here.
unfoldable pub normalize_host : Text → Result MatcherError Text
normalize_host value =
    let normalized = trim_end_matches b'.' (trim value) in
    if is_empty normalized
    then err empty_host
    else (if contains_text scheme_separator normalized || contains_text (b'/' ∷ []) normalized
        then err not_bare_host
        else (if no_uppercase normalized
            then ok normalized
            else ok (to_ascii_lowercase normalized)))

-- `trim_matches('.')`
unfoldable pub normalize_host_suffix : Text → Result MatcherError Text
normalize_host_suffix value =
    let normalized =
      to_ascii_lowercase (trim_end_matches b'.' (trim_start_matches b'.' (trim value))) in
    if is_empty normalized
    then err empty_suffix
    else (if contains_text scheme_separator normalized || contains_text (b'/' ∷ []) normalized
        then err not_bare_suffix
        else ok normalized)

unfoldable pub normalize_scheme : Text → Result MatcherError Text
normalize_scheme value =
    if value == codes "http" || value == codes "https" then ok value else err bad_scheme

unfoldable pub normalize_path_prefix : Text → Result MatcherError Text
normalize_path_prefix value =
    if starts_with value (b'/' ∷ []) then ok value else err bad_path_prefix
