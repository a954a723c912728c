-- ===== src/Rules/Matching/Normal.antt =====
-- Joined paths and the normal forms of hosts in src/rules/matching.rs.
use any_mirror.Common.{
  if◌then◌else◌, ◌==◌, nat_eq, pair_eq, list_eq, option_eq, ok, ip_eq, ℕ, ◌≡◌, refl, true, false,
  ◌&&◌, [], ◌∷◌, ◌++◌, arith,
}
use any_mirror.Text.{
  Text, is_empty, trim_end_matches, to_ascii_lowercase, ends_with, trim_start_matches, trim,
  no_uppercase,
}
use any_mirror.Rules.Matching.{join_paths, normalize_host}

ends_with-trim_end_matches : (p : ℕ) (cs : Text) → ends_with p (trim_end_matches p cs) ≡ false
unfolding ends_with trim_end_matches
ends_with-trim_end_matches p [] = refl
ends_with-trim_end_matches p (c ∷ cs) =
    step (trim_end_matches p cs) refl (ends_with-trim_end_matches p cs)
  where
    step :
        (rest : Text)
        → trim_end_matches p cs ≡ rest
        → ends_with p (trim_end_matches p cs) ≡ false
        → ends_with p
            (if c == p && is_empty (trim_end_matches p cs) then [] else c ∷ trim_end_matches p cs)
          ≡ false
    step [] e h = ground (arith, e)
    step (d ∷ ds) e h = ground (arith, e, h)

-- The base without the slashes at its end, or the root.
abbrev pub base_of : Text → Text
base_of trimmed = if is_empty trimmed then b'/' ∷ [] else trimmed

-- The base and the suffix are joined by one slash, whatever slashes stand at the end of the base and
-- at the start of the suffix; a suffix of slashes only leaves the base, or the root.
pub join_paths_lem :
    (base suffix : Text)
    → join_paths base suffix ≡ (
        if is_empty (trim_start_matches b'/' suffix)
        then base_of (trim_end_matches b'/' base)
        else trim_end_matches b'/' base ++ b'/' ∷ trim_start_matches b'/' suffix)
unfolding join_paths ends_with
join_paths_lem base suffix =
    cases (trim_end_matches b'/' base) refl (ends_with-trim_end_matches b'/' base)
  where
    cases :
        (trimmed : Text)
        → trim_end_matches b'/' base ≡ trimmed
        → ends_with b'/' (trim_end_matches b'/' base) ≡ false
        → join_paths base suffix ≡ (
            if is_empty (trim_start_matches b'/' suffix)
            then base_of (trim_end_matches b'/' base)
            else trim_end_matches b'/' base ++ b'/' ∷ trim_start_matches b'/' suffix)
    cases [] e h = ground (arith, e)
    cases (c ∷ cs) e h = ground (arith, e, h)

lowercase_same : (cs : Text) → no_uppercase cs ≡ true → to_ascii_lowercase cs ≡ cs
unfolding no_uppercase to_ascii_lowercase
lowercase_same [] h = refl
lowercase_same (c ∷ cs) h = ground (arith, lowercase_same cs)

-- The host in lower case, without the white space around it and the dots at its end.
abbrev pub host_form : Text → Text
host_form value = to_ascii_lowercase (trim_end_matches b'.' (trim value))

-- What is accepted as a host becomes, also by the shortcut for a host without capital letters, the
-- host in lower case, without the white space around it and the dots at its end.
pub normalize_host_lem :
    (value host : Text) → normalize_host value ≡ ok host → host ≡ host_form value
unfolding normalize_host
normalize_host_lem value host h =
    ground (arith, h, lowercase_same (trim_end_matches b'.' (trim value)))
