-- ===== src/Rules/Matching/Laws.antt =====
-- Path prefixes and joined paths of src/rules/matching.rs, by what is left of the texts.
use any_mirror.Common.{
  Option-cases, length, get_elem?, is_some, ◌==◌, nat_eq, pair_eq, list_beq_iff, list_eq, option_eq,
  ◌≡◌, refl, inl, inr, Bool, true, false, ◌||◌, Option, none, some, [], ◌∷◌, ◌++◌, arith,
}
use any_mirror.Text.{Text, ends_with, starts_with, strip_prefix}
use any_mirror.Rules.Matching.{none_or_slash, path_has_prefix}

pub starts-strip : (cs ps : Text) → starts_with cs ps ≡ is_some (strip_prefix cs ps)
unfolding starts_with strip_prefix
starts-strip cs [] = refl
starts-strip [] (p ∷ ps) = refl
starts-strip (c ∷ cs) (p ∷ ps) = ground (arith, starts-strip cs ps)

pub strip-append : (cs ps rest : Text) → strip_prefix cs ps ≡ some rest → cs ≡ ps ++ rest
unfolding strip_prefix
strip-append cs [] rest h = ground arith
strip-append [] (p ∷ ps) rest h = absurd (ground arith)
strip-append (c ∷ cs) (p ∷ ps) rest h = ground (arith, strip-append cs ps rest)

pub append-strip : (ps rest : Text) → strip_prefix (ps ++ rest) ps ≡ some rest
unfolding strip_prefix
append-strip [] rest = refl
append-strip (p ∷ ps) rest = ground (arith, append-strip ps rest)

-- What follows a prefix begins a new segment.
abbrev pub begins_segment : Text → Bool
begins_segment [] = true
begins_segment (c ∷ cs) = c == b'/'

get_elem?-strip :
    (cs ps rest : Text)
    → strip_prefix cs ps ≡ some rest
    → none_or_slash (get_elem? cs (length ps)) ≡ begins_segment rest
unfolding strip_prefix
get_elem?-strip [] [] rest h = ground arith
get_elem?-strip (c ∷ cs) [] rest h = ground arith
get_elem?-strip [] (p ∷ ps) rest h = absurd (ground arith)
get_elem?-strip (c ∷ cs) (p ∷ ps) rest h = ground (arith, get_elem?-strip cs ps rest)

-- A match of a prefix, by what is left of the path.
abbrev pub segment_match : Text → Option Text → Bool
segment_match prefix none = false
segment_match prefix (some rest) = ends_with b'/' prefix || begins_segment rest

pub slash_ends : (prefix : Text) → (prefix == b'/' ∷ []) ≡ true → ends_with b'/' prefix ≡ true
unfolding ends_with
slash_ends prefix h = rw ((list_beq_iff prefix (b'/' ∷ [])).0 h)

-- A path that begins with a slash has a prefix exactly if the prefix can be stripped from it, and the
-- prefix ends with a slash or what is left is empty or begins with one.
pub path_has_prefix_lem :
    (path prefix : Text)
    → starts_with path (b'/' ∷ []) ≡ true
    → path_has_prefix path prefix ≡ segment_match prefix (strip_prefix path prefix)
unfolding path_has_prefix
path_has_prefix_lem path prefix h = elim (Option-cases (strip_prefix path prefix)) [
  | inl miss ↦ ground (
    arith,
    starts-strip path prefix,
    starts-strip path (b'/' ∷ []),
    list_beq_iff prefix (b'/' ∷ []),
  )
  | inr (rest, hit) ↦ ground (
    arith,
    hit,
    slash_ends prefix,
    get_elem?-strip path prefix rest hit,
    starts-strip path prefix,
  )
]
