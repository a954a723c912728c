-- ===== src/Text.antt =====
-- The functions of `str` that the program calls, on lists of code points.
use Prim.Native.String.{String}
use Prim.Native.Char.{code}
pub mod Pieces
use mathlib.Core.List.{reverse}
use mathlib.Core.Option
use any_mirror.Common.{
  leb, if◌then◌else◌, ◌==◌, nat_eq, pair_eq, list_eq, option_eq, ℕ, ◌+◌, Bool, true, false, not,
  ◌&&◌, ◌||◌, Option, none, some, List, [], ◌∷◌, map,
}

abbrev pub Text : Type 0
Text = List ℕ

-- The code points of a literal.
abbrev pub codes : String → Text
codes (String.◌∷◌ letter literal) = code letter ∷ codes literal
codes String.[] = []

abbrev pub is_empty : Text → Bool
is_empty [] = true
is_empty (c ∷ cs) = false

-- `trim_end_matches(c)`
unfoldable pub trim_end_matches : ℕ → Text → Text
trim_end_matches p [] = []
trim_end_matches p (c ∷ cs) =
    let rest = trim_end_matches p cs in if c == p && is_empty rest then [] else c ∷ rest

unfoldable pub to_ascii_lowercase : Text → Text
to_ascii_lowercase [] = []
to_ascii_lowercase (c ∷ cs) =
    (if leb b'A' c && leb c b'Z' then c + 32 else c) ∷ to_ascii_lowercase cs

-- `ends_with(c)`
unfoldable pub ends_with : ℕ → Text → Bool
ends_with p [] = false
ends_with p (c ∷ []) = c == p
ends_with p (c ∷ d ∷ cs) = ends_with p (d ∷ cs)

unfoldable pub starts_with : Text → Text → Bool
starts_with cs [] = true
starts_with [] (p ∷ ps) = false
starts_with (c ∷ cs) (p ∷ ps) = c == p && starts_with cs ps

unfoldable pub strip_prefix : Text → Text → Option Text
strip_prefix cs [] = some cs
strip_prefix [] (p ∷ ps) = none
strip_prefix (c ∷ cs) (p ∷ ps) = if c == p then strip_prefix cs ps else none

-- `split(c)`: the pieces between the separators, one more than there are separators.
abbrev pub first_cons : ℕ → List Text → List Text
first_cons c [] = (c ∷ []) ∷ []
first_cons c (piece ∷ pieces) = (c ∷ piece) ∷ pieces

unfoldable pub split : ℕ → Text → List Text
split p [] = [] ∷ []
split p (c ∷ cs) = let rest = split p cs in if c == p then [] ∷ rest else first_cons c rest

-- `rsplit(c)`: the same pieces, last one first, found by a search from the end.
unfoldable pub rsplit : ℕ → Text → List Text
unfolding split
rsplit p cs = map reverse (split p (reverse cs))

-- `strip_suffix`
unfoldable pub strip_suffix : Text → Text → Option Text
unfolding strip_prefix
strip_suffix cs suffix = Option.map reverse (strip_prefix (reverse cs) (reverse suffix))

-- `trim_start_matches(c)`
unfoldable pub trim_start_matches : ℕ → Text → Text
trim_start_matches p [] = []
trim_start_matches p (c ∷ cs) = if c == p then trim_start_matches p cs else c ∷ cs

-- The code points with the property `White_Space`.
unfoldable pub is_whitespace : ℕ → Bool
is_whitespace c =
    leb 9 c && leb c 13
    || c == 32
    || c == 0x85
    || c == 0xa0
    || c == 0x1680
    || leb 0x2000 c && leb c 0x200a
    || c == 0x2028
    || c == 0x2029
    || c == 0x202f
    || c == 0x205f
    || c == 0x3000

unfoldable pub trim_start : Text → Text
unfolding is_whitespace
trim_start [] = []
trim_start (c ∷ cs) = if is_whitespace c then trim_start cs else c ∷ cs

unfoldable pub trim_end : Text → Text
unfolding is_whitespace
trim_end [] = []
trim_end (c ∷ cs) =
    let rest = trim_end cs in if is_whitespace c && is_empty rest then [] else c ∷ rest

unfoldable pub trim : Text → Text
unfolding trim_start trim_end
trim cs = trim_end (trim_start cs)

-- `contains(pattern)`
unfoldable pub contains_text : Text → Text → Bool
unfolding starts_with
contains_text pattern [] = is_empty pattern
contains_text pattern (c ∷ cs) = starts_with (c ∷ cs) pattern || contains_text pattern cs

unfoldable pub is_ascii_uppercase : ℕ → Bool
is_ascii_uppercase c = leb b'A' c && leb c b'Z'

-- `bytes().all(|byte| !byte.is_ascii_uppercase())`
unfoldable pub no_uppercase : Text → Bool
unfolding is_ascii_uppercase
no_uppercase [] = true
no_uppercase (c ∷ cs) = not (is_ascii_uppercase c) && no_uppercase cs
