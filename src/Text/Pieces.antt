-- ===== src/Text/Pieces.antt =====
-- The pieces of a text between separators, for the labels of hosts in src/rules/pool/trie.rs.
use mathlib.Core.List.{reverse, reverse-reverse, reverse-append}
use any_mirror.Common.{
  Bool-cases, KeyEq, ◌==◌, nat_eq, pair_eq, list_beq_iff, list_eq, option_eq, ℕ, ◌≡◌, refl, sym, ap,
  ap₂, ◌∙◌, ◌≢◌, inl, inr, Bool, true, false, ◌&&◌, ◌||◌, Option, none, some, List, [], ◌∷◌, ◌++◌,
  map, arith,
}
use any_mirror.Text.{Text, ends_with, strip_prefix, split, rsplit, strip_suffix}

abbrev pub is_prefix {ℓ} : {K : Type ℓ} ⦃e : KeyEq K⦄ → List K → List K → Bool
is_prefix [] ks = true
is_prefix (p ∷ ps) [] = false
is_prefix (p ∷ ps) (k ∷ ks) = p == k && is_prefix ps ks

-- What is left after a prefix begins with the separator, or is nothing.
abbrev pub at_separator : ℕ → Option Text → Bool
at_separator sep none = false
at_separator sep (some []) = true
at_separator sep (some (c ∷ cs)) = c == sep

split_cons :
    (sep : ℕ) (cs : Text) → (piece : Text) × (pieces : List Text) × (split sep cs ≡ piece ∷ pieces)
unfolding split
split_cons sep [] = ([], [], refl)
split_cons sep (c ∷ cs) =
    let (piece, pieces, h) = split_cons sep cs in
    elim (Bool-cases (c == sep)) [
      | inl here ↦ ([], split sep cs, ground arith)
      | inr other ↦ (c ∷ piece, pieces, ground (arith, h))
    ]

is_prefix-split :
    (sep : ℕ) (ps cs : Text)
    → is_prefix (split sep ps) (split sep cs) ≡ at_separator sep (strip_prefix cs ps)
unfolding split strip_prefix
is_prefix-split sep [] [] = refl
is_prefix-split sep [] (c ∷ cs) = let (x, xs, h) = split_cons sep cs in ground (arith, h)
is_prefix-split sep (p ∷ ps) [] = let (x, xs, h) = split_cons sep ps in ground (arith, h)
is_prefix-split sep (p ∷ ps) (c ∷ cs) =
    let (x, xs, h) = split_cons sep ps in
    let (y, ys, k) = split_cons sep cs in
    let ih = is_prefix-split sep ps cs in ground (arith, h, k, ih)

ends_with-push : (sep : ℕ) (cs : Text) (c : ℕ) → ends_with sep (cs ++ c ∷ []) ≡ (c == sep)
unfolding ends_with
ends_with-push sep [] c = refl
ends_with-push sep (d ∷ []) c = refl
ends_with-push sep (d ∷ d' ∷ ds) c = ends_with-push sep (d' ∷ ds) c

pub ends_with-reverse :
    (sep : ℕ) (cs : Text) (c : ℕ) → ends_with sep (reverse (c ∷ cs)) ≡ (c == sep)
ends_with-reverse sep cs c =
    ap (ends_with sep) (reverse-append (c ∷ []) cs) ∙ ends_with-push sep (reverse cs) c

reverse-injective : (xs ys : Text) → reverse xs ≡ reverse ys → xs ≡ ys
reverse-injective xs ys h = sym (reverse-reverse xs) ∙ ap reverse h ∙ reverse-reverse ys

eq-reverse : (xs ys : Text) → (reverse xs == reverse ys) ≡ (xs == ys)
eq-reverse xs ys = elim (Bool-cases (xs == ys)) [
  | inl same ↦
      rw same
        ((list_beq_iff (reverse xs) (reverse ys)).1 (ap reverse ((list_beq_iff xs ys).0 same)))
  | inr differ ↦ elim (Bool-cases (reverse xs == reverse ys)) [
    | inl same ↦ absurd (
        ground (
          arith,
          reverse-injective xs ys ((list_beq_iff (reverse xs) (reverse ys)).0 same),
          list_beq_iff xs ys,
        ))
    | inr other ↦ other ∙ sym differ
  ]
]

is_prefix-map-reverse :
    (ps ks : List Text) → is_prefix (map reverse ps) (map reverse ks) ≡ is_prefix ps ks
is_prefix-map-reverse [] ks = refl
is_prefix-map-reverse (p ∷ ps) [] = refl
is_prefix-map-reverse (p ∷ ps) (k ∷ ks) = ap₂ ◌&&◌ (eq-reverse p k) (is_prefix-map-reverse ps ks)

-- The last pieces of a text are those of a suffix exactly if a separator, or nothing, precedes it.
pub is_prefix-rsplit :
    (sep : ℕ) (suffix cs : Text)
    → is_prefix (rsplit sep suffix) (rsplit sep cs)
      ≡ at_separator sep (strip_prefix (reverse cs) (reverse suffix))
unfolding rsplit
is_prefix-rsplit sep suffix cs =
    is_prefix-map-reverse (split sep (reverse suffix)) (split sep (reverse cs))
    ∙ is_prefix-split sep (reverse suffix) (reverse cs)

strip_self : (cs : Text) → strip_prefix cs cs ≡ some []
unfolding strip_prefix
strip_self [] = refl
strip_self (c ∷ cs) = ground (arith, strip_self cs)

strip-none_left : (cs ps : Text) → strip_prefix cs ps ≡ some [] → cs ≡ ps
unfolding strip_prefix
strip-none_left [] [] h = refl
strip-none_left (c ∷ cs) [] h = absurd (ground arith)
strip-none_left [] (p ∷ ps) h = absurd (ground arith)
strip-none_left (c ∷ cs) (p ∷ ps) h = ground (arith, strip-none_left cs ps)

strip_of_eq :
    (cs suffix : Text)
    → (cs == suffix) ≡ true
    → strip_prefix (reverse cs) (reverse suffix) ≡ some []
strip_of_eq cs suffix h =
    ap (λ x. strip_prefix (reverse cs) (reverse x)) (sym ((list_beq_iff cs suffix).0 h))
    ∙ strip_self (reverse cs)

eq_of_strip :
    (cs suffix : Text)
    → strip_prefix (reverse cs) (reverse suffix) ≡ some []
    → (cs == suffix) ≡ true
eq_of_strip cs suffix h =
    (list_beq_iff cs suffix).1
      (reverse-injective cs suffix (strip-none_left (reverse cs) (reverse suffix) h))

-- `cs == suffix || cs.strip_suffix(suffix).is_some_and(|rest| rest.ends_with(sep))`
abbrev pub has_piece_suffix : ℕ → Text → Text → Bool
has_piece_suffix sep cs suffix =
    cs == suffix || elim (strip_suffix cs suffix) [ none ↦ false | some rest ↦ ends_with sep rest ]

pub is_prefix-has_piece_suffix :
    (sep : ℕ) (suffix cs : Text)
    → is_prefix (rsplit sep suffix) (rsplit sep cs) ≡ has_piece_suffix sep cs suffix
unfolding strip_suffix
is_prefix-has_piece_suffix sep suffix cs =
    is_prefix-rsplit sep suffix cs ∙ cases (strip_prefix (reverse cs) (reverse suffix)) refl
  where
    cases :
        (o : Option Text)
        → strip_prefix (reverse cs) (reverse suffix) ≡ o
        → at_separator sep (strip_prefix (reverse cs) (reverse suffix))
          ≡ has_piece_suffix sep cs suffix
    cases none h = ground (arith, h, strip_of_eq cs suffix)
    cases (some []) h = ground (arith, h, eq_of_strip cs suffix)
    cases (some (c ∷ rest)) h =
        ground (arith, h, strip_of_eq cs suffix, ends_with-reverse sep rest c)

pub rsplit-ne : (sep : ℕ) (cs : Text) → rsplit sep cs ≢ []
unfolding rsplit
rsplit-ne sep cs h = let (x, xs, k) = split_cons sep (reverse cs) in ground (arith, h, k)
