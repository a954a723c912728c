-- ===== src/Rules/Order/Laws.antt =====
-- The order of candidates in src/rules/pool/runtime.rs, and the members of sorted lists.
use any_mirror.Common.{
  All, ◌==◌, nat_eq, pair_eq, list_eq, option_eq, ip_eq, int_beq_iff, int_ltb_irrefl, int_ltb_trans,
  int_total, ◌≡◌, refl, sym, ap, ap₂, ◌∙◌, subst, ◌⊎◌, inl, inr, true, false, List, [], ◌∷◌, arith,
}
use any_mirror.Rules.Order.{Candidate, precedes}

pub precedes_irrefl : (c : Candidate) → precedes c c ≡ false
unfolding precedes
precedes_irrefl c = ground (arith, int_ltb_irrefl c.1.priority)

pub precedes_trans :
    (a b c : Candidate) → precedes a b ≡ true → precedes b c ≡ true → precedes a c ≡ true
unfolding precedes
precedes_trans a b c h k = ground (
  arith,
  int_ltb_trans c.1.priority b.1.priority a.1.priority,
  int_beq_iff c.1.priority b.1.priority,
  int_beq_iff b.1.priority a.1.priority,
  int_beq_iff c.1.priority a.1.priority,
)

pub precedes_asym : (a b : Candidate) → precedes a b ≡ true → precedes b a ≡ false
precedes_asym a b h = ground (arith, precedes_trans a b a h, precedes_irrefl a)

-- Candidates of different indices are ordered.
pub precedes_total :
    (a b : Candidate) → precedes b a ≡ false → (a.0 == b.0) ≡ false → precedes a b ≡ true
unfolding precedes
precedes_total a b h k = ground (
  arith,
  int_total a.1.priority b.1.priority,
  int_beq_iff b.1.priority a.1.priority,
  int_beq_iff a.1.priority b.1.priority,
)

pub follows_trans :
    (a b c : Candidate) → precedes b a ≡ false → precedes c b ≡ false → precedes c a ≡ false
unfolding precedes
follows_trans a b c h k = ground (
  arith,
  int_total a.1.priority b.1.priority,
  int_total b.1.priority c.1.priority,
  int_total a.1.priority c.1.priority,
  int_ltb_trans a.1.priority b.1.priority c.1.priority,
  int_ltb_trans c.1.priority a.1.priority b.1.priority,
  int_ltb_trans b.1.priority c.1.priority a.1.priority,
  int_beq_iff b.1.priority a.1.priority,
  int_beq_iff c.1.priority b.1.priority,
  int_beq_iff a.1.priority c.1.priority,
)

-- No later candidate precedes an earlier one.
abbrev pub IsSorted : List Candidate → Type 0
IsSorted [] = Unit
IsSorted (c ∷ cs) = All (λ d. precedes d c ≡ false) cs × IsSorted cs

-- Each candidate precedes the later ones.
abbrev pub IsStrict : List Candidate → Type 0
IsStrict [] = Unit
IsStrict (c ∷ cs) = All (λ d. precedes c d ≡ true) cs × IsStrict cs

abbrev pub In : Candidate → List Candidate → Type 0
In c [] = ⊥
In c (d ∷ ds) = (c ≡ d) ⊎ In c ds

pub All-In :
    (P : Candidate → Type 0) (c : Candidate) (cs : List Candidate) → All P cs → In c cs → P c
All-In P c [] h i = absurd i
All-In P c (d ∷ ds) h (inl e) = subst P (sym e) h.0
All-In P c (d ∷ ds) h (inr i) = All-In P c ds h.1 i

pub In-All :
    {P : Candidate → Type 0} (cs : List Candidate) → ((c : Candidate) → In c cs → P c) → All P cs
In-All [] f = tt
In-All (d ∷ ds) f = (f d (inl refl), In-All ds (λ c i. f c (inr i)))

pub strict_unique :
    (xs ys : List Candidate)
    → IsStrict xs
    → IsStrict ys
    → ((c : Candidate) → In c xs → In c ys)
    → ((c : Candidate) → In c ys → In c xs)
    → xs ≡ ys
strict_unique [] [] s t f g = refl
strict_unique [] (y ∷ ys) s t f g = absurd (g y (inl refl))
strict_unique (x ∷ xs) [] s t f g = absurd (f x (inl refl))
strict_unique (x ∷ xs) (y ∷ ys) s t f g =
    let same = heads (f x (inl refl)) (g y (inl refl)) in
    ap₂ ◌∷◌ same (
      strict_unique xs ys s.1 t.1 (λ c i. tail ys c x y same (All-In _ c xs s.0 i) (f c (inr i)))
        (λ c i. tail xs c y x (sym same) (All-In _ c ys t.0 i) (g c (inr i))))
  where
    heads : In x (y ∷ ys) → In y (x ∷ xs) → x ≡ y
    heads (inl e) j = e
    heads (inr i) (inl e) = sym e
    heads (inr i) (inr j) =
        absurd (ground (arith, All-In _ x ys t.0 i, All-In _ y xs s.0 j, precedes_asym x y))

    tail :
        (bs : List Candidate) (c a b : Candidate)
        → a ≡ b
        → precedes a c ≡ true
        → In c (b ∷ bs)
        → In c bs
    tail bs c a b same p (inr i) = i
    tail bs c a b same p (inl e) =
        absurd (ground (arith, p, ap (λ x. precedes x c) (same ∙ sym e), precedes_irrefl c))
