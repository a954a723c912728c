-- ===== src/Trie/Cidr/Contains.antt =====
-- The CIDR tries of src/rules/pool/trie.rs and the meaning of a CIDR block, in which the address and
-- the network agree once the host bits are dropped.
use native.Mathlib.Nat.{
  div-div-eq-div-mul, pow-suc, mul_assoc, div-eq_of_lt, add-zero, add-suc, zero-add, sub-zero,
}
use native.Mathlib.Numerals.{add-one}
use any_mirror.Common.{
  if◌then◌else◌, nat_beq_iff, Bool-cases, All, ◌==◌, nat_eq, pair_eq, list_eq, option_eq, ℕ, zero,
  suc, ◌+◌, ◌-◌, ◌*◌, ◌/◌, ◌%◌, ◌^◌, ◌≤◌, ◌<◌, ◌≡◌, sym, ap, ◌∙◌, inl, inr, Bool, not, ◌&&◌, Option,
  List, [], ◌∷◌, arith,
}
use any_mirror.Trie.Cutoff.{should_skip_index, should_skip_subtree, count}
use any_mirror.Trie.Cidr.{CidrNode, default, cidr_bit, insert_cidr, visit_cidr_matches, Cidr}
use any_mirror.Trie.Cidr.Pruning.{IsBounded, default-IsBounded, insert-IsBounded}
use any_mirror.Trie.Cidr.Visit.{same, agree, added, count-insert}

-- `IpNet::contains`, for an address of `width` bits.
abbrev pub in_network : ℕ → Cidr → ℕ → Bool
in_network width cidr ip =
    cidr.network / 2 ^ (width - cidr.prefix_len) == ip / 2 ^ (width - cidr.prefix_len)

pow-add : (a b : ℕ) → 2 ^ (a + b) ≡ 2 ^ a * 2 ^ b
pow-add a zero = rw add-zero (omega arith)
pow-add a (suc b) = rw (add-suc, pow-suc, pow-add a b, pow-suc) (mul_assoc _ _ _)

module _ (width : ℕ) where
  -- The first bits of a value.
  top : ℕ → ℕ → ℕ
  top depth v = v / 2 ^ (width - depth)

  top_div : (depth k v : ℕ) → depth + k ≤ width → top depth v ≡ top (depth + k) v / 2 ^ k
  unfolding top
  top_div depth k v h =
      let e : width - depth ≡ (width - (depth + k)) + k = omega arith in
      rw (e, pow-add) (sym (div-div-eq-div-mul v (2 ^ (width - (depth + k))) (2 ^ k)))

  half : (depth v : ℕ) → suc depth ≤ width → top depth v ≡ top (suc depth) v / 2
  unfolding top
  half depth v h =
      let e : width - depth ≡ suc (width - suc depth) = omega arith in
      rw (e, pow-suc) (sym (div-div-eq-div-mul v (2 ^ (width - suc depth)) 2))

  bit-top :
      (depth v : ℕ) → suc depth ≤ width → cidr_bit v width depth ≡ (top (suc depth) v % 2 == 1)
  unfolding cidr_bit top
  bit-top depth v h = let e : width - depth - 1 ≡ width - suc depth = omega arith in rw e

  -- One more bit of the prefix.
  same-top :
      (depth bits ip : ℕ)
      → suc depth ≤ width
      → top depth bits ≡ top depth ip
      → same (cidr_bit bits width depth) (cidr_bit ip width depth)
        ≡ (top (suc depth) bits == top (suc depth) ip)
  same-top depth bits ip h e =
      rw (bit-top depth bits h, bit-top depth ip h)
        (ground (arith, half depth bits h, half depth ip h, e))

  agree-top :
      (k depth bits ip : ℕ)
      → depth + k ≤ width
      → top depth bits ≡ top depth ip
      → agree ip width k depth bits ≡ (top (depth + k) bits == top (depth + k) ip)
  agree-top zero depth bits ip h e = rw add-zero (ground (arith, e))
  agree-top (suc k) depth bits ip h e =
      let step = same-top depth bits ip (omega arith) e in
      let end : depth + suc k ≡ depth + 1 + k = omega arith in
      elim (Bool-cases (same (cidr_bit bits width depth) (cidr_bit ip width depth))) [
        | inl one_more ↦
            rw (one_more, end)
              (agree-top k (depth + 1) bits ip (omega arith)
                (rw add-one ((nat_beq_iff _ _).0 (sym step ∙ one_more))))
        | inr differ ↦
            rw (differ, end)
              (ground (
                arith,
                step,
                add-one depth,
                top_div (depth + 1) k bits (omega arith),
                top_div (depth + 1) k ip (omega arith),
              ))
      ]

  -- The bits agree exactly if the network contains the address.
  pub agree-in_network :
      (cidr : Cidr) (ip : ℕ)
      → cidr.prefix_len ≤ width
      → cidr.network < 2 ^ width
      → ip < 2 ^ width
      → agree ip width cidr.prefix_len 0 cidr.network ≡ in_network width cidr ip
  unfolding top
  agree-in_network cidr ip h n i =
      agree-top cidr.prefix_len 0 cidr.network ip (omega arith)
        (rw sub-zero (div-eq_of_lt n ∙ sym (div-eq_of_lt i)))
      ∙ rw zero-add

-- A network of an address width, as `ipnet` builds it.
pub record IsCidr (width : ℕ) (cidr : Cidr) : Type 0 where
  pub prefix_fits : cidr.prefix_len ≤ width
  pub network_fits : cidr.network < 2 ^ width

-- The insertions of a list of networks with their indices.
unfoldable pub insert_all : ℕ → CidrNode → List (Cidr × ℕ) → CidrNode
insert_all width root [] = root
insert_all width root ((cidr, index) ∷ entries) =
    insert_all width (insert_cidr root cidr.network cidr.prefix_len width index) entries

-- The indices of the networks that contain an address, without those that the cutoff skips.
unfoldable pub containing : ℕ → ℕ → Option ℕ → List (Cidr × ℕ) → List ℕ
containing width ip cutoff_index [] = []
containing width ip cutoff_index ((cidr, index) ∷ entries) =
    if in_network width cidr ip && not (should_skip_index index cutoff_index)
    then index ∷ containing width ip cutoff_index entries
    else containing width ip cutoff_index entries

module _ (width ip : ℕ) (cutoff_index : Option ℕ) (fits : ip < 2 ^ width) (i : ℕ) where
  count-containing :
      (cidr : Cidr) (index : ℕ) (entries : List (Cidr × ℕ))
      → count i (containing width ip cutoff_index ((cidr, index) ∷ entries))
        ≡ added ip width cutoff_index (in_network width cidr ip) i index
          + count i (containing width ip cutoff_index entries)
  unfolding containing
  count-containing cidr index entries = ground arith

  count-insert_all :
      (entries : List (Cidr × ℕ)) (root : CidrNode)
      → IsBounded root
      → All (λ e. IsCidr width e.0) entries
      → count i (visit_cidr_matches (insert_all width root entries) ip width cutoff_index)
        ≡ count i (visit_cidr_matches root ip width cutoff_index)
          + count i (containing width ip cutoff_index entries)
  unfolding insert_all containing
  count-insert_all [] root h w = omega arith
  count-insert_all ((cidr, index) ∷ entries) root h w =
      let next = insert_cidr root cidr.network cidr.prefix_len width index in
      omega (
        arith,
        count-insert_all entries next
            (insert-IsBounded root cidr.network cidr.prefix_len width index h) w.1,
        count-insert ip width cutoff_index i index root cidr.network cidr.prefix_len h
            w.0.prefix_fits,
        count-containing cidr index entries,
        ap (λ b. added ip width cutoff_index b i index)
            (agree-in_network width cidr ip w.0.prefix_fits w.0.network_fits fits),
      )

-- For networks and an address of one width, a trie of the networks visits each index as often as a
-- scan of the list finds it at a network that contains the address, below the cutoff.
pub visit-insert_all :
    (width ip : ℕ) (cutoff_index : Option ℕ) (entries : List (Cidr × ℕ))
    → ip < 2 ^ width
    → All (λ e. IsCidr width e.0) entries
    → (i : ℕ)
    → count i (visit_cidr_matches (insert_all width default entries) ip width cutoff_index)
      ≡ count i (containing width ip cutoff_index entries)
unfolding visit_cidr_matches should_skip_subtree
visit-insert_all width ip cutoff_index entries fits w i =
    count-insert_all width ip cutoff_index fits i entries default default-IsBounded w ∙ omega arith
