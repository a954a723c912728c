-- ===== src/Traffic/Bytes/Laws.antt =====
-- What reading finds after a write, and the octets of a number.
use any_mirror.Common.{
  leb, length, get_elem?, take, drop, length-append, nat_eq, pair_eq, list_eq, option_eq, ip_eq, ℕ,
  zero, suc, ◌+◌, ◌-◌, ◌*◌, ◌/◌, ◌%◌, ◌^◌, ◌≤◌, ◌<◌, ◌≡◌, refl, sym, ap, ◌∙◌, ◌⊎◌, inl, inr, true,
  none, some, [], ◌∷◌, ◌++◌, arith,
}
use any_mirror.Traffic.Bytes.{Bytes, from_octets, octets, slice, get_range, overlay, overwrite, at}

pub length-overlay : (src bytes : Bytes) → length (overlay src bytes) ≡ length bytes
length-overlay [] bytes = refl
length-overlay (s ∷ src) [] = refl
length-overlay (s ∷ src) (b ∷ bytes) = ap suc (length-overlay src bytes)

pub length-overwrite :
    (low : ℕ) (src bytes : Bytes) → length (overwrite low src bytes) ≡ length bytes
length-overwrite zero src bytes = length-overlay src bytes
length-overwrite (suc low) src [] = refl
length-overwrite (suc low) src (b ∷ bytes) = ap suc (length-overwrite low src bytes)

-- A write is seen nowhere outside its range.
get-overlay_ne :
    (src bytes : Bytes) (i : ℕ)
    → length src ≤ i
    → get_elem? (overlay src bytes) i ≡ get_elem? bytes i
get-overlay_ne [] bytes i h = refl
get-overlay_ne (s ∷ src) [] i h = refl
get-overlay_ne (s ∷ src) (b ∷ bytes) zero h = absurd (omega arith)
get-overlay_ne (s ∷ src) (b ∷ bytes) (suc i) h = get-overlay_ne src bytes i (omega arith)

pub get-overwrite_ne :
    (low : ℕ) (src bytes : Bytes) (i : ℕ)
    → (i < low) ⊎ (low + length src ≤ i)
    → get_elem? (overwrite low src bytes) i ≡ get_elem? bytes i
get-overwrite_ne zero src bytes i (inl h) = absurd (omega arith)
get-overwrite_ne zero src bytes i (inr h) = get-overlay_ne src bytes i (omega arith)
get-overwrite_ne (suc low) src [] i h = refl
get-overwrite_ne (suc low) src (b ∷ bytes) zero h = refl
get-overwrite_ne (suc low) src (b ∷ bytes) (suc i) (inl h) =
    get-overwrite_ne low src bytes i (inl (omega arith))
get-overwrite_ne (suc low) src (b ∷ bytes) (suc i) (inr h) =
    get-overwrite_ne low src bytes i (inr (omega arith))

get-overlay_self :
    (src bytes : Bytes) (i : ℕ)
    → length src ≤ length bytes
    → i < length src
    → get_elem? (overlay src bytes) i ≡ get_elem? src i
get-overlay_self [] bytes i h lt = absurd (omega arith)
get-overlay_self (s ∷ src) [] i h lt = absurd (omega arith)
get-overlay_self (s ∷ src) (b ∷ bytes) zero h lt = refl
get-overlay_self (s ∷ src) (b ∷ bytes) (suc i) h lt =
    get-overlay_self src bytes i (omega arith) (omega arith)

-- A byte that was written is read back.
pub get-overwrite_self :
    (low : ℕ) (src bytes : Bytes) (i : ℕ)
    → low + length src ≤ length bytes
    → i < length src
    → get_elem? (overwrite low src bytes) (low + i) ≡ get_elem? src i
get-overwrite_self zero src bytes i h lt =
    ap (get_elem? (overlay src bytes)) (omega arith) ∙ get-overlay_self src bytes i (omega arith) lt
get-overwrite_self (suc low) src [] i h lt = absurd (omega arith)
get-overwrite_self (suc low) src (b ∷ bytes) i h lt =
    ap (get_elem? (b ∷ overwrite low src bytes)) {y = suc (low + i)} (omega arith)
    ∙ get-overwrite_self low src bytes i (omega arith) lt

-- Two reads through which the laws below are proved.
take-ext :
    (n : ℕ) (xs ys : Bytes)
    → ((i : ℕ) → i < n → get_elem? xs i ≡ get_elem? ys i)
    → take n xs ≡ take n ys
take-ext zero xs ys h = refl
take-ext (suc n) [] [] h = refl
take-ext (suc n) [] (y ∷ ys) h = absurd (ground (arith, h 0))
take-ext (suc n) (x ∷ xs) [] h = absurd (ground (arith, h 0))
take-ext (suc n) (x ∷ xs) (y ∷ ys) h =
    ground (arith, h 0, take-ext n xs ys (λ i lt. h (suc i) (omega arith)))

pub get-drop : (n : ℕ) (xs : Bytes) (i : ℕ) → get_elem? (drop n xs) i ≡ get_elem? xs (n + i)
get-drop zero xs i = ap (get_elem? xs) (omega arith)
get-drop (suc n) [] i = refl
get-drop (suc n) (x ∷ xs) i =
    get-drop n xs i ∙ ap (get_elem? (x ∷ xs)) {x = suc (n + i)} (omega arith)

-- A range is left alone by a write that does not overlap it.
pub slice-overwrite_ne :
    (low : ℕ) (src bytes : Bytes) (from to : ℕ)
    → (to ≤ low) ⊎ (low + length src ≤ from)
    → slice from to (overwrite low src bytes) ≡ slice from to bytes
slice-overwrite_ne low src bytes from to h =
    take-ext (to - from) (drop from (overwrite low src bytes)) (drop from bytes) (λ i lt.
      get-drop from (overwrite low src bytes) i
      ∙ get-overwrite_ne low src bytes (from + i) (outside h i lt)
      ∙ sym (get-drop from bytes i))
  where
    outside :
        (to ≤ low) ⊎ (low + length src ≤ from)
        → (i : ℕ) → i < to - from
        → (from + i < low) ⊎ (low + length src ≤ from + i)
    outside (inl g) i lt = inl (omega arith)
    outside (inr g) i lt = inr (omega arith)

take-overlay :
    (src bytes : Bytes) → length src ≤ length bytes → take (length src) (overlay src bytes) ≡ src
take-overlay [] bytes h = refl
take-overlay (s ∷ src) [] h = absurd (omega arith)
take-overlay (s ∷ src) (b ∷ bytes) h = ap (λ r. s ∷ r) (take-overlay src bytes (omega arith))

-- A write is read back.
pub take-overwrite_self :
    (low : ℕ) (src bytes : Bytes)
    → low + length src ≤ length bytes
    → take (length src) (drop low (overwrite low src bytes)) ≡ src
take-overwrite_self zero src bytes h = take-overlay src bytes (omega arith)
take-overwrite_self (suc low) src [] h = absurd (omega arith)
take-overwrite_self (suc low) src (b ∷ bytes) h = take-overwrite_self low src bytes (omega arith)

pub slice-overwrite_self :
    (low high : ℕ) (src bytes : Bytes)
    → length src ≡ high - low
    → low + length src ≤ length bytes
    → slice low high (overwrite low src bytes) ≡ src
slice-overwrite_self low high src bytes e h = rw (← e) (take-overwrite_self low src bytes h)

pub length-octets : (width x : ℕ) → length (octets width x) ≡ width
unfolding octets
length-octets zero x = refl
length-octets (suc width) x =
    omega
      (arith, length-append (octets width (x / 256)) (x % 256 ∷ []), length-octets width (x / 256))

from_octets-append :
    (acc : ℕ) (xs ys : Bytes) → from_octets acc (xs ++ ys) ≡ from_octets (from_octets acc xs) ys
unfolding from_octets
from_octets-append acc [] ys = refl
from_octets-append acc (x ∷ xs) ys = from_octets-append (acc * 256 + x) xs ys

-- An address of the width is what its octets spell.
pub from_octets-octets : (width x : ℕ) → x < 256 ^ width → from_octets 0 (octets width x) ≡ x
unfolding octets from_octets
from_octets-octets zero x h = omega arith
from_octets-octets (suc width) x h =
    from_octets-append 0 (octets width (x / 256)) (x % 256 ∷ [])
    ∙ omega (arith, from_octets-octets width (x / 256) (omega arith))

drop_nil : (n : ℕ) → drop {A = ℕ} n [] ≡ []
drop_nil zero = refl
drop_nil (suc n) = refl

drop-drop : (m n : ℕ) (xs : Bytes) → drop n (drop m xs) ≡ drop (m + n) xs
drop-drop zero n xs = ap (λ k. drop k xs) (omega arith)
drop-drop (suc m) n [] = drop_nil n ∙ sym (drop_nil (suc m + n))
drop-drop (suc m) n (x ∷ xs) =
    drop-drop m n xs ∙ ap (λ k. drop k (x ∷ xs)) {x = suc (m + n)} (omega arith)

length-drop : (n : ℕ) (xs : Bytes) → length (drop n xs) ≡ length xs - n
length-drop zero xs = omega arith
length-drop (suc n) [] = omega arith
length-drop (suc n) (x ∷ xs) = omega (arith, length-drop n xs)

pub take-append : (xs ys : Bytes) → take (length xs) (xs ++ ys) ≡ xs
take-append [] ys = refl
take-append (x ∷ xs) ys = ap (λ r. x ∷ r) (take-append xs ys)

pub drop-append : (xs ys : Bytes) → drop (length xs) (xs ++ ys) ≡ ys
drop-append [] ys = refl
drop-append (x ∷ xs) ys = drop-append xs ys

-- At an offset stand given bytes; how reads and steps go from there.
module _ (bytes : Bytes) (offset : ℕ) {rest : Bytes} (here : drop offset bytes ≡ rest) where
  pub read_here : get_elem? bytes offset ≡ get_elem? rest 0
  read_here =
      ap (get_elem? bytes) {y = offset + 0} (omega arith)
      ∙ sym (get-drop offset bytes 0)
      ∙ ap (λ b. get_elem? b 0) here

  pub read_at : (i : ℕ) → get_elem? bytes (offset + i) ≡ get_elem? rest i
  read_at i = sym (get-drop offset bytes i) ∙ ap (λ b. get_elem? b i) here

  pub step_by : (n : ℕ) → drop (offset + n) bytes ≡ drop n rest
  step_by n = sym (drop-drop offset n bytes) ∙ ap (drop n) here

  pub length_left : length bytes - offset ≡ length rest
  length_left = sym (length-drop offset bytes) ∙ ap length here

-- A range of bytes that stand at the offset.
pub get_range_here :
    (bytes : Bytes) (offset : ℕ) (src rest : Bytes)
    → drop offset bytes ≡ src ++ rest
    → offset ≤ length bytes
    → get_range offset (offset + length src) bytes ≡ some src
get_range_here bytes offset src rest here inside =
    let left = length_left bytes offset here in
    let whole = length-append src rest in
    let fits : leb (offset + length src) (length bytes) ≡ true = ground (arith, left, whole) in
    let from : leb offset (offset + length src) ≡ true = ground arith in
    let many : offset + length src - offset ≡ length src = omega arith in
    rw (fits, from) (ap some (rw many (ap (take (length src)) here ∙ take-append src rest)))

pub get-append : (xs ys : Bytes) (i : ℕ) → i < length xs → get_elem? (xs ++ ys) i ≡ get_elem? xs i
get-append [] ys i h = absurd (omega arith)
get-append (x ∷ xs) ys zero h = refl
get-append (x ∷ xs) ys (suc i) h = get-append xs ys i (omega arith)

-- `at` reads what `get` reads.
pub at_same : (xs ys : Bytes) (i j : ℕ) → get_elem? xs i ≡ get_elem? ys j → at xs i ≡ at ys j
at_same xs ys i j h = ap (λ o. elim o [ none ↦ 0 | some b ↦ b ]) h
