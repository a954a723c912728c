-- ===== src/Traffic/Bytes.antt =====
-- Byte slices, as src/traffic/shared uses them: `get` of a range, `copy_from_slice`, and numbers in
-- network order. A byte is a number below 256.
pub mod Laws
pub mod Reads
use any_mirror.Common.{
  leb, if◌then◌else◌, length, get_elem?, take, drop, ◌==◌, nat_eq, pair_eq, list_eq, option_eq,
  ip_eq, ℕ, zero, suc, ◌+◌, ◌-◌, ◌*◌, ◌/◌, ◌%◌, ◌&&◌, Option, none, some, List, [], ◌∷◌, ◌++◌,
}

abbrev pub Bytes : Type 0
Bytes = List ℕ

-- `[hi, lo]` as a number: `u16::from_be_bytes`, and `(hi << 8) | lo` of two bytes.
abbrev pub be16 : ℕ → ℕ → ℕ
be16 hi lo = hi * 256 + lo

-- `to_be_bytes` of a `u16`.
abbrev pub be16_bytes : ℕ → Bytes
be16_bytes x = x / 256 % 256 ∷ x % 256 ∷ []

-- An address from its octets, and the octets of an address, as many as the width says.
unfoldable pub from_octets : ℕ → Bytes → ℕ
from_octets acc [] = acc
from_octets acc (b ∷ bs) = from_octets (acc * 256 + b) bs

unfoldable pub octets : ℕ → ℕ → Bytes
octets zero x = []
octets (suc width) x = octets width (x / 256) ++ x % 256 ∷ []

-- `data[low..high]`, where it is in bounds.
abbrev pub slice : ℕ → ℕ → Bytes → Bytes
slice low high bytes = take (high - low) (drop low bytes)

-- `data.get(low..high)`, and `data[low..high]`, where `none` is its panic.
abbrev pub get_range : ℕ → ℕ → Bytes → Option Bytes
get_range low high bytes =
    if leb low high && leb high (length bytes) then some (slice low high bytes) else none

-- `data[low..]`: `none` is its panic, when `low` is out of bounds.
unfoldable pub drop_from : ℕ → Bytes → Option Bytes
drop_from low bytes = if leb low (length bytes) then some (drop low bytes) else none

abbrev pub overlay : Bytes → Bytes → Bytes
overlay [] bytes = bytes
overlay (s ∷ src) [] = []
overlay (s ∷ src) (b ∷ bytes) = s ∷ overlay src bytes

abbrev pub overwrite : ℕ → Bytes → Bytes → Bytes
overwrite zero src bytes = overlay src bytes
overwrite (suc low) src [] = []
overwrite (suc low) src (b ∷ bytes) = b ∷ overwrite low src bytes

-- `data[low..high].copy_from_slice(src)`: `none` is its panic, when the range is out of bounds or
-- `src` has another length.
unfoldable pub copy_into : ℕ → ℕ → Bytes → Bytes → Option Bytes
copy_into low high src bytes =
    if leb low high && (leb high (length bytes) && length src == high - low)
    then some (overwrite low src bytes)
    else none

-- `bytes[i]`, read only where the length has been tested.
abbrev pub at : Bytes → ℕ → ℕ
at bytes i = elim (get_elem? bytes i) [ none ↦ 0 | some b ↦ b ]
