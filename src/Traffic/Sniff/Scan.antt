-- ===== src/Traffic/Sniff/Scan.antt =====
-- The loop over the extensions of a hello in src/traffic/shared/sniff.rs: it ends, and what it names
-- are bytes of the payload.
use any_mirror.Common.{
  ltb, leb, if◌then◌else◌, ltb→lt, Bool-cases, Option-cases, length, get_elem?, ◌>>=◌, ◌==◌, nat_eq,
  pair_eq, list_eq, option_eq, ip_eq, ℕ, zero, suc, ◌+◌, ◌≤◌, ◌<◌, ◌≡◌, refl, inl, inr, Bool, true,
  false, ◌&&◌, Option, none, some, arith,
}
use any_mirror.Traffic.Bytes.{Bytes, slice, get_range}
use any_mirror.Traffic.Sniff.{
  get_be16, server_name, Round, stop, name, next, after_name, extension_round, Sni, missing,
  out_of_fuel, named, scan_extensions,
}

-- The bytes are a range of the payload.
pub record IsRange (payload name_bytes : Bytes) : Type 0 where
  pub low : ℕ
  pub high : ℕ
  pub low-le-high : low ≤ high
  pub high-le-length : high ≤ length payload
  pub bytes : name_bytes ≡ slice low high payload

abbrev pub Sound : Bytes → Sni → Type 0
Sound payload missing = Unit
Sound payload (named name_bytes) = IsRange payload name_bytes
Sound payload out_of_fuel = ⊥

abbrev pub SoundRound : Bytes → ℕ → ℕ → Round → Type 0
SoundRound payload ext_end offset stop = Unit
SoundRound payload ext_end offset (name name_bytes) = IsRange payload name_bytes
SoundRound payload ext_end offset (next offset') = (offset + 4 ≤ offset') × (offset + 3 < ext_end)

abbrev pub SoundName : Bytes → Option (Option Bytes) → Type 0
SoundName payload none = Unit
SoundName payload (some none) = Unit
SoundName payload (some (some name_bytes)) = IsRange payload name_bytes

abbrev SoundRange : Bytes → Option Bytes → Type 0
SoundRange payload none = Unit
SoundRange payload (some bytes) = IsRange payload bytes

get_range-Sound : (low high : ℕ) (payload : Bytes) → SoundRange payload (get_range low high payload)
get_range-Sound low high payload = elim (Bool-cases (leb low high && leb high (length payload))) [
  | inl fits ↦ rw fits (record {
    low = low;
    high = high;
    low-le-high = ground arith;
    high-le-length = ground arith;
    bytes = refl;
  })
  | inr outside ↦ rw outside tt
]

server_name-Sound : (payload : Bytes) (offset : ℕ) → SoundName payload (server_name payload offset)
unfolding server_name
server_name-Sound payload offset = elim (Option-cases (get_elem? payload (offset + 2))) [
  | inl e ↦ rw e tt
  | inr (name_type, e) ↦ rw e (elim (Bool-cases (name_type == 0)) [
    | inr other ↦ rw other tt
    | inl host ↦ rw host (elim (Option-cases (get_be16 payload (offset + 2 + 1))) [
      | inl e' ↦ rw e' tt
      | inr (name_len, e') ↦ rw e' (
          of_range (get_range (offset + 2 + 1 + 2) (offset + 2 + 1 + 2 + name_len) payload)
            (get_range-Sound (offset + 2 + 1 + 2) (offset + 2 + 1 + 2 + name_len) payload))
    ])
  ])
]
  where
    of_range :
        (o : Option Bytes)
        → SoundRange payload o
        → SoundName payload (o >>= λ name_bytes. some (some name_bytes))
    of_range none s = tt
    of_range (some bytes) s = s

extension_round-Sound :
    (payload : Bytes) (ext_end offset : ℕ)
    → SoundRound payload ext_end offset (extension_round payload ext_end offset)
unfolding extension_round
extension_round-Sound payload ext_end offset = elim (Bool-cases (ltb (offset + 3) ext_end)) [
  | inr past ↦ rw past tt
  | inl more ↦ rw more (elim (Option-cases (get_be16 payload offset)) [
    | inl e ↦ rw e tt
    | inr (ext_type, e) ↦ rw e (elim (Option-cases (get_be16 payload (offset + 2))) [
      | inl e' ↦ rw e' tt
      | inr (ext_data_len, e') ↦ rw e' (
          of_name ext_data_len (ltb→lt (offset + 3) ext_end more)
            (if ext_type == 0 then server_name payload (offset + 4) else some none)
            (choice (ext_type == 0)))
    ])
  ])
]
  where
    choice :
        (b : Bool) → SoundName payload (if b then server_name payload (offset + 4) else some none)
    choice true = server_name-Sound payload (offset + 4)
    choice false = tt

    of_name :
        (ext_data_len : ℕ)
        → offset + 3 < ext_end
        → (o : Option (Option Bytes)) → SoundName payload o
        → SoundRound payload ext_end offset (after_name (offset + 4 + ext_data_len) o)
    of_name ext_data_len lt none s = tt
    of_name ext_data_len lt (some none) s = (omega arith, lt)
    of_name ext_data_len lt (some (some name_bytes)) s = s

after_round :
    (payload : Bytes) (ext_end offset : ℕ) (rest : ℕ → Sni)
    → ((o : ℕ) → (offset + 4 ≤ o) × (offset + 3 < ext_end) → Sound payload (rest o))
    → (round : Round) → SoundRound payload ext_end offset round
    → Sound payload (elim round [
      | stop ↦ missing
      | name name_bytes ↦ named name_bytes
      | next offset' ↦ rest offset'
    ])
after_round payload ext_end offset rest ih stop s = tt
after_round payload ext_end offset rest ih (name name_bytes) s = s
after_round payload ext_end offset rest ih (next offset') s = ih offset' s

scan-Sound :
    (fuel : ℕ) (payload : Bytes) (ext_end offset : ℕ)
    → 0 < fuel
    → ext_end < fuel + offset
    → Sound payload (scan_extensions fuel payload ext_end offset)
unfolding scan_extensions
scan-Sound zero payload ext_end offset some_fuel h = absurd (omega arith)
scan-Sound (suc fuel) payload ext_end offset some_fuel h =
    after_round payload ext_end offset (scan_extensions fuel payload ext_end)
      (λ o s. scan-Sound fuel payload ext_end o (omega arith) (omega arith))
      (extension_round payload ext_end offset) (extension_round-Sound payload ext_end offset)

-- From any offset the loop ends before its rounds are used up, whatever the payload holds, and a name
-- that it finds is a range of the payload.
pub scan_extensions-Sound :
    (payload : Bytes) (ext_end offset : ℕ)
    → Sound payload (scan_extensions (suc ext_end) payload ext_end offset)
scan_extensions-Sound payload ext_end offset =
    scan-Sound (suc ext_end) payload ext_end offset (omega arith) (omega arith)
