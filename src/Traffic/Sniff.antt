-- ===== src/Traffic/Sniff.antt =====
-- src/traffic/shared/sniff.rs: the host that a payload names, by the `Host` header of an HTTP request
-- or by the server name of a TLS hello. `String::from_utf8` is the parameter `from_utf8`. The outermost
-- `none` of `is_client_hello`, `sni_bytes` and the functions below them is a panic.
pub mod Scan
mod Tests
pub mod Encode
pub mod Panics
pub mod Hello
pub mod Http
use mathlib.Core.Option
use any_mirror.Common.{
  ltb, leb, if◌then◌else◌, length, get_elem?, take, ◌>>=◌, ◌==◌, nat_eq, pair_eq, list_eq,
  option_eq, ip_eq, ℕ, zero, suc, ◌+◌, Bool, true, false, ◌||◌, Option, none, some, [], ◌∷◌, map,
}
use any_mirror.Text.{Text, codes, to_ascii_lowercase}
use any_mirror.Traffic.Bytes.{Bytes, be16, get_range, drop_from}

unfoldable pub eq_ignore_ascii_case : Bytes → Bytes → Bool
unfolding to_ascii_lowercase
eq_ignore_ascii_case a b = to_ascii_lowercase a == to_ascii_lowercase b

-- `windows(6).position(…)`: the windows at the end that are shorter than six bytes equal no header.
unfoldable pub host_position : Bytes → Option ℕ
unfolding eq_ignore_ascii_case
host_position [] = none
host_position (b ∷ bytes) =
    let rest = Option.map suc (host_position bytes) in
    if eq_ignore_ascii_case (take 6 (b ∷ bytes)) (codes "Host: ") then some 0 else rest

-- `iter().position(…)` of the end of a line, or the length of the bytes where there is none.
unfoldable pub line_length : Bytes → ℕ
line_length [] = 0
line_length (b ∷ bytes) =
    let rest = suc (line_length bytes) in if b == b'\r' || b == b'\n' then 0 else rest

-- The two bytes at an index, read by `get`.
unfoldable pub get_be16 : Bytes → ℕ → Option ℕ
get_be16 payload offset = do
  hi ← get_elem? payload offset
  lo ← get_elem? payload (offset + 1)
  some (be16 hi lo)

-- The branch for a server name, from the start of the extension's data: `none` is an early return,
-- `some none` goes on to the next extension.
unfoldable pub server_name : Bytes → ℕ → Option (Option Bytes)
unfolding get_be16
server_name payload offset = do
  name_type ← get_elem? payload (offset + 2)
  if name_type == 0
      then (do
        name_len ← get_be16 payload (offset + 2 + 1)
        name_bytes ← get_range (offset + 2 + 1 + 2) (offset + 2 + 1 + 2 + name_len) payload
        some (some name_bytes))
      else some none

-- One round of the loop: the end, a name, or the next offset.
pub data Round : Type 0 where
  stop : Round
  name : Bytes → Round
  next : ℕ → Round

abbrev pub after_name : ℕ → Option (Option Bytes) → Round
after_name offset none = stop
after_name offset (some none) = next offset
after_name offset (some (some name_bytes)) = name name_bytes

abbrev pub of_round : Option Round → Round
of_round none = stop
of_round (some round) = round

unfoldable pub extension_round : Bytes → ℕ → ℕ → Round
unfolding get_be16 server_name
extension_round payload ext_end offset =
    if ltb (offset + 3) ext_end
    then of_round (do
      ext_type ← get_be16 payload offset
      ext_data_len ← get_be16 payload (offset + 2)
      some (
          after_name (offset + 4 + ext_data_len)
            (if ext_type == 0 then server_name payload (offset + 4) else some none)))
    else stop

-- How the loop ends.
pub data Sni : Type 0 where
  missing out_of_fuel : Sni
  named : Bytes → Sni

unfoldable pub scan_extensions : ℕ → Bytes → ℕ → ℕ → Sni
unfolding extension_round
scan_extensions zero payload ext_end offset = out_of_fuel
scan_extensions (suc fuel) payload ext_end offset = elim (extension_round payload ext_end offset) [
  | stop ↦ missing
  | name name_bytes ↦ named name_bytes
  | next offset' ↦ scan_extensions fuel payload ext_end offset'
]

abbrev pub sni_name : Sni → Option Bytes
sni_name missing = none
sni_name out_of_fuel = none
sni_name (named name_bytes) = some name_bytes

-- The start of the extensions and their end.
unfoldable pub extensions_range : Bytes → Option (ℕ × ℕ)
unfolding get_be16
extensions_range payload = do
  session_id_len ← get_elem? payload 43
  cipher_len ← get_be16 payload (43 + (1 + session_id_len))
  comp_len ← get_elem? payload (43 + (1 + session_id_len) + (2 + cipher_len))
  ext_len ← get_be16 payload (43 + (1 + session_id_len) + (2 + cipher_len) + (1 + comp_len))
  let offset = 43 + (1 + session_id_len) + (2 + cipher_len) + (1 + comp_len) + 2
  some (offset, offset + ext_len)

-- `payload[index] == value`, and the test behind it.
abbrev pub byte_is : Bytes → ℕ → ℕ → Option Bool → Option Bool
byte_is payload index value rest =
    get_elem? payload index >>= (λ byte. if byte == value then rest else some false)

-- The negation of the test at the head of `extract_tls_sni`, which is read from left to right.
unfoldable pub is_client_hello : Bytes → Option Bool
is_client_hello payload =
    if leb (length payload) 43
    then some false
    else byte_is payload 0 0x16 (byte_is payload 1 0x03 (byte_is payload 5 0x01 (some true)))

-- The loop's fuel is the end of the extensions: each round moves the offset by four at least.
unfoldable pub hello_name : Bytes → Option Bytes
unfolding extensions_range scan_extensions
hello_name payload = do
  (offset, ext_end) ← extensions_range payload
  sni_name (scan_extensions (suc ext_end) payload ext_end offset)

unfoldable pub sni_bytes : Bytes → Option (Option Bytes)
unfolding is_client_hello hello_name
sni_bytes payload = do
  hello ← is_client_hello payload
  some (if hello then hello_name payload else none)

module _ (from_utf8 : Bytes → Option Text) where
  -- The host behind the header that ends at `start`.
  unfoldable pub host_from : Bytes → ℕ → Option (Option Text)
  unfolding drop_from line_length
  host_from payload start = do
    behind ← drop_from start payload
    host ← get_range start (start + line_length behind) payload
    some (from_utf8 host)

  unfoldable pub extract_http_host : Bytes → Option (Option Text)
  unfolding host_position host_from
  extract_http_host payload = elim (host_position payload) [
    | none ↦ some none
    | some position ↦ host_from payload (position + 6)
  ]

  unfoldable pub extract_tls_sni : Bytes → Option (Option Text)
  unfolding sni_bytes
  extract_tls_sni payload = do name_bytes ← sni_bytes payload; some (name_bytes >>= from_utf8)

  unfoldable pub extract_host : Bytes → Option (Option Text)
  unfolding extract_http_host extract_tls_sni
  extract_host payload = do
    http_host ← extract_http_host payload
    elim http_host [ none ↦ extract_tls_sni payload | some host ↦ some (some host) ]
