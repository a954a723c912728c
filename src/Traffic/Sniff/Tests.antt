-- ===== src/Traffic/Sniff/Tests.antt =====
-- Payloads for src/traffic/shared/sniff.rs, and instances of the theorems.
use any_mirror.Traffic.Sniff.Encode.{Hello, encode, IsHello}
use any_mirror.Common.{
  length, drop, nat_eq, pair_eq, list_eq, option_eq, ip_eq, ℕ, zero, suc, ◌<◌, ◌≡◌, refl, inl,
  Option, some, [], ◌∷◌, ◌++◌, arith,
}
use any_mirror.Text.{Text, codes, to_ascii_lowercase}
use any_mirror.Traffic.Bytes.{Bytes}
use any_mirror.Traffic.Sniff.{
  eq_ignore_ascii_case, host_position, line_length, get_be16, server_name, extension_round,
  scan_extensions, extensions_range, sni_bytes, extract_http_host, extract_tls_sni, extract_host,
}
use any_mirror.Traffic.Sniff.Scan.{Sound, scan_extensions-Sound}
use any_mirror.Traffic.Sniff.Hello.{extract_tls_sni-encode}
use any_mirror.Traffic.Sniff.Http.{IsHost, IsInLine, extract_http_host_lem}

program : Unit {0}
unfolding to_ascii_lowercase eq_ignore_ascii_case host_position line_length get_be16 server_name
    extension_round scan_extensions extensions_range sni_bytes extract_http_host extract_tls_sni
    extract_host
program = tt

abbrev from_utf8 : Bytes → Option Text
from_utf8 bytes = some bytes

abbrev zeros : ℕ → Bytes → Bytes
zeros zero rest = rest
zeros (suc n) rest = 0 ∷ zeros n rest

-- A hello with another extension before the name.
abbrev hello : Hello
hello = record {
  fixed = 0x16 ∷ 3 ∷ 1 ∷ 0 ∷ 99 ∷ 1 ∷ zeros 37 [];
  session = 7 ∷ 7 ∷ [];
  ciphers = 0x13 ∷ 1 ∷ [];
  compression = 0 ∷ [];
  before = record { kind = 43; body = 2 ∷ 3 ∷ 4 ∷ [] } ∷ [];
  host = codes "example.com";
  behind = 0 ∷ 23 ∷ 0 ∷ 0 ∷ [];
}

hello-IsHello : IsHello hello
hello-IsHello = record {
  fixed_length = refl;
  handshake = refl;
  version = refl;
  hello = refl;
  others = (λ e. absurd (omega (arith, e)), tt);
}

-- A hello names no HTTP host, so its server name is the host.
finds_server_name : extract_host from_utf8 (encode hello) ≡ some (some (codes "example.com"))
unfolding program
finds_server_name = refl

extract_tls_sni-encode_example :
    extract_tls_sni from_utf8 (encode hello) ≡ some (from_utf8 hello.host)
extract_tls_sni-encode_example = extract_tls_sni-encode from_utf8 hello hello-IsHello

-- An extension whose length leads behind the payload.
abbrev cut : Bytes
cut = 0 ∷ 1 ∷ 255 ∷ 255 ∷ 0 ∷ 0 ∷ []

scan_extensions-Sound_example : Sound cut (scan_extensions (suc 6) cut 6 0)
scan_extensions-Sound_example = scan_extensions-Sound cut 6 0

-- Another header that ends with `Host: ` is taken for the header.
forwarded_host :
    extract_http_host from_utf8 (codes "X-Forwarded-Host: a" ++ b'\n' ∷ codes "Host: b")
    ≡ some (some (codes "a"))
unfolding program
forwarded_host = refl

abbrev start : Bytes
start = b'x' ∷ b'\n' ∷ []

abbrev line_end : Bytes
line_end = b'\r' ∷ b'\n' ∷ []

in_line : IsInLine (codes "a.test")
in_line = ground arith

none_earlier :
    (i : ℕ)
    → i < length start
    → ¬ IsHost (drop i (start ++ (codes "hOst: " ++ (codes "a.test" ++ line_end))))
unfolding program
none_earlier zero h e = absurd (ground (arith, e))
none_earlier (suc zero) h e = absurd (ground (arith, e))
none_earlier (suc (suc i)) h e = absurd (omega arith)

extract_http_host_lem_example :
    extract_http_host from_utf8 (start ++ (codes "hOst: " ++ (codes "a.test" ++ line_end)))
    ≡ some (from_utf8 (codes "a.test"))
unfolding program
extract_http_host_lem_example =
    extract_http_host_lem from_utf8 start (codes "hOst: ") (codes "a.test") line_end refl refl
      none_earlier in_line (inl refl)
