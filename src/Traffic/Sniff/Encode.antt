-- ===== src/Traffic/Sniff/Encode.antt =====
-- The layout of a TLS hello, for src/traffic/shared/sniff.rs: the fixed part of 43 bytes, the session, the cipher suites, the compression methods, and the extensions; and the reading of its numbers.
use any_mirror.Common.{
  length, drop, All, ◌==◌, nat_eq, pair_eq, list_eq, option_eq, ip_eq, ℕ, ◌+◌, ◌/◌, ◌%◌, ◌≡◌, ap,
  ◌∙◌, ◌≢◌, false, some, List, [], ◌∷◌, ◌++◌, arith,
}
use any_mirror.Traffic.Bytes.{Bytes, be16, at}
use any_mirror.Traffic.Bytes.Laws.{drop-append, read_here, read_at, step_by}
use any_mirror.Traffic.Sniff.{get_be16}

pub record Extension : Type 0 where
  pub kind : ℕ
  pub body : Bytes

-- A length or a kind in two bytes.
abbrev pub put_be16 : ℕ → Bytes → Bytes
put_be16 x rest = x / 256 ∷ x % 256 ∷ rest

abbrev pub put_extension : Extension → Bytes → Bytes
put_extension e rest = put_be16 e.kind (put_be16 (length e.body) (e.body ++ rest))

abbrev pub put_extensions : List Extension → Bytes → Bytes
put_extensions [] rest = rest
put_extensions (e ∷ es) rest = put_extension e (put_extensions es rest)

-- The data of the extension for a server name: the length of the list, the type of the name, its
-- length, and the name.
abbrev pub server_name_body : Bytes → Bytes
server_name_body host = put_be16 (length host + 3) (0 ∷ put_be16 (length host) host)

abbrev pub put_server_name : Bytes → Bytes → Bytes
put_server_name host rest = put_be16 0 (
    put_be16 (length host + 5)
      (put_be16 (length host + 3) (0 ∷ put_be16 (length host) (host ++ rest))))

-- What stands before the extensions, and behind it their length and the extensions.
pub record Hello : Type 0 where
  pub fixed : Bytes
  pub session : Bytes
  pub ciphers : Bytes
  pub compression : Bytes
  pub before : List Extension
  pub host : Bytes
  pub behind : Bytes

abbrev pub extensions_of : Hello → Bytes
extensions_of h = put_extensions h.before (put_server_name h.host h.behind)

abbrev pub encode : Hello → Bytes
encode h =
    h.fixed
    ++ (length h.session ∷ h.session
        ++ put_be16 (length h.ciphers) (
            h.ciphers
            ++ (length h.compression ∷ h.compression
                ++ put_be16 (length (extensions_of h)) (extensions_of h))))

abbrev pub IsOther : Extension → Type 0
IsOther e = e.kind ≢ 0

-- What a client sends: a handshake record with a hello, and no other server name before the host.
pub record IsHello (h : Hello) : Type 0 where
  pub fixed_length : length h.fixed ≡ 43
  pub handshake : at h.fixed 0 ≡ 0x16
  pub version : at h.fixed 1 ≡ 0x03
  pub hello : at h.fixed 5 ≡ 0x01
  pub others : All IsOther h.before

-- The number that two bytes of a length spell is the length, whatever its size.
pub be16_put : (x : ℕ) → be16 (x / 256) (x % 256) ≡ x
be16_put x = omega arith

module _ (payload rest : Bytes) (offset : ℕ) where
  pub get_be16_put :
      (x : ℕ) → drop offset payload ≡ put_be16 x rest → get_be16 payload offset ≡ some x
  unfolding get_be16
  get_be16_put x e =
      rw (read_here payload offset e, read_at payload offset e 1) (ap some (be16_put x))

  pub behind_be16 :
      (x : ℕ) → drop offset payload ≡ put_be16 x rest → drop (offset + 2) payload ≡ rest
  behind_be16 x e = step_by payload offset e 2

  pub behind_byte : (x : ℕ) → drop offset payload ≡ x ∷ rest → drop (offset + 1) payload ≡ rest
  behind_byte x e = step_by payload offset e 1

  pub behind_bytes :
      (bytes : Bytes)
      → drop offset payload ≡ bytes ++ rest
      → drop (offset + length bytes) payload ≡ rest
  behind_bytes bytes e = step_by payload offset e (length bytes) ∙ drop-append bytes rest

module _ (payload bytes rest : Bytes) (offset x : ℕ) where
  pub behind_counted :
      drop offset payload ≡ x ∷ bytes ++ rest → drop (offset + (1 + length bytes)) payload ≡ rest
  behind_counted e =
      ap (λ k. drop k payload) {y = offset + 1 + length bytes} (omega arith)
      ∙ behind_bytes payload rest (offset + 1) bytes (step_by payload offset e 1)

  pub behind_sized :
      drop offset payload ≡ put_be16 x (bytes ++ rest)
      → drop (offset + (2 + length bytes)) payload ≡ rest
  behind_sized e =
      ap (λ k. drop k payload) {y = offset + 2 + length bytes} (omega arith)
      ∙ behind_bytes payload rest (offset + 2) bytes (step_by payload offset e 2)

pub the_sum : (n : ℕ) → n + 2 + 2 ≡ n + 4
the_sum n = omega arith

pub the_sum3 : (n : ℕ) → n + 2 + 1 ≡ n + 3
the_sum3 n = omega arith

pub not_zero : (n : ℕ) → n ≢ 0 → (n == 0) ≡ false
not_zero n h = ground arith
