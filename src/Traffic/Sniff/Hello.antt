-- ===== src/Traffic/Sniff/Hello.antt =====
-- What src/traffic/shared/sniff.rs reads of a TLS hello.
use any_mirror.Traffic.Bytes.Reads.{get_at}
use any_mirror.Traffic.Sniff.Encode.{
  Extension, put_be16, put_extension, put_extensions, put_server_name, Hello, extensions_of, encode,
  IsOther, IsHello, get_be16_put, behind_be16, behind_bytes, behind_counted, behind_sized, the_sum,
  the_sum3, not_zero,
}
use any_mirror.Common.{
  leb, lt→ltb, length, get_elem?, drop, All, length-append, nat_eq, pair_eq, list_eq, option_eq,
  ip_eq, ℕ, zero, suc, ◌+◌, ◌≤◌, ◌<◌, ◌≡◌, refl, ap, ◌∙◌, true, false, Option, some, List, [], ◌∷◌,
  ◌++◌, arith,
}
use any_mirror.Text.{Text}
use any_mirror.Traffic.Bytes.{Bytes, at}
use any_mirror.Traffic.Bytes.Laws.{
  drop-append, read_here, read_at, step_by, length_left, get_range_here, get-append,
}
use any_mirror.Traffic.Sniff.{
  server_name, name, next, extension_round, named, scan_extensions, extensions_range,
  is_client_hello, hello_name, sni_bytes, extract_tls_sni,
}

server_name_here :
    (payload : Bytes) (offset : ℕ) (host rest : Bytes)
    → drop offset payload ≡ put_be16 (length host + 3) (0 ∷ put_be16 (length host) (host ++ rest))
    → server_name payload offset ≡ some (some host)
unfolding server_name
server_name_here payload offset host rest here =
    let sized = put_be16 (length host) (host ++ rest) in
    let at_size = step_by payload offset here 3 in
    let at_type = read_at payload offset here 2 in
    let at_size' : drop (offset + 2 + 1) payload ≡ sized = rw (the_sum3 offset) at_size in
    let at_host = behind_be16 payload (host ++ rest) (offset + 2 + 1) (length host) at_size' in
    let left = length_left payload offset here in
    rw
      (
        at_type,
        get_be16_put payload (host ++ rest) (offset + 2 + 1) (length host) at_size',
        get_range_here payload (offset + 2 + 1 + 2) host rest at_host (omega (arith, left)),
      )
      refl

module _ (payload : Bytes) (ext_end offset : ℕ) (more : offset + 3 < ext_end) where
  -- Another extension is skipped as a whole.
  round_other :
      (e : Extension) (rest : Bytes)
      → IsOther e
      → drop offset payload ≡ put_extension e rest
      → (extension_round payload ext_end offset ≡ next (offset + 4 + length e.body))
        × (drop (offset + 4 + length e.body) payload ≡ rest)
  unfolding extension_round
  round_other e rest other here =
      let sized = put_be16 (length e.body) (e.body ++ rest) in
      let at_size = behind_be16 payload sized offset e.kind here in
      let at_body : drop (offset + 4) payload ≡ e.body ++ rest =
        rw (← the_sum offset)
          (behind_be16 payload (e.body ++ rest) (offset + 2) (length e.body) at_size) in
      (
        rw
            (
              lt→ltb (offset + 3) ext_end more,
              get_be16_put payload sized offset e.kind here,
              get_be16_put payload (e.body ++ rest) (offset + 2) (length e.body) at_size,
              not_zero e.kind other,
            )
            refl,
        behind_bytes payload rest (offset + 4) e.body at_body,
      )

  -- The name is found.
  round_name :
      (host rest : Bytes)
      → drop offset payload ≡ put_server_name host rest
      → extension_round payload ext_end offset ≡ name host
  unfolding extension_round
  round_name host rest here =
      let body = put_be16 (length host + 3) (0 ∷ put_be16 (length host) (host ++ rest)) in
      let sized = put_be16 (length host + 5) body in
      let at_size = behind_be16 payload sized offset 0 here in
      let at_body : drop (offset + 4) payload ≡ body =
        rw (← the_sum offset) (behind_be16 payload body (offset + 2) (length host + 5) at_size) in
      rw
        (
          lt→ltb (offset + 3) ext_end more,
          get_be16_put payload sized offset 0 here,
          get_be16_put payload body (offset + 2) (length host + 5) at_size,
          server_name_here payload (offset + 4) host rest at_body,
        )
        refl

length-put_extensions :
    (es : List Extension) (rest : Bytes) → length es + length rest ≤ length (put_extensions es rest)
length-put_extensions [] rest = omega arith
length-put_extensions (e ∷ es) rest =
    omega (arith, length-put_extensions es rest, length-append e.body (put_extensions es rest))

-- The loop passes over other extensions to the name.
scan_name :
    (payload : Bytes) (ext_end : ℕ) (es : List Extension) (host rest : Bytes) (fuel offset : ℕ)
    → All IsOther es
    → length es < fuel
    → drop offset payload ≡ put_extensions es (put_server_name host rest)
    → offset + length (put_extensions es (put_server_name host rest)) ≤ ext_end
    → scan_extensions fuel payload ext_end offset ≡ named host
unfolding scan_extensions
scan_name payload ext_end es host rest zero offset others h here fits = absurd (omega arith)
scan_name payload ext_end [] host rest (suc fuel) offset others h here fits =
    rw (round_name payload ext_end offset (omega arith) host rest here, scan_extensions) refl
scan_name payload ext_end (e ∷ es) host rest (suc fuel) offset (other, others) h here fits =
    let left = put_extensions es (put_server_name host rest) in
    let (skipped, there) = round_other payload ext_end offset (omega arith) e left other here in
    rw (skipped, scan_extensions)
      (scan_name payload ext_end es host rest fuel (offset + 4 + length e.body) others (omega arith)
        there (omega (arith, length-append e.body left)))

at-append : (xs ys : Bytes) (i : ℕ) → i < length xs → at (xs ++ ys) i ≡ at xs i
at-append xs ys i h = ground (arith, get-append xs ys i)

byte_here :
    (payload xs ys : Bytes) (i b : ℕ)
    → payload ≡ xs ++ ys
    → i < length xs
    → at xs i ≡ b
    → get_elem? payload i ≡ some b
byte_here payload xs ys i b e h same =
    ap (λ bytes. get_elem? bytes i) e
    ∙ get_at (xs ++ ys) i (omega (arith, length-append xs ys))
    ∙ ap some (at-append xs ys i h ∙ same)

hello_append :
    (fixed rest : Bytes)
    → length fixed ≡ 43
    → at fixed 0 ≡ 0x16
    → at fixed 1 ≡ 0x03
    → at fixed 5 ≡ 0x01
    → 0 < length rest
    → is_client_hello (fixed ++ rest) ≡ some true
unfolding is_client_hello
hello_append fixed rest n a b c some_left =
    let long : leb (length (fixed ++ rest)) 43 ≡ false = ground (arith, length-append fixed rest) in
    rw
      (
        long,
        byte_here (fixed ++ rest) fixed rest 0 0x16 refl (omega (arith, n)) a,
        byte_here (fixed ++ rest) fixed rest 1 0x03 refl (omega (arith, n)) b,
        byte_here (fixed ++ rest) fixed rest 5 0x01 refl (omega (arith, n)) c,
      )
      refl

module _ (h : Hello) (v : IsHello h) where
  abbrev at_session : ℕ
  at_session = 43 + (1 + length h.session)

  abbrev at_ciphers : ℕ
  at_ciphers = at_session + (2 + length h.ciphers)

  abbrev at_compression : ℕ
  at_compression = at_ciphers + (1 + length h.compression)

  abbrev sized : Bytes
  sized = put_be16 (length (extensions_of h)) (extensions_of h)

  abbrev from_compression : Bytes
  from_compression = length h.compression ∷ h.compression ++ sized

  abbrev from_ciphers : Bytes
  from_ciphers = put_be16 (length h.ciphers) (h.ciphers ++ from_compression)

  here_session : drop 43 (encode h) ≡ length h.session ∷ h.session ++ from_ciphers
  here_session = rw (← v.fixed_length) (drop-append h.fixed _)

  here_ciphers : drop at_session (encode h) ≡ from_ciphers
  here_ciphers = behind_counted (encode h) h.session from_ciphers 43 (length h.session) here_session

  here_compression : drop at_ciphers (encode h) ≡ from_compression
  here_compression =
      behind_sized (encode h) h.ciphers from_compression at_session (length h.ciphers) here_ciphers

  here_size : drop at_compression (encode h) ≡ sized
  here_size =
      behind_counted (encode h) h.compression sized at_ciphers (length h.compression)
        here_compression

  here_extensions : drop (at_compression + 2) (encode h) ≡ extensions_of h
  here_extensions =
      behind_be16 (encode h) (extensions_of h) at_compression (length (extensions_of h)) here_size

  range-encode :
      extensions_range (encode h)
      ≡ some (at_compression + 2, at_compression + 2 + length (extensions_of h))
  unfolding extensions_range
  range-encode =
      rw
        (
          read_here (encode h) 43 here_session,
          get_be16_put (encode h) (h.ciphers ++ from_compression) at_session (length h.ciphers)
              here_ciphers,
          read_here (encode h) at_ciphers here_compression,
          get_be16_put (encode h) (extensions_of h) at_compression (length (extensions_of h))
              here_size,
        )
        refl

  hello-encode : is_client_hello (encode h) ≡ some true
  hello-encode =
      hello_append h.fixed (length h.session ∷ h.session ++ from_ciphers) v.fixed_length v.handshake
        v.version v.hello (omega arith)

  -- The scan of a hello finds its host.
  sni_bytes-encode : sni_bytes (encode h) ≡ some (some h.host)
  unfolding sni_bytes hello_name
  sni_bytes-encode =
      rw
        (
          hello-encode,
          range-encode,
          scan_name (encode h) (at_compression + 2 + length (extensions_of h)) h.before h.host
              h.behind (suc (at_compression + 2 + length (extensions_of h))) (at_compression + 2)
              v.others
              (omega (arith, length-put_extensions h.before (put_server_name h.host h.behind)))
              here_extensions (omega arith),
        )
        refl

-- The name read from a hello is its host, when the host is valid UTF-8, and there is none otherwise.
-- Session, cipher suites, compression methods and the extensions before and behind the name may be any
-- bytes.
pub extract_tls_sni-encode :
    (from_utf8 : Bytes → Option Text) (h : Hello)
    → IsHello h
    → extract_tls_sni from_utf8 (encode h) ≡ some (from_utf8 h.host)
unfolding extract_tls_sni
extract_tls_sni-encode from_utf8 h v = rw (sni_bytes-encode h v) refl
