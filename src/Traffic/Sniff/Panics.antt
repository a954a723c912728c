-- ===== src/Traffic/Sniff/Panics.antt =====
-- No read of src/traffic/shared/sniff.rs is out of bounds.
use mathlib.Core.Option
use any_mirror.Traffic.Bytes.Reads.{
  IsSome, of_some, IsSome-bind, IsSome-get, drop_from_lem, get_range_lem,
}
use any_mirror.Common.{
  leb, if◌then◌else◌, Bool-cases, length, get_elem?, take, drop, ◌==◌, nat_eq, pair_eq,
  list_beq_iff, list_eq, option_eq, ip_eq, ℕ, zero, suc, ◌+◌, ◌≤◌, ◌<◌, ◌≡◌, refl, ap, inl, inr,
  Bool, true, false, Option, none, some, [], ◌∷◌, arith,
}
use any_mirror.Text.{Text, codes, to_ascii_lowercase}
use any_mirror.Traffic.Bytes.{Bytes, slice}
use any_mirror.Traffic.Sniff.{
  eq_ignore_ascii_case, host_position, line_length, byte_is, is_client_hello, sni_bytes, host_from,
  extract_http_host, extract_tls_sni, extract_host,
}

length-to_ascii_lowercase : (cs : Text) → length (to_ascii_lowercase cs) ≡ length cs
unfolding to_ascii_lowercase
length-to_ascii_lowercase [] = refl
length-to_ascii_lowercase (c ∷ cs) = ap suc (length-to_ascii_lowercase cs)

length-take : (n : ℕ) (bytes : Bytes) → length (take n bytes) ≤ length bytes
length-take zero bytes = omega arith
length-take (suc n) [] = omega arith
length-take (suc n) (b ∷ bytes) = omega (arith, length-take n bytes)

-- A window that equals the header has its length.
window_fits :
    (bytes : Bytes) → eq_ignore_ascii_case (take 6 bytes) (codes "Host: ") ≡ true → 6 ≤ length bytes
unfolding eq_ignore_ascii_case
window_fits bytes h =
    let same =
      (list_beq_iff (to_ascii_lowercase (take 6 bytes)) (to_ascii_lowercase (codes "Host: "))).0
        h in
    omega (
      arith,
      length-take 6 bytes,
      length-to_ascii_lowercase (take 6 bytes),
      length-to_ascii_lowercase (codes "Host: "),
      ap length same,
    )

Position : Bytes → Option ℕ → Type 0
Position bytes none = Unit
Position bytes (some position) = position + 6 ≤ length bytes

Position-suc :
    (b : ℕ) (bytes : Bytes) (o : Option ℕ)
    → Position bytes o
    → Position (b ∷ bytes) (Option.map suc o)
unfolding Position
Position-suc b bytes none p = tt
Position-suc b bytes (some position) p = omega arith

host_position-Position : (bytes : Bytes) → Position bytes (host_position bytes)
unfolding host_position Position
host_position-Position [] = tt
host_position-Position (b ∷ bytes) =
    elim (Bool-cases (eq_ignore_ascii_case (take 6 (b ∷ bytes)) (codes "Host: "))) [
      | inl here ↦ rw here (window_fits (b ∷ bytes) here)
      | inr other ↦
          rw other (Position-suc b bytes (host_position bytes) (host_position-Position bytes))
    ]

line_length-le : (bytes : Bytes) → line_length bytes ≤ length bytes
unfolding line_length
line_length-le [] = omega arith
line_length-le (b ∷ bytes) = grind (arith, line_length-le bytes)

length-drop : (n : ℕ) (bytes : Bytes) → n ≤ length bytes → n + length (drop n bytes) ≡ length bytes
length-drop zero bytes h = omega arith
length-drop (suc n) [] h = omega arith
length-drop (suc n) (b ∷ bytes) h = omega (arith, length-drop n bytes (omega arith))

module _ (from_utf8 : Bytes → Option Text) where
  pub host_from_lem :
      (payload : Bytes) (start : ℕ)
      → start ≤ length payload
      → host_from from_utf8 payload start
        ≡ some (from_utf8 (slice start (start + line_length (drop start payload)) payload))
  unfolding host_from
  host_from_lem payload start h =
      rw
        (
          drop_from_lem start payload h,
          get_range_lem start (start + line_length (drop start payload)) payload (omega arith)
              (omega (arith, line_length-le (drop start payload), length-drop start payload h)),
        )
        refl

  extract_http_host_no_panic : (payload : Bytes) → IsSome (extract_http_host from_utf8 payload)
  unfolding extract_http_host Position
  extract_http_host_no_panic payload =
      by_position (host_position payload) (host_position-Position payload)
    where
      by_position :
          (o : Option ℕ)
          → Position payload o
          → IsSome {A = Option Text} (elim o [
            | none ↦ some none
            | some position ↦ host_from from_utf8 payload (position + 6)
          ])
      by_position none p = tt
      by_position (some position) p = rw (host_from_lem payload (position + 6) p) tt

  byte_is_no_panic :
      (payload : Bytes) (index value : ℕ) (rest : Option Bool)
      → index < length payload
      → IsSome rest
      → IsSome (byte_is payload index value rest)
  byte_is_no_panic payload index value rest h s =
      IsSome-bind (get_elem? payload index) (λ byte. if byte == value then rest else some false)
        (IsSome-get payload index h) (λ byte e. choose (byte == value))
    where
      choose : (b : Bool) → IsSome (if b then rest else some false)
      choose true = s
      choose false = tt

  is_client_hello_no_panic : (payload : Bytes) → IsSome (is_client_hello payload)
  unfolding is_client_hello
  is_client_hello_no_panic payload = elim (Bool-cases (leb (length payload) 43)) [
    | inl short ↦ rw short tt
    | inr long ↦
        let enough : 43 < length payload = ground (arith, long) in
        rw long (
          byte_is_no_panic payload 0 0x16 _ (omega arith) (
            byte_is_no_panic payload 1 0x03 _ (omega arith)
              (byte_is_no_panic payload 5 0x01 (some true) (omega arith) tt)))
  ]

  extract_tls_sni_no_panic : (payload : Bytes) → IsSome (extract_tls_sni from_utf8 payload)
  unfolding extract_tls_sni sni_bytes
  extract_tls_sni_no_panic payload =
      let (hello, e) = of_some (is_client_hello payload) (is_client_hello_no_panic payload) in
      rw e tt

  pub extract_host_no_panic : (payload : Bytes) → IsSome (extract_host from_utf8 payload)
  unfolding extract_host
  extract_host_no_panic payload =
      IsSome-bind (extract_http_host from_utf8 payload) _ (extract_http_host_no_panic payload)
        (λ http_host e. choose http_host)
    where
      choose :
          (o : Option Text)
          → IsSome {A = Option Text}
              (elim o [ none ↦ extract_tls_sni from_utf8 payload | some host ↦ some (some host) ])
      choose none = extract_tls_sni_no_panic payload
      choose (some host) = tt
