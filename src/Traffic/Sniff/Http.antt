-- ===== src/Traffic/Sniff/Http.antt =====
-- The `Host` header that src/traffic/shared/sniff.rs reads.
use any_mirror.Traffic.Sniff.Panics.{host_from_lem}
use any_mirror.Common.{
  Bool-cases, length, take, drop, All, length-append, ◌==◌, nat_eq, pair_eq, list_beq_iff, list_eq,
  option_eq, ip_eq, ℕ, suc, ◌+◌, ◌-◌, ◌≤◌, ◌<◌, ◌≡◌, refl, sym, ap, ◌∙◌, ◌≢◌, ◌⊎◌, inl, inr, true,
  false, Option, none, some, [], ◌∷◌, ◌++◌, arith,
}
use any_mirror.Text.{Text, codes, to_ascii_lowercase}
use any_mirror.Traffic.Bytes.{Bytes}
use any_mirror.Traffic.Bytes.Laws.{take-append, drop-append, step_by}
use any_mirror.Traffic.Sniff.{
  eq_ignore_ascii_case, host_position, line_length, host_from, extract_http_host,
}

-- `Host: ` stands at the start, in capital or small letters.
abbrev pub IsHost : Bytes → Type 0
IsHost bytes = to_ascii_lowercase (take 6 bytes) ≡ codes "host: "

abbrev pub IsInLine : Bytes → Type 0
IsInLine host = All (λ b. (b ≢ b'\r') × (b ≢ b'\n')) host

lower_host : to_ascii_lowercase (codes "Host: ") ≡ codes "host: "
unfolding to_ascii_lowercase
lower_host = refl

eq_host_true :
    (bytes : Bytes) → IsHost bytes → eq_ignore_ascii_case (take 6 bytes) (codes "Host: ") ≡ true
unfolding eq_ignore_ascii_case
eq_host_true bytes h =
    (list_beq_iff (to_ascii_lowercase (take 6 bytes)) (to_ascii_lowercase (codes "Host: "))).1
      (h ∙ sym lower_host)

eq_host_false :
    (bytes : Bytes) → ¬ IsHost bytes → eq_ignore_ascii_case (take 6 bytes) (codes "Host: ") ≡ false
unfolding eq_ignore_ascii_case
eq_host_false bytes h =
    elim (Bool-cases (to_ascii_lowercase (take 6 bytes) == to_ascii_lowercase (codes "Host: "))) [
      | inl e ↦ absurd (
          h (
            (list_beq_iff (to_ascii_lowercase (take 6 bytes))
                (to_ascii_lowercase (codes "Host: "))).0
              e
            ∙ lower_host))
      | inr e ↦ e
    ]

-- The first occurrence is found.
host_position_lem :
    (before rest : Bytes)
    → ((i : ℕ) → i < length before → ¬ IsHost (drop i (before ++ rest)))
    → IsHost rest
    → 0 < length rest
    → host_position (before ++ rest) ≡ some (length before)
unfolding host_position
host_position_lem [] [] first h some_left = absurd (omega arith)
host_position_lem [] (b ∷ rest) first h some_left = rw (eq_host_true (b ∷ rest) h) refl
host_position_lem (b ∷ before) rest first h some_left =
    rw
      (
        eq_host_false (b ∷ (before ++ rest)) (first 0 (omega arith)),
        host_position_lem before rest (λ i lt. first (suc i) (omega arith)) h some_left,
      )
      refl

line_length-append :
    (host rest : Bytes)
    → IsInLine host
    → line_length rest ≡ 0
    → line_length (host ++ rest) ≡ length host
unfolding line_length
line_length-append [] rest v e = e
line_length-append (b ∷ host) rest ((r, n), v) e = ground (arith, line_length-append host rest v e)

-- What follows the host: the end of its line, or of the payload.
abbrev pub IsLineEnd : Bytes → Type 0
IsLineEnd [] = Unit
IsLineEnd (b ∷ rest) = (b ≡ b'\r') ⊎ (b ≡ b'\n')

line_length_end : (rest : Bytes) → IsLineEnd rest → line_length rest ≡ 0
unfolding line_length
line_length_end [] v = refl
line_length_end (b ∷ rest) (inl e) = rw e refl
line_length_end (b ∷ rest) (inr e) = rw e refl

position_found :
    (from_utf8 : Bytes → Option Text) (payload : Bytes) (position : ℕ)
    → host_position payload ≡ some position
    → extract_http_host from_utf8 payload ≡ host_from from_utf8 payload (position + 6)
unfolding extract_http_host
position_found from_utf8 payload position e =
    ap
      (λ (o : Option ℕ). elim o as (λ x. Option (Option Text)) [
        | none ↦ some none
        | some found ↦ host_from from_utf8 payload (found + 6)
      ])
      e

-- Where the bytes `Host: `, whatever the case of the letters, occur in a payload for the first time,
-- at any place and not only at the start of a header's line, what stands behind them, up to the end of
-- the line or of the payload, is the result, when it is valid UTF-8, and otherwise there is none. No
-- read is out of bounds.
pub extract_http_host_lem :
    (from_utf8 : Bytes → Option Text) (before header host rest : Bytes)
    → length header ≡ 6
    → to_ascii_lowercase header ≡ codes "host: "
    → ((i : ℕ) → i < length before → ¬ IsHost (drop i (before ++ (header ++ (host ++ rest)))))
    → IsInLine host
    → IsLineEnd rest
    → extract_http_host from_utf8 (before ++ (header ++ (host ++ rest))) ≡ some (from_utf8 host)
extract_http_host_lem from_utf8 before header host rest n lower first in_line ended =
    let payload = before ++ (header ++ (host ++ rest)) in
    let head : take 6 (header ++ (host ++ rest)) ≡ header =
      rw (← n) (take-append header (host ++ rest)) in
    let found_at =
      host_position_lem before (header ++ (host ++ rest)) first (rw head lower)
        (omega (arith, length-append header (host ++ rest))) in
    let there : drop (length before + 6) payload ≡ host ++ rest =
      step_by payload (length before) (drop-append before (header ++ (host ++ rest))) 6
      ∙ rw (← n) (drop-append header (host ++ rest)) in
    let many = line_length-append host rest in_line (line_length_end rest ended) in
    let start = length before + 6 in
    let size : start + line_length (drop start payload) - start ≡ length host =
      rw (there, many) (omega arith) in
    let inside : start ≤ length payload = omega (
      arith,
      length-append before (header ++ (host ++ rest)),
      length-append header (host ++ rest),
      n,
    ) in
    position_found from_utf8 payload (length before) found_at
    ∙ host_from_lem from_utf8 payload start inside
    ∙ rw (size, there, take-append host rest) refl
