-- ===== src/Config/Hijack.antt =====
-- src/config.rs: the entries of `dns_hijack` for a port of any address.
use any_mirror.Rules.Compile.{◌>>=◌, ok_or}
use any_mirror.Common.{
  ltb, leb, if◌then◌else◌, ltb→lt, lt→ltb, ◌==◌, nat_eq, pair_eq, list_eq, option_eq, Result, ok,
  err, ip_eq, ℕ, ◌+◌, ◌-◌, ◌*◌, ◌≤◌, ◌<◌, ◌≡◌, refl, Bool, true, false, ◌&&◌, Option, none, some,
  [], ◌∷◌, ◌++◌, arith,
}
use any_mirror.Text.{Text, codes, strip_prefix, is_whitespace, trim_start, trim_end, trim}
use any_mirror.Config.{ConfigError, bad_hijack, System}
use any_mirror.Config.Backend.{
  TunDnsHijackTransport, over_udp, over_tcp, any, TunDnsHijackSpec, parse_digits, parse_u16,
  hijack_transport, parse_tun_dns_hijack_target, parse_tun_dns_hijack_spec,
}

abbrev pub is_digit : ℕ → Bool
is_digit c = leb b'0' c && leb c b'9'

abbrev pub all_digits : Text → Bool
all_digits [] = true
all_digits (c ∷ cs) = is_digit c && all_digits cs

-- The number that digits spell behind a number.
abbrev pub value_from : ℕ → Text → ℕ
value_from value [] = value
value_from value (c ∷ cs) = value_from (value * 10 + (c - b'0')) cs

abbrev pub port_or_error : TunDnsHijackTransport → Text → Result ConfigError TunDnsHijackSpec
port_or_error transport cs =
    if ltb (value_from 0 cs) 65536
    then ok (record { transport = transport; target = any (value_from 0 cs) })
    else err bad_hijack

value_from-le : (value : ℕ) (cs : Text) → value ≤ value_from value cs
value_from-le value [] = omega arith
value_from-le value (c ∷ cs) = omega (arith, value_from-le (value * 10 + (c - b'0')) cs)

-- The check at each digit is the check of the whole number.
parse_digits_lem :
    (value : ℕ) (cs : Text)
    → value < 65536
    → all_digits cs ≡ true
    → parse_digits value cs
      ≡ (if ltb (value_from value cs) 65536 then some (value_from value cs) else none)
unfolding parse_digits
parse_digits_lem value [] h d = rw (lt→ltb value 65536 h) refl
parse_digits_lem value (c ∷ cs) h d =
    step (is_digit c) (ltb (value * 10 + (c - b'0')) 65536) refl (ground (arith, d))
      (λ small. parse_digits_lem (value * 10 + (c - b'0')) cs small (ground (arith, d)))
  where
    step :
        (digit small : Bool)
        → ltb (value * 10 + (c - b'0')) 65536 ≡ small
        → digit ≡ true
        → (value * 10 + (c - b'0') < 65536
            → parse_digits (value * 10 + (c - b'0')) cs ≡ (
                if ltb (value_from (value * 10 + (c - b'0')) cs) 65536
                then some (value_from (value * 10 + (c - b'0')) cs)
                else none))
        → (if digit && small then parse_digits (value * 10 + (c - b'0')) cs else none) ≡ (
            if ltb (value_from (value * 10 + (c - b'0')) cs) 65536
            then some (value_from (value * 10 + (c - b'0')) cs)
            else none)
    step false small e is rest = absurd (ground (arith, is))
    step true true e is rest = rest (ltb→lt (value * 10 + (c - b'0')) 65536 e)
    step true false e is rest =
        let large = value_from-le (value * 10 + (c - b'0')) cs in ground (arith, large, e)

is_whitespace-digit : (c : ℕ) → is_digit c ≡ true → is_whitespace c ≡ false
unfolding is_whitespace
is_whitespace-digit c h = ground (arith, h)

trim_end-digits : (cs : Text) → all_digits cs ≡ true → trim_end cs ≡ cs
unfolding trim_end
trim_end-digits [] h = refl
trim_end-digits (c ∷ cs) h =
    rw (is_whitespace-digit c (ground (arith, h)), trim_end-digits cs (ground (arith, h))) refl

parse_u16-digits :
    (c : ℕ) (cs : Text)
    → all_digits (c ∷ cs) ≡ true
    → parse_u16 (c ∷ cs)
      ≡ (if ltb (value_from 0 (c ∷ cs)) 65536 then some (value_from 0 (c ∷ cs)) else none)
unfolding parse_u16
parse_u16-digits c cs h =
    rw (plus c (ground (arith, h))) (parse_digits_lem 0 (c ∷ cs) (omega arith) h)
  where
    plus : (c : ℕ) → is_digit c ≡ true → (c == b'+') ≡ false
    plus c d = ground (arith, d)

port_target :
    (transport : TunDnsHijackTransport) (o : Option ℕ) (b : Bool) (n : ℕ)
    → o ≡ (if b then some n else none)
    → ◌>>=◌ {B = TunDnsHijackSpec}
        (ok_or bad_hijack o >>= (λ port. ok (any port)))
        (λ target. ok (record { transport = transport; target = target }))
      ≡ (if b then ok (record { transport = transport; target = any n }) else err bad_hijack)
port_target transport o true n h = rw h refl
port_target transport o false n h = rw h refl

-- An entry for a port of any address, behind `tcp://` or `udp://` or neither, is read as that
-- transport, UDP if none is named, and as the port that its digits spell, however many they are; it
-- is an error if that number does not fit into 16 bits.
pub parse_tun_dns_hijack_spec-any :
    {Json Yaml : Type 0} (system : System Json Yaml) (c : ℕ) (cs : Text)
    → all_digits (c ∷ cs) ≡ true
    → (parse_tun_dns_hijack_spec system (codes "tcp://any:" ++ c ∷ cs)
        ≡ port_or_error over_tcp (c ∷ cs))
      × (parse_tun_dns_hijack_spec system (codes "udp://any:" ++ c ∷ cs)
          ≡ port_or_error over_udp (c ∷ cs))
      × (parse_tun_dns_hijack_spec system (codes "any:" ++ c ∷ cs)
          ≡ port_or_error over_udp (c ∷ cs))
unfolding parse_tun_dns_hijack_spec parse_tun_dns_hijack_target hijack_transport strip_prefix trim
    trim_start trim_end is_whitespace
parse_tun_dns_hijack_spec-any system c cs h =
    let trimmed = trim_end-digits (c ∷ cs) h in
    let port = parse_u16-digits c cs h in
    let read = λ (transport : TunDnsHijackTransport).
      port_target transport (parse_u16 (c ∷ cs)) (ltb (value_from 0 (c ∷ cs)) 65536)
        (value_from 0 (c ∷ cs)) port in
    (rw trimmed (read over_tcp), rw trimmed (read over_udp), rw trimmed (read over_udp))
