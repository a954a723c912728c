-- ===== src/Common/Net.antt =====
-- `std::net::IpAddr`: an address is the number that its octets spell.
use Prim.Native.Nat.{ℕ}
use mathlib.Core.Path.{◌≡◌}
use mathlib.Core.Logic.{◌↔◌}
use mathlib.Core.Bool.{Bool, true, false}
use native.Mathlib.Omega.{arith}
use any_mirror.Common.Equality.{KeyEq, ◌==◌, nat_eq, pair_eq, list_eq, option_eq}

pub data IpAddr : Type 0 where
  v4 : ℕ → IpAddr
  v6 : ℕ → IpAddr

abbrev pub ip_beq : IpAddr → IpAddr → Bool
ip_beq (v4 a) (v4 b) = a == b
ip_beq (v4 a) (v6 b) = false
ip_beq (v6 a) (v4 b) = false
ip_beq (v6 a) (v6 b) = a == b

pub ip_same_iff : (a b : IpAddr) → (ip_beq a b ≡ true) ↔ (a ≡ b)
ip_same_iff (v4 a) (v4 b) = ground arith
ip_same_iff (v4 a) (v6 b) = ground arith
ip_same_iff (v6 a) (v4 b) = ground arith
ip_same_iff (v6 a) (v6 b) = ground arith

instance abbrev pub ip_eq : KeyEq IpAddr
ip_eq = record { same = ip_beq; same_iff = ip_same_iff }
