-- ===== src/FakeIp/Range.antt =====
-- src/traffic/shared/dns/fake_ip.rs: the part of a range that is handed out, and the cyclic
-- candidate. An `Ipv4Net` is read through `network` and `broadcast`, an `Ipv6Net` through `network`
-- and `prefix_len`, as the `ipnet` crate returns them.
use any_mirror.Common.{
  ltb, leb, if◌then◌else◌, ◌==◌, nat_eq, pair_eq, list_eq, option_eq, ip_eq, ℕ, ◌+◌, ◌-◌, ◌%◌, ◌^◌,
  ◌≤◌, bit_or, ◌≡◌, ◌||◌, Option, none, some, arith,
}

pub record Ipv4Net : Type 0 where
  pub network : ℕ
  pub broadcast : ℕ

pub record Ipv6Net : Type 0 where
  pub network : ℕ
  pub prefix_len : ℕ

abbrev pub u32_max : ℕ
u32_max = 0xffff_ffff

abbrev pub u128_max : ℕ
u128_max = 0xffff_ffff_ffff_ffff_ffff_ffff_ffff_ffff

-- `a.saturating_add(b)` on an unsigned type with the given greatest value.
abbrev pub saturating_add : ℕ → ℕ → ℕ → ℕ
saturating_add greatest a b = if leb (a + b) greatest then a + b else greatest

unfoldable pub first_usable_ipv4 : Ipv4Net → ℕ
first_usable_ipv4 range = saturating_add u32_max range.network 1

unfoldable pub first_allocatable_ipv4 : Ipv4Net → ℕ
unfolding first_usable_ipv4
first_allocatable_ipv4 range = saturating_add u32_max (first_usable_ipv4 range) 2

-- The subtraction comes before the test, so for the range of 0.0.0.0 alone it overflows: a debug build
-- panics there, and a release build, which this is, wraps around and drops the value.
unfoldable pub last_usable_ipv4 : Ipv4Net → Option ℕ
last_usable_ipv4 range =
    let before_broadcast = (range.broadcast + u32_max) % 2 ^ 32 in
    if ltb range.network range.broadcast then some before_broadcast else none

unfoldable pub first_usable_ipv6 : Ipv6Net → ℕ
first_usable_ipv6 range = saturating_add u128_max range.network 1

unfoldable pub first_allocatable_ipv6 : Ipv6Net → ℕ
unfolding first_usable_ipv6
first_allocatable_ipv6 range = saturating_add u128_max (first_usable_ipv6 range) 2

unfoldable pub host_mask : ℕ → ℕ
host_mask host_bits =
    if host_bits == 0 then 0 else if host_bits == 128 then u128_max else 2 ^ host_bits - 1

unfoldable pub last_usable_ipv6 : Ipv6Net → Option ℕ
unfolding first_usable_ipv6 host_mask
last_usable_ipv6 range =
    let last = bit_or range.network (host_mask (128 - range.prefix_len)) in
    if leb (first_usable_ipv6 range) last then some last else none

-- `clamp_ipv4_candidate` and `clamp_ipv6_candidate`, `advance_ipv4_candidate` and
-- `advance_ipv6_candidate` differ in the width of their arguments only.
unfoldable pub clamp_candidate : ℕ → ℕ → ℕ → ℕ
clamp_candidate candidate first last =
    if ltb candidate first || ltb last candidate then first else candidate

unfoldable pub advance_candidate : ℕ → ℕ → ℕ → ℕ
advance_candidate candidate first last = if leb last candidate then first else candidate + 1

pub clamp_bounds :
    (candidate first last : ℕ)
    → first ≤ last
    → (first ≤ clamp_candidate candidate first last) × (clamp_candidate candidate first last ≤ last)
unfolding clamp_candidate
clamp_bounds candidate first last h = ground arith

pub advance_bounds :
    (candidate first last : ℕ)
    → first ≤ candidate
    → candidate ≤ last
    → (first ≤ advance_candidate candidate first last)
      × (advance_candidate candidate first last ≤ last)
unfolding advance_candidate
advance_bounds candidate first last h k = ground arith

-- Past the network's address, its first host and the one after that.
pub first_allocatable_ipv4_lem :
    (range : Ipv4Net)
    → range.network + 3 ≤ u32_max
    → first_allocatable_ipv4 range ≡ range.network + 3
unfolding first_allocatable_ipv4
first_allocatable_ipv4_lem range h = ground arith
