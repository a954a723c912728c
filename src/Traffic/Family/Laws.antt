-- ===== src/Traffic/Family/Laws.antt =====
-- The address fields of both families of src/traffic/shared/family, and what holds after a write to one.
use any_mirror.Common.{
  leb, if◌then◌else◌, length, nat_eq, pair_eq, list_eq, option_eq, ip_eq, ℕ, ◌+◌, ◌^◌, ◌≤◌, ◌<◌,
  ◌≡◌, refl, ap, ◌⊎◌, inl, inr, true, Option, none, some, arith,
}
use any_mirror.Traffic.Bytes.{Bytes, from_octets, octets, slice, overwrite, copy_into}
use any_mirror.Traffic.Bytes.Laws.{
  length-overwrite, slice-overwrite_ne, slice-overwrite_self, length-octets, from_octets-octets,
}
use any_mirror.Traffic.Family.{
  PacketCrates, IpPacketFamily, read_ipv6, ipv4_packet_family, ipv6_packet_family,
}

-- An address field: the octets of an address at an offset.
abbrev pub read_field : ℕ → ℕ → Bytes → Option ℕ
read_field offset width bytes =
    if leb (offset + width) (length bytes)
    then some (from_octets 0 (slice offset (offset + width) bytes))
    else none

abbrev pub write_field : ℕ → ℕ → ℕ → Bytes → Option Bytes
write_field offset width ip bytes = copy_into offset (offset + width) (octets width ip) bytes

-- Where a family keeps the source and the destination of a packet.
pub record Layout {Range : Type 0} (F : IpPacketFamily Range) : Type 0 where
  pub source : ℕ
  pub destination : ℕ
  pub width : ℕ
  pub apart : source + width ≤ destination
  pub reads_source : (bytes : Bytes) → F.read_src_ip bytes ≡ read_field source width bytes
  pub reads_destination : (bytes : Bytes) → F.read_dst_ip bytes ≡ read_field destination width bytes
  pub writes_destination :
      (bytes : Bytes) (ip : ℕ)
      → F.set_request_destination_ip bytes ip ≡ write_field destination width ip bytes
  pub writes_source :
      (bytes : Bytes) (ip : ℕ)
      → F.set_response_source_ip bytes ip ≡ write_field source width ip bytes

-- The fixed part of the header ends behind the destination.
abbrev pub fixed_end : {Range : Type 0} → {F : IpPacketFamily Range} → Layout F → ℕ
fixed_end l = l.destination + l.width

pub read_ipv6-field :
    (low high : ℕ) (bytes : Bytes)
    → low ≤ high
    → read_ipv6 low high bytes
      ≡ (if leb high (length bytes) then some (from_octets 0 (slice low high bytes)) else none)
read_ipv6-field low high bytes h = ground arith

unfoldable pub ipv4_layout : (crates : PacketCrates) → Layout (ipv4_packet_family crates)
unfolding ipv4_packet_family
ipv4_layout crates = record {
  source = 12;
  destination = 16;
  width = 4;
  apart = omega arith;
  reads_source = λ bytes. refl;
  reads_destination = λ bytes. refl;
  writes_destination = λ bytes ip. refl;
  writes_source = λ bytes ip. refl;
}

unfoldable pub ipv6_layout : (crates : PacketCrates) → Layout (ipv6_packet_family crates)
unfolding ipv6_packet_family
ipv6_layout crates = record {
  source = 8;
  destination = 24;
  width = 16;
  apart = omega arith;
  reads_source = λ bytes. read_ipv6-field 8 24 bytes (omega arith);
  reads_destination = λ bytes. read_ipv6-field 24 40 bytes (omega arith);
  writes_destination = λ bytes ip. refl;
  writes_source = λ bytes ip. refl;
}

-- A write in bounds.
pub copy_into_lem :
    (low high : ℕ) (src bytes : Bytes)
    → length src + low ≡ high
    → high ≤ length bytes
    → copy_into low high src bytes ≡ some (overwrite low src bytes)
unfolding copy_into
copy_into_lem low high src bytes e h = ground arith

module _ (offset width : ℕ) (src bytes : Bytes) (fits : length src ≡ width) where
  -- Reading the field that was written, or one apart from it.
  pub read_field-overwrite_ne :
      (other width' : ℕ)
      → (other + width' ≤ offset) ⊎ (offset + width ≤ other)
      → read_field other width' (overwrite offset src bytes) ≡ read_field other width' bytes
  read_field-overwrite_ne other width' h =
      rw
        (
          length-overwrite offset src bytes,
          slice-overwrite_ne offset src bytes other (other + width') (apart h),
        )
        refl
    where
      apart :
          (other + width' ≤ offset) ⊎ (offset + width ≤ other)
          → (other + width' ≤ offset) ⊎ (offset + length src ≤ other)
      apart (inl a) = inl a
      apart (inr a) = inr (omega (arith, fits))

pub read_field-overwrite_self :
    (offset width ip : ℕ) (bytes : Bytes)
    → ip < 256 ^ width
    → offset + width ≤ length bytes
    → read_field offset width (overwrite offset (octets width ip) bytes) ≡ some ip
read_field-overwrite_self offset width ip bytes small h =
    let n = length-octets width ip in
    let fits : leb (offset + width) (length bytes) ≡ true = ground arith in
    rw
      (
        length-overwrite offset (octets width ip) bytes,
        fits,
        slice-overwrite_self offset (offset + width) (octets width ip) bytes (omega arith)
            (omega arith),
      )
      (ap some (from_octets-octets width ip small))

-- Where a field is read, it is in bounds.
pub read_field_fits :
    (offset width : ℕ) (bytes : Bytes) (ip : ℕ)
    → read_field offset width bytes ≡ some ip
    → offset + width ≤ length bytes
read_field_fits offset width bytes ip h = ground arith
