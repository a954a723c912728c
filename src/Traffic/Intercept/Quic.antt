-- ===== src/Traffic/Intercept/Quic.antt =====
-- QUIC packets in src/traffic/shared/intercept/mod.rs.
use any_mirror.Traffic.Intercept.Packets.{resolve_by}
use any_mirror.Common.{
  leb, if◌then◌else◌, Bool-cases, Option-cases, length, is_some, nat_eq, pair_eq, list_eq,
  option_eq, IpAddr, v4, ip_eq, ℕ, ◌≡◌, refl, ◌≢◌, inl, inr, Bool, false, Option, arith,
}
use any_mirror.Traffic.Bytes.{Bytes, from_octets, slice}
use any_mirror.Traffic.Dns.{FakeDnsState}
use any_mirror.Traffic.Family.{PacketCrates, ipv4_packet_family, ipv6_packet_family}
use any_mirror.Traffic.Intercept.Kinds.{pass, modified, drop_packet}
use any_mirror.Traffic.Intercept.Process.{handle_quic_packet}

abbrev pub is_resolved : Option FakeDnsState → IpAddr → ℕ → Bool
is_resolved server ip now = is_some (resolve_by server ip now).1

-- A QUIC packet is dropped exactly if its bytes 16 to 19, read as an IPv4 address, resolve to a domain, or if
-- it has less than 20 bytes: for a longer one the IPv6 family is never asked, so an IPv6 packet passes by the
-- same test on four bytes of its source address, whatever its destination resolves to.
pub handle_quic_packet_lem :
    (crates : PacketCrates) (bytes : Bytes) (server : Option FakeDnsState) (now : ℕ)
    → (handle_quic_packet crates bytes server now).1 ≡ (
        if leb 20 (length bytes)
        then (if is_resolved server (v4 (from_octets 0 (slice 16 20 bytes))) now
            then drop_packet
            else pass)
        else drop_packet)
unfolding handle_quic_packet ipv4_packet_family ipv6_packet_family
handle_quic_packet_lem crates bytes server now = elim (Bool-cases (leb 20 (length bytes))) [
  | inl long ↦
      elim (Option-cases (resolve_by server (v4 (from_octets 0 (slice 16 20 bytes))) now).1) [
        | inl e ↦ rw (long, handle_quic_packet, e) refl
        | inr (name, e) ↦ rw (long, handle_quic_packet, e) refl
      ]
  | inr short ↦
      let none6 : leb 40 (length bytes) ≡ false = ground arith in
      rw (short, handle_quic_packet, none6) refl
]

pub quic_ne_modified :
    (crates : PacketCrates) (bytes : Bytes) (server : Option FakeDnsState) (now : ℕ)
    → (handle_quic_packet crates bytes server now).1 ≢ modified
quic_ne_modified crates bytes server now e =
    ground (arith, handle_quic_packet_lem crates bytes server now, e)
