-- ===== src/Traffic/Intercept/Answering.antt =====
-- What holds for every DNS packet that src/traffic/shared/intercept/mod.rs answers.
use any_mirror.Common.{
  leb, Bool-cases, Option-cases, length, ◌==◌, nat_eq, pair_eq, list_eq, option_eq, ip_eq, ℕ, ◌+◌,
  ◌≤◌, ◌≡◌, ◌⊎◌, inl, inr, Bool, false, Option, none, some, arith,
}
use any_mirror.Traffic.Bytes.{Bytes, at}
use any_mirror.Traffic.Bytes.Reads.{IsSome, of_some, IsSome-bind, drop_from_lem}
use any_mirror.Traffic.Dns.{FakeDnsState, Hickory}
use any_mirror.Traffic.Family.{
  PacketCrates, IpPacketFamily, udp_header_len, ipv4_packet_family, ipv6_packet_family,
}
use any_mirror.Traffic.Intercept.Kinds.{PacketDisposition, pass, modified}
use any_mirror.Traffic.Intercept.Packets.{packet_ports}
use any_mirror.Traffic.Intercept.Panics.{packet_ports_no_panic}
use any_mirror.Traffic.Intercept.Process.{
  build_fake_ip_dns_packet_for_family, build_fake_ip_dns_packet,
}

-- A header that is found leaves room for the UDP header.
udp_fits :
    {Range : Type 0} (F : IpPacketFamily Range) (bytes : Bytes) (h : ℕ)
    → udp_header_len F bytes ≡ some h
    → h + 8 ≤ length bytes
unfolding udp_header_len
udp_fits F bytes h e = elim (Option-cases (F.read_udp_ip_header_len bytes)) [
  | inl lacks ↦ absurd (ground (arith, e, lacks))
  | inr (found, at) ↦ elim (Bool-cases (leb (found + 8) (length bytes))) [
    | inr short ↦ absurd (ground (arith, e, at, short))
    | inl long ↦ ground (arith, e, at, long)
  ]
]

module _ (hickory : Hickory) (clock : ℕ → ℕ) (bytes : Bytes) where
  family_no_panic :
      {Range : Type 0} (F : IpPacketFamily Range) (state : FakeDnsState)
      → IsSome (build_fake_ip_dns_packet_for_family F hickory clock bytes state)
  unfolding build_fake_ip_dns_packet_for_family
  family_no_panic F state = elim (Option-cases (udp_header_len F bytes)) [
    | inl other ↦ rw (build_fake_ip_dns_packet_for_family, IsSome, other) tt
    | inr (h, is_udp) ↦
        let (found, ports) = of_some (packet_ports bytes h) (packet_ports_no_panic bytes h) in
        let payload = drop_from_lem (h + 8) bytes (udp_fits F bytes h is_udp) in
        elim (Option-cases found) [
          | inl lacks ↦ rw (build_fake_ip_dns_packet_for_family, IsSome, is_udp, ports, lacks) tt
          | inr ((source_port, port), has) ↦ elim (Bool-cases (port == 53)) [
            | inr other ↦
                rw (build_fake_ip_dns_packet_for_family, IsSome, is_udp, ports, has, other) tt
            | inl dns ↦ elim (Option-cases (F.read_src_ip bytes)) [
              | inl lacks ↦
                  rw (build_fake_ip_dns_packet_for_family, IsSome, is_udp, ports, has, dns, lacks)
                    tt
              | inr (source, from) ↦ elim (Option-cases (F.read_dst_ip bytes)) [
                | inl lacks ↦
                    rw
                      (
                        build_fake_ip_dns_packet_for_family, IsSome, is_udp, ports, has, dns, from,
                        lacks,
                      )
                      tt
                | inr (destination, to) ↦
                    rw
                      (
                        build_fake_ip_dns_packet_for_family, IsSome, is_udp, ports, has, dns, from,
                        to, payload,
                      )
                      tt
              ]
            ]
          ]
        ]
  ]

  module _ (crates : PacketCrates) (state : FakeDnsState) where
    pub build_no_panic : IsSome (build_fake_ip_dns_packet crates hickory clock bytes state)
    unfolding build_fake_ip_dns_packet
    build_no_panic =
        IsSome-bind
          (build_fake_ip_dns_packet_for_family (ipv4_packet_family crates) hickory clock bytes
            state)
          _ (family_no_panic (ipv4_packet_family crates) state) (λ built e. second built.0 built.1)
      where
        second :
            (s : FakeDnsState) (o : Option Bytes)
            → IsSome {A = FakeDnsState × Option Bytes} (elim o [
              | some packet ↦ some (s, some packet)
              | none ↦
                  build_fake_ip_dns_packet_for_family
                    (ipv6_packet_family crates)
                    hickory
                    clock
                    bytes
                    s
            ])
        second s none = family_no_panic (ipv6_packet_family crates) s
        second s (some packet) = tt

-- A packet that is answered is sent inwards, and any other is as it was.
abbrev pub IsAnswer :
    {A : Type 0}
    → (A → Bool → A)
    → Bytes
    → A
    → Option (Bytes × A × Option FakeDnsState × PacketDisposition)
    → Type 0
IsAnswer flag bytes addr none = ⊥
IsAnswer flag bytes addr (some (bytes', addr', server, disposition)) =
    ((disposition ≡ modified) × (addr' ≡ flag addr false))
    ⊎ ((disposition ≡ pass) × (bytes' ≡ bytes) × (addr' ≡ addr))
