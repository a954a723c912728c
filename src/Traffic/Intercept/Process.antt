-- ===== src/Traffic/Intercept/Process.antt =====
-- src/traffic/shared/intercept/mod.rs: the handler for each kind of capture. `none` is a panic.
use any_mirror.Traffic.Intercept.Packets.{packet_ports, resolve_by}
use any_mirror.Common.{
  if◌then◌else◌, ◌>>=◌, ◌==◌, nat_eq, pair_eq, list_eq, option_eq, ok, err, ip_eq, ℕ, ◌+◌, Bool,
  false, not, Option, none, some,
}
use any_mirror.FakeIp.Range.{Ipv4Net, Ipv6Net}
use any_mirror.Traffic.Bytes.{Bytes, drop_from}
use any_mirror.Traffic.Dns.{FakeDnsState, Hickory}
use any_mirror.Traffic.Dns.Response.{build_fake_response}
use any_mirror.Traffic.Family.{
  PacketCrates, IpPacketFamily, udp_header_len, build_udp_response_packet, ipv4_packet_family,
  ipv6_packet_family,
}
use any_mirror.Traffic.Intercept.Kinds.{
  TransparentCaptureKind, tcp_request_redirect, tcp_dns_redirect, tcp_proxy_response, dns_responder,
  udp_quic_drop, generic, PacketDisposition, pass, modified, drop_packet,
}
use any_mirror.Traffic.Intercept.Tcp.Dispatch.{
  Shared, Processed, untouched, Ports, handle_dns_tcp_packet, handle_request_packet,
  handle_proxy_response_packet,
}

module _ {Range : Type 0} (F : IpPacketFamily Range) where
  -- The server, and what becomes of the packet; `none` is the lack of a destination.
  unfoldable pub log_quic_drop_for_family :
      Bytes → Option FakeDnsState → ℕ → Option FakeDnsState × Option PacketDisposition
  log_quic_drop_for_family bytes server now = elim (F.read_dst_ip bytes) [
    | none ↦ (server, none)
    | some dst_ip ↦
        let (server', domain) = resolve_by server (F.to_ip_addr dst_ip) now in
        (server', some (elim domain [ none ↦ pass | some name ↦ drop_packet ]))
  ]

  unfoldable pub build_fake_ip_dns_packet_for_family :
      Hickory → (ℕ → ℕ) → Bytes → FakeDnsState → Option (FakeDnsState × Option Bytes)
  unfolding build_udp_response_packet build_fake_response
  build_fake_ip_dns_packet_for_family hickory clock packet_data state =
      elim (udp_header_len F packet_data) [
        | none ↦ some (state, none)
        | some ip_header_len ↦ packet_ports packet_data ip_header_len >>= λ ports. elim ports [
          | none ↦ some (state, none)
          | some (request_src_port, request_dst_port) ↦
              if not (request_dst_port == 53)
              then some (state, none)
              else elim (F.read_src_ip packet_data) [
                | none ↦ some (state, none)
                | some request_src_ip ↦ elim (F.read_dst_ip packet_data) [
                  | none ↦ some (state, none)
                  | some request_dst_ip ↦
                      (drop_from (ip_header_len + 8) packet_data >>= λ dns_payload.
                      let (state', result) = build_fake_response hickory clock state dns_payload in
                      some (
                        state',
                        elim result [
                          | err error ↦ none
                          | ok response ↦
                              (response >>= λ response_payload.
                              build_udp_response_packet F request_src_ip request_dst_ip
                                request_src_port request_dst_port response_payload)
                        ],
                      ))
                ]
              ]
        ]
      ]

-- The first family that applies.
unfoldable pub handle_quic_packet :
    PacketCrates → Bytes → Option FakeDnsState → ℕ → Option FakeDnsState × PacketDisposition
unfolding log_quic_drop_for_family
handle_quic_packet crates bytes server now =
    let (server', ipv4) = log_quic_drop_for_family (ipv4_packet_family crates) bytes server now in
    elim ipv4 [
      | some disposition ↦ (server', disposition)
      | none ↦
          let (server'', ipv6) =
            log_quic_drop_for_family (ipv6_packet_family crates) bytes server' now in
          (server'', elim ipv6 [ some disposition ↦ disposition | none ↦ drop_packet ])
    ]

unfoldable pub build_fake_ip_dns_packet :
    PacketCrates → Hickory → (ℕ → ℕ) → Bytes → FakeDnsState → Option (FakeDnsState × Option Bytes)
unfolding build_fake_ip_dns_packet_for_family
build_fake_ip_dns_packet crates hickory clock packet_data state = do
  (state', ipv4) ←
      build_fake_ip_dns_packet_for_family (ipv4_packet_family crates) hickory clock packet_data
        state
  elim ipv4 [
    | some packet ↦ some (state', some packet)
    | none ↦
        build_fake_ip_dns_packet_for_family (ipv6_packet_family crates) hickory clock packet_data
          state'
  ]

-- The packet that is sent, its address, the server, and what becomes of it.
unfoldable pub handle_dns_query_packet :
    {A : Type 0}
    → (A → Bool → A)
    → PacketCrates
    → Hickory
    → (ℕ → ℕ)
    → Bytes
    → A
    → Option FakeDnsState
    → Option (Bytes × A × Option FakeDnsState × PacketDisposition)
unfolding build_fake_ip_dns_packet
handle_dns_query_packet flag crates hickory clock bytes addr none = some (bytes, addr, none, pass)
handle_dns_query_packet flag crates hickory clock bytes addr (some state) = do
  (state', built) ← build_fake_ip_dns_packet crates hickory clock bytes state
  some (elim built [
    | none ↦ (bytes, addr, some state', pass)
    | some response_packet ↦ (response_packet, flag addr false, some state', modified)
  ])

unfoldable pub process_packet :
    {A : Type 0}
    → (A → Bool → A)
    → PacketCrates
    → Ipv4Net
    → Ipv6Net
    → Ports
    → ℕ
    → TransparentCaptureKind
    → Bytes
    → A
    → Shared
    → Option (Processed A)
unfolding handle_request_packet handle_dns_tcp_packet handle_proxy_response_packet
    handle_quic_packet
process_packet flag crates range4 range6 ports now tcp_request_redirect bytes addr shared =
    handle_request_packet flag crates bytes addr shared now ports range4 range6
process_packet flag crates range4 range6 ports now tcp_dns_redirect bytes addr shared =
    handle_dns_tcp_packet flag crates bytes addr shared now ports
process_packet flag crates range4 range6 ports now tcp_proxy_response bytes addr shared =
    handle_proxy_response_packet flag crates bytes addr shared now ports
process_packet flag crates range4 range6 ports now udp_quic_drop bytes addr shared =
    let (server, disposition) = handle_quic_packet crates bytes shared.server now in
    some (untouched bytes addr (record shared { server = server }) disposition)
process_packet flag crates range4 range6 ports now generic bytes addr shared =
    some (untouched bytes addr shared pass)
process_packet flag crates range4 range6 ports now dns_responder bytes addr shared = none
