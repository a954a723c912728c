-- ===== src/Traffic/Intercept/Tcp/Dispatch.antt =====
-- src/traffic/shared/intercept/tcp.rs: the handlers for a packet of either family.
use any_mirror.Traffic.Intercept.Packets.{detected_ipv4, detected_ipv6, Handled, detect_tcp_family}
use any_mirror.Common.{nat_eq, pair_eq, list_eq, option_eq, ip_eq, ℕ, Bool, Option, none, some}
use any_mirror.FakeIp.Range.{Ipv4Net, Ipv6Net}
use any_mirror.NatTable.{TransparentNatTable}
use any_mirror.Traffic.Bytes.{Bytes}
use any_mirror.Traffic.Dns.{FakeDnsState}
use any_mirror.Traffic.Family.{PacketCrates, ipv4_packet_family, ipv6_packet_family}
use any_mirror.Traffic.Intercept.Kinds.{PacketDisposition, pass}
use any_mirror.Traffic.Intercept.Tcp.{
  handle_request_packet_impl, handle_dns_tcp_packet_impl, handle_proxy_response_packet_impl,
}

-- What the handlers share: the server and the NAT table of each family.
pub record Shared : Type 0 where
  pub server : Option FakeDnsState
  pub nat_table_v4 : TransparentNatTable ℕ
  pub nat_table_v6 : TransparentNatTable ℕ

-- A packet, its address and the shared state, after a handler.
pub record Processed (A : Type 0) : Type 0 where
  pub bytes : Bytes
  pub addr : A
  pub shared : Shared
  pub disposition : PacketDisposition

abbrev pub untouched : {A : Type 0} → Bytes → A → Shared → PacketDisposition → Processed A
untouched bytes addr shared disposition = record {
  bytes = bytes;
  addr = addr;
  shared = shared;
  disposition = disposition;
}

abbrev pub of_ipv4 : {A : Type 0} → Shared → Option (Handled A) → Option (Processed A)
of_ipv4 shared none = none
of_ipv4 shared (some out) = some (record {
  bytes = out.bytes;
  addr = out.addr;
  shared = record shared { server = out.server; nat_table_v4 = out.nat };
  disposition = out.disposition;
})

abbrev pub of_ipv6 : {A : Type 0} → Shared → Option (Handled A) → Option (Processed A)
of_ipv6 shared none = none
of_ipv6 shared (some out) = some (record {
  bytes = out.bytes;
  addr = out.addr;
  shared = record shared { server = out.server; nat_table_v6 = out.nat };
  disposition = out.disposition;
})

pub record Ports : Type 0 where
  pub proxy_port : ℕ
  pub tls_port : ℕ
  pub local_dns_port : ℕ

module _ {A : Type 0} (flag : A → Bool → A) (crates : PacketCrates) (bytes : Bytes) (addr : A)
    (shared : Shared) (now : ℕ) (ports : Ports) where
  unfoldable pub handle_dns_tcp_packet : Option (Processed A)
  unfolding handle_dns_tcp_packet_impl
  handle_dns_tcp_packet = elim (detect_tcp_family crates bytes) [
    | none ↦ some (untouched bytes addr shared pass)
    | some family ↦ elim family [
      | detected_ipv4 ip_header_len ↦ of_ipv4 shared (
          handle_dns_tcp_packet_impl flag crates (ipv4_packet_family crates) ip_header_len bytes
            addr shared.server shared.nat_table_v4 ports.local_dns_port now)
      | detected_ipv6 ip_header_len ↦ of_ipv6 shared (
          handle_dns_tcp_packet_impl flag crates (ipv6_packet_family crates) ip_header_len bytes
            addr shared.server shared.nat_table_v6 ports.local_dns_port now)
    ]
  ]

  unfoldable pub handle_request_packet : Ipv4Net → Ipv6Net → Option (Processed A)
  unfolding handle_request_packet_impl
  handle_request_packet fake_ipv4_range fake_ipv6_range = elim (detect_tcp_family crates bytes) [
    | none ↦ some (untouched bytes addr shared pass)
    | some family ↦ elim family [
      | detected_ipv4 ip_header_len ↦ of_ipv4 shared (
          handle_request_packet_impl flag crates (ipv4_packet_family crates) ip_header_len bytes
            addr shared.server shared.nat_table_v4 fake_ipv4_range ports.proxy_port ports.tls_port
            now)
      | detected_ipv6 ip_header_len ↦ of_ipv6 shared (
          handle_request_packet_impl flag crates (ipv6_packet_family crates) ip_header_len bytes
            addr shared.server shared.nat_table_v6 fake_ipv6_range ports.proxy_port ports.tls_port
            now)
    ]
  ]

  unfoldable pub handle_proxy_response_packet : Option (Processed A)
  unfolding handle_proxy_response_packet_impl
  handle_proxy_response_packet = elim (detect_tcp_family crates bytes) [
    | none ↦ some (untouched bytes addr shared pass)
    | some family ↦ elim family [
      | detected_ipv4 ip_header_len ↦ of_ipv4 shared (
          handle_proxy_response_packet_impl flag crates (ipv4_packet_family crates) ip_header_len
            bytes addr shared.server shared.nat_table_v4 ports.proxy_port ports.tls_port
            ports.local_dns_port now)
      | detected_ipv6 ip_header_len ↦ of_ipv6 shared (
          handle_proxy_response_packet_impl flag crates (ipv6_packet_family crates) ip_header_len
            bytes addr shared.server shared.nat_table_v6 ports.proxy_port ports.tls_port
            ports.local_dns_port now)
    ]
  ]
