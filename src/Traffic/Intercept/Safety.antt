-- ===== src/Traffic/Intercept/Safety.antt =====
-- What holds for every packet that src/traffic/shared/intercept processes.
use any_mirror.Traffic.Intercept.Packets.{
  DetectedTcpFamily, detected_ipv4, detected_ipv6, Handled, detect_tcp_family,
}
use any_mirror.Common.{
  length, nat_eq, pair_eq, list_eq, option_eq, ip_eq, ℕ, ◌≡◌, refl, ◌≢◌, Bool, false, Option, none,
  some, arith,
}
use any_mirror.FakeIp.Range.{Ipv4Net, Ipv6Net}
use any_mirror.Traffic.Bytes.{Bytes}
use any_mirror.Traffic.Family.{PacketCrates}
use any_mirror.Traffic.Family.Laws.{ipv4_layout, ipv6_layout}
use any_mirror.Traffic.Intercept.Kinds.{
  TransparentCaptureKind, tcp_request_redirect, tcp_dns_redirect, tcp_proxy_response, dns_responder,
  udp_quic_drop, generic, PacketDisposition, pass, modified,
}
use any_mirror.Traffic.Intercept.Tcp.Safe.{Safe, request-Safe, dns-Safe, response-Safe}
use any_mirror.Traffic.Intercept.Tcp.Dispatch.{
  Shared, Processed, untouched, of_ipv4, of_ipv6, Ports,
}
use any_mirror.Traffic.Intercept.Quic.{quic_ne_modified}
use any_mirror.Traffic.Intercept.Process.{handle_quic_packet, process_packet}

-- As `Safe`, for a packet of either family.
abbrev pub SafeProcessed : {A : Type 0} → (A → Bool → A) → Bytes → A → Option (Processed A) → Type 0
SafeProcessed flag bytes addr none = ⊥
SafeProcessed flag bytes addr (some out) =
    (length out.bytes ≡ length bytes)
    × (out.disposition ≡ modified → out.addr ≡ flag addr false)
    × (out.disposition ≢ modified → (out.bytes ≡ bytes) × (out.addr ≡ addr))

module _ {A : Type 0} (flag : A → Bool → A) (bytes : Bytes) (addr : A) (shared : Shared) where
  of_ipv4-Safe :
      (o : Option (Handled A))
      → Safe flag bytes addr o
      → SafeProcessed flag bytes addr (of_ipv4 shared o)
  of_ipv4-Safe none s = s
  of_ipv4-Safe (some out) s = s

  of_ipv6-Safe :
      (o : Option (Handled A))
      → Safe flag bytes addr o
      → SafeProcessed flag bytes addr (of_ipv6 shared o)
  of_ipv6-Safe none s = s
  of_ipv6-Safe (some out) s = s

  untouched-Safe :
      (s : Shared) (d : PacketDisposition)
      → d ≢ modified
      → SafeProcessed flag bytes addr (some (untouched bytes addr s d))
  untouched-Safe s d ne = (refl, λ e. absurd (ne e), λ _. (refl, refl))

  -- A choice by the family of the packet.
  by_family-Safe :
      (o : Option DetectedTcpFamily) (ipv4 ipv6 : ℕ → Option (Handled A))
      → ((h : ℕ) → Safe flag bytes addr (ipv4 h))
      → ((h : ℕ) → Safe flag bytes addr (ipv6 h))
      → SafeProcessed flag bytes addr (elim o [
        | none ↦ some (untouched bytes addr shared pass)
        | some family ↦ elim family [
          | detected_ipv4 h ↦ of_ipv4 shared (ipv4 h)
          | detected_ipv6 h ↦ of_ipv6 shared (ipv6 h)
        ]
      ])
  by_family-Safe none ipv4 ipv6 a b = untouched-Safe shared pass (λ e. absurd (ground arith))
  by_family-Safe (some (detected_ipv4 h)) ipv4 ipv6 a b = of_ipv4-Safe (ipv4 h) (a h)
  by_family-Safe (some (detected_ipv6 h)) ipv4 ipv6 a b = of_ipv6-Safe (ipv6 h) (b h)

-- Whatever a packet holds, and whatever the crates and the shared state answer, processing it does not
-- panic unless it is for the DNS responder. Its length stays. A packet that is passed or dropped is as it was,
-- with its address, and the address of a modified one is turned inwards.
pub process_packet-Safe :
    {A : Type 0} (flag : A → Bool → A) (crates : PacketCrates) (range4 : Ipv4Net) (range6 : Ipv6Net)
    (ports : Ports) (now : ℕ) (kind : TransparentCaptureKind) (bytes : Bytes) (addr : A)
    (shared : Shared)
    → kind ≢ dns_responder
    → SafeProcessed flag bytes addr
        (process_packet flag crates range4 range6 ports now kind bytes addr shared)
unfolding process_packet
process_packet-Safe flag crates range4 range6 ports now tcp_request_redirect bytes addr shared ne =
    by_family-Safe flag bytes addr shared (detect_tcp_family crates bytes) _ _
      (λ h.
        request-Safe flag crates (ipv4_layout crates) h bytes addr shared.server shared.nat_table_v4
          range4 ports.proxy_port ports.tls_port now)
      (λ h.
        request-Safe flag crates (ipv6_layout crates) h bytes addr shared.server shared.nat_table_v6
          range6 ports.proxy_port ports.tls_port now)
process_packet-Safe flag crates range4 range6 ports now tcp_dns_redirect bytes addr shared ne =
    by_family-Safe flag bytes addr shared (detect_tcp_family crates bytes) _ _
      (λ h.
        dns-Safe flag crates (ipv4_layout crates) h bytes addr shared.server shared.nat_table_v4
          ports.local_dns_port now)
      (λ h.
        dns-Safe flag crates (ipv6_layout crates) h bytes addr shared.server shared.nat_table_v6
          ports.local_dns_port now)
process_packet-Safe flag crates range4 range6 ports now tcp_proxy_response bytes addr shared ne =
    by_family-Safe flag bytes addr shared (detect_tcp_family crates bytes) _ _
      (λ h.
        response-Safe flag crates (ipv4_layout crates) h bytes addr shared.server
          shared.nat_table_v4 ports.proxy_port ports.tls_port ports.local_dns_port now)
      (λ h.
        response-Safe flag crates (ipv6_layout crates) h bytes addr shared.server
          shared.nat_table_v6 ports.proxy_port ports.tls_port ports.local_dns_port now)
process_packet-Safe flag crates range4 range6 ports now udp_quic_drop bytes addr shared ne =
    untouched-Safe flag bytes addr shared
      (record shared { server = (handle_quic_packet crates bytes shared.server now).0 })
      (handle_quic_packet crates bytes shared.server now).1
      (quic_ne_modified crates bytes shared.server now)
process_packet-Safe flag crates range4 range6 ports now generic bytes addr shared ne =
    untouched-Safe flag bytes addr shared shared pass (λ e. absurd (ground arith))
process_packet-Safe flag crates range4 range6 ports now dns_responder bytes addr shared ne =
    absurd (ne refl)
