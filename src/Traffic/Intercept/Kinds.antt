-- ===== src/Traffic/Intercept/Kinds.antt =====
-- src/traffic/shared/intercept/mod.rs: what becomes of a packet that the driver captured.
use any_mirror.Common.{nat_eq, pair_eq, list_eq, option_eq, ip_eq, Bool, true, false}

pub data TransparentCaptureKind : Type 0 where
  tcp_request_redirect tcp_dns_redirect tcp_proxy_response : TransparentCaptureKind
  dns_responder udp_quic_drop generic : TransparentCaptureKind

pub data PacketDisposition : Type 0 where
  pass modified drop_packet : PacketDisposition

unfoldable pub should_recalculate_checksums : PacketDisposition → Bool
should_recalculate_checksums modified = true
should_recalculate_checksums pass = false
should_recalculate_checksums drop_packet = false

unfoldable pub should_reinject : PacketDisposition → Bool
should_reinject drop_packet = false
should_reinject pass = true
should_reinject modified = true
