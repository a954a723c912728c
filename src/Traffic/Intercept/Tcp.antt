-- ===== src/Traffic/Intercept/Tcp.antt =====
-- src/traffic/shared/intercept/tcp.rs: TCP packets to fake addresses, to DNS servers, and back from the
-- local proxy. A handler returns all that it changed; `none` is a panic on an index. The parameter
-- `now` is what `Instant::now()` returns, `set_outbound_flag` the trait's method.
pub mod Context
pub mod Safe
pub mod Dispatch
pub mod Request
pub mod Response
pub mod Exchange
use any_mirror.Traffic.Intercept.Packets.{
  TcpPacketContext, Log, silent, nat_lock_poisoned, dns_redirected, Handled, nat_expiration,
  resolve_by, upsert_nat_packet, host_info, request_log, tcp_packet_context,
}
use any_mirror.Common.{
  if◌then◌else◌, ◌>>=◌, ◌==◌, nat_eq, pair_eq, list_eq, option_eq, ip_eq, ℕ, ◌+◌, Bool, false, not,
  ◌&&◌, ◌||◌, Option, none, some,
}
use any_mirror.Text.{Text}
use any_mirror.NatTable.{TransparentNatTable, touch_nat_mapping}
use any_mirror.Traffic.Bytes.{Bytes, be16_bytes, copy_into}
use any_mirror.Traffic.Dns.{FakeDnsState}
use any_mirror.Traffic.Family.{PacketCrates, IpPacketFamily, tcp_header_len, range_contains}
use any_mirror.Traffic.Intercept.Kinds.{pass, modified}

module _ {A : Type 0} (set_outbound_flag : A → Bool → A) (crates : PacketCrates) {Range : Type 0}
    (F : IpPacketFamily Range) (ip_header_len : ℕ) where
  -- `PacketDisposition::Pass`, the packet as it is.
  abbrev pub passed : Bytes → A → Option FakeDnsState → TransparentNatTable ℕ → Log → Handled A
  passed bytes addr server nat log = record {
    bytes = bytes;
    addr = addr;
    server = server;
    nat = nat;
    disposition = pass;
    log = log;
  }

  abbrev pub with_tcp_packet_context :
      Bytes
      → A
      → Option FakeDnsState
      → TransparentNatTable ℕ
      → (TcpPacketContext → Option (Handled A))
      → Option (Handled A)
  with_tcp_packet_context bytes addr server nat handler =
      elim (tcp_packet_context crates F bytes ip_header_len) [
        | none ↦ none
        | some context ↦ elim context [
          | none ↦ some (passed bytes addr server nat silent)
          | some packet ↦ handler packet
        ]
      ]

  -- The writes of a redirection: the destination becomes the client's own address and a local port.
  unfoldable pub redirect : Bytes → ℕ → ℕ → Option Bytes
  redirect bytes src_ip port = do
    bytes' ← F.set_request_destination_ip bytes src_ip
    copy_into (ip_header_len + 2) (ip_header_len + 4) (be16_bytes port) bytes'

  -- The handler of `handle_request_packet_impl` past the lookup of the domain.
  unfoldable pub redirect_request :
      Bytes
      → A
      → Option FakeDnsState
      → TransparentNatTable ℕ
      → ℕ
      → ℕ
      → ℕ
      → Text
      → TcpPacketContext
      → Option (Handled A)
  unfolding upsert_nat_packet redirect request_log host_info
  redirect_request bytes addr server nat proxy_port tls_port now owned_domain packet =
      let (nat', stored) = upsert_nat_packet nat packet now in
      let target_proxy_port = if packet.dst_port == 443 then tls_port else proxy_port in
      if not stored then some (passed bytes addr server nat' nat_lock_poisoned) else (do
        bytes' ← redirect bytes packet.src_ip target_proxy_port
        host ← host_info crates.from_utf8 bytes' (ip_header_len + packet.tcp_header_len)
        some (record {
          bytes = bytes';
          addr = set_outbound_flag addr false;
          server = server;
          nat = nat';
          disposition = modified;
          log = request_log owned_domain host packet.syn target_proxy_port;
        }))

  unfoldable pub request_handler :
      Bytes
      → A
      → Option FakeDnsState
      → TransparentNatTable ℕ
      → Range
      → ℕ
      → ℕ
      → ℕ
      → TcpPacketContext
      → Option (Handled A)
  unfolding redirect_request
  request_handler bytes addr server nat capture_range proxy_port tls_port now packet =
      let (server', owned_domain) = resolve_by server (F.to_ip_addr packet.dst_ip) now in
      if packet.dst_port == proxy_port
        || packet.dst_port == tls_port
        || not (range_contains F capture_range packet.dst_ip)
      then some (passed bytes addr server nat silent)
      else elim owned_domain [
        | none ↦ some (passed bytes addr server' nat silent)
        | some domain ↦
            redirect_request bytes addr server' nat proxy_port tls_port now domain packet
      ]

  unfoldable pub handle_request_packet_impl :
      Bytes
      → A
      → Option FakeDnsState
      → TransparentNatTable ℕ
      → Range
      → ℕ
      → ℕ
      → ℕ
      → Option (Handled A)
  unfolding request_handler
  handle_request_packet_impl bytes addr server nat capture_range proxy_port tls_port now =
      with_tcp_packet_context bytes addr server nat
        (request_handler bytes addr server nat capture_range proxy_port tls_port now)

  unfoldable pub dns_tcp_handler :
      Bytes
      → A
      → Option FakeDnsState
      → TransparentNatTable ℕ
      → ℕ
      → ℕ
      → TcpPacketContext
      → Option (Handled A)
  unfolding upsert_nat_packet redirect
  dns_tcp_handler bytes addr server nat local_dns_port now packet =
      let (nat', stored) = upsert_nat_packet nat packet now in
      if not (packet.dst_port == 53) || packet.src_port == local_dns_port
      then some (passed bytes addr server nat silent)
      else if not stored
      then some (passed bytes addr server nat' nat_lock_poisoned)
      else (do
        bytes' ← redirect bytes packet.src_ip local_dns_port
        some (record {
          bytes = bytes';
          addr = set_outbound_flag addr false;
          server = server;
          nat = nat';
          disposition = modified;
          log = dns_redirected packet.dst_ip;
        }))

  unfoldable pub handle_dns_tcp_packet_impl :
      Bytes → A → Option FakeDnsState → TransparentNatTable ℕ → ℕ → ℕ → Option (Handled A)
  unfolding dns_tcp_handler
  handle_dns_tcp_packet_impl bytes addr server nat local_dns_port now =
      with_tcp_packet_context bytes addr server nat
        (dns_tcp_handler bytes addr server nat local_dns_port now)

  -- The writes of a response: the source becomes the destination that the client asked for.
  unfoldable pub restore : Bytes → ℕ → ℕ → Option Bytes
  restore bytes orig_dst_ip orig_dst_port = do
    bytes' ← F.set_response_source_ip bytes orig_dst_ip
    copy_into ip_header_len (ip_header_len + 2) (be16_bytes orig_dst_port) bytes'

  unfoldable pub proxy_response_handler :
      Bytes
      → A
      → Option FakeDnsState
      → TransparentNatTable ℕ
      → ℕ
      → ℕ
      → ℕ
      → ℕ
      → TcpPacketContext
      → Option (Handled A)
  unfolding nat_expiration restore
  proxy_response_handler bytes addr server nat proxy_port tls_port local_dns_port now packet =
      let (nat', destination) =
        touch_nat_mapping nat packet.dst_ip packet.dst_port now
          (nat_expiration now packet.is_closing) in
      if not (packet.src_port == proxy_port)
        && (not (packet.src_port == tls_port) && not (packet.src_port == local_dns_port))
      then some (passed bytes addr server nat silent)
      else elim destination [
        | none ↦ some (passed bytes addr server nat' silent)
        | some (orig_dst_ip, orig_dst_port) ↦ (do
          bytes' ← restore bytes orig_dst_ip orig_dst_port
          some (record {
            bytes = bytes';
            addr = set_outbound_flag addr false;
            server = server;
            nat = nat';
            disposition = modified;
            log = silent;
          }))
      ]

  unfoldable pub handle_proxy_response_packet_impl :
      Bytes → A → Option FakeDnsState → TransparentNatTable ℕ → ℕ → ℕ → ℕ → ℕ → Option (Handled A)
  unfolding proxy_response_handler
  handle_proxy_response_packet_impl bytes addr server nat proxy_port tls_port local_dns_port now =
      with_tcp_packet_context bytes addr server nat
        (proxy_response_handler bytes addr server nat proxy_port tls_port local_dns_port now)
