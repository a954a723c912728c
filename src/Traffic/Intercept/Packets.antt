-- ===== src/Traffic/Intercept/Packets.antt =====
-- src/traffic/shared/intercept/tcp.rs: what a handler reads of a packet, and what it gives back.
use any_mirror.Common.{
  ltb, leb, if◌then◌else◌, length, get_elem?, or_return, ◌>>=◌, nat_eq, pair_eq, list_eq, option_eq,
  IpAddr, ip_eq, ℕ, ◌+◌, Bool, not, ◌||◌, Option, none, some, [],
}
use any_mirror.Text.{Text, is_empty}
use any_mirror.FakeIp.{resolve_domain}
use any_mirror.NatTable.{
  nat_entry_established_ttl, nat_entry_closing_ttl, TransparentNatTable, upsert_nat_mapping,
}
use any_mirror.Traffic.Bytes.{Bytes, be16, drop_from}
use any_mirror.Traffic.Sniff.{extract_host}
use any_mirror.Traffic.Dns.{FakeDnsState}
use any_mirror.Traffic.Family.{
  tcp_header_len as family_tcp_header_len, PacketCrates, IpPacketFamily, ipv4_packet_family,
  ipv6_packet_family,
}
use any_mirror.Traffic.Intercept.Kinds.{PacketDisposition}

pub record TcpPacketContext : Type 0 where
  pub src_ip : ℕ
  pub dst_ip : ℕ
  pub src_port : ℕ
  pub dst_port : ℕ
  pub tcp_header_len : ℕ
  pub syn : Bool
  pub is_closing : Bool

pub data DetectedTcpFamily : Type 0 where
  detected_ipv4 detected_ipv6 : ℕ → DetectedTcpFamily

-- What is written to the log, with what the code computed for it.
pub data Log : Type 0 where
  silent nat_lock_poisoned : Log
  intercepted : Text → ℕ → Text → Log
  intercepted_syn : Text → ℕ → Log
  dns_redirected : ℕ → Log

-- A packet with its address, the server and the NAT table, after a handler.
pub record Handled (A : Type 0) : Type 0 where
  pub bytes : Bytes
  pub addr : A
  pub server : Option FakeDnsState
  pub nat : TransparentNatTable ℕ
  pub disposition : PacketDisposition
  pub log : Log

unfoldable pub packet_ports : Bytes → ℕ → Option (Option (ℕ × ℕ))
packet_ports bytes ip_header_len =
    if leb (ip_header_len + 4) (length bytes)
    then (do
      src_hi ← get_elem? bytes ip_header_len
      src_lo ← get_elem? bytes (ip_header_len + 1)
      dst_hi ← get_elem? bytes (ip_header_len + 2)
      dst_lo ← get_elem? bytes (ip_header_len + 3)
      some (some (be16 src_hi src_lo, be16 dst_hi dst_lo)))
    else some none

unfoldable pub nat_expiration : ℕ → Bool → ℕ
nat_expiration now is_closing =
    now + (if is_closing then nat_entry_closing_ttl else nat_entry_established_ttl)

-- `server.resolve_fake_domain(ip, now)`, where there is a server.
unfoldable pub resolve_fake_domain : FakeDnsState → IpAddr → ℕ → FakeDnsState × Option Text
resolve_fake_domain state ip now =
    let (store, domain) = resolve_domain state.fake_ip_store ip now in
    (record state { fake_ip_store = store }, domain)

abbrev pub resolve_by : Option FakeDnsState → IpAddr → ℕ → Option FakeDnsState × Option Text
resolve_by none ip now = (none, none)
resolve_by (some state) ip now =
    (some (resolve_fake_domain state ip now).0, (resolve_fake_domain state ip now).1)

-- The table, and whether the mapping was stored.
unfoldable pub upsert_nat_packet :
    TransparentNatTable ℕ → TcpPacketContext → ℕ → TransparentNatTable ℕ × Bool
unfolding nat_expiration
upsert_nat_packet nat_table packet now =
    upsert_nat_mapping nat_table packet.src_ip packet.src_port packet.dst_ip packet.dst_port
      (nat_expiration now packet.is_closing)

-- The host that is logged: the sniffed one, or the empty text.
unfoldable pub host_info : (Bytes → Option Text) → Bytes → ℕ → Option Text
unfolding drop_from
host_info from_utf8 bytes payload_start =
    if ltb payload_start (length bytes)
    then (do
      payload ← drop_from payload_start bytes
      sniffed ← extract_host from_utf8 payload
      some (elim sniffed [ none ↦ [] | some host ↦ host ]))
    else some []

unfoldable pub request_log : Text → Text → Bool → ℕ → Log
request_log owned_domain host syn target_proxy_port =
    if not (is_empty host)
    then intercepted owned_domain target_proxy_port host
    else if syn
    then intercepted_syn owned_domain target_proxy_port
    else silent

module _ (crates : PacketCrates) where
  unfoldable pub tcp_details : Bytes → ℕ → Option (Option (ℕ × Bool × Bool))
  unfolding drop_from
  tcp_details bytes ip_header_len = do
    segment ← drop_from ip_header_len bytes
    or_return (crates.tcp_header segment) (λ tcp_slice.
        some (some (tcp_slice.header_len, tcp_slice.syn, tcp_slice.fin || tcp_slice.rst)))

  unfoldable pub detect_tcp_family : Bytes → Option DetectedTcpFamily
  detect_tcp_family bytes = elim (family_tcp_header_len (ipv4_packet_family crates) bytes) [
    | some ip_header_len ↦ some (detected_ipv4 ip_header_len)
    | none ↦ elim (family_tcp_header_len (ipv6_packet_family crates) bytes) [
      | some ip_header_len ↦ some (detected_ipv6 ip_header_len)
      | none ↦ none
    ]
  ]

module _ (crates : PacketCrates) {Range : Type 0} (F : IpPacketFamily Range) where
  abbrev pub context_of : ℕ → ℕ → ℕ × ℕ → ℕ × Bool × Bool → TcpPacketContext
  context_of src_ip dst_ip ports details = record {
    src_ip = src_ip;
    dst_ip = dst_ip;
    src_port = ports.0;
    dst_port = ports.1;
    tcp_header_len = details.0;
    syn = details.1;
    is_closing = details.2;
  }

  unfoldable pub tcp_packet_context : Bytes → ℕ → Option (Option TcpPacketContext)
  unfolding tcp_details packet_ports
  tcp_packet_context bytes ip_header_len =
      if ltb (length bytes) (ip_header_len + 20)
      then some none
      else or_return (F.read_src_ip bytes) (λ src_ip. or_return (F.read_dst_ip bytes) (λ dst_ip.
        packet_ports bytes ip_header_len >>= λ found. or_return found (λ ports.
          tcp_details crates bytes ip_header_len >>= λ read.
          or_return read (λ details. some (some (context_of src_ip dst_ip ports details))))))
