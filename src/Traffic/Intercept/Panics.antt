-- ===== src/Traffic/Intercept/Panics.antt =====
-- No read of a packet in src/traffic/shared/intercept/tcp.rs is out of bounds.
use any_mirror.Traffic.Bytes.Reads.{
  IsSome, of_some, IsSome-bind, IsSome-or_return, IsSome-get, drop_from_lem,
}
use any_mirror.Common.{
  ltb, leb, ltb→lt, leb→le, Bool-cases, length, get_elem?, drop, nat_eq, pair_eq, list_eq,
  option_eq, ip_eq, ℕ, ◌+◌, ◌≤◌, inl, inr, Option, arith,
}
use any_mirror.Text.{Text}
use any_mirror.Traffic.Bytes.{Bytes}
use any_mirror.Traffic.Family.{PacketCrates, IpPacketFamily}
use any_mirror.Traffic.Sniff.{extract_host}
use any_mirror.Traffic.Sniff.Panics.{extract_host_no_panic}
use any_mirror.Traffic.Intercept.Packets.{packet_ports, host_info, tcp_details, tcp_packet_context}

pub packet_ports_no_panic : (bytes : Bytes) (h : ℕ) → IsSome (packet_ports bytes h)
unfolding packet_ports
packet_ports_no_panic bytes h = elim (Bool-cases (leb (h + 4) (length bytes))) [
  | inr short ↦ rw short tt
  | inl long ↦
      let enough : h + 4 ≤ length bytes = leb→le (h + 4) (length bytes) long in
      let (a, ea) = of_some (get_elem? bytes h) (IsSome-get bytes h (omega (arith, enough))) in
      let (b, eb) =
        of_some (get_elem? bytes (h + 1)) (IsSome-get bytes (h + 1) (omega (arith, enough))) in
      let (c, ec) =
        of_some (get_elem? bytes (h + 2)) (IsSome-get bytes (h + 2) (omega (arith, enough))) in
      let (d, ed) =
        of_some (get_elem? bytes (h + 3)) (IsSome-get bytes (h + 3) (omega (arith, enough))) in
      rw (long, ea, eb, ec, ed) tt
]

tcp_details_no_panic :
    (crates : PacketCrates) (bytes : Bytes) (h : ℕ)
    → h ≤ length bytes
    → IsSome (tcp_details crates bytes h)
unfolding tcp_details
tcp_details_no_panic crates bytes h inside =
    rw (drop_from_lem h bytes inside)
      (IsSome-or_return (crates.tcp_header (drop h bytes)) _ (λ tcp_slice. tt))

pub context_no_panic :
    (crates : PacketCrates) {Range : Type 0} (F : IpPacketFamily Range) (bytes : Bytes) (h : ℕ)
    → IsSome (tcp_packet_context crates F bytes h)
unfolding tcp_packet_context
context_no_panic crates F bytes h = elim (Bool-cases (ltb (length bytes) (h + 20))) [
  | inl short ↦ rw short tt
  | inr long ↦ rw long (
      IsSome-or_return (F.read_src_ip bytes) _ (λ src_ip.
        IsSome-or_return (F.read_dst_ip bytes) _ (λ dst_ip.
          IsSome-bind (packet_ports bytes h) _ (packet_ports_no_panic bytes h) (λ found e.
            IsSome-or_return found _ (λ ports.
              IsSome-bind (tcp_details crates bytes h) _
                (tcp_details_no_panic crates bytes h (ground (arith, long)))
                (λ read e'. IsSome-or_return read _ (λ details. tt)))))))
]

pub host_info_no_panic :
    (from_utf8 : Bytes → Option Text) (bytes : Bytes) (start : ℕ)
    → IsSome (host_info from_utf8 bytes start)
unfolding host_info
host_info_no_panic from_utf8 bytes start = elim (Bool-cases (ltb start (length bytes))) [
  | inr out ↦ rw out tt
  | inl inside ↦
      let (sniffed, e) =
        of_some (extract_host from_utf8 (drop start bytes))
          (extract_host_no_panic from_utf8 (drop start bytes)) in
      rw (inside, drop_from_lem start bytes (ground (arith, ltb→lt start (length bytes) inside)), e)
        tt
]
