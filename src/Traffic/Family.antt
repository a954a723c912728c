-- ===== src/Traffic/Family.antt =====
-- src/traffic/shared/family: the two address families of a packet. An address is the number that its
-- octets spell; a write out of bounds panics, which is `none`.
pub mod Laws
use any_mirror.Common.{
  leb, if◌then◌else◌, length, ◌>>=◌, ◌==◌, nat_eq, pair_eq, list_eq, option_eq, IpAddr, v4, v6,
  ip_eq, ℕ, ◌+◌, Bool, Option, none, some,
}
use any_mirror.Text.{Text}
use any_mirror.FakeIp.Range.{Ipv4Net, Ipv6Net}
use any_mirror.Traffic.Bytes.{Bytes, from_octets, octets, slice, get_range, copy_into}

-- `Ipv4HeaderSlice` and `Ipv6HeaderSlice`: the number of the next protocol and the length.
pub record IpHeaderSlice : Type 0 where
  pub protocol : ℕ
  pub header_len : ℕ

pub record TcpHeaderSlice : Type 0 where
  pub header_len : ℕ
  pub syn : Bool
  pub fin : Bool
  pub rst : Bool

-- What the packet handlers call of `etherparse`, of `ipnet` and of `String`. A builder takes the source,
-- the destination, the hop limit, the two ports and the payload.
pub record PacketCrates : Type 0 where
  pub ipv4_header : Bytes → Option IpHeaderSlice
  pub ipv6_header : Bytes → Option IpHeaderSlice
  pub tcp_header : Bytes → Option TcpHeaderSlice
  pub build_ipv4_udp : ℕ → ℕ → ℕ → ℕ → ℕ → Bytes → Option Bytes
  pub build_ipv6_udp : ℕ → ℕ → ℕ → ℕ → ℕ → Bytes → Option Bytes
  pub ipv4_contains : Ipv4Net → ℕ → Bool
  pub ipv6_contains : Ipv6Net → ℕ → Bool
  pub from_utf8 : Bytes → Option Text

-- `IpNumber::TCP` and `IpNumber::UDP`
abbrev pub tcp_number : ℕ
tcp_number = 6

abbrev pub udp_number : ℕ
udp_number = 17

-- The trait, with `IpPacketRange` for its ranges.
pub record IpPacketFamily (Range : Type 0) : Type 0 where
  pub read_src_ip : Bytes → Option ℕ
  pub read_dst_ip : Bytes → Option ℕ
  pub to_ip_addr : ℕ → IpAddr
  pub set_request_destination_ip : Bytes → ℕ → Option Bytes
  pub set_response_source_ip : Bytes → ℕ → Option Bytes
  pub read_tcp_ip_header_len : Bytes → Option ℕ
  pub read_udp_ip_header_len : Bytes → Option ℕ
  pub udp_packet_builder : ℕ → ℕ → ℕ → ℕ → ℕ → Bytes → Option Bytes
  pub contains_addr : Range → ℕ → Bool

-- The trait's own methods.
module _ {Range : Type 0} (F : IpPacketFamily Range) where
  unfoldable pub tcp_header_len : Bytes → Option ℕ
  tcp_header_len bytes = F.read_tcp_ip_header_len bytes

  unfoldable pub udp_header_len : Bytes → Option ℕ
  udp_header_len bytes = do
    ip_header_len ← F.read_udp_ip_header_len bytes
    if leb (ip_header_len + 8) (length bytes) then some ip_header_len else none

  unfoldable pub build_udp_response_packet : ℕ → ℕ → ℕ → ℕ → Bytes → Option Bytes
  build_udp_response_packet request_src_ip request_dst_ip request_src_port request_dst_port
        payload =
      F.udp_packet_builder request_dst_ip request_src_ip 64 request_dst_port request_src_port
        payload

  unfoldable pub range_contains : Range → ℕ → Bool
  range_contains range addr = F.contains_addr range addr

-- The four octets that are read one by one, where the data are long enough.
abbrev pub read_ipv4 : ℕ → ℕ → Bytes → Option ℕ
read_ipv4 low high bytes =
    if leb high (length bytes) then some (from_octets 0 (slice low high bytes)) else none

abbrev pub read_ipv6 : ℕ → ℕ → Bytes → Option ℕ
read_ipv6 low high bytes = do range ← get_range low high bytes; some (from_octets 0 range)

abbrev pub header_len_of : ℕ → Option IpHeaderSlice → Option ℕ
header_len_of number none = none
header_len_of number (some header) =
    if header.protocol == number then some header.header_len else none

module _ (crates : PacketCrates) where
  unfoldable pub ipv4_packet_family : IpPacketFamily Ipv4Net
  ipv4_packet_family = record {
    read_src_ip = read_ipv4 12 16;
    read_dst_ip = read_ipv4 16 20;
    to_ip_addr = v4;
    set_request_destination_ip = λ bytes src_ip. copy_into 16 20 (octets 4 src_ip) bytes;
    set_response_source_ip = λ bytes orig_dst_ip. copy_into 12 16 (octets 4 orig_dst_ip) bytes;
    read_tcp_ip_header_len = λ bytes. header_len_of tcp_number (crates.ipv4_header bytes);
    read_udp_ip_header_len = λ bytes. header_len_of udp_number (crates.ipv4_header bytes);
    udp_packet_builder = crates.build_ipv4_udp;
    contains_addr = crates.ipv4_contains;
  }

  unfoldable pub ipv6_packet_family : IpPacketFamily Ipv6Net
  ipv6_packet_family = record {
    read_src_ip = read_ipv6 8 24;
    read_dst_ip = read_ipv6 24 40;
    to_ip_addr = v6;
    set_request_destination_ip = λ bytes src_ip. copy_into 24 40 (octets 16 src_ip) bytes;
    set_response_source_ip = λ bytes orig_dst_ip. copy_into 8 24 (octets 16 orig_dst_ip) bytes;
    read_tcp_ip_header_len = λ bytes. header_len_of tcp_number (crates.ipv6_header bytes);
    read_udp_ip_header_len = λ bytes. header_len_of udp_number (crates.ipv6_header bytes);
    udp_packet_builder = crates.build_ipv6_udp;
    contains_addr = crates.ipv6_contains;
  }
