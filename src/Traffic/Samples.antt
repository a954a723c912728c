-- ===== src/Traffic/Samples.antt =====
-- Sample packets, rules and crates, for the tests of src/traffic/shared.
use any_mirror.Traffic.Intercept.Packets.{TcpPacketContext}
use any_mirror.Common.{
  leb, if◌then◌else◌, length, ◌==◌, nat_eq, pair_eq, list_eq, option_eq, err, v4, ip_eq, pos, ℕ,
  ◌/◌, ◌%◌, Bool, true, false, ◌&&◌, Option, none, some, [], ◌∷◌, ◌++◌,
}
use any_mirror.Text.{codes}
use any_mirror.FakeIp.Range.{Ipv4Net, Ipv6Net}
use any_mirror.Rules.Model.{kind_host, exact_host, host_matcher, reject, Rule}
use any_mirror.Rules.Live.{new_live}
use any_mirror.Rules.Resolve.{new_rule_set}
use any_mirror.Traffic.Bytes.{Bytes, at}
use any_mirror.Traffic.Dns.{FakeDnsState, Hickory, new_state}
use any_mirror.Traffic.Family.{IpHeaderSlice, TcpHeaderSlice, PacketCrates}

-- 198.18.0.0/24 and fd00:198:18::/64
abbrev pub range4 : Ipv4Net
range4 = record { network = 3323068416; broadcast = 3323068671 }

abbrev pub range6 : Ipv6Net
range6 = record { network = 0xfd00_0198_0018_0000_0000_0000_0000_0000; prefix_len = 64 }

-- A rule that refuses the requests for one host.
abbrev pub refusing : Rule
refusing = record {
  kind = kind_host;
  matcher = host_matcher (record {
    pattern = exact_host (codes "api.example.com");
    scheme = none;
    port = none;
    path_prefix = none;
  });
  action = reject (record { status = 403; message = codes "no" });
  priority = pos 0;
  spread = false;
}

abbrev pub state : FakeDnsState
state =
    new_state
      (record {
        listen_addr = (v4 0x7f000001, 15353);
        fake_ipv4_range = range4;
        fake_ipv6_range = range6;
        record_ttl = 60;
      })
      (new_live (new_rule_set (refusing ∷ [])))

-- A resolver that knows no host.
abbrev pub hickory : Hickory
hickory = record {
  from_vec = λ bytes. none;
  to_vec = λ m. none;
  name_from_ascii = λ name. some name;
  lookup = λ name kind. err (record { is_nx_domain = true; is_no_records_found = false });
}

abbrev pub clock : ℕ → ℕ
clock i = 10

-- A crate that reads headers of the usual shape.
abbrev pub ipv4_header_of : Bytes → Option IpHeaderSlice
ipv4_header_of bytes =
    if leb 20 (length bytes) && at bytes 0 == 0x45
    then some (record { protocol = at bytes 9; header_len = 20 })
    else none

abbrev pub tcp_header_of : Bytes → Option TcpHeaderSlice
tcp_header_of bytes =
    if leb 20 (length bytes)
    then some (record {
      header_len = 20;
      syn = at bytes 13 / 2 % 2 == 1;
      fin = at bytes 13 % 2 == 1;
      rst = at bytes 13 / 4 % 2 == 1;
    })
    else none

abbrev pub crates : PacketCrates
crates = record {
  ipv4_header = ipv4_header_of;
  ipv6_header = λ bytes. none;
  tcp_header = tcp_header_of;
  build_ipv4_udp = λ source destination hop source_port destination_port payload. some payload;
  build_ipv6_udp = λ source destination hop source_port destination_port payload. some payload;
  ipv4_contains = λ range ip. leb range.network ip && leb ip range.broadcast;
  ipv6_contains = λ range ip. false;
  from_utf8 = λ bytes. some bytes;
}

-- A TCP packet from 10.0.0.2:50000 to 198.18.0.3:443, and one of the proxy to the same client.
abbrev pub header : Bytes
header = 0x45 ∷ 0 ∷ 0 ∷ 40 ∷ 0 ∷ 0 ∷ 0 ∷ 0 ∷ 64 ∷ 6 ∷ 0 ∷ 0 ∷ []

abbrev pub rest : Bytes
rest = 0 ∷ 0 ∷ 0 ∷ 0 ∷ 0 ∷ 0 ∷ 0 ∷ 0 ∷ 0x50 ∷ 2 ∷ 0 ∷ 0 ∷ 0 ∷ 0 ∷ 0 ∷ 0 ∷ []

abbrev pub request : Bytes
request = header ++ (10 ∷ 0 ∷ 0 ∷ 2 ∷ 198 ∷ 18 ∷ 0 ∷ 3 ∷ 195 ∷ 80 ∷ 1 ∷ 187 ∷ rest)

abbrev pub reply : Bytes
reply = header ++ (10 ∷ 0 ∷ 0 ∷ 2 ∷ 10 ∷ 0 ∷ 0 ∷ 2 ∷ 32 ∷ 251 ∷ 195 ∷ 80 ∷ rest)

abbrev pub packet : TcpPacketContext
packet = record {
  src_ip = 167772162;
  dst_ip = 3323068419;
  src_port = 50000;
  dst_port = 443;
  tcp_header_len = 20;
  syn = true;
  is_closing = false;
}

abbrev pub replied : TcpPacketContext
replied = record packet { dst_ip = 167772162; src_port = 8443; dst_port = 50000 }

-- An address is sent outwards or inwards.
abbrev pub flag : Bool → Bool → Bool
flag addr outbound = outbound
