-- ===== src/Traffic/Tests.antt =====
-- Packets and messages through src/traffic/shared, and instances of the theorems.
use any_mirror.NatTable
use any_mirror.FakeIp
use any_mirror.Traffic.Intercept.Process.{handle_quic_packet, process_packet}
use any_mirror.Traffic.Intercept.Packets.{nat_expiration, resolve_fake_domain, tcp_packet_context}
use any_mirror.Common.{
  leb, if◌then◌else◌, length, nat_eq, pair_eq, list_eq, option_eq, ok, v4, ip_eq, ℕ, ◌+◌, ◌≡◌, refl,
  inl, inr, true, none, some, List, [], ◌∷◌, arith,
}
use any_mirror.Text.{
  codes, trim_end_matches, to_ascii_lowercase, ends_with, split, rsplit, trim, contains_text,
  no_uppercase,
}
use any_mirror.HashMap.{get, insert, remove, keys_where}
use any_mirror.FakeIp.{
  FakeIpStore, new, normalize_domain, drop_domain, drop_domains, prune_family,
  prune_expired_entries, allocate_next, store_new, allocate_or_refresh, allocate_or_refresh_ipv4,
  allocate_or_refresh_ipv6, resolve_domain,
}
use any_mirror.FakeIp.Range.{
  Ipv4Net, first_allocatable_ipv4, last_usable_ipv4, first_allocatable_ipv6, last_usable_ipv6,
  clamp_candidate, advance_candidate,
}
use any_mirror.FakeIp.Store.{IsValid, new-IsValid}
use any_mirror.FakeIp.Promises.{ipv4}
use any_mirror.Rules.Matching.{normalize_host}
use any_mirror.Rules.Compiled.{
  origin_eq, exact_url_eq, dns_host_keys, push_entry, push_entries, index_host, index_matcher,
  mark_all, note_dns,
}
use any_mirror.Rules.Live.{new_live, live_matches_dns_host}
use any_mirror.Rules.Resolve.{new_rule_set}
use any_mirror.Rules.Runtime.{matches_dns_host}
use any_mirror.Trie.Host.{insert_rule, mark_dns, matches}
use any_mirror.Trie.Nodes.{note_index, get_child, set_child}
use any_mirror.Trie.Cutoff.{update_min_rule_index}
use any_mirror.Traffic.Session.{IsReached, reply-IsReached}
use any_mirror.Traffic.Samples.{
  range4, range6, state, hickory, clock, crates, request, reply, packet, replied, flag,
}
use any_mirror.Traffic.Family.{IpPacketFamily, range_contains, ipv4_packet_family}
use any_mirror.FakeIp.Allocate.{search_candidate}
use any_mirror.NatTable.{TransparentNatTable, new_transparent_nat_table}
use any_mirror.NatTable.History.{Event, upsert, prune}
use any_mirror.Traffic.Bytes.{Bytes, from_octets, octets, slice, copy_into}
use any_mirror.Traffic.Dns.{
  type_a, rdata_a, Record, DnsLookupQuery, FakeDnsState, new_state, build_fake_answers,
}
use any_mirror.Traffic.Family.Laws.{ipv4_layout}
use any_mirror.Traffic.Intercept.Kinds.{tcp_request_redirect, pass, drop_packet}
use any_mirror.Traffic.Intercept.Tcp.{handle_request_packet_impl}
use any_mirror.Traffic.Intercept.Tcp.Response.{IsRequest}
use any_mirror.Traffic.Intercept.Tcp.Exchange.{IsExchange, request-response}
use any_mirror.Traffic.Intercept.Tcp.Dispatch.{Shared, Ports}
use any_mirror.Traffic.Intercept.Safety.{SafeProcessed, process_packet-Safe}
use any_mirror.Traffic.Intercept.Quic.{is_resolved, handle_quic_packet_lem}

abbrev store : FakeIpStore
store = (allocate_or_refresh_ipv4 (new range4 range6) (codes "example.com") 60 0).0

abbrev server : FakeDnsState
server = record {
  fake_ip_store = store;
  rules = new_live (new_rule_set []);
  options = record {
    listen_addr = (v4 0x7f000001, 15353);
    fake_ipv4_range = range4;
    fake_ipv6_range = range6;
    record_ttl = 60;
  };
}

program : Unit {0}
unfolding get insert remove keys_where trim_end_matches to_ascii_lowercase new normalize_domain
    drop_domain drop_domains prune_family prune_expired_entries search_candidate allocate_next
    store_new allocate_or_refresh allocate_or_refresh_ipv4 allocate_or_refresh_ipv6 resolve_domain
    first_allocatable_ipv4 last_usable_ipv4 first_allocatable_ipv6 last_usable_ipv6 clamp_candidate
    advance_candidate from_octets octets copy_into ipv4_packet_family ipv4_layout tcp_packet_context
    resolve_fake_domain handle_request_packet_impl range_contains process_packet nat_expiration
    new_transparent_nat_table build_fake_answers live_matches_dns_host matches_dns_host new_live
    new_rule_set new_state normalize_host trim contains_text no_uppercase note_dns index_matcher
    note_index update_min_rule_index get_child set_child insert_rule mark_dns matches rsplit split
    ends_with dns_host_keys mark_all push_entry push_entries index_host
program = tt

reads_request :
    tcp_packet_context crates (ipv4_packet_family crates) request 20 ≡ some (some packet)
unfolding program
reads_request = refl

reads_reply : tcp_packet_context crates (ipv4_packet_family crates) reply 20 ≡ some (some replied)
unfolding program
reads_reply = refl

abbrev F : IpPacketFamily Ipv4Net
F = ipv4_packet_family crates

abbrev nat : TransparentNatTable ℕ
nat = new_transparent_nat_table ℕ

nat-IsValid : NatTable.Laws.IsValid nat
unfolding program
nat-IsValid = record { unpoisoned = refl; unique = tt }

-- Another client connects in between, and the table is pruned.
abbrev events : List (Event ℕ)
events = upsert 6 3 50000 5 443 306 ∷ prune 7 ∷ []

request-IsRequest :
    IsRequest flag crates
      (ipv4_layout crates)
      20
      request
      true
      (some server)
      nat
      packet
      reads_request
      range4
      8080
      8443
      5
      (codes "example.com")
unfolding program
request-IsRequest = record {
  not_proxy = omega arith;
  not_tls = omega arith;
  captured = refl;
  resolves = refl;
}

request-response_example :
    IsExchange flag crates
      (ipv4_layout crates)
      20
      20
      request
      true
      (some server)
      nat
      range4
      8080
      8443
      5353
      5
      packet
      events
      reply
      true
      none
      300
      replied
unfolding program
request-response_example =
    request-response flag crates (ipv4_layout crates) 20 20 request true (some server) nat range4
      8080 8443 5353 5 packet (codes "example.com") events reply true none 300 replied
      (omega arith, omega arith) (omega arith, omega arith) (omega arith, omega arith, omega arith)
      nat-IsValid reads_request request-IsRequest ((refl, omega arith), ((tt, omega arith), tt))
      (omega arith) reads_reply (inr (inl refl)) (refl, refl)

abbrev ports : Ports
ports = record { proxy_port = 8080; tls_port = 8443; local_dns_port = 5353 }

abbrev shared : Shared
shared = record { server = some server; nat_table_v4 = nat; nat_table_v6 = nat }

process_packet-Safe_example :
    SafeProcessed flag request true
      (process_packet flag crates range4 range6 ports 5 tcp_request_redirect request true shared)
process_packet-Safe_example =
    process_packet-Safe flag crates range4 range6 ports 5 tcp_request_redirect request true shared
      (λ e. absurd (ground arith))

-- An IPv6 packet with a fake address in bytes 16 to 19, which are a part of its source address.
abbrev misread : Bytes
misread = 0x60 ∷ 0 ∷ 0 ∷ 0 ∷ 0 ∷ 8 ∷ 17 ∷ 64 ∷ 0 ∷ 0 ∷ 0 ∷ 0 ∷ 0 ∷ 0 ∷ 0 ∷ 0 ∷ 198 ∷ 18 ∷ 0 ∷ 3 ∷ []

handle_quic_packet_lem_example : (handle_quic_packet crates misread (some server) 5).1 ≡ (
    if leb 20 (length misread)
    then (if is_resolved (some server) (v4 (from_octets 0 (slice 16 20 misread))) 5
        then drop_packet
        else pass)
    else drop_packet)
handle_quic_packet_lem_example = handle_quic_packet_lem crates misread (some server) 5

-- The client asks for the host, gets the address 198.18.0.3, and connects to it.
abbrev query : DnsLookupQuery
query = record { name = codes "api.example.com"; record_type = type_a }

abbrev answers : List Record
answers =
    record { name = codes "api.example.com"; ttl = 60; rdata = rdata_a (range4.network + 3) } ∷ []

makes_answers : (build_fake_answers hickory clock state (query ∷ [])).1 ≡ ok (some answers)
unfolding program
makes_answers = refl

state-Valid : FakeIp.Store.IsValid range4 range6 state.fake_ip_store
unfolding program
state-Valid = new-IsValid range4 range6

reply-IsReached_example :
    IsReached flag crates
      (ipv4_layout crates)
      20
      request
      true
      (build_fake_answers hickory clock state (query ∷ [])).0
      nat
      range4
      8080
      8443
      20
      packet
unfolding program
reply-IsReached_example =
    reply-IsReached hickory range4 range6 clock state (query ∷ []) 20 answers ipv4 flag crates
      (ipv4_layout crates) 20 request true nat range4 8080 8443 packet state-Valid
      (λ i j h. omega arith) (omega arith) (λ i h. omega arith) (omega arith) makes_answers
      (inl refl) (λ ip. refl) reads_request (omega arith) (omega arith, omega arith, omega arith)
      nat-IsValid (omega arith, omega arith) refl

-- A UDP packet from port 50000 to port 53.
abbrev dns_query : Bytes
dns_query =
    0x45 ∷ 0 ∷ 0 ∷ 29 ∷ 0 ∷ 0 ∷ 0 ∷ 0 ∷ 64 ∷ 17 ∷ 0 ∷ 0 ∷ 10 ∷ 0 ∷ 0 ∷ 2 ∷ 10 ∷ 0 ∷ 0 ∷ 1 ∷ 195 ∷ 80
    ∷ 0 ∷ 53 ∷ 0 ∷ 9 ∷ 0 ∷ 0 ∷ 7 ∷ []
