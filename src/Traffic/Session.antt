-- ===== src/Traffic/Session.antt =====
-- A client that asks the fake DNS server of src/traffic/shared/dns for a host and then connects to the
-- address in the answer, through src/traffic/shared/intercept.
use any_mirror.FakeIp
use any_mirror.Traffic.Intercept.Packets.{
  TcpPacketContext, Handled, resolve_fake_domain, tcp_packet_context,
}
use any_mirror.Traffic.Family.{PacketCrates, IpPacketFamily, range_contains}
use any_mirror.Common.{
  if◌then◌else◌, length, ◌==◌, nat_eq, pair_eq, list_eq, option_eq, ok, ip_eq, ℕ, ◌+◌, ◌≤◌, ◌<◌,
  ◌≡◌, sym, ◌∙◌, ◌≢◌, ◌⊎◌, inl, inr, Bool, true, some, List, [], ◌∷◌, arith,
}
use any_mirror.Text.{Text}
use any_mirror.FakeIp.{FakeIpStore, normalize_domain}
use any_mirror.FakeIp.Range.{Ipv4Net, Ipv6Net}
use any_mirror.FakeIp.Promises.{Version, ipv4, ipv6, address, resolved}
use any_mirror.NatTable.{TransparentNatTable}
use any_mirror.NatTable.Laws.{IsValid}
use any_mirror.Rules.Live.{LiveRuleSet}
use any_mirror.Traffic.Bytes.{Bytes}
use any_mirror.Traffic.Dns.{Record, DnsLookupQuery, FakeDnsState, Hickory, build_fake_answers}
use any_mirror.Traffic.Dns.Answers.{rdata_of, Answered, done, skipped, answered}
use any_mirror.Traffic.Dns.Promise.{reply_of, build_fake_answers-IsReply}
use any_mirror.Traffic.Family.Laws.{Layout, fixed_end}
use any_mirror.Traffic.Intercept.Kinds.{modified}
use any_mirror.Traffic.Intercept.Tcp.{handle_request_packet_impl}
use any_mirror.Traffic.Intercept.Tcp.Context.{context_lem}
use any_mirror.Traffic.Intercept.Tcp.Request.{
  IsAddress, IsPort, IsRedirected, rewritten-IsRedirected,
}
use any_mirror.Traffic.Intercept.Tcp.Response.{request_result}

-- The request goes to the proxy.
pub record IsReached {A : Type 0} (flag : A → Bool → A) (crates : PacketCrates) {Range : Type 0}
    {F : IpPacketFamily Range} (l : Layout F) (h : ℕ) (bytes : Bytes) (addr : A)
    (state : FakeDnsState) (nat : TransparentNatTable ℕ) (range : Range)
    (proxy_port tls_port later : ℕ) (packet : TcpPacketContext) : Type 0 where
  pub out : Handled A
  pub handled :
      handle_request_packet_impl flag crates F h bytes addr
        (some state)
        nat
        range
        proxy_port
        tls_port
        later
      ≡ some out
  pub is_modified : out.disposition ≡ modified
  pub to_proxy :
      IsRedirected l h bytes out.bytes packet
        (if packet.dst_port == 443 then tls_port else proxy_port)

-- The answers whose address a packet is sent to.
abbrev pub HasAnswer : Version → ℕ → Record → Type 0
HasAnswer w ip answer = answer.rdata ≡ rdata_of w ip

abbrev pub Some : (Record → Type 0) → List Record → Type 0
Some P [] = ⊥
Some P (answer ∷ answers) = P answer ⊎ Some P answers

rdata_injective :
    (w w' : Version) (ip ip' : ℕ) → rdata_of w ip ≡ rdata_of w' ip' → (w ≡ w') × (ip ≡ ip')
rdata_injective ipv4 ipv4 ip ip' e = ground (arith, e)
rdata_injective ipv4 ipv6 ip ip' e = absurd (ground (arith, e))
rdata_injective ipv6 ipv4 ip ip' e = absurd (ground (arith, e))
rdata_injective ipv6 ipv6 ip ip' e = ground (arith, e)

-- An address in an answer resolves.
answered_resolves :
    (hickory : Hickory) (rules : LiveRuleSet) (ttl : ℕ) (store : FakeIpStore) (later : ℕ)
    (w : Version) (ip : ℕ) (queries : List DnsLookupQuery) (answers : List Record)
    → Answered hickory rules ttl store later queries answers
    → Some (HasAnswer w ip) answers
    → (domain : Text) × (resolved store (address w ip) later ≡ some domain)
answered_resolves hickory rules ttl store later w ip _ _ done s = absurd s
answered_resolves hickory rules ttl store later w ip _ _ (skipped e rest) s =
    answered_resolves hickory rules ttl store later w ip _ _ rest s
answered_resolves hickory rules ttl store later w ip _ _ (answered {query} w' e a rest) (inl here) =
    let (same_w, same_ip) = rdata_injective w w' ip a.ip (sym here ∙ a.holds) in
    (normalize_domain query.name, rw (same_w, same_ip) a.resolves)
answered_resolves hickory rules ttl store later w ip _ _ (answered w' e a rest) (inr there) =
    answered_resolves hickory rules ttl store later w ip _ _ rest there

-- With a valid store and NAT table, a client that connects to an address of the reply to its queries, of either family,
-- in the captured range and to another port than the listeners', reaches the proxy, until
-- the time to live of the first query is over.
pub reply-IsReached :
    (hickory : Hickory) (r4 : Ipv4Net) (r6 : Ipv6Net) (clock : ℕ → ℕ) (state : FakeDnsState)
    (queries : List DnsLookupQuery) (later : ℕ) (answers : List Record) (w : Version) {A : Type 0}
    (flag : A → Bool → A) (crates : PacketCrates) {Range : Type 0} {F : IpPacketFamily Range}
    (l : Layout F) (h : ℕ) (bytes : Bytes) (addr : A) (nat : TransparentNatTable ℕ) (range : Range)
    (proxy_port tls_port : ℕ) (packet : TcpPacketContext)
    → FakeIp.Store.IsValid r4 r6 state.fake_ip_store
    → ((i j : ℕ) → i ≤ j → clock i ≤ clock j)
    → clock 0 ≤ later
    → ((i : ℕ) → i < length queries → clock i ≤ later)
    → later < clock 0 + state.options.record_ttl
    → (build_fake_answers hickory clock state queries).1 ≡ ok (some answers)
    → Some (HasAnswer w packet.dst_ip) answers
    → ((ip : ℕ) → F.to_ip_addr ip ≡ address w ip)
    → tcp_packet_context crates F bytes h ≡ some (some packet)
    → fixed_end l ≤ h
    → IsAddress l packet.src_ip × IsPort proxy_port × IsPort tls_port
    → IsValid nat
    → (packet.dst_port ≢ proxy_port) × (packet.dst_port ≢ tls_port)
    → range_contains F range packet.dst_ip ≡ true
    → IsReached flag crates l h bytes addr
        (build_fake_answers hickory clock state queries).0
        nat
        range
        proxy_port
        tls_port
        later
        packet
unfolding resolve_fake_domain
reply-IsReached hickory r4 r6 clock state queries later answers w flag crates {F} l h bytes addr nat
      range proxy_port tls_port packet v ordered here past soon made has same_family e behind
      (small, pp, pt) valid (not_proxy, not_tls) captured =
    let state' = (build_fake_answers hickory clock state queries).0 in
    let reply =
      build_fake_answers-IsReply hickory r4 r6 clock state queries later (some answers) v ordered
        here past soon made in
    let (domain, resolves) =
      answered_resolves hickory state'.rules state'.options.record_ttl state'.fake_ip_store later w
        packet.dst_ip queries reply.answers reply.each_answered
        (rw (same_answers answers reply.answers reply.reply_eq) at has) in
    let (out, is, m) =
      request_result flag crates l h bytes addr (some state') nat packet e range proxy_port tls_port
        later domain
        (record {
          not_proxy = not_proxy;
          not_tls = not_tls;
          captured = captured;
          resolves = rw (same_family packet.dst_ip) resolves;
        })
        valid in
    record {
      out = out;
      handled = is;
      is_modified = m.is_modified;
      to_proxy = rw m.new_bytes (
          rewritten-IsRedirected l h bytes packet (context_lem crates l bytes h packet e) behind
            (if packet.dst_port == 443 then tls_port else proxy_port) small
            (either packet.dst_port));
    }
  where
    same_answers : (rs ss : List Record) → some rs ≡ reply_of ss → rs ≡ ss
    same_answers rs [] q = absurd (ground arith)
    same_answers rs (s ∷ ss) q = ground arith

    either : (n : ℕ) → IsPort (if n == 443 then tls_port else proxy_port)
    either n = ground (arith, pp, pt)
