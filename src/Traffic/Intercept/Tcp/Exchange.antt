-- ===== src/Traffic/Intercept/Tcp/Exchange.antt =====
-- A connection through src/traffic/shared/intercept/tcp.rs: the client's packet to the proxy, other traffic,
-- and the proxy's packet back.
use any_mirror.Traffic.Intercept.Packets.{
  TcpPacketContext, Handled, nat_expiration, upsert_nat_packet, tcp_packet_context,
}
use any_mirror.Common.{
  if◌then◌else◌, lt→ltb, All, ◌==◌, nat_eq, pair_eq, eq_refl, list_eq, option_eq, ip_eq, ℕ, ◌≤◌,
  ◌<◌, ◌≡◌, refl, sym, ap, ◌∙◌, Bool, false, Option, some, List, [], ◌∷◌, arith,
}
use any_mirror.Text.{Text}
use any_mirror.NatTable.{TransparentNatKey, TransparentNatTable, prune_nat_table, touch_nat_mapping}
use any_mirror.NatTable.Laws.{
  live, destination, live-live, entry_of, IsValid, upsert-IsValid, touch-IsValid, prune-IsValid,
  entry-upsert, live-prune, live-touch,
}
use any_mirror.NatTable.History.{Event, upsert, touch, prune, time, step}
use any_mirror.Traffic.Bytes.{Bytes}
use any_mirror.Traffic.Dns.{FakeDnsState}
use any_mirror.Traffic.Family.{PacketCrates, IpPacketFamily}
use any_mirror.Traffic.Family.Laws.{Layout, fixed_end}
use any_mirror.Traffic.Intercept.Kinds.{modified}
use any_mirror.Traffic.Intercept.Tcp.{handle_request_packet_impl, handle_proxy_response_packet_impl}
use any_mirror.Traffic.Intercept.Tcp.Context.{context_lem}
use any_mirror.Traffic.Intercept.Tcp.Request.{
  IsAddress, IsPort, IsRedirected, rewritten-IsRedirected,
}
use any_mirror.Traffic.Intercept.Tcp.Response.{
  IsRestored, rewritten-IsRestored, IsLocal, response_result, IsRequest, request_result,
}

-- The client of an event of the table.
abbrev pub IsOther : TransparentNatKey ℕ → Event ℕ → Type 0
IsOther k (upsert now ip port dip dport expires) = ((ip, port) == k) ≡ false
IsOther k (touch now ip port expires) = ((ip, port) == k) ≡ false
IsOther k (prune now) = Unit

-- The table after events.
unfoldable pub after_events : TransparentNatTable ℕ → List (Event ℕ) → TransparentNatTable ℕ
unfolding step
after_events t [] = t
after_events t (event ∷ events) = after_events (step t event).0 events

step-Valid : (t : TransparentNatTable ℕ) (event : Event ℕ) → IsValid t → IsValid (step t event).0
unfolding step
step-Valid t (upsert now ip port dip dport expires) v = upsert-IsValid t ip port dip dport expires v
step-Valid t (touch now ip port expires) v = touch-IsValid t ip port now expires v
step-Valid t (prune now) v = prune-IsValid t now v

-- An event of another client, or a pruning, does not change what is alive later.
live-step_other :
    (t : TransparentNatTable ℕ) (event : Event ℕ) (k : TransparentNatKey ℕ) (later : ℕ)
    → IsValid t
    → IsOther k event
    → time event ≤ later
    → live later (entry_of (step t event).0 k) ≡ live later (entry_of t k)
unfolding step
live-step_other t (upsert now ip port dip dport expires) k later v other h =
    ap (live later) (entry-upsert t ip port dip dport expires k v ∙ rw other refl)
live-step_other t (touch now ip port expires) k later v other h =
    sym (live-live now later (entry_of (touch_nat_mapping t ip port now expires).0 k) h)
    ∙ ap (live later) (live-touch t ip port now expires k v ∙ rw other refl)
    ∙ live-live now later (entry_of t k) h
live-step_other t (prune now) k later v other h =
    sym (live-live now later (entry_of (prune_nat_table t now).0 k) h)
    ∙ ap (live later) (live-prune t now k v)
    ∙ live-live now later (entry_of t k) h

abbrev pub AllOther : TransparentNatKey ℕ → ℕ → List (Event ℕ) → Type 0
AllOther k later events = All (λ event. IsOther k event × (time event ≤ later)) events

after_events-live :
    (events : List (Event ℕ)) (t : TransparentNatTable ℕ) (k : TransparentNatKey ℕ) (later : ℕ)
    → IsValid t
    → AllOther k later events
    → IsValid (after_events t events)
      × (live later (entry_of (after_events t events) k) ≡ live later (entry_of t k))
unfolding after_events
after_events-live [] t k later v others = (v, refl)
after_events-live (event ∷ events) t k later v ((other, early), others) =
    let (w, same) =
      after_events-live events (step t event).0 k later (step-Valid t event v) others in
    (w, same ∙ live-step_other t event k later v other early)

-- After a request the client's mapping leads to the destination until it expires.
mapped :
    (nat : TransparentNatTable ℕ) (packet : TcpPacketContext) (now later : ℕ)
    → IsValid nat
    → later < nat_expiration now packet.is_closing
    → IsValid (upsert_nat_packet nat packet now).0
      × (destination (
            live later
              (entry_of (upsert_nat_packet nat packet now).0 (packet.src_ip, packet.src_port)))
          ≡ some (packet.dst_ip, packet.dst_port))
unfolding upsert_nat_packet
mapped nat packet now later v soon =
    let expires = nat_expiration now packet.is_closing in
    let key : ℕ × ℕ = (packet.src_ip, packet.src_port) in
    (
      upsert-IsValid nat packet.src_ip packet.src_port packet.dst_ip packet.dst_port expires v,
      rw
          (
            entry-upsert nat packet.src_ip packet.src_port packet.dst_ip packet.dst_port expires key
                v,
            eq_refl key,
            lt→ltb later expires soon,
          )
          refl,
    )

-- The client's packet as the proxy gets it, and the proxy's packet as the client gets it.
pub record IsExchange {A : Type 0} (flag : A → Bool → A) (crates : PacketCrates) {Range : Type 0}
    {F : IpPacketFamily Range} (l : Layout F) (h h' : ℕ) (bytes : Bytes) (addr : A)
    (server : Option FakeDnsState) (nat : TransparentNatTable ℕ) (range : Range)
    (proxy_port tls_port local_dns_port now : ℕ) (packet : TcpPacketContext)
    (events : List (Event ℕ)) (reply : Bytes) (addr' : A) (server' : Option FakeDnsState)
    (later : ℕ) (replied : TcpPacketContext) : Type 0 where
  pub out : Handled A
  pub back : Handled A
  pub redirected :
      handle_request_packet_impl flag crates F h bytes addr server nat range proxy_port tls_port now
      ≡ some out
  pub restored :
      handle_proxy_response_packet_impl flag crates F h' reply addr' server'
        (after_events out.nat events)
        proxy_port
        tls_port
        local_dns_port
        later
      ≡ some back
  pub dispositions : (out.disposition ≡ modified) × (back.disposition ≡ modified)
  pub to_proxy :
      IsRedirected l h bytes out.bytes packet
        (if packet.dst_port == 443 then tls_port else proxy_port)
  pub to_client : IsRestored l h' reply back.bytes replied packet.dst_ip packet.dst_port

-- With a valid NAT table a request to a fake address that resolves is redirected to the proxy, and a packet
-- that a listener sends to the client before the mapping expires is restored: it seems to come from the
-- address and the port that the client asked for. In between, other clients may do anything, and the
-- table may be pruned.
pub request-response :
    {A : Type 0} (flag : A → Bool → A) (crates : PacketCrates) {Range : Type 0}
    {F : IpPacketFamily Range} (l : Layout F) (h h' : ℕ) (bytes : Bytes) (addr : A)
    (server : Option FakeDnsState) (nat : TransparentNatTable ℕ) (range : Range)
    (proxy_port tls_port local_dns_port now : ℕ) (packet : TcpPacketContext) (domain : Text)
    (events : List (Event ℕ)) (reply : Bytes) (addr' : A) (server' : Option FakeDnsState)
    (later : ℕ) (replied : TcpPacketContext)
    → (fixed_end l ≤ h) × (fixed_end l ≤ h')
    → IsAddress l packet.src_ip × IsAddress l packet.dst_ip
    → IsPort packet.dst_port × IsPort proxy_port × IsPort tls_port
    → IsValid nat
    → (e : tcp_packet_context crates F bytes h ≡ some (some packet))
    → IsRequest flag crates l h bytes addr server nat packet e range proxy_port tls_port now domain
    → AllOther (packet.src_ip, packet.src_port) later events
    → later < nat_expiration now packet.is_closing
    → tcp_packet_context crates F reply h' ≡ some (some replied)
    → IsLocal proxy_port tls_port local_dns_port replied.src_port
    → (replied.dst_ip ≡ packet.src_ip) × (replied.dst_port ≡ packet.src_port)
    → IsExchange flag crates l h h' bytes addr server nat range proxy_port tls_port local_dns_port
        now packet events reply addr' server' later replied
request-response flag crates {F} l h h' bytes addr server nat range proxy_port tls_port
      local_dns_port now packet domain events reply addr' server' later replied (behind, behind')
      (small, small') (p, pp, pt) v e r others soon e' listener (same_ip, same_port) =
    let (out, is, m) =
      request_result flag crates l h bytes addr server nat packet e range proxy_port tls_port now
        domain r v in
    let (valid, alive) = mapped nat packet now later v soon in
    let (w, kept) =
      after_events-live events out.nat (packet.src_ip, packet.src_port) later (rw m.new_nat valid)
        others in
    let (back, is', m') =
      response_result flag crates l h' reply addr' server' (after_events out.nat events) replied e'
        proxy_port tls_port local_dns_port later packet.dst_ip packet.dst_port listener w
        (rw (same_ip, same_port) (ap destination kept ∙ rw m.new_nat alive)) in
    record {
      out = out;
      back = back;
      redirected = is;
      restored = is';
      dispositions = (m.is_modified, m'.is_modified);
      to_proxy = rw m.new_bytes (
          rewritten-IsRedirected l h bytes packet (context_lem crates l bytes h packet e) behind
            (if packet.dst_port == 443 then tls_port else proxy_port) small
            (either packet.dst_port pp pt));
      to_client = rw m'.new_bytes (
          rewritten-IsRestored l h' reply replied (context_lem crates l reply h' replied e') behind'
            packet.dst_ip packet.dst_port small' p);
    }
  where
    either :
        (n : ℕ)
        → IsPort proxy_port
        → IsPort tls_port
        → IsPort (if n == 443 then tls_port else proxy_port)
    either n a b = ground arith
