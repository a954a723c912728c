-- ===== src/Traffic/Intercept/Tcp/Response.antt =====
-- A packet of the local proxy in src/traffic/shared/intercept/tcp.rs, restored for the client.
use any_mirror.Traffic.Bytes.Reads.{of_some}
use any_mirror.Traffic.Intercept.Panics.{host_info_no_panic}
use any_mirror.Traffic.Intercept.Packets.{
  TcpPacketContext, silent, Handled, packet_ports, nat_expiration, resolve_by, upsert_nat_packet,
  host_info, request_log, tcp_packet_context,
}
use any_mirror.Common.{
  if◌then◌else◌, length, get_elem?, ◌==◌, nat_eq, pair_eq, list_eq, option_eq, ip_eq, ℕ, ◌+◌, ◌≤◌,
  ◌<◌, ◌≡◌, refl, ap₂, ◌∙◌, ◌≢◌, ◌⊎◌, inr, Bool, true, false, not, ◌&&◌, ◌||◌, Option, some, arith,
}
use any_mirror.NatTable.{TransparentNatTable, upsert_nat_mapping, touch_nat_mapping}
use any_mirror.NatTable.Laws.{live, destination, entry_of, IsValid, touch_lem}
use any_mirror.Text.{Text}
use any_mirror.Traffic.Bytes.{Bytes}
use any_mirror.Traffic.Dns.{FakeDnsState}
use any_mirror.Traffic.Family.{PacketCrates, IpPacketFamily, range_contains}
use any_mirror.Traffic.Family.Laws.{Layout, fixed_end}
use any_mirror.Traffic.Intercept.Kinds.{modified}
use any_mirror.Traffic.Intercept.Tcp.{
  redirect_request, request_handler, handle_request_packet_impl, proxy_response_handler,
  handle_proxy_response_packet_impl,
}
use any_mirror.Traffic.Intercept.Tcp.Context.{
  IsContext, context_lem, rewritten, length-rewritten, get-rewritten_ne, field-rewritten,
  field-rewritten_ne, port-rewritten, port-rewritten_ne,
}
use any_mirror.Traffic.Intercept.Tcp.Safe.{redirect_lem, restore_lem, with_lem}
use any_mirror.Traffic.Intercept.Tcp.Request.{IsAddress, IsPort, packet_ports_lem, ports_of}

-- What the client sees of a restored packet: it comes from a given address and port; all else is as it was.
pub record IsRestored {Range : Type 0} {F : IpPacketFamily Range} (l : Layout F) (h : ℕ)
    (bytes after : Bytes) (packet : TcpPacketContext) (ip port : ℕ) : Type 0 where
  pub from_original : F.read_src_ip after ≡ some ip
  pub same_destination : F.read_dst_ip after ≡ some packet.dst_ip
  pub original_ports : packet_ports after h ≡ some (some (port, packet.dst_port))
  pub others_kept :
      (i : ℕ)
      → (i < l.source) ⊎ (l.source + l.width ≤ i)
      → (i < h) ⊎ (h + 2 ≤ i)
      → get_elem? after i ≡ get_elem? bytes i

module _ {Range : Type 0} {F : IpPacketFamily Range} (l : Layout F) (h : ℕ) (bytes : Bytes)
    (packet : TcpPacketContext) (c : IsContext l bytes h packet) (behind : fixed_end l ≤ h) where
  pub rewritten-IsRestored :
      (ip port : ℕ)
      → IsAddress l ip
      → IsPort port
      → IsRestored l h bytes (rewritten l.source l.width ip h port bytes) packet ip port
  rewritten-IsRestored ip port small narrow =
      let after = rewritten l.source l.width ip h port bytes in
      let room : h + 2 ≤ length bytes = omega (arith, c.long) in
      let past : l.source + l.width ≤ h = omega (arith, l.apart) in
      let n = length-rewritten l.source l.width ip h port bytes in
      record {
        from_original =
            l.reads_source after ∙ field-rewritten l.source l.width ip h port bytes past room small;
        same_destination =
            l.reads_destination after
            ∙ field-rewritten_ne l.source l.width ip h port bytes past room l.destination l.width
                (inr l.apart) behind
            ∙ c.to;
        original_ports =
            packet_ports_lem after h (omega (arith, n, c.long))
            ∙ ap₂ (λ (a b : ℕ). some (some (a, b)))
                (port-rewritten l.source l.width ip h port bytes past room narrow)
                (port-rewritten_ne l.source l.width ip h port bytes past room (h + 2) (omega arith)
                    (inr (omega arith))
                  ∙ (ports_of l h bytes packet c behind).1);
        others_kept = λ i a b. get-rewritten_ne l.source l.width ip h port bytes past room i a b;
      }

-- A table that is not poisoned stores the mapping of a packet.
upsert_stored :
    (nat : TransparentNatTable ℕ) (packet : TcpPacketContext) (now : ℕ)
    → nat.poisoned ≡ false
    → (upsert_nat_packet nat packet now).1 ≡ true
unfolding upsert_nat_packet upsert_nat_mapping
upsert_stored nat packet now u = rw u refl

-- The packet comes from one of the program's own listeners.
abbrev pub IsLocal : ℕ → ℕ → ℕ → ℕ → Type 0
IsLocal proxy_port tls_port local_dns_port port =
    (port ≡ proxy_port) ⊎ ((port ≡ tls_port) ⊎ (port ≡ local_dns_port))

-- A handler's result for a modified packet.
pub record IsModified {A : Type 0} (flag : A → Bool → A) (addr : A) (bytes : Bytes)
    (nat : TransparentNatTable ℕ) (out : Handled A) : Type 0 where
  pub is_modified : out.disposition ≡ modified
  pub inwards : out.addr ≡ flag addr false
  pub new_bytes : out.bytes ≡ bytes
  pub new_nat : out.nat ≡ nat

module _ {A : Type 0} (flag : A → Bool → A) (crates : PacketCrates) {Range : Type 0}
    {F : IpPacketFamily Range} (l : Layout F) (h : ℕ) (bytes : Bytes) (addr : A)
    (server : Option FakeDnsState) (nat : TransparentNatTable ℕ) (packet : TcpPacketContext)
    (e : tcp_packet_context crates F bytes h ≡ some (some packet)) where
  -- A packet of a listener for a client with a mapping that is alive is restored.
  pub response_result :
      (proxy_port tls_port local_dns_port now ip port : ℕ)
      → IsLocal proxy_port tls_port local_dns_port packet.src_port
      → IsValid nat
      → destination (live now (entry_of nat (packet.dst_ip, packet.dst_port))) ≡ some (ip, port)
      → (out : Handled A) × (handle_proxy_response_packet_impl flag crates F h bytes addr server nat
            proxy_port tls_port local_dns_port now
          ≡ some out)
        × IsModified flag addr
            (rewritten l.source l.width ip h port bytes)
            (touch_nat_mapping nat packet.dst_ip packet.dst_port now
              (nat_expiration now packet.is_closing)).0
            out
  unfolding handle_proxy_response_packet_impl
  response_result proxy_port tls_port local_dns_port now ip port listener v alive =
      let touched =
        touch_nat_mapping nat packet.dst_ip packet.dst_port now
          (nat_expiration now packet.is_closing) in
      let c = context_lem crates l bytes h packet e in
      let found : touched.1 ≡ some (ip, port) =
        touch_lem nat packet.dst_ip packet.dst_port now (nat_expiration now packet.is_closing) v
        ∙ alive in
      let ours : (not (packet.src_port == proxy_port)
            && (not (packet.src_port == tls_port) && not (packet.src_port == local_dns_port)))
          ≡ false =
        ground (arith, listener) in
      (
        record {
          bytes = rewritten l.source l.width ip h port bytes;
          addr = flag addr false;
          server = server;
          nat = touched.0;
          disposition = modified;
          log = silent;
        },
        with_lem flag crates l h bytes addr server nat
              (proxy_response_handler flag crates F h bytes addr server nat proxy_port tls_port
                local_dns_port now)
              packet e
            ∙ rw
                (
                  ours,
                  proxy_response_handler,
                  found,
                  restore_lem flag crates l h bytes addr server nat packet ip port c,
                )
                refl,
        record { is_modified = refl; inwards = refl; new_bytes = refl; new_nat = refl },
      )

  -- What a request has to meet to be redirected to the proxy.
  pub record IsRequest (range : Range) (proxy_port tls_port now : ℕ) (domain : Text) : Type 0 where
    pub not_proxy : packet.dst_port ≢ proxy_port
    pub not_tls : packet.dst_port ≢ tls_port
    pub captured : range_contains F range packet.dst_ip ≡ true
    pub resolves : (resolve_by server (F.to_ip_addr packet.dst_ip) now).1 ≡ some domain

  abbrev pub target : ℕ → ℕ → ℕ
  target proxy_port tls_port = if packet.dst_port == 443 then tls_port else proxy_port

  -- A request to a fake address that resolves is redirected.
  pub request_result :
      (range : Range) (proxy_port tls_port now : ℕ) (domain : Text)
      → IsRequest range proxy_port tls_port now domain
      → IsValid nat
      → (out : Handled A) × (handle_request_packet_impl flag crates F h bytes addr server nat range
            proxy_port tls_port now
          ≡ some out)
        × IsModified flag addr
            (rewritten l.destination l.width packet.src_ip
              (h + 2)
              (target proxy_port tls_port)
              bytes)
            (upsert_nat_packet nat packet now).0
            out
  unfolding handle_request_packet_impl
  request_result range proxy_port tls_port now domain r v =
      let after =
        rewritten l.destination l.width packet.src_ip (h + 2) (target proxy_port tls_port) bytes in
      let c = context_lem crates l bytes h packet e in
      let (host, sniffed) =
        of_some (host_info crates.from_utf8 after (h + packet.tcp_header_len))
          (host_info_no_panic crates.from_utf8 after (h + packet.tcp_header_len)) in
      let ours : (packet.dst_port == proxy_port
            || packet.dst_port == tls_port
            || not (range_contains F range packet.dst_ip))
          ≡ false =
        ground (arith, r.not_proxy, r.not_tls, r.captured) in
      (
        record {
          bytes = after;
          addr = flag addr false;
          server = (resolve_by server (F.to_ip_addr packet.dst_ip) now).0;
          nat = (upsert_nat_packet nat packet now).0;
          disposition = modified;
          log = request_log domain host packet.syn (target proxy_port tls_port);
        },
        with_lem flag crates l h bytes addr server nat
              (request_handler flag crates F h bytes addr server nat range proxy_port tls_port now)
              packet e
            ∙ rw
                (
                  ours,
                  request_handler,
                  r.resolves,
                  upsert_stored nat packet now v.unpoisoned,
                  redirect_request,
                  redirect_lem flag crates l h bytes addr server nat packet
                      (target proxy_port tls_port) c,
                  sniffed,
                )
                refl,
        record { is_modified = refl; inwards = refl; new_bytes = refl; new_nat = refl },
      )
