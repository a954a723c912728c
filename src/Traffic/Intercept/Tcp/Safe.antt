-- ===== src/Traffic/Intercept/Tcp/Safe.antt =====
-- What the handlers of src/traffic/shared/intercept/tcp.rs never do, whatever the packet, the state and
-- the crates are.
use any_mirror.Traffic.Bytes.Reads.{IsSome, of_some}
use any_mirror.Traffic.Intercept.Panics.{context_no_panic, host_info_no_panic}
use any_mirror.Traffic.Intercept.Packets.{
  TcpPacketContext, Log, silent, nat_lock_poisoned, Handled, nat_expiration, resolve_by,
  upsert_nat_packet, host_info, tcp_packet_context,
}
use any_mirror.Common.{
  if◌then◌else◌, Bool-cases, Option-cases, length, ◌==◌, nat_eq, pair_eq, list_eq, option_eq, ip_eq,
  ℕ, ◌+◌, ◌≡◌, refl, ap, ◌≢◌, inl, inr, Bool, false, not, ◌&&◌, ◌||◌, Option, none, some, arith,
}
use any_mirror.Text.{Text}
use any_mirror.NatTable.{TransparentNatTable, touch_nat_mapping}
use any_mirror.Traffic.Bytes.{Bytes}
use any_mirror.Traffic.Dns.{FakeDnsState}
use any_mirror.Traffic.Family.{PacketCrates, IpPacketFamily, range_contains}
use any_mirror.Traffic.Family.Laws.{Layout, read_field_fits}
use any_mirror.Traffic.Intercept.Kinds.{modified}
use any_mirror.Traffic.Intercept.Tcp.{
  passed, with_tcp_packet_context, redirect, redirect_request, request_handler,
  handle_request_packet_impl, dns_tcp_handler, handle_dns_tcp_packet_impl, restore,
  proxy_response_handler, handle_proxy_response_packet_impl,
}
use any_mirror.Traffic.Intercept.Tcp.Context.{
  IsContext, context_lem, rewritten, rewritten_lem, length-rewritten,
}

-- No panic; the length stays; a packet that is not reported as modified is as it was, and a modified one
-- is sent inwards.
abbrev pub Safe : {A : Type 0} → (A → Bool → A) → Bytes → A → Option (Handled A) → Type 0
Safe flag bytes addr none = ⊥
Safe flag bytes addr (some out) =
    (length out.bytes ≡ length bytes)
    × (out.disposition ≡ modified → out.addr ≡ flag addr false)
    × (out.disposition ≢ modified → (out.bytes ≡ bytes) × (out.addr ≡ addr))

module _ {A : Type 0} (flag : A → Bool → A) (crates : PacketCrates) {Range : Type 0}
    {F : IpPacketFamily Range} (l : Layout F) (h : ℕ) (bytes : Bytes) (addr : A)
    (server : Option FakeDnsState) (nat : TransparentNatTable ℕ) where
  -- A redirection writes the destination and the destination's port.
  pub redirect_lem :
      (packet : TcpPacketContext) (port : ℕ)
      → IsContext l bytes h packet
      → redirect flag crates F h bytes packet.src_ip port
        ≡ some (rewritten l.destination l.width packet.src_ip (h + 2) port bytes)
  unfolding redirect
  redirect_lem packet port c = rw (l.writes_destination bytes packet.src_ip) (
      rewritten_lem l.destination l.width packet.src_ip (h + 2) port bytes (h + 4)
        (read_field_fits l.destination l.width bytes packet.dst_ip c.to) (omega (arith, c.long))
        (omega arith))

  -- A restoration writes the source and the source's port.
  pub restore_lem :
      (packet : TcpPacketContext) (ip port : ℕ)
      → IsContext l bytes h packet
      → restore flag crates F h bytes ip port ≡ some (rewritten l.source l.width ip h port bytes)
  unfolding restore
  restore_lem packet ip port c = rw (l.writes_source bytes ip) (
      rewritten_lem l.source l.width ip h port bytes (h + 2)
        (read_field_fits l.source l.width bytes packet.src_ip c.from) (omega (arith, c.long))
        (omega arith))

  -- With a context the handler runs.
  pub with_lem :
      (handler : TcpPacketContext → Option (Handled A)) (packet : TcpPacketContext)
      → tcp_packet_context crates F bytes h ≡ some (some packet)
      → with_tcp_packet_context flag crates F h bytes addr server nat handler ≡ handler packet
  with_lem handler packet e =
      ap
        (λ o. elim o [
          | none ↦ none
          | some context ↦ elim context [
            | none ↦ some (passed flag crates F h bytes addr server nat silent)
            | some found ↦ handler found
          ]
        ])
        e

  passed-Safe :
      (s : Option FakeDnsState) (n : TransparentNatTable ℕ) (log : Log)
      → Safe flag bytes addr (some (passed flag crates F h bytes addr s n log))
  passed-Safe s n log = ground arith

  with-Safe :
      (handler : TcpPacketContext → Option (Handled A))
      → ((packet : TcpPacketContext)
          → IsContext l bytes h packet
          → Safe flag bytes addr (handler packet))
      → Safe flag bytes addr (with_tcp_packet_context flag crates F h bytes addr server nat handler)
  with-Safe handler safe =
      by_context (tcp_packet_context crates F bytes h) refl (context_no_panic crates F bytes h)
    where
      by_context :
          (o : Option (Option TcpPacketContext))
          → tcp_packet_context crates F bytes h ≡ o
          → IsSome o
          → Safe flag bytes addr (elim o [
            | none ↦ none
            | some context ↦ elim context [
              | none ↦ some (passed flag crates F h bytes addr server nat silent)
              | some packet ↦ handler packet
            ]
          ])
      by_context none e s = s
      by_context (some none) e s = passed-Safe server nat silent
      by_context (some (some packet)) e s = safe packet (context_lem crates l bytes h packet e)

  pub redirect_request-Safe :
      (s : Option FakeDnsState) (proxy_port tls_port now : ℕ) (domain : Text)
      (packet : TcpPacketContext)
      → IsContext l bytes h packet
      → Safe flag bytes addr
          (redirect_request flag crates F h bytes addr s nat proxy_port tls_port now domain packet)
  unfolding redirect_request
  redirect_request-Safe s proxy_port tls_port now domain packet c =
      elim (Bool-cases (upsert_nat_packet nat packet now).1) [
        | inr failed ↦
            rw (failed, redirect_request)
              (passed-Safe s (upsert_nat_packet nat packet now).0 nat_lock_poisoned)
        | inl stored ↦
            let target = if packet.dst_port == 443 then tls_port else proxy_port in
            let after = rewritten l.destination l.width packet.src_ip (h + 2) target bytes in
            let (host, sniffed) =
              of_some (host_info crates.from_utf8 after (h + packet.tcp_header_len))
                (host_info_no_panic crates.from_utf8 after (h + packet.tcp_header_len)) in
            rw (stored, redirect_request, redirect_lem packet target c, sniffed)
              (
                length-rewritten l.destination l.width packet.src_ip (h + 2) target bytes,
                λ _. refl,
                λ ne. absurd (ne refl),
              )
      ]

  module _ (packet : TcpPacketContext) (c : IsContext l bytes h packet) where
    request_handler-Safe :
        (range : Range) (proxy_port tls_port now : ℕ)
        → Safe flag bytes addr (
            request_handler flag crates F h bytes addr server nat range proxy_port tls_port now
              packet)
    unfolding request_handler
    request_handler-Safe range proxy_port tls_port now =
        let found = resolve_by server (F.to_ip_addr packet.dst_ip) now in
        elim (Bool-cases (
          packet.dst_port == proxy_port
          || packet.dst_port == tls_port
          || not (range_contains F range packet.dst_ip))) [
            | inl other ↦ rw (other, request_handler) (passed-Safe server nat silent)
            | inr ours ↦ elim (Option-cases found.1) [
              | inl e ↦ rw (ours, request_handler, e) (passed-Safe found.0 nat silent)
              | inr (domain, e) ↦
                  rw (ours, request_handler, e)
                    (redirect_request-Safe found.0 proxy_port tls_port now domain packet c)
            ]
          ]

    dns_handler-Safe :
        (local_dns_port now : ℕ)
        → Safe flag bytes addr
            (dns_tcp_handler flag crates F h bytes addr server nat local_dns_port now packet)
    unfolding dns_tcp_handler
    dns_handler-Safe local_dns_port now =
        elim (Bool-cases (not (packet.dst_port == 53) || packet.src_port == local_dns_port)) [
          | inl other ↦ rw (other, dns_tcp_handler) (passed-Safe server nat silent)
          | inr ours ↦ elim (Bool-cases (upsert_nat_packet nat packet now).1) [
            | inr failed ↦
                rw (ours, dns_tcp_handler, failed)
                  (passed-Safe server (upsert_nat_packet nat packet now).0 nat_lock_poisoned)
            | inl stored ↦
                rw (ours, dns_tcp_handler, stored, redirect_lem packet local_dns_port c)
                  (
                    length-rewritten l.destination l.width packet.src_ip (h + 2) local_dns_port
                        bytes,
                    λ _. refl,
                    λ ne. absurd (ne refl),
                  )
          ]
        ]

    response_handler-Safe :
        (proxy_port tls_port local_dns_port now : ℕ)
        → Safe flag bytes addr (
            proxy_response_handler flag crates F h bytes addr server nat proxy_port tls_port
              local_dns_port now packet)
    unfolding proxy_response_handler
    response_handler-Safe proxy_port tls_port local_dns_port now =
        let touched =
          touch_nat_mapping nat packet.dst_ip packet.dst_port now
            (nat_expiration now packet.is_closing) in
        elim (Bool-cases (
          not (packet.src_port == proxy_port)
          && (not (packet.src_port == tls_port) && not (packet.src_port == local_dns_port)))) [
            | inl other ↦ rw (other, proxy_response_handler) (passed-Safe server nat silent)
            | inr ours ↦ elim (Option-cases touched.1) [
              | inl e ↦ rw (ours, proxy_response_handler, e) (passed-Safe server touched.0 silent)
              | inr ((ip, port), e) ↦
                  rw (ours, proxy_response_handler, e, restore_lem packet ip port c)
                    (
                      length-rewritten l.source l.width ip h port bytes,
                      λ _. refl,
                      λ ne. absurd (ne refl),
                    )
            ]
          ]

  pub request-Safe :
      (range : Range) (proxy_port tls_port now : ℕ)
      → Safe flag bytes addr (
          handle_request_packet_impl flag crates F h bytes addr server nat range proxy_port tls_port
            now)
  unfolding handle_request_packet_impl request_handler
  request-Safe range proxy_port tls_port now =
      with-Safe
        (request_handler flag crates F h bytes addr server nat range proxy_port tls_port now)
        (λ packet c. request_handler-Safe packet c range proxy_port tls_port now)

  pub dns-Safe :
      (local_dns_port now : ℕ)
      → Safe flag bytes addr
          (handle_dns_tcp_packet_impl flag crates F h bytes addr server nat local_dns_port now)
  unfolding handle_dns_tcp_packet_impl dns_tcp_handler
  dns-Safe local_dns_port now =
      with-Safe (dns_tcp_handler flag crates F h bytes addr server nat local_dns_port now)
        (λ packet c. dns_handler-Safe packet c local_dns_port now)

  pub response-Safe :
      (proxy_port tls_port local_dns_port now : ℕ)
      → Safe flag bytes addr (
          handle_proxy_response_packet_impl flag crates F h bytes addr server nat proxy_port
            tls_port local_dns_port now)
  unfolding handle_proxy_response_packet_impl proxy_response_handler
  response-Safe proxy_port tls_port local_dns_port now =
      with-Safe
        (proxy_response_handler flag crates F h bytes addr server nat proxy_port tls_port
          local_dns_port now)
        (λ packet c. response_handler-Safe packet c proxy_port tls_port local_dns_port now)
