-- ===== src/Traffic/Intercept/Tcp/Request.antt =====
-- A request to a fake address in src/traffic/shared/intercept/tcp.rs, redirected to the local proxy.
use any_mirror.Traffic.Bytes.Reads.{get_at}
use any_mirror.Traffic.Intercept.Packets.{TcpPacketContext, packet_ports}
use any_mirror.Common.{
  leb, length, get_elem?, nat_eq, pair_eq, list_eq, option_eq, ip_eq, ℕ, ◌+◌, ◌^◌, ◌≤◌, ◌<◌, ◌≡◌,
  refl, ap₂, ◌∙◌, ◌⊎◌, inl, inr, true, some, arith,
}
use any_mirror.Traffic.Bytes.{Bytes}
use any_mirror.Traffic.Family.{IpPacketFamily}
use any_mirror.Traffic.Family.Laws.{Layout, fixed_end}
use any_mirror.Traffic.Intercept.Tcp.Context.{
  IsContext, port_at, rewritten, length-rewritten, get-rewritten_ne, field-rewritten,
  field-rewritten_ne, port-rewritten, port-rewritten_ne,
}

-- Every address of the width can be read back.
abbrev pub IsAddress : {Range : Type 0} → {F : IpPacketFamily Range} → Layout F → ℕ → Type 0
IsAddress l ip = ip < 256 ^ l.width

abbrev pub IsPort : ℕ → Type 0
IsPort port = port < 2 ^ 16

-- What the proxy sees of a redirected packet: it comes from the client, and it is for the client's own
-- address and a local port; all but the destination and its port is as it was.
pub record IsRedirected {Range : Type 0} {F : IpPacketFamily Range} (l : Layout F) (h : ℕ)
    (bytes after : Bytes) (packet : TcpPacketContext) (port : ℕ) : Type 0 where
  pub same_source : F.read_src_ip after ≡ some packet.src_ip
  pub to_client : F.read_dst_ip after ≡ some packet.src_ip
  pub new_ports : packet_ports after h ≡ some (some (packet.src_port, port))
  pub rest_kept :
      (i : ℕ)
      → (i < l.destination) ⊎ (fixed_end l ≤ i)
      → (i < h + 2) ⊎ (h + 4 ≤ i)
      → get_elem? after i ≡ get_elem? bytes i

pub packet_ports_lem :
    (bytes : Bytes) (h : ℕ)
    → h + 4 ≤ length bytes
    → packet_ports bytes h ≡ some (some (port_at bytes h, port_at bytes (h + 2)))
unfolding packet_ports
packet_ports_lem bytes h fits =
    let e : h + 2 + 1 ≡ h + 3 = omega arith in
    let long : leb (h + 4) (length bytes) ≡ true = ground (arith, fits) in
    rw
      (
        e,
        long,
        get_at bytes h (omega (arith, fits)),
        get_at bytes (h + 1) (omega (arith, fits)),
        get_at bytes (h + 2) (omega (arith, fits)),
        get_at bytes (h + 3) (omega (arith, fits)),
      )
      refl

module _ {Range : Type 0} {F : IpPacketFamily Range} (l : Layout F) (h : ℕ) (bytes : Bytes)
    (packet : TcpPacketContext) (c : IsContext l bytes h packet) (behind : fixed_end l ≤ h) where
  -- The ports that the context holds.
  pub ports_of : (port_at bytes h ≡ packet.src_port) × (port_at bytes (h + 2) ≡ packet.dst_port)
  ports_of = ground (arith, packet_ports_lem bytes h, c.ports, c.long)

  pub rewritten-IsRedirected :
      (port : ℕ)
      → IsAddress l packet.src_ip
      → IsPort port
      → IsRedirected l h bytes
          (rewritten l.destination l.width packet.src_ip (h + 2) port bytes)
          packet
          port
  rewritten-IsRedirected port small narrow =
      let after = rewritten l.destination l.width packet.src_ip (h + 2) port bytes in
      let room : h + 2 + 2 ≤ length bytes = omega (arith, c.long) in
      let past : l.destination + l.width ≤ h + 2 = omega arith in
      let n = length-rewritten l.destination l.width packet.src_ip (h + 2) port bytes in
      record {
        same_source =
            l.reads_source after
            ∙ field-rewritten_ne l.destination l.width packet.src_ip (h + 2) port bytes past room
                l.source l.width (inl l.apart) (omega (arith, l.apart))
            ∙ c.from;
        to_client =
            l.reads_destination after
            ∙ field-rewritten l.destination l.width packet.src_ip (h + 2) port bytes past room
                small;
        new_ports =
            packet_ports_lem after h (omega (arith, n, c.long))
            ∙ ap₂ (λ (a b : ℕ). some (some (a, b)))
                (port-rewritten_ne l.destination l.width packet.src_ip (h + 2) port bytes past room
                    h behind (inl (omega arith))
                  ∙ ports_of.0)
                (port-rewritten l.destination l.width packet.src_ip (h + 2) port bytes past room
                  narrow);
        rest_kept = λ i a b.
            get-rewritten_ne l.destination l.width packet.src_ip (h + 2) port bytes past room i a
              (shift i b);
      }
    where
      shift : (i : ℕ) → (i < h + 2) ⊎ (h + 4 ≤ i) → (i < h + 2) ⊎ (h + 2 + 2 ≤ i)
      shift i (inl a) = inl a
      shift i (inr a) = inr (omega arith)
