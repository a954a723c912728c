-- ===== src/Traffic/Intercept/Tcp/Context.antt =====
-- What src/traffic/shared/intercept/tcp.rs reads of a packet, and what it reads after its writes.
use any_mirror.Traffic.Intercept.Packets.{TcpPacketContext, packet_ports, tcp_packet_context}
use any_mirror.Common.{
  length, get_elem?, ◌>>=◌, nat_eq, pair_eq, list_eq, option_eq, ip_eq, ℕ, ◌+◌, ◌/◌, ◌%◌, ◌^◌, ◌≤◌,
  ◌<◌, ◌≡◌, refl, ap, ap₂, ◌∙◌, ◌⊎◌, inl, inr, some, arith,
}
use any_mirror.Traffic.Bytes.{Bytes, be16, be16_bytes, octets, overwrite, copy_into, at}
use any_mirror.Traffic.Bytes.Laws.{
  length-overwrite, get-overwrite_ne, get-overwrite_self, length-octets, at_same,
}
use any_mirror.Traffic.Family.{PacketCrates, IpPacketFamily}
use any_mirror.Traffic.Family.Laws.{
  read_field, write_field, Layout, copy_into_lem, read_field-overwrite_ne,
  read_field-overwrite_self,
}

-- The facts behind a context.
pub record IsContext {Range : Type 0} {F : IpPacketFamily Range} (l : Layout F) (bytes : Bytes)
    (ip_header_len : ℕ) (packet : TcpPacketContext) : Type 0 where
  pub long : ip_header_len + 20 ≤ length bytes
  pub from : read_field l.source l.width bytes ≡ some packet.src_ip
  pub to : read_field l.destination l.width bytes ≡ some packet.dst_ip
  pub ports : packet_ports bytes ip_header_len ≡ some (some (packet.src_port, packet.dst_port))

pub context_lem :
    (crates : PacketCrates) {Range : Type 0} {F : IpPacketFamily Range} (l : Layout F)
    (bytes : Bytes) (ip_header_len : ℕ) (packet : TcpPacketContext)
    → tcp_packet_context crates F bytes ip_header_len ≡ some (some packet)
    → IsContext l bytes ip_header_len packet
unfolding tcp_packet_context
context_lem crates {F} l bytes ip_header_len packet h =
    ground (arith, l.reads_source bytes, l.reads_destination bytes)

-- The bytes at the ports.
abbrev pub port_at : Bytes → ℕ → ℕ
port_at bytes offset = be16 (at bytes offset) (at bytes (offset + 1))

-- The writes of a handler: an address into a field of the header, and a port behind the header.
abbrev pub rewritten : ℕ → ℕ → ℕ → ℕ → ℕ → Bytes → Bytes
rewritten field width ip offset port bytes =
    overwrite offset (be16_bytes port) (overwrite field (octets width ip) bytes)

pub rewritten_lem :
    (field width ip offset port : ℕ) (bytes : Bytes) (high : ℕ)
    → field + width ≤ length bytes
    → offset + 2 ≤ length bytes
    → high ≡ offset + 2
    → (write_field field width ip bytes >>= copy_into offset high (be16_bytes port))
      ≡ some (rewritten field width ip offset port bytes)
rewritten_lem field width ip offset port bytes high inside fits e =
    rw
      (copy_into_lem field (field + width) (octets width ip) bytes
        (omega (arith, length-octets width ip)) inside)
      (copy_into_lem offset high (be16_bytes port) (overwrite field (octets width ip) bytes)
        (omega arith) (omega (arith, length-overwrite field (octets width ip) bytes)))

pub length-rewritten :
    (field width ip offset port : ℕ) (bytes : Bytes)
    → length (rewritten field width ip offset port bytes) ≡ length bytes
length-rewritten field width ip offset port bytes =
    length-overwrite offset (be16_bytes port) (overwrite field (octets width ip) bytes)
    ∙ length-overwrite field (octets width ip) bytes

module _ (field width ip offset port : ℕ) (bytes : Bytes) (behind : field + width ≤ offset)
    (fits : offset + 2 ≤ length bytes) where
  -- Outside the field and the port nothing changes.
  pub get-rewritten_ne :
      (i : ℕ)
      → (i < field) ⊎ (field + width ≤ i)
      → (i < offset) ⊎ (offset + 2 ≤ i)
      → get_elem? (rewritten field width ip offset port bytes) i ≡ get_elem? bytes i
  get-rewritten_ne i h k =
      get-overwrite_ne offset (be16_bytes port) (overwrite field (octets width ip) bytes) i k
      ∙ get-overwrite_ne field (octets width ip) bytes i (by_octets h)
    where
      by_octets :
          (i < field) ⊎ (field + width ≤ i) → (i < field) ⊎ (field + length (octets width ip) ≤ i)
      by_octets (inl a) = inl a
      by_octets (inr a) = inr (omega (arith, length-octets width ip))

  pub field-rewritten :
      ip < 256 ^ width
      → read_field field width (rewritten field width ip offset port bytes) ≡ some ip
  field-rewritten small =
      read_field-overwrite_ne offset 2 (be16_bytes port) (overwrite field (octets width ip) bytes)
        refl field width (inl behind)
      ∙ read_field-overwrite_self field width ip bytes small (omega arith)

  pub field-rewritten_ne :
      (other width' : ℕ)
      → (other + width' ≤ field) ⊎ (field + width ≤ other)
      → other + width' ≤ offset
      → read_field other width' (rewritten field width ip offset port bytes)
        ≡ read_field other width' bytes
  field-rewritten_ne other width' h k =
      read_field-overwrite_ne offset 2 (be16_bytes port) (overwrite field (octets width ip) bytes)
        refl other width' (inl k)
      ∙ read_field-overwrite_ne field width (octets width ip) bytes (length-octets width ip) other
          width' h

  pub port-rewritten :
      port < 2 ^ 16 → port_at (rewritten field width ip offset port bytes) offset ≡ port
  port-rewritten small =
      let rest = overwrite field (octets width ip) bytes in
      let room : offset + 2 ≤ length rest =
        omega (arith, length-overwrite field (octets width ip) bytes) in
      let new = rewritten field width ip offset port bytes in
      let first : at new offset ≡ port / 256 % 256 =
        ap (at new) {x = offset} {y = offset + 0} (omega arith)
        ∙ at_same new (be16_bytes port) (offset + 0) 0
            (get-overwrite_self offset (be16_bytes port) rest 0 room (omega arith)) in
      let second : at new (offset + 1) ≡ port % 256 =
        at_same new (be16_bytes port) (offset + 1) 1
          (get-overwrite_self offset (be16_bytes port) rest 1 room (omega arith)) in
      rw (first, second) (omega arith)

  at_ne :
      (i : ℕ)
      → (i < field) ⊎ (field + width ≤ i)
      → (i < offset) ⊎ (offset + 2 ≤ i)
      → at (rewritten field width ip offset port bytes) i ≡ at bytes i
  at_ne i h k =
      at_same (rewritten field width ip offset port bytes) bytes i i (get-rewritten_ne i h k)

  pub port-rewritten_ne :
      (other : ℕ)
      → field + width ≤ other
      → (other + 2 ≤ offset) ⊎ (offset + 2 ≤ other)
      → port_at (rewritten field width ip offset port bytes) other ≡ port_at bytes other
  port-rewritten_ne other h (inl k) =
      ap₂ be16 (at_ne other (inr h) (inl (omega arith)))
        (at_ne (other + 1) (inr (omega arith)) (inl (omega arith)))
  port-rewritten_ne other h (inr k) =
      ap₂ be16 (at_ne other (inr h) (inr (omega arith)))
        (at_ne (other + 1) (inr (omega arith)) (inr (omega arith)))
