-- ===== src/NatTable.antt =====
-- src/traffic/shared/nat.rs: the transparent NAT table, from a client's address and port to the
-- destination that the client asked for. `Instant` and `Duration` are counts of seconds.
pub mod Laws
pub mod History
mod Tests
use any_mirror.Common.{
  ℕ, ◌+◌, ◌-◌, Bool, true, false, [], Option, none, some, if◌then◌else◌, leb, ltb, KeyEq, Mutex,
  nat_eq, pair_eq,
}
use any_mirror.HashMap.{HashMap, get, insert, remove, retain, len}

abbrev pub nat_entry_established_ttl : ℕ
nat_entry_established_ttl = 300

abbrev pub nat_entry_closing_ttl : ℕ
nat_entry_closing_ttl = 30

pub record TransparentNatEntry (Addr : Type 0) : Type 0 where
  pub destination_ip : Addr
  pub destination_port : ℕ
  pub expires_at : ℕ

abbrev pub TransparentNatKey : Type 0 → Type 0
TransparentNatKey Addr = Addr × ℕ

abbrev pub TransparentNatTable : Type 0 → Type 0
TransparentNatTable Addr = Mutex (HashMap (TransparentNatKey Addr) (TransparentNatEntry Addr))

unfoldable pub new_transparent_nat_table : (Addr : Type 0) → TransparentNatTable Addr
new_transparent_nat_table Addr = record { poisoned = false; value = [] }

-- `retain`'s test in `prune_nat_table`.
abbrev pub is_unexpired : {Addr : Type 0} → ℕ → TransparentNatEntry Addr → Bool
is_unexpired now entry = ltb now entry.expires_at

-- The table, and the number of entries dropped.
unfoldable pub prune_nat_table :
    {Addr : Type 0} → TransparentNatTable Addr → ℕ → TransparentNatTable Addr × ℕ
prune_nat_table nat_table now =
    if nat_table.poisoned
    then (nat_table, 0)
    else (let before = len nat_table.value in
        let kept = retain (is_unexpired now) nat_table.value in
        (record nat_table { value = kept }, before - len kept))

module _ {Addr : Type 0} ⦃e : KeyEq Addr⦄ where
  -- The table, and whether the mapping was stored.
  unfoldable pub upsert_nat_mapping :
      TransparentNatTable Addr → Addr → ℕ → Addr → ℕ → ℕ → TransparentNatTable Addr × Bool
  upsert_nat_mapping nat_table client_ip client_port destination_ip destination_port expires_at =
      if nat_table.poisoned then (nat_table, false) else (
        record nat_table {
          value =
              insert (client_ip, client_port)
                (record {
                  destination_ip = destination_ip;
                  destination_port = destination_port;
                  expires_at = expires_at;
                })
                nat_table.value;
        },
        true,
      )

  -- The table, and the destination of a mapping that has not expired.
  unfoldable pub touch_nat_mapping :
      TransparentNatTable Addr → Addr → ℕ → ℕ → ℕ → TransparentNatTable Addr × Option (Addr × ℕ)
  touch_nat_mapping nat_table client_ip client_port now expires_at =
      if nat_table.poisoned
      then (nat_table, none)
      else elim (get (client_ip, client_port) nat_table.value) [
        | none ↦ (nat_table, none)
        | some entry ↦
            if leb entry.expires_at now
            then (
              record nat_table { value = remove (client_ip, client_port) nat_table.value },
              none,
            )
            else (
              record nat_table {
                value =
                    insert (client_ip, client_port) (record entry { expires_at = expires_at })
                      nat_table.value;
              },
              some (entry.destination_ip, entry.destination_port),
            )
      ]
