-- ===== src/NatTable/Laws.antt =====
-- What each operation of the NAT table does to the mappings that have not expired.
use any_mirror.Common.{
  ltb, if◌then◌else◌, Bool-cases, Option-cases, KeyEq, ◌==◌, nat_eq, pair_beq_iff, pair_eq, list_eq,
  option_eq, ip_eq, ℕ, ◌≤◌, ◌≡◌, refl, ap, subst, inl, inr, false, Option, none, some, arith,
}
use any_mirror.HashMap.{
  get-insert, get-remove, insert-IsUnique, remove-IsUnique, get-retain, retain-IsUnique, get,
  IsUnique,
}
use any_mirror.NatTable.{
  TransparentNatEntry, TransparentNatKey, TransparentNatTable, is_unexpired, prune_nat_table,
  upsert_nat_mapping, touch_nat_mapping,
}

-- The mapping of a client that is alive at a time.
abbrev pub live :
    {Addr : Type 0} → ℕ → Option (TransparentNatEntry Addr) → Option (TransparentNatEntry Addr)
live now none = none
live now (some entry) = if ltb now entry.expires_at then some entry else none

abbrev pub destination : {Addr : Type 0} → Option (TransparentNatEntry Addr) → Option (Addr × ℕ)
destination none = none
destination (some entry) = some (entry.destination_ip, entry.destination_port)

-- A mapping after a use at `now`: a live one gets a new expiry.
abbrev pub refreshed :
    {Addr : Type 0} → ℕ → ℕ → Option (TransparentNatEntry Addr) → Option (TransparentNatEntry Addr)
refreshed now expires none = none
refreshed now expires (some entry) =
    if ltb now entry.expires_at then some (record entry { expires_at = expires }) else some entry

-- A mapping that is dead at a time stays dead.
pub live-live :
    {Addr : Type 0} (t now : ℕ) (o : Option (TransparentNatEntry Addr))
    → t ≤ now
    → live now (live t o) ≡ live now o
live-live t now none h = refl
live-live t now (some entry) h = ground arith

module _ {Addr : Type 0} ⦃e : KeyEq Addr⦄ where
  -- What the table holds for a client.
  abbrev pub entry_of :
      TransparentNatTable Addr → TransparentNatKey Addr → Option (TransparentNatEntry Addr)
  entry_of t k = get k t.value

  -- An unpoisoned table in which no client has two entries.
  pub record IsValid (t : TransparentNatTable Addr) : Type 0 where
    pub unpoisoned : t.poisoned ≡ false
    pub unique : IsUnique t.value

  pub touch_lem :
      (t : TransparentNatTable Addr) (ip : Addr) (port now expires : ℕ)
      → IsValid t
      → (touch_nat_mapping t ip port now expires).1 ≡ destination (live now (entry_of t (ip, port)))
  unfolding touch_nat_mapping
  touch_lem t ip port now expires v = ground arith

  pub upsert-IsValid :
      (t : TransparentNatTable Addr) (ip : Addr) (port : ℕ) (dip : Addr) (dport expires : ℕ)
      → IsValid t
      → IsValid (upsert_nat_mapping t ip port dip dport expires).0
  unfolding upsert_nat_mapping
  upsert-IsValid t ip port dip dport expires v = ground (
    arith,
    insert-IsUnique (ip, port)
        (record { destination_ip = dip; destination_port = dport; expires_at = expires }) t.value,
  )

  pub touch-IsValid :
      (t : TransparentNatTable Addr) (ip : Addr) (port now expires : ℕ)
      → IsValid t
      → IsValid (touch_nat_mapping t ip port now expires).0
  unfolding touch_nat_mapping
  touch-IsValid t ip port now expires v = elim (Option-cases (entry_of t (ip, port))) [
    | inl miss ↦ ground arith
    | inr (entry, hit) ↦ ground (
      arith,
      remove-IsUnique (ip, port) t.value,
      insert-IsUnique (ip, port) (record entry { expires_at = expires }) t.value,
    )
  ]

  pub prune-IsValid :
      (t : TransparentNatTable Addr) (now : ℕ) → IsValid t → IsValid (prune_nat_table t now).0
  unfolding prune_nat_table
  prune-IsValid t now v = ground (arith, retain-IsUnique (is_unexpired now) t.value)

  -- What the mappings read after each operation.
  pub entry-upsert :
      (t : TransparentNatTable Addr) (ip : Addr) (port : ℕ) (dip : Addr) (dport expires : ℕ)
      (k : TransparentNatKey Addr)
      → IsValid t
      → entry_of (upsert_nat_mapping t ip port dip dport expires).0 k ≡ (
          if (ip, port) == k
          then some
              (record { destination_ip = dip; destination_port = dport; expires_at = expires })
          else entry_of t k)
  unfolding upsert_nat_mapping
  entry-upsert t ip port dip dport expires k v = rw v.unpoisoned (get-insert k (ip, port) _ t.value)

  pub live-prune :
      (t : TransparentNatTable Addr) (now : ℕ) (k : TransparentNatKey Addr)
      → IsValid t
      → live now (entry_of (prune_nat_table t now).0 k) ≡ live now (entry_of t k)
  unfolding prune_nat_table
  live-prune t now k v = ground (arith, get-retain (is_unexpired now) k t.value)

  live-touch_self :
      (t : TransparentNatTable Addr) (ip : Addr) (port now expires : ℕ)
      → IsValid t
      → live now (entry_of (touch_nat_mapping t ip port now expires).0 (ip, port))
        ≡ live now (refreshed now expires (entry_of t (ip, port)))
  unfolding touch_nat_mapping
  live-touch_self t ip port now expires v = elim (Option-cases (entry_of t (ip, port))) [
    | inl miss ↦ ground arith
    | inr (entry, hit) ↦ ground (
      arith,
      e.same_iff ip ip,
      get-remove (ip, port) (ip, port) t.value,
      get-insert (ip, port) (ip, port) (record entry { expires_at = expires }) t.value,
    )
  ]

  live-touch_ne :
      (t : TransparentNatTable Addr) (ip : Addr) (port now expires : ℕ) (k : TransparentNatKey Addr)
      → IsValid t
      → ((ip, port) == k) ≡ false
      → entry_of (touch_nat_mapping t ip port now expires).0 k ≡ entry_of t k
  unfolding touch_nat_mapping
  live-touch_ne t ip port now expires k v ne = elim (Option-cases (entry_of t (ip, port))) [
    | inl miss ↦ ground arith
    | inr (entry, hit) ↦ ground (
      arith,
      get-remove k (ip, port) t.value,
      get-insert k (ip, port) (record entry { expires_at = expires }) t.value,
    )
  ]

  pub live-touch :
      (t : TransparentNatTable Addr) (ip : Addr) (port now expires : ℕ) (k : TransparentNatKey Addr)
      → IsValid t
      → live now (entry_of (touch_nat_mapping t ip port now expires).0 k)
        ≡ live now (if (ip, port) == k then refreshed now expires (entry_of t k) else entry_of t k)
  live-touch t ip port now expires k v = elim (Bool-cases ((ip, port) == k)) [
    | inl same ↦ rw same (
        subst
          (λ j.
            live now (entry_of (touch_nat_mapping t ip port now expires).0 j)
            ≡ live now (refreshed now expires (entry_of t j)))
          ((pair_beq_iff (ip, port) k).0 same) (live-touch_self t ip port now expires v))
    | inr other ↦ rw other (ap (live now) (live-touch_ne t ip port now expires k v other))
  ]
