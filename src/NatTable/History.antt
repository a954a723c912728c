-- ===== src/NatTable/History.antt =====
-- The NAT table against an ideal one that never drops a mapping: what clients can observe of the
-- lazy removal in `touch_nat_mapping` and of the periodic `prune_nat_table`.
use any_mirror.Common.{
  ℕ, ◌≤◌, ◌≡◌, refl, Bool, true, List, [], ◌∷◌, Option, none, some, if◌then◌else◌, KeyEq, ◌==◌,
  arith, nat_eq, pair_eq, ap₂, ap, sym, ◌∙◌,
}
use any_mirror.NatTable.{
  TransparentNatEntry, TransparentNatKey, TransparentNatTable, prune_nat_table, upsert_nat_mapping,
  touch_nat_mapping,
}
use any_mirror.NatTable.Laws.{
  live, destination, refreshed, entry_of, IsValid, live-live, touch_lem, upsert-IsValid,
  touch-IsValid, prune-IsValid, entry-upsert, live-prune, live-touch,
}

-- A call, with the time at which it is made.
pub data Event (Addr : Type 0) : Type 0 where
  upsert : ℕ → Addr → ℕ → Addr → ℕ → ℕ → Event Addr
  touch : ℕ → Addr → ℕ → ℕ → Event Addr
  prune : ℕ → Event Addr

abbrev pub time : {Addr : Type 0} → Event Addr → ℕ
time (upsert now _ _ _ _ _) = now
time (touch now _ _ _) = now
time (prune now) = now

pub data Reply (Addr : Type 0) : Type 0 where
  stored : Bool → Reply Addr
  answered : Option (Addr × ℕ) → Reply Addr
  pruned : Reply Addr

-- The clock does not run backwards.
abbrev pub Ascending : {Addr : Type 0} → ℕ → List (Event Addr) → Type 0
Ascending now [] = Unit
Ascending now (ev ∷ evs) = (now ≤ time ev) × Ascending (time ev) evs

abbrev pub Ledger : Type 0 → Type 0
Ledger Addr = TransparentNatKey Addr → Option (TransparentNatEntry Addr)

module _ {Addr : Type 0} ⦃e : KeyEq Addr⦄ where
  unfoldable pub step :
      TransparentNatTable Addr → Event Addr → TransparentNatTable Addr × Reply Addr
  step t (upsert now ip port dip dport expires) =
      let (t', done) = upsert_nat_mapping t ip port dip dport expires in (t', stored done)
  step t (touch now ip port expires) =
      let (t', found) = touch_nat_mapping t ip port now expires in (t', answered found)
  step t (prune now) = ((prune_nat_table t now).0, pruned)

  unfoldable pub run : TransparentNatTable Addr → List (Event Addr) → List (Reply Addr)
  run t [] = []
  run t (ev ∷ evs) = let (t', reply) = step t ev in reply ∷ run t' evs

  -- The ideal table holds every mapping for ever, and looks at the expiry only when asked.
  unfoldable pub ideal_step : Ledger Addr → Event Addr → Ledger Addr × Reply Addr
  ideal_step l (upsert now ip port dip dport expires) = (
    λ k.
        if (ip, port) == k
        then some (record { destination_ip = dip; destination_port = dport; expires_at = expires })
        else l k,
    stored true,
  )
  ideal_step l (touch now ip port expires) = (
    λ k. if (ip, port) == k then refreshed now expires (l k) else l k,
    answered (destination (live now (l (ip, port)))),
  )
  ideal_step l (prune now) = (l, pruned)

  unfoldable pub ideal_run : Ledger Addr → List (Event Addr) → List (Reply Addr)
  ideal_run l [] = []
  ideal_run l (ev ∷ evs) = let (l', reply) = ideal_step l ev in reply ∷ ideal_run l' evs

  -- The table and the ledger hold the same live mappings at a time.
  abbrev pub Agrees : ℕ → TransparentNatTable Addr → Ledger Addr → Type 0
  Agrees now t l = (k : TransparentNatKey Addr) → live now (entry_of t k) ≡ live now (l k)

  Agrees-later :
      (now later : ℕ) (t : TransparentNatTable Addr) (l : Ledger Addr)
      → now ≤ later
      → Agrees now t l
      → Agrees later t l
  Agrees-later now later t l h a k = sym_live ∙ ap (live later) (a k) ∙ live-live now later (l k) h
    where
      sym_live : live later (entry_of t k) ≡ live later (live now (entry_of t k))
      sym_live = sym (live-live now later (entry_of t k) h)

  live-refreshed :
      (now expires : ℕ) (o p : Option (TransparentNatEntry Addr))
      → live now o ≡ live now p
      → live now (refreshed now expires o) ≡ live now (refreshed now expires p)
  live-refreshed now expires none none h = refl
  live-refreshed now expires none (some q) h = ground arith
  live-refreshed now expires (some o) none h = ground arith
  live-refreshed now expires (some o) (some q) h = ground arith

  step-IsValid :
      (t : TransparentNatTable Addr) (ev : Event Addr) → IsValid t → IsValid (step t ev).0
  unfolding step
  step-IsValid t (upsert now ip port dip dport expires) v =
      upsert-IsValid t ip port dip dport expires v
  step-IsValid t (touch now ip port expires) v = touch-IsValid t ip port now expires v
  step-IsValid t (prune now) v = prune-IsValid t now v

  step-Agrees :
      (t : TransparentNatTable Addr) (l : Ledger Addr) (ev : Event Addr)
      → IsValid t
      → Agrees (time ev) t l
      → Agrees (time ev) (step t ev).0 (ideal_step l ev).0
  unfolding step ideal_step
  step-Agrees t l (upsert now ip port dip dport expires) v a k =
      rw (entry-upsert t ip port dip dport expires k v) (ground (arith, a k))
  step-Agrees t l (touch now ip port expires) v a k =
      live-touch t ip port now expires k v
      ∙ ground (arith, a k, live-refreshed now expires (entry_of t k) (l k) (a k))
  step-Agrees t l (prune now) v a k = live-prune t now k v ∙ a k

  step-reply :
      (t : TransparentNatTable Addr) (l : Ledger Addr) (ev : Event Addr)
      → IsValid t
      → Agrees (time ev) t l
      → (step t ev).1 ≡ (ideal_step l ev).1
  unfolding step ideal_step upsert_nat_mapping
  step-reply t l (upsert now ip port dip dport expires) v a = rw v.unpoisoned
  step-reply t l (touch now ip port expires) v a =
      ap answered (touch_lem t ip port now expires v ∙ ap destination (a (ip, port)))
  step-reply t l (prune now) v a = refl

  -- From a valid table that agrees with a ledger, events in the order of time get the same replies
  -- from the table as from the ledger, which drops nothing and reads the expiry times.
  pub run_refines :
      (now : ℕ) (t : TransparentNatTable Addr) (l : Ledger Addr) (evs : List (Event Addr))
      → IsValid t
      → Agrees now t l
      → Ascending now evs
      → run t evs ≡ ideal_run l evs
  unfolding run ideal_run
  run_refines now t l [] v a asc = refl
  run_refines now t l (ev ∷ evs) v a asc =
      let a' = Agrees-later now (time ev) t l asc.0 a in
      ap₂ ◌∷◌ (step-reply t l ev v a') (
        run_refines (time ev) (step t ev).0 (ideal_step l ev).0 evs (step-IsValid t ev v)
          (step-Agrees t l ev v a') asc.1)
