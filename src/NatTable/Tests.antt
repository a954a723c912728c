-- ===== src/NatTable/Tests.antt =====
-- The test of src/traffic/shared/nat.rs, and instances of the theorems.
use any_mirror.Common.{
  nat_eq, pair_eq, list_eq, option_eq, ip_eq, ℕ, ◌≡◌, refl, true, none, some, List, [], ◌∷◌, arith,
}
use any_mirror.HashMap.{get, insert, remove, retain}
use any_mirror.NatTable.{
  TransparentNatTable, new_transparent_nat_table, prune_nat_table, upsert_nat_mapping,
  touch_nat_mapping,
}
use any_mirror.NatTable.Laws.{IsValid}
use any_mirror.NatTable.History.{
  Event, upsert, touch, prune, stored, answered, pruned, step, run, ideal_run, run_refines,
}

program : Unit {0}
unfolding get insert remove retain upsert_nat_mapping touch_nat_mapping prune_nat_table step run
    new_transparent_nat_table
program = tt

-- Addresses as numbers.
abbrev events : List (Event ℕ)
events =
    upsert 0 2 50000 5 443 30
    ∷ touch 5 2 50000 60
    ∷ touch 61 2 50000 90
    ∷ prune 61
    ∷ upsert 62 2 50000 7 80 100
    ∷ touch 63 2 50000 120
    ∷ []

abbrev empty : TransparentNatTable ℕ
empty = new_transparent_nat_table ℕ

nat_mapping_touch_respects_expiration :
    run empty events
    ≡ stored true
      ∷ answered (some (5, 443))
      ∷ answered none
      ∷ pruned
      ∷ stored true
      ∷ answered (some (7, 80))
      ∷ []
unfolding program
nat_mapping_touch_respects_expiration = refl

empty-IsValid : IsValid empty
unfolding program
empty-IsValid = record { unpoisoned = refl; unique = tt }

run_refines_example : run empty events ≡ ideal_run (λ _. none) events
unfolding program
run_refines_example = run_refines 0 empty (λ _. none) events empty-IsValid (λ k. refl) (omega arith)
