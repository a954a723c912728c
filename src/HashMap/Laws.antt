-- ===== src/HashMap/Laws.antt =====
-- How the operations of a map change what `get` reads.
use any_mirror.Common.{
  if◌then◌else◌, is_some, KeyEq, ◌==◌, nat_eq, pair_eq, list_eq, option_eq, ip_eq, ◌≡◌, refl, Bool,
  Option, none, some, [], ◌∷◌, arith,
}
use any_mirror.HashMap.Defs.{HashMap, retain, keys_where, get, insert, remove, IsUnique, contains}

-- What a value test keeps of a reading.
abbrev pub keep {κ} : {V : Type κ} → (V → Bool) → Option V → Option V
keep p none = none
keep p (some v) = if p v then some v else none

module _ {ℓ κ} {K : Type ℓ} {V : Type κ} ⦃e : KeyEq K⦄ where
  pub get-insert :
      (j k : K) (v : V) (m : HashMap K V)
      → get j (insert k v m) ≡ (if k == j then some v else get j m)
  unfolding get insert
  get-insert j k v [] = refl
  get-insert j k v ((i, w) ∷ m) =
      ground (arith, e.same_iff k j, e.same_iff i k, e.same_iff i j, get-insert j k v m)

  pub get-remove :
      (j k : K) (m : HashMap K V) → get j (remove k m) ≡ (if k == j then none else get j m)
  unfolding get remove
  get-remove j k [] = ground arith
  get-remove j k ((i, w) ∷ m) =
      ground (arith, e.same_iff k j, e.same_iff i k, e.same_iff i j, get-remove j k m)

  pub insert-IsUnique : (k : K) (v : V) (m : HashMap K V) → IsUnique m → IsUnique (insert k v m)
  unfolding get insert
  insert-IsUnique k v [] h = (refl, tt)
  insert-IsUnique k v ((i, w) ∷ m) h =
      ground (arith, e.same_iff i k, e.same_iff k i, get-insert i k v m, insert-IsUnique k v m)

  pub remove-IsUnique : (k : K) (m : HashMap K V) → IsUnique m → IsUnique (remove k m)
  unfolding get remove
  remove-IsUnique k [] h = tt
  remove-IsUnique k ((i, w) ∷ m) h =
      ground (arith, e.same_iff i k, e.same_iff k i, get-remove i k m, remove-IsUnique k m)

  pub get-retain :
      (p : V → Bool) (j : K) (m : HashMap K V) → IsUnique m → get j (retain p m) ≡ keep p (get j m)
  unfolding get retain
  get-retain p j [] h = refl
  get-retain p j ((i, w) ∷ m) h = ground (arith, e.same_iff i j, get-retain p j m)

  pub retain-IsUnique : (p : V → Bool) (m : HashMap K V) → IsUnique m → IsUnique (retain p m)
  unfolding retain
  retain-IsUnique p [] h = tt
  retain-IsUnique p ((i, w) ∷ m) h = ground (arith, get-retain p i m, retain-IsUnique p m)

module _ {ℓ κ} {K : Type ℓ} {V : Type κ} ⦃e : KeyEq K⦄ where
  -- The keys listed for a value test are those whose value passes it.
  pub contains-keys_where :
      (p : V → Bool) (k : K) (m : HashMap K V)
      → IsUnique m
      → contains (keys_where p m) k ≡ is_some (keep p (get k m))
  unfolding get keys_where
  contains-keys_where p k [] h = refl
  contains-keys_where p k ((i, w) ∷ m) h = ground (arith, e.same_iff i k, contains-keys_where p k m)
