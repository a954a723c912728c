-- ===== src/HashMap/Defs.antt =====
-- The map operations that the program calls.
use any_mirror.Common.{
  ◌||◌, false, ℕ, ◌≡◌, Bool, List, [], ◌∷◌, Option, none, some, if◌then◌else◌, length, is_some,
  KeyEq, ◌==◌,
}

abbrev pub HashMap {ℓ κ} : Type ℓ → Type κ → Type (ℓ ⊔ κ)
HashMap K V = List (K × V)

abbrev pub len {ℓ κ} : {K : Type ℓ} {V : Type κ} → HashMap K V → ℕ
len m = length m

-- `retain`: keeps the entries that pass the test.
unfoldable pub retain {ℓ κ} : {K : Type ℓ} {V : Type κ} → (V → Bool) → HashMap K V → HashMap K V
retain p [] = []
retain p ((k, v) ∷ m) = if p v then (k, v) ∷ retain p m else retain p m

-- `iter().filter_map(..).collect()`: the keys whose values pass the test.
unfoldable pub keys_where {ℓ κ} : {K : Type ℓ} {V : Type κ} → (V → Bool) → HashMap K V → List K
keys_where p [] = []
keys_where p ((k, v) ∷ m) = if p v then k ∷ keys_where p m else keys_where p m

module _ {ℓ κ} {K : Type ℓ} {V : Type κ} ⦃e : KeyEq K⦄ where
  unfoldable pub get : K → HashMap K V → Option V
  get k [] = none
  get k ((j, v) ∷ m) = if j == k then some v else get k m

  abbrev pub contains_key : K → HashMap K V → Bool
  contains_key k m = is_some (get k m)

  unfoldable pub insert : K → V → HashMap K V → HashMap K V
  insert k v [] = (k, v) ∷ []
  insert k v ((j, w) ∷ m) = if j == k then (k, v) ∷ m else (j, w) ∷ insert k v m

  unfoldable pub remove : K → HashMap K V → HashMap K V
  remove k [] = []
  remove k ((j, w) ∷ m) = if j == k then remove k m else (j, w) ∷ remove k m

  -- No key has two entries.
  abbrev pub IsUnique : HashMap K V → Type κ
  IsUnique [] = Unit
  IsUnique ((k, v) ∷ m) = (get k m ≡ none) × IsUnique m

-- Membership in a list of keys.
abbrev pub contains {ℓ} : {K : Type ℓ} ⦃e : KeyEq K⦄ → List K → K → Bool
contains [] k = false
contains (j ∷ js) k = j == k || contains js k
