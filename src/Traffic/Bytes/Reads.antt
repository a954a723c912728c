-- ===== src/Traffic/Bytes/Reads.antt =====
-- Reads that could panic, and when they do not.
use any_mirror.Common.{
  length, get_elem?, drop, or_return, ◌>>=◌, nat_eq, pair_eq, list_eq, option_eq, ip_eq, ℕ, zero,
  suc, ◌≤◌, ◌<◌, ◌≡◌, refl, Option, none, some, [], ◌∷◌, arith,
}
use any_mirror.Traffic.Bytes.{Bytes, slice, get_range, drop_from, at}

-- The call returns.
abbrev pub IsSome : {A : Type 0} → Option A → Type 0
IsSome none = ⊥
IsSome (some a) = Unit

pub of_some : {A : Type 0} (o : Option A) → IsSome o → (a : A) × (o ≡ some a)
of_some none s = absurd s
of_some (some a) s = (a, refl)

pub IsSome-bind :
    {A B : Type 0} (o : Option A) (f : A → Option B)
    → IsSome o
    → ((a : A) → o ≡ some a → IsSome (f a))
    → IsSome (o >>= f)
IsSome-bind none f s k = s
IsSome-bind (some a) f s k = k a refl

pub IsSome-or_return :
    {A B : Type 0} (o : Option A) (f : A → Option (Option B))
    → ((a : A) → IsSome (f a))
    → IsSome (or_return o f)
IsSome-or_return none f k = tt
IsSome-or_return (some a) f k = k a

pub IsSome-get : (bytes : Bytes) (i : ℕ) → i < length bytes → IsSome (get_elem? bytes i)
IsSome-get [] i h = absurd (omega arith)
IsSome-get (b ∷ bytes) zero h = tt
IsSome-get (b ∷ bytes) (suc i) h = IsSome-get bytes i (omega arith)

pub drop_from_lem :
    (low : ℕ) (bytes : Bytes) → low ≤ length bytes → drop_from low bytes ≡ some (drop low bytes)
unfolding drop_from
drop_from_lem low bytes h = ground arith

pub get_range_lem :
    (low high : ℕ) (bytes : Bytes)
    → low ≤ high
    → high ≤ length bytes
    → get_range low high bytes ≡ some (slice low high bytes)
get_range_lem low high bytes h k = ground arith

pub get_at : (bytes : Bytes) (i : ℕ) → i < length bytes → get_elem? bytes i ≡ some (at bytes i)
get_at [] i h = absurd (omega arith)
get_at (b ∷ bytes) zero h = refl
get_at (b ∷ bytes) (suc i) h = get_at bytes i (omega arith)
