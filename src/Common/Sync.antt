-- ===== src/Common/Sync.antt =====
-- `std::sync::Mutex`: `lock` fails once a thread has panicked while it held the lock.
use mathlib.Core.Bool.{Bool}

pub record Mutex {ℓ} (A : Type ℓ) : Type ℓ where
  pub poisoned : Bool
  pub value : A
