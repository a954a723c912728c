-- ===== src/FakeIp/Pruning.antt =====
-- The pruning of expired entries in src/traffic/shared/dns/fake_ip.rs.
use any_mirror.Common.{
  ltb, if◌then◌else◌, Option-cases, ◌==◌, nat_eq, pair_eq, list_beq_iff, list_eq, option_eq, ℕ, ◌≡◌,
  refl, inl, inr, Option, none, some, List, [], ◌∷◌, arith,
}
use any_mirror.HashMap.{get-remove, contains-keys_where, get, IsUnique, keys_where, contains}
use any_mirror.Text.{Text}
use any_mirror.FakeIp.{FakeIpEntry, Family, is_expired, drop_domain, drop_domains, prune_family}
use any_mirror.FakeIp.Invariant.{IsLinked, unlink}

module _ (P : ℕ → Type 0) where
  drop_domain-IsLinked : (d : Text) (s : Family) → IsLinked P s → IsLinked P (drop_domain d s)
  unfolding drop_domain
  drop_domain-IsLinked d s v = elim (Option-cases (get d s.domain_to_entry)) [
    | inl miss ↦ rw (miss, drop_domain) v
    | inr (en, hit) ↦ rw (hit, drop_domain) (unlink P s d en hit v)
  ]

  drop_domains-IsLinked :
      (ds : List Text) (s : Family) → IsLinked P s → IsLinked P (drop_domains ds s)
  unfolding drop_domains
  drop_domains-IsLinked [] s v = v
  drop_domains-IsLinked (d ∷ ds) s v =
      drop_domains-IsLinked ds (drop_domain d s) (drop_domain-IsLinked d s v)

  pub prune-IsLinked : (now : ℕ) (s : Family) → IsLinked P s → IsLinked P (prune_family now s)
  unfolding prune_family
  prune-IsLinked now s v = drop_domains-IsLinked _ s v

get-drop_domain :
    (d j : Text) (s : Family)
    → get j (drop_domain d s).domain_to_entry ≡ (if d == j then none else get j s.domain_to_entry)
unfolding drop_domain
get-drop_domain d j s = ground (arith, get-remove j d s.domain_to_entry, list_beq_iff d j)

get-drop_domains :
    (ds : List Text) (j : Text) (s : Family)
    → get j (drop_domains ds s).domain_to_entry
      ≡ (if contains ds j then none else get j s.domain_to_entry)
unfolding drop_domains
get-drop_domains [] j s = refl
get-drop_domains (d ∷ ds) j s =
    ground (arith, get-drop_domains ds j (drop_domain d s), get-drop_domain d j s)

-- The entry of a domain that is still valid at a time.
abbrev pub valid_at : ℕ → Option FakeIpEntry → Option FakeIpEntry
valid_at now none = none
valid_at now (some entry) = if ltb now entry.expires_at then some entry else none

-- Pruning keeps the valid entries.
pub get-prune :
    (now : ℕ) (j : Text) (s : Family)
    → IsUnique s.domain_to_entry
    → get j (prune_family now s).domain_to_entry ≡ valid_at now (get j s.domain_to_entry)
unfolding prune_family
get-prune now j s u = ground (
  arith,
  get-drop_domains (keys_where (is_expired now) s.domain_to_entry) j s,
  contains-keys_where (is_expired now) j s.domain_to_entry u,
)
