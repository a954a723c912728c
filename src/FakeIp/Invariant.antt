-- ===== src/FakeIp/Invariant.antt =====
-- The two maps of a family in src/traffic/shared/dns/fake_ip.rs as inverses of one another.
use any_mirror.Common.{
  nat_beq_iff, Bool-cases, ◌==◌, nat_eq, pair_eq, list_beq_iff, list_eq, option_eq, ip_eq, ℕ, ◌≡◌,
  inl, inr, none, some, arith,
}
use any_mirror.HashMap.{
  get-insert, get-remove, insert-IsUnique, remove-IsUnique, get, insert, remove, IsUnique,
}
use any_mirror.Text.{Text}
use any_mirror.FakeIp.{FakeIpEntry, Family, empty_family}

-- `P` holds of the addresses that the family hands out.
pub record IsLinked (P : ℕ → Type 0) (s : Family) : Type 0 where
  pub unique : IsUnique s.domain_to_entry
  pub forward :
      (d : Text) (en : FakeIpEntry)
      → get d s.domain_to_entry ≡ some en
      → get en.ip s.ip_to_domain ≡ some d
  pub backward :
      (ip : ℕ) (d : Text)
      → get ip s.ip_to_domain ≡ some d
      → (en : FakeIpEntry) × (get d s.domain_to_entry ≡ some en) × (en.ip ≡ ip)
  pub in_range : (d : Text) (en : FakeIpEntry) → get d s.domain_to_entry ≡ some en → P en.ip

pub empty-IsLinked : (P : ℕ → Type 0) (first : ℕ) → IsLinked P (empty_family first)
unfolding get
empty-IsLinked P first = record {
  unique = tt;
  forward = λ d en h. ground arith;
  backward = λ ip d h. absurd (ground arith);
  in_range = λ d en h. absurd (ground arith);
}

module _ (P : ℕ → Type 0) where
  -- Removing a domain with its address.
  pub unlink :
      (s : Family) (d : Text) (en : FakeIpEntry)
      → get d s.domain_to_entry ≡ some en
      → IsLinked P s
      → IsLinked P (record s {
        domain_to_entry = remove d s.domain_to_entry;
        ip_to_domain = remove en.ip s.ip_to_domain;
      })
  unlink s d en here v = record {
    unique = remove-IsUnique d s.domain_to_entry v.unique;
    forward = λ d' en' h. ground (
      arith,
      get-remove d' d s.domain_to_entry,
      get-remove en'.ip en.ip s.ip_to_domain,
      list_beq_iff d d',
      v.forward d en here,
      v.forward d' en',
    );
    backward = λ ip d' h.
        let (en', found_at, at) =
          v.backward ip d' (ground (arith, get-remove ip en.ip s.ip_to_domain)) in
        (
          en',
          ground (
            arith,
            get-remove d' d s.domain_to_entry,
            get-remove ip en.ip s.ip_to_domain,
            list_beq_iff d d',
            found_at,
            at,
          ),
          at,
        );
    in_range = λ d' en' h. ground (arith, get-remove d' d s.domain_to_entry, v.in_range d' en');
  }

  -- Storing a new domain at a free address.
  pub link :
      (s : Family) (d : Text) (ip expires : ℕ)
      → get d s.domain_to_entry ≡ none
      → get ip s.ip_to_domain ≡ none
      → P ip
      → IsLinked P s
      → IsLinked P (record s {
        domain_to_entry = insert d (record { ip = ip; expires_at = expires }) s.domain_to_entry;
        ip_to_domain = insert ip d s.ip_to_domain;
      })
  link s d ip expires fresh free bounds v = record {
    unique = insert-IsUnique d _ s.domain_to_entry v.unique;
    forward = λ d' en' h. ground (
      arith,
      get-insert d' d (record { ip = ip; expires_at = expires }) s.domain_to_entry,
      get-insert en'.ip ip d s.ip_to_domain,
      list_beq_iff d d',
      v.forward d' en',
    );
    backward = λ ip' d' h. elim (Bool-cases (ip == ip')) [
      | inl same ↦ (
        record { ip = ip; expires_at = expires },
        ground (
          arith,
          get-insert d' d (record { ip = ip; expires_at = expires }) s.domain_to_entry,
          get-insert ip' ip d s.ip_to_domain,
          list_beq_iff d d',
        ),
        (nat_beq_iff ip ip').0 same,
      )
      | inr other ↦
          let (en', found_at, at) =
            v.backward ip' d' (ground (arith, get-insert ip' ip d s.ip_to_domain)) in
          (
            en',
            ground (
              arith,
              get-insert d' d (record { ip = ip; expires_at = expires }) s.domain_to_entry,
              list_beq_iff d d',
              found_at,
            ),
            at,
          )
    ];
    in_range = λ d' en' h. ground (
      arith,
      get-insert d' d (record { ip = ip; expires_at = expires }) s.domain_to_entry,
      v.in_range d' en',
    );
  }

-- The invariant reads the two maps only.
pub IsLinked-same :
    (P : ℕ → Type 0) (s s' : Family)
    → s'.domain_to_entry ≡ s.domain_to_entry
    → s'.ip_to_domain ≡ s.ip_to_domain
    → IsLinked P s
    → IsLinked P s'
IsLinked-same P s s' e f v = record {
  unique = rw e v.unique;
  forward = rw (e, f) v.forward;
  backward = rw (e, f) v.backward;
  in_range = rw e v.in_range;
}

-- A new expiry for a known domain.
pub relink :
    (P : ℕ → Type 0) (s : Family) (d : Text) (en : FakeIpEntry) (expires : ℕ)
    → get d s.domain_to_entry ≡ some en
    → IsLinked P s
    → IsLinked P (record s {
      domain_to_entry = insert d (record en { expires_at = expires }) s.domain_to_entry;
    })
relink P s d en expires here v = record {
  unique = insert-IsUnique d _ s.domain_to_entry v.unique;
  forward = λ d' en' h. ground (
    arith,
    get-insert d' d (record en { expires_at = expires }) s.domain_to_entry,
    list_beq_iff d d',
    v.forward d en here,
    v.forward d' en',
  );
  backward = λ ip d' h.
      let (en', found_at, at) = v.backward ip d' h in
      elim (Bool-cases (d == d')) [
        | inl same ↦ (
          record en { expires_at = expires },
          ground (arith, get-insert d' d (record en { expires_at = expires }) s.domain_to_entry),
          ground (arith, list_beq_iff d d', found_at, at),
        )
        | inr other ↦ (
          en',
          ground (
            arith,
            get-insert d' d (record en { expires_at = expires }) s.domain_to_entry,
            found_at,
          ),
          at,
        )
      ];
  in_range = λ d' en' h. ground (
    arith,
    get-insert d' d (record en { expires_at = expires }) s.domain_to_entry,
    v.in_range d en here,
    v.in_range d' en',
  );
}
