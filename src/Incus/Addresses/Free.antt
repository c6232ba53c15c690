-- ===== src/Incus/Addresses/Free.antt =====
-- The scan for a free address.
use goincus.Base.{
  ℕ, zero, suc, ◌+◌, ◌-◌, ◌%◌, ◌^◌, ◌≤◌, ◌<◌, ◌≡◌, String, true, false, none, some, List, ◌⊎◌, inl,
  inr, contains, ℕ-Eq, String-Eq, Bool-cases, arith,
}
use goincus.Incus.Addresses.{ip_text, first_unused, host_count}

-- The text of the `host`-th address of a network.
abbrev pub candidate : ℕ → ℕ → String
candidate net host = ip_text ((net + host) % 2 ^ 32)

first_unused-some :
    (used : List String) (net host n : ℕ) (address : String)
    → first_unused used net host n ≡ some address
    → (contains used address ≡ false)
      × ((h : ℕ) × ((host ≤ h) × ((h < host + n) × (address ≡ candidate net h))))
unfolding first_unused
first_unused-some used net host zero address e = absurd (cc e)
first_unused-some used net host (suc n) address e =
    elim (Bool-cases (contains used (candidate net host))) [
      | inl taken ↦
          let (free, (h, (low, (high, same)))) =
            first_unused-some used net (host + 1) n address (rw taken at e) in
          (free, (h, (omega arith, (omega arith, same))))
      | inr unused ↦
          let here : candidate net host ≡ address = cc (rw unused at e) in
          (rw (← here) unused, (host, (omega arith, (omega arith, cc here))))
    ]

first_unused-none :
    (used : List String) (net host n h : ℕ)
    → first_unused used net host n ≡ none
    → host ≤ h
    → h < host + n
    → contains used (candidate net h) ≡ true
unfolding first_unused
first_unused-none used net host zero h e low high = absurd (omega arith)
first_unused-none used net host (suc n) h e low high =
    elim (Bool-cases (contains used (candidate net host))) [
      | inl taken ↦ elim (le_cases host h low) [
        | inl same ↦ rw (← same) taken
        | inr above ↦ first_unused-none used net (host + 1) n h (rw taken at e) above (omega arith)
      ]
      | inr unused ↦ absurd (cc (rw unused at e))
    ]
  where
    le_cases : (a b : ℕ) → a ≤ b → (a ≡ b) ⊎ (a + 1 ≤ b)
    le_cases a b h = ground arith

-- An address that the scan of a network gives is not in use, and is that of a host from the second on that is
-- neither the last address of the network nor beyond the 249th.
pub first_unused_found :
    (used : List String) (net ones : ℕ) (address : String)
    → ones < 30
    → first_unused used net 2 (host_count ones) ≡ some address
    → (contains used address ≡ false)
      × ((h : ℕ) × ((2 ≤ h)
            × ((h + 1 < 2 ^ (32 - ones)) × ((h < 250) × (address ≡ candidate net h)))))
unfolding host_count
first_unused_found used net ones address small e =
    let (free, (h, (low, (high, same)))) =
      first_unused-some used net 2 (host_count ones) address e in
    (free, (h, (low, (ground arith, (ground arith, same)))))

-- If the scan gives none, all of these addresses are in use.
pub first_unused_exhausted :
    (used : List String) (net ones h : ℕ)
    → first_unused used net 2 (host_count ones) ≡ none
    → 2 ≤ h
    → h + 1 < 2 ^ (32 - ones)
    → h < 250
    → contains used (candidate net h) ≡ true
unfolding host_count
first_unused_exhausted used net ones h e low high bound =
    first_unused-none used net 2 (host_count ones) h e low (ground arith)
