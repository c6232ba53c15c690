-- ===== src/Store/Consistent/Protocol.antt =====
-- The rows of `port_mappings` under `UPDATE … SET protocol, device_name` (internal/db/store.go).
use goincus.Base.{
  ℕ, String, ◌≡◌, refl, ap, ◌∙◌, inl, inr, Bool, true, false, not, ◌&&◌, ◌||◌, List, [], ◌∷◌, some,
  ◌==◌, ℕ-Eq, String-Eq, any, find, arith, Bool-cases,
}
use goincus.Models.{PortMapping}
use goincus.Store.Ports.{clash, set_protocol}
use goincus.Store.Consistent.{distinct, every, same_mapping}
use goincus.Store.Consistent.Rows.{eq_comm, if-rule}

pub same_mapping_comm : (p q : PortMapping) → same_mapping p q ≡ same_mapping q p
same_mapping_comm p q =
    ground (arith, eq_comm p.protocol q.protocol, eq_comm p.device_name q.device_name)

abbrev pub changed : String → String → PortMapping → PortMapping
changed protocol device p = record p { protocol = protocol; device_name = device }

abbrev pub has_id : ℕ → PortMapping → Bool
has_id id p = p.id == id

set_protocol-absent :
    (id : ℕ) (protocol device : String) (rows : List PortMapping)
    → any (has_id id) rows ≡ false
    → set_protocol id protocol device rows ≡ rows
unfolding set_protocol
set_protocol-absent id protocol device [] h = refl
set_protocol-absent id protocol device (p ∷ rows) h =
    ground (arith, set_protocol-absent id protocol device rows)

-- Identifiers are unique.
alone :
    (id : ℕ) (p : PortMapping) (rows : List PortMapping)
    → has_id id p ≡ true
    → any (same_mapping p) rows ≡ false
    → any (has_id id) rows ≡ false
alone id p [] here h = refl
alone id p (q ∷ rows) here h = ground (arith, alone id p rows here)

found_first :
    (id : ℕ) (p q : PortMapping) (rows : List PortMapping)
    → find (has_id id) (q ∷ rows) ≡ some p
    → has_id id q ≡ true
    → q ≡ p
found_first id p q rows f here = ground arith

found_later :
    (id : ℕ) (p q : PortMapping) (rows : List PortMapping)
    → find (has_id id) (q ∷ rows) ≡ some p
    → has_id id q ≡ false
    → find (has_id id) rows ≡ some p
found_later id p q rows f elsewhere = ground arith

found_has_id :
    (id : ℕ) (p : PortMapping) (rows : List PortMapping)
    → find (has_id id) rows ≡ some p
    → has_id id p ≡ true
found_has_id id p [] f = absurd (cc f)
found_has_id id p (q ∷ rows) f = elim (Bool-cases (has_id id q)) [
  | inl here ↦ rw (← found_first id p q rows f here) here
  | inr elsewhere ↦ found_has_id id p rows (found_later id p q rows f elsewhere)
]

pub every-found :
    (t : PortMapping → Bool) (id : ℕ) (p : PortMapping) (rows : List PortMapping)
    → every t rows ≡ true
    → find (has_id id) rows ≡ some p
    → t p ≡ true
every-found t id p [] h f = absurd (cc f)
every-found t id p (q ∷ rows) h f = elim (Bool-cases (has_id id q)) [
  | inl here ↦ rw (← found_first id p q rows f here) (ground arith)
  | inr elsewhere ↦ every-found t id p rows (ground arith) (found_later id p q rows f elsewhere)
]

-- Of two Boolean values that are both false, and both true.
neither : (a b : Bool) → a ≡ false → b ≡ false → (a || b) ≡ false
neither a b ha hb = ground arith

both : (a b : Bool) → a ≡ true → b ≡ true → (a && b) ≡ true
both a b ha hb = ground arith

module _ (id : ℕ) (protocol device : String) where
  -- A test that fails on every row, and on the new one, fails on every row afterwards.
  pub any-set_protocol :
      (t : PortMapping → Bool) (p : PortMapping) (rows : List PortMapping)
      → distinct same_mapping rows ≡ true
      → find (has_id id) rows ≡ some p
      → any t rows ≡ false
      → t (changed protocol device p) ≡ false
      → any t (set_protocol id protocol device rows) ≡ false
  unfolding set_protocol
  any-set_protocol t p [] d f h hp = refl
  any-set_protocol t p (q ∷ rows) d f h hp =
      if-rule (λ y. (t y || any t (set_protocol id protocol device rows)) ≡ false) (has_id id q)
        (changed protocol device q) q
        (λ here.
          neither (t (changed protocol device q)) _ (rw (found_first id p q rows f here) hp) (
            rw (set_protocol-absent id protocol device rows (alone id q rows here (ground arith)))
              (ground arith)))
        λ elsewhere. neither (t q) _ (ground arith) (
          any-set_protocol t p rows (ground arith) (found_later id p q rows f elsewhere)
            (ground arith) hp)

  pub every-set_protocol :
      (t : PortMapping → Bool) (p : PortMapping) (rows : List PortMapping)
      → distinct same_mapping rows ≡ true
      → find (has_id id) rows ≡ some p
      → every t rows ≡ true
      → t (changed protocol device p) ≡ true
      → every t (set_protocol id protocol device rows) ≡ true
  unfolding set_protocol
  every-set_protocol t p [] d f h hp = refl
  every-set_protocol t p (q ∷ rows) d f h hp =
      if-rule (λ y. (t y && every t (set_protocol id protocol device rows)) ≡ true) (has_id id q)
        (changed protocol device q) q
        (λ here. both (t (changed protocol device q)) _ (rw (found_first id p q rows f here) hp) (
          rw (set_protocol-absent id protocol device rows (alone id q rows here (ground arith)))
            (ground arith)))
        λ elsewhere. both (t q) _ (ground arith) (
          every-set_protocol t p rows (ground arith) (found_later id p q rows f elsewhere)
            (ground arith) hp)

  -- Rows with other identifiers that do not clash with the new row collide with it in nothing.
  clear :
      (p : PortMapping) (rows : List PortMapping)
      → any (has_id id) rows ≡ false
      → p.id ≡ id
      → any (λ q. not (q.id == id) && clash (changed protocol device p) q) rows ≡ false
      → any (same_mapping (changed protocol device p)) rows ≡ false
  clear p [] absent same h = refl
  clear p (q ∷ rows) absent same h =
      neither (same_mapping (changed protocol device p) q) _
        (neither (p.id == q.id) (clash (changed protocol device p) q) (ground arith) (ground arith))
        (clear p rows (ground arith) same (ground arith))

  pub distinct-set_protocol :
      (p : PortMapping) (rows : List PortMapping)
      → distinct same_mapping rows ≡ true
      → find (has_id id) rows ≡ some p
      → any (λ q. not (q.id == id) && clash (changed protocol device p) q) rows ≡ false
      → distinct same_mapping (set_protocol id protocol device rows) ≡ true
  unfolding set_protocol
  distinct-set_protocol p [] d f h = refl
  distinct-set_protocol p (q ∷ rows) d f h =
      if-rule
        (λ y.
          (not (any (same_mapping y) (set_protocol id protocol device rows))
            && distinct same_mapping (set_protocol id protocol device rows))
          ≡ true)
        (has_id id q) (changed protocol device q) q
        (λ here.
          let absent = alone id q rows here (ground arith) in
          rw (set_protocol-absent id protocol device rows absent) (
            both _ _
              (ap not (
                clear q rows absent (ground arith)
                  (rw (found_first id p q rows f here) (ground arith))))
              (ground arith)))
        λ elsewhere.
          let later = found_later id p q rows f elsewhere in
          let apart : same_mapping q (changed protocol device p) ≡ false =
            same_mapping_comm q (changed protocol device p)
            ∙ neither (p.id == q.id) (clash (changed protocol device p) q)
                (ground (arith, found_has_id id p rows later)) (ground arith) in
          both _ _
            (ap not
              (any-set_protocol (same_mapping q) p rows (ground arith) later (ground arith) apart))
            (distinct-set_protocol p rows (ground arith) later (ground arith))
