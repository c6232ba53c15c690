-- ===== src/Base/Maps.antt =====
-- Go maps with text keys, as association lists. An iteration over a map has no fixed order in Go; here
-- it runs through the list, and each use of one says why the order does not matter.
use goincus.Base.{
  String, ◌≡◌, refl, Bool, true, false, Option, none, some, List, [], ◌∷◌, ◌==◌, String-Eq,
  if◌then◌else◌, arith,
}

abbrev pub Map {ℓ} : Type ℓ → Type ℓ
Map V = List (String × V)

module _ {ℓ} {V : Type ℓ} where
  -- `v, ok := m[k]`
  unfoldable pub value_at : Map V → String → Option V
  value_at [] k = none
  value_at ((j, v) ∷ m) k = if k == j then some v else value_at m k

  abbrev pub has_key : Map V → String → Bool
  has_key m k = elim (value_at m k) [ none ↦ false | some _ ↦ true ]

  -- `delete(m, k)`
  unfoldable pub without : Map V → String → Map V
  without [] k = []
  without ((j, v) ∷ m) k = let rest = without m k in if k == j then rest else (j, v) ∷ rest

  -- `m[k] = v`
  abbrev pub with_value : Map V → String → V → Map V
  with_value m k v = (k, v) ∷ without m k

  -- `for k, v := range over { m[k] = v }`
  unfoldable pub overlay : Map V → Map V → Map V
  overlay m [] = m
  overlay m ((k, v) ∷ over) = with_value (overlay m over) k v

  pub value_at-without :
      (m : Map V) (k j : String)
      → value_at (without m k) j ≡ (if j == k then none else value_at m j)
  unfolding value_at without
  value_at-without [] k j = ground arith
  value_at-without ((i, v) ∷ m) k j = ground (
    arith,
    String-Eq.test_iff j k,
    String-Eq.test_iff k i,
    String-Eq.test_iff j i,
    value_at-without m k j,
  )

  pub value_at-with_value :
      (m : Map V) (k j : String) (v : V)
      → value_at (with_value m k v) j ≡ (if j == k then some v else value_at m j)
  unfolding value_at
  value_at-with_value m k j v = ground (arith, value_at-without m k j)

  -- What lies on top hides what is below.
  pub value_at-overlay :
      (m over : Map V) (k : String)
      → value_at (overlay m over) k
        ≡ elim (value_at over k) as (λ _. Option V) [ some v ↦ some v | none ↦ value_at m k ]
  unfolding overlay value_at
  value_at-overlay m [] k = refl
  value_at-overlay m ((j, v) ∷ over) k =
      ground (arith, value_at-without (overlay m over) j k, value_at-overlay m over k)

-- A map from texts to texts, as the settings of an instance, a device, a profile or a network are.
abbrev pub Settings : Type 0
Settings = Map String

abbrev pub Devices : Type 0
Devices = Map Settings

-- `m[k]`, which is empty where the key is missing.
abbrev pub text_at : Settings → String → String
text_at m k = elim (value_at m k) [ none ↦ "" | some v ↦ v ]

-- `m[k]` on devices, which is an empty map where the key is missing.
abbrev pub device_at : Devices → String → Settings
device_at m k = elim (value_at m k) [ none ↦ [] | some v ↦ v ]
