-- ===== src/Store/Consistent.antt =====
-- What the constraints of the schema (migrations/001_init.sql and 006_daily_usage.sql) say of the tables
-- as a whole, as a test.
pub mod Rows
pub mod Instances
pub mod Traffic
pub mod Protocol
pub mod Mappings
pub mod Usage
use goincus.Base.{ℕ, ◌≡◌, Bool, true, false, not, ◌&&◌, ◌||◌, List, [], ◌∷◌, ◌==◌, ℕ-Eq, any}
use goincus.Base.Result.{Result}
use goincus.Models.{Instance, PortMapping}
use goincus.Store.Tables.{Db, Query, DailyUsageRow, valid_row, same_instance}
use goincus.Store.Ports.{valid_mapping, clash}
use goincus.Store.Usage.{valid_usage, same_day}

-- No two rows collide.
abbrev pub distinct {ℓ} : {A : Type ℓ} → (A → A → Bool) → List A → Bool
distinct r [] = true
distinct r (x ∷ xs) = not (any (r x) xs) && distinct r xs

abbrev pub every {ℓ} : {A : Type ℓ} → (A → Bool) → List A → Bool
every p [] = true
every p (x ∷ xs) = p x && every p xs

abbrev pub same_mapping : PortMapping → PortMapping → Bool
same_mapping p q = p.id == q.id || clash p q

abbrev pub same_usage : DailyUsageRow → DailyUsageRow → Bool
same_usage r s = same_day r.instance_id r.day s

abbrev pub has_instance : List Instance → ℕ → Bool
has_instance instances id = any (λ i. i.id == id) instances

-- The keys are unique, every reference has its row, and every row passes its checks.
pub record IsConsistent (d : Db) : Type 0 where
  pub instances_distinct : distinct same_instance d.instances ≡ true
  pub instances_valid : every valid_row d.instances ≡ true
  pub mappings_distinct : distinct same_mapping d.port_mappings ≡ true
  pub mappings_valid : every valid_mapping d.port_mappings ≡ true
  pub mappings_owned : every (λ p. has_instance d.instances p.instance_id) d.port_mappings ≡ true
  pub usage_distinct : distinct same_usage d.daily_usage ≡ true
  pub usage_valid : every valid_usage d.daily_usage ≡ true
  pub usage_owned : every (λ r. has_instance d.instances r.instance_id) d.daily_usage ≡ true

-- Every way in which the query ends keeps the tables consistent.
abbrev pub Keeps : {A : Type 0} → Query A → Type 0
Keeps q = (now : ℕ) (d : Db) → IsConsistent d → IsConsistent (q now d).1

-- The same of one way.
abbrev pub Kept : {A : Type 0} → Result A × Db → Type 0
Kept r = IsConsistent r.1
