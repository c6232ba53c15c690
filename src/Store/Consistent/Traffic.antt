-- ===== src/Store/Consistent/Traffic.antt =====
-- `UpdateTrafficAccounting` (internal/db/store.go) keeps the tables consistent.
use goincus.Base.{
  ℕ, String, ◌≡◌, refl, inl, inr, Bool, true, false, ◌&&◌, ◌||◌, List, [], ◌∷◌, ℕ-Eq, String-Eq,
  arith, Bool-cases,
}
use goincus.Base.Int.{ℤ, pos, ltb_ℤ}
use goincus.Models.{Instance}
use goincus.Store.Tables.{valid_row, update_rows, update_traffic_accounting}
use goincus.Store.Consistent.{Keeps, Kept, has_instance}
use goincus.Store.Consistent.Rows.{if-rule}
use goincus.Store.Consistent.Instances.{update_instance-Keeps}

update_rows-absent :
    (id : ℕ) (f : Instance → Instance) (rows : List Instance)
    → has_instance rows id ≡ false
    → update_rows id f rows ≡ rows
unfolding update_rows
update_rows-absent id f [] h = refl
update_rows-absent id f (i ∷ rows) h = ground (arith, update_rows-absent id f rows)

abbrev accounted : ℤ → ℤ → String → Bool → ℕ → Instance → Instance
accounted used snap period throttled now i = record i {
  traffic_used_bytes = used;
  traffic_counter_snap = snap;
  traffic_period = period;
  traffic_throttled = throttled;
  updated_at = now;
}

abbrev is_bad : ℤ → ℤ → Bool
is_bad used snap = ltb_ℤ used (pos 0) || ltb_ℤ snap (pos 0)

accounted-valid :
    (used snap : ℤ) (period : String) (throttled : Bool) (now : ℕ) (i : Instance)
    → is_bad used snap ≡ false
    → valid_row i ≡ true
    → valid_row (accounted used snap period throttled now i) ≡ true
unfolding valid_row
accounted-valid used snap period throttled now i good h = ground arith

-- Consistent tables stay consistent when the traffic of an instance is written, or refused because a
-- counter is negative.
pub update_traffic_accounting-Keeps :
    (id : ℕ) (used snap : ℤ) (period : String) (throttled : Bool)
    → Keeps (update_traffic_accounting id used snap period throttled)
unfolding update_traffic_accounting
update_traffic_accounting-Keeps id used snap period throttled now d c =
    if-rule Kept (has_instance d.instances id && is_bad used snap) _ _ (λ refused. c)
      λ accepted. elim (Bool-cases (is_bad used snap)) [
        | inl bad ↦
            rw
              (update_rows-absent id (accounted used snap period throttled now) d.instances
                (ground arith))
              c
        | inr good ↦
            update_instance-Keeps (accounted used snap period throttled now)
              (record {
                id_kept = λ i. refl;
                name_kept = λ i. refl;
                incus_name_kept = λ i. refl;
                valid_kept = λ i h. accounted-valid used snap period throttled now i good h;
              })
              id now d c
      ]
