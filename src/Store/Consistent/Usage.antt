-- ===== src/Store/Consistent/Usage.antt =====
-- The statements on `instance_daily_usage` keep the tables consistent.
use goincus.Base.{
  ℕ, ◌≡◌, refl, Bool, true, false, not, ◌||◌, List, [], ◌∷◌, ℕ-Eq, String-Eq, any, arith,
}
use goincus.Store.Tables.{DailyUsageRow}
use goincus.Store.Usage.{valid_usage, put_usage, upsert_daily_usage, purge_old_daily_usage}
use goincus.Store.Consistent.{distinct, every, Keeps, Kept, same_usage, has_instance, IsConsistent}
use goincus.Store.Consistent.Rows.{every-select, distinct-select, if-rule}

pub purge_old_daily_usage-Keeps : (before : ℕ) → Keeps (purge_old_daily_usage before)
purge_old_daily_usage-Keeps before now d c = record {
  instances_distinct = c.instances_distinct;
  instances_valid = c.instances_valid;
  mappings_distinct = c.mappings_distinct;
  mappings_valid = c.mappings_valid;
  mappings_owned = c.mappings_owned;
  usage_distinct = distinct-select same_usage _ d.daily_usage c.usage_distinct;
  usage_valid = every-select valid_usage _ d.daily_usage c.usage_valid;
  usage_owned =
      every-select (λ r. has_instance d.instances r.instance_id) _ d.daily_usage c.usage_owned;
}

-- The row that is put has the key of the one that it replaces.
any-put_usage :
    (x r : DailyUsageRow) (rows : List DailyUsageRow)
    → any (same_usage x) (put_usage r rows) ≡ (any (same_usage x) rows || same_usage x r)
unfolding put_usage
any-put_usage x r [] = ground arith
any-put_usage x r (s ∷ rows) = ground (arith, any-put_usage x r rows)

same_usage-replaced :
    (r s : DailyUsageRow) (rows : List DailyUsageRow)
    → same_usage r s ≡ true
    → any (same_usage r) rows ≡ any (same_usage s) rows
same_usage-replaced r s [] h = refl
same_usage-replaced r s (t ∷ rows) h = ground (arith, same_usage-replaced r s rows)

distinct-put_usage :
    (r : DailyUsageRow) (rows : List DailyUsageRow)
    → distinct same_usage rows ≡ true
    → distinct same_usage (put_usage r rows) ≡ true
unfolding put_usage
distinct-put_usage r [] h = refl
distinct-put_usage r (s ∷ rows) h =
    ground (arith, same_usage-replaced r s rows, distinct-put_usage r rows, any-put_usage s r rows)

every-put_usage :
    (p : DailyUsageRow → Bool) (r : DailyUsageRow) (rows : List DailyUsageRow)
    → p r ≡ true
    → every p rows ≡ true
    → every p (put_usage r rows) ≡ true
unfolding put_usage
every-put_usage p r [] hr h = ground arith
every-put_usage p r (s ∷ rows) hr h = ground (arith, every-put_usage p r rows)

-- Consistent tables stay consistent when a sample is inserted or replaces that of its day, or is refused
-- because its instance is missing or a value is negative.
pub upsert_daily_usage-Keeps : (r : DailyUsageRow) → Keeps (upsert_daily_usage r)
unfolding upsert_daily_usage
upsert_daily_usage-Keeps r now d c =
    if-rule Kept (not (has_instance d.instances r.instance_id)) _ _ (λ missing. c)
      λ owned. if-rule Kept (valid_usage r) _ _ (λ valid. put owned valid) λ invalid. c
  where
    put :
        not (has_instance d.instances r.instance_id) ≡ false
        → valid_usage r ≡ true
        → IsConsistent (record d { daily_usage = put_usage r d.daily_usage })
    put owned valid = record {
      instances_distinct = c.instances_distinct;
      instances_valid = c.instances_valid;
      mappings_distinct = c.mappings_distinct;
      mappings_valid = c.mappings_valid;
      mappings_owned = c.mappings_owned;
      usage_distinct = distinct-put_usage r d.daily_usage c.usage_distinct;
      usage_valid = every-put_usage valid_usage r d.daily_usage valid c.usage_valid;
      usage_owned =
          every-put_usage (λ s. has_instance d.instances s.instance_id) r d.daily_usage
            (ground arith) c.usage_owned;
    }
