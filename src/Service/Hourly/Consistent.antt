-- ===== src/Service/Hourly/Consistent.antt =====
-- The hourly samples keep the tables consistent.
use goincus.Base.{ℕ, List, [], ◌∷◌, Option, none, some, not, any, ◌||◌, if◌then◌else◌, ◌==◌, ℕ-Eq}
use goincus.Base.Int.{ℤ}
use goincus.Base.Result.{Result, ok, err}
use goincus.Models.{Instance, running, stopped, same_status}
use goincus.Store.Tables.{Db, HourlyMetricsRow, list_active_instances}
use goincus.Store.Hourly.{
  upsert_hourly_metrics, valid_metrics, latest_hourly_metrics, list_hourly_metrics,
  list_hourly_metrics_all, purge_old_hourly_metrics,
}
use goincus.Store.Consistent.{Keeps, Kept, IsConsistent}
use goincus.Store.Consistent.Rows.{if-rule}
use goincus.Store.Calls.Consistent.{get_instance-Keeping}
use goincus.System.{System, ResourceSample, ignore, pure}
use goincus.Service.Keeping.{Keeping, keeping, then-Keeping}
use goincus.Service.Hourly.{
  measure, sample_instance_hourly_metrics, sample_all, sample_listed, sample_all_hourly_metrics,
  hourly_rows, get_hourly_metrics,
}

latest_hourly_metrics-Keeps : (id before : ℕ) → Keeps (latest_hourly_metrics id before)
latest_hourly_metrics-Keeps id before now d c = c

list_hourly_metrics-Keeps : (id from to : ℕ) → Keeps (list_hourly_metrics id from to)
list_hourly_metrics-Keeps id from to now d c = c

list_hourly_metrics_all-Keeps : (from to : ℕ) → Keeps (list_hourly_metrics_all from to)
list_hourly_metrics_all-Keeps from to now d c = c

list_active_instances-Keeps : Keeps list_active_instances
list_active_instances-Keeps now d c = c

-- The hourly rows are not part of what is consistent.
other_tables :
    (d : Db) (rows : List HourlyMetricsRow)
    → IsConsistent d
    → IsConsistent (record d { hourly_metrics = rows })
other_tables d rows c = record {
  instances_distinct = c.instances_distinct;
  instances_valid = c.instances_valid;
  mappings_distinct = c.mappings_distinct;
  mappings_valid = c.mappings_valid;
  mappings_owned = c.mappings_owned;
  usage_distinct = c.usage_distinct;
  usage_valid = c.usage_valid;
  usage_owned = c.usage_owned;
}

purge_old_hourly_metrics-Keeps : (before : ℕ) → Keeps (purge_old_hourly_metrics before)
purge_old_hourly_metrics-Keeps before now d c = other_tables d _ c

upsert_hourly_metrics-Keeps : (r : HourlyMetricsRow) → Keeps (upsert_hourly_metrics r)
unfolding upsert_hourly_metrics
upsert_hourly_metrics-Keeps r now d c =
    if-rule Kept (not (any (λ i. i.id == r.instance_id) d.instances)) _ _ (λ missing. c)
      λ owned. if-rule Kept (valid_metrics r) _ _ (λ valid. other_tables d _ c) λ invalid. c

module _ (S : System) where
  measure-Keeping :
      (inst : Instance) (sample : ResourceSample) (hour : ℕ) (rows : List HourlyMetricsRow)
      → Keeping S (measure S inst sample hour rows)
  unfolding measure
  measure-Keeping inst sample hour [] = search (keeping, latest_hourly_metrics-Keeps)
  measure-Keeping inst sample hour (prev ∷ rows) = search keeping

  sample_instance_hourly_metrics-Keeping :
      (inst : Instance) (hour : ℕ) → Keeping S (sample_instance_hourly_metrics S inst hour)
  unfolding sample_instance_hourly_metrics
  sample_instance_hourly_metrics-Keeping inst hour =
      search (keeping, measure-Keeping, list_hourly_metrics-Keeps, upsert_hourly_metrics-Keeps)
        depth 16

  sample_all-Keeping : (list : List Instance) (hour : ℕ) → Keeping S (sample_all S list hour)
  unfolding sample_all
  sample_all-Keeping [] hour = search keeping
  sample_all-Keeping (inst ∷ list) hour =
      then-Keeping S
        (if same_status inst.status running || same_status inst.status stopped
          then ignore (sample_instance_hourly_metrics S inst hour)
          else pure tt)
        (sample_all S list hour) (search (keeping, sample_instance_hourly_metrics-Keeping))
        (sample_all-Keeping list hour)

  sample_listed-Keeping : (r : Result (List Instance)) → Keeping S (sample_listed S r)
  unfolding sample_listed
  sample_listed-Keeping (err _) = search keeping
  sample_listed-Keeping (ok list) =
      search (keeping, sample_all-Keeping, purge_old_hourly_metrics-Keeps) depth 16

  pub sample_all_hourly_metrics-Keeping : Keeping S (sample_all_hourly_metrics S)
  unfolding sample_all_hourly_metrics
  sample_all_hourly_metrics-Keeping =
      search (keeping, list_active_instances-Keeps, sample_listed-Keeping) depth 12

  hourly_rows-Keeping : (id : Option ℕ) (from to : ℕ) → Keeping S (hourly_rows S id from to)
  unfolding hourly_rows
  hourly_rows-Keeping none from to = search (keeping, list_hourly_metrics_all-Keeps)
  hourly_rows-Keeping (some id) from to =
      search (keeping, get_instance-Keeping, list_hourly_metrics-Keeps)

  pub get_hourly_metrics-Keeping :
      (id : Option ℕ) (hours : ℤ) → Keeping S (get_hourly_metrics S id hours)
  unfolding get_hourly_metrics
  get_hourly_metrics-Keeping id hours =
      search (keeping, hourly_rows-Keeping, list_active_instances-Keeps) depth 16
