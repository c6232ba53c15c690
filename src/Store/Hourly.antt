-- ===== src/Store/Hourly.antt =====
-- The table `instance_hourly_metrics`: the queries of internal/db/store.go on it.
use goincus.Base.{
  ℕ, Bool, not, ◌&&◌, List, [], ◌∷◌, Option, none, some, ◌==◌, ℕ-Eq, leb, ltb, if◌then◌else◌, any,
  select,
}
use goincus.Base.Int.{pos, leb_ℤ}
use goincus.Base.Result.{Result, ok, err, not_found, failure}
use goincus.Models.{is_live}
use goincus.Store.Tables.{Query, HourlyMetricsRow}

abbrev pub same_hour : ℕ → ℕ → HourlyMetricsRow → Bool
same_hour instance_id hour r = r.instance_id == instance_id && r.hour == hour

abbrev pub valid_metrics : HourlyMetricsRow → Bool
valid_metrics r =
    leb_ℤ (pos 0) r.memory_used_bytes
    && leb_ℤ (pos 0) r.memory_total_bytes
    && leb_ℤ (pos 0) r.disk_used_bytes
    && leb_ℤ (pos 0) r.disk_total_bytes
    && leb_ℤ (pos 0) r.bandwidth_bytes
    && leb_ℤ (pos 0) r.cpu_usage_ns
    && leb_ℤ (pos 0) r.net_bytes_total

unfoldable pub put_metrics : HourlyMetricsRow → List HourlyMetricsRow → List HourlyMetricsRow
put_metrics r [] = r ∷ []
put_metrics r (s ∷ rows) =
    let rest = put_metrics r rows in if same_hour r.instance_id r.hour s then r ∷ rows else s ∷ rest

-- `UpsertHourlyMetrics`: `INSERT … ON CONFLICT (instance_id, hour) DO UPDATE`
unfoldable pub upsert_hourly_metrics : HourlyMetricsRow → Query (Unit {0})
unfolding put_metrics
upsert_hourly_metrics r now d =
    if not (any (λ i. i.id == r.instance_id) d.instances)
    then (err (failure "insert violates foreign key constraint"), d)
    else if valid_metrics r
    then (ok tt, record d { hourly_metrics = put_metrics r d.hourly_metrics })
    else (err (failure "new row violates check constraint"), d)

-- `ORDER BY hour DESC LIMIT 1`
unfoldable pub last_hour : List HourlyMetricsRow → Option HourlyMetricsRow
last_hour [] = none
last_hour (r ∷ rows) = elim (last_hour rows) [
  | none ↦ some r
  | some s ↦ if ltb r.hour s.hour then some s else some r
]

abbrev metrics_row : Option HourlyMetricsRow → Result HourlyMetricsRow
metrics_row none = err not_found
metrics_row (some r) = ok r

-- `LatestHourlyMetrics`
abbrev pub latest_hourly_metrics : ℕ → ℕ → Query HourlyMetricsRow
latest_hourly_metrics instance_id before now d = (
  metrics_row (
      last_hour (select (λ r. r.instance_id == instance_id && ltb r.hour before) d.hourly_metrics)),
  d,
)

-- `ORDER BY hour ASC`
insert_by_hour : HourlyMetricsRow → List HourlyMetricsRow → List HourlyMetricsRow
insert_by_hour r [] = r ∷ []
insert_by_hour r (s ∷ rows) =
    let rest = insert_by_hour r rows in if ltb s.hour r.hour then s ∷ rest else r ∷ s ∷ rows

unfoldable pub by_hour : List HourlyMetricsRow → List HourlyMetricsRow
unfolding insert_by_hour
by_hour [] = []
by_hour (r ∷ rows) = insert_by_hour r (by_hour rows)

-- `ListHourlyMetrics`
abbrev pub list_hourly_metrics : ℕ → (from to : ℕ) → Query (List HourlyMetricsRow)
list_hourly_metrics instance_id from to now d = (
  ok (
      by_hour (
        select (λ r. r.instance_id == instance_id && (leb from r.hour && leb r.hour to))
          d.hourly_metrics)),
  d,
)

-- `ListHourlyMetricsAll`: the rows of each instance by hour. The order of the instances among each other,
-- by name, is not kept: the only caller collects the rows by instance.
abbrev pub list_hourly_metrics_all : (from to : ℕ) → Query (List HourlyMetricsRow)
list_hourly_metrics_all from to now d = (
  ok (
      by_hour (
        select
          (λ r.
            any (λ i. i.id == r.instance_id && is_live i.status) d.instances
            && (leb from r.hour && leb r.hour to))
          d.hourly_metrics)),
  d,
)

-- `PurgeOldHourlyMetrics`
abbrev pub purge_old_hourly_metrics : ℕ → Query (Unit {0})
purge_old_hourly_metrics before now d =
    (ok tt, record d { hourly_metrics = select (λ r. not (ltb r.hour before)) d.hourly_metrics })
