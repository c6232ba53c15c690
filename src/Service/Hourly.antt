-- ===== src/Service/Hourly.antt =====
-- internal/service/hourly.go: the hourly samples and their chart. Per cent are counted in hundredths, and
-- the floating-point quotients are exact fractions here. The ticker of the loop is not modelled.
pub mod Percent
pub mod Consistent
use goincus.Base.{
  ℕ, ◌+◌, ◌-◌, ◌*◌, ◌/◌, ◌%◌, ◌^◌, String, Bool, true, false, ◌||◌, ◌&&◌, Option, none, some, List,
  [], ◌∷◌, ◌==◌, ℕ-Eq, leb, ltb, select, map, if◌then◌else◌,
}
use goincus.Base.Int.{ℤ, pos, negsuc, pos_part, ltb_ℤ, leb_ℤ, ◌+ℤ◌, ◌-ℤ◌, wrap64}
use goincus.Base.Result.{Result, Error, ok, err, not_found, failure}
use goincus.Config.{or_default}
use goincus.Models.{Instance, running, stopped, same_status}
use goincus.Store.Tables.{HourlyMetricsRow, list_active_instances}
use goincus.Store.Hourly.{
  upsert_hourly_metrics, latest_hourly_metrics, list_hourly_metrics, list_hourly_metrics_all,
  purge_old_hourly_metrics,
}
use goincus.Store.Calls as StoreCalls
use goincus.System.{
  System, Call, ResourceSample, query, incus_call, now, pure, fail, ◌>>=◌, ◌>>◌, ignore, attempt,
  settle,
}

-- `clampNonNeg`
abbrev pub clamp_non_neg : ℤ → ℤ
clamp_non_neg v = if ltb_ℤ v (pos 0) then pos 0 else v

-- The share of the capacity, in hundredths of a per cent, before it is cut: `delta` nanoseconds of CPU time
-- in `elapsed` nanoseconds on `cores` billionths of a core, rounded to the nearest.
unfoldable pub cpu_share : (delta elapsed cores : ℕ) → ℕ
cpu_share delta elapsed cores =
    (2 * (delta * 10_000_000_000_000) + elapsed * cores) / (2 * (elapsed * cores))

-- `100*cpuCores` per cent, in hundredths, rounded.
unfoldable pub cpu_cap : ℕ → ℕ
cpu_cap cores = (2 * cores + 100_000) / 200_000

-- `computeCPUPercent`
unfoldable pub compute_cpu_percent : (prev_ns cur_ns : ℤ) → (elapsed cores : ℤ) → ℕ
unfolding cpu_share cpu_cap
compute_cpu_percent prev_ns cur_ns elapsed cores =
    let delta = pos_part (wrap64 (cur_ns -ℤ prev_ns)) in
    let e = pos_part elapsed in
    let c = pos_part cores in
    if leb_ℤ elapsed (pos 0) || leb_ℤ cores (pos 0)
    then 0
    else if ltb_ℤ cur_ns prev_ns
    then 0
    else if ltb (e * c * c) (delta * 1_000_000_000_000_000_000)
    then cpu_cap c
    else cpu_share delta e c

-- The growth of a counter, which starts again from 0 when the guest does.
unfoldable pub net_delta : (prev cur : ℤ) → ℤ
net_delta prev cur = if leb_ℤ prev cur then wrap64 (cur -ℤ prev) else cur

abbrev hour_ns : ℤ
hour_ns = pos 3_600_000_000_000

-- A total that the guest does not report is taken from the plan.
abbrev pub or_plan : (total plan : ℤ) → (unit : ℕ) → ℤ
or_plan total plan unit =
    if leb_ℤ total (pos 0) && ltb_ℤ (pos 0) plan then pos (pos_part plan * unit) else total

-- The row that a sample becomes.
unfoldable pub metrics_of :
    Instance → ResourceSample → (hour cpu_percent : ℕ) → (bandwidth : ℤ) → HourlyMetricsRow
metrics_of inst sample hour cpu_percent bandwidth = record {
  instance_id = inst.id;
  hour = hour;
  cpu_percent = cpu_percent;
  memory_used_bytes = clamp_non_neg sample.memory_used_bytes;
  memory_total_bytes = clamp_non_neg (or_plan sample.memory_total_bytes inst.memory_mb (2 ^ 20));
  disk_used_bytes = clamp_non_neg sample.disk_used_bytes;
  disk_total_bytes = clamp_non_neg (or_plan sample.disk_total_bytes inst.storage_gb (2 ^ 30));
  bandwidth_bytes = clamp_non_neg bandwidth;
  cpu_usage_ns = clamp_non_neg sample.cpu_usage_ns;
  net_bytes_total = clamp_non_neg sample.net_bytes_total;
}

-- A second sample in an hour adds to the bytes of the first.
unfoldable pub refresh : Instance → ResourceSample → (interval : ℤ) → HourlyMetricsRow → ℕ × ℤ
unfolding compute_cpu_percent net_delta
refresh inst sample interval prev = (
  compute_cpu_percent prev.cpu_usage_ns sample.cpu_usage_ns (or_default interval hour_ns)
      inst.cpu_cores,
  wrap64 (prev.bandwidth_bytes +ℤ net_delta prev.net_bytes_total sample.net_bytes_total),
)

-- The first sample of an hour counts from the last one of an earlier hour, if there is one.
unfoldable pub first_of_hour :
    Instance
    → ResourceSample
    → (hour : ℕ) → (interval : ℤ) → Result HourlyMetricsRow
    → Result (ℕ × ℤ)
unfolding compute_cpu_percent net_delta
first_of_hour inst sample hour interval (ok prev) =
    let elapsed : ℤ =
      if leb hour prev.hour
      then or_default interval hour_ns
      else pos ((hour - prev.hour) * 1_000_000_000) in
    ok (
      compute_cpu_percent prev.cpu_usage_ns sample.cpu_usage_ns elapsed inst.cpu_cores,
      net_delta prev.net_bytes_total sample.net_bytes_total,
    )
first_of_hour inst sample hour interval (err not_found) = ok (0, pos 0)
first_of_hour inst sample hour interval (err (Error.invalid_input t)) = err (Error.invalid_input t)
first_of_hour inst sample hour interval (err (Error.conflict t)) = err (Error.conflict t)
first_of_hour inst sample hour interval (err (Error.failure t)) = err (Error.failure t)

-- `models.HourlyMetricsPoint`, `InstanceMetricsSeries` and `MetricsChartResponse`, with times as numbers.
pub record HourlyMetricsPoint : Type 0 where
  pub hour : ℕ
  pub cpu_percent : ℕ
  pub memory_used_bytes : ℤ
  pub memory_total_bytes : ℤ
  pub disk_used_bytes : ℤ
  pub disk_total_bytes : ℤ
  pub bandwidth_bytes : ℤ

pub record InstanceMetricsSeries : Type 0 where
  pub instance_id : ℕ
  pub name : String
  pub points : List HourlyMetricsPoint

pub record MetricsChart : Type 0 where
  pub hours : ℕ
  pub from : ℕ
  pub to : ℕ
  pub items : List InstanceMetricsSeries

abbrev pub point_of : HourlyMetricsRow → HourlyMetricsPoint
point_of r = record {
  hour = r.hour;
  cpu_percent = r.cpu_percent;
  memory_used_bytes = r.memory_used_bytes;
  memory_total_bytes = r.memory_total_bytes;
  disk_used_bytes = r.disk_used_bytes;
  disk_total_bytes = r.disk_total_bytes;
  bandwidth_bytes = r.bandwidth_bytes;
}

-- The hours of a chart: 24 if none are asked for, at most 90 days.
unfoldable pub chart_hours : ℤ → ℕ
chart_hours hours =
    if leb_ℤ hours (pos 0) then 24 else if ltb_ℤ (pos 2160) hours then 2160 else pos_part hours

-- The series of the instances asked for, each with the points of its rows.
unfoldable pub series_of :
    (filter_id : Option ℕ) → List HourlyMetricsRow → List Instance → List InstanceMetricsSeries
series_of filter_id rows [] = []
series_of filter_id rows (inst ∷ list) =
    let rest = series_of filter_id rows list in
    let series : InstanceMetricsSeries = record {
      instance_id = inst.id;
      name = inst.name;
      points = map point_of (select (λ r. r.instance_id == inst.id) rows);
    } in
    elim filter_id [
      | none ↦ series ∷ rest
      | some id ↦ if inst.id == id then series ∷ rest else rest
    ]

abbrev pub start_of_hour : ℕ → ℕ
start_of_hour t = t - t % 3600

module _ (S : System) where
  abbrev resource_sample : String → Call S ResourceSample
  resource_sample incus_name = incus_call S (S.incus.resource_sample incus_name)

  -- The CPU share and the bytes of a sample, from the rows of the same hour or from the last row before it.
  measure : Instance → ResourceSample → ℕ → List HourlyMetricsRow → Call S (ℕ × ℤ)
  unfolding refresh first_of_hour
  measure inst sample hour (prev ∷ rows) =
      pure (refresh inst sample S.cfg.usage.hourly_interval prev)
  measure inst sample hour [] = do
    prev ← attempt (query S (latest_hourly_metrics inst.id hour))
    settle (first_of_hour inst sample hour S.cfg.usage.hourly_interval prev)

  -- `sampleInstanceHourlyMetrics`
  unfoldable pub sample_instance_hourly_metrics : Instance → ℕ → Call S (Unit {0})
  unfolding measure metrics_of
  sample_instance_hourly_metrics inst hour = do
    sample ← resource_sample inst.incus_name
    existing ← query S (list_hourly_metrics inst.id hour hour)
    (cpu_percent, bandwidth) ← measure inst sample hour existing
    query S (upsert_hourly_metrics (metrics_of inst sample hour cpu_percent bandwidth))

  -- The loop of `sampleAllHourlyMetrics`: an instance that cannot be sampled is logged.
  sample_all : List Instance → ℕ → Call S (Unit {0})
  unfolding sample_instance_hourly_metrics
  sample_all [] hour = pure tt
  sample_all (inst ∷ list) hour = do
    if same_status inst.status running || same_status inst.status stopped
        then ignore (sample_instance_hourly_metrics inst hour)
        else pure tt
    sample_all list hour

  sample_listed : Result (List Instance) → Call S (Unit {0})
  unfolding sample_all
  sample_listed (err _) = pure tt
  sample_listed (ok list) = do
    time ← now S
    sample_all list (start_of_hour time)
    later ← now S
    ignore (
        query S (
          purge_old_hourly_metrics
            (later - pos_part (or_default S.cfg.usage.hourly_retention_days (pos 30)) * 86400)))

  -- `sampleAllHourlyMetrics`
  unfoldable pub sample_all_hourly_metrics : Call S (Unit {0})
  unfolding sample_listed
  sample_all_hourly_metrics = do sample_listed (← attempt (query S list_active_instances))

  hourly_rows : Option ℕ → (from to : ℕ) → Call S (List HourlyMetricsRow)
  unfolding StoreCalls.get_instance
  hourly_rows none from to = query S (list_hourly_metrics_all from to)
  hourly_rows (some id) from to =
      StoreCalls.get_instance S id >> query S (list_hourly_metrics id from to)

  -- `GetHourlyMetrics`; `none` is `uuid.Nil`.
  unfoldable pub get_hourly_metrics : Option ℕ → ℤ → Call S MetricsChart
  unfolding hourly_rows chart_hours series_of
  get_hourly_metrics id hours = do
    time ← now S
    let to = start_of_hour time
    let from = to - (chart_hours hours - 1) * 3600
    rows ← hourly_rows id from to
    list ← query S list_active_instances
    pure
        (record { hours = chart_hours hours; from = from; to = to; items = series_of id rows list })
