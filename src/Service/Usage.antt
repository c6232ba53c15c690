-- ===== src/Service/Usage.antt =====
-- internal/service/usage.go: the daily samples of disk and bandwidth, and the chart over them.
pub mod Chart
pub mod Consistent
use goincus.Base.{
  ℕ, zero, suc, ◌+◌, ◌-◌, ◌*◌, ◌^◌, String, ◌&&◌, List, [], ◌∷◌, Option, none, some, ◌==◌, ℕ-Eq,
  find, if◌then◌else◌,
}
use goincus.Base.Int.{ℤ, pos, ltb_ℤ, leb_ℤ, ◌-ℤ◌, pos_part}
use goincus.Base.Civil.{day_of}
use goincus.Base.Result.{Result, ok, err, Error, not_found}
use goincus.Config.{or_default}
use goincus.Models.{Instance}
use goincus.Store.Tables.{DailyUsageRow}
use goincus.Store.Usage.{
  get_daily_usage, upsert_daily_usage, list_daily_usage, purge_old_daily_usage,
}
use goincus.Store.Calls as StoreCalls
use goincus.System.{
  System, Call, query, incus_call, now, pure, fail, ◌>>=◌, ignore, attempt, settle, within,
  ResourceSample,
}

abbrev pub gib : ℕ
gib = 2 ^ 30

-- `int64(n) * 1024 * 1024 * 1024` of a positive size in GiB; none for another.
abbrev pub quota_bytes : ℤ → ℤ
quota_bytes gb = pos (pos_part gb * gib)

-- `DailyUsagePoint`, at a day.
pub record DailyUsagePoint : Type 0 where
  pub date : ℕ
  pub disk_used_bytes : ℤ
  pub disk_total_bytes : ℤ
  pub bandwidth_bytes : ℤ

-- What the loop of `GetUsageChart` carries from day to day.
pub record Carried : Type 0 where
  pub disk_used : ℤ
  pub disk_total : ℤ

-- A day without a sample repeats the disk of the day before and has no bandwidth.
abbrev pub point_of : ℕ → Carried → Option DailyUsageRow → DailyUsagePoint
point_of date c none = record {
  date = date;
  disk_used_bytes = c.disk_used;
  disk_total_bytes = c.disk_total;
  bandwidth_bytes = pos 0;
}
point_of date c (some r) = record {
  date = date;
  disk_used_bytes = r.disk_used_bytes;
  disk_total_bytes = r.disk_total_bytes;
  bandwidth_bytes = r.bandwidth_bytes;
}

abbrev pub carry : Carried → Option DailyUsageRow → Carried
carry c none = c
carry c (some r) = record {
  disk_used = r.disk_used_bytes;
  disk_total = if leb_ℤ r.disk_total_bytes (pos 0) then c.disk_total else r.disk_total_bytes;
}

-- The loop over `n` days from `date` on. The database has one row for a day at most.
unfoldable pub chart_points : List DailyUsageRow → ℕ → ℕ → Carried → List DailyUsagePoint
chart_points rows zero date c = []
chart_points rows (suc n) date c =
    let row = find (λ r. r.day == date) rows in
    point_of date c row ∷ chart_points rows n (date + 1) (carry c row)

pub record UsageChart : Type 0 where
  pub instance_id : ℕ
  pub name : String
  pub days : ℕ
  pub from : ℕ
  pub to : ℕ
  pub points : List DailyUsagePoint

-- The lookback: 30 days for a number that is not positive, 366 at most.
unfoldable pub lookback : ℤ → ℕ
lookback days =
    if leb_ℤ days (pos 0) then 30 else if ltb_ℤ (pos 366) days then 366 else pos_part days

-- The disk of a sample: what Incus reports, or the last sample of the day, or nothing; a total that is
-- missing is the quota.
pub record DiskUsage : Type 0 where
  pub used : ℤ
  pub total : ℤ

-- The baseline of the day and the bandwidth since then.
abbrev pub bandwidth_since : ℤ → ℤ → ℤ × ℤ
bandwidth_since baseline monthly_used =
    if ltb_ℤ monthly_used baseline
    then (monthly_used, pos 0)
    else (baseline, monthly_used -ℤ baseline)

module _ (S : System) where
  -- `GetUsageChart`
  unfoldable pub get_usage_chart : ℕ → ℤ → Call S UsageChart
  unfolding chart_points lookback StoreCalls.get_instance
  get_usage_chart id days = do
    inst ← StoreCalls.get_instance S id
    to ← now S
    let n = lookback days
    let from = day_of to + 1 - n
    rows ← query S (list_daily_usage id from (day_of to))
    pure (record {
      instance_id = inst.id;
      name = inst.name;
      days = n;
      from = from;
      to = day_of to;
      points = chart_points rows n from (record {
        disk_used = pos 0;
        disk_total = if leb_ℤ inst.storage_gb (pos 0) then pos 0 else quota_bytes inst.storage_gb;
      });
    })

  disk_of : Result ResourceSample → Result DailyUsageRow → DiskUsage
  disk_of (ok sample) previous = record {
    used = sample.disk_used_bytes;
    total = sample.disk_total_bytes;
  }
  disk_of (err _) (ok r) = record { used = r.disk_used_bytes; total = r.disk_total_bytes }
  disk_of (err _) (err _) = record { used = pos 0; total = pos 0 }

  -- The last sample of the day, where Incus reports nothing.
  previous_sample : Instance → ℕ → Result ResourceSample → Call S DailyUsageRow
  previous_sample inst day (ok _) = fail not_found
  previous_sample inst day (err _) = query S (get_daily_usage inst.id day)

  -- `DiskUsageBytes`, and in its place the last sample of the day.
  read_disk : Instance → ℕ → Call S DiskUsage
  unfolding disk_of previous_sample
  read_disk inst day = do
    sample ← attempt (incus_call S (S.incus.resource_sample inst.incus_name))
    previous ← attempt (previous_sample inst day sample)
    pure (disk_of sample previous)

  daily_bandwidth : ℤ → Result DailyUsageRow → Result (ℤ × ℤ)
  daily_bandwidth monthly_used (ok r) = ok (bandwidth_since r.bandwidth_baseline_bytes monthly_used)
  daily_bandwidth monthly_used (err not_found) = ok (monthly_used, pos 0)
  daily_bandwidth monthly_used (err (Error.invalid_input t)) = err (Error.invalid_input t)
  daily_bandwidth monthly_used (err (Error.conflict t)) = err (Error.conflict t)
  daily_bandwidth monthly_used (err (Error.failure t)) = err (Error.failure t)

  abbrev usage_sample : Instance → ℕ → DiskUsage → ℤ × ℤ → DailyUsageRow
  usage_sample inst day disk (baseline, bandwidth) = record {
    instance_id = inst.id;
    day = day;
    disk_used_bytes = if ltb_ℤ disk.used (pos 0) then pos 0 else disk.used;
    disk_total_bytes =
        if leb_ℤ disk.total (pos 0) && ltb_ℤ (pos 0) inst.storage_gb
        then quota_bytes inst.storage_gb
        else disk.total;
    bandwidth_bytes = bandwidth;
    bandwidth_baseline_bytes = baseline;
  }

  record_day : Instance → ℤ → ℕ → Call S (Unit {0})
  unfolding read_disk daily_bandwidth
  record_day inst monthly_used day = do
    disk ← read_disk inst day
    existing ← attempt (query S (get_daily_usage inst.id day))
    bandwidth ← settle (daily_bandwidth monthly_used existing)
    within "upsert daily usage"
        (query S (upsert_daily_usage (usage_sample inst day disk bandwidth)))

  -- `recordDailyUsage`
  unfoldable pub record_daily_usage : Instance → ℤ → Call S (Unit {0})
  unfolding record_day
  record_daily_usage inst monthly_used = do time ← now S; record_day inst monthly_used (day_of time)

  -- `purgeOldDailyUsage`
  unfoldable pub purge_old : Call S (Unit {0})
  purge_old = do
    time ← now S
    ignore (
        query S (
          purge_old_daily_usage
            (day_of time - pos_part (or_default S.cfg.usage.daily_retention_days (pos 400)))))
