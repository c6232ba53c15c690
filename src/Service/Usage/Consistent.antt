-- ===== src/Service/Usage/Consistent.antt =====
-- The operations of Service/Usage keep the tables consistent.
use goincus.Base.{ℕ, ◌-◌}
use goincus.Base.Int.{ℤ, pos, pos_part}
use goincus.Base.Civil.{day_of}
use goincus.Config.{or_default}
use goincus.Base.Result.{Result, ok, err}
use goincus.Models.{Instance}
use goincus.Store.Usage.{get_daily_usage, purge_old_daily_usage}
use goincus.Store.Consistent.{Keeps}
use goincus.Store.Consistent.Usage.{upsert_daily_usage-Keeps, purge_old_daily_usage-Keeps}
use goincus.System.{System, ResourceSample}
use goincus.Service.Keeping.{Keeping, keeping, query-Keeping}
use goincus.Service.Usage.{previous_sample, read_disk, record_day, record_daily_usage, purge_old}

module _ (S : System) where
  get_daily_usage-Keeps : (id day : ℕ) → Keeps (get_daily_usage id day)
  get_daily_usage-Keeps id day now d c = c

  previous_sample-Keeping :
      (inst : Instance) (day : ℕ) (r : Result ResourceSample)
      → Keeping S (previous_sample S inst day r)
  unfolding previous_sample
  previous_sample-Keeping inst day (ok _) = search keeping
  previous_sample-Keeping inst day (err _) = search (keeping, get_daily_usage-Keeps)

  read_disk-Keeping : (inst : Instance) (day : ℕ) → Keeping S (read_disk S inst day)
  unfolding read_disk
  read_disk-Keeping inst day = record {
    keeps = λ w c. (previous_sample-Keeping inst day _).keeps _ c;
  }

  record_day-Keeping :
      (inst : Instance) (used : ℤ) (day : ℕ) → Keeping S (record_day S inst used day)
  unfolding record_day
  record_day-Keeping inst used day =
      search (keeping, read_disk-Keeping, get_daily_usage-Keeps, upsert_daily_usage-Keeps) depth 16

  pub record_daily_usage-Keeping :
      (inst : Instance) (used : ℤ) → Keeping S (record_daily_usage S inst used)
  unfolding record_daily_usage
  record_daily_usage-Keeping inst used = record {
    keeps = λ w c. (record_day-Keeping inst used _).keeps _ c;
  }

  pub purge_old-Keeping : Keeping S (purge_old S)
  unfolding purge_old
  purge_old-Keeping = record {
    keeps = λ w c.
        let before =
          day_of (S.readings.time_at w.ticks)
          - pos_part (or_default S.cfg.usage.daily_retention_days (pos 400)) in
        (query-Keeping S (purge_old_daily_usage before) (purge_old_daily_usage-Keeps before)).keeps
          _ c;
  }
