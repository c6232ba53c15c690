-- ===== src/Store/Usage.antt =====
-- The table `instance_daily_usage`: the queries of internal/db/store.go on it. Days are counted from the
-- epoch.
use goincus.Base.{
  ℕ, Bool, not, ◌&&◌, List, [], ◌∷◌, Option, none, some, ◌==◌, ℕ-Eq, leb, ltb, if◌then◌else◌, any,
  find, select,
}
use goincus.Base.Int.{pos, leb_ℤ}
use goincus.Base.Result.{Result, ok, err, not_found, failure}
use goincus.Store.Tables.{Query, DailyUsageRow}

abbrev pub same_day : ℕ → ℕ → DailyUsageRow → Bool
same_day instance_id day r = r.instance_id == instance_id && r.day == day

abbrev pub valid_usage : DailyUsageRow → Bool
valid_usage r =
    leb_ℤ (pos 0) r.disk_used_bytes
    && leb_ℤ (pos 0) r.disk_total_bytes
    && leb_ℤ (pos 0) r.bandwidth_bytes
    && leb_ℤ (pos 0) r.bandwidth_baseline_bytes

unfoldable pub put_usage : DailyUsageRow → List DailyUsageRow → List DailyUsageRow
put_usage r [] = r ∷ []
put_usage r (s ∷ rows) = if same_day r.instance_id r.day s then r ∷ rows else s ∷ put_usage r rows

-- `INSERT … ON CONFLICT (instance_id, day) DO UPDATE`
unfoldable pub upsert_daily_usage : DailyUsageRow → Query (Unit {0})
unfolding put_usage
upsert_daily_usage r now d =
    if not (any (λ i. i.id == r.instance_id) d.instances)
    then (err (failure "insert violates foreign key constraint"), d)
    else if valid_usage r
    then (ok tt, record d { daily_usage = put_usage r d.daily_usage })
    else (err (failure "new row violates check constraint"), d)

abbrev usage_row : Option DailyUsageRow → Result DailyUsageRow
usage_row none = err not_found
usage_row (some r) = ok r

abbrev pub get_daily_usage : ℕ → ℕ → Query DailyUsageRow
get_daily_usage instance_id day now d =
    (usage_row (find (same_day instance_id day) d.daily_usage), d)

-- `ORDER BY day ASC`
unfoldable pub insert_by_day : DailyUsageRow → List DailyUsageRow → List DailyUsageRow
insert_by_day r [] = r ∷ []
insert_by_day r (s ∷ rows) = if ltb s.day r.day then s ∷ insert_by_day r rows else r ∷ s ∷ rows

unfoldable pub by_day : List DailyUsageRow → List DailyUsageRow
unfolding insert_by_day
by_day [] = []
by_day (r ∷ rows) = insert_by_day r (by_day rows)

abbrev pub list_daily_usage : ℕ → ℕ → ℕ → Query (List DailyUsageRow)
list_daily_usage instance_id from to now d = (
  ok (
      by_day (
        select (λ r. r.instance_id == instance_id && (leb from r.day && leb r.day to))
          d.daily_usage)),
  d,
)

abbrev pub purge_old_daily_usage : ℕ → Query (Unit {0})
purge_old_daily_usage before now d =
    (ok tt, record d { daily_usage = select (λ r. not (ltb r.day before)) d.daily_usage })
