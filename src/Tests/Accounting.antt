-- ===== src/Tests/Accounting.antt =====
-- The counting of traffic, the chart, and the configuration at concrete values.
use goincus.Base.{
  ℕ, ◌+◌, ◌-◌, ◌*◌, ◌≤◌, ◌<◌, ◌≡◌, ◌↔◌, refl, true, [], ◌∷◌, map, length, arith, String-Eq,
}
use goincus.Base.Int.{pos}
use goincus.Base.Text.{has_infix}
use goincus.Base.Result.{ok}
use goincus.Config.{validate, valid_api_key}
use goincus.Config.Laws.{Usable, validate-Usable, valid_api_key_lem}
use goincus.Service.Usage.{
  gib, chart_points, bandwidth_since, get_usage_chart, UsageChart, DailyUsagePoint,
}
use goincus.Service.Usage.Chart.{
  chart_points-day_by_day, date_and_bandwidth, get_usage_chart_ok, bandwidth_since-sum,
}
use goincus.Service.Traffic.{traffic_exceeded}
use goincus.Service.Traffic.Counting.{
  accumulate_all, accumulate_all-total, accumulate_all-Rising, traffic_exceeded_iff,
}
use goincus.Store.Ports.{by_port}
use goincus.Store.Usage.{by_day}
use goincus.Tests.Servers.{small_system, small_world, small_config, all_work}
use goincus.Tests.Lifecycle.{sample}

-- The counter is reset between 900 and 50.
accumulate_all-total_example :
    accumulate_all (pos 1000, pos 400) (600 ∷ 900 ∷ 50 ∷ 80 ∷ []) ≡ (pos 1580, pos 80)
accumulate_all-total_example =
    accumulate_all-total 1000 400 (600 ∷ 900 ∷ 50 ∷ 80 ∷ []) (omega arith)

accumulate_all-Rising_example :
    accumulate_all (pos 1000, pos 400) (600 ∷ 900 ∷ []) ≡ (pos 1500, pos 900)
accumulate_all-Rising_example =
    accumulate_all-Rising 1000 400 (600 ∷ 900 ∷ []) (omega arith, (omega arith, tt)) (omega arith)

traffic_exceeded_iff_example :
    (traffic_exceeded (pos 1_073_741_824) (pos 1) ≡ true) ↔ ((0 < 1) × (1 * gib ≤ 1_073_741_824))
traffic_exceeded_iff_example = traffic_exceeded_iff 1_073_741_824 1 (omega arith)

chart_points-day_by_day_example :
    map date_and_bandwidth
      (chart_points (sample ∷ []) 3 20_729 (record { disk_used = pos 0; disk_total = pos 0 }))
    ≡ ((20_729, pos 0) ∷ (20_730, pos 500_000) ∷ (20_731, pos 0) ∷ [])
chart_points-day_by_day_example =
    chart_points-day_by_day (sample ∷ []) 3 20_729
      (record { disk_used = pos 0; disk_total = pos 0 })

bandwidth_since-sum_example :
    (b : ℕ) × (d : ℕ) × (bandwidth_since (pos 700) (pos 40) ≡ (pos b, pos d))
    × (b + d ≡ 40)
    × (b ≤ 700)
bandwidth_since-sum_example = bandwidth_since-sum 700 40

abbrev point : ℕ → DailyUsagePoint
point date = record {
  date = date;
  disk_used_bytes = pos 0;
  disk_total_bytes = pos 10_737_418_240;
  bandwidth_bytes = pos 0;
}

abbrev two_days : UsageChart
two_days = record {
  instance_id = 1;
  name = "web";
  days = 2;
  from = 20_729;
  to = 20_730;
  points = point 20_729 ∷ point 20_730 ∷ [];
}

chart_works :
    (get_usage_chart (small_system all_work) 1 (pos 2) (small_world all_work)).0 ≡ ok two_days
unfolding get_usage_chart by_port by_day
chart_works = refl

get_usage_chart_ok_example :
    (1 ≤ 2) × (2 ≤ 366) × (length two_days.points ≡ 2) × (20_729 ≡ 20_730 + 1 - 2)
get_usage_chart_ok_example =
    get_usage_chart_ok (small_system all_work) 1 (pos 2) (small_world all_work) two_days chart_works

small_config_valid : validate small_config ≡ ok small_config
unfolding validate has_infix
small_config_valid = refl

validate-Usable_example : Usable small_config
validate-Usable_example = validate-Usable small_config small_config small_config_valid

valid_api_key_lem_example : valid_api_key small_config "key-2" ≡ true
valid_api_key_lem_example = valid_api_key_lem small_config "key-2"
