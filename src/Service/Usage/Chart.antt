-- ===== src/Service/Usage/Chart.antt =====
-- What `GetUsageChart` and the daily sample (internal/service/usage.go) promise.
use goincus.Base.{
  ℕ, zero, suc, ◌+◌, ◌-◌, ◌≤◌, ◌≡◌, refl, ap, ◌∙◌, List, [], ◌∷◌, Option, none, some, map, find,
  length, ◌==◌, ℕ-Eq, arith, Bool-cases, ltb, inl, inr,
}
use goincus.Base.Int.{ℤ, pos, negsuc, ◌-ℤ◌}
use goincus.Base.Result.{ok}
use goincus.Store.Tables.{Db, DailyUsageRow}
use goincus.System.{System, World}
use goincus.Service.Ends.{Ends, bind-Ends, pure-Ends}
use goincus.Service.Usage.{
  DailyUsagePoint, UsageChart, Carried, chart_points, point_of, carry, lookback, bandwidth_since,
  get_usage_chart,
}

-- The bandwidth that the samples have for a day.
abbrev pub bandwidth_of : Option DailyUsageRow → ℤ
bandwidth_of none = pos 0
bandwidth_of (some r) = r.bandwidth_bytes

-- The days of a chart, each with its bandwidth.
abbrev pub day_by_day : List DailyUsageRow → ℕ → ℕ → List (ℕ × ℤ)
day_by_day rows zero date = []
day_by_day rows (suc n) date =
    (date, bandwidth_of (find (λ r. r.day == date) rows)) ∷ day_by_day rows n (date + 1)

abbrev pub date_and_bandwidth : DailyUsagePoint → ℕ × ℤ
date_and_bandwidth p = (p.date, p.bandwidth_bytes)

point_of_lem :
    (date : ℕ) (c : Carried) (row : Option DailyUsageRow)
    → date_and_bandwidth (point_of date c row) ≡ (date, bandwidth_of row)
point_of_lem date c none = refl
point_of_lem date c (some r) = refl

-- A chart has one point for each of its days, in order and without a gap, whatever samples there are;
-- each point has the bandwidth of that day's sample, and 0 where there is none.
pub chart_points-day_by_day :
    (rows : List DailyUsageRow) (n date : ℕ) (c : Carried)
    → map date_and_bandwidth (chart_points rows n date c) ≡ day_by_day rows n date
unfolding chart_points
chart_points-day_by_day rows zero date c = refl
chart_points-day_by_day rows (suc n) date c =
    let row = find (λ r. r.day == date) rows in
    ap (λ p. p ∷ map date_and_bandwidth (chart_points rows n (date + 1) (carry c row)))
      (point_of_lem date c row)
    ∙ ap (λ ps. (date, bandwidth_of row) ∷ ps)
        (chart_points-day_by_day rows n (date + 1) (carry c row))

pub lookback_bounds : (days : ℤ) → (1 ≤ lookback days) × (lookback days ≤ 366)
unfolding lookback
lookback_bounds (pos n) = (ground arith, ground arith)
lookback_bounds (negsuc n) = (ground arith, ground arith)

length-chart_points :
    (rows : List DailyUsageRow) (n date : ℕ) (c : Carried) → length (chart_points rows n date c) ≡ n
unfolding chart_points
length-chart_points rows zero date c = refl
length-chart_points rows (suc n) date c =
    ap suc (length-chart_points rows n (date + 1) (carry c (find (λ r. r.day == date) rows)))

charted :
    (rows : List DailyUsageRow) (days : ℤ) (to : ℕ) (c : Carried)
    → (1 ≤ lookback days)
      × (lookback days ≤ 366)
      × (length (chart_points rows (lookback days) (to + 1 - lookback days) c) ≡ lookback days)
      × (to + 1 - lookback days ≡ to + 1 - lookback days)
charted rows days to c =
    let (low, high) = lookback_bounds days in
    (low, high, length-chart_points rows (lookback days) (to + 1 - lookback days) c, refl)

module _ (S : System) where
  -- A chart that is returned has between 1 and 366 days, whatever number is asked for, as many points
  -- as days, and starts so many days before the day after its last.
  pub get_usage_chart_ok :
      (id : ℕ) (days : ℤ) (w : World S) (chart : UsageChart)
      → (get_usage_chart S id days w).0 ≡ ok chart
      → (1 ≤ chart.days)
        × (chart.days ≤ 366)
        × (length chart.points ≡ chart.days)
        × (chart.from ≡ chart.to + 1 - chart.days)
  unfolding get_usage_chart
  get_usage_chart_ok id days w chart h = returns.ends w chart h
    where
      returns :
          Ends S
            (λ (chart : UsageChart) (d : Db).
              (1 ≤ chart.days)
              × (chart.days ≤ 366)
              × (length chart.points ≡ chart.days)
              × (chart.from ≡ chart.to + 1 - chart.days))
            (get_usage_chart S id days)
      returns = search (bind-Ends, pure-Ends, charted) depth 16

-- With a sample earlier in the day, the stored baseline and bandwidth always add up to the monthly total,
-- and the bandwidth is never negative, also where the total has been reset since.
pub bandwidth_since-sum :
    (baseline used : ℕ)
    → (b : ℕ) × (d : ℕ) × (bandwidth_since (pos baseline) (pos used) ≡ (pos b, pos d))
      × (b + d ≡ used)
      × (b ≤ baseline)
unfolding ◌-ℤ◌
bandwidth_since-sum baseline used = elim (Bool-cases (ltb used baseline)) [
  | inl reset ↦ (used, 0, ground arith, omega arith, ground arith)
  | inr grown ↦ (baseline, used - baseline, ground arith, ground arith, omega arith)
]
