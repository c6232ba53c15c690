-- ===== src/Base/Civil.antt =====
-- The civil calendar in UTC: the date of a time in seconds since the epoch, and Go's layouts `2006-01`
-- and `2006-01-02`. The days are counted in eras of 400 years that begin on a first of March.
use goincus.Base.{ℕ, ◌+◌, ◌-◌, ◌*◌, ◌/◌, ◌%◌, String, ◌<>◌, ◌≡◌, refl, ltb, leb, if◌then◌else◌}
use goincus.Base.Decimal.{decimal}

pub record Date : Type 0 where
  pub year : ℕ
  pub month : ℕ
  pub day : ℕ

civil_of_shifted : ℕ → Date
civil_of_shifted z =
    let era = z / 146_097 in
    let doe = z % 146_097 in
    let yoe = (doe + doe / 36_524 - doe / 1_460 - doe / 146_096) / 365 in
    let doy = doe - (365 * yoe + yoe / 4 - yoe / 100) in
    let mp = (5 * doy + 2) / 153 in
    let month = if ltb mp 10 then mp + 3 else mp - 9 in
    record {
      year = if leb month 2 then yoe + era * 400 + 1 else yoe + era * 400;
      month = month;
      day = doy - (153 * mp + 2) / 5 + 1;
    }

-- The date of a day, counted from 1970-01-01.
unfoldable pub date_of_day : ℕ → Date
unfolding civil_of_shifted
date_of_day days = civil_of_shifted (days + 719_468)

-- `t.Truncate(24 * time.Hour)`
abbrev pub day_of : ℕ → ℕ
day_of seconds = seconds / 86_400

pad2 : ℕ → String
pad2 n = if ltb n 10 then "0" <> decimal n else decimal n

-- `t.Format("2006-01")`, for a year of four digits.
unfoldable pub format_month : ℕ → String
unfolding date_of_day pad2 decimal
format_month seconds =
    let d = date_of_day (day_of seconds) in decimal d.year <> ("-" <> pad2 d.month)

-- 2026-10-04T22:00:00Z, as in the source's test.
period_in_october : format_month 1_791_151_200 ≡ "2026-10"
unfolding format_month
period_in_october = refl

leap_day : date_of_day 19_782 ≡ record { year = 2024; month = 2; day = 29 }
unfolding date_of_day
leap_day = refl
