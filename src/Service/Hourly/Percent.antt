-- ===== src/Service/Hourly/Percent.antt =====
-- The per cent of CPU that `computeCPUPercent` reports.
use goincus.Base.{ℕ, ◌+◌, ◌*◌, ◌/◌, ◌<◌, ◌≤◌, ◌≡◌, refl, arith}
use goincus.Base.Int.{pos, ◌-ℤ◌, pos_part, wrap64, wrap64_of_lt, half_range}
use goincus.Service.Hourly.{cpu_share, cpu_cap, compute_cpu_percent}

times_le : (m a b : ℕ) → a ≤ b → m * a ≤ m * b
times_le m a b h = grind arith

positive_product : (a b : ℕ) → 0 < a → 0 < b → 0 < a * b
positive_product a b ha hb = grind arith

div_bounds : (x d : ℕ) → 0 < d → (x / d * d ≤ x) × (x < x / d * d + d)
div_bounds x d h = (grind arith, grind arith)

-- A number of hundredths of a per cent that is nearest to the share of the capacity `m`.
abbrev pub Nearest : (delta m p : ℕ) → Type 0
Nearest delta m p =
    (2 * delta * 10_000_000_000_000 < (2 * p + 1) * m)
    × (2 * p * m ≤ 2 * delta * 10_000_000_000_000 + m)

cpu_share-Nearest : (delta e c : ℕ) → 0 < e * c → Nearest delta (e * c) (cpu_share delta e c)
unfolding cpu_share
cpu_share-Nearest delta e c h =
    let bounds =
      div_bounds (2 * (delta * 10_000_000_000_000) + e * c) (2 * (e * c)) (omega arith) in
    (grind arith, grind arith)

within_cap :
    (delta m c : ℕ)
    → delta * 1_000_000_000 ≤ m
    → 1_000_000_000 ≤ c
    → delta * 1_000_000_000_000_000_000 ≤ m * c
within_cap delta m c used h = let scaled = times_le m 1_000_000_000 c h in omega arith

difference : (prev delta : ℕ) → pos (prev + delta) -ℤ pos prev ≡ pos delta
unfolding ◌-ℤ◌
difference prev delta = ground arith

-- The difference of two counters below 2 ^ 63.
no_wrap :
    (prev delta : ℕ)
    → prev + delta < half_range
    → pos_part (wrap64 (pos (prev + delta) -ℤ pos prev)) ≡ delta
no_wrap prev delta h =
    let same : pos (prev + delta) -ℤ pos prev ≡ pos delta = difference prev delta in
    rw (same, wrap64_of_lt delta (omega (arith, h))) refl

-- A guest of one core or more, whose counter grew by no more CPU time than its plan gives: the report is the
-- share of the plan that it used, in hundredths of a per cent, rounded to the nearest. So it is between 0
-- and 100 per cent, and 100 where the guest used all of its cores.
pub compute_cpu_percent_share :
    (prev delta elapsed cores : ℕ)
    → prev + delta < half_range
    → 0 < elapsed
    → 1_000_000_000 ≤ cores
    → delta * 1_000_000_000 ≤ elapsed * cores
    → Nearest delta
        (elapsed * cores)
        (compute_cpu_percent (pos prev) (pos (prev + delta)) (pos elapsed) (pos cores))
unfolding compute_cpu_percent
compute_cpu_percent_share prev delta elapsed cores small he hc used =
    let positive = positive_product elapsed cores he (omega arith) in
    let share = cpu_share-Nearest delta elapsed cores positive in
    let under = within_cap delta (elapsed * cores) cores used hc in
    rw (no_wrap prev delta small) (ground arith)

over_cap :
    (delta e c : ℕ)
    → 0 < e * c
    → delta * 1_000_000_000 ≡ e * c
    → c < 1_000_000_000
    → e * c * c < delta * 1_000_000_000_000_000_000
over_cap delta e c positive full h =
    let scaled = times_le (e * c) (c + 1) 1_000_000_000 (omega arith) in grind arith

-- A guest of less than one core that used all the CPU time of its plan: the cap counts per cent of one core, so
-- the report is 100 times the cores.
pub compute_cpu_percent_full :
    (prev delta elapsed cores : ℕ)
    → prev + delta < half_range
    → 0 < elapsed
    → 0 < cores
    → cores < 1_000_000_000
    → delta * 1_000_000_000 ≡ elapsed * cores
    → compute_cpu_percent (pos prev) (pos (prev + delta)) (pos elapsed) (pos cores) ≡ cpu_cap cores
unfolding compute_cpu_percent
compute_cpu_percent_full prev delta elapsed cores small he hc part full =
    let positive = positive_product elapsed cores he hc in
    let over = over_cap delta elapsed cores positive full part in
    rw (no_wrap prev delta small) (ground arith)
