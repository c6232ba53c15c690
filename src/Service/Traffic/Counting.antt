-- ===== src/Service/Traffic/Counting.antt =====
-- How `AccumulateTraffic` and `TrafficExceeded` (internal/service/traffic.go) count.
use goincus.Base.{
  ℕ, ◌+◌, ◌-◌, ◌*◌, ◌≤◌, ◌<◌, ◌≡◌, ap, ◌∙◌, ◌↔◌, true, List, [], ◌∷◌, ltb, if◌then◌else◌, arith,
}
use goincus.Base.Int.{ℤ, pos, wrap64_of_lt, half_range, ◌+ℤ◌, ◌-ℤ◌}
use goincus.Service.Usage.{gib}
use goincus.Service.Traffic.{accumulate_traffic, traffic_exceeded}

-- What has passed since the last reading: the difference, or everything after a reset.
abbrev pub passed : ℕ → ℕ → ℕ
passed last current = if ltb current last then current else current - last

-- In range nothing wraps: the new total is the old one and what has passed, and the new reading is kept.
pub accumulate_in_range :
    (used last current : ℕ)
    → used + passed last current < half_range
    → accumulate_traffic (pos used) (pos last) (pos current)
      ≡ (pos (used + passed last current), pos current)
unfolding accumulate_traffic ◌+ℤ◌ ◌-ℤ◌
accumulate_in_range used last current h =
    ground (arith, wrap64_of_lt (used + passed last current) h)

-- A series of readings, one after the other.
abbrev pub accumulate_all : ℤ × ℤ → List ℕ → ℤ × ℤ
accumulate_all (used, last) [] = (used, last)
accumulate_all (used, last) (c ∷ cs) = accumulate_all (accumulate_traffic used last (pos c)) cs

abbrev pub total_passed : ℕ → List ℕ → ℕ
total_passed last [] = 0
total_passed last (c ∷ cs) = passed last c + total_passed c cs

abbrev pub last_of : ℕ → List ℕ → ℕ
last_of last [] = last
last_of last (c ∷ cs) = last_of c cs

-- Over a series of readings, with resets or without, the monthly total grows by the sum of what has
-- passed between one reading and the next, and the last reading is kept, as long as the total is less
-- than 2^63.
pub accumulate_all-total :
    (used last : ℕ) (cs : List ℕ)
    → used + total_passed last cs < half_range
    → accumulate_all (pos used, pos last) cs
      ≡ (pos (used + total_passed last cs), pos (last_of last cs))
accumulate_all-total used last [] h = ap (λ u. (pos u, pos last)) (omega arith)
accumulate_all-total used last (c ∷ cs) h = rw (accumulate_in_range used last c (omega arith)) (
    accumulate_all-total (used + passed last c) c cs (omega arith)
    ∙ ap (λ u. (pos u, pos (last_of c cs))) (omega arith))

-- No reading is less than the one before it.
abbrev pub Rising : ℕ → List ℕ → Type 0
Rising last [] = Unit
Rising last (c ∷ cs) = (last ≤ c) × Rising c cs

total_passed-Rising :
    (last : ℕ) (cs : List ℕ) → Rising last cs → last + total_passed last cs ≡ last_of last cs
total_passed-Rising last [] h = omega arith
total_passed-Rising last (c ∷ cs) h = ground (arith, total_passed-Rising c cs h.1)

-- Without a reset the total does not depend on when the counter is read: it grows by the difference
-- between the last reading and the first, as long as it is less than 2^63.
pub accumulate_all-Rising :
    (used last : ℕ) (cs : List ℕ)
    → Rising last cs
    → used + (last_of last cs - last) < half_range
    → accumulate_all (pos used, pos last) cs
      ≡ (pos (used + (last_of last cs - last)), pos (last_of last cs))
accumulate_all-Rising used last cs rising h =
    let e = total_passed-Rising last cs rising in
    accumulate_all-total used last cs (omega arith)
    ∙ ap (λ u. (pos u, pos (last_of last cs))) (omega arith)

-- The quota is used up exactly if there is one and the bytes reach it; a quota of 0 is unlimited. (The
-- quota in bytes is taken to fit into 63 bits.)
pub traffic_exceeded_iff :
    (used gb : ℕ)
    → gb * gib < half_range
    → (traffic_exceeded (pos used) (pos gb) ≡ true) ↔ ((0 < gb) × (gb * gib ≤ used))
unfolding traffic_exceeded
traffic_exceeded_iff used gb h = ground (arith, wrap64_of_lt (gb * gib) h)
