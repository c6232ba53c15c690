-- ===== src/Incus/Limits/Quota.antt =====
-- The CPU settings that `ResourceConfig` gives a container.
use goincus.Base.{
  ℕ, ◌+◌, ◌*◌, ◌/◌, ◌%◌, ◌≤◌, ◌≡◌, refl, ◌==◌, ℕ-Eq, ◌<>◌, none, some, arith, Bool-cases, inl, inr,
  if◌then◌else◌,
}
use goincus.Base.Int.{ℤ, pos}
use goincus.Base.Decimal.{decimal}
use goincus.Base.Maps.{value_at, without}
use goincus.Incus.Limits.{pinned, quota_ms, resource_config, at_least}

at_least_tenth : (h : ℕ) → 10 ≤ h → at_least 100_000_000 (pos (h * 10_000_000)) ≡ h * 10_000_000
at_least_tenth h low = ground arith

pinned_up : (h : ℕ) → 10 ≤ h → pinned (h * 10_000_000) ≡ (h + 99) / 100
unfolding pinned
pinned_up h low = ground arith

quota_ms_same : (h : ℕ) → 10 ≤ h → quota_ms (h * 10_000_000) ≡ h
unfolding quota_ms
quota_ms_same h low = ground arith

-- A container with a plan of `hundredths` hundredths of a core, at least ten, is pinned to as many CPUs as that
-- is, rounded up; and it has a quota of as many milliseconds in 100 exactly if these are not whole CPUs.
-- (Plans are rounded to hundredths when an instance is created.)
pub resource_config_cpu :
    (hundredths : ℕ) (memory_mb processes : ℤ)
    → 10 ≤ hundredths
    → let config = resource_config (pos (hundredths * 10_000_000)) memory_mb processes in
      (value_at config "limits.cpu" ≡ some (decimal ((hundredths + 99) / 100)))
      × (value_at config "limits.cpu.allowance"
          ≡ (if hundredths % 100 == 0 then none else some (decimal hundredths <> "ms/100ms")))
unfolding resource_config value_at without
resource_config_cpu hundredths memory_mb processes low =
    let cores = at_least_tenth hundredths low in
    let pins = pinned_up hundredths low in
    let quota = quota_ms_same hundredths low in
    elim (Bool-cases (hundredths % 100 == 0)) [
      | inl whole ↦ rw (cores, pins, quota, whole) (refl, refl)
      | inr part ↦ rw (cores, pins, quota, part) (refl, refl)
    ]
