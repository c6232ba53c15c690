-- ===== src/Incus/Limits.antt =====
-- internal/incusclient/client.go and security.go: the settings that limit and confine a container, as
-- maps. CPU cores are counted in billionths.
pub mod Confined
pub mod Quota
use goincus.Base.{
  ℕ, suc, ◌+◌, ◌-◌, ◌*◌, ◌/◌, ◌%◌, String, ◌<>◌, Bool, true, false, not, ◌&&◌, ◌||◌, List, [], ◌∷◌,
  ◌++◌, ◌==◌, String-Eq, ℕ-Eq, ltb, leb, contains, if◌then◌else◌,
}
use goincus.Base.Int.{ℤ, pos, pos_part, leb_ℤ, ltb_ℤ}
use goincus.Base.Decimal.{decimal, decimal_ℤ}
use goincus.Base.Maps.{Settings, without, with_value, overlay, text_at}

-- `UnprivilegedProfile`
abbrev pub unprivileged_profile : String
unprivileged_profile = "goincus-unprivileged"

-- `diskIsolationRawLXC`, line by line.
abbrev pub disk_isolation_lines : List String
disk_isolation_lines =
    "lxc.mount.entry = tmpfs sys/block tmpfs ro,size=64k,mode=755,create=dir 0 0"
    ∷ "lxc.mount.entry = tmpfs sys/dev/block tmpfs ro,size=64k,mode=755,create=dir 0 0"
    ∷ "lxc.mount.entry = tmpfs sys/class/block tmpfs ro,size=64k,mode=755,create=dir 0 0" ∷ []

abbrev pub lines_text : List String → String
lines_text [] = ""
lines_text (l ∷ ls) = l <> ("\n" <> lines_text ls)

-- `HardenedInstanceConfig`
unfoldable pub hardened_instance_config : Settings
hardened_instance_config =
    ("security.privileged", "false")
    ∷ ("security.nesting", "false")
    ∷ ("security.idmap.isolated", "true")
    ∷ ("security.guestapi", "false")
    ∷ ("security.syscalls.deny_default", "true")
    ∷ ("security.syscalls.deny_compat", "true")
    ∷ ("security.syscalls.intercept.bpf", "false")
    ∷ ("security.syscalls.intercept.mknod", "false")
    ∷ ("security.syscalls.intercept.mount", "false")
    ∷ ("security.syscalls.intercept.setxattr", "false")
    ∷ ("security.syscalls.intercept.sysinfo", "false")
    ∷ ("security.syscalls.intercept.sched_setscheduler", "false")
    ∷ ("linux.kernel_modules", "")
    ∷ ("raw.lxc", lines_text disk_isolation_lines)
    ∷ []

-- `HardenedNIC`
unfoldable pub hardened_nic : (network ipv4 : String) → Settings
hardened_nic network ipv4 =
    let nic =
      ("type", "nic")
      ∷ ("network", network)
      ∷ ("name", "eth0")
      ∷ ("security.mac_filtering", "true")
      ∷ ("security.ipv4_filtering", "true")
      ∷ ("security.ipv6_filtering", "true")
      ∷ ("security.port_isolation", "true")
      ∷ [] in
    if ipv4 == "" then nic else with_value nic "ipv4.address" ipv4

-- `OverQuotaThrottleLimit`
abbrev pub over_quota_throttle_limit : String
over_quota_throttle_limit = "8kbit"

abbrev clear_directions : Settings → Settings
clear_directions nic = without (without nic "limits.ingress") "limits.egress"

-- `ApplyNICBandwidth`
unfoldable pub apply_nic_bandwidth : Settings → ℤ → Settings
apply_nic_bandwidth nic mbps =
    if leb_ℤ mbps (pos 0)
    then without (clear_directions nic) "limits.max"
    else with_value (clear_directions nic) "limits.max" (decimal_ℤ mbps <> "Mbit")

-- `ApplyNICNetworkPolicy`
unfoldable pub apply_nic_network_policy : Settings → ℤ → Bool → Settings
unfolding apply_nic_bandwidth
apply_nic_network_policy nic mbps throttled =
    if throttled
    then with_value (clear_directions nic) "limits.max" over_quota_throttle_limit
    else apply_nic_bandwidth nic mbps

-- At least `least`, as a natural number.
abbrev pub at_least : ℕ → ℤ → ℕ
at_least least v = if ltb_ℤ v (pos least) then least else pos_part v

-- The number of pinned CPUs: `int(math.Ceil(cpuCores - 1e-9))`, at least one. The argument is in
-- billionths and not below a tenth of a core, and the result rounds up.
unfoldable pub pinned : ℕ → ℕ
pinned cores = let pin = (cores - 1 + 999_999_999) / 1_000_000_000 in if ltb pin 1 then 1 else pin

-- `int(math.Round(cpuCores * 100))`, at least ten: milliseconds of CPU time in 100 ms.
unfoldable pub quota_ms : ℕ → ℕ
quota_ms cores = let milli = (cores + 5_000_000) / 10_000_000 in if ltb milli 10 then 10 else milli

-- `ResourceConfig`
unfoldable pub resource_config : (cpu_cores memory_mb processes : ℤ) → Settings
unfolding pinned quota_ms
resource_config cpu_cores memory_mb processes =
    let cores = at_least 100_000_000 cpu_cores in
    let cfg =
      ("limits.cpu", decimal (pinned cores))
      ∷ ("limits.memory", decimal (at_least 64 memory_mb) <> "MiB")
      ∷ ("limits.memory.swap", "false")
      ∷ ("limits.processes", decimal (at_least 64 processes))
      ∷ [] in
    if quota_ms cores % 100 == 0
    then cfg
    else with_value cfg "limits.cpu.allowance" (decimal (quota_ms cores) <> "ms/100ms")

-- `add` of `sanitizeProfiles`, and of `uniquePoolNames`: a name that is empty, "default" or there already is passed over.
unfoldable pub add_name : List String → String → List String
add_name out name =
    if name == "" || name == "default" || contains out name then out else out ++ name ∷ []

unfoldable pub add_names : List String → List String → List String
unfolding add_name
add_names out [] = out
add_names out (n ∷ names) = add_names (add_name out n) names

-- `sanitizeProfiles`. What is collected starts with the hardened profile, so it is never empty.
unfoldable pub sanitize_profiles : List String → List String
unfolding add_name add_names
sanitize_profiles profiles =
    let out = add_names (add_name [] unprivileged_profile) profiles in
    elim out [ [] ↦ unprivileged_profile ∷ [] | p ∷ rest ↦ p ∷ rest ]

-- `mergeConfig`
abbrev pub merge_config : Settings → Settings → Settings
merge_config a b = overlay (overlay [] a) b
