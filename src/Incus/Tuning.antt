-- ===== src/Incus/Tuning.antt =====
-- internal/incusclient: changes of the limits, the disk isolation and the disk quota of a container that exists.
use goincus.Base.{
  String, ◌<>◌, Bool, not, ◌&&◌, ◌||◌, List, [], ◌∷◌, none, some, ◌==◌, String-Eq, any,
  if◌then◌else◌,
}
use goincus.Base.Int.{ℤ}
use goincus.Base.Decimal.{decimal_ℤ}
use goincus.Base.Text.{trim_space, has_infix}
use goincus.Base.Split.{ends_with}
use goincus.Base.Maps.{
  Settings, value_at, has_key, without, with_value, overlay, text_at, device_at,
}
use goincus.System.{pure, ◌>>=◌}
use goincus.Incus.Daemon.{Daemon, Guest, Request, request, settings}
use goincus.Incus.Limits.{resource_config, apply_nic_network_policy}
use goincus.Incus.Proxies.{write_devices}

-- The needles of `MergeDiskIsolationRawLXC`, each with its line.
abbrev pub isolation_mounts : List (String × String)
isolation_mounts =
    (
      "tmpfs sys/block tmpfs",
      "lxc.mount.entry = tmpfs sys/block tmpfs ro,size=64k,mode=755,create=dir 0 0",
    )
    ∷ (
      "tmpfs sys/dev/block tmpfs",
      "lxc.mount.entry = tmpfs sys/dev/block tmpfs ro,size=64k,mode=755,create=dir 0 0",
    )
    ∷ (
      "tmpfs sys/class/block tmpfs",
      "lxc.mount.entry = tmpfs sys/class/block tmpfs ro,size=64k,mode=755,create=dir 0 0",
    )
    ∷ []

-- A newline at the end of a text that is not empty and has none.
abbrev pub closed_line : String → String
closed_line out = if not (out == "") && not (ends_with b'\n' out) then out <> "\n" else out

-- One round of the loop: a line whose needle is missing is added.
unfoldable pub add_mounts : String → List (String × String) → String
add_mounts out [] = out
add_mounts out ((needle, line) ∷ mounts) =
    add_mounts (if has_infix needle out then out else closed_line out <> (line <> "\n")) mounts

-- `MergeDiskIsolationRawLXC`
unfoldable pub merge_disk_isolation_raw_lxc : String → String
unfolding add_mounts
merge_disk_isolation_raw_lxc existing =
    closed_line (add_mounts (trim_space existing) isolation_mounts)

-- The NIC that a change starts from: the instance's own, or else a copy of the inherited one, with its
-- type and name filled in.
unfoldable pub current_nic : Guest → Settings
current_nic inst =
    let eth0 : Settings = elim (value_at inst.devices "eth0") [
      | some own ↦ own
      | none ↦ overlay [] (device_at inst.expanded_devices "eth0")
    ] in
    let typed = if text_at eth0 "type" == "" then with_value eth0 "type" "nic" else eth0 in
    if text_at typed "name" == "" then with_value typed "name" "eth0" else typed

-- What `UpdateResourceLimits` makes of the settings of an instance.
unfoldable pub limited_config : Settings → (cpu_cores memory_mb processes : ℤ) → Settings
unfolding merge_disk_isolation_raw_lxc
limited_config config cpu_cores memory_mb processes =
    let cfg = resource_config cpu_cores memory_mb processes in
    let merged = overlay config cfg in
    let trimmed =
      if has_key cfg "limits.cpu.allowance"
      then merged
      else without merged "limits.cpu.allowance" in
    with_value trimmed "raw.lxc" (merge_disk_isolation_raw_lxc (text_at trimmed "raw.lxc"))

-- The test of `ApplyNetworkPolicy` for a change from `eth0` to `want`.
unfoldable pub nic_changed : (eth0 want : Settings) → Bool
nic_changed eth0 want =
    any (λ entry. not (text_at eth0 entry.0 == entry.1)) want
    || (if has_key eth0 "limits.max"
        then text_at want "limits.max" == ""
        else not (text_at want "limits.max" == ""))
    || not (text_at eth0 "limits.max" == text_at want "limits.max")

module _ (D : Daemon) where
  -- `UpdateResourceLimits`
  unfoldable pub update_resource_limits :
      String
      → (cpu_cores memory_mb processes bandwidth_mbps : ℤ) → (throttled : Bool)
      → Request D (Unit {0})
  unfolding limited_config current_nic
  update_resource_limits name cpu_cores memory_mb processes bandwidth_mbps throttled = do
    (inst, etag) ← request D (D.get_instance name)
    write_devices D name (limited_config inst.config cpu_cores memory_mb processes)
        (with_value inst.devices "eth0"
          (apply_nic_network_policy (current_nic inst) bandwidth_mbps throttled))
        etag

  -- `ApplyNetworkPolicy`
  unfoldable pub apply_network_policy : String → ℤ → (throttled : Bool) → Request D (Unit {0})
  unfolding current_nic nic_changed
  apply_network_policy name bandwidth_mbps throttled = do
    (inst, etag) ← request D (D.get_instance name)
    let want = apply_nic_network_policy (current_nic inst) bandwidth_mbps throttled
    if nic_changed (current_nic inst) want
        then write_devices D name inst.config (with_value inst.devices "eth0" want) etag
        else pure tt

  -- `EnsureDiskIsolation`
  unfoldable pub ensure_disk_isolation : String → Request D (Unit {0})
  unfolding merge_disk_isolation_raw_lxc
  ensure_disk_isolation name = do
    (inst, etag) ← request D (D.get_instance name)
    let merged = merge_disk_isolation_raw_lxc (text_at inst.config "raw.lxc")
    if trim_space (text_at inst.config "raw.lxc") == trim_space merged
        then pure tt
        else write_devices D name (with_value inst.config "raw.lxc" merged) inst.devices etag

  -- `UpdateStorageQuota`
  unfoldable pub update_storage_quota : String → ℤ → Request D (Unit {0})
  update_storage_quota name storage_gb = do
    (inst, etag) ← request D (D.get_instance name)
    cfg ← settings D
    let root : Settings = elim (value_at inst.devices "root") [
      | some own ↦ own
      | none ↦ ("type", "disk") ∷ ("pool", cfg.storage_pool) ∷ ("path", "/") ∷ []
    ]
    let sized = with_value root "size" (decimal_ℤ storage_gb <> "GiB")
    write_devices D name inst.config
        (with_value inst.devices "root" (with_value sized "pool" cfg.storage_pool)) etag
