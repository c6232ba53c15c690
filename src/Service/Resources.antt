-- ===== src/Service/Resources.antt =====
-- internal/service/resources.go and hoststats.go: the live readings of an instance, and the free ports and disk of the host.
pub mod Consistent
use goincus.Base.{ℕ, ◌*◌, ◌^◌, String, Bool, true, false, ◌&&◌, if◌then◌else◌}
use goincus.Base.Int.{ℤ, pos, pos_part, ltb_ℤ, leb_ℤ}
use goincus.Base.Result.{Result, Error, ok, err, wrap}
use goincus.Models.{Instance, InstanceStatus, running, same_status}
use goincus.System.{
  System, Call, ResourceSample, no_sample, PoolSpace, incus_call, now, pure, fail, ◌>>=◌, attempt,
  settle, within,
}
use goincus.Ports.{PortStats, stats}
use goincus.Service.Status.{get_instance}
use goincus.Service.Hourly.{clamp_non_neg, compute_cpu_percent, or_plan}

-- `models.InstanceResourcesResponse`
pub record InstanceResources : Type 0 where
  pub instance_id : ℕ
  pub name : String
  pub status : InstanceStatus
  pub sampled_at : ℕ
  pub cpu_cores : ℤ
  pub cpu_percent : ℕ
  pub memory_limit_mb : ℤ
  pub memory_total_bytes : ℤ
  pub memory_used_bytes : ℤ
  pub disk_limit_gb : ℤ
  pub disk_total_bytes : ℤ
  pub disk_used_bytes : ℤ
  pub limit_mbps : ℤ
  pub monthly_limit_gb : ℤ
  pub monthly_used_bytes : ℤ
  pub period : String
  pub throttled : Bool
  pub total_bytes : ℤ

unfoldable pub resources_of :
    Instance → ResourceSample → (cpu_percent sampled_at : ℕ) → InstanceResources
resources_of inst sample cpu_percent sampled_at = record {
  instance_id = inst.id;
  name = inst.name;
  status = inst.status;
  sampled_at = sampled_at;
  cpu_cores = inst.cpu_cores;
  cpu_percent = cpu_percent;
  memory_limit_mb = inst.memory_mb;
  memory_total_bytes = clamp_non_neg (or_plan sample.memory_total_bytes inst.memory_mb (2 ^ 20));
  memory_used_bytes = clamp_non_neg sample.memory_used_bytes;
  disk_limit_gb = inst.storage_gb;
  disk_total_bytes = clamp_non_neg (or_plan sample.disk_total_bytes inst.storage_gb (2 ^ 30));
  disk_used_bytes = clamp_non_neg sample.disk_used_bytes;
  limit_mbps = inst.bandwidth_mbps;
  monthly_limit_gb = inst.traffic_monthly_gb;
  monthly_used_bytes = clamp_non_neg inst.traffic_used_bytes;
  period = inst.traffic_period;
  throttled = inst.traffic_throttled;
  total_bytes = clamp_non_neg sample.net_bytes_total;
}

-- `models.HostStatsResponse`
pub record HostStats : Type 0 where
  pub ports : PortStats
  pub disk : PoolSpace

module _ (S : System) where
  -- The second sample, one second after the first; without it the first one counts, with no CPU share.
  second_sample : Instance → ResourceSample → Result ResourceSample → ResourceSample × ℕ
  unfolding compute_cpu_percent
  second_sample inst first (ok second) = (
    second,
    compute_cpu_percent first.cpu_usage_ns second.cpu_usage_ns (pos 1_000_000_000) inst.cpu_cores,
  )
  second_sample inst first (err _) = (first, 0)

  -- An instance that does not run may have no counters.
  sample_twice : Instance → Result ResourceSample → Call S (ResourceSample × ℕ)
  unfolding second_sample
  sample_twice inst (ok first) = do
    again ← attempt (incus_call S (S.incus.resource_sample inst.incus_name))
    pure (second_sample inst first again)
  sample_twice inst (err e) =
      if same_status inst.status running
      then fail (wrap "resource sample" e)
      else pure (no_sample, 0)

  -- `GetInstanceResources`; the request is not cancelled in the second between the samples.
  unfoldable pub get_instance_resources : ℕ → Call S InstanceResources
  unfolding get_instance sample_twice resources_of
  get_instance_resources id = do
    inst ← get_instance S id
    first ← attempt (incus_call S (S.incus.resource_sample inst.incus_name))
    (sample, cpu_percent) ← sample_twice inst first
    time ← now S
    pure (resources_of inst sample cpu_percent time)

  -- `GetHostStats`
  unfoldable pub get_host_stats : Call S HostStats
  unfolding stats
  get_host_stats = do
    ports ← within "port stats" (stats S)
    disk ← within "disk stats" (incus_call S S.incus.storage_pool_space)
    pure (record { ports = ports; disk = disk })
