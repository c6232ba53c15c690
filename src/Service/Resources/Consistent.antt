-- ===== src/Service/Resources/Consistent.antt =====
-- The readings, the health check and the usage chart leave the tables as they are.
use goincus.Base.{ℕ}
use goincus.Base.Int.{ℤ}
use goincus.Base.Result.{Result, ok, err}
use goincus.Models.{Instance}
use goincus.Store.Consistent.{Keeps}
use goincus.Store.Ports.{list_used_host_ports}
use goincus.Store.Usage.{list_daily_usage}
use goincus.Store.Calls.Consistent as StoreCalls
use goincus.System.{System, ResourceSample, query}
use goincus.Service.Keeping.{Keeping, keeping, query-Keeping}
use goincus.Ports.{stats}
use goincus.Service.Status.{health}
use goincus.Service.Status.Consistent.{get_instance-Keeping}
use goincus.Service.Usage.{get_usage_chart}
use goincus.Service.Resources.{sample_twice, get_instance_resources, get_host_stats}

list_used_host_ports-Keeps : Keeps list_used_host_ports
list_used_host_ports-Keeps now d c = c

list_daily_usage-Keeps : (id from to : ℕ) → Keeps (list_daily_usage id from to)
list_daily_usage-Keeps id from to now d c = c

module _ (S : System) where
  ping-Keeping : Keeping S {A = Unit {0}} (query S (λ now d. (ok tt, d)))
  ping-Keeping = query-Keeping S (λ now d. (ok tt, d)) (λ now d c. c)

  pub health-Keeping : Keeping S (health S)
  unfolding health
  health-Keeping = search (keeping, ping-Keeping) depth 16

  pub get_usage_chart-Keeping : (id : ℕ) (days : ℤ) → Keeping S (get_usage_chart S id days)
  unfolding get_usage_chart
  get_usage_chart-Keeping id days =
      search (keeping, StoreCalls.get_instance-Keeping, list_daily_usage-Keeps) depth 16

  sample_twice-Keeping :
      (inst : Instance) (r : Result ResourceSample) → Keeping S (sample_twice S inst r)
  unfolding sample_twice
  sample_twice-Keeping inst (ok first) = search keeping
  sample_twice-Keeping inst (err e) = search keeping

  pub get_instance_resources-Keeping : (id : ℕ) → Keeping S (get_instance_resources S id)
  unfolding get_instance_resources
  get_instance_resources-Keeping id =
      search (keeping, get_instance-Keeping, sample_twice-Keeping) depth 16

  stats-Keeping : Keeping S (stats S)
  unfolding stats
  stats-Keeping = search (keeping, list_used_host_ports-Keeps)

  pub get_host_stats-Keeping : Keeping S (get_host_stats S)
  unfolding get_host_stats
  get_host_stats-Keeping = search (keeping, stats-Keeping) depth 12
