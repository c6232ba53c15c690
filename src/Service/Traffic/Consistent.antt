-- ===== src/Service/Traffic/Consistent.antt =====
-- The reconcile pass keeps the tables consistent.
use goincus.Base.{String, Bool, true, false, List, [], ◌∷◌}
use goincus.Base.Result.{Result, ok, err}
use goincus.Models.{Instance}
use goincus.Store.Tables.{list_active_instances}
use goincus.Store.Consistent.{Keeps}
use goincus.Store.Consistent.Traffic.{update_traffic_accounting-Keeps}
use goincus.System.{System}
use goincus.Service.Keeping.{Keeping, keeping, then-Keeping}
use goincus.Service.Usage.Consistent.{record_daily_usage-Keeping, purge_old-Keeping}
use goincus.Service.Traffic.{
  is_running, Counters, read_counters, set_throttle, store_counters, reconcile_instance_traffic,
  reconcile_one, reconcile_all, reconcile_listed, reconcile_traffic,
}

module _ (S : System) where
  is_running-Keeping : (name : String) → Keeping S (is_running S name)
  unfolding is_running
  is_running-Keeping name = record { keeps = λ w c. c }

  read_counters-Keeping : (inst : Instance) (b up : Bool) → Keeping S (read_counters S inst b up)
  unfolding read_counters
  read_counters-Keeping inst b true = search keeping
  read_counters-Keeping inst b false = search keeping

  set_throttle-Keeping : (inst : Instance) (b a : Bool) → Keeping S (set_throttle S inst b a)
  unfolding set_throttle
  set_throttle-Keeping inst b a = search keeping

  store_counters-Keeping :
      (inst : Instance) (c : Counters) (period : String) (throttled b : Bool)
      → Keeping S (store_counters S inst c period throttled b)
  unfolding store_counters
  store_counters-Keeping inst c period throttled true =
      search (keeping, update_traffic_accounting-Keeps)
  store_counters-Keeping inst c period throttled false = search keeping

  pub reconcile_instance_traffic-Keeping :
      (inst : Instance) (period : String) → Keeping S (reconcile_instance_traffic S inst period)
  unfolding reconcile_instance_traffic
  reconcile_instance_traffic-Keeping inst period =
      search
        (
          keeping, is_running-Keeping, read_counters-Keeping, set_throttle-Keeping,
          store_counters-Keeping, record_daily_usage-Keeping,
        )
        depth 16

  reconcile_one-Keeping :
      (inst : Instance) (period : String) → Keeping S (reconcile_one S inst period)
  unfolding reconcile_one
  reconcile_one-Keeping inst period = search (keeping, reconcile_instance_traffic-Keeping)

  reconcile_all-Keeping :
      (list : List Instance) (period : String) → Keeping S (reconcile_all S list period)
  unfolding reconcile_all
  reconcile_all-Keeping [] period = search keeping
  reconcile_all-Keeping (inst ∷ list) period =
      then-Keeping S (reconcile_one S inst period) (reconcile_all S list period)
        (reconcile_one-Keeping inst period) (reconcile_all-Keeping list period)

  reconcile_listed-Keeping : (r : Result (List Instance)) → Keeping S (reconcile_listed S r)
  unfolding reconcile_listed
  reconcile_listed-Keeping (err _) = search keeping
  reconcile_listed-Keeping (ok list) = record {
    keeps = λ w c.
        (then-Keeping S (reconcile_all S list _) _ (reconcile_all-Keeping list _)
            (purge_old-Keeping S)).keeps
          _ c;
  }

  list_active_instances-Keeps : Keeps list_active_instances
  list_active_instances-Keeps now d c = c

  pub reconcile_traffic-Keeping : Keeping S (reconcile_traffic S)
  unfolding reconcile_traffic
  reconcile_traffic-Keeping =
      search (keeping, list_active_instances-Keeps, reconcile_listed-Keeping) depth 12
