-- ===== src/Service/Traffic.antt =====
-- internal/service/traffic.go: the monthly transfer of an instance, from the counters that Incus
-- reports, and the throttle when the quota is used up.
pub mod Counting
pub mod Consistent
use goincus.Base.{
  ◌*◌, String, Bool, true, false, not, ◌&&◌, ◌||◌, List, [], ◌∷◌, ◌==◌, String-Eq, if◌then◌else◌,
}
use goincus.Base.Int.{ℤ, pos, pos_part, ltb_ℤ, leb_ℤ, ◌+ℤ◌, ◌-ℤ◌, wrap64}
use goincus.Base.Civil.{format_month}
use goincus.Base.Text.{equal_fold}
use goincus.Base.Result.{Result, ok, err}
use goincus.Models.{Instance, running, stopped, same_status}
use goincus.Store.Tables.{update_traffic_accounting, list_active_instances}
use goincus.System.{
  System, Call, query, incus_call, execute, now, pure, ◌>>=◌, ◌>>◌, ignore, attempt,
  apply_network_policy,
}
use goincus.Service.Usage.{gib, record_daily_usage, purge_old}

abbrev pub non_negative : ℤ → ℤ
non_negative v = if ltb_ℤ v (pos 0) then pos 0 else v

-- `AccumulateTraffic`: a counter below its last value has been reset, and all of it is new.
unfoldable pub accumulate_traffic : ℤ → ℤ → ℤ → ℤ × ℤ
unfolding ◌+ℤ◌ ◌-ℤ◌ wrap64
accumulate_traffic used last current =
    let c = non_negative current in
    let l = non_negative last in
    let delta = if ltb_ℤ c l then c else c -ℤ l in (wrap64 (non_negative used +ℤ delta), c)

-- `TrafficExceeded`
unfoldable pub traffic_exceeded : ℤ → ℤ → Bool
unfolding wrap64
traffic_exceeded used_bytes monthly_gb =
    if leb_ℤ monthly_gb (pos 0) || leb_ℤ used_bytes (pos 0)
    then false
    else leb_ℤ (wrap64 (pos (pos_part monthly_gb * gib))) used_bytes

-- The counters of an instance as `reconcileInstanceTraffic` works on them.
pub record Counters : Type 0 where
  pub used : ℤ
  pub snap : ℤ
  pub changed : Bool

abbrev same_ℤ : ℤ → ℤ → Bool
same_ℤ a b = leb_ℤ a b && leb_ℤ b a

-- A new period starts from the counter as it stands; in the same period the counter's growth is added.
unfoldable pub count_total : Bool → ℤ → ℤ → ℤ → Counters
unfolding accumulate_traffic
count_total true used snap total = record { used = pos 0; snap = total; changed = true }
count_total false used snap total =
    let (new_used, new_snap) = accumulate_traffic used snap total in
    record {
      used = new_used;
      snap = new_snap;
      changed = not (same_ℤ new_used used && same_ℤ new_snap snap);
    }

-- An instance that does not run: only a new period changes anything.
abbrev pub count_idle : Bool → ℤ → ℤ → Counters
count_idle true used snap = record { used = pos 0; snap = pos 0; changed = true }
count_idle false used snap = record { used = used; snap = snap; changed = false }

abbrev xor_bool : Bool → Bool → Bool
xor_bool true b = not b
xor_bool false b = b

module _ (S : System) where
  power_is_running : Result String → Bool
  unfolding equal_fold
  power_is_running (ok status) = equal_fold status "Running"
  power_is_running (err _) = false

  -- `IsRunning` of internal/incusclient/client.go
  unfoldable pub is_running : String → Call S Bool
  unfolding power_is_running
  is_running name = do
    status ← attempt (incus_call S (S.incus.get_status name))
    pure (power_is_running status)

  -- The counters after one look at the instance.
  read_counters : Instance → Bool → Bool → Call S Counters
  unfolding count_total
  read_counters inst period_changed true = do
    total ← incus_call S (S.incus.network_bytes_total inst.incus_name)
    pure (count_total period_changed inst.traffic_used_bytes inst.traffic_counter_snap total)
  read_counters inst period_changed false =
      pure (count_idle period_changed inst.traffic_used_bytes inst.traffic_counter_snap)

  -- A change of the throttle is applied to the container; a failure of that is only logged.
  set_throttle : Instance → Bool → Bool → Call S (Unit {0})
  set_throttle inst before after =
      if xor_bool before after
      then ignore (execute S (apply_network_policy inst.incus_name inst.bandwidth_mbps after))
      else pure tt

  store_counters : Instance → Counters → String → Bool → Bool → Call S (Unit {0})
  unfolding update_traffic_accounting
  store_counters inst c period throttled true =
      query S (update_traffic_accounting inst.id c.used c.snap period throttled)
  store_counters inst c period throttled false = pure tt

  -- `reconcileInstanceTraffic`
  unfoldable pub reconcile_instance_traffic : Instance → String → Call S (Unit {0})
  unfolding is_running read_counters set_throttle store_counters traffic_exceeded record_daily_usage
  reconcile_instance_traffic inst period = do
    let period_changed = not (inst.traffic_period == period)
    let before = if period_changed then false else inst.traffic_throttled
    up ← is_running inst.incus_name
    c ← read_counters inst period_changed up
    let throttled = traffic_exceeded c.used inst.traffic_monthly_gb
    set_throttle inst before throttled
    store_counters inst c period throttled (c.changed || xor_bool before throttled)
    ignore (record_daily_usage S inst c.used)

  -- Only running and stopped instances are accounted; one that fails does not stop the others.
  reconcile_one : Instance → String → Call S (Unit {0})
  unfolding reconcile_instance_traffic
  reconcile_one inst period =
      if same_status inst.status running || same_status inst.status stopped
      then ignore (reconcile_instance_traffic inst period)
      else pure tt

  reconcile_all : List Instance → String → Call S (Unit {0})
  unfolding reconcile_one
  reconcile_all [] period = pure tt
  reconcile_all (inst ∷ list) period = do reconcile_one inst period; reconcile_all list period

  reconcile_listed : Result (List Instance) → Call S (Unit {0})
  unfolding reconcile_all format_month purge_old
  reconcile_listed (err _) = pure tt
  reconcile_listed (ok list) = do time ← now S; reconcile_all list (format_month time); purge_old S

  -- `reconcileTraffic`
  unfoldable pub reconcile_traffic : Call S (Unit {0})
  unfolding reconcile_listed
  reconcile_traffic = do reconcile_listed (← attempt (query S list_active_instances))
