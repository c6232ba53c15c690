-- ===== src/Service/Status.antt =====
-- internal/service/service.go: reading instances, with the status brought up to date from Incus, and
-- the operations that stop, restart and delete one. `db.ErrNotFound` and `service.ErrNotFound` are one
-- error here.
pub mod Deletion
pub mod Synced
pub mod Consistent
use goincus.Base.{
  ℕ, String, Bool, false, not, ◌&&◌, ◌||◌, List, [], ◌∷◌, Option, none, some, ◌==◌, String-Eq,
  if◌then◌else◌,
}
use goincus.Base.Text.{equal_fold, to_lower, trim_space}
use goincus.Base.Result.{Result, ok, err}
use goincus.Models.{
  Instance, PortMapping, InstanceStatus, pending, creating, running, stopped, error, deleting,
  deleted, same_status, HealthResponse,
}
use goincus.Store.Tables.{update_instance_status, soft_delete_instance, Query}
use goincus.Store.Ports.{delete_port}
use goincus.Store.Calls as StoreCalls
use goincus.System.{
  System, Call, query, incus_call, redis_call, execute, pure, ◌>>=◌, ◌>>◌, ignore, attempt, within,
  stop_container, restart_container, delete_container, remove_proxy_device,
}
use goincus.Redis.{set_instance_state, delete_instance_state}
use goincus.Ports.{release}

abbrev pub hour : ℕ
hour = 3600

abbrev pub day : ℕ
day = 86400

-- The status that a power state stands for.
unfoldable pub power_status : String → Option InstanceStatus
unfolding equal_fold
power_status text =
    if equal_fold text "Running"
    then some running
    else if equal_fold text "Stopped"
    then some stopped
    else none

-- Nothing has to be written.
abbrev pub up_to_date : Instance → InstanceStatus → Bool
up_to_date inst next =
    same_status inst.status next && (not (same_status next running) || inst.error_message == "")

-- The instance with the status that Incus reports.
abbrev pub synced : Instance → InstanceStatus → Instance
synced inst next = record inst {
  status = next;
  error_message = if same_status next running then "" else inst.error_message;
}

module _ (S : System) where
  -- `UpdateInstanceStatus` and `SetInstanceState`, whose errors are dropped.
  unfoldable pub write_status : ℕ → InstanceStatus → String → ℕ → Call S (Unit {0})
  write_status id status message ttl = do
    ignore (query S (update_instance_status id status message))
    ignore (set_instance_state S id status ttl)

  unfoldable pub sync_to : Instance → Option InstanceStatus → Call S Instance
  unfolding write_status
  sync_to inst none = pure inst
  sync_to inst (some next) = if up_to_date inst next then pure inst else do
    write_status inst.id next (synced inst next).error_message day
    pure (synced inst next)

  sync_power : Instance → Result String → Call S Instance
  unfolding power_status sync_to
  sync_power inst (ok text) = sync_to inst (power_status text)
  sync_power inst (err _) = pure inst

  unfoldable pub read_power : Instance → Call S Instance
  unfolding sync_power
  read_power inst = do
    sync_power inst (← attempt (incus_call S (S.incus.get_status inst.incus_name)))

  -- `syncStatusFromIncus`: an instance in creation or deletion is left alone.
  unfoldable pub sync_status_from_incus : Instance → Call S Instance
  unfolding read_power
  sync_status_from_incus inst = elim inst.status [
    | pending ↦ pure inst
    | creating ↦ pure inst
    | deleting ↦ pure inst
    | deleted ↦ pure inst
    | running ↦ read_power inst
    | stopped ↦ read_power inst
    | error ↦ read_power inst
  ]

  -- `GetInstance`
  unfoldable pub get_instance : ℕ → Call S Instance
  unfolding sync_status_from_incus StoreCalls.get_instance
  get_instance id = do sync_status_from_incus (← StoreCalls.get_instance S id)

  sync_all : List Instance → Call S (List Instance)
  unfolding sync_status_from_incus
  sync_all [] = pure []
  sync_all (inst ∷ list) = do
    inst' ← sync_status_from_incus inst
    rest ← sync_all list
    pure (inst' ∷ rest)

  -- `ListInstances`
  unfoldable pub list_instances : Call S (List Instance)
  unfolding sync_all StoreCalls.list_instances
  list_instances = do sync_all (← StoreCalls.list_instances S)

  resolve : String → Option ℕ → Call S Instance
  unfolding get_instance StoreCalls.get_instance_by_name to_lower trim_space
  resolve id_or_name (some id) = get_instance id
  resolve id_or_name none = do
    inst ← StoreCalls.get_instance_by_name S (to_lower (trim_space id_or_name))
    sync_status_from_incus inst

  -- `ResolveInstance`
  unfoldable pub resolve_instance : String → Call S Instance
  unfolding resolve
  resolve_instance id_or_name = resolve id_or_name (S.readings.parse_uuid id_or_name)

  -- `StopInstance`
  unfoldable pub stop_instance : ℕ → Call S Instance
  unfolding get_instance write_status
  stop_instance id = do
    inst ← get_instance id
    within "stop" (execute S (stop_container inst.incus_name false))
    write_status id stopped "" day
    get_instance id

  -- `RestartInstance`
  unfoldable pub restart_instance : ℕ → Call S Instance
  unfolding get_instance write_status
  restart_instance id = do
    inst ← get_instance id
    within "restart" (execute S (restart_container inst.incus_name))
    write_status id running "" day
    get_instance id

  -- The loop of `DeleteInstance` over the mappings.
  unfoldable pub drop_mappings : String → List PortMapping → Call S (Unit {0})
  drop_mappings incus_name [] = pure tt
  drop_mappings incus_name (p ∷ ports) = do
    ignore (execute S (remove_proxy_device incus_name p.device_name))
    ignore (release S p.host_port)
    ignore (query S (delete_port p.id))
    drop_mappings incus_name ports

  -- `DeleteInstance`
  unfoldable pub delete_instance : ℕ → Call S (Unit {0})
  unfolding get_instance write_status drop_mappings
  delete_instance id = do
    inst ← get_instance id
    write_status id deleting "" hour
    drop_mappings inst.incus_name inst.ports
    ignore (execute S (delete_container inst.incus_name))
    ignore (delete_instance_state S id)
    query S (soft_delete_instance id)

  abbrev up_or_down : Result (Unit {0}) → String
  up_or_down (ok _) = "up"
  up_or_down (err _) = "down"

  abbrev all_up : Result (Unit {0}) → Result (Unit {0}) → Result (Unit {0}) → String
  all_up (ok _) (ok _) (ok _) = "ok"
  all_up _ _ _ = "degraded"

  abbrev ping_query : Query (Unit {0})
  ping_query now d = (ok tt, d)

  -- `Health`, without the texts of the errors.
  unfoldable pub health : Call S HealthResponse
  health = do
    database ← attempt (query S ping_query)
    redis ← attempt (redis_call S S.redis.ping)
    incus ← attempt (incus_call S S.incus.ping)
    pure (record {
      status = all_up database redis incus;
      database = up_or_down database;
      redis = up_or_down redis;
      incus = up_or_down incus;
    })
