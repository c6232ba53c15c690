-- ===== src/Store/Tables.antt =====
-- The tables, and the SQL of internal/db/store.go with the constraints of the migrations. A statement
-- that breaks a constraint fails and changes nothing. Rows carry no ports: `ports` is filled in by the
-- queries that read an instance.
use goincus.Base.{
  ℕ, ◌^◌, String, Bool, true, false, ◌&&◌, ◌||◌, List, [], ◌∷◌, ◌++◌, Option, none, some, ◌==◌,
  ℕ-Eq, String-Eq, ltb, if◌then◌else◌, any, find, select,
}
use goincus.Base.Int.{ℤ, pos, ltb_ℤ, leb_ℤ}
use goincus.Base.Result.{Result, ok, err, not_found, failure}
use goincus.Models.{
  Instance, PortMapping, InstanceStatus, deleted, running, stopped, creating, is_live,
}

-- `DailyUsageRow`, keyed by the instance and the day (days since the epoch).
pub record DailyUsageRow : Type 0 where
  pub instance_id : ℕ
  pub day : ℕ
  pub disk_used_bytes : ℤ
  pub disk_total_bytes : ℤ
  pub bandwidth_bytes : ℤ
  pub bandwidth_baseline_bytes : ℤ

-- `HourlyMetricsRow`, keyed by the instance and the hour (seconds since the epoch); per cent of CPU are
-- counted in hundredths.
pub record HourlyMetricsRow : Type 0 where
  pub instance_id : ℕ
  pub hour : ℕ
  pub cpu_percent : ℕ
  pub memory_used_bytes : ℤ
  pub memory_total_bytes : ℤ
  pub disk_used_bytes : ℤ
  pub disk_total_bytes : ℤ
  pub bandwidth_bytes : ℤ
  pub cpu_usage_ns : ℤ
  pub net_bytes_total : ℤ

pub record Db : Type 0 where
  pub instances : List Instance
  pub port_mappings : List PortMapping
  pub daily_usage : List DailyUsageRow
  pub hourly_metrics : List HourlyMetricsRow

abbrev pub Query : Type 0 → Type 0
Query A = ℕ → Db → Result A × Db

-- `INTEGER` holds 32 bits.
abbrev pub fits_integer : ℤ → Bool
fits_integer v = ltb_ℤ v (pos (2 ^ 31))

-- The `CHECK` constraints of `instances`; `NUMERIC(8,2)` holds up to 999999.99.
unfoldable pub valid_row : Instance → Bool
valid_row i =
    leb_ℤ (pos 100_000_000) i.cpu_cores
    && ltb_ℤ i.cpu_cores (pos (10 ^ 15))
    && (leb_ℤ (pos 64) i.memory_mb && fits_integer i.memory_mb)
    && (leb_ℤ (pos 1) i.storage_gb && fits_integer i.storage_gb)
    && (leb_ℤ (pos 1) i.processes && fits_integer i.processes)
    && (leb_ℤ (pos 0) i.bandwidth_mbps && fits_integer i.bandwidth_mbps)
    && (leb_ℤ (pos 0) i.traffic_monthly_gb && fits_integer i.traffic_monthly_gb)
    && leb_ℤ (pos 0) i.traffic_used_bytes
    && leb_ℤ (pos 0) i.traffic_counter_snap

-- Two rows that `PRIMARY KEY (id)`, `UNIQUE (name)` or `UNIQUE (incus_name)` tells apart.
abbrev pub same_instance : Instance → Instance → Bool
same_instance i j = i.id == j.id || i.name == j.name || i.incus_name == j.incus_name

unfoldable pub create_instance : Instance → Query (Unit {0})
unfolding valid_row
create_instance i now d =
    if any (same_instance i) d.instances
    then (err (failure "duplicate key value violates unique constraint"), d)
    else if valid_row i
    then (ok tt, record d { instances = d.instances ++ record i { ports = [] } ∷ [] })
    else (err (failure "new row violates check constraint"), d)

-- `UPDATE instances SET … WHERE id = $1`
unfoldable pub update_rows : ℕ → (Instance → Instance) → List Instance → List Instance
update_rows id f [] = []
update_rows id f (i ∷ is) = (if i.id == id then f i else i) ∷ update_rows id f is

abbrev pub update_instance : ℕ → (Instance → Instance) → Query (Unit {0})
update_instance id f now d = (ok tt, record d { instances = update_rows id f d.instances })

abbrev pub update_root_password : ℕ → String → Query (Unit {0})
update_root_password id password now =
    update_instance id (λ i. record i { root_password = password; updated_at = now }) now

abbrev pub update_instance_status : ℕ → InstanceStatus → String → Query (Unit {0})
update_instance_status id status message now =
    update_instance id
      (λ i. record i { status = status; error_message = message; updated_at = now }) now

abbrev pub soft_delete_instance : ℕ → Query (Unit {0})
soft_delete_instance id now =
    update_instance id (λ i. record i { status = deleted; updated_at = now }) now

-- The `CHECK`s on the two counters hold or the statement fails, unless no row has the identifier.
unfoldable pub update_traffic_accounting : ℕ → ℤ → ℤ → String → Bool → Query (Unit {0})
update_traffic_accounting id used snap period throttled now d =
    if any (λ i. i.id == id) d.instances && (ltb_ℤ used (pos 0) || ltb_ℤ snap (pos 0))
    then (err (failure "new row violates check constraint"), d)
    else update_instance id
        (λ i. record i {
          traffic_used_bytes = used;
          traffic_counter_snap = snap;
          traffic_period = period;
          traffic_throttled = throttled;
          updated_at = now;
        })
        now d

-- A query for one row.
abbrev one_row {ℓ} : {A : Type ℓ} → Option A → Result A
one_row none = err not_found
one_row (some a) = ok a

-- The row of `GetInstance`, without its ports.
abbrev pub select_instance : ℕ → Query Instance
select_instance id now d = (one_row (find (λ i. i.id == id && is_live i.status) d.instances), d)

abbrev pub select_instance_by_name : String → Query Instance
select_instance_by_name name now d =
    (one_row (find (λ i. i.name == name && is_live i.status) d.instances), d)

-- `ORDER BY created_at DESC`
unfoldable pub insert_newest : Instance → List Instance → List Instance
insert_newest i [] = i ∷ []
insert_newest i (j ∷ js) =
    if ltb i.created_at j.created_at then j ∷ insert_newest i js else i ∷ j ∷ js

unfoldable pub newest_first : List Instance → List Instance
unfolding insert_newest
newest_first [] = []
newest_first (i ∷ is) = insert_newest i (newest_first is)

abbrev pub select_instances : Query (List Instance)
select_instances now d = (ok (newest_first (select (λ i. is_live i.status) d.instances)), d)

-- `status IN ('running', 'stopped', 'creating')`
abbrev pub is_active : InstanceStatus → Bool
is_active running = true
is_active stopped = true
is_active creating = true
is_active _ = false

-- `ListActiveInstances`
abbrev pub list_active_instances : Query (List Instance)
list_active_instances now d = (ok (newest_first (select (λ i. is_active i.status) d.instances)), d)
