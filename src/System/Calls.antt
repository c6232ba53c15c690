-- ===== src/System/Calls.antt =====
-- The servers as parameters, the world, and one call of each kind.
use goincus.Base.{ℕ, suc, String, Bool, List, Option, none, some}
use goincus.Base.Int.{ℤ, pos}
use goincus.Base.Result.{Result, ok, err, failure}
use goincus.Config.{Config}
use goincus.System.Monad.{M}
use goincus.Store.Tables.{Db}

-- A command of a transaction (`TxPipeline`).
pub data PipeCommand : Type 0 where
  del : String → PipeCommand
  s_add : String → List ℕ → PipeCommand

-- The commands that internal/redisstore sends (go-redis): a key, the command's arguments, and a reply
-- or an error.
pub record RedisServer : Type 1 where
  pub State : Type 0
  pub set_nx : String → String → ℕ → State → Result Bool × State
  pub set : String → String → ℕ → State → Result (Unit {0}) × State
  pub del : String → State → Result (Unit {0}) × State
  pub s_add : String → ℕ → State → Result (Unit {0}) × State
  pub s_rem : String → ℕ → State → Result (Unit {0}) × State
  pub s_is_member : String → ℕ → State → Result Bool × State
  pub tx_pipeline : List PipeCommand → State → Result (Unit {0}) × State
  pub ping : State → Result (Unit {0}) × State

-- `incusclient.ProxySpec`
pub record ProxySpec : Type 0 where
  pub device_name : String
  pub protocol : String
  pub host_port : ℕ
  pub internal_port : ℕ

-- `incusclient.CreateArgs`
pub record CreateArgs : Type 0 where
  pub name : String
  pub image : String
  pub cpu_cores : ℤ
  pub memory_mb : ℤ
  pub storage_gb : ℤ
  pub processes : ℤ
  pub bandwidth_mbps : ℤ
  pub profiles : List String
  pub root_password : String
  pub ssh_port : ℕ

-- The methods of `incusclient.Client` that change the Incus server or a guest.
pub data Command : Type 0 where
  create_container : CreateArgs → Command
  ensure_started : String → Command
  ensure_instance_ipv4 : String → Command
  harden_network : String → Command
  configure_guest_dns : String → Command
  ensure_ssh : String → String → ℕ → Command
  add_proxy_devices : String → List ProxySpec → Command
  add_proxy_device : String → ProxySpec → Command
  remove_proxy_device : String → String → Command
  update_proxy_device_protocol : String → String → ProxySpec → Command
  update_resource_limits : String → ℤ → ℤ → ℤ → ℤ → Bool → Command
  apply_network_policy : String → ℤ → Bool → Command
  ensure_disk_isolation : String → Command
  set_root_password : String → String → Command
  stop_container : String → Bool → Command
  restart_container : String → Command
  delete_container : String → Command

-- `incusclient.ResourceSample`
pub record ResourceSample : Type 0 where
  pub cpu_usage_ns : ℤ
  pub memory_used_bytes : ℤ
  pub memory_total_bytes : ℤ
  pub disk_used_bytes : ℤ
  pub disk_total_bytes : ℤ
  pub net_bytes_total : ℤ

-- The zero value of a sample.
abbrev pub no_sample : ResourceSample
no_sample = record {
  cpu_usage_ns = pos 0;
  memory_used_bytes = pos 0;
  memory_total_bytes = pos 0;
  disk_used_bytes = pos 0;
  disk_total_bytes = pos 0;
  net_bytes_total = pos 0;
}

-- `incusclient.StoragePoolSpace`
pub record PoolSpace : Type 0 where
  pub pool : String
  pub driver : String
  pub total_bytes : ℕ
  pub used_bytes : ℕ
  pub free_bytes : ℕ

pub record IncusServer : Type 1 where
  pub State : Type 0
  pub execute : Command → State → Result (Unit {0}) × State
  pub get_status : String → State → Result String × State
  pub network_bytes_total : String → State → Result ℤ × State
  pub resource_sample : String → State → Result ResourceSample × State
  pub storage_pool_space : State → Result PoolSpace × State
  pub ping : State → Result (Unit {0}) × State

-- The readings, each at the counter: seconds since the epoch, a new `uuid.UUID`, the result of
-- `secrets.RandomPassword` (`none` if the random source fails), and the error of the database engine
-- for a query that it does not answer. An identifier's text, and the reading of a text as an identifier, are the uuid library's.
pub record Readings : Type 0 where
  pub time_at : ℕ → ℕ
  pub uuid_at : ℕ → ℕ
  pub password_at : ℕ → Option String
  pub db_refuses : ℕ → Option String
  pub uuid_text : ℕ → String
  pub uuid_prefix : ℕ → String
  pub parse_uuid : String → Option ℕ

pub record System : Type 1 where
  pub redis : RedisServer
  pub incus : IncusServer
  pub readings : Readings
  pub cfg : Config
  pub key_prefix : String

pub record World (S : System) : Type 0 where
  pub db : Db
  pub redis : S.redis.State
  pub incus : S.incus.State
  pub ticks : ℕ

module _ (S : System) where
  abbrev pub Call : Type 0 → Type 0
  Call A = M (World S) A

  -- `time.Now()`
  abbrev pub now : Call ℕ
  now w = (ok (S.readings.time_at w.ticks), record w { ticks = suc w.ticks })

  -- `uuid.New()`
  abbrev pub new_uuid : Call ℕ
  new_uuid w = (ok (S.readings.uuid_at w.ticks), record w { ticks = suc w.ticks })

  -- `secrets.RandomPassword(18)`
  abbrev pub random_password : Call String
  random_password w = (
    elim (S.readings.password_at w.ticks) [
      | none ↦ err (failure "generate password")
      | some p ↦ ok p
    ],
    record w { ticks = suc w.ticks },
  )

  -- A query: the engine refuses it, and nothing changes, or it runs on the tables.
  abbrev pub query : {A : Type 0} → (ℕ → Db → Result A × Db) → Call A
  query q w = elim (S.readings.db_refuses w.ticks) [
    | some message ↦ (err (failure message), record w { ticks = suc w.ticks })
    | none ↦
        let (r, d) = q (S.readings.time_at w.ticks) w.db in
        (r, record w { db = d; ticks = suc w.ticks })
  ]

  abbrev pub redis_call : {A : Type 0} → (S.redis.State → Result A × S.redis.State) → Call A
  redis_call c w = let (r, s) = c w.redis in (r, record w { redis = s })

  abbrev pub incus_call : {A : Type 0} → (S.incus.State → Result A × S.incus.State) → Call A
  incus_call c w = let (r, s) = c w.incus in (r, record w { incus = s })

  abbrev pub execute : Command → Call (Unit {0})
  execute c = incus_call (S.incus.execute c)
