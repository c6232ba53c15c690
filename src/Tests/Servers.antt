-- ===== src/Tests/Servers.antt =====
-- Concrete servers: a Redis with sets and string keys, an Incus that carries out every command on a
-- table of powers, and a configuration with a small range of ports.
use goincus.Base.{
  ℕ, ◌+◌, ◌*◌, String, ◌<>◌, ◌≡◌, ◌≢◌, refl, Bool, true, false, not, ◌&&◌, ◌||◌, List, [], ◌∷◌,
  none, some, ◌==◌, ℕ-Eq, String-Eq, contains, if◌then◌else◌, arith, Bool-cases, inl, inr,
}
use text.Mathlib.TextPositions.{eq_refl}
use goincus.Base.Int.{pos}
use goincus.Base.Decimal.{decimal}
use goincus.Base.Result.{ok, err, failure}
use goincus.Config.{Config}
use goincus.Models.{Instance, PortMapping, InstanceStatus, running, stopped}
use goincus.Store.Tables.{Db}
use goincus.System.{
  System, World, RedisServer, IncusServer, Readings, PipeCommand, del, s_add, Command,
  ensure_started, stop_container, restart_container, ResourceSample, PoolSpace,
}
use goincus.Redis.Laws.{RedisLaws}

-- The sets and the string keys.
pub record RedisState : Type 0 where
  pub sets : String → ℕ → Bool
  pub keys : String → Bool

abbrev without_key : String → RedisState → RedisState
without_key k s = record {
  sets = λ j q. not (j == k) && s.sets j q;
  keys = λ j. not (j == k) && s.keys j;
}

abbrev with_key : String → RedisState → RedisState
with_key k s = record { sets = λ j q. not (j == k) && s.sets j q; keys = λ j. (j == k) || s.keys j }

abbrev with_members : String → List ℕ → RedisState → RedisState
with_members k ps s = record s { sets = λ j q. ((j == k) && contains ps q) || s.sets j q }

abbrev without_member : String → ℕ → RedisState → RedisState
without_member k p s = record s { sets = λ j q. not ((j == k) && (q == p)) && s.sets j q }

abbrev run_pipe : List PipeCommand → RedisState → RedisState
run_pipe [] s = s
run_pipe (del k ∷ cs) s = run_pipe cs (without_key k s)
run_pipe (s_add k ps ∷ cs) s = run_pipe cs (with_members k ps s)

-- Adding a port fails where `broken` says so.
abbrev pub small_redis : (ℕ → Bool) → RedisServer
small_redis broken = record {
  State = RedisState;
  set_nx = λ k v ttl s. (ok (not (s.keys k)), if s.keys k then s else with_key k s);
  set = λ k v ttl s. (ok tt, with_key k s);
  del = λ k s. (ok tt, without_key k s);
  s_add = λ k p s.
      if broken p
      then (err (failure "connection reset"), s)
      else (ok tt, with_members k (p ∷ []) s);
  s_rem = λ k p s. (ok tt, without_member k p s);
  s_is_member = λ k p s. (ok (s.sets k p), s);
  tx_pipeline = λ cs s. (ok tt, run_pipe cs s);
  ping = λ s. (ok tt, s);
}

pub other_key : (j k : String) → j ≢ k → (j == k) ≡ false
other_key j k h = elim (Bool-cases (j == k)) [
  | inl same ↦ absurd (h ((String-Eq.test_iff j k).0 same))
  | inr other ↦ other
]

abbrev pub small_laws : (broken : ℕ → Bool) → RedisLaws (small_redis broken)
small_laws broken = record {
  member = λ s. s.sets;
  s_is_member_keeps = λ k p s. refl;
  s_is_member_answers = λ k p s b h. cc;
  s_add_only = λ k p s j q other. ground arith;
  s_add_adds = λ k p s h. ground (arith, eq_refl k);
  s_rem_only = λ k p s j q other. ground arith;
  s_rem_removes = λ k p s h. ground (arith, eq_refl k);
  set_nx_keeps = λ k v ttl s j q other. ground (arith, other_key j k other);
  del_keeps = λ k s j q other. rw (other_key j k other) refl;
}

abbrev pub small_incus : IncusServer
small_incus = record {
  State = String → String;
  execute = λ c s. (ok tt, after_command c s);
  get_status = λ name s. (ok (s name), s);
  network_bytes_total = λ name s. (ok (pos 5_000_000), s);
  resource_sample = λ name s. (ok sample, s);
  storage_pool_space = λ s. (ok space, s);
  ping = λ s. (ok tt, s);
}
  where
    power : String → String → (String → String) → String → String
    power name value s n = if n == name then value else s n

    after_command : Command → (String → String) → String → String
    after_command (ensure_started name) s = power name "Running" s
    after_command (stop_container name force) s = power name "Stopped" s
    after_command (restart_container name) s = power name "Running" s
    after_command _ s = s

    space : PoolSpace
    space = record {
      pool = "goincus";
      driver = "lvm";
      total_bytes = 200_000_000_000;
      used_bytes = 50_000_000_000;
      free_bytes = 150_000_000_000;
    }

    sample : ResourceSample
    sample = record {
      cpu_usage_ns = pos 1_000_000_000;
      memory_used_bytes = pos 268_435_456;
      memory_total_bytes = pos 1_073_741_824;
      disk_used_bytes = pos 2_000_000_000;
      disk_total_bytes = pos 10_737_418_240;
      net_bytes_total = pos 5_000_000;
    }

-- One reading a minute from 2026-10-04 on; the database answers.
abbrev pub small_readings : Readings
small_readings = record {
  time_at = λ t. 1_791_151_200 + 60 * t;
  uuid_at = λ t. 100 + t;
  password_at = λ t. some "s3cret-password";
  db_refuses = λ t. none;
  uuid_text = decimal;
  uuid_prefix = decimal;
  parse_uuid = λ text. none;
}

abbrev pub small_config : Config
small_config = record {
  server_port = pos 8080;
  api_keys = "key-1" ∷ "key-2" ∷ [];
  database = record { host = "localhost"; port = pos 5432; password = "db" };
  redis = record { host = "localhost"; port = pos 6379; password = "rd" };
  incus = record {
    storage_pool = "default";
    network = "incusbr0";
    image_server = "https://images.linuxcontainers.org";
    image_protocol = "simplestreams";
    default_image = "debian/12";
    profiles = "default" ∷ [];
  };
  ports = record { host_range_start = 20000; host_range_end = 20010; ports_per_instance = pos 3 };
  defaults = record {
    cpu_cores = pos 1_000_000_000;
    memory_mb = pos 512;
    storage_gb = pos 10;
    processes = pos 200;
    bandwidth_mbps = pos 100;
    traffic_monthly_gb = pos 0;
  };
  usage = record {
    sample_interval = pos 60_000_000_000;
    hourly_enabled = true;
    hourly_interval = pos 3_600_000_000_000;
    hourly_retention_days = pos 30;
    daily_retention_days = pos 400;
  };
}

abbrev pub small_system : (ℕ → Bool) → System
small_system broken = record {
  redis = small_redis broken;
  incus = small_incus;
  readings = small_readings;
  cfg = small_config;
  key_prefix = "goincus:";
}

abbrev pub all_work : ℕ → Bool
all_work p = false

-- Two machines: 1 runs and holds the ports 20000 and 20001, 2 is stopped.
abbrev pub machine : ℕ → String → InstanceStatus → Instance
machine id name status = record {
  id = id;
  name = name;
  incus_name = "gi-" <> name;
  image = "debian/12";
  status = status;
  cpu_cores = pos 1_000_000_000;
  memory_mb = pos 512;
  storage_gb = pos 10;
  processes = pos 200;
  bandwidth_mbps = pos 100;
  traffic_monthly_gb = pos 1;
  traffic_used_bytes = pos 1_073_000_000;
  traffic_period = "2026-10";
  traffic_throttled = false;
  traffic_counter_snap = pos 4_000_000;
  root_password = "pw";
  error_message = "";
  ports = [];
  created_at = 1_791_000_000 + id;
  updated_at = 1_791_000_000 + id;
}

abbrev pub one_port : ℕ → ℕ → PortMapping
one_port id port = record {
  id = id;
  instance_id = 1;
  protocol = "tcp";
  host_port = port;
  internal_port = port;
  device_name = "proxy-" <> decimal port;
  created_at = 1_791_000_001;
}

abbrev pub small_db : Db
small_db = record {
  instances = machine 1 "web" running ∷ machine 2 "db" stopped ∷ [];
  port_mappings = one_port 11 20000 ∷ one_port 12 20001 ∷ [];
  daily_usage = [];
  hourly_metrics = [];
}

-- Redis has reserved 20000, 20001 and 20003.
abbrev pub small_world : (broken : ℕ → Bool) → World (small_system broken)
small_world broken = record {
  db = small_db;
  redis = record {
    sets = λ k p. (k == "goincus:ports:allocated") && contains (20000 ∷ 20001 ∷ 20003 ∷ []) p;
    keys = λ k. false;
  };
  incus = λ name. "Running";
  ticks = 0;
}
