-- ===== src/Config.antt =====
-- internal/config/config.go: the settings and their validation. The bounds of the host port range are
-- not negative here; CPU cores are counted in billionths and durations in nanoseconds.
pub mod Laws
use goincus.Base.{
  ℕ, ◌+◌, ◌-◌, String, Bool, false, not, ◌&&◌, ◌||◌, List, [], ◌∷◌, ◌==◌, String-Eq, ℕ-Eq, leb,
  if◌then◌else◌, any,
}
use goincus.Base.Int.{ℤ, pos, ltb_ℤ, leb_ℤ}
use goincus.Base.Result.{Result, ok, err, failure}
use goincus.Base.Text.{has_infix}

pub record PortsConfig : Type 0 where
  pub host_range_start : ℕ
  pub host_range_end : ℕ
  pub ports_per_instance : ℤ

pub record DefaultsConfig : Type 0 where
  pub cpu_cores : ℤ
  pub memory_mb : ℤ
  pub storage_gb : ℤ
  pub processes : ℤ
  pub bandwidth_mbps : ℤ
  pub traffic_monthly_gb : ℤ

pub record UsageConfig : Type 0 where
  pub sample_interval : ℤ
  pub hourly_enabled : Bool
  pub hourly_interval : ℤ
  pub hourly_retention_days : ℤ
  pub daily_retention_days : ℤ

pub record IncusConfig : Type 0 where
  pub storage_pool : String
  pub network : String
  pub image_server : String
  pub image_protocol : String
  pub default_image : String
  pub profiles : List String

-- An address with its password, as the database and Redis have one each.
pub record Endpoint : Type 0 where
  pub host : String
  pub port : ℤ
  pub password : String

pub record Config : Type 0 where
  pub server_port : ℤ
  pub api_keys : List String
  pub database : Endpoint
  pub redis : Endpoint
  pub incus : IncusConfig
  pub ports : PortsConfig
  pub defaults : DefaultsConfig
  pub usage : UsageConfig

-- A value that is not positive is replaced.
abbrev pub or_default : ℤ → ℤ → ℤ
or_default value other = if leb_ℤ value (pos 0) then other else value

minute : ℤ
minute = pos 60_000_000_000

hour : ℤ
hour = pos 3_600_000_000_000

-- What `Validate` writes into the configuration on its way.
abbrev fill_defaults : Config → Config
fill_defaults c = record c {
  ports = record ports { ports_per_instance = or_default c.ports.ports_per_instance (pos 20) };
  usage = record usage {
    sample_interval = or_default c.usage.sample_interval minute;
    hourly_interval = or_default c.usage.hourly_interval hour;
    hourly_retention_days = or_default c.usage.hourly_retention_days (pos 30);
    daily_retention_days = or_default c.usage.daily_retention_days (pos 400);
  };
}
  where
    open c use {ports, usage}

is_template : String → Bool
is_template = has_infix "REPLACE_WITH"

-- The last checks of `Validate`: there is a key, and no secret is the package's placeholder.
validate_secrets : Config → Result Config
unfolding is_template
validate_secrets c = elim c.api_keys [
  | [] ↦ err (failure "auth.api_keys must contain at least one key (run: goincus init)")
  | key ∷ keys ↦
      if any is_template (key ∷ keys)
      then err (failure "/etc/goincus/config.yaml looks like a package template")
      else if is_template c.database.password || is_template c.redis.password
      then err (failure "/etc/goincus/config.yaml has template passwords")
      else ok c
]

-- `Validate`: the first check that fails decides the error.
unfoldable pub validate : Config → Result Config
unfolding minute hour validate_secrets
validate c =
    if leb_ℤ c.server_port (pos 0) || ltb_ℤ (pos 65535) c.server_port
    then err (failure "invalid server port")
    else if c.database.host == "" || leb_ℤ c.database.port (pos 0)
    then err (failure "database host/port required")
    else if c.redis.host == "" || leb_ℤ c.redis.port (pos 0)
    then err (failure "redis host/port required")
    else if leb c.ports.host_range_end c.ports.host_range_start
    then err (failure "invalid host port range")
    else if ltb_ℤ (pos (c.ports.host_range_end + 1 - c.ports.host_range_start))
        (or_default c.ports.ports_per_instance (pos 20))
    then err (failure "ports_per_instance exceeds host port range")
    else if ltb_ℤ c.defaults.cpu_cores (pos 100_000_000)
    then err (failure "defaults.cpu_cores must be >= 0.1")
    else if ltb_ℤ c.defaults.memory_mb (pos 64)
    then err (failure "defaults.memory_mb must be >= 64")
    else if ltb_ℤ c.defaults.storage_gb (pos 1)
    then err (failure "defaults.storage_gb must be >= 1")
    else if ltb_ℤ c.defaults.bandwidth_mbps (pos 0)
    then err (failure "defaults.bandwidth_mbps must be >= 0 (0 = unlimited)")
    else if ltb_ℤ c.defaults.traffic_monthly_gb (pos 0)
    then err (failure "defaults.traffic_monthly_gb must be >= 0 (0 = unlimited)")
    else validate_secrets (fill_defaults c)

-- `ValidAPIKey`: the key is one of the configured keys and not empty. Empty entries are passed over,
-- and the loop goes on after a match, so that the time does not depend on it.
key_matches : String → List String → Bool
key_matches key [] = false
key_matches key (k ∷ keys) = (not (k == "") && k == key) || key_matches key keys

unfoldable pub valid_api_key : Config → String → Bool
unfolding key_matches
valid_api_key c key = if key == "" then false else key_matches key c.api_keys
