-- ===== src/Config/Laws.antt =====
-- What `Validate` and `ValidAPIKey` (internal/config/config.go) let through.
use goincus.Base.{
  ◌+◌, ◌-◌, ◌<◌, ◌≡◌, refl, ap, ◌∙◌, String, false, not, ◌&&◌, List, [], ◌∷◌, ◌==◌, ℕ-Eq, String-Eq,
  contains, length, arith, Bool-cases, inl, inr,
}
use goincus.Base.Int.{ℤ, pos, ◌≤ℤ◌}
use goincus.Base.Result.{ok}
use goincus.Config.{
  Config, validate, validate_secrets, fill_defaults, valid_api_key, key_matches, or_default, minute,
  hour,
}

-- What the service relies on in a configuration.
pub record Usable (c : Config) : Type 0 where
  pub port_in_range : (pos 1 ≤ℤ c.server_port) × (c.server_port ≤ℤ pos 65535)
  pub range_not_empty : c.ports.host_range_start < c.ports.host_range_end
  pub block_positive : pos 1 ≤ℤ c.ports.ports_per_instance
  pub block_fits :
      c.ports.ports_per_instance ≤ℤ pos (c.ports.host_range_end + 1 - c.ports.host_range_start)
  pub cores : pos 100_000_000 ≤ℤ c.defaults.cpu_cores
  pub memory : pos 64 ≤ℤ c.defaults.memory_mb
  pub storage : pos 1 ≤ℤ c.defaults.storage_gb
  pub bandwidth : pos 0 ≤ℤ c.defaults.bandwidth_mbps
  pub traffic : pos 0 ≤ℤ c.defaults.traffic_monthly_gb
  pub intervals : (pos 1 ≤ℤ c.usage.sample_interval) × (pos 1 ≤ℤ c.usage.hourly_interval)
  pub retention : (pos 1 ≤ℤ c.usage.hourly_retention_days) × (pos 1 ≤ℤ c.usage.daily_retention_days)
  pub has_key : 0 < length c.api_keys

secrets_ok : (c c' : Config) → validate_secrets c ≡ ok c' → (c' ≡ c) × (0 < length c.api_keys)
unfolding validate_secrets
secrets_ok c c' h = ground arith

or_default_positive : (v other : ℤ) → pos 1 ≤ℤ other → pos 1 ≤ℤ or_default v other
or_default_positive v other h = ground arith

-- A configuration that `Validate` accepts has, after the defaults that `Validate` fills in, a server port
-- between 1 and 65535, a range of host ports with room for one block at least, default plans of at least a
-- tenth of a core, 64 MB of memory and 1 GB of storage, with no negative bandwidth or traffic, positive
-- intervals and retention times, and an API key.
pub validate-Usable : (c c' : Config) → validate c ≡ ok c' → Usable c'
unfolding validate minute hour
validate-Usable c c' h =
    let last : validate_secrets (fill_defaults c) ≡ ok c' = ground arith in
    let (same, keys) = secrets_ok (fill_defaults c) c' last in
    rw same (record {
      port_in_range = (ground arith, ground arith);
      range_not_empty = ground arith;
      block_positive = or_default_positive c.ports.ports_per_instance (pos 20) (omega arith);
      block_fits = ground arith;
      cores = ground arith;
      memory = ground arith;
      storage = ground arith;
      bandwidth = ground arith;
      traffic = ground arith;
      intervals = (
        or_default_positive c.usage.sample_interval _ (omega arith),
        or_default_positive c.usage.hourly_interval _ (omega arith),
      );
      retention = (
        or_default_positive c.usage.hourly_retention_days _ (omega arith),
        or_default_positive c.usage.daily_retention_days _ (omega arith),
      );
      has_key = keys;
    })

key_matches_lem :
    (key : String) (keys : List String)
    → (key == "") ≡ false
    → key_matches key keys ≡ contains keys key
unfolding key_matches
key_matches_lem key [] h = refl
key_matches_lem key (k ∷ keys) h = elim (Bool-cases (k == key)) [
  | inl same ↦
      let other : (k == "") ≡ false = ap (λ x. x == "") ((String-Eq.test_iff k key).0 same) ∙ h in
      ground arith
  | inr other ↦ ground (arith, key_matches_lem key keys h)
]

-- `ValidAPIKey` refuses the empty key, and accepts another exactly if it is among the configured keys.
pub valid_api_key_lem :
    (c : Config) (key : String) → valid_api_key c key ≡ (not (key == "") && contains c.api_keys key)
unfolding valid_api_key
valid_api_key_lem c key = elim (Bool-cases (key == "")) [
  | inl empty ↦ rw empty refl
  | inr other ↦ rw other (key_matches_lem key c.api_keys other)
]
