-- ===== src/Service/Create.antt =====
-- internal/service/service.go: `CreateInstance`, up to the start of the background job, which is
-- `provision` on the instance that was stored.
pub mod Consistent
use goincus.Base.{
  ℕ, zero, suc, ◌+◌, ◌*◌, ◌/◌, String, ◌<>◌, Bool, false, not, ◌&&◌, ◌||◌, List, [], ◌∷◌, ◌==◌,
  ℕ-Eq, String-Eq, leb, ltb, length, if◌then◌else◌,
}
use goincus.Base.Int.{ℤ, pos, negsuc, pos_part, ltb_ℤ}
use goincus.Base.Text.{to_lower, trim_space, codes, is_lower_code, is_digit_code}
use goincus.Base.Civil.{format_month}
use goincus.Base.Result.{Result, ok, err, not_found, invalid_input, conflict, failure}
use goincus.Config.{or_default}
use goincus.Models.{Instance, CreateInstanceRequest, pending, creating}
use goincus.Store.Tables.{create_instance}
use goincus.Store.Calls as StoreCalls
use goincus.System.{
  System, Call, query, now, new_uuid, random_password, pure, fail, ◌>>=◌, ◌>>◌, ignore, attempt,
  raise_if, settle, within,
}
use goincus.Redis.{set_instance_state}

abbrev is_name_code : ℕ → Bool
is_name_code c = is_lower_code c || is_digit_code c || c == b'-'

-- The characters after the first: inner ones may be hyphens, the last one may not.
name_tail : List ℕ → Bool
name_tail [] = false
name_tail (c ∷ []) = is_lower_code c || is_digit_code c
name_tail (c ∷ d ∷ cs) = is_name_code c && name_tail (d ∷ cs)

name_codes : List ℕ → Bool
unfolding name_tail
name_codes [] = false
name_codes (c ∷ cs) = is_lower_code c && (leb 2 (length cs) && leb (length cs) 62) && name_tail cs

-- `namePattern`, `^[a-z][a-z0-9-]{1,61}[a-z0-9]$`.
unfoldable pub valid_name : String → Bool
unfolding name_codes
valid_name name = name_codes (codes name)

-- A limit of a request: 0 is the default, -1 is none, which is stored as 0.
unfoldable pub limit_of : String → ℤ → ℤ → Result ℤ
limit_of text (pos zero) default = ok default
limit_of text (pos (suc n)) default = ok (pos (suc n))
limit_of text (negsuc zero) default = ok (pos 0)
limit_of text (negsuc (suc n)) default = err (invalid_input text)

abbrev pub tenth : ℕ
tenth = 100_000_000

-- Rounds to hundredths of a core, and to a tenth at least.
unfoldable pub round_cpu : ℕ → ℤ
round_cpu cpu =
    let rounded = (cpu + 5_000_000) / 10_000_000 * 10_000_000 in
    if ltb rounded tenth then pos tenth else pos rounded

-- `cpu_cores`: not positive is the default.
unfoldable pub cpu_of : ℤ → ℤ → Result ℤ
unfolding round_cpu
cpu_of wanted default =
    let cpu = or_default wanted default in
    if ltb_ℤ cpu (pos tenth)
    then err (invalid_input "cpu_cores must be >= 0.1 (e.g. 0.5, 1, 2)")
    else ok (round_cpu (pos_part cpu))

module _ (S : System) where
  open S.cfg use {defaults, incus}

  -- The lookup of the name: a live instance with it is a conflict.
  check_name : Result Instance → Call S (Unit {0})
  check_name (ok existing) = fail (conflict "instance name already exists")
  check_name (err not_found) = pure tt
  check_name (err (invalid_input t)) = fail (invalid_input t)
  check_name (err (conflict t)) = fail (conflict t)
  check_name (err (failure t)) = fail (failure t)

  abbrev new_instance : CreateInstanceRequest → String → ℤ → ℤ → ℤ → ℕ → ℕ → String → Instance
  new_instance req name cpu bw traffic id created_at root_password = record {
    id = id;
    name = name;
    incus_name = "goincus-" <> S.readings.uuid_prefix id;
    image = if req.image == "" then incus.default_image else req.image;
    status = pending;
    cpu_cores = cpu;
    memory_mb = or_default req.memory_mb defaults.memory_mb;
    storage_gb = or_default req.storage_gb defaults.storage_gb;
    processes = or_default req.processes defaults.processes;
    bandwidth_mbps = bw;
    traffic_monthly_gb = traffic;
    traffic_used_bytes = pos 0;
    traffic_period = format_month created_at;
    traffic_throttled = false;
    traffic_counter_snap = pos 0;
    root_password = root_password;
    error_message = "";
    ports = [];
    created_at = created_at;
    updated_at = created_at;
  }

  -- `CreateInstance`
  unfoldable pub create : CreateInstanceRequest → Call S Instance
  unfolding check_name limit_of cpu_of valid_name to_lower trim_space
      StoreCalls.get_instance_by_name
  create req = do
    let name = trim_space (to_lower req.name)
    raise_if (not (valid_name name))
        (invalid_input "name must be 3-63 chars, lowercase alphanumeric/hyphen")
    check_name (← attempt (StoreCalls.get_instance_by_name S name))
    cpu ← settle (cpu_of req.cpu_cores defaults.cpu_cores)
    bw ← settle (
        limit_of "bandwidth_mbps must be >= -1 (Mbit/s; -1=unlimited, 0=default)" req.bandwidth_mbps
          defaults.bandwidth_mbps)
    traffic ← settle (
        limit_of "traffic_monthly_gb must be >= -1 (GiB/month; -1=unlimited, 0=default)"
          req.traffic_monthly_gb defaults.traffic_monthly_gb)
    created_at ← now S
    id ← new_uuid S
    root_password ← within "generate root password" (random_password S)
    let inst = new_instance req name cpu bw traffic id created_at root_password
    within "persist instance" (query S (create_instance inst))
    ignore (set_instance_state S id creating 1800)
    pure (record inst { status = creating })
