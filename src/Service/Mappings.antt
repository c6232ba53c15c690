-- ===== src/Service/Mappings.antt =====
-- internal/service/service.go: `AddPortMapping`, `RemovePortMapping` and `UpdatePortMapping`.
pub mod Added
pub mod Requested
pub mod Consistent
use goincus.Base.{
  ℕ, zero, suc, String, ◌<>◌, Bool, true, false, not, ◌&&◌, ◌||◌, ◌==◌, ℕ-Eq, String-Eq, any,
  if◌then◌else◌,
}
use goincus.Base.Int.{ℤ, pos, negsuc, pos_part, ltb_ℤ, leb_ℤ}
use goincus.Base.Decimal.{decimal}
use goincus.Base.Text.{to_lower, trim_space}
use goincus.Base.Result.{Result, ok, err, invalid_input, conflict, message}
use goincus.Models.{Instance, PortMapping, AddPortRequest, UpdatePortRequest}
use goincus.Store.Ports.{add_port, get_port, delete_port, update_port_protocol}
use goincus.System.{
  System, Call, query, execute, now, new_uuid, pure, fail, ◌>>=◌, ◌>>◌, ignore, attempt, raise_if,
  within, ProxySpec, add_proxy_device, remove_proxy_device, update_proxy_device_protocol,
}
use goincus.Ports.{allocate, reserve, release}
use goincus.Service.Status.{get_instance}

-- `protocol must be tcp or udp`
abbrev is_protocol : String → Bool
is_protocol p = p == "tcp" || p == "udp"

-- `fmt.Sprintf("proxy-%s-%d", proto, port)`
abbrev pub device_for : String → ℕ → String
device_for proto port = "proxy-" <> (proto <> ("-" <> decimal port))

abbrev spec : String → String → ℕ → ℕ → ProxySpec
spec device proto host_port internal_port = record {
  device_name = device;
  protocol = proto;
  host_port = host_port;
  internal_port = internal_port;
}

abbrev row_of : ℕ → ℕ → String → ProxySpec → ℕ → PortMapping
row_of id instance_id proto s created_at = record {
  id = id;
  instance_id = instance_id;
  protocol = proto;
  host_port = s.host_port;
  internal_port = s.internal_port;
  device_name = s.device_name;
  created_at = created_at;
}

module _ (S : System) where
  -- A device name that is taken gets the beginning of a new identifier.
  unique_device : Bool → String → Call S String
  unique_device false device = pure device
  unique_device true device = do
    id ← new_uuid S
    pure (device <> ("-" <> S.readings.uuid_prefix id))

  -- The guest's own number is preferred; if it cannot be reserved, any port is taken.
  prefer_same : ℕ → Result (Unit {0}) → Call S ℕ
  unfolding allocate
  prefer_same internal_port (ok _) = pure internal_port
  prefer_same internal_port (err _) = allocate S

  reserve_wanted : ℤ → Result (Unit {0}) → Call S ℕ
  reserve_wanted wanted (ok _) = pure (pos_part wanted)
  reserve_wanted wanted (err e) = fail (conflict (message e))

  -- The host port of a new mapping.
  unfoldable pub choose_host_port : ℤ → ℕ → Call S ℕ
  unfolding prefer_same reserve_wanted reserve
  choose_host_port (pos zero) internal_port = do
    prefer_same internal_port (← attempt (reserve S (pos internal_port)))
  choose_host_port (pos (suc n)) internal_port = do
    reserve_wanted (pos (suc n)) (← attempt (reserve S (pos (suc n))))
  choose_host_port (negsuc n) internal_port = do
    reserve_wanted (negsuc n) (← attempt (reserve S (negsuc n)))

  after_row : Instance → PortMapping → Result (Unit {0}) → Call S PortMapping
  after_row inst pm (ok _) = pure pm
  after_row inst pm (err e) = do
    ignore (execute S (remove_proxy_device inst.incus_name pm.device_name))
    ignore (release S pm.host_port)
    fail e

  after_device : Instance → String → ProxySpec → Result (Unit {0}) → Call S PortMapping
  unfolding after_row
  after_device inst proto s (err e) = do ignore (release S s.host_port); within "add proxy" (fail e)
  after_device inst proto s (ok _) = do
    id ← new_uuid S
    created_at ← now S
    let pm = row_of id inst.id proto s created_at
    after_row inst pm (← attempt (query S (add_port pm)))

  -- The part of `AddPortMapping` that follows the choice of the host port.
  unfoldable pub map_port : Instance → String → ℕ → ℕ → Call S PortMapping
  unfolding unique_device after_device
  map_port inst proto internal_port host_port = do
    device ←
        unique_device (any (λ p. p.device_name == device_for proto internal_port) inst.ports)
          (device_for proto internal_port)
    let s = spec device proto host_port internal_port
    after_device inst proto s (← attempt (execute S (add_proxy_device inst.incus_name s)))

  abbrev protocol_of : String → String
  protocol_of p = if to_lower p == "" then "tcp" else to_lower p

  -- `AddPortMapping`
  unfoldable pub add_port_mapping : ℕ → AddPortRequest → Call S PortMapping
  unfolding choose_host_port map_port get_instance to_lower
  add_port_mapping id req = do
    inst ← get_instance S id
    raise_if (leb_ℤ req.internal_port (pos 0) || ltb_ℤ (pos 65535) req.internal_port)
        (invalid_input "invalid internal_port")
    raise_if (not (is_protocol (protocol_of req.protocol)))
        (invalid_input "protocol must be tcp or udp")
    host_port ← choose_host_port req.host_port (pos_part req.internal_port)
    map_port inst (protocol_of req.protocol) (pos_part req.internal_port) host_port

  -- `RemovePortMapping`
  unfoldable pub remove_port_mapping : ℕ → ℕ → Call S (Unit {0})
  unfolding get_instance
  remove_port_mapping instance_id port_id = do
    inst ← get_instance S instance_id
    pm ← query S (get_port instance_id port_id)
    ignore (execute S (remove_proxy_device inst.incus_name pm.device_name))
    ignore (release S pm.host_port)
    query S (delete_port pm.id)

  after_update : Instance → PortMapping → PortMapping → Result (Unit {0}) → Call S PortMapping
  after_update inst pm new (ok _) = pure new
  after_update inst pm new (err e) = do
    ignore (
        execute S (
          update_proxy_device_protocol inst.incus_name new.device_name
            (spec pm.device_name pm.protocol pm.host_port pm.internal_port)))
    fail e

  -- The part of `UpdatePortMapping` for a protocol that differs from the mapping's.
  unfoldable pub change_protocol : Instance → PortMapping → String → Call S PortMapping
  unfolding unique_device after_update
  change_protocol inst pm proto = do
    raise_if
        (any (λ p. not (p.id == pm.id) && (p.host_port == pm.host_port && p.protocol == proto))
          inst.ports)
        (conflict ("host port " <> (decimal pm.host_port <> (" already mapped as " <> proto))))
    device ←
        unique_device
          (any (λ p. not (p.id == pm.id) && p.device_name == device_for proto pm.host_port)
            inst.ports)
          (device_for proto pm.host_port)
    within "update proxy protocol" (
        execute S (
          update_proxy_device_protocol inst.incus_name pm.device_name
            (spec device proto pm.host_port pm.internal_port)))
    after_update inst pm (record pm { protocol = proto; device_name = device })
        (← attempt (query S (update_port_protocol pm.id proto device)))

  -- `UpdatePortMapping`
  unfoldable pub update_port_mapping : ℕ → ℕ → UpdatePortRequest → Call S PortMapping
  unfolding change_protocol get_instance to_lower trim_space
  update_port_mapping instance_id port_id req = do
    inst ← get_instance S instance_id
    pm ← query S (get_port instance_id port_id)
    let proto = to_lower (trim_space req.protocol)
    raise_if (not (is_protocol proto)) (invalid_input "protocol must be tcp or udp")
    if proto == pm.protocol then pure pm else change_protocol inst pm proto
