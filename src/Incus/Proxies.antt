-- ===== src/Incus/Proxies.antt =====
-- internal/incusclient/client.go: the proxy devices that map host ports to guest ports.
pub mod Stored
pub mod RoundTrip
use goincus.Base.{
  ℕ, String, ◌<>◌, Bool, ◌||◌, not, List, [], ◌∷◌, Option, none, some, ◌==◌, String-Eq,
  if◌then◌else◌,
}
use goincus.Base.Decimal.{decimal}
use goincus.Base.Text.{trim_space, to_lower}
use goincus.Base.Maps.{Settings, Devices, value_at, has_key, without, with_value, overlay}
use goincus.Base.Result.{Result, failure}
use goincus.System.{ProxySpec, pure, fail, ◌>>=◌, ◌>>◌, within}
use goincus.Incus.Daemon.{Daemon, Request, request}

-- The settings of a proxy device.
abbrev pub proxy_settings : (protocol : String) → (host_port internal_port : ℕ) → Settings
proxy_settings protocol host_port internal_port =
    ("type", "proxy")
    ∷ ("listen", protocol <> (":0.0.0.0:" <> decimal host_port))
    ∷ ("connect", protocol <> (":127.0.0.1:" <> decimal internal_port))
    ∷ ("bind", "host")
    ∷ []

-- The name and the settings of the device for a mapping, with the defaults of `AddProxyDevices`.
abbrev pub spec_name : ProxySpec → String
spec_name spec =
    if spec.device_name == "" then "proxy-" <> decimal spec.host_port else spec.device_name

abbrev pub spec_settings : ProxySpec → Settings
spec_settings spec =
    proxy_settings (if spec.protocol == "" then "tcp" else spec.protocol) spec.host_port
      spec.internal_port

-- The loop of `AddProxyDevices`: a later mapping replaces an earlier one of the same name.
unfoldable pub add_specs : Devices → List ProxySpec → Devices
add_specs devices [] = devices
add_specs devices (spec ∷ specs) =
    add_specs (with_value devices (spec_name spec) (spec_settings spec)) specs

-- The loop of `UpdateProxyDeviceProtocol` over the old settings.
unfoldable pub keep_other_keys : Settings → Settings → Settings
keep_other_keys cfg [] = cfg
keep_other_keys cfg ((k, v) ∷ dev) =
    let rest = keep_other_keys cfg dev in
    if k == "type" || k == "listen" || k == "connect" || k == "bind"
    then rest
    else with_value rest k v

-- The devices after a change of protocol: the old entry goes if the name changes.
unfoldable pub rename_proxy : Devices → (old_name new_name : String) → Settings → Settings → Devices
unfolding keep_other_keys
rename_proxy devices old_name new_name dev cfg =
    let name = if new_name == "" then old_name else new_name in
    with_value (if name == old_name then devices else without devices old_name) name
      (keep_other_keys cfg dev)

module _ (D : Daemon) where
  -- `UpdateInstance` with new devices, and `Wait`.
  abbrev pub write_devices : String → Settings → Devices → String → Request D (Unit {0})
  write_devices name config devices etag = do
    op ← request D (D.update_instance name config devices etag)
    request D (D.wait op)

  -- `AddProxyDevices`
  unfoldable pub add_proxy_devices : String → List ProxySpec → Request D (Unit {0})
  unfolding add_specs
  add_proxy_devices name [] = pure tt
  add_proxy_devices name (spec ∷ specs) = within "add proxy devices" do
    (inst, etag) ← request D (D.get_instance name)
    write_devices name inst.config (add_specs inst.devices (spec ∷ specs)) etag

  -- `AddProxyDevice` and `addForkProxyDevice`
  unfoldable pub add_proxy_device :
      String
      → (device_name protocol : String) → (host_port internal_port : ℕ) → Request D (Unit {0})
  add_proxy_device name device_name protocol host_port internal_port = within "add proxy device" do
    (inst, etag) ← request D (D.get_instance name)
    write_devices name inst.config
        (with_value inst.devices device_name (proxy_settings protocol host_port internal_port)) etag

  -- `RemoveProxyDevice`
  unfoldable pub remove_proxy_device : String → String → Request D (Unit {0})
  remove_proxy_device name device_name = do
    (inst, etag) ← within "get instance" (request D (D.get_instance name))
    if has_key inst.devices device_name
        then within "remove proxy device"
            (request D (D.update_instance name inst.config (without inst.devices device_name) etag))
          >>= (λ op. request D (D.wait op))
        else pure tt

  -- `UpdateProxyDeviceProtocol`
  unfoldable pub update_proxy_device_protocol :
      String
      → (old_name new_name protocol : String) → (host_port internal_port : ℕ) → Request D (Unit {0})
  unfolding rename_proxy
  update_proxy_device_protocol name old_name new_name protocol host_port internal_port = do
    let wanted = to_lower (trim_space protocol)
    let proto = if wanted == "" then "tcp" else wanted
    (inst, etag) ← within "update proxy protocol" (request D (D.get_instance name))
    dev ← elim (value_at inst.devices old_name) [
      | none ↦ fail (failure ("proxy device \"" <> (old_name <> "\" not found")))
      | some dev ↦ pure dev
    ]
    op ← within "update proxy protocol" (
        request D (
          D.update_instance name inst.config
            (rename_proxy inst.devices old_name new_name dev
              (proxy_settings proto host_port internal_port))
            etag))
    request D (D.wait op)
