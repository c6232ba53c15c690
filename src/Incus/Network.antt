-- ===== src/Incus/Network.antt =====
-- internal/incusclient/network.go and client.go: the managed bridge, and the fixed IPv4 address of a container.
use goincus.Base.{
  String, ◌<>◌, Bool, true, false, not, ◌&&◌, ◌||◌, Option, none, some, List, [], ◌∷◌, ◌++◌, ◌==◌,
  String-Eq, ℕ-Eq, leb, find, if◌then◌else◌,
}
use goincus.Base.Decimal.{decimal}
use goincus.Base.Text.{trim_space, equal_fold}
use goincus.Base.Split.{cut}
use goincus.Base.Maps.{
  Settings, Devices, value_at, has_key, without, with_value, overlay, text_at, device_at,
}
use goincus.Base.Result.{ok, err, failure}
use goincus.System.{pure, fail, ◌>>=◌, ◌>>◌, ignore, attempt, raise_if, settle, within}
use goincus.Incus.Daemon.{Daemon, Guest, Network, Request, request, settings}
use goincus.Incus.Limits.{hardened_nic}
use goincus.Incus.Addresses.{
  IpNet, ip_text, parse_ip, parse_cidr, parse_host_from_cidr, ipv4_netmask, first_unused,
  host_count,
}

-- `defaultBridgeCIDR`
abbrev pub default_bridge_cidr : String
default_bridge_cidr = "10.72.160.1/24"

abbrev is_none_cidr : Option IpNet → Bool
is_none_cidr none = true
is_none_cidr (some _) = false

-- `set` of `HardenNetwork`: the settings, and whether one of them has changed.
abbrev pub set_text : String → String → Settings × Bool → Settings × Bool
set_text k v (config, changed) =
    if text_at config k == v then (config, changed) else (with_value config k v, true)

-- The settings that `HardenNetwork` writes.
unfoldable pub harden_config : Settings → Settings × Bool
harden_config config =
    let addr = trim_space (text_at config "ipv4.address") in
    let start : Settings × Bool =
      if addr == ""
        || equal_fold addr "none"
        || equal_fold addr "auto"
        || is_none_cidr (parse_cidr addr)
      then set_text "ipv4.address" default_bridge_cidr (config, false)
      else (config, false) in
    let dhcp = set_text "ipv4.dhcp" "true" (set_text "ipv4.nat" "true" start) in
    let dns : Settings × Bool =
      if text_at dhcp.0 "dns.mode" == "" then set_text "dns.mode" "managed" dhcp else dhcp in
    set_text "ipv6.address" "none" dns

-- The addresses of the NICs among the devices, without the length of the prefix.
unfoldable pub nic_addresses : Devices → List String
nic_addresses [] = []
nic_addresses ((name, dev) ∷ devices) =
    let rest = nic_addresses devices in
    let addr = (cut b'/' (text_at dev "ipv4.address")).0 in
    if text_at dev "type" == "nic" && not (addr == "") then addr ∷ rest else rest

unfoldable pub guest_addresses : List Guest → List String
unfolding nic_addresses
guest_addresses [] = []
guest_addresses (inst ∷ guests) =
    nic_addresses inst.devices ++ (nic_addresses inst.expanded_devices ++ guest_addresses guests)

-- The loop over the settings of `HardenedNIC` in `EnsureInstanceIPv4`: does one of them change?
unfoldable pub nic_differs : Settings → Settings → Bool
nic_differs eth0 [] = false
nic_differs eth0 ((k, v) ∷ hardened) = not (text_at eth0 k == v) || nic_differs eth0 hardened

module _ (D : Daemon) where
  -- `EnsureHostOutboundNAT`
  unfoldable pub ensure_host_outbound_nat : (bridge gateway_cidr : String) → Request D (Unit {0})
  ensure_host_outbound_nat bridge gateway_cidr = if bridge == "" then pure tt else do
    ignore
        (request D (D.write_file "/etc/sysctl.d/99-goincus-forward.conf" "net.ipv4.ip_forward=1\n"))
    ignore (request D (D.run_command ("sysctl" ∷ "-w" ∷ "net.ipv4.ip_forward=1" ∷ [])))
    let subnet : String = elim (parse_cidr gateway_cidr) [
      | none ↦ "10.72.160.0/24"
      | some net ↦ ip_text net.ip <> ("/" <> decimal net.ones)
    ]
    within "host outbound nat" (request D (D.outbound_rules bridge subnet))

  -- The update of `HardenNetwork`, and the network as it is then.
  write_network : String → Network → Settings → String → Request D Network
  write_network name n config etag = do
    request D (D.update_network name config etag)
    refreshed ← attempt (request D (D.get_network name))
    pure (elim refreshed [ ok (again, _) ↦ again | err _ ↦ record n { config = config } ])

  -- `HardenNetwork`
  unfoldable pub harden_network : String → Request D (Unit {0})
  unfolding ensure_host_outbound_nat harden_config write_network
  harden_network name = do
    (n, etag) ← request D (D.get_network name)
    let (config, changed) = harden_config n.config
    after ← if changed then write_network name n config etag else pure n
    ignore (ensure_host_outbound_nat name (text_at after.config "ipv4.address"))
    pure tt

  -- `NetworkIPv4CIDR`
  unfoldable pub network_ipv4_cidr : Request D String
  unfolding harden_network
  network_ipv4_cidr = do
    cfg ← settings D
    raise_if (cfg.network == "") (failure "no network configured")
    harden_network cfg.network
    (n, _) ← request D (D.get_network cfg.network)
    let cidr = trim_space (text_at n.config "ipv4.address")
    raise_if (is_none_cidr (parse_cidr cidr)) (
        failure
          ("network \"" <> (cfg.network <> ("\" has unusable ipv4.address \"" <> (cidr <> "\"")))))
    pure cidr

  -- The addresses that are not free: the gateway, the leases, and the NICs of all instances. A list that the
  -- daemon does not give is passed over.
  unfoldable pub used_addresses : (network cidr : String) → Request D (List String)
  unfolding guest_addresses
  used_addresses network cidr = do
    leases ← attempt (request D (D.get_network_leases network))
    guests ← attempt (request D D.get_instances)
    pure (
        (elim (parse_host_from_cidr cidr) as (λ _. List String) [
          | ok (gw, _) ↦ gw ∷ []
          | err _ ↦ []
        ])
        ++ ((elim leases as (λ _. List String) [ ok addresses ↦ addresses | err _ ↦ [] ])
            ++ (elim guests as (λ _. List String) [ ok list ↦ guest_addresses list | err _ ↦ [] ])))

  -- `AllocateContainerIPv4`
  unfoldable pub allocate_container_ipv4 : Request D String
  unfolding network_ipv4_cidr used_addresses
  allocate_container_ipv4 = do
    cfg ← settings D
    raise_if (cfg.network == "") (failure "no network configured")
    cidr ← network_ipv4_cidr
    elim (parse_cidr cidr) [
      | none ↦ fail (failure ("parse network cidr \"" <> (cidr <> "\"")))
      | some net ↦ do
        used ← used_addresses cfg.network cidr
        raise_if (leb 30 net.ones) (failure ("unsupported ipv4 mask for \"" <> (cidr <> "\"")))
        elim (first_unused used net.ip 2 (host_count net.ones)) [
          | none ↦ fail (failure ("no free ipv4 addresses on " <> cfg.network))
          | some address ↦ pure address
        ]
    ]

  -- `ApplyGuestStaticIPv4`: the script gets the address, the gateway, the prefix and the mask.
  unfoldable pub apply_guest_static_ipv4 : (name ip cidr : String) → Request D (Unit {0})
  apply_guest_static_ipv4 name ip cidr = do
    (gw, mask) ← settle (parse_host_from_cidr cidr)
    code ←
        within "apply guest ipv4"
          (request D (D.exec name ("static-ipv4" ∷ ip ∷ gw ∷ mask ∷ ipv4_netmask mask ∷ [])))
    raise_if (not (code == 0)) (failure ("apply guest ipv4 exited " <> decimal code))

  -- The update of `EnsureInstanceIPv4`, which is tried again without port isolation.
  write_nic : String → Guest → Settings → String → Request D (Unit {0})
  write_nic name inst eth0 etag = within "set eth0 ipv4.address" do
    first ←
        attempt (
          request D (D.update_instance name inst.config (with_value inst.devices "eth0" eth0) etag))
    op ← elim first [
      | ok op ↦ pure op
      | err _ ↦ request D (
          D.update_instance name inst.config
            (with_value inst.devices "eth0" (without eth0 "security.port_isolation")) etag)
    ]
    request D (D.wait op)

  -- `EnsureInstanceIPv4`, after the call of `EnsureInfrastructure`, which is an argument.
  unfoldable pub ensure_instance_ipv4 : Request D (Unit {0}) → String → Request D String
  unfolding network_ipv4_cidr allocate_container_ipv4 apply_guest_static_ipv4 nic_differs write_nic
  ensure_instance_ipv4 ensure_infrastructure name = do
    ensure_infrastructure
    cidr ← network_ipv4_cidr
    (inst, etag) ← request D (D.get_instance name)
    let had_device = has_key inst.devices "eth0"
    let eth0 : Settings = elim (value_at inst.devices "eth0") [
      | some own ↦ own
      | none ↦ overlay [] (device_at inst.expanded_devices "eth0")
    ]
    let own_ip = (cut b'/' (trim_space (text_at eth0 "ipv4.address"))).0
    let usable : Bool = elim (parse_ip own_ip) [ none ↦ false | some _ ↦ true ]
    ip ← if usable then pure own_ip else allocate_container_ipv4
    cfg ← settings D
    let hardened = hardened_nic cfg.network ip
    if not had_device || not usable || nic_differs eth0 hardened
        then write_nic name inst (overlay eth0 hardened) etag
        else pure tt
    apply_guest_static_ipv4 name ip cidr
    pure ip

  -- The networks that `EnsureNetwork` prefers over a new one: a managed bridge, then any managed one.
  abbrev pub existing_network : List Network → Option Network
  existing_network networks = elim (find (λ n. (n.kind == "bridge") && n.managed) networks) [
    | some n ↦ some n
    | none ↦ find (λ n. n.managed) networks
  ]

  bridge_config : Settings
  bridge_config =
      ("ipv4.address", default_bridge_cidr)
      ∷ ("ipv4.nat", "true")
      ∷ ("ipv4.dhcp", "true")
      ∷ ("dns.mode", "managed")
      ∷ ("ipv6.address", "none")
      ∷ []

  -- `EnsureNetwork`
  unfoldable pub ensure_network : Request D String
  unfolding harden_network bridge_config
  ensure_network = do
    cfg ← settings D
    let wanted = if cfg.network == "" then "incusbr0" else cfg.network
    there ← attempt (request D (D.get_network wanted))
    elim there [
      | ok _ ↦ do ignore (harden_network wanted); pure wanted
      | err _ ↦ do
        networks ← attempt (request D D.get_networks)
        let chosen : Option Network = elim networks [
          | ok list ↦ existing_network list
          | err _ ↦ none
        ]
        elim chosen [
          | some n ↦ do ignore (harden_network n.name); pure n.name
          | none ↦ do
            within ("create network \"" <> (wanted <> "\""))
                (request D (D.create_network wanted "bridge" bridge_config))
            ignore (harden_network wanted)
            pure wanted
        ]
    ]

  -- `alignDefaultProfileNetwork`
  unfoldable pub align_default_profile_network : String → Request D (Unit {0})
  align_default_profile_network network = do
    found ← attempt (request D (D.get_profile "default"))
    elim found [
      | err _ ↦ pure tt
      | ok (profile, etag) ↦ elim (value_at profile.devices "eth0") [
        | none ↦ request D (
            D.update_profile "default"
              (record profile {
                devices =
                    with_value profile.devices "eth0"
                      (("type", "nic") ∷ ("network", network) ∷ ("name", "eth0") ∷ []);
              })
              etag)
        | some eth0 ↦
            if text_at eth0 "network" == network
            then pure tt
            else request D (
                D.update_profile "default"
                  (record profile { devices = with_value profile.devices "eth0" (moved eth0) })
                  etag)
      ]
    ]
    where
      moved : Settings → Settings
      moved eth0 =
          let nic = with_value (with_value eth0 "network" network) "type" "nic" in
          if text_at nic "name" == "" then with_value nic "name" "eth0" else nic
