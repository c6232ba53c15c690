-- ===== src/Incus/Create.antt =====
-- internal/incusclient/client.go and security.go: the hardened profile, the infrastructure that a container needs, and its creation.
use goincus.Base.{
  ℕ, String, ◌<>◌, Bool, false, not, ◌&&◌, ◌||◌, Option, none, some, List, [], ◌∷◌, ◌==◌, String-Eq,
  contains, if◌then◌else◌,
}
use goincus.Base.Int.{ℤ, pos, leb_ℤ}
use goincus.Base.Text.{has_infix, trim_space}
use goincus.Base.Split.{split_on, parse_integer, ends_with}
use goincus.Base.Maps.{Settings, Devices, without, with_value, overlay, text_at}
use goincus.Base.Result.{ok, err, message}
use goincus.System.{CreateArgs, pure, fail, ◌>>=◌, ◌>>◌, ignore, attempt, within, map_error}
use goincus.Incus.Daemon.{Daemon, Profile, NewGuest, Request, request, settings, set_network}
use goincus.Incus.Limits.{
  unprivileged_profile, hardened_instance_config, hardened_nic, apply_nic_network_policy,
  resource_config, sanitize_profiles, merge_config,
}
use goincus.Incus.Guests.{isolation_error, ensure_bridge_netfilter}
use goincus.Incus.Network.{ensure_network, align_default_profile_network, allocate_container_ipv4}
use goincus.Incus.Storage.{ensure_storage_pool, root_disk_device}

-- The devices that an old profile must not keep: host paths, and direct access to hardware.
unfoldable pub is_exposing : Settings → Bool
is_exposing dev =
    ((text_at dev "type" == "disk")
      && not (text_at dev "path" == "")
      && not (text_at dev "path" == "/")
      && not (text_at dev "source" == ""))
    || contains ("unix-char" ∷ "unix-block" ∷ "gpu" ∷ "infiniband" ∷ []) (text_at dev "type")

unfoldable pub drop_exposing : Devices → Devices
drop_exposing [] = []
drop_exposing ((name, dev) ∷ devices) =
    let rest = drop_exposing devices in if is_exposing dev then rest else (name, dev) ∷ rest

abbrev pub profile_description : String
profile_description =
    "goincus multi-tenant isolation — unprivileged, no nesting, isolated idmap, filtered NIC"

-- What `EnsureUnprivilegedProfile` makes of a profile that is there.
unfoldable pub hardened_profile : Profile → Profile
unfolding is_exposing drop_exposing
hardened_profile existing = record {
  description = profile_description;
  config =
      without
        (with_value
          (with_value
            (with_value (overlay existing.config hardened_instance_config) "security.privileged"
              "false")
            "security.nesting" "false")
          "security.guestapi" "false")
        "limits.kernel.pid_max";
  devices = drop_exposing existing.devices;
}

-- The size of the range that a line of a subordinate id file gives root, if it gives one.
root_range : List String → Option ℤ
root_range (user ∷ start ∷ size ∷ []) = if user == "root" then parse_integer size else none
root_range _ = none

-- The loop of `ensureLargeIDMap` over the lines: is a range of 16 times 65536 there? The text of a
-- number is read at any size, where `strconv.Atoi` gives its largest value.
unfoldable pub has_huge_range : List String → Bool
unfolding root_range
has_huge_range [] = false
has_huge_range (line ∷ lines) =
    let later = has_huge_range lines in
    elim (root_range (split_on b':' (trim_space line))) [
      | none ↦ later
      | some size ↦ leb_ℤ (pos 1_048_576) size || later
    ]

abbrev pub id_map_entry : String
id_map_entry = "root:1000000:1000000000"

-- What `ensureLargeIDMap` writes to a file, if it writes it.
unfoldable pub id_map_text : Option String → Option String
unfolding has_huge_range
id_map_text none = some (id_map_entry <> "\n")
id_map_text (some text) =
    if has_infix id_map_entry text || has_huge_range (split_on b'\n' text)
    then none
    else some (
        (if ends_with b'\n' text || text == "" then text else text <> "\n")
        <> (id_map_entry <> "\n"))

-- The configuration of a new container; `user_data` is `CloudInitUserData` of the password and the port.
unfoldable pub container_config : (user_data : String → ℕ → String) → CreateArgs → Settings
container_config user_data args =
    let cfg =
      merge_config hardened_instance_config
        (resource_config args.cpu_cores args.memory_mb args.processes) in
    if args.root_password == ""
    then cfg
    else with_value cfg "cloud-init.user-data" (user_data args.root_password args.ssh_port)

-- The request of `CreateInstance` with a NIC.
abbrev pub with_nic : NewGuest → Settings → NewGuest
with_nic req eth0 = record req { devices = with_value req.devices "eth0" eth0 }

module _ (D : Daemon) where
  ensure_id_map : String → Request D (Unit {0})
  unfolding id_map_text
  ensure_id_map path = do
    text ← request D (D.read_file path)
    elim (id_map_text text) [ none ↦ pure tt | some new ↦ request D (D.write_file path new) ]

  -- `ensureLargeIDMap`
  unfoldable pub ensure_large_id_map : Request D (Unit {0})
  unfolding ensure_id_map
  ensure_large_id_map = do ensure_id_map "/etc/subuid"; ensure_id_map "/etc/subgid"

  -- `applyHostSysctlHardening`
  apply_host_sysctl_hardening : Request D (Unit {0})
  apply_host_sysctl_hardening = do
    request D (D.write_file "/etc/sysctl.d/99-goincus-isolation.conf" isolation_sysctl)
    ignore (request D (D.run_command ("sysctl" ∷ "--system" ∷ [])))
    where
      isolation_sysctl : String
      isolation_sysctl =
          "# Managed by goincus — reduce container escape / info-leak surface\nkernel.unprivileged_bpf_disabled = 1\nkernel.kptr_restrict = 2\nkernel.dmesg_restrict = 1\nkernel.yama.ptrace_scope = 1\nnet.ipv4.conf.all.rp_filter = 1\nnet.ipv4.conf.default.rp_filter = 1\nnet.ipv4.conf.all.accept_redirects = 0\nnet.ipv6.conf.all.accept_redirects = 0\n"

  -- `EnsureHostIsolation`
  unfoldable pub ensure_host_isolation : Request D (Unit {0})
  unfolding ensure_large_id_map ensure_bridge_netfilter apply_host_sysctl_hardening
  ensure_host_isolation = do
    ensure_large_id_map
    ignore (ensure_bridge_netfilter D)
    ignore apply_host_sysctl_hardening

  -- `EnsureUnprivilegedProfile`
  unfoldable pub ensure_unprivileged_profile : Request D (Unit {0})
  unfolding ensure_host_isolation hardened_profile
  ensure_unprivileged_profile = do
    ignore ensure_host_isolation
    found ← attempt (request D (D.get_profile unprivileged_profile))
    elim found [
      | err _ ↦ request D (
          D.create_profile unprivileged_profile (record {
            description = profile_description;
            config = hardened_instance_config;
            devices = [];
          }))
      | ok (existing, etag) ↦
          request D (D.update_profile unprivileged_profile (hardened_profile existing) etag)
    ]

  -- `EnsureInfrastructure`
  unfoldable pub ensure_infrastructure : Request D (Unit {0})
  unfolding ensure_storage_pool ensure_network align_default_profile_network
  ensure_infrastructure = do
    ensure_storage_pool D
    network ← ensure_network D
    set_network D network
    align_default_profile_network D network

  -- The loop of `filterAvailableProfiles`.
  available : List String → Request D (List String)
  available [] = pure []
  available (name ∷ names) = do
    found ← attempt (request D (D.get_profile name))
    rest ← available names
    pure (elim found as (λ _. List String) [ ok _ ↦ name ∷ rest | err _ ↦ rest ])

  -- `filterAvailableProfiles`
  unfoldable pub filter_available_profiles : List String → Request D (List String)
  unfolding available
  filter_available_profiles profiles = do
    out ← available profiles
    pure (elim out as (λ _. List String) [
      | [] ↦ unprivileged_profile ∷ []
      | name ∷ names ↦ name ∷ names
    ])

  -- The two attempts of `CreateContainer`: an older daemon may not know port isolation.
  unfoldable pub submit : NewGuest → Settings → Request D D.Operation
  submit req eth0 = do
    first ← attempt (request D (D.create_instance (with_nic req eth0)))
    elim first [
      | ok op ↦ pure op
      | err e ↦
          if has_infix "port_isolation" (message e) || has_infix "Invalid device" (message e)
          then request D (D.create_instance (with_nic req (without eth0 "security.port_isolation")))
          else fail e
    ]

  -- `CreateContainer`
  unfoldable pub create_container :
      (user_data : String → ℕ → String) → CreateArgs → Request D (Unit {0})
  unfolding ensure_infrastructure filter_available_profiles container_config submit
  create_container user_data args = do
    ensure_infrastructure
    cfg ← settings D
    let wanted = elim args.profiles as (λ _. List String) [ [] ↦ cfg.profiles | p ∷ ps ↦ p ∷ ps ]
    available ← filter_available_profiles wanted
    ip ← within "allocate static ipv4" (allocate_container_ipv4 D)
    root ← root_disk_device D args.storage_gb
    let eth0 = apply_nic_network_policy (hardened_nic cfg.network ip) args.bandwidth_mbps false
    let req : NewGuest = record {
      name = args.name;
      image = if args.image == "" then cfg.default_image else args.image;
      image_server = cfg.image_server;
      image_protocol = cfg.image_protocol;
      profiles = sanitize_profiles available;
      config = container_config user_data args;
      devices = ("root", root) ∷ [];
    }
    op ← map_error isolation_error (within "create instance" (submit req eth0))
    map_error isolation_error (within "wait create instance" (request D (D.wait op)))
