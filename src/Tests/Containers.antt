-- ===== src/Tests/Containers.antt =====
-- The Incus client on a daemon with one guest, which answers to every name.
use goincus.Base.{
  ℕ, ◌+◌, ◌<>◌, ◌^◌, ◌≤◌, ◌<◌, ◌≡◌, ◌≢◌, refl, String, ◌&&◌, ◌||◌, true, false, List, [], ◌∷◌, none,
  some, ◌==◌, String-Eq, contains, arith,
}
use goincus.Base.Int.{pos}
use goincus.Base.Decimal.{decimal}
use goincus.Base.Split.{cut, split_on}
use goincus.Base.Text.{trim_space, first_field}
use goincus.Base.Maps.{Map, value_at, without}
use goincus.Base.Result.{Result, ok, err, failure}
use goincus.System.{CreateArgs}
use goincus.Incus.Daemon.{Daemon, Guest, Session}
use goincus.Incus.Laws.{DaemonLaws}
use goincus.Incus.Proxies.{add_proxy_device, remove_proxy_device}
use goincus.Incus.Proxies.RoundTrip.{remove_proxy_device-add_proxy_device}
use goincus.Incus.Limits.{
  unprivileged_profile, hardened_instance_config, sanitize_profiles, resource_config,
}
use goincus.Incus.Limits.Confined.{is_named, contains-sanitize_profiles, container_config_hardened}
use goincus.Incus.Limits.Quota.{resource_config_cpu}
use goincus.Incus.Create.{container_config}
use goincus.Incus.CloudInit.{cloud_init_user_data, encode_to_string}
use goincus.Incus.CloudInit.Quoted.{outside_base64, cloud_init_user_data_quoted}
use goincus.Incus.Addresses.{first_unused, host_count, ip_text}
use goincus.Incus.Addresses.Free.{candidate, first_unused_found}
use goincus.Incus.Packages.{
  DebPkg, Resolution, resolve_openssh_debs, resolved, out_of_fuel, parse_dep_names, is_base,
}
use goincus.Incus.Packages.Index.{parse_packages}
use goincus.Incus.Packages.Finish.{resolve_openssh_debs-ends}
use goincus.Incus.Packages.Parsed.{parse_packages-IsIndexed}
use goincus.Incus.Packages.Closed.{at_first, names_of, is_left_out, resolve_openssh_debs-IsClosed}
use goincus.Tests.Servers.{small_config}

abbrev refuse : {A : Type 0} → Guest → Result A × Guest
refuse g = (err (failure "not supported"), g)

abbrev small_daemon : Daemon
small_daemon = record {
  State = Guest;
  Operation = Unit {0};
  ping = λ g. (ok tt, g);
  get_instance = λ name g. (ok (g, "etag"), g);
  get_instances = λ g. (ok (g ∷ []), g);
  get_instance_state = λ name g. (ok none, g);
  get_instance_log = λ name file g. refuse g;
  create_instance = λ new g. refuse g;
  update_instance =
      λ name config devices etag g. (ok tt, record g { config = config; devices = devices });
  update_instance_state = λ name action timeout force g. refuse g;
  delete_instance = λ name g. refuse g;
  wait = λ op g. (ok tt, g);
  get_profile = λ name g. refuse g;
  create_profile = λ name profile g. refuse g;
  update_profile = λ name profile etag g. refuse g;
  get_network = λ name g. refuse g;
  get_networks = λ g. (ok [], g);
  create_network = λ name kind config g. refuse g;
  update_network = λ name config etag g. refuse g;
  get_network_leases = λ name g. (ok [], g);
  get_storage_pool = λ name g. refuse g;
  create_storage_pool = λ name driver size g. refuse g;
  get_storage_pool_resources = λ name g. refuse g;
  look_path = λ name g. (ok false, g);
  run_command = λ line g. refuse g;
  is_root = λ g. (ok false, g);
  read_file = λ path g. (ok none, g);
  write_file = λ path text g. refuse g;
  outbound_rules = λ bridge subnet g. refuse g;
  exec = λ name script g. (ok 0, g);
}

abbrev small_daemon-Laws : DaemonLaws small_daemon
small_daemon-Laws = record {
  stored = λ name g. some g;
  get_instance_keeps = λ name s. refl;
  get_instance_answers = λ name s g etag h. cc h;
  update_instance_done = λ name config devices etag s op accepted waited.
      (record s { config = config; devices = devices }, (refl, (refl, refl)));
}

abbrev web : Guest
web = record {
  status = "Running";
  is_running = true;
  config = ("limits.memory", "512MiB") ∷ [];
  devices = [];
  expanded_devices = [];
}

abbrev session : Session small_daemon
session = record { server = web; cfg = small_config.incus }

abbrev with_proxy : Result (Unit {0}) × Session small_daemon
with_proxy = add_proxy_device small_daemon "gi-web" "proxy-20000" "tcp" 20000 22 session

abbrev without_proxy : Result (Unit {0}) × Session small_daemon
without_proxy = remove_proxy_device small_daemon "gi-web" "proxy-20000" with_proxy.1

both_done : (with_proxy.0 ≡ ok tt) × (without_proxy.0 ≡ ok tt)
unfolding add_proxy_device remove_proxy_device value_at
both_done = (refl, refl)

no_device : value_at web.devices "proxy-20000" ≡ none
unfolding value_at
no_device = refl

remove_proxy_device-add_proxy_device_example :
    (after : Guest) × ((small_daemon-Laws.stored "gi-web" without_proxy.1.server ≡ some after)
      × ((after.config ≡ web.config)
          × ((k : String) → value_at after.devices k ≡ value_at web.devices k)))
remove_proxy_device-add_proxy_device_example =
    remove_proxy_device-add_proxy_device small_daemon small_daemon-Laws "gi-web" "proxy-20000" "tcp"
      20000 22 session web refl no_device both_done.0 both_done.1

abbrev asked : List String
asked = "default" ∷ "ssd" ∷ "" ∷ []

contains-sanitize_profiles_example :
    contains (sanitize_profiles asked) "ssd"
    ≡ (unprivileged_profile == "ssd" || (is_named "ssd" && contains asked "ssd"))
contains-sanitize_profiles_example = contains-sanitize_profiles asked "ssd"

abbrev small_args : CreateArgs
small_args = record {
  name = "gi-web";
  image = "debian/12";
  cpu_cores = pos 500_000_000;
  memory_mb = pos 512;
  storage_gb = pos 10;
  processes = pos 200;
  bandwidth_mbps = pos 100;
  profiles = "default" ∷ [];
  root_password = "pw";
  ssh_port = 20000;
}

unprivileged : value_at hardened_instance_config "security.privileged" ≡ some "false"
unfolding hardened_instance_config value_at
unprivileged = refl

container_config_hardened_example :
    value_at (container_config cloud_init_user_data small_args) "security.privileged" ≡ some "false"
container_config_hardened_example =
    container_config_hardened cloud_init_user_data small_args "security.privileged" "false"
      unprivileged

encoded : encode_to_string "s3cret" ≡ "czNjcmV0"
unfolding encode_to_string
encoded = refl

-- A password that would end the quotes and run a command.
cloud_init_user_data_quoted_example :
    outside_base64 (cloud_init_user_data "x'; reboot; echo '" 20000)
    ≡ outside_base64 (cloud_init_user_data "" 20000)
cloud_init_user_data_quoted_example = cloud_init_user_data_quoted "x'; reboot; echo '" 20000

-- One and a half cores.
resource_config_cpu_example :
    (value_at (resource_config (pos 1_500_000_000) (pos 512) (pos 200)) "limits.cpu"
      ≡ some (decimal 2))
    × (value_at (resource_config (pos 1_500_000_000) (pos 512) (pos 200)) "limits.cpu.allowance"
        ≡ some (decimal 150 <> "ms/100ms"))
resource_config_cpu_example = resource_config_cpu 150 (pos 512) (pos 200) (omega arith)

abbrev used : List String
used = "10.0.0.1" ∷ "10.0.0.2" ∷ []

third : first_unused used 167772160 2 (host_count 24) ≡ some "10.0.0.3"
unfolding first_unused ip_text host_count decimal
third = refl

first_unused_found_example :
    (contains used "10.0.0.3" ≡ false)
    × ((h : ℕ) × ((2 ≤ h) × ((h + 1 < 2 ^ 8) × ((h < 250) × ("10.0.0.3" ≡ candidate 167772160 h)))))
first_unused_found_example = first_unused_found used 167772160 24 "10.0.0.3" (omega arith) third

-- Two packages that depend on each other, and two that the index does not have.
abbrev index_lines : List String
index_lines =
    "Package: openssh-server" ∷ "Version: 1:9.2p1-2" ∷ "Filename: pool/openssh-server.deb"
    ∷ "Depends: openssh-client (>= 9), libwrap0, libc6" ∷ "" ∷ "Package: openssh-client"
    ∷ "Filename: pool/openssh-client.deb" ∷ "Depends: openssh-server" ∷ ""
    ∷ "Package: openssh-sftp-server" ∷ "Filename: pool/openssh-sftp-server.deb" ∷ ""
    ∷ "Package: libwrap0" ∷ "Filename: pool/libwrap0.deb" ∷ "" ∷ []

abbrev small_index : Map DebPkg
small_index = parse_packages index_lines

resolve_openssh_debs-ends_example : resolve_openssh_debs small_index ≢ out_of_fuel
resolve_openssh_debs-ends_example = resolve_openssh_debs-ends small_index

abbrev packages_of : Resolution → List DebPkg
packages_of (resolved out) = out
packages_of _ = []

abbrev small_out : List DebPkg
small_out = packages_of (resolve_openssh_debs small_index)

collects : resolve_openssh_debs small_index ≡ resolved small_out
unfolding resolve_openssh_debs parse_packages cut trim_space parse_dep_names split_on without
    is_base value_at first_field
collects = refl

resolve_openssh_debs-IsClosed_example :
    (contains (names_of small_out) "openssh-server" || is_left_out small_index "openssh-server")
    ≡ true
resolve_openssh_debs-IsClosed_example =
    resolve_openssh_debs-IsClosed small_index small_out "openssh-server"
      (parse_packages-IsIndexed index_lines) collects (at_first refl)

small_names :
    names_of small_out
    ≡ "openssh-server" ∷ "openssh-client" ∷ "openssh-sftp-server" ∷ "libwrap0" ∷ []
unfolding resolve_openssh_debs parse_packages cut trim_space parse_dep_names split_on without
    is_base value_at first_field
small_names = refl
