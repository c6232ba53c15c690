-- ===== src/Incus/Server.antt =====
-- The client as the service sees it: the methods of internal/incusclient, over a daemon, in the shape of
-- the servers that the service takes. A script that runs in a guest (ssh.go and
-- netboot.go) is a call of `exec` with its name and what is put into its text.
use goincus.Base.{ℕ, String, ◌<>◌, not, ◌||◌, if◌then◌else◌, List, [], ◌∷◌, ◌==◌, ℕ-Eq, String-Eq}
use goincus.Base.Maps.{text_at}
use goincus.Base.Decimal.{decimal}
use goincus.Base.Text.{trim_space, equal_fold}
use goincus.Base.Result.{ok, err, failure, wrap, message}
use goincus.System.{
  IncusServer, Command, create_container, ensure_started, ensure_instance_ipv4, harden_network,
  add_proxy_devices, add_proxy_device, remove_proxy_device, update_proxy_device_protocol,
  update_resource_limits, apply_network_policy, ensure_disk_isolation, set_root_password,
  stop_container, restart_container, delete_container, pure, ◌>>=◌, ◌>>◌, attempt, ignore,
  map_error, raise_if, within,
}
use goincus.Incus.Daemon.{Daemon, Session, Request, request, settings}
use goincus.Incus.Addresses.{parse_host_from_cidr}
use goincus.Incus.CloudInit.{cloud_init_user_data}
use goincus.Incus.Create as Create
use goincus.Incus.Guests.{suffixed}
use goincus.Incus.Guests as Guests
use goincus.Incus.Network as Network
use goincus.Incus.Proxies as Proxies
use goincus.Incus.Samples as Samples
use goincus.Incus.Storage as Storage
use goincus.Incus.Tuning as Tuning

module _ (D : Daemon) where
  -- A script in a guest, which must end with the exit code 0.
  guest_script : String → String → List String → Request D (Unit {0})
  guest_script context name script = do
    code ← within context (request D (D.exec name script))
    raise_if (not (code == 0)) (failure (context <> (" exited " <> decimal code)))

  -- The address of the bridge, which answers the names of the guests; empty where there is none.
  bridge_dns : (network : String) → Request D String
  bridge_dns network = if network == "" then pure "" else do
    found ← attempt (request D (D.get_network network))
    pure (elim found [ err _ ↦ "" | ok (n, _) ↦ gateway (text_at n.config "ipv4.address") ])
    where
      gateway : String → String
      gateway cidr =
          if cidr == "" || equal_fold cidr "none"
          then ""
          else elim (parse_host_from_cidr cidr) [ err _ ↦ "" | ok (host, _) ↦ host ]

  -- `ConfigureGuestDNS`: the script gets the bridge's address, which is left out where it is empty.
  configure_guest_dns : String → Request D (Unit {0})
  unfolding guest_script bridge_dns
  configure_guest_dns name = do
    cfg ← settings D
    dns ← bridge_dns cfg.network
    guest_script "configure dns" name ("guest-dns" ∷ dns ∷ [])

  -- `EnsureSSH`: the packages come from the guest's package manager, or else from the host
  -- (`InstallOpenSSHFromHost`); then sshd is configured and waited for (`WaitForSSHD`).
  ensure_ssh : (name password : String) → (port : ℕ) → Request D (Unit {0})
  unfolding guest_script configure_guest_dns
  ensure_ssh name password port = do
    raise_if (password == "") (failure "root password is empty")
    let listen = if port == 0 then 22 else port
    ignore (configure_guest_dns name)
    apt ← attempt (guest_script "install openssh (apt)" name ("install-openssh" ∷ []))
    elim apt [
      | ok _ ↦ pure tt
      | err e ↦
          map_error
            (λ other.
              suffixed ")" (wrap ("install openssh (apt: " <> (message e <> "; host-debs")) other))
            (guest_script "host-debs" name ("host-debs" ∷ []))
    ]
    guest_script "configure ssh" name ("configure-ssh" ∷ password ∷ decimal listen ∷ [])
    guest_script "wait for sshd" name ("wait-sshd" ∷ decimal listen ∷ [])

  -- `SetRootPassword`
  set_password : String → String → Request D (Unit {0})
  unfolding guest_script
  set_password name password = do
    raise_if (trim_space password == "") (failure "root password is empty")
    guest_script "set root password" name ("chpasswd" ∷ password ∷ [])

  -- A method that changes the daemon or a guest.
  unfoldable pub run : Command → Request D (Unit {0})
  unfolding configure_guest_dns ensure_ssh set_password cloud_init_user_data Create.create_container
      Create.ensure_infrastructure Guests.ensure_started Guests.stop_container
      Guests.restart_container Guests.delete_container Network.ensure_instance_ipv4
      Network.harden_network Proxies.add_proxy_devices Proxies.add_proxy_device
      Proxies.remove_proxy_device Proxies.update_proxy_device_protocol Tuning.update_resource_limits
      Tuning.apply_network_policy Tuning.ensure_disk_isolation
  run (create_container args) = Create.create_container D cloud_init_user_data args
  run (ensure_started name) = Guests.ensure_started D name
  run (ensure_instance_ipv4 name) = do
    ip ← Network.ensure_instance_ipv4 D (Create.ensure_infrastructure D) name
    pure tt
  run (harden_network name) = Network.harden_network D name
  run (Command.configure_guest_dns name) = configure_guest_dns name
  run (Command.ensure_ssh name password port) = ensure_ssh name password port
  run (add_proxy_devices name specs) = Proxies.add_proxy_devices D name specs
  run (add_proxy_device name spec) =
      Proxies.add_proxy_device D name spec.device_name spec.protocol spec.host_port
        spec.internal_port
  run (remove_proxy_device name device) = Proxies.remove_proxy_device D name device
  run (update_proxy_device_protocol name old_name spec) =
      Proxies.update_proxy_device_protocol D name old_name spec.device_name spec.protocol
        spec.host_port spec.internal_port
  run (update_resource_limits name cpu mem procs bw throttled) =
      Tuning.update_resource_limits D name cpu mem procs bw throttled
  run (apply_network_policy name bw throttled) = Tuning.apply_network_policy D name bw throttled
  run (ensure_disk_isolation name) = Tuning.ensure_disk_isolation D name
  run (set_root_password name password) = set_password name password
  run (stop_container name force) = Guests.stop_container D name force
  run (restart_container name) = Guests.restart_container D name
  run (delete_container name) = Guests.delete_container D name

  unfoldable pub client : IncusServer
  unfolding run Samples.network_bytes_total Samples.resource_sample Storage.storage_pool_space
  client = record {
    State = Session D;
    execute = run;
    get_status = Guests.get_status D;
    network_bytes_total = Samples.network_bytes_total D;
    resource_sample = Samples.resource_sample D;
    storage_pool_space = Storage.storage_pool_space D;
    ping = request D D.ping;
  }
