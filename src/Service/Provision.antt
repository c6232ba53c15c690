-- ===== src/Service/Provision.antt =====
-- internal/service/service.go: the background job that builds an instance, the ports that it gets, and
-- the operations that start an instance again.
pub mod Settled
pub mod Consistent
use goincus.Base.{
  ℕ, String, ◌<>◌, not, List, [], ◌∷◌, map, ◌==◌, ℕ-Eq, String-Eq, contains, select, if◌then◌else◌,
}
use goincus.Base.Int.{ℤ, pos}
use goincus.Base.Decimal.{decimal}
use goincus.Base.Result.{Result, ok, err, Error, message, wrap}
use goincus.Config.{or_default}
use goincus.Models.{Instance, PortMapping, creating, running, error}
use goincus.Store.Tables.{update_instance_status, update_root_password}
use goincus.Store.Ports.{add_port, list_ports}
use goincus.System.{
  System, Call, query, execute, now, new_uuid, random_password, pure, ◌>>=◌, ◌>>◌, ignore, attempt,
  within, ProxySpec, CreateArgs, create_container, ensure_started, ensure_instance_ipv4,
  harden_network, configure_guest_dns, ensure_ssh, add_proxy_devices,
}
use goincus.Ports.{allocate_block, release_block, release, first_port}
use goincus.Service.Status.{hour, day, write_status}

abbrev pub host_ports : List PortMapping → List ℕ
host_ports = map λ p. p.host_port

-- `fmt.Sprintf("proxy-%d", port)`
abbrev pub proxy_device : ℕ → String
proxy_device port = "proxy-" <> decimal port

-- The proxy of a 1:1 mapping.
abbrev pub proxy_spec : ℕ → ProxySpec
proxy_spec port = record {
  device_name = proxy_device port;
  protocol = "tcp";
  host_port = port;
  internal_port = port;
}

abbrev pub mapping : ℕ → ℕ → ℕ → ℕ → PortMapping
mapping id instance_id port created_at = record {
  id = id;
  instance_id = instance_id;
  protocol = "tcp";
  host_port = port;
  internal_port = port;
  device_name = proxy_device port;
  created_at = created_at;
}

module _ (S : System) where
  -- `fail`
  unfoldable pub fail_instance : ℕ → Error → Call S (Unit {0})
  unfolding write_status
  fail_instance id cause = write_status S id error (message cause) hour

  -- `blockSize`
  abbrev pub block_size : ℤ
  block_size = or_default S.cfg.ports.ports_per_instance (pos 20)

  -- The rows of `attachPortBlock` that wait to be written, one for each port of the block.
  unfoldable pub pending_rows : ℕ → ℕ → List ℕ → Call S (List PortMapping)
  pending_rows instance_id created_at [] = pure []
  pending_rows instance_id created_at (port ∷ ports) = do
    id ← new_uuid S
    rest ← pending_rows instance_id created_at ports
    pure (mapping id instance_id port created_at ∷ rest)

  unfoldable pub persist_rows : List PortMapping → Call S (Unit {0})
  persist_rows [] = pure tt
  persist_rows (p ∷ rows) = do
    within ("persist port " <> decimal p.host_port) (query S (add_port p))
    persist_rows rows

  attach_missing : Instance → List ℕ → Call S (Unit {0})
  unfolding pending_rows persist_rows
  attach_missing inst [] = pure tt
  attach_missing inst (port ∷ ports) = do
    created_at ← now S
    rows ← pending_rows inst.id created_at (port ∷ ports)
    within "proxy devices"
        (execute S (add_proxy_devices inst.incus_name (map proxy_spec (port ∷ ports))))
    persist_rows rows

  -- `attachPortBlock`: ports that the instance has already are passed over.
  unfoldable pub attach_port_block : Instance → List ℕ → Call S (Unit {0})
  unfolding attach_missing
  attach_port_block inst block = do
    existing ← within "list ports" (query S (list_ports inst.id))
    attach_missing inst (select (λ port. not (contains (host_ports existing) port)) block)

  new_root_password : Instance → Call S String
  new_root_password inst = do
    pass ← within "generate root password" (random_password S)
    within "persist root password" (query S (update_root_password inst.id pass))
    pure pass

  -- The password that `bootstrapSSH` uses: a new one is stored first.
  root_password_of : Instance → Call S String
  unfolding new_root_password
  root_password_of inst =
      if inst.root_password == "" then new_root_password inst else pure inst.root_password

  -- The part of `bootstrapSSH` that may be passed over: its error is dropped.
  harden : Call S (Unit {0})
  harden =
      if S.cfg.incus.network == ""
      then pure tt
      else ignore (execute S (harden_network S.cfg.incus.network))

  -- `bootstrapSSH`
  unfoldable pub bootstrap_ssh : Instance → ℕ → Call S (Unit {0})
  unfolding root_password_of harden
  bootstrap_ssh inst ssh_port = do
    pass ← root_password_of inst
    harden
    within "assign ipv4" (execute S (ensure_instance_ipv4 inst.incus_name))
    ignore (execute S (configure_guest_dns inst.incus_name))
    within "bootstrap ssh" (execute S (ensure_ssh inst.incus_name pass ssh_port))

  release_all : List ℕ → Call S (Unit {0})
  release_all [] = pure tt
  release_all (p ∷ ports) = do ignore (release S p); release_all ports

  release_missing : List ℕ → Result (List PortMapping) → Call S (Unit {0})
  unfolding release_all release_block
  release_missing block (err _) = release_block S block
  release_missing block (ok existing) =
      release_all (select (λ p. not (contains (host_ports existing) p)) block)

  -- `releaseUnused`: the ports of the block that no row of the instance names.
  unfoldable pub release_unused : ℕ → List ℕ → Call S (Unit {0})
  unfolding release_missing
  release_unused id block = do release_missing block (← attempt (query S (list_ports id)))

  -- The steps after the creation of the container, whose failures are handled alike.
  unfoldable pub set_up_guest : Instance → List ℕ → ℕ → Call S (Unit {0})
  unfolding bootstrap_ssh attach_port_block
  set_up_guest inst block ssh_port = do
    within "start container" (execute S (ensure_started inst.incus_name))
    within "assign ipv4" (execute S (ensure_instance_ipv4 inst.incus_name))
    bootstrap_ssh inst ssh_port
    attach_port_block inst block

  -- The end of `provision`.
  unfoldable pub finish_provision : ℕ → Call S (Unit {0})
  unfolding write_status
  finish_provision id = write_status S id running "" day

  after_set_up : Instance → List ℕ → Result (Unit {0}) → Call S (Unit {0})
  unfolding finish_provision release_unused fail_instance
  after_set_up inst block (ok _) = finish_provision inst.id
  after_set_up inst block (err e) = release_unused inst.id block >> fail_instance inst.id e

  abbrev create_args : Instance → ℕ → CreateArgs
  create_args inst ssh_port = record {
    name = inst.incus_name;
    image = inst.image;
    cpu_cores = inst.cpu_cores;
    memory_mb = inst.memory_mb;
    storage_gb = inst.storage_gb;
    processes = inst.processes;
    bandwidth_mbps = inst.bandwidth_mbps;
    profiles = S.cfg.incus.profiles;
    root_password = inst.root_password;
    ssh_port = ssh_port;
  }

  after_create : Instance → List ℕ → ℕ → Result (Unit {0}) → Call S (Unit {0})
  unfolding set_up_guest after_set_up release_block fail_instance
  after_create inst block ssh_port (ok _) = do
    after_set_up inst block (← attempt (set_up_guest inst block ssh_port))
  after_create inst block ssh_port (err e) = do
    release_block S block
    fail_instance inst.id (wrap "create container" e)

  build : Instance → List ℕ → Call S (Unit {0})
  unfolding after_create
  build inst block = do
    ssh_port ← first_port S block
    after_create inst block ssh_port
        (← attempt (execute S (create_container (create_args inst ssh_port))))

  after_allocate : Instance → Result (List ℕ) → Call S (Unit {0})
  unfolding build fail_instance
  after_allocate inst (ok block) = build inst block
  after_allocate inst (err e) = fail_instance inst.id (wrap "allocate port block" e)

  -- `provision`
  unfoldable pub provision : Instance → Call S (Unit {0})
  unfolding after_allocate allocate_block
  provision inst = do
    ignore (query S (update_instance_status inst.id creating ""))
    after_allocate inst (← attempt (allocate_block S block_size))
