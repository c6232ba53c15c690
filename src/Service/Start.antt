-- ===== src/Service/Start.antt =====
-- internal/service/service.go: filling an instance's block of ports, starting an instance, and setting
-- its root password.
pub mod Consistent
use goincus.Base.{
  ℕ, zero, suc, ◌+◌, String, ◌<>◌, Bool, true, false, not, ◌||◌, List, [], ◌∷◌, map, ◌==◌, ℕ-Eq,
  String-Eq, ltb, contains, select, if◌then◌else◌,
}
use goincus.Base.Int.{ℤ, pos_part}
use goincus.Base.Utf8.{byte_count}
use goincus.Base.Text.{trim_space}
use goincus.Base.Result.{Result, ok, err, invalid_input}
use goincus.Models.{
  Instance, PortMapping, running, deleting, deleted, same_status, ResetPasswordRequest,
}
use goincus.Store.Tables.{update_root_password}
use goincus.Store.Ports.{add_port, list_ports}
use goincus.Store.Calls as StoreCalls
use goincus.System.{
  System, Call, query, execute, now, new_uuid, random_password, pure, fail, ◌>>=◌, ◌>>◌, ignore,
  attempt, raise_if, settle, within, ensure_started, add_proxy_device, remove_proxy_device,
  update_resource_limits, ensure_disk_isolation, set_root_password,
}
use goincus.Ports.{allocate_block, release_block, reserve, release, first_port}
use goincus.Ports.Mark.{block_of}
use goincus.Service.Status.{day, write_status, get_instance}
use goincus.Service.Provision.{
  host_ports, proxy_device, proxy_spec, mapping, block_size, attach_port_block, bootstrap_ssh,
}

lowest_from : ℕ → List PortMapping → ℕ
lowest_from m [] = m
lowest_from m (p ∷ ports) = lowest_from (if ltb p.host_port m then p.host_port else m) ports

-- `instanceSSHPort`: 0 if there is no mapping.
unfoldable pub instance_ssh_port : List PortMapping → ℕ
unfolding lowest_from
instance_ssh_port [] = 0
instance_ssh_port (p ∷ ports) = lowest_from p.host_port ports

module _ (S : System) where
  after_attach : List ℕ → Result (Unit {0}) → Call S ℕ
  unfolding release_block
  after_attach block (ok _) = first_port S block
  after_attach block (err e) = release_block S block >> fail e

  -- The case of `ensurePortBlock` where the instance has no mapping.
  new_block : Instance → Call S ℕ
  unfolding allocate_block attach_port_block after_attach
  new_block inst = do
    block ← allocate_block S (block_size S)
    after_attach block (← attempt (attach_port_block S inst block))

  after_persist : Instance → ℕ → Result (Unit {0}) → Call S (Unit {0})
  after_persist inst port (ok _) = pure tt
  after_persist inst port (err e) = do
    ignore (execute S (remove_proxy_device inst.incus_name (proxy_device port)))
    ignore (release S port)
    fail e

  after_proxy : Instance → ℕ → Result (Unit {0}) → Call S (Unit {0})
  unfolding after_persist
  after_proxy inst port (ok _) = do
    id ← new_uuid S
    created_at ← now S
    after_persist inst port (← attempt (query S (add_port (mapping id inst.id port created_at))))
  after_proxy inst port (err e) = do
    ignore (release S port)
    within ("proxy device " <> proxy_device port) (fail e)

  -- A port that cannot be reserved is skipped.
  after_reserve : Instance → ℕ → Result (Unit {0}) → Call S (Unit {0})
  unfolding after_proxy
  after_reserve inst port (err _) = pure tt
  after_reserve inst port (ok _) = do
    after_proxy inst port
        (← attempt (execute S (add_proxy_device inst.incus_name (proxy_spec port))))

  unfoldable pub fill_ports : Instance → List ℕ → Call S (Unit {0})
  unfolding after_reserve reserve
  fill_ports inst [] = pure tt
  fill_ports inst (port ∷ need) = do
    after_reserve inst port (← attempt (reserve S (ℤ.pos port)))
    fill_ports inst need

  fill_block : Instance → List PortMapping → Call S ℕ
  unfolding new_block fill_ports instance_ssh_port
  fill_block inst [] = new_block inst
  fill_block inst (p ∷ existing) = do
    let ssh_port = instance_ssh_port (p ∷ existing)
    fill_ports inst (
        select (λ q. not (contains (host_ports (p ∷ existing)) q))
          (block_of (pos_part (block_size S)) ssh_port))
    pure ssh_port

  -- `ensurePortBlock`
  unfoldable pub ensure_port_block : Instance → Call S ℕ
  unfolding fill_block
  ensure_port_block inst = do fill_block inst (← within "list ports" (query S (list_ports inst.id)))

  -- `StartInstance`; `RepairInstance` is the same call.
  unfoldable pub start_instance : ℕ → Call S Instance
  unfolding ensure_port_block bootstrap_ssh write_status get_instance StoreCalls.get_instance
  start_instance id = do
    inst ← StoreCalls.get_instance S id
    ignore (
        execute S (
          update_resource_limits inst.incus_name inst.cpu_cores inst.memory_mb inst.processes
            inst.bandwidth_mbps inst.traffic_throttled))
    ignore (execute S (ensure_disk_isolation inst.incus_name))
    within "start" (execute S (ensure_started inst.incus_name))
    ssh_port ← ensure_port_block inst
    bootstrap_ssh S inst (if ssh_port == 0 then 22 else ssh_port)
    write_status S id running "" day
    get_instance S id

  new_password : String → Call S String
  new_password wanted =
      if wanted == "" then within "generate root password" (random_password S) else pure wanted

  -- `ResetRootPassword`
  unfoldable pub reset_root_password : ℕ → ResetPasswordRequest → Call S Instance
  unfolding new_password write_status get_instance trim_space
  reset_root_password id req = do
    inst ← get_instance S id
    raise_if (same_status inst.status deleted || same_status inst.status deleting)
        (invalid_input "instance is deleted")
    pass ← new_password (trim_space req.password)
    raise_if (ltb (byte_count pass) 8) (invalid_input "password must be at least 8 characters")
    within "start for password reset" (execute S (ensure_started inst.incus_name))
    within "set root password in guest" (execute S (set_root_password inst.incus_name pass))
    within "persist root password" (query S (update_root_password inst.id pass))
    write_status S id running "" day
    out ← get_instance S id
    pure (record out { root_password = pass })
