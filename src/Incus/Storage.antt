-- ===== src/Incus/Storage.antt =====
-- internal/incusclient/storage.go: the storage pool, and the host packages that it needs.
use goincus.Base.{
  ◌-◌, String, ◌<>◌, Bool, false, not, ◌&&◌, List, [], ◌∷◌, ◌++◌, ◌==◌, String-Eq, contains,
  if◌then◌else◌, map,
}
use goincus.Base.Int.{ℤ, pos, ltb_ℤ}
use goincus.Base.Decimal.{decimal_ℤ}
use goincus.Base.Text.{trim_space, to_lower}
use goincus.Base.Split.{join}
use goincus.Base.Maps.{Settings}
use goincus.Base.Result.{Error, ok, err, failure, wrap, message}
use goincus.System.{PoolSpace, pure, fail, ◌>>=◌, ◌>>◌, ignore, attempt, raise_if, within}
use goincus.Incus.Daemon.{Daemon, Request, request, settings, set_storage_pool}
use goincus.Incus.Limits.{add_names}

-- `quotaStoragePool`
abbrev pub quota_storage_pool : String
quota_storage_pool = "goincus"

-- `isDFIsolatingDriver`
unfoldable pub is_df_isolating_driver : String → Bool
is_df_isolating_driver driver =
    contains ("zfs" ∷ "lvm" ∷ "lvmcluster" ∷ "ceph" ∷ "cephfs" ∷ []) (to_lower driver)

-- `uniquePoolNames`
unfoldable pub unique_pool_names : List String → List String
unique_pool_names names = add_names [] (map trim_space names)

module _ (D : Daemon) where
  -- `lookPath`
  abbrev pub look_path : String → Request D Bool
  look_path bin = request D (D.look_path bin)

  -- `hasLVMTools` and `hasZFSTools`: both files are looked up.
  abbrev pub has_tools : (first second : String) → Request D Bool
  has_tools first second = do a ← look_path first; b ← look_path second; pure (a && b)

  abbrev pub has_lvm_tools : Request D Bool
  has_lvm_tools = has_tools "lvcreate" "vgcreate"

  abbrev pub has_zfs_tools : Request D Bool
  has_zfs_tools = has_tools "zpool" "zfs"

  -- The first case of the switch of `ensureStorageHostPackages`: ZFS may be missing.
  install_by_apt : Request D (Unit {0})
  install_by_apt = do
    ignore (request D (D.run_command ("apt-get" ∷ "update" ∷ "-y" ∷ [])))
    within "apt-get install lvm2" (
        request D
          (D.run_command ("apt-get" ∷ "install" ∷ "-y" ∷ "lvm2" ∷ "thin-provisioning-tools" ∷ [])))
    ignore (request D (D.run_command ("apt-get" ∷ "install" ∷ "-y" ∷ "zfsutils-linux" ∷ [])))

  install_by : String → Request D (Unit {0})
  install_by manager =
      within (manager <> " install lvm2")
        (request D (D.run_command (manager ∷ "install" ∷ "-y" ∷ "lvm2" ∷ [])))

  install_without_apt : Request D (Unit {0})
  unfolding install_by
  install_without_apt = do
    dnf ← look_path "dnf"
    yum ← if dnf then pure false else look_path "yum"
    if dnf
        then install_by "dnf"
        else if yum
        then install_by "yum"
        else fail (failure "no apt-get/dnf/yum found to install lvm2")

  -- The switch over the package managers.
  install_packages : Request D (Unit {0})
  unfolding install_by_apt install_without_apt
  install_packages = do
    apt ← look_path "apt-get"
    if apt then install_by_apt else install_without_apt

  -- `ensureStorageHostPackages`
  unfoldable pub ensure_storage_host_packages : Request D (Unit {0})
  unfolding install_packages
  ensure_storage_host_packages = do
    ready ← has_lvm_tools
    if ready then pure tt else do
      root ← request D D.is_root
      raise_if (not root) (failure "not root; cannot install lvm2")
      install_packages
      installed ← has_lvm_tools
      raise_if (not installed) (failure "lvm2 installed but lvcreate still not in PATH")

  -- The loop of `createQuotaStoragePool`, with the errors so far.
  unfoldable pub create_with :
      String → List (String × Request D Bool) → List String → Request D (Unit {0})
  create_with name [] errors =
      fail (failure ("create storage pool \"" <> (name <> ("\": " <> join "; " errors))))
  create_with name ((driver, ready) ∷ candidates) errors = do
    tools ← ready
    if not tools
        then create_with name candidates (errors ++ (driver <> ": tools missing") ∷ [])
        else do
          created ← attempt (request D (D.create_storage_pool name driver "200GiB"))
          elim created [
            | ok _ ↦ pure tt
            | err e ↦ create_with name candidates (errors ++ (driver <> (": " <> message e)) ∷ [])
          ]

  -- `createQuotaStoragePool`
  abbrev pub create_quota_storage_pool : String → Request D (Unit {0})
  create_quota_storage_pool name =
      create_with name (("lvm", has_lvm_tools) ∷ ("zfs", has_zfs_tools) ∷ []) []

  -- `ensureQuotaCapablePool`
  unfoldable pub ensure_quota_capable_pool : String → Request D (Unit {0})
  unfolding create_with
  ensure_quota_capable_pool name = do
    found ← attempt (request D (D.get_storage_pool name))
    elim found [
      | ok driver ↦
          raise_if (not (is_df_isolating_driver driver))
            (failure ("pool \"" <> (name <> ("\" uses " <> (driver <> " (df shows host disk)")))))
      | err _ ↦ create_quota_storage_pool name
    ]

  -- The loop of `EnsureStoragePool` over the names, with the last error. The look at a pool that is
  -- ready changes only what is logged.
  unfoldable pub try_pools : List String → Error → Request D (Unit {0})
  unfolding ensure_quota_capable_pool
  try_pools [] last = fail (
      wrap
        "could not prepare zfs/lvm storage pool automatically (dir/btrfs always show host disk in guest df)"
        last)
  try_pools (name ∷ names) last = do
    ready ← attempt (ensure_quota_capable_pool name)
    elim ready [
      | err e ↦ try_pools names e
      | ok _ ↦ do ignore (request D (D.get_storage_pool name)); set_storage_pool D name
    ]

  -- `EnsureStoragePool`
  unfoldable pub ensure_storage_pool : Request D (Unit {0})
  unfolding ensure_storage_host_packages unique_pool_names try_pools
  ensure_storage_pool = do
    cfg ← settings D
    let configured = trim_space cfg.storage_pool
    let wanted = if configured == "" then quota_storage_pool else configured
    found ← attempt (request D (D.get_storage_pool wanted))
    let isolating : Bool = elim found [ ok driver ↦ is_df_isolating_driver driver | err _ ↦ false ]
    if isolating then set_storage_pool D wanted else do
      ignore ensure_storage_host_packages
      try_pools
          (unique_pool_names (wanted ∷ quota_storage_pool ∷ "goincus-lvm" ∷ "goincus-zfs" ∷ []))
          (failure "no suitable pool")

  -- `ActiveStoragePool`
  abbrev pub active_storage_pool : Request D String
  active_storage_pool = do cfg ← settings D; pure (trim_space cfg.storage_pool)

  -- `StoragePoolSpace`: nothing is free where more is used than there is.
  unfoldable pub storage_pool_space : Request D PoolSpace
  storage_pool_space = do
    active ← active_storage_pool
    let name = if active == "" then quota_storage_pool else active
    driver ← within ("get storage pool \"" <> (name <> "\"")) (request D (D.get_storage_pool name))
    (total, used) ←
        within ("storage pool \"" <> (name <> "\" resources"))
          (request D (D.get_storage_pool_resources name))
    pure (record {
      pool = name;
      driver = driver;
      total_bytes = total;
      used_bytes = used;
      free_bytes = total - used;
    })

  -- `RootDiskDevice`
  unfoldable pub root_disk_device : ℤ → Request D Settings
  root_disk_device storage_gb = do
    cfg ← settings D
    pure (
        ("type", "disk")
        ∷ ("pool", if cfg.storage_pool == "" then quota_storage_pool else cfg.storage_pool)
        ∷ ("path", "/")
        ∷ ("size", (if ltb_ℤ storage_gb (pos 1) then "10" else decimal_ℤ storage_gb) <> "GiB")
        ∷ [])
