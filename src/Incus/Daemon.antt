-- ===== src/Incus/Daemon.antt =====
-- The Incus daemon behind the SDK (`incus.InstanceServer`) and the host that goincus runs on, both as
-- parameters, and the state of `incusclient.Client`: the connection and its copy of the settings. An
-- etag is the text that the daemon hands out with an object and gets back with a change of it.
use goincus.Base.{ℕ, String, Bool, List, Option, String-Eq}
use goincus.Base.Maps.{Settings, Devices}
use goincus.Base.Int.{ℤ}
use goincus.Base.Result.{Result, ok}
use goincus.Config.{IncusConfig}
use goincus.System.{M}

-- `api.Instance`, the part that the client reads.
pub record Guest : Type 0 where
  pub status : String
  pub is_running : Bool
  pub config : Settings
  pub devices : Devices
  pub expanded_devices : Devices

-- `api.InstancesPost`
pub record NewGuest : Type 0 where
  pub name : String
  pub image : String
  pub image_server : String
  pub image_protocol : String
  pub profiles : List String
  pub config : Settings
  pub devices : Devices

-- `api.Profile`
pub record Profile : Type 0 where
  pub description : String
  pub config : Settings
  pub devices : Devices

-- `api.Network`
pub record Network : Type 0 where
  pub name : String
  pub kind : String
  pub managed : Bool
  pub config : Settings

-- `api.InstanceState`: counters, which are -1 where Incus does not know them.
pub record Counters : Type 0 where
  pub cpu_usage : ℤ
  pub memory_usage : ℤ
  pub memory_total : ℤ
  pub disks : List (String × (ℤ × ℤ))
  pub networks : List (String × (ℤ × ℤ))

-- Every method is a request with a reply, or an error, and a new state. `wait` is `op.Wait()`.
pub record Daemon : Type 1 where
  pub State : Type 0
  pub Operation : Type 0
  pub ping : State → Result (Unit {0}) × State
  pub get_instance : String → State → Result (Guest × String) × State
  pub get_instances : State → Result (List Guest) × State
  pub get_instance_state : String → State → Result (Option Counters) × State
  pub get_instance_log : (name file : String) → State → Result String × State
  pub create_instance : NewGuest → State → Result Operation × State
  pub update_instance : String → Settings → Devices → String → State → Result Operation × State
  pub update_instance_state :
      String → (action : String) → (timeout : ℕ) → (force : Bool) → State → Result Operation × State
  pub delete_instance : String → State → Result Operation × State
  pub wait : Operation → State → Result (Unit {0}) × State
  pub get_profile : String → State → Result (Profile × String) × State
  pub create_profile : String → Profile → State → Result (Unit {0}) × State
  pub update_profile : String → Profile → String → State → Result (Unit {0}) × State
  pub get_network : String → State → Result (Network × String) × State
  pub get_networks : State → Result (List Network) × State
  pub create_network : String → (kind : String) → Settings → State → Result (Unit {0}) × State
  pub update_network : String → Settings → String → State → Result (Unit {0}) × State
  pub get_network_leases : String → State → Result (List String) × State
  pub get_storage_pool : String → State → Result String × State
  pub create_storage_pool :
      String → (driver : String) → (size : String) → State → Result (Unit {0}) × State
  pub get_storage_pool_resources : String → State → Result (ℕ × ℕ) × State
  -- The host: `exec.LookPath`, `exec.Command(...).Run`, `os.Geteuid() == 0`, files, and a script of
  -- firewall rules for a bridge and its subnet. `exec` runs a script, given by its name and arguments, in a
  -- guest, and returns the exit code.
  pub look_path : String → State → Result Bool × State
  pub run_command : List String → State → Result (Unit {0}) × State
  pub is_root : State → Result Bool × State
  pub read_file : String → State → Result (Option String) × State
  pub write_file : String → String → State → Result (Unit {0}) × State
  pub outbound_rules : String → String → State → Result (Unit {0}) × State
  pub exec : String → List String → State → Result ℕ × State

-- `incusclient.Client`
pub record Session (D : Daemon) : Type 0 where
  pub server : D.State
  pub cfg : IncusConfig

module _ (D : Daemon) where
  abbrev pub Request : Type 0 → Type 0
  Request A = M (Session D) A

  abbrev pub request : {A : Type 0} → (D.State → Result A × D.State) → Request A
  request c s = let (r, server) = c s.server in (r, record s { server = server })

  abbrev pub settings : Request IncusConfig
  settings s = (ok s.cfg, s)

  abbrev pub set_network : String → Request (Unit {0})
  set_network name s = (ok tt, record s { cfg = record s.cfg { network = name } })

  abbrev pub set_storage_pool : String → Request (Unit {0})
  set_storage_pool name s = (ok tt, record s { cfg = record s.cfg { storage_pool = name } })
