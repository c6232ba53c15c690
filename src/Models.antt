-- ===== src/Models.antt =====
-- internal/models/models.go: the records that the parts exchange. Times are seconds since the epoch,
-- identifiers (`uuid.UUID`) are numbers, CPU cores (`float64`) are counted in billionths, and host and
-- guest ports of a mapping are not negative.
use goincus.Base.{ℕ, String, Bool, true, false, List, ◌==◌, String-Eq}
use goincus.Base.Int.{ℤ}

pub data InstanceStatus : Type 0 where
  pending creating running stopped error deleting deleted : InstanceStatus

-- `status <> 'deleted'`
abbrev pub is_live : InstanceStatus → Bool
is_live deleted = false
is_live _ = true

-- The text of the constant.
abbrev pub status_text : InstanceStatus → String
status_text pending = "pending"
status_text creating = "creating"
status_text running = "running"
status_text stopped = "stopped"
status_text error = "error"
status_text deleting = "deleting"
status_text deleted = "deleted"

-- Statuses are compared as texts.
abbrev pub same_status : InstanceStatus → InstanceStatus → Bool
same_status a b = status_text a == status_text b

pub record PortMapping : Type 0 where
  pub id : ℕ
  pub instance_id : ℕ
  pub protocol : String
  pub host_port : ℕ
  pub internal_port : ℕ
  pub device_name : String
  pub created_at : ℕ

pub record Instance : Type 0 where
  pub id : ℕ
  pub name : String
  pub incus_name : String
  pub image : String
  pub status : InstanceStatus
  pub cpu_cores : ℤ
  pub memory_mb : ℤ
  pub storage_gb : ℤ
  pub processes : ℤ
  pub bandwidth_mbps : ℤ
  pub traffic_monthly_gb : ℤ
  pub traffic_used_bytes : ℤ
  pub traffic_period : String
  pub traffic_throttled : Bool
  pub traffic_counter_snap : ℤ
  pub root_password : String
  pub error_message : String
  pub ports : List PortMapping
  pub created_at : ℕ
  pub updated_at : ℕ

-- The deprecated `internal_ports` is not read by the program.
pub record CreateInstanceRequest : Type 0 where
  pub name : String
  pub image : String
  pub cpu_cores : ℤ
  pub memory_mb : ℤ
  pub storage_gb : ℤ
  pub processes : ℤ
  pub bandwidth_mbps : ℤ
  pub traffic_monthly_gb : ℤ

pub record AddPortRequest : Type 0 where
  pub protocol : String
  pub internal_port : ℤ
  pub host_port : ℤ

pub record UpdatePortRequest : Type 0 where
  pub protocol : String

pub record ResetPasswordRequest : Type 0 where
  pub password : String

pub record HealthResponse : Type 0 where
  pub status : String
  pub database : String
  pub redis : String
  pub incus : String
