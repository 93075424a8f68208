-- ===== src/Model.antt =====
-- The records of internal/model and the row of a lifecycle request (internal/store/requests.go).
-- Texts are compared whole. A `time.Time` is its distance from Go's zero time, which is 0.
pub mod Phase
pub mod State
pub mod Memory
pub mod Sample
mod Tests
use srv.Base.{
  ℕ, String, Bool, true, false, Option, List, ◌&&◌, ◌||◌, ◌==◌, nat_eq, string_eq, not,
  if◌then◌else◌,
}
use srv.Base.Int.{ℤ}

abbrev pub Time : Type 0
Time = ℕ

abbrev pub kind_vm : String
kind_vm = "vm"

abbrev pub kind_orb : String
kind_orb = "orb"

-- The row of lifecycle_requests; `LifecycleRequest` without the column `created_at`.
pub record RequestRow : Type 0 where
  pub id : String
  pub actor : String
  pub command : String
  pub name : String
  pub arguments : String
  pub phase : Phase.Phase
  pub exit_code : ℤ
  pub created_at : Time

pub record LifecycleRequest : Type 0 where
  pub id : String
  pub actor : String
  pub command : String
  pub name : String
  pub arguments : String
  pub phase : Phase.Phase
  pub exit_code : ℤ

pub record Instance : Type 0 where
  pub id : String
  pub name : String
  pub kind : String
  pub image : String
  pub state : State.State
  pub created_at : Time
  pub created_by_user : String
  pub created_by_node : String
  pub vcpu_count : ℤ
  pub memory_mib : ℤ
  pub memory_mode : String
  pub memory_pool_id : String
  pub rootfs_size_bytes : ℤ
  pub rootfs_path : String
  pub kernel_path : String
  pub initrd_path : String
  pub socket_path : String
  pub log_path : String
  pub serial_log_path : String
  pub tap_device : String
  pub guest_mac : String
  pub network_cidr : String
  pub host_addr : String
  pub guest_addr : String
  pub gateway_addr : String
  pub firecracker_pid : ℤ
  pub start_request_id : String
  pub start_boot_id : String
  pub tailnet_node_id : String
  pub tailscale_name : String
  pub tailscale_ip : String
  pub last_error : String
  pub deleted_at : Option Time
  pub updated_at : Time

-- Records created before workload kinds existed are VMs.
unfoldable pub kind_name : Instance → String
kind_name i = if i.kind == "" then kind_vm else i.kind

unfoldable pub image_name : String → String
image_name image = if image == "" then "arch" else image

pub record MemoryPool : Type 0 where
  pub id : String
  pub name : String
  pub reserved_bytes : ℤ
  pub created_at : Time
  pub updated_at : Time
  pub created_by_user : String
  pub created_by_node : String

pub record ImportReceipt : Type 0 where
  pub instance_id : String
  pub token : String
  pub source_instance_id : String
  pub exported_at : String
  pub phase : String

pub record Migration : Type 0 where
  pub memory_pool_name : String
  pub fixed_memory : Bool
  pub instance_id : String
  pub token : String
  pub target : String
  pub was_running : Bool
  pub phase : String

pub record CleanupReceipt : Type 0 where
  pub version : ℤ
  pub backend_id : String
  pub kind : String
  pub image : String
  pub request_id : String
  pub actor : String
  pub instance_id : String
  pub name : String
  pub created_at : Time
  pub created_by_user : String
  pub created_by_node : String
  pub auth_key_disposition : String
  pub tailnet_node_id : String
  pub tailnet_disposition : String
  pub retained_templates : Option (List String)  -- `none` is the nil slice
  pub ingress_closed : Bool
  pub gateways_absent : Bool
  pub runtime_absent : Bool
  pub jailer_absent : Bool
  pub cgroup_absent : Bool
  pub network_absent : Bool
  pub tap_device : String
  pub network_cidr : String
  pub instance_dir : String
  pub rootfs_path : String
  pub backups_dir : String
  pub storage_absent : Bool
  pub backups_absent : Bool
  pub snapshots_absent : Bool
  pub deleted_at : Time

pub record Integration : Type 0 where
  pub id : String
  pub name : String
  pub kind : String
  pub target_url : String
  pub auth_mode : String
  pub bearer_env : String
  pub basic_user : String
  pub basic_password_env : String
  pub headers_json : String
  pub created_at : Time
  pub updated_at : Time
