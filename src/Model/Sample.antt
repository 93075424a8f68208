-- ===== src/Model/Sample.antt =====
-- An instance for the tests: a stopped machine of a user named alice.
use srv.Model.State.{stopped}
use srv.Model.{Instance}
use srv.Base.Int.{pos}
use srv.Base.{none}

abbrev pub machine : Instance
machine = record {
  id = "i1";
  name = "vm";
  kind = "vm";
  image = "";
  state = stopped;
  created_at = 3;
  created_by_user = "alice";
  created_by_node = "laptop";
  vcpu_count = pos 1;
  memory_mib = pos 1024;
  memory_mode = "fixed";
  memory_pool_id = "";
  rootfs_size_bytes = pos 1;
  rootfs_path = "/i1/rootfs";
  kernel_path = "";
  initrd_path = "";
  socket_path = "";
  log_path = "";
  serial_log_path = "";
  tap_device = "tap1";
  guest_mac = "";
  network_cidr = "10.0.0.0/30";
  host_addr = "";
  guest_addr = "";
  gateway_addr = "";
  firecracker_pid = pos 0;
  start_request_id = "";
  start_boot_id = "";
  tailnet_node_id = "";
  tailscale_name = "";
  tailscale_ip = "";
  last_error = "";
  deleted_at = none;
  updated_at = 4;
}
