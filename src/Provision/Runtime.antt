-- ===== src/Provision/Runtime.antt =====
-- resolveRuntime of internal/provision/start_outcome.go and Stop of internal/provision/provision.go.
use srv.Store.Integrations.{record_event}
use srv.Store.Instances.{update_instance, update_instance_runtime, get_instance}
use srv.Model.Memory.{codes, all_space}
use srv.Effect.{stop, check, give, ask, attempt, stop_if, ◌>>=◌, ◌>>◌}
use srv.Base.{nat_eq, ◌!=◌, string_eq, ◌&&◌, ◌-◌, ◌||◌, not, ◌==◌, Bool, if◌then◌else◌, String, ℕ}
use srv.Model.{kind_name, Instance, kind_orb}
use srv.Model.State.{
  State, provisioning, ready, stopping, stopped, failed, awaiting_tailnet, awaiting_guest, deleting,
  deleted, state_eq,
}
use srv.Base.Int.{int_eq, pos}
use srv.Provision.{world, stored, Step, uncertain, being_deleted, already_deleted, already_stopped}

-- what ResolveInstanceStart of the runner answers
pub data Started : Type 0 where
  running : ℕ → Started
  absent : Started
  unresolved : Started

abbrev pub started_of : ℕ → Started
started_of n = if n == 1 then absent else if n == 2 then unresolved else running (n - 3)

-- startResult: 0 is an error, 1 is absent, 2 is unresolved, and a process ID is 3 less than the answer
unfoldable pub start_result : Step Started
start_result = do n ← ask; stop_if (n == 0) uncertain; give (started_of n)

abbrev pub awaiting_state : Instance → State
awaiting_state i = if kind_name i == kind_orb then awaiting_guest else awaiting_tailnet

-- strings.TrimSpace(s) == ""
abbrev pub is_blank : String → Bool
is_blank s = all_space (codes s)

unfoldable pub has_tailnet_identity : Instance → Bool
has_tailnet_identity i =
    not (is_blank i.tailnet_node_id)
    || (not (is_blank i.tailscale_name) || not (is_blank i.tailscale_ip))

-- a state in which an instance has, or awaits, a process
abbrev pub expects_process : State → Bool
expects_process s =
    s == provisioning || (s == awaiting_tailnet || (s == awaiting_guest || s == ready))

abbrev pub state_without_process : Instance → State
state_without_process i =
    if i.state == stopping || i.state == deleting
    then i.state
    else if kind_name i != kind_orb && not (has_tailnet_identity i)
    then failed
    else stopped

-- the instance as the runner's answer says, or the refusal of the answer
abbrev pub resolved_as : Started → Instance → Step Instance
resolved_as (running pid) i = do
  stop_if (pid == 0) uncertain
  stop_if (i.state == stopped || i.state == failed) uncertain
  give (record i {
    firecracker_pid = pos pid;
    state = if i.state == provisioning then awaiting_state i else i.state;
  })
resolved_as absent i =
    if i.firecracker_pid != pos 0 || expects_process i.state
    then (do
      check world  -- cleanupNetworking
      give (record i { firecracker_pid = pos 0; state = state_without_process i }))
    else give i
resolved_as unresolved i = stop uncertain

abbrev pub save_resolved : Instance → Instance → ℕ → Step Instance
save_resolved observed i now =
    if observed.state == i.state && observed.firecracker_pid == i.firecracker_pid
    then give i
    else (do
      stored (update_instance_runtime observed (record i { updated_at = now }) now)
      give (record i { updated_at = now }))

unfoldable pub resolve_runtime : Instance → ℕ → Step Instance
resolve_runtime i now =
    if i.start_request_id == "" || i.state == deleted
    then give i
    else (do result ← start_result; resolved ← resolved_as result i; save_resolved i resolved now)

-- recordEvent, whose errors are logged
unfoldable pub record_stop : String → String → ℕ → Step (Unit {0})
record_stop id message now = do
  o ← attempt (stored (record_event id now "stop" message "" now))
  give tt

abbrev pub stopping_now : Instance → ℕ → Instance
stopping_now i now = record i {
  state = stopping;
  last_error = "stop has not completed; retry stop if interrupted";
  updated_at = now;
}

abbrev pub stopped_now : Instance → ℕ → Instance
stopped_now i now = record i {
  state = stopped;
  firecracker_pid = pos 0;
  last_error = "";
  updated_at = now;
}

-- Stop
unfoldable pub stop_instance : String → ℕ → Step Instance
stop_instance name now = do
  i ← stored (get_instance name)
  stop_if (i.state == deleting) being_deleted
  stop_if (i.state == deleted) already_deleted
  stop_if (i.state == stopped && i.firecracker_pid == pos 0) already_stopped
  stored (update_instance (stopping_now i now) now)
  record_stop i.id "stop requested" now
  resolved ← resolve_runtime (stopping_now i now) now
  check world  -- stopFirecrackerWithState
  check world  -- cleanupNetworking
  stored (update_instance (stopped_now resolved now) now)
  record_stop i.id "instance stopped" now
  give (stopped_now resolved now)
