-- ===== src/Store/Instances.antt =====
-- The instances of internal/store/sqlite.go: creation, updates, the retention triggers, deletion.
use srv.Base.{
  ℕ, String, Bool, true, false, Option, none, some, ◌∷◌, not, ◌&&◌, ◌||◌, ◌==◌, ◌!=◌, nat_eq,
  string_eq, if◌then◌else◌,
}
use srv.Base.Int.{ℤ, pos, is_zero}
use srv.Base.Lists.{update_where, count_where, find_where, exists_where, delete_where}
use srv.Model.{Time, Instance, kind_name, kind_vm, kind_orb}
use srv.Model.Memory.{normalize_memory_mode, mode_pool}
use srv.Model.State.{stopped, state_eq}
use srv.Store.Tables.{Tables, InstanceRow, Bootstrap}
use srv.Store.Session.{
  Action, pure, raise_if, exec, insert, query_row, optional, rows_affected, transact, ◌>>=◌, ◌>>◌,
  changed_during,
}
use srv.Store.Requests.{time_string}

unfoldable pub normalize_instance_memory : Instance → Instance
unfolding normalize_memory_mode
normalize_instance_memory i =
    let mode = normalize_memory_mode i.memory_mode in
    record i {
      memory_mode = mode;
      memory_pool_id = if mode != mode_pool then "" else i.memory_pool_id;
    }

abbrev pub scan_instance : Option InstanceRow → Option Instance
scan_instance none = none
scan_instance (some r) = some (normalize_instance_memory r.inst)

-- a pointer to the zero time is written as NULL
abbrev pub nullable_time : Option Time → Option Time
nullable_time none = none
nullable_time (some t) = if t == 0 then none else some t

-- the columns that an INSERT or UPDATE of a whole instance writes
abbrev pub stored : Time → Instance → Instance
stored now i = record i {
  created_at = time_string now i.created_at;
  updated_at = time_string now i.updated_at;
  deleted_at = nullable_time i.deleted_at;
  kind = kind_name i;
}

-- the trigger instances_stopped_insert
abbrev pub inserted : Instance → InstanceRow
inserted i = record {
  inst = i;
  stopped_since = if i.state == stopped then some i.updated_at else none;
}

-- the trigger instances_stopped_update
abbrev pub retained : InstanceRow → Instance → InstanceRow
retained r i = record {
  inst = i;
  stopped_since =
      if r.inst.state != i.state
      then (if i.state == stopped then some i.updated_at else none)
      else r.stopped_since;
}

-- UPDATE instances SET f WHERE p, where f sets the state, with its trigger
unfoldable pub update_instances : (Instance → Bool) → (Instance → Instance) → Action ℕ
unfolding exec
update_instances p f = exec (λ t. (
  count_where (λ r. p r.inst) t.instances,
  record t { instances = update_where (λ r. p r.inst) (λ r. retained r (f r.inst)) t.instances },
))

abbrev pub is_kind : String → Bool
is_kind k = k == kind_vm || k == kind_orb

-- PRIMARY KEY(id), UNIQUE(name) and CHECK (kind IN ('vm', 'orb'))
abbrev pub violates : Instance → Tables → Bool
violates i t =
    exists_where (λ (r : InstanceRow). r.inst.id == i.id) t.instances
    || (exists_where (λ (r : InstanceRow). r.inst.name == i.name) t.instances
        || not (is_kind i.kind))

unfoldable pub insert_instance : Instance → Action (Unit {0})
unfolding insert
insert_instance i =
    insert
      (λ t. if violates i t then none else some (record t { instances = inserted i ∷ t.instances }))

-- A retained high-water mark is never reset: ON CONFLICT(instance_id) DO NOTHING.
unfoldable pub insert_bootstrap : String → Time → Action (Unit {0})
unfolding insert
insert_bootstrap id created = insert (λ t.
    if exists_where (λ (b : Bootstrap). b.instance_id == id) t.bootstraps
    then some t
    else some (record t {
      bootstraps =
          (record { instance_id = id; created_at = created; generation = pos 0 }) ∷ t.bootstraps;
    }))

-- The transaction of CreateInstance.
unfoldable pub insert_all : Instance → Action (Unit {0})
unfolding insert_instance insert_bootstrap ◌>>=◌
insert_all i = do
  insert_instance i
  if i.kind == kind_orb then insert_bootstrap i.id i.created_at else pure tt

unfoldable pub create_instance : Instance → Time → Action (Unit {0})
unfolding insert_all normalize_instance_memory transact time_string
create_instance inst now = transact (insert_all (stored now (normalize_instance_memory inst)))

-- what UPDATE instances … WHERE name = ? leaves of the old row: its identity and its creation
abbrev pub overwrite : Instance → Instance → Instance
overwrite i old = record i {
  id = old.id;
  name = old.name;
  created_at = old.created_at;
  created_by_user = old.created_by_user;
  created_by_node = old.created_by_node;
}

-- the row is checked when there is one
abbrev pub overwritten : Instance → Tables → Option Tables
overwritten i t =
    if exists_where (λ (r : InstanceRow). r.inst.name == i.name) t.instances && not (is_kind i.kind)
    then none
    else some (record t {
      instances =
          update_where (λ r. r.inst.name == i.name) (λ r. retained r (overwrite i r.inst))
            t.instances;
    })

unfoldable pub update_instance : Instance → Time → Action (Unit {0})
unfolding insert normalize_instance_memory time_string
update_instance inst now = insert (overwritten (stored now (normalize_instance_memory inst)))

abbrev same_int : ℤ → ℤ → Bool
same_int (pos a) (pos b) = a == b
same_int (ℤ.negsuc a) (ℤ.negsuc b) = a == b
same_int _ _ = false

abbrev is_null : Option Time → Bool
is_null none = true
is_null (some t) = false

-- The row still is what was observed, and is not deleted.
abbrev pub unchanged : Time → Instance → Instance → Bool
unchanged now observed r =
    r.id == observed.id
    && (r.name == observed.name
        && (r.state == observed.state
            && (same_int r.firecracker_pid observed.firecracker_pid
                && (r.updated_at == time_string now observed.updated_at
                    && (r.tailscale_name == observed.tailscale_name
                        && (r.tailscale_ip == observed.tailscale_ip
                            && (r.start_request_id == observed.start_request_id
                                && is_null r.deleted_at)))))))

abbrev pub runtime_fields : Time → Instance → Instance → Instance
runtime_fields now u r = record r {
  state = u.state;
  tailscale_name = u.tailscale_name;
  tailscale_ip = u.tailscale_ip;
  last_error = u.last_error;
  updated_at = time_string now u.updated_at;
  tailnet_node_id = u.tailnet_node_id;
  firecracker_pid = u.firecracker_pid;
}

unfoldable pub update_instance_runtime : Instance → Instance → Time → Action (Unit {0})
unfolding update_instances rows_affected ◌>>=◌ time_string
update_instance_runtime observed updated now = do
  result ← update_instances (unchanged now observed) (runtime_fields now updated)
  n ← rows_affected result
  raise_if (n != 1) changed_during

-- `scanInstance` normalises what it reads.
unfoldable pub get_instance : String → Action Instance
unfolding query_row normalize_instance_memory
get_instance name =
    query_row (λ t. scan_instance (find_where (λ r. r.inst.name == name) t.instances))

-- `none` is the answer `false`.
unfoldable pub find_instance : String → Action (Option Instance)
unfolding get_instance optional
find_instance name = optional (get_instance name)

abbrev delete_rows : (Tables → Tables) → Action (Unit {0})
delete_rows f = insert (λ t. some (f t))

-- The transaction of DeleteInstance.
unfoldable pub delete_all : String → Instance → Action (Unit {0})
unfolding insert ◌>>=◌
delete_all name i = do
  delete_rows λ t. record t { bindings = delete_where (λ b. b.instance_id == i.id) t.bindings }
  delete_rows λ t. record t { events = delete_where (λ e. e.instance_id == i.id) t.events }
  delete_rows λ t. record t { migrations = delete_where (λ m. m.instance_id == i.id) t.migrations }
  delete_rows λ t. record t { imports = delete_where (λ r. r.instance_id == i.id) t.imports }
  delete_rows λ t. record t { instances = delete_where (λ r. r.inst.name == name) t.instances }

unfoldable pub delete_found : String → Option Instance → Action (Unit {0})
unfolding delete_all transact ◌>>=◌
delete_found name none = pure tt
delete_found name (some i) = transact (delete_all name i)

unfoldable pub delete_instance : String → Action (Unit {0})
unfolding find_instance delete_found ◌>>=◌
delete_instance name = do i ← find_instance name; delete_found name i

abbrev since : Option InstanceRow → Option Time
since none = none
since (some r) = r.stopped_since

-- `none` is the zero time: the incarnation is not stopped any more, or never was.
unfoldable pub stopped_since : String → Action (Option Time)
unfolding query_row
stopped_since id = query_row (λ t. some (
    since (
      find_where
        (λ r.
          r.inst.id == id
          && (r.inst.state == stopped
              && (is_zero r.inst.firecracker_pid && is_null r.inst.deleted_at)))
        t.instances)))
