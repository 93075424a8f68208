-- ===== src/Store/Tests.antt =====
-- One virtual machine through its requests and its deletion.
use srv.Store.Imports.{finalize_import}
use srv.Store.Imports.Finalize.{finalize_import_effect, Finalized}
use srv.Model.Sample.{machine}
use srv.Store.Pools.Resizing.{pending_blocks}
use srv.Store.Requests.Generations.{generation_once}
use srv.Store.Instances.{inserted}
use srv.Store.Cleanup.Commit.{commit_cleanup_effect, committed}
use srv.Store.Trace.Once.{final_kept, run-RowMoves, admissions_once, starts-le-one}
use srv.Base.Lists.{count_where}
use srv.Store.Session.Atomic.{is_ok}
use srv.Base.Int.{pos}
use srv.Store.Cleanup.Begin.{begin_cleanup_effect, Began}
use srv.Model.State.{provisioning, deleting}
use srv.Store.Requests.Moves.{row_of}
use srv.Store.Tables.{empty}
use srv.Model.Phase.{done, executing, admitted}
use srv.Store.Pools.{check_memory_pool_resize, MemoryPoolResize, begin_memory_pool_resize}
use srv.Store.Requests.{admit_generation, request_row, admit_bootstrap}
use srv.Store.Cleanup.{
  of_fence, enrolled, proves, owns, check_receipt, begin_cleanup, commit_cleanup,
}
use srv.Store.Requests.Phases.{SameBinding, RowMoves}
use srv.Store.Trace.{run, Op, admissions, starts}
use srv.Base.{refl, string_eq, some, true, [], false, none, ◌∷◌, ◌≡◌, ◌≤◌, List}
use srv.Store.Session.{Session}
use srv.Model.{CleanupReceipt, LifecycleRequest, MemoryPool, RequestRow}

abbrev start_request : LifecycleRequest
start_request = record {
  id = "r1";
  actor = "alice";
  command = "start";
  name = "vm";
  arguments = "";
  phase = admitted;
  exit_code = pos 0;
}

abbrev blank : Session
blank = record { tables = empty; faults = [] }

abbrev admit_and_start : List Op
admit_and_start =
    Op.admit start_request 5
    ∷ Op.begin "r1" "alice"
    ∷ Op.begin "r1" "alice"
    ∷ Op.finish "r1" "alice" (pos 0)
    ∷ []

admissions_once_example : admissions "r1" admit_and_start blank ≤ 1
admissions_once_example = admissions_once "r1" admit_and_start blank

starts-le-one_example : starts "r1" admit_and_start blank ≤ 1
starts-le-one_example = starts-le-one "r1" admit_and_start blank tt

abbrev waiting_row : RequestRow
waiting_row = request_row start_request admitted 5

abbrev waiting : Session
waiting = record { tables = record empty { requests = waiting_row ∷ [] }; faults = [] }

run-RowMoves_example :
    RowMoves (row_of "r1" waiting.tables) (row_of "r1" (run admit_and_start waiting).tables)
run-RowMoves_example = run-RowMoves "r1" admit_and_start waiting

abbrev done_row : RequestRow
done_row = record (request_row start_request done 5) { exit_code = pos 0 }

abbrev finished : Session
finished = record { tables = record empty { requests = done_row ∷ [] }; faults = [] }

final_kept_example :
    (r' : RequestRow) × (row_of "r1" (run admit_and_start finished).tables ≡ some r')
    × (r'.phase ≡ done)
    × SameBinding done_row r'
final_kept_example = final_kept "r1" admit_and_start finished done_row refl refl refl

abbrev delete_row : RequestRow
delete_row = record {
  id = "d1";
  actor = "alice";
  command = "delete";
  name = "vm";
  arguments = "";
  phase = admitted;
  exit_code = pos 0;
  created_at = 6;
}

abbrev deletable : Session
deletable = record {
  tables = record empty { requests = delete_row ∷ []; instances = inserted machine ∷ [] };
  faults = [];
}

begin_cleanup_effect_example :
    Began "d1" "alice" machine 7 deletable.tables
      (begin_cleanup "d1" "alice" machine 7 deletable).1.tables
unfolding begin_cleanup
begin_cleanup_effect_example = begin_cleanup_effect "d1" "alice" machine 7 deletable refl

abbrev proof : CleanupReceipt
proof = record {
  version = pos 5;
  backend_id = "b";
  kind = "vm";
  image = "arch";
  request_id = "d1";
  actor = "alice";
  instance_id = "i1";
  name = "vm";
  created_at = 3;
  created_by_user = "alice";
  created_by_node = "laptop";
  auth_key_disposition = "not-asserted";
  tailnet_node_id = "";
  tailnet_disposition = "absent";
  retained_templates = none;
  ingress_closed = true;
  gateways_absent = true;
  runtime_absent = true;
  jailer_absent = true;
  cgroup_absent = true;
  network_absent = true;
  tap_device = "tap1";
  network_cidr = "10.0.0.0/30";
  instance_dir = "/i1";
  rootfs_path = "/i1/rootfs";
  backups_dir = "/b1";
  storage_absent = true;
  backups_absent = false;
  snapshots_absent = false;
  deleted_at = 9;
}

abbrev deleting_now : Session
deleting_now = record {
  tables = record empty {
    requests = (record delete_row { phase = executing }) ∷ [];
    instances = inserted (record machine { state = deleting }) ∷ [];
    fences = (record { instance_id = "i1"; request_id = "d1" }) ∷ [];
  };
  faults = [];
}

commit_cleanup_effect_example :
    ((commit_cleanup proof deleting_now).1.tables ≡ committed proof deleting_now.tables)
    × ((check_receipt proof ≡ none)
        × ((count_where (owns proof) deleting_now.tables.requests ≡ 1)
            × ((count_where
                    (λ i. proves proof (enrolled proof deleting_now.tables) i.inst)
                    deleting_now.tables.instances
                  ≡ 1)
                × (count_where (of_fence proof) deleting_now.tables.fences ≡ 1))))
unfolding commit_cleanup
commit_cleanup_effect_example = commit_cleanup_effect proof deleting_now refl

abbrev booted : Session
booted = record {
  tables = record empty {
    bootstraps = (record { instance_id = "i1"; created_at = 3; generation = pos 0 }) ∷ [];
  };
  faults = [];
}

abbrev boot_request : LifecycleRequest
boot_request = record start_request { id = "b2" }

generation_once_example :
    is_ok
      (admit_bootstrap boot_request "i1" 3
        (pos 1)
        6
        (admit_bootstrap start_request "i1" 3 (pos 1) 5 booted).1).0
    ≡ false
unfolding admit_bootstrap admit_generation
generation_once_example =
    generation_once start_request boot_request "i1" 3 (pos 1) 5 6 booted
      (admit_bootstrap start_request "i1" 3 (pos 1) 5 booted).1 refl refl refl

abbrev pool : MemoryPool
pool = record {
  id = "p1";
  name = "pool";
  reserved_bytes = pos 4096;
  created_at = 1;
  updated_at = 2;
  created_by_user = "alice";
  created_by_node = "laptop";
}

abbrev resize : MemoryPoolResize
resize = record { request_id = "z1"; size_bytes = pos 4096; running = false }

pending_blocks_example :
    is_ok (check_memory_pool_resize "p1" (begin_memory_pool_resize pool resize 3 blank).1).0 ≡ false
unfolding begin_memory_pool_resize
pending_blocks_example =
    pending_blocks pool resize 3 blank (begin_memory_pool_resize pool resize 3 blank).1 refl refl
      refl

-- an import that is about to be finished
abbrev importing : Session
importing = record {
  tables = record empty {
    instances =
        (record { inst = record machine { state = provisioning }; stopped_since = none }) ∷ [];
    imports =
        (record {
          instance_id = "i1";
          token = "t";
          source_instance_id = "i0";
          exported_at = "x";
          phase = "importing";
        })
        ∷ [];
  };
  faults = [];
}

finalize_import_effect_example :
    Finalized "i1" 7
      (finalize_import "i1" 7 9 importing).0
      importing.tables
      (finalize_import "i1" 7 9 importing).1.tables
unfolding srv.Store.Requests.time_string
finalize_import_effect_example = finalize_import_effect "i1" 7 9 importing

import_finished : is_ok (finalize_import "i1" 7 9 importing).0 ≡ true
unfolding finalize_import
import_finished = refl
