-- ===== src/Provision/Tests.antt =====
-- A pool that is resized while a reply of the runner is lost.
use srv.Provision.Migrations.Closed.{fence_shut}
use srv.Provision.Fences.{migration_fence}
use srv.Model.Sample.{machine}
use srv.Provision.Migrations.Held.{row_of}
use srv.Provision.Migrations.Trace.{completed_for_good, prepare, all_of, finish, MetCall}
use srv.Provision.PoolLife.{delete_pool}
use srv.Provision.PoolLife.Deletion.{delete_pool_effect, Deleted}
use srv.Provision.Steady.{On}
use srv.Effect.Keeps.{Post}
use srv.PoolResize.{receipt}
use srv.Effect.{settled, Run, done}
use srv.Provision.Pools.{resize_pool}
use srv.Provision.Pools.Promises.{
  resize_settles, start, call_of, next, reservation_covers_limit, Calls, Enforced, Settled,
}
use srv.Provision.{Host}
use srv.Model.{Migration, MemoryPool}
use srv.Base.{
  true, none, some, if◌then◌else◌, string_eq, [], false, ◌==◌, Bool, refl, ℕ, ◌∷◌, List, String,
  ◌≡◌,
}
use srv.Store.Tables.{empty}
use srv.Base.Int.{ℤ, pos}

-- stands for strings.EqualFold
abbrev exactly : String → String → Bool
exactly a b = a == b

-- no process is left
abbrev gone : ℤ → Bool
gone pid = false

abbrev small_pool : MemoryPool
small_pool = record {
  id = "i";
  name = "p";
  reserved_bytes = pos 4294967296;
  created_at = 0;
  updated_at = 0;
  created_by_user = "u";
  created_by_node = "n";
}

abbrev small_host : Host
small_host = record {
  session = record { tables = record empty { pools = small_pool ∷ [] }; faults = [] };
  runner = record {
    receipts = [];
    cgroups = λ n. if n == "p" then some (record { limit = 4294967296; usage = 0 }) else none;
  };
}

-- 64 GiB of memory, and a reply that is lost
abbrev lost_reply : List ℕ
lost_reply = 68719476736 ∷ 1 ∷ 1 ∷ 1 ∷ 1 ∷ 0 ∷ []

abbrev after_lost : Host
after_lost =
    (call_of exactly gone (pos 0) "p" (pos 8589934592) "r1" 5 [] lost_reply small_host).1.state

grown : Calls exactly gone (pos 0) "p" small_host after_lost
grown = next (pos 8589934592) "r1" 5 [] lost_reply start refl

small_idle : Settled "p" (pos 4294967296) small_host
small_idle = record {
  row = small_pool;
  found = refl;
  reserved = refl;
  none_pending = refl;
  within = refl;
}

reservation_covers_limit_example : Enforced "p" after_lost
reservation_covers_limit_example =
    reservation_covers_limit exactly gone (pos 0) "p" (pos 4294967296) small_idle tt grown

abbrev large_pool : MemoryPool
large_pool = record small_pool { reserved_bytes = pos 8589934592; updated_at = 5 }

unknown_yet : receipt "r2" after_lost.runner.receipts ≡ none
unfolding resize_pool srv.Effect.◌>>=◌ srv.Provision.stored srv.Store.Pools.get_memory_pool_by_name
    srv.Store.Pools.pending_memory_pool_resize srv.Provision.Pools.start_resize
    srv.Provision.Pools.list_instances srv.Provision.Pools.check_members
    srv.Provision.Pools.ensure_capacity srv.Effect.ask srv.Provision.Pools.list_memory_pools
    srv.Capacity.ensure_host_memory_reservation_capacity srv.Capacity.budget_bytes
    srv.Capacity.total_reserved_host_memory_bytes srv.Capacity.sum_reserved_capacity
    srv.Capacity.sum_pools srv.Store.Pools.begin_memory_pool_resize
    srv.Provision.Pools.finish_resize srv.Effect.read srv.Effect.write srv.PoolResize.resize_cgroup
    srv.PoolResize.resize_memory_pool srv.Provision.Pools.ask_runner
    srv.Store.Pools.delete_and_update srv.Store.Pools.delete_resize
    srv.Store.Pools.finish_memory_pool_resize srv.Store.Pools.insert_and_update
    srv.Store.Pools.insert_resize srv.Store.Pools.update_pool srv.Store.Requests.time_string
    srv.Store.Session.call srv.Store.Session.insert srv.Store.Session.query
    srv.Store.Session.query_row srv.Store.Session.settle srv.Store.Session.transact
    srv.Store.Session.◌>>=◌
unknown_yet = refl

retried :
    (call_of exactly gone (pos 0) "p" (pos 8589934592) "r2" 7 [] [] after_lost).0 ≡ done large_pool
unfolding resize_pool srv.Effect.◌>>=◌ srv.Provision.stored srv.Store.Pools.get_memory_pool_by_name
    srv.Store.Pools.pending_memory_pool_resize srv.Provision.Pools.start_resize
    srv.Provision.Pools.list_instances srv.Provision.Pools.check_members
    srv.Provision.Pools.ensure_capacity srv.Effect.ask srv.Provision.Pools.list_memory_pools
    srv.Capacity.ensure_host_memory_reservation_capacity srv.Capacity.budget_bytes
    srv.Capacity.total_reserved_host_memory_bytes srv.Capacity.sum_reserved_capacity
    srv.Capacity.sum_pools srv.Store.Pools.begin_memory_pool_resize
    srv.Provision.Pools.finish_resize srv.Effect.read srv.Effect.write srv.PoolResize.resize_cgroup
    srv.PoolResize.resize_memory_pool srv.Provision.Pools.ask_runner
    srv.Store.Pools.delete_and_update srv.Store.Pools.delete_resize
    srv.Store.Pools.finish_memory_pool_resize srv.Store.Pools.insert_and_update
    srv.Store.Pools.insert_resize srv.Store.Pools.update_pool srv.Store.Requests.time_string
    srv.Store.Session.call srv.Store.Session.insert srv.Store.Session.query
    srv.Store.Session.query_row srv.Store.Session.settle srv.Store.Session.transact
    srv.Store.Session.◌>>=◌
retried = refl

resize_settles_example :
    (large_pool.name ≡ "p")
    × (large_pool.reserved_bytes ≡ pos 8589934592)
    × Settled "p"
        (pos 8589934592)
        (call_of exactly gone (pos 0) "p" (pos 8589934592) "r2" 7 [] [] after_lost).1.state
resize_settles_example =
    resize_settles exactly gone (pos 0) "p" (pos 4294967296) (pos 8589934592) "r2" 7 [] []
      large_pool small_idle tt grown unknown_yet retried

delete_pool_effect_example :
    let run : Run Host = record { state = small_host; answers = [] } in
    Post
      (λ pool. On (Deleted "p" small_host.session.tables pool))
      (On (λ t s. t ≡ small_host.session.tables))
      (delete_pool "p" run).0
      (delete_pool "p" run).1.state
delete_pool_effect_example = delete_pool_effect "p" (record { state = small_host; answers = [] })

abbrev moved : Migration
moved = record {
  memory_pool_name = "";
  fixed_memory = false;
  instance_id = machine.id;
  token = "t";
  target = "b";
  was_running = true;
  phase = "completed";
}

-- a host with an instance that has been moved away
abbrev moved_host : Host
moved_host = record small_host {
  session = record {
    tables = record empty {
      instances = (record { inst = machine; stopped_since = none }) ∷ [];
      migrations = moved ∷ [];
    };
    faults = [];
  };
}

-- an abort, and a new preparation while the database fails
abbrev moved_attempts : List MetCall
moved_attempts =
    (record { call = finish machine.name "t" true; faults = []; answers = [] })
    ∷ (record {
      call =
          prepare machine.name "c" "u" (record { memory_pool_name = ""; fixed_memory = false }) 9;
      faults = false ∷ true ∷ [];
      answers = [];
    })
    ∷ []

completed_for_good_example :
    row_of machine.id (all_of exactly gone moved_attempts moved_host).session.tables ≡ some moved
completed_for_good_example =
    completed_for_good exactly gone machine.id moved moved_attempts moved_host refl refl

fence_shut_example :
    settled (migration_fence machine.name (record { state = moved_host; answers = 1 ∷ [] })).0
    ≡ none
unfolding srv.Store.Instances.normalize_instance_memory
fence_shut_example =
    fence_shut machine.name machine moved (record { state = moved_host; answers = 1 ∷ [] }) refl
      refl refl
