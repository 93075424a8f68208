-- ===== src/Provision/PoolLife.antt =====
-- CreateMemoryPool and DeleteMemoryPool of internal/provision/provision.go; deleteMemoryPoolCgroup
-- of internal/vmrunner/vmrunner.go.
pub mod Deletion
use srv.Provision.Pools.{ensure_capacity}
use srv.PoolResize.{set_cgroup}
use srv.Store.Pools.{
  create_memory_pool, delete_memory_pool, count_memory_pool_members, check_memory_pool_resize,
  find_memory_pool_by_name,
}
use srv.Base.Int.{pos_part, pos, ltb_ℤ, ℤ}
use srv.Effect.{give, write, stop_if, ◌>>=◌, ◌>>◌, ask, stop, ◌>>=◌}
use srv.Model.{MemoryPool}
use srv.Base.{nat_eq, none, ltb, not, ◌==◌, some, ℕ, Bool, Option, String}
use srv.Provision.{Host, bad_size, world, stored, Step, members, bad_name, unknown_pool}

-- deleteMemoryPoolCgroup: a cgroup that is not there is as good as removed. The request may fail
-- before the removal, and its reply may be lost after it.
unfoldable pub delete_cgroup : String → Step (Unit {0})
delete_cgroup name = do
  before ← ask
  stop_if (before == 0) world
  write (λ (h : Host). record h {
    runner = record h.runner { cgroups = set_cgroup name none h.runner.cgroups };
  })
  lost ← ask
  stop_if (lost == 0) world

abbrev pub delete_pool_found : Option MemoryPool → Step MemoryPool
delete_pool_found none = stop unknown_pool
delete_pool_found (some pool) = do
  stored (check_memory_pool_resize pool.id)
  n ← stored (count_memory_pool_members pool.id)
  stop_if (ltb 0 n) members
  delete_cgroup pool.name
  stored (delete_memory_pool pool.id)
  give pool

-- DeleteMemoryPool
unfoldable pub delete_pool : String → Step MemoryPool
delete_pool name = do o ← stored (find_memory_pool_by_name name); delete_pool_found o

-- `valid_name` is the pattern of a name.
module _ (equal_fold : String → String → Bool) (process_exists : ℤ → Bool) (memory : ℤ)
    (valid_name : String → Bool) where
  abbrev pub created_pool : String → String → String → ℤ → String → ℕ → MemoryPool
  created_pool name user node size id now = record {
    id = id;
    name = name;
    reserved_bytes = size;
    created_at = now;
    updated_at = now;
    created_by_user = user;
    created_by_node = node;
  }

  -- CreateMemoryPool
  unfoldable pub create_pool : String → String → String → ℤ → String → ℕ → Step MemoryPool
  create_pool name user node size id now = do
    stop_if (not (valid_name name)) bad_name
    stop_if (not (ltb_ℤ (pos 0) size)) bad_size
    ensure_capacity equal_fold process_exists memory (pos_part size)
    stored (create_memory_pool (created_pool name user node size id now) now)
    give (created_pool name user node size id now)
