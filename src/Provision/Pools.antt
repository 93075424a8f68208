-- ===== src/Provision/Pools.antt =====
-- The memory pools of internal/provision/provision.go: over the store, which records a resize before
-- the runner is asked for it, and the runner.
pub mod Limits
pub mod Cover
pub mod Calls
pub mod Settling
pub mod Admission
pub mod Starting
pub mod Reserved
pub mod Promises
use srv.Store.Instances.{normalize_instance_memory}
use srv.Model.State.{state_eq}
use srv.Base.Int.{int_eq}
use srv.PoolResize.{reused, failed, replied}
use srv.Capacity.{
  effective_memory_mib, ensure_host_memory_reservation_capacity, signed, word_of, word,
}
use srv.Base.Lists.{select_where}
use srv.Model.State.{stopped, deleted, ready}
use srv.Effect.{write, read, stop, stop_if, ask, ◌>>=◌, ◌>>◌, give, ◌>>=◌}
use srv.Base.Int.{pos, ltb_ℤ, pos_part, ℤ}
use srv.Store.Session.{Action, query}
use srv.Store.Tables.{InstanceRow}
use srv.Model.{Instance, MemoryPool}
use srv.PoolResize.{resize_memory_pool, replied, Answer, Request}
use srv.Store.Pools.{
  pending_memory_pool_resize, get_memory_pool_by_name, begin_memory_pool_resize,
  finish_memory_pool_resize, MemoryPoolResize,
}
use srv.Provision.{
  no_memory, too_small, unsettled, bad_size, rejected, busy_member, pending_other, world, stored,
  Step, Host,
}
use srv.Provision.Fences.{migration_fence}
use srv.Base.{
  nat_eq, string_eq, ◌&&◌, ◌-◌, ◌*◌, ◌+◌, ◌||◌, [], false, if◌then◌else◌, not, ℕ, ◌!=◌, ◌==◌, ◌∷◌,
  Bool, List, String,
}

-- a resize that the store has recorded, as the runner is asked for it
abbrev pub request_of : String → MemoryPoolResize → Request
request_of name op = record {
  request_id = op.request_id;
  name = name;
  size_bytes = pos_part op.size_bytes;
  running = op.running;
}

-- Client.ResizeMemoryPool: `unknown` is any other error, the outcome of which is not known.
pub data Reply : Type 0 where
  resized refused unknown : Reply

abbrev pub reply_of : Answer → Reply
reply_of (replied r) = if r.error then refused else resized
reply_of reused = unknown
reply_of failed = unknown

-- The runner does the request, some part of which may fail, and the reply may be lost. A request that
-- the client does not validate, or does not send, is one that failed before anything was done.
unfoldable pub ask_runner : Request → Step Reply
ask_runner req = do
  before ← ask
  first ← ask
  io ← ask
  broken ← ask
  lost ← ask
  let result = λ (h : Host).
      resize_memory_pool (before == 0) (first == 0) (io == 0) (broken == 0) req h.runner
  answer ← read (λ h. (result h).0)
  write (λ h. record h { runner = (result h).1 })
  give (if lost == 0 then unknown else reply_of answer)

abbrev pub sized : MemoryPool → ℤ → ℕ → MemoryPool
sized pool size now =
    if pool.reserved_bytes == size
    then pool
    else record pool { reserved_bytes = size; updated_at = now }

-- The pool that is left, or the refusal of the runner, after the resize has been cleared.
abbrev pub settled_as : Reply → MemoryPool → MemoryPoolResize → ℕ → Step MemoryPool
settled_as resized pool op now = do
  stored (finish_memory_pool_resize (sized pool op.size_bytes now) op.request_id now)
  give (sized pool op.size_bytes now)
settled_as refused pool op now = do
  stored (finish_memory_pool_resize pool op.request_id now)
  stop rejected
settled_as unknown pool op now = stop unsettled

unfoldable pub finish_resize : MemoryPool → MemoryPoolResize → ℕ → Step MemoryPool
finish_resize pool op now = do
  reply ← ask_runner (request_of pool.name op)
  settled_as reply pool op now

abbrev pub is_live : InstanceRow → Bool
is_live r = r.inst.state != deleted

unfoldable pub instances_of : List InstanceRow → List Instance
instances_of [] = []
instances_of (r ∷ rs) = normalize_instance_memory r.inst ∷ instances_of rs

-- ListInstances and ListMemoryPools, in the order of the tables
unfoldable pub list_instances : Action (List Instance)
unfolding query instances_of
list_instances = query (λ t. instances_of (select_where is_live t.instances))

unfoldable pub list_memory_pools : Action (List MemoryPool)
unfolding query
list_memory_pools = query (λ t. t.pools)

abbrev pub is_settled : Instance → Bool
is_settled i = i.state == ready || (i.state == stopped && i.firecracker_pid == pos 0)

-- ensureMemoryPoolSupportsGuestMemory: the product of an int64 wraps around.
unfoldable pub supports_guest_memory : ℤ → ℤ → Bool
supports_guest_memory reserved mib = not (ltb_ℤ reserved (signed (word (word_of mib * 1048576))))

-- the bytes that a pool grows by
abbrev pub growth : ℤ → ℤ → ℕ
growth previous size = word (word_of size + (18446744073709551616 - word_of previous))

abbrev pub enlarged : MemoryPool → ℤ → ℕ → MemoryPool
enlarged pool size now =
    if ltb_ℤ pool.reserved_bytes size
    then record pool { reserved_bytes = size; updated_at = now }
    else pool

-- `equal_fold` is strings.EqualFold, `process_exists` asks the operating system, and `memory` is the
-- configured memory of an instance in MiB.
module _ (equal_fold : String → String → Bool) (process_exists : ℤ → Bool) (memory : ℤ) where
  abbrev pub check_member : ℤ → Instance → Step Bool → Step Bool
  check_member size i others = do
    stop_if (not (is_settled i)) busy_member
    migration_fence i.name
    stop_if (not (supports_guest_memory size (effective_memory_mib memory i))) too_small
    running ← others
    give (i.state == ready || running)

  -- the members of a pool that is to have that size, and whether one runs
  unfoldable pub check_members : String → ℤ → List Instance → Step Bool
  check_members pool_id size [] = give false
  check_members pool_id size (i ∷ is) =
      let others = check_members pool_id size is in
      if i.memory_pool_id != pool_id then others else check_member size i others

  -- ensureHostMemoryReservationCapacity, with the reads before it
  unfoldable pub ensure_capacity : ℕ → Step (Unit {0})
  ensure_capacity requested = do
    total ← ask
    stop_if (total == 0) world
    is ← stored list_instances
    ps ← stored list_memory_pools
    stop_if
        (not (
          ensure_host_memory_reservation_capacity equal_fold process_exists total "" memory is ps
            requested))
        no_memory

  abbrev pub reserve_growth : ℤ → ℤ → Step (Unit {0})
  reserve_growth previous size =
      if ltb_ℤ previous size then ensure_capacity (growth previous size) else give tt

  -- a resize that is not pending: `fresh` is the new request ID
  unfoldable pub start_resize : MemoryPool → ℤ → String → ℕ → Step MemoryPool
  start_resize pool size fresh now = do
    is ← stored list_instances
    running ← check_members pool.id size is
    reserve_growth pool.reserved_bytes size
    let op : MemoryPoolResize = record { request_id = fresh; size_bytes = size; running = running }
    stored (begin_memory_pool_resize (enlarged pool size now) op now)
    finish_resize (enlarged pool size now) op now

  abbrev pub resize_found : MemoryPool → MemoryPoolResize → ℤ → String → ℕ → Step MemoryPool
  resize_found pool op size fresh now =
      if op.request_id != ""
      then (do stop_if (op.size_bytes != size) pending_other; finish_resize pool op now)
      else start_resize pool size fresh now

  -- ResizeMemoryPool
  unfoldable pub resize_pool : String → ℤ → String → ℕ → Step MemoryPool
  resize_pool name size fresh now = do
    stop_if (not (ltb_ℤ (pos 0) size)) bad_size
    pool ← stored (get_memory_pool_by_name name)
    op ← stored (pending_memory_pool_resize pool.id)
    resize_found pool op size fresh now
