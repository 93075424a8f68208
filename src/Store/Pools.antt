-- ===== src/Store/Pools.antt =====
-- The memory pools of internal/store/sqlite.go, and the journal of their resizes.
pub mod Resizing
pub mod Effects
use srv.Base.{
  ℕ, String, Bool, true, false, Option, none, some, ◌∷◌, not, ◌&&◌, ◌||◌, ◌==◌, ◌!=◌, nat_eq,
  string_eq, if◌then◌else◌,
}
use srv.Base.Int.{ℤ, pos}
use srv.Base.Lists.{update_where, count_where, find_where, exists_where, delete_where}
use srv.Model.{Time, MemoryPool}
use srv.Model.State.{deleted, state_eq}
use srv.Store.Tables.{Tables, InstanceRow, Resize}
use srv.Store.Session.{
  Action, pure, raise_if, exec, insert, query, query_row, optional, transact, ◌>>=◌, ◌>>◌,
  resize_pending,
}
use srv.Store.Requests.{time_string}

abbrev stored_pool : Time → MemoryPool → MemoryPool
stored_pool now p = record p {
  created_at = time_string now p.created_at;
  updated_at = time_string now p.updated_at;
}

-- PRIMARY KEY(id), UNIQUE(name)
unfoldable pub create_memory_pool : MemoryPool → Time → Action (Unit {0})
unfolding insert time_string
create_memory_pool pool now = insert λ t.
    if exists_where (λ (p : MemoryPool). p.id == pool.id || p.name == pool.name) t.pools
    then none
    else some (record t { pools = stored_pool now pool ∷ t.pools })

unfoldable pub get_memory_pool_by_name : String → Action MemoryPool
unfolding query_row
get_memory_pool_by_name name = query_row (λ t. find_where (λ p. p.name == name) t.pools)

unfoldable pub find_memory_pool_by_name : String → Action (Option MemoryPool)
unfolding get_memory_pool_by_name optional
find_memory_pool_by_name name = optional (get_memory_pool_by_name name)

unfoldable pub get_memory_pool_by_id : String → Action MemoryPool
unfolding query_row
get_memory_pool_by_id id = query_row (λ t. find_where (λ p. p.id == id) t.pools)

unfoldable pub count_memory_pool_members : String → Action ℕ
unfolding query
count_memory_pool_members pool_id = query (λ t.
    count_where (λ (r : InstanceRow). r.inst.memory_pool_id == pool_id && r.inst.state != deleted)
      t.instances)

pub record MemoryPoolResize : Type 0 where
  pub request_id : String
  pub size_bytes : ℤ
  pub running : Bool

-- a resize as the row says, or the zero value
abbrev pub pending_of : Option Resize → MemoryPoolResize
pending_of none = record { request_id = ""; size_bytes = pos 0; running = false }
pending_of (some r) = record {
  request_id = r.request_id;
  size_bytes = r.size_bytes;
  running = r.running;
}

unfoldable pub pending_memory_pool_resize : String → Action MemoryPoolResize
unfolding query
pending_memory_pool_resize pool_id =
    query (λ t. pending_of (find_where (λ r. r.pool_id == pool_id) t.resizes))

unfoldable pub check_memory_pool_resize : String → Action (Unit {0})
unfolding pending_memory_pool_resize ◌>>=◌
check_memory_pool_resize pool_id = do
  op ← pending_memory_pool_resize pool_id
  raise_if (op.request_id != "") resize_pending

-- UPDATE memory_pools SET reserved_bytes, updated_at WHERE id
unfoldable pub update_pool : MemoryPool → Time → Action (Unit {0})
unfolding insert time_string
update_pool pool now = insert λ t. some (record t {
  pools =
      update_where (λ p. p.id == pool.id)
        (λ p. record p {
          reserved_bytes = pool.reserved_bytes;
          updated_at = time_string now pool.updated_at;
        })
        t.pools;
})

abbrev pub resize_row : String → MemoryPoolResize → Resize
resize_row pool_id op = record {
  pool_id = pool_id;
  request_id = op.request_id;
  size_bytes = op.size_bytes;
  running = op.running;
}

-- PRIMARY KEY(pool_id), UNIQUE(request_id)
unfoldable pub insert_resize : String → MemoryPoolResize → Action (Unit {0})
unfolding insert
insert_resize pool_id op = insert λ t.
    if exists_where (λ (r : Resize). r.pool_id == pool_id || r.request_id == op.request_id)
      t.resizes
    then none
    else some (record t { resizes = resize_row pool_id op ∷ t.resizes })

unfoldable pub insert_and_update : MemoryPool → MemoryPoolResize → Time → Action (Unit {0})
unfolding insert_resize update_pool ◌>>=◌
insert_and_update pool op now = do insert_resize pool.id op; update_pool pool now

unfoldable pub begin_memory_pool_resize : MemoryPool → MemoryPoolResize → Time → Action (Unit {0})
unfolding insert_and_update transact
begin_memory_pool_resize pool op now = transact (insert_and_update pool op now)

unfoldable pub delete_resize : String → String → Action (Unit {0})
unfolding insert
delete_resize pool_id request_id = insert λ t. some (record t {
  resizes = delete_where (λ r. r.pool_id == pool_id && r.request_id == request_id) t.resizes;
})

unfoldable pub delete_and_update : MemoryPool → String → Time → Action (Unit {0})
unfolding delete_resize update_pool ◌>>=◌
delete_and_update pool request_id now = do delete_resize pool.id request_id; update_pool pool now

unfoldable pub finish_memory_pool_resize : MemoryPool → String → Time → Action (Unit {0})
unfolding delete_and_update transact
finish_memory_pool_resize pool request_id now = transact (delete_and_update pool request_id now)

unfoldable pub delete_memory_pool : String → Action (Unit {0})
unfolding insert
delete_memory_pool id =
    insert λ t. some (record t { pools = delete_where (λ p. p.id == id) t.pools })
