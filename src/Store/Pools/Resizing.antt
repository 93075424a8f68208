-- ===== src/Store/Pools/Resizing.antt =====
-- The resize protocol of internal/store/sqlite.go: a pool has at most one pending resize.
use srv.Store.Tables.{Resize}
use srv.Base.Lists.{find_where, exists_where}
use srv.Store.Session.Atomic.{begun, transact-ok, is_ok}
use srv.Base.{
  refl, some, text_refl, List, ◌∙◌, string_eq, ◌∷◌, false, ◌||◌, ◌==◌, arith, true, ◌≡◌, String,
}
use srv.Model.{Time, MemoryPool}
use srv.Store.Session.{query, Session, call, insert, ◌>>=◌}
use srv.Store.Pools.{
  pending_memory_pool_resize, check_memory_pool_resize, resize_row, MemoryPoolResize,
  begin_memory_pool_resize, insert_and_update, insert_resize, update_pool,
}

pub insert_effect :
    (pool : String) (op : MemoryPoolResize) (s : Session)
    → is_ok (insert_resize pool op s).0 ≡ true
    → (exists_where (λ r. r.pool_id == pool || r.request_id == op.request_id) s.tables.resizes
        ≡ false)
      × ((insert_resize pool op s).1.tables
          ≡ record s.tables { resizes = resize_row pool op ∷ s.tables.resizes })
unfolding insert_resize insert call
insert_effect pool op s h = ground arith

update_effect :
    (pool : MemoryPool) (now : Time) (s : Session)
    → (update_pool pool now s).1.tables.resizes ≡ s.tables.resizes
unfolding update_pool insert call
update_effect pool now s = ground arith

statements_effect :
    (pool : MemoryPool) (op : MemoryPoolResize) (now : Time) (s : Session)
    → is_ok (insert_and_update pool op now s).0 ≡ true
    → (exists_where (λ r. r.pool_id == pool.id || r.request_id == op.request_id) s.tables.resizes
        ≡ false)
      × ((insert_and_update pool op now s).1.tables.resizes
          ≡ resize_row pool.id op ∷ s.tables.resizes)
unfolding insert_and_update ◌>>=◌
statements_effect pool op now s h =
    ground (arith, insert_effect pool.id op s, update_effect pool now)

-- A BeginMemoryPoolResize that succeeds found no pending resize of the pool and no use of its
-- request ID, and adds the pending resize of the pool to those that were there.
pub begin_resize_effect :
    (pool : MemoryPool) (op : MemoryPoolResize) (now : Time) (s : Session)
    → is_ok (begin_memory_pool_resize pool op now s).0 ≡ true
    → (exists_where (λ r. r.pool_id == pool.id || r.request_id == op.request_id) s.tables.resizes
        ≡ false)
      × ((begin_memory_pool_resize pool op now s).1.tables.resizes
          ≡ resize_row pool.id op ∷ s.tables.resizes)
unfolding begin_memory_pool_resize
begin_resize_effect pool op now s h =
    let fine = transact-ok (insert_and_update pool op now) s h in
    rw fine.1 (statements_effect pool op now (begun s) fine.0)

pending-here :
    (pool : String) (op : MemoryPoolResize) (rest : List Resize) (s : Session)
    → (op.request_id == "") ≡ false
    → s.tables.resizes ≡ resize_row pool op ∷ rest
    → is_ok (check_memory_pool_resize pool s).0 ≡ false
unfolding check_memory_pool_resize pending_memory_pool_resize ◌>>=◌ query call
pending-here pool op rest s named e =
    let found : find_where (λ r. r.pool_id == pool) s.tables.resizes ≡ some (resize_row pool op) =
      rw (e, text_refl pool) refl in
    ground (arith, named, found)

-- After a BeginMemoryPoolResize that succeeds with a request ID that is not empty, and as long as
-- the pending resizes are what it left, CheckMemoryPoolResize refuses the pool, whatever calls fail.
pub pending_blocks :
    (pool : MemoryPool) (op : MemoryPoolResize) (now : Time) (s s' : Session)
    → (op.request_id == "") ≡ false
    → is_ok (begin_memory_pool_resize pool op now s).0 ≡ true
    → s'.tables.resizes ≡ (begin_memory_pool_resize pool op now s).1.tables.resizes
    → is_ok (check_memory_pool_resize pool.id s').0 ≡ false
pending_blocks pool op now s s' named h left =
    pending-here pool.id op s.tables.resizes s' named
      (left ∙ (begin_resize_effect pool op now s h).1)
