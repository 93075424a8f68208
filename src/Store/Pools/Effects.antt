-- ===== src/Store/Pools/Effects.antt =====
-- What BeginMemoryPoolResize and FinishMemoryPoolResize of internal/store/sqlite.go leave in the
-- tables of the pools and of their resizes.
use srv.Store.Pools.Resizing.{insert_effect}
use srv.Store.Session.Atomic.{begun, transact-ok, transact-atomic, is_ok}
use srv.Store.Session.{call, Session, insert, ◌>>=◌}
use srv.Base.Lists.{delete_where, update_where}
use srv.Store.Pools.{
  insert_resize, resize_row, MemoryPoolResize, begin_memory_pool_resize, delete_and_update,
  delete_resize, finish_memory_pool_resize, insert_and_update, update_pool,
}
use srv.Store.Tables.{Resize}
use srv.Store.Requests.{time_string}
use srv.Model.{Time, MemoryPool}
use srv.Base.{◌∙◌, ◌∷◌, arith, false, true, string_eq, ◌&&◌, ◌≡◌, ◌==◌, Bool, List, String}

-- the fields that an UPDATE of a pool writes
abbrev pub written_pool : MemoryPool → Time → MemoryPool → MemoryPool
written_pool pool now p = record p {
  reserved_bytes = pool.reserved_bytes;
  updated_at = time_string now pool.updated_at;
}

abbrev pub with_pool : MemoryPool → Time → List MemoryPool → List MemoryPool
with_pool pool now = update_where (λ p. p.id == pool.id) (written_pool pool now)

abbrev pub is_resize : String → String → Resize → Bool
is_resize pool_id request_id r = r.pool_id == pool_id && r.request_id == request_id

update_tables :
    (pool : MemoryPool) (now : Time) (s : Session)
    → is_ok (update_pool pool now s).0 ≡ true
    → (update_pool pool now s).1.tables
      ≡ record s.tables { pools = with_pool pool now s.tables.pools }
unfolding update_pool insert call
update_tables pool now s h = ground (arith, h)

delete_tables :
    (pool request : String) (s : Session)
    → is_ok (delete_resize pool request s).0 ≡ true
    → (delete_resize pool request s).1.tables
      ≡ record s.tables { resizes = delete_where (is_resize pool request) s.tables.resizes }
unfolding delete_resize insert call
delete_tables pool request s h = ground (arith, h)

begin_statements :
    (pool : MemoryPool) (op : MemoryPoolResize) (now : Time) (s : Session)
    → is_ok (insert_and_update pool op now s).0 ≡ true
    → (insert_and_update pool op now s).1.tables ≡ record s.tables {
      resizes = resize_row pool.id op ∷ s.tables.resizes;
      pools = with_pool pool now s.tables.pools;
    }
unfolding insert_and_update ◌>>=◌
begin_statements pool op now s h =
    ground
      (arith, insert_effect pool.id op s, update_tables pool now (insert_resize pool.id op s).1)

finish_statements :
    (pool : MemoryPool) (request : String) (now : Time) (s : Session)
    → is_ok (delete_and_update pool request now s).0 ≡ true
    → (delete_and_update pool request now s).1.tables ≡ record s.tables {
      resizes = delete_where (is_resize pool.id request) s.tables.resizes;
      pools = with_pool pool now s.tables.pools;
    }
unfolding delete_and_update ◌>>=◌
finish_statements pool request now s h = ground (
  arith,
  delete_tables pool.id request s,
  update_tables pool now (delete_resize pool.id request s).1,
)

pub begin_tables :
    (pool : MemoryPool) (op : MemoryPoolResize) (now : Time) (s : Session)
    → is_ok (begin_memory_pool_resize pool op now s).0 ≡ true
    → (begin_memory_pool_resize pool op now s).1.tables ≡ record s.tables {
      resizes = resize_row pool.id op ∷ s.tables.resizes;
      pools = with_pool pool now s.tables.pools;
    }
unfolding begin_memory_pool_resize
begin_tables pool op now s h =
    let fine = transact-ok (insert_and_update pool op now) s h in
    fine.1 ∙ begin_statements pool op now (begun s) fine.0

pub finish_tables :
    (pool : MemoryPool) (request : String) (now : Time) (s : Session)
    → is_ok (finish_memory_pool_resize pool request now s).0 ≡ true
    → (finish_memory_pool_resize pool request now s).1.tables ≡ record s.tables {
      resizes = delete_where (is_resize pool.id request) s.tables.resizes;
      pools = with_pool pool now s.tables.pools;
    }
unfolding finish_memory_pool_resize
finish_tables pool request now s h =
    let fine = transact-ok (delete_and_update pool request now) s h in
    fine.1 ∙ finish_statements pool request now (begun s) fine.0

pub failed_tables :
    (pool : MemoryPool) (op : MemoryPoolResize) (now : Time) (s : Session)
    → is_ok (begin_memory_pool_resize pool op now s).0 ≡ false
    → (begin_memory_pool_resize pool op now s).1.tables ≡ s.tables
unfolding begin_memory_pool_resize
failed_tables pool op now s h = transact-atomic (insert_and_update pool op now) s h

pub unfinished_tables :
    (pool : MemoryPool) (request : String) (now : Time) (s : Session)
    → is_ok (finish_memory_pool_resize pool request now s).0 ≡ false
    → (finish_memory_pool_resize pool request now s).1.tables ≡ s.tables
unfolding finish_memory_pool_resize
unfinished_tables pool request now s h = transact-atomic (delete_and_update pool request now) s h
