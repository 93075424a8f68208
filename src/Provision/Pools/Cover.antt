-- ===== src/Provision/Pools/Cover.antt =====
-- What a call of ResizeMemoryPool keeps between the store and the runner: the limit that the runner
-- has set is never above the bytes that the store reserves.
use mathlib.Core.Path.{subst}
use srv.Store.Pools.Resizing.{begin_resize_effect}
use srv.Store.Pools.Effects.{with_pool, finish_tables, written_pool, begin_tables}
use srv.Store.Session.Atomic.{is_ok}
use srv.Provision.Pools.{request_of}
use srv.Base.Int.{pos_part}
use srv.Base.Keys.{find-holds, delete-Unique, find-delete, find-update, Unique, has}
use srv.Provision.Pools.Limits.{limited, Within}
use srv.Store.Session.{Session}
use srv.Base.Lists.{exists_where, find_where}
use srv.PoolResize.{Cgroup, receipt, Runner}
use srv.Store.Pools.{
  finish_memory_pool_resize, resize_row, begin_memory_pool_resize, pending_of, MemoryPoolResize,
}
use srv.Store.Tables.{Resize, Tables}
use srv.Base.{
  [], string_eq, text_refl, ◌∷◌, false, text_iff, ◌||◌, arith, ◌==◌, List, refl, sym, ◌∙◌, true,
  ◌<◌, ◌≤◌, none, some, ◌≡◌, ℕ, Option, String,
}
use srv.Model.{MemoryPool}

-- a resize that is pending, and the receipt that the runner has for it
abbrev pub Planned : MemoryPool → Option Resize → Runner → Type 0
Planned pool none s = Unit {0}
Planned pool (some r) s =
    Within (pos_part pool.reserved_bytes) (request_of pool.name (pending_of (some r))) s

-- a pool as a call holds it, the resize of it that is pending, and the runner
pub record At (pool : MemoryPool) (o : Option Resize) (t : Tables) (s : Runner) : Type 0 where
  pub row : MemoryPool
  pub found : find_where (has MemoryPool.name pool.name) t.pools ≡ some row
  pub same_id : row.id ≡ pool.id
  pub same_size : row.reserved_bytes ≡ pool.reserved_bytes
  pub held : find_where (has Resize.pool_id pool.id) t.resizes ≡ o
  pub single : Unique Resize.pool_id t.resizes
  pub bounded : limited (s.cgroups pool.name) (pos_part pool.reserved_bytes) ≡ true
  pub planned : Planned pool o s

-- the pool of a name is covered by its reservation
abbrev pub Covered : String → Tables → Runner → Type 0
Covered name t s = (pool : MemoryPool) × (pool.name ≡ name) × (o : Option Resize) × At pool o t s

-- and the request ID is unknown to the runner
abbrev pub Fresh : String → (Tables → Runner → Type 0) → Tables → Runner → Type 0
Fresh id P t s = P t s × (receipt id s.receipts ≡ none)

abbrev pub Open : MemoryPool → Tables → Runner → Type 0
Open pool t s = (o : Option Resize) × At pool o t s

no_row :
    (pool_id request_id : String) (rs : List Resize)
    → exists_where (λ r. r.pool_id == pool_id || r.request_id == request_id) rs ≡ false
    → find_where (has Resize.pool_id pool_id) rs ≡ none
no_row pool_id request_id [] h = refl
no_row pool_id request_id (r ∷ rs) h = ground (arith, no_row pool_id request_id rs)

limited-grows : (c : Option Cgroup) (m n : ℕ) → m ≤ n → limited c m ≡ true → limited c n ≡ true
limited-grows none m n z h = refl
limited-grows (some c) m n z h = ground (arith, z)

written-found :
    (pool new : MemoryPool) (now : ℕ) (o : Option Resize) (t : Tables) (s : Runner)
    → new.id ≡ pool.id
    → new.name ≡ pool.name
    → (at : At pool o t s)
    → find_where (has MemoryPool.name new.name) (with_pool new now t.pools)
      ≡ some (written_pool new now at.row)
written-found pool new now o t s i n at =
    let prior : find_where (has MemoryPool.name new.name) t.pools ≡ some at.row = rw n at.found in
    rw
      (
        find-update MemoryPool.name (λ r. r.id == new.id) (written_pool new now) (λ r. refl)
            new.name t.pools,
        prior,
        (text_iff at.row.id new.id).1 (at.same_id ∙ sym i),
      )
      refl

pub begin_ok :
    (pool new : MemoryPool) (op : MemoryPoolResize) (now : ℕ) (o : Option Resize) (s : Session)
    (runner : Runner)
    → new.id ≡ pool.id
    → new.name ≡ pool.name
    → pos_part pool.reserved_bytes ≤ pos_part new.reserved_bytes
    → 0 < pos_part op.size_bytes
    → pos_part op.size_bytes ≤ pos_part new.reserved_bytes
    → receipt op.request_id runner.receipts ≡ none
    → At pool o s.tables runner
    → is_ok (begin_memory_pool_resize new op now s).0 ≡ true
    → At new (some (resize_row new.id op)) (begin_memory_pool_resize new op now s).1.tables runner
begin_ok pool new op now o s runner i n grows p z fresh at ok =
    let bound : limited (runner.cgroups new.name) (pos_part new.reserved_bytes) ≡ true =
      rw n (limited-grows (runner.cgroups pool.name) _ _ grows at.bounded) in
    let begun_at = begin_resize_effect new op now s ok in
    rw (begin_tables new op now s ok) (record {
      row = written_pool new now at.row;
      found = written-found pool new now o s.tables runner i n at;
      same_id = at.same_id ∙ sym i;
      same_size = refl;
      held = rw (text_refl new.id) refl;
      single = (no_row new.id op.request_id s.tables.resizes begun_at.0, at.single);
      bounded = bound;
      planned = (p, z, bound, rw fresh refl);
    })

pub finish_ok :
    (pool new : MemoryPool) (r : Resize) (now : ℕ) (s : Session) (runner : Runner)
    → new.id ≡ pool.id
    → new.name ≡ pool.name
    → limited (runner.cgroups new.name) (pos_part new.reserved_bytes) ≡ true
    → At pool (some r) s.tables runner
    → is_ok (finish_memory_pool_resize new r.request_id now s).0 ≡ true
    → At new none (finish_memory_pool_resize new r.request_id now s).1.tables runner
finish_ok pool new r now s runner i n bound at ok =
    rw (finish_tables new r.request_id now s ok) (record {
      row = written_pool new now at.row;
      found = written-found pool new now (some r) s.tables runner i n at;
      same_id = at.same_id ∙ sym i;
      same_size = refl;
      held =
          find-delete Resize.pool_id (λ x. x.request_id == r.request_id) new.id r s.tables.resizes
            at.single (rw i at.held) (text_refl r.request_id);
      single = delete-Unique Resize.pool_id _ s.tables.resizes at.single;
      bounded = bound;
      planned = tt;
    })

plan_same :
    (pool row : MemoryPool) (o : Option Resize) (s : Runner)
    → row.name ≡ pool.name
    → row.reserved_bytes ≡ pool.reserved_bytes
    → Planned pool o s
    → Planned row o s
plan_same pool row none s n z w = tt
plan_same pool row (some r) s n z w = rw (n, z) w

-- the row of the pool, as a call reads it
pub At-row :
    (pool row : MemoryPool) (o : Option Resize) (t : Tables) (s : Runner)
    → find_where (has MemoryPool.name pool.name) t.pools ≡ some row
    → At pool o t s
    → At row o t s
At-row pool row o t s e at =
    let head : at.row ≡ row = ground (arith, at.found, e) in
    let i : row.id ≡ pool.id = rw (← head) at.same_id in
    let z : row.reserved_bytes ≡ pool.reserved_bytes = rw (← head) at.same_size in
    let n : row.name ≡ pool.name =
      (text_iff row.name pool.name).0 (find-holds (has MemoryPool.name pool.name) t.pools row e) in
    record {
      row = row;
      found = subst (λ k. find_where (has MemoryPool.name k) t.pools ≡ some row) (sym n) e;
      same_id = refl;
      same_size = refl;
      held = rw i at.held;
      single = at.single;
      bounded = rw (n, z) at.bounded;
      planned = plan_same pool row o s n z at.planned;
    }
