-- ===== src/Provision/PoolLife/Deletion.antt =====
-- What DeleteMemoryPool asks of a pool, and what it leaves.
use srv.Effect.{Run}
use srv.Model.State.{state_eq}
use srv.Model.State.{deleted}
use srv.Store.Session.Atomic.{is_ok}
use srv.Provision.Pools.Starting.{Triple-given, Triple-stop_if}
use srv.PoolResize.{Runner}
use srv.Base.Lists.{count_where, delete_where, find_where}
use srv.Model.{MemoryPool}
use srv.Effect.Keeps.{
  Post, Triple-give, Triple-ask, Triple-stop, Triple-weaken, Triple, Triple-write, Keeps-stop_if,
  Keeps-ask, Triple-bind,
}
use srv.Provision.Steady.{Triple-stored, On}
use srv.Base.{
  ltb, false, refl, ◌!=◌, some, ℕ, ◌&&◌, none, text_refl, string_eq, ◌∙◌, arith, true, ◌==◌, Option,
  ◌≡◌, String,
}
use srv.Store.Session.{insert, ok, Session, call, query_row, optional, query, Action}
use srv.Provision.{members, stored, Host}
use srv.Store.Pools.{
  count_memory_pool_members, delete_memory_pool, pending_of, get_memory_pool_by_name,
  pending_memory_pool_resize, check_memory_pool_resize, find_memory_pool_by_name,
}
use srv.Provision.PoolLife.{delete_pool, delete_pool_found, delete_cgroup}
use srv.Store.Tables.{Tables}
use srv.Store.Session.Along.{
  Along-raise_if, Along-query, Along-query_row, Along-bind, Along-optional, Along, same,
}

-- the tables are those
abbrev Still : Tables → Host → Type 0
Still t = On (λ t' s. t' ≡ t)

Triple-fact :
    {A : Type 0} (t : Tables) (m : Action A) (Fact : A → Type 0)
    → Along (λ t t'. t' ≡ t) m
    → ((s : Session) (a : A) → s.tables ≡ t → (m s).0 ≡ ok a → Fact a)
    → Triple (Still t) (stored m) (λ a h. Still t h × Fact a) (Still t)
Triple-fact t m Fact k f =
    Triple-weaken _
      (Triple-stored {P = λ t' s. t' ≡ t} {F = λ t' s. t' ≡ t} {Q = λ a t' s. (t' ≡ t) × Fact a} m
        (λ s runner a p e. (k.at s ∙ p, f s a p e)) λ s runner p e. k.at s ∙ p)
      (λ h p. p) (λ a h p. (record { here = p.here.0 }, p.here.1)) λ h p. p

-- those, and the pool of that name has no cgroup
abbrev Bare : Tables → String → Host → Type 0
Bare t name = On (λ t' s. (t' ≡ t) × (s.cgroups name ≡ none))

cgroup-Bare :
    (t : Tables) (name : String)
    → Triple (Still t) (delete_cgroup name) (λ x. Bare t name) (Still t)
unfolding delete_cgroup
cgroup-Bare t name = Triple-bind _ _ Keeps-ask λ prior. Triple-bind _ _ (Keeps-stop_if _ _) λ x.
    Triple-bind _ _
      (Triple-write {Q = λ x. Bare t name} _
        λ h p. record { here = (p.here, rw (text_refl name) refl) })
      λ y. Triple-bind _ _ (Triple-ask {Q = λ n. Bare t name} λ n h p. p) λ lost.
        Triple-weaken _
          (Triple-stop_if {P = Bare t name} {F = Still t} _ _ λ h p. record { here = p.here.0 })
          (λ h p. p) (λ a h p. p.0) λ h p. p

found_ok :
    (t : Tables) (name : String) (s : Session) (o : Option MemoryPool)
    → s.tables ≡ t
    → (find_memory_pool_by_name name s).0 ≡ ok o
    → find_where (λ p. p.name == name) t.pools ≡ o
unfolding find_memory_pool_by_name get_memory_pool_by_name optional query_row call
found_ok t name s o q e = rw (← q) (ground (arith, e))

found-Along : (name : String) → Along (λ t t'. t' ≡ t) (find_memory_pool_by_name name)
unfolding find_memory_pool_by_name get_memory_pool_by_name
found-Along name = Along-optional same _ (Along-query_row same _)

idle_ok :
    (t : Tables) (id : String) (s : Session) (x : Unit {0})
    → s.tables ≡ t
    → (check_memory_pool_resize id s).0 ≡ ok x
    → ((pending_of (find_where (λ r. r.pool_id == id) t.resizes)).request_id == "") ≡ true
unfolding check_memory_pool_resize pending_memory_pool_resize query call srv.Store.Session.◌>>=◌
idle_ok t id s x q e = rw (← q) (ground (arith, e))

idle-Along : (id : String) → Along (λ t t'. t' ≡ t) (check_memory_pool_resize id)
unfolding check_memory_pool_resize pending_memory_pool_resize
idle-Along id = Along-bind same _ _ (Along-query same _) λ op. Along-raise_if same _ _

members_ok :
    (t : Tables) (id : String) (s : Session) (n : ℕ)
    → s.tables ≡ t
    → (count_memory_pool_members id s).0 ≡ ok n
    → count_where (λ r. r.inst.memory_pool_id == id && r.inst.state != deleted) t.instances ≡ n
unfolding count_memory_pool_members query call
members_ok t id s n q e = rw (← q) (ground (arith, e))

members-Along : (id : String) → Along (λ t t'. t' ≡ t) (count_memory_pool_members id)
unfolding count_memory_pool_members
members-Along id = Along-query same _

abbrev pub without_pool : String → Tables → Tables
without_pool id t = record t { pools = delete_where (λ p. p.id == id) t.pools }

delete_ok :
    (id : String) (s : Session)
    → is_ok (delete_memory_pool id s).0 ≡ true
    → (delete_memory_pool id s).1.tables ≡ without_pool id s.tables
unfolding delete_memory_pool insert call
delete_ok id s e = ground (arith, e)

delete_failed :
    (id : String) (s : Session)
    → is_ok (delete_memory_pool id s).0 ≡ false
    → (delete_memory_pool id s).1.tables ≡ s.tables
unfolding delete_memory_pool insert call
delete_failed id s e = ground (arith, e)

-- the pool may be deleted: no resize of it is pending, and no instance that lives is in it
abbrev pub Deletable : String → Tables → Type 0
Deletable id t =
    ((pending_of (find_where (λ r. r.pool_id == id) t.resizes)).request_id == "" ≡ true)
    × (count_where (λ r. r.inst.memory_pool_id == id && r.inst.state != deleted) t.instances ≡ 0)

-- the tables and the runner after a deletion that returns
pub record Deleted (name : String) (t : Tables) (pool : MemoryPool) (t' : Tables) (s : Runner)
    : Type 0 where
  pub found : find_where (λ p. p.name == name) t.pools ≡ some pool
  pub may_go : Deletable pool.id t
  pub left : t' ≡ without_pool pool.id t
  pub no_cgroup : s.cgroups pool.name ≡ none

remove_lem :
    (t : Tables) (pool : MemoryPool)
    → Triple
        (Bare t pool.name)
        (stored (delete_memory_pool pool.id))
        (λ x. On (λ t' s. (t' ≡ without_pool pool.id t) × (s.cgroups pool.name ≡ none)))
        (Still t)
remove_lem t pool =
    Triple-stored _ (λ s runner a p e. (rw (← p.0) (delete_ok pool.id s (rw e refl)), p.1))
      λ s runner p e. delete_failed pool.id s e ∙ p.0

found-Deleted :
    (name : String) (t : Tables) (o : Option MemoryPool)
    → find_where (λ p. p.name == name) t.pools ≡ o
    → Triple (Still t) (delete_pool_found o) (λ p. On (Deleted name t p)) (Still t)
found-Deleted name t none e = Triple-stop _ λ h p. p
found-Deleted name t (some pool) e =
    Triple-bind _ _ (Triple-fact t _ _ (idle-Along pool.id) (idle_ok t pool.id)) λ x.
      Triple-given λ idle.
        Triple-bind _ _ (Triple-fact t _ _ (members-Along pool.id) (members_ok t pool.id)) λ n.
          Triple-given λ counted.
            Triple-bind _ _ (Triple-stop_if {P = Still t} {F = Still t} (ltb 0 n) members λ h p. p)
              λ y. Triple-given λ none_left. Triple-bind _ _ (cgroup-Bare t pool.name) λ z.
                Triple-bind _ _ (remove_lem t pool) λ w. Triple-give _ λ h p. record {
                  here = record {
                    found = e;
                    may_go = (idle, counted ∙ ground (arith, none_left));
                    left = p.here.0;
                    no_cgroup = p.here.1;
                  };
                }

-- A DeleteMemoryPool that returns a pool has found it by its name, with no resize of it pending and
-- no instance in it that is not deleted; it leaves the tables but for the row of the pool, and no
-- cgroup of that name. One that fails, at whatever call, leaves every table as it was.
pub delete_pool_effect :
    (name : String) (run : Run Host)
    → Post
        (λ pool. On (Deleted name run.state.session.tables pool))
        (On (λ t s. t ≡ run.state.session.tables))
        (delete_pool name run).0
        (delete_pool name run).1.state
unfolding delete_pool
delete_pool_effect name run =
    let t = run.state.session.tables in
    (Triple-bind _ _ (Triple-fact t _ _ (found-Along name) (found_ok t name))
        λ o. Triple-given λ e. found-Deleted name t o e).at
      run (record { here = refl })
