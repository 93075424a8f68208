-- ===== src/Provision/Pools/Promises.antt =====
-- What calls of ResizeMemoryPool promise together: the limit that the runner enforces is within the
-- bytes that the store reserves, and a call that returns has set both.
use srv.Provision.Pools.Reserved.{resize_lem}
use mathlib.Core.Path.{subst}
use srv.Effect.Keeps.{Triple-answer, Triple-weaken, Triple-state}
use srv.Provision.Pools.Settling.{Returned}
use srv.Provision.Pools.Limits.{limited}
use srv.PoolResize.{receipt}
use srv.Effect.{done, Run, Outcome}
use srv.Provision.Pools.Cover.{Covered}
use srv.Base.Lists.{find_where}
use srv.Provision.Steady.{On}
use srv.Base.Keys.{has, find-holds, Unique}
use srv.Model.{MemoryPool}
use srv.Base.Int.{pos_part, ℤ}
use srv.Provision.{Error, Host}
use srv.Base.{
  sym, refl, ◌∙◌, text_iff, string_eq, true, none, some, ◌≡◌, ◌==◌, List, ℕ, Bool, String,
}
use srv.Provision.Pools.{resize_pool}
use srv.Store.Tables.{Resize}

module _ (equal_fold : String → String → Bool) (process_exists : ℤ → Bool) (memory : ℤ) where
  -- A call with failures of its own: of the database, and of everything else.
  abbrev pub call_of :
      String → ℤ → String → ℕ → List Bool → List ℕ → Host → Outcome Error MemoryPool × Run Host
  call_of name size fresh now faults answers h =
      resize_pool equal_fold process_exists memory name size fresh now (record {
        state = record h { session = record h.session { faults = faults } };
        answers = answers;
      })

  -- Calls for one pool, one after the other, under `admissionMu`, each with a request ID that the
  -- runner does not know yet.
  pub data Calls (name : String) : Host → Host → Type 0 where
    start : {h : Host} → Calls name h h
    next :
        {h h' : Host} (size : ℤ) (fresh : String) (now : ℕ) (faults : List Bool) (answers : List ℕ)
        → Calls name h h'
        → receipt fresh h'.runner.receipts ≡ none
        → Calls name h (call_of name size fresh now faults answers h').1.state

-- the pool of that name has a row, and the limit of its cgroup is within the reservation
abbrev pub Enforced : String → Host → Type 0
Enforced name h =
    (row : MemoryPool) × (find_where (λ p. p.name == name) h.session.tables.pools ≡ some row)
    × (limited (h.runner.cgroups name) (pos_part row.reserved_bytes) ≡ true)

-- that, and no resize of it is pending
pub record Settled (name : String) (size : ℤ) (h : Host) : Type 0 where
  pub row : MemoryPool
  pub found : find_where (λ p. p.name == name) h.session.tables.pools ≡ some row
  pub reserved : row.reserved_bytes ≡ size
  pub none_pending : find_where (λ r. r.pool_id == row.id) h.session.tables.resizes ≡ none
  pub within : limited (h.runner.cgroups name) (pos_part size) ≡ true

idle_covers :
    (name : String) (size : ℤ) (h : Host)
    → Settled name size h
    → Unique Resize.pool_id h.session.tables.resizes
    → On (Covered name) h
idle_covers name size h s u =
    let n : s.row.name ≡ name =
      (text_iff s.row.name name).0
        (find-holds (has MemoryPool.name name) h.session.tables.pools s.row s.found) in
    record {
      here = (
        s.row,
        n,
        none,
        record {
          row = s.row;
          found =
              subst (λ k. find_where (has MemoryPool.name k) h.session.tables.pools ≡ some s.row)
                (sym n) s.found;
          same_id = refl;
          same_size = refl;
          held = s.none_pending;
          single = u;
          bounded = rw (n, s.reserved) s.within;
          planned = tt;
        },
      );
    }

covers_limit : (name : String) (h : Host) → On (Covered name) h → Enforced name h
covers_limit name h c =
    let (pool, n, o, at) = c.here in (at.row, rw (← n) at.found, rw (← n, at.same_size) at.bounded)

answer_settles :
    (name : String) (size : ℤ) (pool : MemoryPool) (h : Host)
    → On (Returned name size pool) h
    → Settled name size h
answer_settles name size pool h r =
    let (n, z, at) = r.here in
    record {
      row = at.row;
      found = rw (← n) at.found;
      reserved = at.same_size ∙ z;
      none_pending = rw at.same_id at.held;
      within = rw (← n, ← z) at.bounded;
    }

module _ (equal_fold : String → String → Bool) (process_exists : ℤ → Bool) (memory : ℤ) where
  every-Covered :
      (name : String) {h h' : Host}
      → Calls equal_fold process_exists memory name h h'
      → On (Covered name) h
      → On (Covered name) h'
  every-Covered name start c = c
  every-Covered name (next size fresh now faults answers calls unknown) c =
      Triple-state _ _
        (Triple-weaken _ (resize_lem equal_fold process_exists memory name size fresh now)
          (λ h q. q) (λ a h q. record { here = (a, q.here.0, none, q.here.2) }) λ h q. q)
        (record { here = ((every-Covered name calls c).here, unknown) })

  -- Calls of ResizeMemoryPool for one pool, of any sizes, each of which may fail at any call of the
  -- database, of the runner or of the system, may lose the reply of the runner, and has a request ID
  -- that the runner does not know: when the row of the pool was found, no resize of it was pending,
  -- no two pending resizes are of the same pool, and the limit of its cgroup, if it has one, was
  -- positive and within the reservation, then after them the row is found and the limit is still
  -- within the reservation that the store has at that point.
  pub reservation_covers_limit :
      (name : String) (size : ℤ) {h h' : Host}
      → Settled name size h
      → Unique Resize.pool_id h.session.tables.resizes
      → Calls equal_fold process_exists memory name h h'
      → Enforced name h'
  reservation_covers_limit name size s u calls =
      covers_limit name _ (every-Covered name calls (idle_covers name size _ s u))

  -- After such calls, a further one that returns a pool, whatever it had to retry, returns it with
  -- the name and the size asked for; no resize of the pool is pending then, the reservation that the
  -- store has is that size, and the limit of its cgroup, if it has one, is within it.
  pub resize_settles :
      (name : String) (old size : ℤ) (fresh : String) (now : ℕ) (faults : List Bool)
      (answers : List ℕ) (pool : MemoryPool) {h h' : Host}
      → Settled name old h
      → Unique Resize.pool_id h.session.tables.resizes
      → Calls equal_fold process_exists memory name h h'
      → receipt fresh h'.runner.receipts ≡ none
      → (call_of equal_fold process_exists memory name size fresh now faults answers h').0
        ≡ done pool
      → (pool.name ≡ name)
        × (pool.reserved_bytes ≡ size)
        × Settled name size
            (call_of equal_fold process_exists memory name size fresh now faults answers h').1.state
  resize_settles name old size fresh now faults answers pool s u calls unknown e =
      let r =
        Triple-answer _ _ pool (resize_lem equal_fold process_exists memory name size fresh now)
          (record {
            here = ((every-Covered name calls (idle_covers name old _ s u)).here, unknown);
          })
          e in
      (r.here.0, r.here.1, answer_settles name size pool _ r)
