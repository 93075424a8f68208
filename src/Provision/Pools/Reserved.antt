-- ===== src/Provision/Pools/Reserved.antt =====
-- ResizeMemoryPool as a whole: the limit that the runner has set stays within what the store
-- reserves.
use srv.Provision.Pools.Admission.{growth-Keeps, members-Keeps, list_instances-Keeps}
use srv.Provision.{bad_size, pending_other, stored}
use srv.Provision.Pools.Starting.{
  begin_lem, Triple-given, early_covers, Triple-stop_if, early, enlarged_lem,
}
use srv.Effect.{◌>>=◌}
use srv.Provision.Pools.Settling.{covers, finish-Covered, Returned}
use srv.Provision.Pools.Calls.{read_pool, read_pending, Known}
use srv.Provision.Pools.Cover.{Covered, Open, At, Fresh}
use srv.Provision.Steady.{On}
use srv.Effect.Keeps.{Triple-weaken, Triple-bind, Triple-if, Triple}
use srv.Store.Tables.{Resize}
use srv.Provision.Pools.{resize_found, finish_resize, resize_pool, start_resize}
use srv.Store.Pools.{resize_row, pending_memory_pool_resize, pending_of, MemoryPoolResize}
use srv.Base.{
  refl, none, not, some, arith, string_eq, true, ◌≡◌, Option, ◌!=◌, ◌<◌, ℕ, Bool, String,
}
use srv.Model.{MemoryPool}
use srv.Base.Int.{ltb_ℤ, pos_part, ℤ, int_eq, same_int_iff, pos}

pending_known :
    (pool : MemoryPool) (op : MemoryPoolResize) (now : ℕ) (o : Option Resize)
    → op ≡ pending_of o
    → (op.request_id != "") ≡ true
    → Triple
        (On (At pool o))
        (finish_resize pool op now)
        (λ p. On (Returned pool.name op.size_bytes p))
        (On (Covered pool.name))
pending_known pool op now none e named = absurd (ground (arith, rw e at named))
pending_known pool op now (some r) e named = rw e (finish-Covered pool r now)

-- a retry of a pending resize
pending-Covered :
    (id : String) (pool : MemoryPool) (op : MemoryPoolResize) (now : ℕ)
    → (op.request_id != "") ≡ true
    → Triple
        (On (Fresh id (Known pool op)))
        (finish_resize pool op now)
        (λ p. On (Returned pool.name op.size_bytes p))
        (On (Covered pool.name))
pending-Covered id pool op now named = record {
  at = λ run q.
      let (o, e, at) = q.here.0 in
      (pending_known pool op now o e named).at run (record { here = at });
}

module _ (equal_fold : String → String → Bool) (process_exists : ℤ → Bool) (memory : ℤ) where
  start-Covered :
      (pool : MemoryPool) (size : ℤ) (fresh : String) (now : ℕ)
      → 0 < pos_part size
      → Triple
          (On (Fresh fresh (Open pool)))
          (start_resize equal_fold process_exists memory pool size fresh now)
          (λ p. On (Returned pool.name size p))
          (On (Covered pool.name))
  unfolding start_resize
  start-Covered pool size fresh now p =
      let e = enlarged_lem pool size now in
      Triple-bind _ _ (early fresh pool _ list_instances-Keeps) λ is.
        Triple-bind _ _
          (early fresh pool _ (members-Keeps equal_fold process_exists memory pool.id size is))
          λ running.
            Triple-bind _ _
              (early fresh pool _
                (growth-Keeps equal_fold process_exists memory pool.reserved_bytes size))
              λ x. Triple-bind _ _ (begin_lem pool _ _ now e.0 e.1 e.2 p e.3) λ y.
                Triple-weaken _ (finish-Covered _ (resize_row _ _) now) (λ h q. q)
                  (λ a h q. rw (← e.1) q) λ h q. rw (← e.1) q

  found-Covered :
      (pool : MemoryPool) (op : MemoryPoolResize) (size : ℤ) (fresh : String) (now : ℕ)
      → 0 < pos_part size
      → Triple
          (On (Fresh fresh (Known pool op)))
          (resize_found equal_fold process_exists memory pool op size fresh now)
          (λ p. On (Returned pool.name size p))
          (On (Covered pool.name))
  found-Covered pool op size fresh now p =
      Triple-if (op.request_id != "") _ _
        (λ named.
          Triple-bind _ _
            (Triple-stop_if {P = On (Fresh fresh (Known pool op))} (op.size_bytes != size)
              pending_other λ h q. record { here = covers pool pool.name _ _ _ refl q.here.0.2 })
            λ x. Triple-given λ e.
              let z : op.size_bytes ≡ size =
                (same_int_iff op.size_bytes size).0 (ground (arith, e)) in
              rw (← z) (pending-Covered fresh pool op now named))
        λ idle.
          Triple-weaken _ (start-Covered pool size fresh now p)
            (λ h q. record { here = ((q.here.0.0, q.here.0.2), q.here.1) }) (λ a h q. q) λ h q. q

  named-Covered :
      (name : String) (pool : MemoryPool) (size : ℤ) (fresh : String) (now : ℕ)
      → 0 < pos_part size
      → pool.name ≡ name
      → Triple
          (On (Fresh fresh (Open pool)))
          (do
            op ← stored (pending_memory_pool_resize pool.id)
            resize_found equal_fold process_exists memory pool op size fresh now)
          (λ p. On (Returned name size p))
          (On (Covered name))
  named-Covered name pool size fresh now p n =
      Triple-weaken _
        (Triple-bind _ _
          (Triple-weaken _ (read_pending pool fresh) (λ h q. q) (λ a h q. q)
            (early_covers fresh pool))
          λ op. found-Covered pool op size fresh now p)
        (λ h q. q) (λ a h q. rw (← n) q) λ h q. rw (← n) q

  pub resize_lem :
      (name : String) (size : ℤ) (fresh : String) (now : ℕ)
      → Triple
          (On (Fresh fresh (Covered name)))
          (resize_pool equal_fold process_exists memory name size fresh now)
          (λ p. On (Returned name size p))
          (On (Covered name))
  unfolding resize_pool
  resize_lem name size fresh now =
      Triple-bind _ _
        (Triple-stop_if {P = On (Fresh fresh (Covered name))} (not (ltb_ℤ (pos 0) size)) bad_size
          λ h q. record { here = q.here.0 })
        λ x. Triple-given λ e.
          Triple-bind _ _
            (Triple-weaken _ (read_pool name fresh) (λ h q. q) (λ a h q. q)
              λ h q. record { here = q.here.0 })
            λ pool.
              Triple-weaken _
                (Triple-given λ n. named-Covered name pool size fresh now (ground (arith, e)) n)
                (λ h q. (record { here = q.here.1 }, q.here.0)) (λ a h q. q) λ h q. q
