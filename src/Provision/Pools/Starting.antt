-- ===== src/Provision/Pools/Starting.antt =====
-- How ResizeMemoryPool begins a resize: the steps before it, and the growth of the reservation.
use srv.Effect.{stop_if}
use srv.Provision.Pools.Settling.{covers}
use srv.Store.Pools.Effects.{failed_tables}
use srv.Provision.Pools.Cover.{begin_ok, At, Covered, Open, Fresh}
use srv.Provision.Pools.{enlarged}
use srv.Store.Pools.{resize_row, begin_memory_pool_resize, MemoryPoolResize}
use srv.Effect.Keeps.{Triple-give, Triple-stop, Triple-weaken, Triple, Keeps}
use srv.Provision.Steady.{Triple-stored, On}
use srv.Base.Int.{int_eq, pos, negsuc, ltb_ℤ, pos_part, ℤ}
use srv.Provision.{Error, stored, Host, Step}
use srv.Model.{MemoryPool}
use srv.Base.{
  string_eq, arith, false, true, inr, inl, refl, Bool-cases, some, ◌≤◌, ◌<◌, ◌≡◌, ℕ, Bool, String,
}

pub early_covers :
    (id : String) (pool : MemoryPool) (h : Host)
    → On (Fresh id (Open pool)) h
    → On (Covered pool.name) h
early_covers id pool h p = record { here = covers pool pool.name _ _ _ refl p.here.0.1 }

-- a check that refuses
pub Triple-stop_if :
    {P F : Host → Type 0} (c : Bool) (e : Error)
    → ((h : Host) → P h → F h)
    → Triple P (stop_if c e) (λ x h. P h × (c ≡ false)) F
Triple-stop_if true e f = Triple-stop e f
Triple-stop_if false e f = Triple-give tt λ h p. (p, refl)

pub Triple-given :
    {A X : Type 0} {P F : Host → Type 0} {Q : A → Host → Type 0} {m : Step A}
    → (X → Triple P m Q F)
    → Triple (λ h. P h × X) m Q F
Triple-given k = record { at = λ run q. (k q.1).at run q.0 }

-- a step before the resize is begun
pub early :
    {A : Type 0} (id : String) (pool : MemoryPool) (m : Step A)
    → Keeps (On (Fresh id (Open pool))) m
    → Triple (On (Fresh id (Open pool))) m (λ a. On (Fresh id (Open pool))) (On (Covered pool.name))
early id pool m k = Triple-weaken m k (λ h p. p) (λ a h p. p) (early_covers id pool)

grows_lem : (a b : ℤ) → ltb_ℤ a b ≡ true → pos_part a ≤ pos_part b
grows_lem (pos m) (pos n) h = ground (arith, h)
grows_lem (pos m) (negsuc n) h = absurd (ground (arith, h))
grows_lem (negsuc m) b h = omega arith

shrinks_lem : (a b : ℤ) → ltb_ℤ a b ≡ false → pos_part b ≤ pos_part a
shrinks_lem (pos m) (pos n) h = ground (arith, h)
shrinks_lem (pos m) (negsuc n) h = omega arith
shrinks_lem (negsuc m) (pos n) h = ground (arith, h)
shrinks_lem (negsuc m) (negsuc n) h = omega arith

pub enlarged_lem :
    (pool : MemoryPool) (size : ℤ) (now : ℕ)
    → ((enlarged pool size now).id ≡ pool.id)
      × ((enlarged pool size now).name ≡ pool.name)
      × (pos_part pool.reserved_bytes ≤ pos_part (enlarged pool size now).reserved_bytes)
      × (pos_part size ≤ pos_part (enlarged pool size now).reserved_bytes)
enlarged_lem pool size now = elim (Bool-cases (ltb_ℤ pool.reserved_bytes size)) [
  | inl e ↦ rw e (refl, refl, grows_lem pool.reserved_bytes size e, omega arith)
  | inr e ↦ rw e (refl, refl, omega arith, shrinks_lem pool.reserved_bytes size e)
]

pub begin_lem :
    (pool new : MemoryPool) (op : MemoryPoolResize) (now : ℕ)
    → new.id ≡ pool.id
    → new.name ≡ pool.name
    → pos_part pool.reserved_bytes ≤ pos_part new.reserved_bytes
    → 0 < pos_part op.size_bytes
    → pos_part op.size_bytes ≤ pos_part new.reserved_bytes
    → Triple
        (On (Fresh op.request_id (Open pool)))
        (stored (begin_memory_pool_resize new op now))
        (λ x. On (At new (some (resize_row new.id op))))
        (On (Covered pool.name))
begin_lem pool new op now i n grows p z =
    Triple-stored _
      (λ s runner a q e.
        begin_ok pool new op now q.0.0 s runner i n grows p z q.1 q.0.1 (rw e refl))
      λ s runner q e. rw (failed_tables new op now s e) (covers pool pool.name _ _ _ refl q.0.1)
