-- ===== src/Provision/Pools/Settling.antt =====
-- finishMemoryPoolResize: what the reply of the runner makes of the pool and of its pending resize.
use srv.Store.Pools.Effects.{unfinished_tables}
use srv.Provision.{stored}
use srv.Store.Pools.{finish_memory_pool_resize, pending_of}
use srv.Provision.Pools.Limits.{limited}
use srv.Provision.Pools.Calls.{ask_lem, Asked}
use srv.Provision.Pools.Cover.{finish_ok, Covered, At}
use srv.Provision.Steady.{Triple-stored, On}
use srv.PoolResize.{Runner}
use srv.Effect.Keeps.{Triple-give, Triple-stop, Triple-weaken, Triple-bind, Triple}
use srv.Store.Tables.{Tables, Resize}
use srv.Base.{none, refl, true, inr, inl, some, ◌==◌, Bool-cases, ◌≡◌, Option, ℕ, String}
use srv.Model.{MemoryPool}
use srv.Provision.Pools.{settled_as, sized, Reply, finish_resize, resized, refused, unknown}
use srv.Base.Int.{pos_part, ℤ, int_eq, same_int_iff}

pub covers :
    (pool : MemoryPool) (name : String) (o : Option Resize) (t : Tables) (s : Runner)
    → pool.name ≡ name
    → At pool o t s
    → Covered name t s
covers pool name o t s n at = (pool, n, o, at)

-- The call that clears the resize, with what is left of the pool: `new` differs in its size at most.
clear_lem :
    (pool new : MemoryPool) (r : Resize) (reply : Reply) (now : ℕ)
    → new.id ≡ pool.id
    → new.name ≡ pool.name
    → ((t : Tables) (s : Runner)
        → Asked pool r reply t s
        → limited (s.cgroups pool.name) (pos_part new.reserved_bytes) ≡ true)
    → Triple
        (On (Asked pool r reply))
        (stored (finish_memory_pool_resize new r.request_id now))
        (λ x. On (At new none))
        (On (Covered pool.name))
clear_lem pool new r reply now i n bound =
    Triple-stored (finish_memory_pool_resize new r.request_id now)
      (λ s runner a p e.
        finish_ok pool new r now s runner i n (rw n (bound s.tables runner p)) p.0 (rw e refl))
      λ s runner p e.
        rw (unfinished_tables new r.request_id now s e)
          (covers pool pool.name (some r) s.tables runner refl p.0)

sized-same :
    (pool : MemoryPool) (size : ℤ) (now : ℕ)
    → ((sized pool size now).id ≡ pool.id)
      × ((sized pool size now).name ≡ pool.name)
      × ((sized pool size now).reserved_bytes ≡ size)
sized-same pool size now = elim (Bool-cases (pool.reserved_bytes == size)) [
  | inl e ↦ rw e (refl, refl, (same_int_iff _ _).0 e)
  | inr e ↦ rw e (refl, refl, refl)
]

-- the pool that a call returned: nothing is pending, and its size is the one asked for
abbrev pub Returned : String → ℤ → MemoryPool → Tables → Runner → Type 0
Returned name size p t s = (p.name ≡ name) × (p.reserved_bytes ≡ size) × At p none t s

settled-Covered :
    (reply : Reply) (pool : MemoryPool) (r : Resize) (now : ℕ)
    → Triple
        (On (Asked pool r reply))
        (settled_as reply pool (pending_of (some r)) now)
        (λ p. On (Returned pool.name r.size_bytes p))
        (On (Covered pool.name))
settled-Covered resized pool r now =
    let same_pool = sized-same pool r.size_bytes now in
    Triple-bind _ _
      (clear_lem pool (sized pool r.size_bytes now) r resized now same_pool.0 same_pool.1
        λ t s p. rw same_pool.2 p.1)
      λ x. Triple-give _ λ h p. record { here = (same_pool.1, same_pool.2, p.here) }
settled-Covered refused pool r now =
    Triple-bind _ _ (clear_lem pool pool r refused now refl refl λ t s p. p.0.bounded)
      λ x. Triple-stop _ λ h p. record { here = covers pool pool.name none _ _ refl p.here }
settled-Covered unknown pool r now =
    Triple-stop _ λ h p. record { here = covers pool pool.name (some r) _ _ refl (p.here.0) }

-- finishMemoryPoolResize
pub finish-Covered :
    (pool : MemoryPool) (r : Resize) (now : ℕ)
    → Triple
        (On (At pool (some r)))
        (finish_resize pool (pending_of (some r)) now)
        (λ p. On (Returned pool.name r.size_bytes p))
        (On (Covered pool.name))
unfolding finish_resize
finish-Covered pool r now =
    Triple-bind _ _
      (Triple-weaken _ (ask_lem pool r) (λ h p. p) (λ reply h p. p)
        λ h p. record { here = covers pool pool.name (some r) _ _ refl p.here })
      λ reply. settled-Covered reply pool r now
