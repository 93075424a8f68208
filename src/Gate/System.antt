-- ===== src/Gate/System.antt =====
-- Goroutines over one gate, each with its own lease, interleaved in any order.
use srv.Base.{ℕ, ◌+◌, ◌≡◌, Bool, true, false, List, [], ◌∷◌, ◌++◌, arith, if◌then◌else◌}
use srv.Gate.{Gate, Lease, granted, new_lease, begin_command, await, promote_to_snapshot, release}

pub record System : Type 0 where
  pub gate : Gate
  pub leases : List Lease  -- every lease ever granted

abbrev pub initial : System
initial = record { gate = record { snapshot_on = false; in_flight = 0 }; leases = [] }

-- the lease `l` of the list becomes `l'`
pub record Changes (l l' : Lease) (s t : System) : Type 0 where
  pub before : List Lease
  pub after : List Lease
  pub old : s.leases ≡ before ++ (l ∷ after)
  pub new : t.leases ≡ before ++ (l' ∷ after)

-- A goroutine in the loop of PromoteToSnapshot does nothing else with its lease.
pub data Step (s t : System) : Type 0 where
  begin :
      (begin_command s.gate).0 ≡ granted
      → t.gate ≡ (begin_command s.gate).1
      → t.leases ≡ new_lease ∷ s.leases
      → Step s t
  promote :
      (ended : Bool) (l : Lease)
      → l.waiting ≡ false
      → Changes l (promote_to_snapshot ended l s.gate).1 s t
      → t.gate ≡ (promote_to_snapshot ended l s.gate).2
      → Step s t
  wake :
      (ended : Bool) (l : Lease)
      → l.waiting ≡ true
      → Changes l (await ended l s.gate).1 s t
      → t.gate ≡ (await ended l s.gate).2
      → Step s t
  finish :
      (l : Lease)
      → l.waiting ≡ false
      → Changes l (release l s.gate).0 s t
      → t.gate ≡ (release l s.gate).1
      → Step s t

pub data Reach : System → Type 0 where
  start : Reach initial
  next : {s t : System} → Reach s → Step s t → Reach t

-- a lease that counts in `in_flight`
abbrev pub running : Lease → Bool
running l =
    if l.released then false else if l.snapshot then false else if l.waiting then false else true

-- a lease that holds or awaits the snapshot
abbrev pub snapping : Lease → Bool
snapping l = if l.released then false else if l.snapshot then true else l.waiting

abbrev pub count : (Lease → Bool) → List Lease → ℕ
count p [] = 0
count p (l ∷ ls) = (if p l then 1 else 0) + count p ls

pub count-append :
    (p : Lease → Bool) (xs ys : List Lease) → count p (xs ++ ys) ≡ count p xs + count p ys
count-append p [] ys = omega arith
count-append p (x ∷ xs) ys = omega (arith, count-append p xs ys)
