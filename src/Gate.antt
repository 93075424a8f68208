-- ===== src/Gate.antt =====
-- The command gate of internal/service/snapshot.go: commands run together, a snapshot runs alone.
-- Each function is one hold of `commandMu`; `cond.Wait` gives the mutex up, and `ended` says whether
-- the context of the caller has ended when it holds the mutex.
pub mod System
pub mod Invariant
pub mod Promises
mod Tests
use srv.Base.{ℕ, ◌+◌, ◌-◌, Bool, true, false, ltb, if◌then◌else◌}

-- the fields `snapshotOn` and `inFlight` of App
pub record Gate : Type 0 where
  pub snapshot_on : Bool
  pub in_flight : ℕ

-- `commandGateLease`; `waiting` says that its goroutine is in the loop of PromoteToSnapshot.
pub record Lease : Type 0 where
  pub snapshot : Bool
  pub released : Bool
  pub waiting : Bool

pub data Answer : Type 0 where
  granted : Answer
  waits : Answer  -- in cond.Wait
  in_progress : Answer  -- errSnapshotInProgress
  already_released : Answer
  context_ended : Answer

abbrev pub new_lease : Lease
new_lease = record { snapshot = false; released = false; waiting = false }

unfoldable pub begin_command : Gate → Answer × Gate
begin_command g =
    if g.snapshot_on then (in_progress, g) else (granted, record g { in_flight = g.in_flight + 1 })

-- one round of the loop of PromoteToSnapshot
unfoldable pub await : Bool → Lease → Gate → Answer × Lease × Gate
await ended l g =
    if ltb 0 g.in_flight
    then (if ended
        then (
          context_ended,
          record l { waiting = false },
          record { snapshot_on = false; in_flight = g.in_flight + 1 },
        )
        else (waits, l, g))
    else (granted, record l { snapshot = true; waiting = false }, g)

unfoldable pub promote_to_snapshot : Bool → Lease → Gate → Answer × Lease × Gate
unfolding await
promote_to_snapshot ended l g =
    if l.released
    then (already_released, l, g)
    else if l.snapshot
    then (granted, l, g)
    else if g.snapshot_on
    then (in_progress, l, g)
    else await ended (record l { waiting = true })
        (record { snapshot_on = true; in_flight = g.in_flight - 1 })

unfoldable pub release : Lease → Gate → Lease × Gate
release l g =
    if l.released
    then (l, g)
    else if l.snapshot
    then (record l { released = true }, record g { snapshot_on = false })
    else (record l { released = true }, record g { in_flight = g.in_flight - 1 })

-- waitForSnapshotBarrierToLift returns when this holds under the mutex.
unfoldable pub barrier_lifted : Gate → Bool
barrier_lifted g = if g.snapshot_on then false else true
