-- ===== src/Gate/Promises.antt =====
-- What callers of the gate rely on, in every reachable state.
use srv.Base.{ltb, if◌then◌else◌, ◌<◌, ◌≡◌, Bool, true, false, arith}
use srv.Gate.{
  Gate, Lease, granted, in_progress, context_ended, waits, begin_command, await,
  promote_to_snapshot, barrier_lifted,
}
use srv.Gate.System.{System, Reach, running, snapping, count}
use srv.Gate.Invariant.{Reach-Inv, holding, holding-le-snapping}

-- While a lease holds the snapshot no command runs, a new command is refused with the error that a
-- snapshot is in progress, the barrier is down, and no other lease holds or awaits the snapshot.
pub holding_excludes :
    {s : System}
    → Reach s
    → 0 < count holding s.leases
    → (count running s.leases ≡ 0)
      × ((begin_command s.gate).0 ≡ in_progress)
      × (barrier_lifted s.gate ≡ false)
      × (count snapping s.leases ≡ 1)
unfolding begin_command barrier_lifted
holding_excludes {s} r h =
    let i = Reach-Inv r in
    (
      omega (arith, i.counted, i.alone),
      ground (arith, i.one_snapshot, holding-le-snapping s.leases),
      ground (arith, i.one_snapshot, holding-le-snapping s.leases),
      ground (arith, i.one_snapshot, holding-le-snapping s.leases),
    )

-- A goroutine that awaits the snapshot is granted it at its next turn exactly when no command runs,
-- even if its context has ended; while a command runs it gives up if its context has ended, and
-- waits otherwise.
pub waiter_answer :
    {s : System} (ended : Bool) (l : Lease)
    → Reach s
    → (await ended l s.gate).0 ≡ (
        if ltb 0 (count running s.leases)
        then (if ended then context_ended else waits)
        else granted)
unfolding await
waiter_answer ended l r = let i = Reach-Inv r in ground (arith, i.counted)

-- When no lease runs, awaits or holds, the gate is as it began: nothing in flight, no snapshot, and
-- a new command is granted.
pub quiet_reopens :
    {s : System}
    → Reach s
    → count running s.leases ≡ 0
    → count snapping s.leases ≡ 0
    → (s.gate ≡ record { snapshot_on = false; in_flight = 0 })
      × ((begin_command s.gate).0 ≡ granted)
unfolding begin_command
quiet_reopens r a b =
    let i = Reach-Inv r in
    (ground (arith, i.counted, i.one_snapshot), ground (arith, i.counted, i.one_snapshot))

-- A promotion whose context has ended while other commands run leaves its lease and the gate as
-- they were.
pub promote-cancelled :
    (l : Lease) (g : Gate)
    → running l ≡ true
    → g.snapshot_on ≡ false
    → 1 < g.in_flight
    → promote_to_snapshot true l g ≡ (context_ended, l, g)
unfolding promote_to_snapshot
promote-cancelled l g a b c = ground arith
