-- ===== src/Gate/Tests.antt =====
-- Two commands and a snapshot over one gate.
use srv.Base.{◌≡◌, refl, true, false, [], ◌∷◌, arith}
use srv.Gate.{
  granted, in_progress, new_lease, begin_command, promote_to_snapshot, release, barrier_lifted,
}
use srv.Gate.System.{System, begin, promote, finish, Reach, start, next, running, snapping, count}
use srv.Gate.Invariant.{Inv, Reach-Inv}
use srv.Gate.Promises.{holding_excludes, quiet_reopens}

abbrev one : System
one = record { gate = record { snapshot_on = false; in_flight = 1 }; leases = new_lease ∷ [] }

one-Reach : Reach one
unfolding begin_command
one-Reach = next start (begin refl refl refl)

abbrev held : System
held = record {
  gate = record { snapshot_on = true; in_flight = 0 };
  leases = (record { snapshot = true; released = false; waiting = false }) ∷ [];
}

held-Reach : Reach held
unfolding promote_to_snapshot
held-Reach =
    next one-Reach (
      promote false new_lease refl (record { before = []; after = []; old = refl; new = refl })
        refl)

abbrev over : System
over = record {
  gate = record { snapshot_on = false; in_flight = 0 };
  leases = (record { snapshot = true; released = true; waiting = false }) ∷ [];
}

over-Reach : Reach over
unfolding release
over-Reach = next held-Reach (
    finish (record { snapshot = true; released = false; waiting = false }) refl
      (record { before = []; after = []; old = refl; new = refl }) refl)

Reach-Inv_example : Inv held
Reach-Inv_example = Reach-Inv held-Reach

holding_excludes_example :
    (count running held.leases ≡ 0)
    × ((begin_command held.gate).0 ≡ in_progress)
    × (barrier_lifted held.gate ≡ false)
    × (count snapping held.leases ≡ 1)
holding_excludes_example = holding_excludes held-Reach (omega arith)

quiet_reopens_example :
    (over.gate ≡ record { snapshot_on = false; in_flight = 0 })
    × ((begin_command over.gate).0 ≡ granted)
quiet_reopens_example = quiet_reopens over-Reach refl refl
