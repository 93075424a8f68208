-- ===== src/Balloon/Tests.antt =====
-- A guest of 1 GiB and a pool of 4 GiB.
use srv.Balloon.Pool.Budget.{sweep_bounded}
use srv.Balloon.Targets.{report_target_bounds, next_balloon_target_falls, next_balloon_target_rises}
use srv.Base.Int.{pos}
use srv.Balloon.Pool.Sweep.{deflation, inflation, prepare_pool}
use srv.Base.{
  refl, ◌≡◌, ◌-◌, arith, ◌/◌, ◌⊎◌, none, [], false, max, ◌+◌, ◌<◌, String, some, true, ◌∷◌, ◌≤◌,
  List,
}
use srv.Balloon.Pool.Plan.{choose-Allowed, Allowed}
use srv.Balloon.Pool.{round_budget, choose, Reading, Situation}
use srv.Balloon.{
  headroom_mib, bytes_to_mib_floor, bytes_to_mib_ceil, max_target_change_mib, Report,
  next_balloon_target_mib, report_target,
}

abbrev guest : Report
guest = record { target = 0; actual = 0; available = 805306368; total = 1073741824 }

report_target_bounds_example :
    (512 ≤ max (bytes_to_mib_ceil guest.total / 2) 1)
    × (512
        ≤ guest.actual
          + bytes_to_mib_floor guest.available
          - headroom_mib (bytes_to_mib_ceil guest.total))
    × ((guest.actual ≡ guest.target) ⊎ (512 ≤ guest.target))
    × (1 ≤ 64)
    × (64 ≤ 64)
unfolding report_target
report_target_bounds_example = report_target_bounds guest refl

next_balloon_target_rises_example :
    let next = next_balloon_target_mib (pos 0) (pos 640) (pos 64) in
    (0 ≤ next)
    × (next ≤ 640)
    × (next ≤ 0 + max 64 max_target_change_mib)
    × ((640 < 0 + 64) ⊎ (0 < next))
next_balloon_target_rises_example = next_balloon_target_rises 0 640 64 (omega arith) (omega arith)

next_balloon_target_falls_example :
    let next = next_balloon_target_mib (pos 640) (pos 100) (pos 64) in
    (next ≤ 640)
    × (100 < next + 64)
    × (640 ≤ next + max 64 max_target_change_mib)
    × ((640 < 100 + 64) ⊎ (next < 640))
next_balloon_target_falls_example = next_balloon_target_falls 640 100 64 (omega arith) (omega arith)

abbrev busy : Situation
busy = record {
  target = 0;
  actual = 0;
  safe = 512;
  step = 64;
  limit = 4294967296;
  used = 4080218931;
  quiet = 60000000000;
  observed = true;
  to_inflate = 0;
  to_return = 0;
  inflated = 0;
  returned = 0;
}

choose-Allowed_example : Allowed busy (choose false busy)
choose-Allowed_example = choose-Allowed false busy (λ h. absurd (ground arith))

abbrev reading : Reading
reading = record {
  socket = 1;
  cgroup = 1;
  target = 0;
  actual = 0;
  advice = some (512, 64);
  limit = 4294967296;
  used = 4080218931;
  now = 1;
}

abbrev round : List (String × Reading)
round = ("vm", reading) ∷ ("vm", record reading { now = 60000000001 }) ∷ []

sweep_bounded_example :
    let p = prepare_pool 1 4294967296 ("vm" ∷ []) none in
    (inflation round p ≤ round_budget p.limit) × (deflation round p ≤ round_budget p.limit)
sweep_bounded_example = sweep_bounded 1 4294967296 ("vm" ∷ []) none round
