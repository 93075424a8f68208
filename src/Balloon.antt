-- ===== src/Balloon.antt =====
-- The memory balloons of internal/vmrunner: vmrunner.go (targets) and balloon_pool.go (pools).
-- Amounts are non-negative where the code has clamped or tested them, so they are naturals; they
-- stay below 2^62, so no int64 sum overflows.
pub mod Pool
pub mod Targets
mod Tests
use srv.Base.{
  ℕ, suc, ◌+◌, ◌-◌, ◌*◌, ◌/◌, ◌%◌, min, max, Bool, true, false, Option, none, some, not, ◌&&◌, ◌||◌,
  ◌==◌, ◌!=◌, nat_eq, ltb, leb, if◌then◌else◌,
}
use srv.Base.Int.{ℤ, pos, negsuc, pos_part}

abbrev pub mib_bytes : ℕ
mib_bytes = 1048576

abbrev pub max_target_change_mib : ℕ
max_target_change_mib = 512

abbrev pub guest_headroom_floor_mib : ℕ
guest_headroom_floor_mib = 256

unfoldable pub bytes_to_mib_floor : ℕ → ℕ
bytes_to_mib_floor bytes = bytes / mib_bytes

unfoldable pub bytes_to_mib_ceil : ℕ → ℕ
bytes_to_mib_ceil bytes = (bytes + (mib_bytes - 1)) / mib_bytes

unfoldable pub round_down_to_multiple : ℕ → ℕ → ℕ
round_down_to_multiple value multiple = if leb multiple 1 then value else value - value % multiple

unfoldable pub round_up_to_multiple : ℕ → ℕ → ℕ
round_up_to_multiple value multiple =
    if leb multiple 1
    then value
    else if value % multiple == 0
    then value
    else value + multiple - value % multiple

unfoldable pub balloon_adjustment_step_mib : ℕ → ℕ
balloon_adjustment_step_mib guest_total_mib = max 1 (min 64 (max (guest_total_mib / 8) 1))

-- `firecrackerBalloonStats`: a missing statistic is `none`.
pub record BalloonStats : Type 0 where
  pub target_mib : Option ℤ
  pub actual_mib : Option ℤ
  pub available_memory : Option ℤ
  pub total_memory : ℤ

-- the values of a report that is complete and not negative
pub record Report : Type 0 where
  pub target : ℕ
  pub actual : ℕ
  pub available : ℕ
  pub total : ℕ

abbrev non_negative : Option ℤ → Option ℕ
non_negative none = none
non_negative (some (pos n)) = some n
non_negative (some (negsuc n)) = none

abbrev make_report : Option ℕ → Option ℕ → Option ℕ → ℤ → Option Report
make_report (some t) (some a) (some v) (pos (suc n)) =
    some (record { target = t; actual = a; available = v; total = suc n })
make_report _ _ _ _ = none

-- The first two tests of desiredBalloonTargetMiB, but for the bound on available memory.
unfoldable pub read_report : BalloonStats → Option Report
read_report s =
    make_report (non_negative s.target_mib) (non_negative s.actual_mib)
      (non_negative s.available_memory) s.total_memory

unfoldable pub headroom_mib : ℕ → ℕ
headroom_mib guest_total_mib = max guest_headroom_floor_mib (guest_total_mib / 8)

abbrev bounded_target : Report → ℕ → ℕ
bounded_target r total =
    min (r.actual + bytes_to_mib_floor r.available - headroom_mib total) (max (total / 2) 1)

-- the target that leaves the guest its headroom, and the step for movements
unfoldable pub report_target : Report → Option (ℕ × ℕ)
unfolding bytes_to_mib_floor bytes_to_mib_ceil balloon_adjustment_step_mib headroom_mib
report_target r =
    let total = bytes_to_mib_ceil r.total in
    if ltb r.total r.available
    then none
    else if ltb total r.actual || ltb total r.target
    then none
    else some (
      (if r.actual != r.target
          then min (bounded_target r total) r.target
          else bounded_target r total),
      balloon_adjustment_step_mib total,
    )

abbrev of_report : Option Report → Option (ℕ × ℕ)
of_report none = none
of_report (some r) = report_target r

-- `none` is the answer (0, 0, false).
unfoldable pub desired_balloon_target_mib : BalloonStats → Option (ℕ × ℕ)
unfolding read_report report_target
desired_balloon_target_mib s = of_report (read_report s)

-- one move from a target that is a multiple of the step
unfoldable pub move_target : ℕ → ℕ → ℕ → ℕ
unfolding round_down_to_multiple
move_target current desired step =
    let delta = max current desired - min current desired in
    let most = max step (round_down_to_multiple max_target_change_mib step) in
    if ltb delta step
    then current
    else if ltb current desired
    then current + min delta most
    else current - min delta most

unfoldable pub clamped_target : ℕ → ℕ → ℕ → ℕ
unfolding move_target round_down_to_multiple round_up_to_multiple
clamped_target current desired step =
    if current == desired
    then current
    else if current % step != 0
    then (if ltb desired current
        then round_down_to_multiple current step
        else min (round_up_to_multiple current step) desired)
    else move_target current desired step

unfoldable pub next_balloon_target_mib : ℤ → ℤ → ℤ → ℕ
unfolding clamped_target
next_balloon_target_mib current desired step =
    clamped_target (pos_part current) (pos_part desired) (max 1 (pos_part step))
