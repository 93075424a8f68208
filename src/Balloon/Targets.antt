-- ===== src/Balloon/Targets.antt =====
-- How far a balloon target may go, and how fast it moves.
use srv.Base.{◌⊎◌, ℕ, ◌+◌, ◌-◌, ◌/◌, ◌≤◌, ◌<◌, max, ◌≡◌, some, arith, nat_eq}
use srv.Base.Int.{pos}
use native.Mathlib.Nat.{mod-lt}
use srv.Balloon.{
  max_target_change_mib, bytes_to_mib_floor, bytes_to_mib_ceil, round_down_to_multiple,
  round_up_to_multiple, headroom_mib, Report, report_target, move_target, clamped_target,
  next_balloon_target_mib,
}

pub round_down_le : (v m : ℕ) → round_down_to_multiple v m ≤ v
unfolding round_down_to_multiple
round_down_le v m = ground arith

pub round_down_near : (v m : ℕ) → 0 < m → v < round_down_to_multiple v m + m
unfolding round_down_to_multiple
round_down_near v m h = ground (arith, mod-lt v h)

round_up_bounds :
    (v m : ℕ) → 0 < m → (v ≤ round_up_to_multiple v m) × (round_up_to_multiple v m < v + m)
unfolding round_up_to_multiple
round_up_bounds v m h = ground (arith, mod-lt v h)

-- A target that desiredBalloonTargetMiB advises is at most half the guest (and at least 1 MiB may be
-- asked of any guest), leaves the guest its headroom of available memory unless it is 0, never adds
-- to an unfinished adjustment, and comes with a step from 1 to 64 MiB.
pub report_target_bounds :
    (r : Report) {target step : ℕ}
    → report_target r ≡ some (target, step)
    → (target ≤ max (bytes_to_mib_ceil r.total / 2) 1)
      × (target
          ≤ r.actual + bytes_to_mib_floor r.available - headroom_mib (bytes_to_mib_ceil r.total))
      × ((r.actual ≡ r.target) ⊎ (target ≤ r.target))
      × (1 ≤ step)
      × (step ≤ 64)
unfolding report_target
report_target_bounds r h = ground arith

pub move_target_bounds :
    (c d st : ℕ)
    → 0 < st
    → (c ≤ d
        → (c ≤ move_target c d st)
          × (move_target c d st ≤ d)
          × (move_target c d st ≤ c + max st max_target_change_mib))
      × (d ≤ c
          → (d ≤ move_target c d st)
            × (move_target c d st ≤ c)
            × (c ≤ move_target c d st + max st max_target_change_mib))
unfolding move_target
move_target_bounds c d st h =
    ((λ le. ground (arith, round_down_le 512 st)), (λ le. ground (arith, round_down_le 512 st)))

clamped_bounds :
    (c d st : ℕ)
    → 0 < st
    → (c ≤ d
        → (c ≤ clamped_target c d st)
          × (clamped_target c d st ≤ d)
          × (clamped_target c d st ≤ c + max st max_target_change_mib))
      × (d ≤ c
          → (clamped_target c d st ≤ c)
            × (d < clamped_target c d st + st)
            × (c ≤ clamped_target c d st + max st max_target_change_mib))
unfolding clamped_target
clamped_bounds c d st h = (
  (λ le. ground (arith, mod-lt c h, round_down_le 512 st)),
  (λ le. ground (arith, mod-lt c h, round_down_le 512 st)),
)

clamped_moves :
    (c d st : ℕ)
    → 0 < st
    → (c + st ≤ d → c < clamped_target c d st)
      × (d + st ≤ c → clamped_target c d st < c)
      × (c ≡ d → clamped_target c d st ≡ c)
unfolding clamped_target
clamped_moves c d st h =
    ((λ le. ground (arith, mod-lt c h)), (λ le. ground (arith, mod-lt c h)), (λ e. ground arith))

-- Upwards a move never goes back, never passes the desired target, and goes by at most the larger
-- of the step and 512 MiB; at least a step away from the desired target it does move.
pub next_balloon_target_rises :
    (c d st : ℕ)
    → 0 < st
    → c ≤ d
    → let next = next_balloon_target_mib (pos c) (pos d) (pos st) in
      (c ≤ next)
      × (next ≤ d)
      × (next ≤ c + max st max_target_change_mib)
      × ((d < c + st) ⊎ (c < next))
unfolding next_balloon_target_mib
next_balloon_target_rises c d st h le =
    let e : max 1 st ≡ st = omega arith in
    let b = (clamped_bounds c d st h).0 le in
    rw e (b.0, b.1, b.2, ground (arith, (clamped_moves c d st h).0))

-- Downwards a move never goes up, passes the desired target by less than a step, and goes by at most
-- the larger of the step and 512 MiB; at least a step away from the desired target it does move.
pub next_balloon_target_falls :
    (c d st : ℕ)
    → 0 < st
    → d ≤ c
    → let next = next_balloon_target_mib (pos c) (pos d) (pos st) in
      (next ≤ c)
      × (d < next + st)
      × (c ≤ next + max st max_target_change_mib)
      × ((c < d + st) ⊎ (next < c))
unfolding next_balloon_target_mib
next_balloon_target_falls c d st h le =
    let e : max 1 st ≡ st = omega arith in
    let b = (clamped_bounds c d st h).1 le in
    rw e (b.0, b.1, b.2, ground (arith, (clamped_moves c d st h).1))
