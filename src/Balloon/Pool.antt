-- ===== src/Balloon/Pool.antt =====
-- balloon_pool.go: the state of a pool between sweeps, and the plan for one machine. Files are
-- identified by number (os.SameFile), and a moment is its nanosecond.
pub mod Sweep
pub mod Plan
pub mod Budget
use srv.Base.{
  ℕ, ◌+◌, ◌-◌, ◌/◌, min, max, String, Bool, true, false, Option, none, some, List, [], ◌∷◌, not,
  ◌&&◌, ◌||◌, ◌==◌, ◌!=◌, nat_eq, string_eq, ltb, leb, if◌then◌else◌,
}
use srv.Balloon.{max_target_change_mib, bytes_to_mib_floor, round_down_to_multiple}

abbrev pub settle_time : ℕ
settle_time = 10000000000

abbrev pub stall_time : ℕ
stall_time = 30000000000

-- `balloonObservation`
pub record Observation : Type 0 where
  pub socket : ℕ
  pub cgroup : ℕ
  pub target : ℕ
  pub actual : ℕ
  pub changed : ℕ
  pub progress : ℕ

abbrev pub Members : Type 0
Members = List (String × Option Observation)

-- `balloonPool`
pub record BalloonPool : Type 0 where
  pub identity : ℕ
  pub limit : ℕ
  pub members : Members
  pub inflated : ℕ
  pub returned : ℕ
  pub saturated : Bool

abbrev pub member : String → Members → Option Observation
member name [] = none
member name ((k, o) ∷ ms) = if k == name then o else member name ms

abbrev pub set_member : String → Option Observation → Members → Members
set_member name o [] = (name, o) ∷ []
set_member name o ((k, p) ∷ ms) =
    if k == name then (name, o) ∷ ms else (k, p) ∷ set_member name o ms

-- What reconcilePoolBalloon reads on its way: the two files, the device, and the pool's cgroup.
pub record Reading : Type 0 where
  pub socket : ℕ
  pub cgroup : ℕ
  pub target : ℕ
  pub actual : ℕ
  pub advice : Option (ℕ × ℕ)  -- desiredBalloonTargetMiB: the safe target and the step
  pub limit : ℕ
  pub used : ℕ
  pub now : ℕ

abbrev pub stale : Reading → Option Observation → Bool
stale r none = true
stale r (some o) = o.socket != r.socket || o.cgroup != r.cgroup

-- An observation of another socket or cgroup is dropped.
unfoldable pub refresh : Reading → Option Observation → Option Observation
refresh r o = if stale r o then none else o

-- the device's state put into the observation, and whether the guest deflated its balloon
unfoldable pub observe : Reading → Option Observation → Observation × Bool
observe r none = (
  record {
    socket = r.socket;
    cgroup = r.cgroup;
    target = r.target;
    actual = r.actual;
    changed = r.now;
    progress = r.now;
  },
  false,
)
observe r (some o) = (
  record o {
    target = r.target;
    actual = r.actual;
    changed = if r.actual != o.actual || r.target != o.target then r.now else o.changed;
    progress = if r.actual != o.actual || r.target != o.target then r.now else o.progress;
  },
  ltb r.actual o.actual && leb o.target r.target,
)

-- the sums over the members of a pool, and whether each has been observed
pub pending_inflate : Members → ℕ
pending_inflate [] = 0
pending_inflate ((k, none) ∷ ms) = pending_inflate ms
pending_inflate ((k, some o) ∷ ms) = (o.target - o.actual) + pending_inflate ms

pub pending_return : Members → ℕ
pending_return [] = 0
pending_return ((k, none) ∷ ms) = pending_return ms
pending_return ((k, some o) ∷ ms) = (o.actual - o.target) + pending_return ms

pub all_observed : Members → Bool
all_observed [] = true
all_observed ((k, none) ∷ ms) = false
all_observed ((k, some o) ∷ ms) = all_observed ms

unfoldable pub round_budget : ℕ → ℕ
unfolding bytes_to_mib_floor
round_budget limit = min max_target_change_mib (bytes_to_mib_floor limit / 20)

-- What a plan asks of the device, and what it takes from the budgets of the sweep.
pub record Command : Type 0 where
  pub desired : ℕ
  pub granted : ℕ
  pub commanded : ℕ

-- What the branches of a plan know.
pub record Situation : Type 0 where
  pub target : ℕ
  pub actual : ℕ
  pub safe : ℕ
  pub step : ℕ
  pub limit : ℕ
  pub used : ℕ
  pub quiet : ℕ  -- now.Sub(obs.changed)
  pub observed : Bool
  pub to_inflate : ℕ
  pub to_return : ℕ
  pub inflated : ℕ
  pub returned : ℕ

abbrev free_grant : Situation → ℕ
free_grant c =
    let space = bytes_to_mib_floor (c.limit - c.limit / 10 - c.used) - c.to_return in
    let grant = min space (round_budget c.limit - c.returned) in
    if not c.observed || (ltb c.quiet settle_time || c.actual != c.target)
    then 0
    else min grant (c.actual - c.safe)

-- guest headroom: memory goes back within the measured space and the budget
unfoldable pub give_back : Situation → Command
unfolding bytes_to_mib_floor round_down_to_multiple round_budget
give_back c =
    let grant =
      if free_grant c != c.actual - c.safe
      then round_down_to_multiple (free_grant c) c.step
      else free_grant c in
    record { desired = min c.target (c.actual - grant); granted = grant; commanded = 0 }

-- pool pressure: a donor inflates within the excess and the budget
unfoldable pub inflate : Situation → Command
unfolding bytes_to_mib_floor round_down_to_multiple round_budget
inflate c =
    let budget = bytes_to_mib_floor (c.used - (c.limit - c.limit / 4)) - c.to_inflate in
    let allowed = min budget (round_budget c.limit - c.inflated) in
    let delta = round_down_to_multiple (min allowed (c.safe - c.target)) c.step in
    record { desired = c.target + delta; granted = 0; commanded = delta }

abbrev pub hold : Situation → Command
hold c = record { desired = c.target; granted = 0; commanded = 0 }

unfoldable pub choose : Bool → Situation → Command
unfolding give_back inflate
choose cancel c =
    if cancel
    then record { desired = c.actual; granted = 0; commanded = 0 }
    else if ltb c.safe c.target
    then give_back c
    else if c.observed
        && (c.actual == c.target
            && (leb settle_time c.quiet
                && (ltb (c.limit - c.limit / 5) c.used && ltb c.target c.safe)))
    then inflate c
    else hold c

pub data Outcome : Type 0 where
  skipped : Outcome
  patch : ℕ → Outcome

abbrev pub safe_of : Option (ℕ × ℕ) → ℕ
safe_of none = 0
safe_of (some (safe, step)) = safe

abbrev pub step_of : Option (ℕ × ℕ) → ℕ
step_of none = 0
step_of (some (safe, step)) = step

abbrev pub advised : Option (ℕ × ℕ) → Bool
advised none = false
advised (some _) = true

abbrev pub situation : Reading → Observation → Members → BalloonPool → Situation
situation r o ms p = record {
  target = r.target;
  actual = r.actual;
  safe = safe_of r.advice;
  step = min (step_of r.advice) (max 1 (round_budget r.limit));
  limit = r.limit;
  used = r.used;
  quiet = r.now - o.changed;
  observed = all_observed ms;
  to_inflate = pending_inflate ms;
  to_return = pending_return ms;
  inflated = p.inflated;
  returned = p.returned;
}

-- Unfinished inflation that stalled, or that the guest undid.
abbrev pub cancels : Reading → Observation → Bool → Bool
cancels r o shrunk = ltb r.actual r.target && (shrunk || leb stall_time (r.now - o.progress))

-- The command is reserved in the pool before it is sent.
unfoldable pub reserve :
    String → Reading → Observation → Members → BalloonPool → Command → Outcome × BalloonPool
reserve name r o ms p c =
    let p' = record p {
      members = ms;
      inflated = p.inflated + c.commanded;
      returned = p.returned + c.granted;
    } in
    if c.desired == r.target then (skipped, p') else (
      patch c.desired,
      record p' {
        members =
            set_member name
              (some (record o { target = c.desired; changed = r.now; progress = r.now })) ms;
      },
    )

unfoldable pub decide : String → Reading → Observation → Bool → BalloonPool → Outcome × BalloonPool
unfolding choose reserve all_observed pending_inflate pending_return
decide name r o shrunk p =
    let ms = set_member name (some o) p.members in
    if not (advised r.advice) && not (cancels r o shrunk)
    then (skipped, record p { members = ms })
    else reserve name r o ms p (choose (cancels r o shrunk) (situation r o ms p))

-- reconcilePoolBalloon from the check of the files on; a changed limit invalidates the round.
unfoldable pub reconcile_pool_balloon : String → Reading → BalloonPool → Outcome × BalloonPool
unfolding refresh observe decide
reconcile_pool_balloon name r p =
    let old = refresh r (member name p.members) in
    let q = record p {
      members =
          if stale r (member name p.members) then set_member name none p.members else p.members;
    } in
    if r.limit != p.limit then (skipped, q) else decide name r (observe r old).0 (observe r old).1 q
