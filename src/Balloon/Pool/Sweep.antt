-- ===== src/Balloon/Pool/Sweep.antt =====
-- prepareBalloonPools of balloon_pool.go for one pool, and a sweep over its machines.
use srv.Base.{
  ℕ, ◌+◌, ◌-◌, String, Option, none, some, List, [], ◌∷◌, ◌&&◌, ◌==◌, nat_eq, if◌then◌else◌, false,
}
use srv.Balloon.Pool.{
  BalloonPool, Members, member, Reading, Outcome, skipped, patch, reconcile_pool_balloon,
}

-- prepareBalloonPools for one pool: an old state serves again when the cgroup is the same file with
-- the same limit; the budgets begin anew, and only current members are retained.
abbrev new_pool : ℕ → ℕ → BalloonPool
new_pool identity limit = record {
  identity = identity;
  limit = limit;
  members = [];
  inflated = 0;
  returned = 0;
  saturated = false;
}

abbrev reused_pool : ℕ → ℕ → Option BalloonPool → BalloonPool
reused_pool identity limit none = new_pool identity limit
reused_pool identity limit (some p) =
    if p.identity == identity && p.limit == limit then p else new_pool identity limit

abbrev pub retain : List String → Members → Members
retain [] ms = []
retain (n ∷ ns) ms = (n, member n ms) ∷ retain ns ms

unfoldable pub prepare_pool : ℕ → ℕ → List String → Option BalloonPool → BalloonPool
prepare_pool identity limit names old =
    let p = reused_pool identity limit old in
    record p { inflated = 0; returned = 0; members = retain names p.members }

-- One sweep: the plans of a pool in the order in which they took its mutex.
unfoldable pub sweep : List (String × Reading) → BalloonPool → BalloonPool
sweep [] p = p
sweep ((name, r) ∷ rest) p = sweep rest (reconcile_pool_balloon name r p).1

-- what a command adds to the target of its machine, and what it takes below the balloon's size
abbrev pub increase : Reading → Outcome → ℕ
increase r skipped = 0
increase r (patch d) = d - r.target

abbrev pub decrease : Reading → Outcome → ℕ
decrease r skipped = 0
decrease r (patch d) = r.actual - d

unfoldable pub inflation : List (String × Reading) → BalloonPool → ℕ
inflation [] p = 0
inflation ((name, r) ∷ rest) p =
    increase r (reconcile_pool_balloon name r p).0
    + inflation rest (reconcile_pool_balloon name r p).1

unfoldable pub deflation : List (String × Reading) → BalloonPool → ℕ
deflation [] p = 0
deflation ((name, r) ∷ rest) p =
    decrease r (reconcile_pool_balloon name r p).0
    + deflation rest (reconcile_pool_balloon name r p).1
