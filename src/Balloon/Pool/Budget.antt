-- ===== src/Balloon/Pool/Budget.antt =====
-- The budgets of a sweep over a whole pool.
use srv.Base.{
  ℕ, String, List, [], ◌∷◌, ◌+◌, ◌≤◌, ◌<◌, ◌≡◌, refl, inl, inr, Bool, true, Option, none, some, not,
  ◌&&◌, arith, ◌!=◌, nat_eq, if◌then◌else◌, Bool-cases,
}
use srv.Balloon.Pool.{
  BalloonPool, Observation, Members, Reading, Command, Outcome, skipped, refresh, observe, member,
  set_member, decide, reserve, situation, cancels, advised, round_budget, reconcile_pool_balloon,
}
use srv.Balloon.Pool.{stale}
use srv.Balloon.Pool.Sweep.{prepare_pool, sweep, increase, decrease, inflation, deflation}
use srv.Balloon.Pool.Plan.{Allowed, choose-Allowed}

-- How one reconciliation accounts for its command.
pub record Accounts (r : Reading) (p : BalloonPool) (o : Outcome) (p' : BalloonPool) : Type 0 where
  pub same_limit : p'.limit ≡ p.limit
  pub rise : increase r o + p.inflated ≤ p'.inflated
  pub fall : decrease r o + p.returned ≤ p'.returned
  pub inflation_capped : p.inflated ≤ round_budget p.limit → p'.inflated ≤ round_budget p.limit
  pub return_capped : p.returned ≤ round_budget p.limit → p'.returned ≤ round_budget p.limit

reserve-Accounts :
    (name : String) (r : Reading) (o : Observation) (ms : Members) (p : BalloonPool) (k : Command)
    → r.limit ≡ p.limit
    → Allowed (situation r o ms p) k
    → Accounts r p (reserve name r o ms p k).0 (reserve name r o ms p k).1
unfolding reserve
reserve-Accounts name r o ms p k e a = record {
  same_limit = ground arith;
  rise = ground (arith, a.rise);
  fall = ground (arith, a.fall);
  inflation_capped = ground (arith, a.within_inflation);
  return_capped = ground (arith, a.within_return);
}

-- A plan cancels unfinished inflation alone.
cancels_unfinished :
    (r : Reading) (o : Observation) (shrunk : Bool)
    → cancels r o shrunk ≡ true
    → r.actual < r.target
cancels_unfinished r o shrunk h = ground arith

-- A reconciliation that commands nothing and takes nothing from the budgets.
quiet-Accounts :
    (r : Reading) (p : BalloonPool) (ms : Members)
    → Accounts r p skipped (record p { members = ms })
quiet-Accounts r p ms = record {
  same_limit = refl;
  rise = omega arith;
  fall = omega arith;
  inflation_capped = λ h. h;
  return_capped = λ h. h;
}

decide-Accounts :
    (name : String) (r : Reading) (o : Observation) (shrunk : Bool) (p : BalloonPool)
    → r.limit ≡ p.limit
    → Accounts r p (decide name r o shrunk p).0 (decide name r o shrunk p).1
unfolding decide
decide-Accounts name r o shrunk p e =
    elim (Bool-cases (not (advised r.advice) && not (cancels r o shrunk))) [
      | inl idle ↦ rw idle (quiet-Accounts r p _)
      | inr busy ↦ rw busy (
          reserve-Accounts name r o (set_member name (some o) p.members) p _ e
            (choose-Allowed (cancels r o shrunk) _ (cancels_unfinished r o shrunk)))
    ]

-- The members of the pool play no part in its budgets.
through :
    (r : Reading) (p : BalloonPool) (ms : Members) (x : Outcome × BalloonPool)
    → Accounts r (record p { members = ms }) x.0 x.1
    → Accounts r p x.0 x.1
through r p ms x a = record {
  same_limit = a.same_limit;
  rise = a.rise;
  fall = a.fall;
  inflation_capped = a.inflation_capped;
  return_capped = a.return_capped;
}

reconcile-Accounts :
    (name : String) (r : Reading) (p : BalloonPool)
    → Accounts r p (reconcile_pool_balloon name r p).0 (reconcile_pool_balloon name r p).1
unfolding reconcile_pool_balloon
reconcile-Accounts name r p =
    let old = refresh r (member name p.members) in
    let ms =
      if stale r (member name p.members) then set_member name none p.members else p.members in
    elim (Bool-cases (r.limit != p.limit)) [
      | inl moved ↦ rw moved (quiet-Accounts r p ms)
      | inr same ↦ rw same (
          through r p ms
            (decide name r (observe r old).0 (observe r old).1 (record p { members = ms }))
            (decide-Accounts name r (observe r old).0 (observe r old).1 (record p { members = ms })
              (ground arith)))
    ]

sweep_totals :
    (rs : List (String × Reading)) (p : BalloonPool)
    → (inflation rs p + p.inflated ≤ (sweep rs p).inflated)
      × (deflation rs p + p.returned ≤ (sweep rs p).returned)
unfolding sweep inflation deflation
sweep_totals [] p = omega arith
sweep_totals ((name, r) ∷ rs) p =
    let a = reconcile-Accounts name r p in
    let t = sweep_totals rs (reconcile_pool_balloon name r p).1 in
    (omega (arith, a.rise, t.0), omega (arith, a.fall, t.1))

sweep_capped :
    (rs : List (String × Reading)) (p : BalloonPool) (most : ℕ)
    → round_budget p.limit ≡ most
    → p.inflated ≤ most
    → p.returned ≤ most
    → ((sweep rs p).inflated ≤ most) × ((sweep rs p).returned ≤ most)
unfolding sweep
sweep_capped [] p most e a b = (a, b)
sweep_capped ((name, r) ∷ rs) p most e a b =
    let k = reconcile-Accounts name r p in
    sweep_capped rs (reconcile_pool_balloon name r p).1 most (rw k.same_limit e)
      (rw (← e) (k.inflation_capped (rw e a))) (rw (← e) (k.return_capped (rw e b)))

-- In one sweep over a prepared pool, whatever the machines report and in whatever order their plans
-- run, the targets rise together by at most 5 % of the pool's limit and at most 512 MiB, and the
-- balloons are asked to shrink together by at most as much.
pub sweep_bounded :
    (identity limit : ℕ) (names : List String) (old : Option BalloonPool)
    (rs : List (String × Reading))
    → let p = prepare_pool identity limit names old in
      (inflation rs p ≤ round_budget p.limit) × (deflation rs p ≤ round_budget p.limit)
unfolding prepare_pool
sweep_bounded identity limit names old rs =
    let p = prepare_pool identity limit names old in
    let t = sweep_totals rs p in
    let c = sweep_capped rs p (round_budget p.limit) refl (omega arith) (omega arith) in
    (omega (arith, t.0, c.0), omega (arith, t.1, c.1))
