-- ===== src/Balloon/Pool/Plan.antt =====
-- What one plan may command.
use srv.Base.{
  ℕ, ◌+◌, ◌-◌, ◌/◌, ◌≤◌, ◌<◌, min, ◌≡◌, refl, ◌⊎◌, inl, inr, Bool, true, false, ◌&&◌, arith, ltb,
  leb, ◌==◌, nat_eq, Bool-cases,
}
use srv.Balloon.{bytes_to_mib_floor}
use srv.Balloon.Targets.{round_down_le}
use srv.Balloon.Pool.{
  Situation, Command, give_back, inflate, choose, free_grant, round_budget, settle_time,
}

pub give_back_bounds :
    (c : Situation)
    → ((give_back c).granted ≤ round_budget c.limit - c.returned)
      × ((give_back c).granted ≤ bytes_to_mib_floor (c.limit - c.limit / 10 - c.used) - c.to_return)
      × ((give_back c).granted ≤ c.actual - c.safe)
      × ((give_back c).commanded ≡ 0)
      × ((give_back c).desired ≡ min c.target (c.actual - (give_back c).granted))
      × (0 < (give_back c).granted
          → (c.observed ≡ true) × (c.actual ≡ c.target) × (settle_time ≤ c.quiet))
unfolding give_back
give_back_bounds c = ground (arith, round_down_le (free_grant c) c.step)

pub inflate_bounds :
    (c : Situation)
    → ((inflate c).commanded ≤ round_budget c.limit - c.inflated)
      × ((inflate c).commanded
          ≤ bytes_to_mib_floor (c.used - (c.limit - c.limit / 4)) - c.to_inflate)
      × ((inflate c).commanded ≤ c.safe - c.target)
      × ((inflate c).desired ≡ c.target + (inflate c).commanded)
      × ((inflate c).granted ≡ 0)
unfolding inflate
inflate_bounds c = ground (
  arith,
  round_down_le
      (min
        (min (bytes_to_mib_floor (c.used - (c.limit - c.limit / 4)) - c.to_inflate)
          (round_budget c.limit - c.inflated))
        (c.safe - c.target))
      c.step,
)

-- A grant that is made is measured, and leaves the guest its headroom.
give_back_measured :
    (c : Situation)
    → c.safe < c.target
    → 0 < (give_back c).granted
    → (c.observed ≡ true)
      × (c.actual ≡ c.target)
      × (settle_time ≤ c.quiet)
      × (c.safe ≤ (give_back c).desired)
      × ((give_back c).granted + c.to_return ≤ bytes_to_mib_floor (c.limit - c.limit / 10 - c.used))
give_back_measured c less some_granted =
    let b = give_back_bounds c in
    let q = b.5 some_granted in
    (q.0, q.1, q.2, rw b.4 (omega (arith, b.2, q.1)), omega (arith, b.1))

only_give_back :
    (cancel : Bool) (c : Situation)
    → 0 < (choose cancel c).granted
    → (choose cancel c ≡ give_back c) × (c.safe < c.target)
unfolding choose
only_give_back cancel c h = ground (arith, inflate_bounds c)

-- What `choose` asks of a donor.
abbrev is_donor : Situation → Bool
is_donor c =
    c.observed
    && (c.actual == c.target
        && (leb settle_time c.quiet && (ltb (c.limit - c.limit / 5) c.used && ltb c.target c.safe)))

donor_facts :
    (c : Situation)
    → is_donor c ≡ true
    → (c.observed ≡ true)
      × (c.actual ≡ c.target)
      × (settle_time ≤ c.quiet)
      × (c.limit - c.limit / 5 < c.used)
      × (c.target < c.safe)
donor_facts c h = ground arith

only_inflate :
    (cancel : Bool) (c : Situation)
    → (cancel ≡ true → c.actual < c.target)
    → c.target < (choose cancel c).desired
    → (choose cancel c ≡ inflate c) × (is_donor c ≡ true)
unfolding choose
only_inflate true c h up = absurd (omega (arith, h refl))
only_inflate false c h up = elim (Bool-cases (ltb c.safe c.target)) [
  | inl less ↦ absurd (
      let k : c.target < (give_back c).desired = rw less at up in omega (arith, give_back_bounds c))
  | inr more ↦ elim (Bool-cases (is_donor c)) [
    | inl d ↦ rw (more, d) (refl, refl)
    | inr n ↦ absurd (let k : c.target < c.target = rw (more, n) at up in omega arith)
  ]
]

-- What a plan may command, given that it cancels only unfinished inflation.
pub record Allowed (c : Situation) (k : Command) : Type 0 where
  pub within_inflation : k.commanded ≤ round_budget c.limit - c.inflated
  pub within_return : k.granted ≤ round_budget c.limit - c.returned
  pub rise : k.desired ≤ c.target + k.commanded
  pub fall : (k.desired ≡ c.target) ⊎ (c.actual ≤ k.desired + k.granted)
  pub donor :
      (k.desired ≤ c.target)
      ⊎ ((c.observed ≡ true)
          × (c.actual ≡ c.target)
          × (settle_time ≤ c.quiet)
          × (c.limit - c.limit / 5 < c.used)
          × (k.desired ≤ c.safe)
          × (k.commanded + c.to_inflate ≤ bytes_to_mib_floor (c.used - (c.limit - c.limit / 4))))
  pub measured :
      (k.granted ≡ 0)
      ⊎ ((c.observed ≡ true)
          × (c.actual ≡ c.target)
          × (settle_time ≤ c.quiet)
          × (c.safe ≤ k.desired)
          × (k.granted + c.to_return ≤ bytes_to_mib_floor (c.limit - c.limit / 10 - c.used)))

-- An excess over a bound, or not.
above : (a b : ℕ) → (a ≤ b) ⊎ (b < a)
above a b = omega arith

-- A plan that cancels only unfinished inflation stays within the budgets of the sweep; it raises a
-- target only for a settled machine of a fully observed pool above 80 % of its limit, up to the
-- target that is safe for the guest; and what it grants is measured below 90 % of the limit.
pub choose-Allowed :
    (cancel : Bool) (c : Situation)
    → (cancel ≡ true → c.actual < c.target)
    → Allowed c (choose cancel c)
unfolding choose
choose-Allowed cancel c h = record {
  within_inflation = ground (arith, h, give_back_bounds c, inflate_bounds c);
  within_return = ground (arith, h, give_back_bounds c, inflate_bounds c);
  rise = ground (arith, h, give_back_bounds c, inflate_bounds c);
  fall = ground (arith, h, give_back_bounds c, inflate_bounds c);
  donor = elim (above (choose cancel c).desired c.target) [
    | inl low ↦ inl low
    | inr up ↦
        let o = only_inflate cancel c h up in
        let d = donor_facts c o.1 in
        let b = inflate_bounds c in
        rw o.0 (
          inr (
            d.0,
            d.1,
            d.2,
            d.3,
            omega (arith, b.2, b.3, d.4),
            omega (arith, b.1, b.3, rw o.0 at up),
          ))
  ];
  measured = elim (above (choose cancel c).granted 0) [
    | inl none_granted ↦ inl (omega arith)
    | inr down ↦
        let o = only_give_back cancel c down in
        rw o.0 (inr (give_back_measured c o.1 (rw o.0 at down)))
  ];
}
