-- ===== src/Capacity/Admission.antt =====
-- What ensureHostMemoryReservationCapacity of internal/provision/provision.go admits.
use srv.Base.Int.{pos, ltb_ℤ, ℤ}
use srv.Capacity.{
  signed, budget_bytes, measure, ensure_host_memory_reservation_capacity, sum_reserved_capacity,
  total_reserved_host_memory_bytes, word_of, sum_pools, word,
}
use srv.Base.{
  refl, inr, ◌-◌, ◌↔◌, inl, true, Bool-cases, not, [], arith, if◌then◌else◌, ◌<◌, ◌≤◌, ◌+◌, ◌≡◌,
  Bool, ◌∷◌, ℕ, List, String,
}
use srv.Model.{Instance, MemoryPool}

word_add : (a b : ℕ) → word (a + word b) ≡ word (a + b)
word_add a b = omega arith

word_sum : (a b : ℕ) → word (word a + word b) ≡ word (a + b)
word_sum a b = omega arith

-- what pools hold, as a number that does not wrap around
abbrev pub pools_hold : List MemoryPool → ℕ
pools_hold [] = 0
pools_hold (p ∷ ps) = word_of p.reserved_bytes + pools_hold ps

sum_pools_lem : (ps : List MemoryPool) → sum_pools ps ≡ word (pools_hold ps)
unfolding sum_pools
sum_pools_lem [] = refl
sum_pools_lem (p ∷ ps) = rw (sum_pools_lem ps) (word_add (word_of p.reserved_bytes) (pools_hold ps))

module _ (equal_fold : String → String → Bool) (process_exists : ℤ → Bool) where
  -- what instances hold, but for the excluded one
  abbrev pub instances_hold : String → ℤ → List Instance → ℕ
  instances_hold exclude config [] = 0
  instances_hold exclude config (i ∷ is) =
      let rest = instances_hold exclude config is in
      if equal_fold i.name exclude then rest else measure equal_fold process_exists config i + rest

  sum_reserved_lem :
      (exclude : String) (config : ℤ) (is : List Instance)
      → sum_reserved_capacity equal_fold process_exists exclude config is
        ≡ word (instances_hold exclude config is)
  unfolding sum_reserved_capacity
  sum_reserved_lem exclude config [] = refl
  sum_reserved_lem exclude config (i ∷ is) = elim (Bool-cases (equal_fold i.name exclude)) [
    | inl e ↦ rw (e) (sum_reserved_lem exclude config is)
    | inr e ↦
        rw (e, sum_reserved_lem exclude config is)
          (word_add (measure equal_fold process_exists config i) (instances_hold exclude config is))
  ]

  total_lem :
      (exclude : String) (config : ℤ) (is : List Instance) (ps : List MemoryPool)
      → total_reserved_host_memory_bytes equal_fold process_exists exclude config is ps
        ≡ word (instances_hold exclude config is + pools_hold ps)
  unfolding total_reserved_host_memory_bytes
  total_lem exclude config is ps =
      rw (sum_reserved_lem exclude config is, sum_pools_lem ps)
        (word_sum (instances_hold exclude config is) (pools_hold ps))

  -- the sum of the test, where the sums fit a word
  compared :
      (exclude : String) (config : ℤ) (is : List Instance) (ps : List MemoryPool) (requested : ℕ)
      → instances_hold exclude config is + pools_hold ps + requested < 18446744073709551616
      → word (
          total_reserved_host_memory_bytes equal_fold process_exists exclude config is ps
          + requested)
        ≡ instances_hold exclude config is + pools_hold ps + requested
  compared exclude config is ps requested h = rw (total_lem exclude config is ps) (omega arith)

  within_lem :
      (budget sum : ℕ)
      → sum < 9223372036854775808
      → (not (ltb_ℤ (pos budget) (signed sum)) ≡ true) ↔ (sum ≤ budget)
  within_lem budget sum h = ground (arith, h)

  beyond_lem :
      (budget sum : ℕ) → 9223372036854775808 ≤ sum → not (ltb_ℤ (pos budget) (signed sum)) ≡ true
  beyond_lem budget sum h = ground (arith, h)

  -- Where the sum of what the instances and pools hold and of the request fits an int64, the request
  -- is admitted exactly when that sum is within the budget, the host's memory less 512 MiB.
  pub admitted_within_budget :
      (total : ℕ) (exclude : String) (config : ℤ) (is : List Instance) (ps : List MemoryPool)
      (requested : ℕ)
      → let sum = instances_hold exclude config is + pools_hold ps + requested in
        sum < 9223372036854775808
        → (ensure_host_memory_reservation_capacity equal_fold process_exists total exclude config is
              ps requested
            ≡ true)
          ↔ (sum ≤ total - 536870912)
  unfolding ensure_host_memory_reservation_capacity budget_bytes
  admitted_within_budget total exclude config is ps requested h =
      rw (compared exclude config is ps requested (omega arith))
        (within_lem (total - 536870912) _ h)

  -- Where that sum is at least 2 ^ 63 and less than 2 ^ 64 it wraps around to a negative number, and
  -- the request is admitted whatever memory the host has.
  pub admitted_beyond_int64 :
      (total : ℕ) (exclude : String) (config : ℤ) (is : List Instance) (ps : List MemoryPool)
      (requested : ℕ)
      → let sum = instances_hold exclude config is + pools_hold ps + requested in
        9223372036854775808 ≤ sum
        → sum < 18446744073709551616
        → ensure_host_memory_reservation_capacity equal_fold process_exists total exclude config is
            ps requested
          ≡ true
  unfolding ensure_host_memory_reservation_capacity budget_bytes
  admitted_beyond_int64 total exclude config is ps requested l h =
      rw (compared exclude config is ps requested h) (beyond_lem (total - 536870912) _ l)
