-- ===== src/Commands/Exact.antt =====
-- What parseSize of internal/service/service.go computes.
use native.Mathlib.Nat.{mul-pos, le-div_iff_mul-le}
use mathlib.Core.Path.{subst}
use srv.Commands.Size.{empty, invalid, out_of_range, not_positive, unknown_unit, too_large}
use srv.Model.Memory.{trim_space}
use srv.Commands.Size.{
  max_int64, scaled, with_number, of_trimmed, size, Parsed, multiplier, parse_size,
}
use srv.Base.{
  nat_eq, none, refl, ap, ◌==◌, inl, inr, ◌/◌, leb, Bool-cases, ◌≤◌, [], arith, some, ◌∷◌, ◌*◌, ◌≡◌,
  Option, ◌<◌, ℕ,
}
use srv.Commands.Text.{after_digits, to_lower, decimal, digits_of, Text}

-- A size is the number times its unit, positive, and fits 64 bits.
abbrev Exact : ℕ → Text → Parsed → Type 0
Exact unit value (size n) =
    (m : ℕ) × (multiplier unit (to_lower (trim_space (after_digits value))) ≡ some m)
    × (n ≡ decimal 0 (digits_of value) * m)
    × (0 < n)
    × (n ≤ max_int64)
Exact unit value empty = Unit
Exact unit value invalid = Unit
Exact unit value out_of_range = Unit
Exact unit value not_positive = Unit
Exact unit value unknown_unit = Unit
Exact unit value too_large = Unit

-- Every unit is positive.
multiplier_positive :
    (unit : ℕ) (cs : Text) (m : ℕ) → 0 < unit → multiplier unit cs ≡ some m → 0 < m
unfolding multiplier
multiplier_positive unit cs m u e = ground (arith, u, e)

scaled-Exact :
    (n unit : ℕ) (value : Text) (o : Option ℕ)
    → 0 < unit
    → 0 < n
    → decimal 0 (digits_of value) ≡ n
    → multiplier unit (to_lower (trim_space (after_digits value))) ≡ o
    → Exact unit value (scaled n o)
scaled-Exact n unit value none u p d e = tt
scaled-Exact n unit value (some m) u p d e = elim (Bool-cases (leb n (max_int64 / m))) [
  | inl l ↦
      let q = multiplier_positive unit (to_lower (trim_space (after_digits value))) m u e in
      rw (l) (m, e, rw (d) refl, mul-pos p q, (le-div_iff_mul-le q).0 (ground (arith, l)))
  | inr l ↦ rw (l) tt
]

with_number-Exact :
    (unit : ℕ) (value ds : Text)
    → 0 < unit
    → digits_of value ≡ ds
    → Exact unit value (with_number unit ds (after_digits value))
with_number-Exact unit value [] u e = tt
with_number-Exact unit value (d ∷ ds) u e = elim (Bool-cases (leb (decimal 0 (d ∷ ds)) max_int64)) [
  | inr l ↦ rw (l) tt
  | inl l ↦ elim (Bool-cases (decimal 0 (d ∷ ds) == 0)) [
    | inl z ↦ rw (l, z) tt
    | inr z ↦
        rw (l, z)
          (scaled-Exact (decimal 0 (d ∷ ds)) unit value _ u (ground (arith, z)) (ap (decimal 0) e)
            refl)
  ]
]

of_trimmed-Exact : (unit : ℕ) (value : Text) → 0 < unit → Exact unit value (of_trimmed unit value)
of_trimmed-Exact unit [] u = tt
of_trimmed-Exact unit (c ∷ cs) u = with_number-Exact unit (c ∷ cs) (digits_of (c ∷ cs)) u refl

-- A size that parseSize returns, for a positive default unit, is the number in front, read in base
-- ten, times the unit behind it: nothing has wrapped around, and it is positive and fits 64 bits.
pub parse_size_exact :
    (value : Text) (unit n : ℕ)
    → 0 < unit
    → parse_size value unit ≡ size n
    → let trimmed = trim_space value in
      (m : ℕ) × (multiplier unit (to_lower (trim_space (after_digits trimmed))) ≡ some m)
      × (n ≡ decimal 0 (digits_of trimmed) * m)
      × (0 < n)
      × (n ≤ max_int64)
unfolding parse_size
parse_size_exact value unit n u e =
    subst (λ (p : Parsed). Exact unit (trim_space value) p) e
      (of_trimmed-Exact unit (trim_space value) u)
