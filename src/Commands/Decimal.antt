-- ===== src/Commands/Decimal.antt =====
-- The number that fmt prints with %d, and its reading.
use srv.Base.{
  false, refl, zero, and_right, inr, ◌%◌, ◌-◌, and_left, inl, ◌+◌, Bool-cases, ltb, ◌*◌, arith,
  if◌then◌else◌, true, ◌∷◌, ◌++◌, ◌/◌, ◌≡◌, [], suc, ◌<◌, ℕ,
}
use srv.Commands.Text.{is_digit, all_digits, decimal, Text}

-- The fuel bounds the number of digits.
unfoldable pub print_digits : ℕ → ℕ → Text
print_digits zero n = []
print_digits (suc f) n =
    let front = print_digits f (n / 10) in
    if ltb n 10 then (48 + n) ∷ [] else front ++ ((48 + n % 10) ∷ [])

-- A number has fewer digits than its successor.
abbrev pub print_number : ℕ → Text
print_number n = print_digits (suc n) n

decimal-append : (m c : ℕ) (cs : Text) → decimal m (cs ++ (c ∷ [])) ≡ decimal m cs * 10 + (c - 48)
decimal-append m c [] = refl
decimal-append m c (d ∷ ds) = decimal-append (m * 10 + (d - 48)) c ds

all_digits-append :
    (cs : Text) (c : ℕ)
    → all_digits cs ≡ true
    → is_digit c ≡ true
    → all_digits (cs ++ (c ∷ [])) ≡ true
all_digits-append [] c h k = ground (arith, k)
all_digits-append (d ∷ ds) c h k =
    rw
      (
        and_left (is_digit d) (all_digits ds) h,
        all_digits-append ds c (and_right (is_digit d) (all_digits ds) h) k,
      )
      refl

pub print_digits-all_digits : (f n : ℕ) → all_digits (print_digits f n) ≡ true
unfolding print_digits
print_digits-all_digits zero n = refl
print_digits-all_digits (suc f) n = elim (Bool-cases (ltb n 10)) [
  | inl e ↦ rw (e) (ground (arith, e))
  | inr e ↦ rw (e) (
      all_digits-append (print_digits f (n / 10)) (48 + n % 10) (print_digits-all_digits f (n / 10))
        (ground arith))
]

tenth_less : (f n : ℕ) → n < suc f → ltb n 10 ≡ false → n / 10 < f
tenth_less f n h e = ground (arith, h, e)

pub decimal-print_digits : (f n : ℕ) → n < f → decimal 0 (print_digits f n) ≡ n
unfolding print_digits
decimal-print_digits zero n h = absurd (omega arith)
decimal-print_digits (suc f) n h = elim (Bool-cases (ltb n 10)) [
  | inl e ↦ rw (e) (omega arith)
  | inr e ↦
      rw
        (
          e,
          decimal-append 0 (48 + n % 10) (print_digits f (n / 10)),
          decimal-print_digits f (n / 10) (tenth_less f n h e),
        )
        (omega arith)
]
