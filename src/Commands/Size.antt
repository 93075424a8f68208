-- ===== src/Commands/Size.antt =====
-- parseSize of internal/service/service.go.
use srv.Base.Int.{negsuc, pos, ℤ}
use srv.Model.Memory.{codes, trim_space}
use srv.Commands.Text.{to_lower, after_digits, same_text, decimal, digits_of, Text}
use srv.Base.{
  ◌-◌, ◌+◌, nat_eq, ◌*◌, ◌/◌, ◌==◌, [], leb, none, not, ◌||◌, Bool, if◌then◌else◌, some, Option,
  String, ◌∷◌, ℕ,
}

-- the results of parseSize; the number is a positive int64
pub data Parsed : Type 0 where
  size : ℕ → Parsed
  empty invalid out_of_range not_positive unknown_unit too_large : Parsed

-- math.MaxInt64
abbrev pub max_int64 : ℕ
max_int64 = 9223372036854775807

abbrev is_unit : Text → String → Bool
is_unit cs u = same_text cs (codes u)

-- the map of multipliers; `none` is a key that it does not have
unfoldable pub multiplier : ℕ → Text → Option ℕ
multiplier default_unit cs =
    if is_unit cs ""
    then some default_unit
    else if is_unit cs "b"
    then some 1
    else if is_unit cs "k" || (is_unit cs "kb" || is_unit cs "kib")
    then some 1024
    else if is_unit cs "m" || (is_unit cs "mb" || is_unit cs "mib")
    then some 1048576
    else if is_unit cs "g" || (is_unit cs "gb" || is_unit cs "gib")
    then some 1073741824
    else if is_unit cs "t" || (is_unit cs "tb" || is_unit cs "tib")
    then some 1099511627776
    else none

abbrev pub scaled : ℕ → Option ℕ → Parsed
scaled n none = unknown_unit
scaled n (some m) = if not (leb n (max_int64 / m)) then too_large else size (n * m)

-- strconv.ParseInt of the digits, and what follows
abbrev pub with_number : ℕ → Text → Text → Parsed
with_number default_unit [] rest = invalid
with_number default_unit (d ∷ ds) rest =
    let n = decimal 0 (d ∷ ds) in
    if not (leb n max_int64)
    then out_of_range
    else if n == 0
    then not_positive
    else scaled n (multiplier default_unit (to_lower (trim_space rest)))

abbrev pub of_trimmed : ℕ → Text → Parsed
of_trimmed default_unit [] = empty
of_trimmed default_unit (c ∷ cs) =
    with_number default_unit (digits_of (c ∷ cs)) (after_digits (c ∷ cs))

unfoldable pub parse_size : Text → ℕ → Parsed
parse_size value default_unit = of_trimmed default_unit (trim_space value)

-- bytesToMiBCeil: the sum of an int64 wraps around, and the quotient is rounded towards zero.
unfoldable pub bytes_to_mib_ceil : ℕ → ℤ
bytes_to_mib_ceil n =
    let sum = n + 1048575 in
    if leb sum max_int64
    then pos (sum / 1048576)
    else negsuc ((18446744073709551616 - sum) / 1048576 - 1)  -- the quotient is at least 1
