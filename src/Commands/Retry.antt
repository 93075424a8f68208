-- ===== src/Commands/Retry.antt =====
-- A pending resize of a pool refuses another size with a command to type: "pool resize NAME --size
-- NB". Here that command is read back, by internal/service/pools.go.
use srv.Model.Memory.{codes, trim_space}
use srv.Commands.PoolArgs.{
  is_option, read, take_option, Seen, read_args, parse_pool_size_args, take_name,
}
use srv.Commands.Size.{of_trimmed, scaled, size, with_number, max_int64, multiplier, parse_size}
use srv.Commands.Decimal.{decimal-print_digits, print_digits-all_digits, print_number}
use srv.Base.{◌∙◌, ap, false, refl, suc, true, [], arith, some, ◌++◌, ◌<◌, ◌∷◌, ◌≡◌, List, ◌≤◌, ℕ}
use srv.Commands.Text.{
  digits-solid, solid-trim_space, after-append, digits-append, same_text, to_lower, after_digits,
  decimal, digits_of, Text,
}

-- %dB
abbrev pub print_size : ℕ → Text
print_size n = print_number n ++ codes "B"

-- the arguments of the command, after the name of the pool
abbrev pub retry_args : Text → Text → Text → ℕ → List Text
retry_args command subcommand name n =
    command ∷ subcommand ∷ name ∷ codes "--size" ∷ print_size n ∷ []

number_lem :
    (n unit : ℕ) (ds rest : Text)
    → decimal 0 ds ≡ n
    → 0 < n
    → n ≤ max_int64
    → with_number unit ds rest ≡ scaled n (multiplier unit (to_lower (trim_space rest)))
number_lem n unit [] rest e p m = absurd (omega arith)
number_lem n unit (d ∷ ds) rest e p m = rw (e) (ground (arith, p, m))

trimmed_lem :
    (n unit : ℕ) (value : Text)
    → decimal 0 (digits_of value) ≡ n
    → 0 < n
    → of_trimmed unit value ≡ with_number unit (digits_of value) (after_digits value)
trimmed_lem n unit [] e p = absurd (omega arith)
trimmed_lem n unit (c ∷ cs) e p = refl

number_digits : (n : ℕ) → digits_of (print_size n) ≡ print_number n
number_digits n =
    digits-append (print_number n) (codes "B") (print_digits-all_digits (suc n) n) refl

number_rest : (n : ℕ) → after_digits (print_size n) ≡ codes "B"
number_rest n = after-append (print_number n) (codes "B") (print_digits-all_digits (suc n) n) refl

byte_unit : (unit : ℕ) → multiplier unit (to_lower (trim_space (codes "B"))) ≡ some 1
unfolding multiplier
byte_unit unit = refl

one_byte : (n : ℕ) → n ≤ max_int64 → scaled n (some 1) ≡ size n
one_byte n m = ground (arith, m)

-- parseSize reads the size that is printed as a number of bytes, when it is positive and fits 64
-- bits, whatever the default unit.
pub parse-print_size :
    (n unit : ℕ) → 0 < n → n ≤ max_int64 → parse_size (print_size n) unit ≡ size n
unfolding parse_size
parse-print_size n unit p m =
    let back = decimal-print_digits (suc n) n (omega arith) in
    let trimmed =
      solid-trim_space (print_size n)
        (digits-solid (print_number n) (codes "B") (print_digits-all_digits (suc n) n) refl) in
    ap (of_trimmed unit) trimmed
    ∙ trimmed_lem n unit (print_size n) (rw (number_digits n) back) p
    ∙ ap (λ (ds : Text). with_number unit ds (after_digits (print_size n))) (number_digits n)
    ∙ ap (with_number unit (print_number n)) (number_rest n)
    ∙ number_lem n unit (print_number n) (codes "B") back p m
    ∙ ap (scaled n) (byte_unit unit)
    ∙ one_byte n m

name_taken :
    (seen : Seen) (name : Text)
    → same_text seen.name [] ≡ true
    → take_name seen name ≡ read (record seen { name = name })
unfolding take_name
name_taken seen name e = rw (e) refl

-- The command that a pending resize names, "pool resize NAME --size NB", is read as that name and
-- that size, for a name that is not empty and does not start with two dashes, and a positive size
-- that fits 64 bits.
pub retry_command_read :
    (command subcommand name : Text) (n : ℕ)
    → same_text name [] ≡ false
    → is_option name ≡ false
    → 0 < n
    → n ≤ max_int64
    → parse_pool_size_args (retry_args command subcommand name n) ≡ read (name, n)
unfolding parse_pool_size_args read_args take_name take_option
retry_command_read command subcommand name n e o p m =
    rw (o, parse-print_size n 1048576 p m, e) refl
