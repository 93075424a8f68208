-- ===== src/Commands/PoolArgs.antt =====
-- parsePoolSizeArgs of internal/service/pools.go.
use srv.Model.Memory.{codes}
use srv.Commands.Text.{same_text, has_prefix, Text}
use srv.Commands.Size.{size, Parsed, parse_size}
use srv.Base.{
  nat_eq, some, ◌||◌, false, none, not, true, ◌==◌, Option, [], if◌then◌else◌, ◌∷◌, ℕ, List, Bool,
}

-- what the loop has read
pub record Seen : Type 0 where
  pub name : Text
  pub size : ℕ
  pub has_size : Bool

pub data Error : Type 0 where
  usage unexpected no_value twice bad_size unknown_option : Error
  takes_no_value bad_number empty_pool : Error

pub data Result (A : Type 0) : Type 0 where
  read : A → Result A
  refused : Error → Result A

-- the part before the first `=`, and the part after it where there is one
abbrev pub cut_key : Text → Text
cut_key [] = []
cut_key (c ∷ cs) = let rest = cut_key cs in if c == 61 then [] else c ∷ rest

abbrev pub cut_value : Text → Option Text
cut_value [] = none
cut_value (c ∷ cs) = let rest = cut_value cs in if c == 61 then some cs else rest

abbrev pub is_option : Text → Bool
is_option arg = has_prefix arg (codes "--")

abbrev pub put_size : Seen → Parsed → Result Seen
put_size seen (size n) = read (record { name = seen.name; size = n; has_size = true })
put_size seen p = refused bad_size

-- the switch over the options
unfoldable pub take_option : Seen → Text → Text → Result Seen
take_option seen key value =
    if not (same_text key (codes "--size"))
    then refused unknown_option
    else if seen.has_size
    then refused twice
    else put_size seen (parse_size value 1048576)

unfoldable pub take_name : Seen → Text → Result Seen
take_name seen arg =
    if not (same_text seen.name []) then refused unexpected else read (record seen { name = arg })

abbrev pub from : {A : Type 0} → Result A → (A → Result A) → Result A
from (read seen) k = k seen
from (refused e) k = refused e

-- an option: `inside` is the value after its `=`, `next` what takes the next argument as its value
abbrev pub take : {A : Type 0} → Option Text → (Text → Result A) → Result A → Result A
take (some value) inside next = inside value
take none inside next = next

-- the loop from one argument on
unfoldable pub read_args : Seen → List Text → Result Seen
read_args seen [] = read seen
read_args seen (arg ∷ []) =
    if not (is_option arg)
    then take_name seen arg
    else take (cut_value arg) (take_option seen (cut_key arg)) (refused no_value)
read_args seen (arg ∷ next ∷ args) =
    let step = λ (s : Seen). read_args s (next ∷ args) in
    let skip = λ (s : Seen). read_args s args in
    if not (is_option arg)
    then from (take_name seen arg) step
    else take (cut_value arg) (λ value. from (take_option seen (cut_key arg) value) step)
        (from (take_option seen (cut_key arg) next) skip)

abbrev pub nothing_seen : Seen
nothing_seen = record { name = []; size = 0; has_size = false }

abbrev pub of_seen : Result Seen → Result (Text × ℕ)
of_seen (refused e) = refused e
of_seen (read seen) =
    if same_text seen.name [] || not seen.has_size
    then refused usage
    else read (seen.name, seen.size)

-- the words after the command and the subcommand
abbrev pub of_rest : List Text → Result (Text × ℕ)
of_rest (a ∷ b ∷ rest) = of_seen (read_args nothing_seen (a ∷ b ∷ rest))
of_rest args = refused usage

unfoldable pub parse_pool_size_args : List Text → Result (Text × ℕ)
parse_pool_size_args (command ∷ subcommand ∷ rest) = of_rest rest
parse_pool_size_args args = refused usage
