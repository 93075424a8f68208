-- ===== src/Commands/SizedArgs.antt =====
-- parseSizedInstanceArgs of internal/service/service.go.
use srv.Commands.PoolArgs.{
  from, no_value, take, cut_value, unknown_option, cut_key, is_option, twice, unexpected,
  bad_number, bad_size, empty_pool, takes_no_value, usage, read, refused, Result,
}
use srv.Commands.Size.{parse_size, max_int64, bytes_to_mib_ceil, size, Parsed}
use srv.Base.Int.{negsuc, pos, ℤ}
use srv.Model.Memory.{codes, trim_space}
use srv.Commands.Text.{decimal, all_digits, same_text, Text}
use srv.Base.{
  leb, nat_eq, zero, false, not, suc, ◌==◌, ◌||◌, if◌then◌else◌, none, some, ◌∷◌, Option, [], true,
  ℕ, List, Bool,
}

-- what the loop has read: the options, and which of them it has seen
pub record Sized : Type 0 where
  pub name : Text
  pub vcpu_count : ℤ
  pub memory_mib : ℤ
  pub memory_pool_name : Text
  pub fixed_memory : Bool
  pub rootfs_size_bytes : ℕ
  pub seen_cpus : Bool
  pub seen_ram : Bool
  pub seen_pool : Bool
  pub seen_rootfs_size : Bool

abbrev pub is_nil : Text → Bool
is_nil [] = true
is_nil (c ∷ cs) = false

-- the digits of strconv.ParseInt in base ten, up to a bound
abbrev pub unsigned : ℕ → Text → Option ℕ
unsigned most ds =
    if is_nil ds || not (all_digits ds)
    then none
    else if leb (decimal 0 ds) most
    then some (decimal 0 ds)
    else none

abbrev pub negated : Option ℕ → Option ℤ
negated none = none
negated (some zero) = some (pos 0)
negated (some (suc n)) = some (negsuc n)

abbrev pub kept_sign : Option ℕ → Option ℤ
kept_sign none = none
kept_sign (some n) = some (pos n)

-- strconv.ParseInt(value, 10, 64)
unfoldable pub parse_int : Text → Option ℤ
parse_int [] = none
parse_int (c ∷ cs) =
    if c == 45
    then negated (unsigned 9223372036854775808 cs)
    else if c == 43
    then kept_sign (unsigned max_int64 cs)
    else kept_sign (unsigned max_int64 (c ∷ cs))

abbrev pub put_cpus : Sized → Option ℤ → Result Sized
put_cpus s none = refused bad_number
put_cpus s (some n) = read (record s { vcpu_count = n; seen_cpus = true })

abbrev pub put_ram : Sized → Parsed → Result Sized
put_ram s (size n) = read (record s { memory_mib = bytes_to_mib_ceil n; seen_ram = true })
put_ram s p = refused bad_size

abbrev pub put_rootfs_size : Sized → Parsed → Result Sized
put_rootfs_size s (size n) = read (record s { rootfs_size_bytes = n; seen_rootfs_size = true })
put_rootfs_size s p = refused bad_size

abbrev pub put_pool : Sized → Text → Result Sized
put_pool s pool =
    if is_nil pool
    then refused empty_pool
    else read (record s { memory_pool_name = pool; seen_pool = true })

-- the switch over the options that have a value
unfoldable pub take_sized : Sized → Text → Text → Result Sized
take_sized s key value =
    if same_text key (codes "--cpus")
    then (if s.seen_cpus then refused twice else put_cpus s (parse_int value))
    else if same_text key (codes "--ram")
    then (if s.seen_ram then refused twice else put_ram s (parse_size value 1048576))
    else if same_text key (codes "--pool")
    then (if s.seen_pool then refused twice else put_pool s (trim_space value))
    else if same_text key (codes "--rootfs-size")
    then (if s.seen_rootfs_size
        then refused twice
        else put_rootfs_size s (parse_size value 1048576))
    else refused unknown_option

unfoldable pub take_instance : Sized → Text → Result Sized
take_instance s arg =
    if not (is_nil s.name) then refused unexpected else read (record s { name = arg })

-- --fixed-memory, with what follows an = in the argument
unfoldable pub take_fixed : Sized → Option Text → Result Sized
take_fixed s (some value) = refused takes_no_value
take_fixed s none =
    if s.fixed_memory then refused twice else read (record s { fixed_memory = true })

-- the loop from one argument on
unfoldable pub read_sized : Sized → List Text → Result Sized
read_sized s [] = read s
read_sized s (arg ∷ []) =
    if not (is_option arg)
    then take_instance s arg
    else if same_text (cut_key arg) (codes "--fixed-memory")
    then take_fixed s (cut_value arg)
    else take (cut_value arg) (take_sized s (cut_key arg)) (refused no_value)
read_sized s (arg ∷ next ∷ args) =
    let step = λ (t : Sized). read_sized t (next ∷ args) in
    let skip = λ (t : Sized). read_sized t args in
    if not (is_option arg)
    then from (take_instance s arg) step
    else if same_text (cut_key arg) (codes "--fixed-memory")
    then from (take_fixed s (cut_value arg)) step
    else take (cut_value arg) (λ value. from (take_sized s (cut_key arg) value) step)
        (from (take_sized s (cut_key arg) next) skip)

abbrev pub nothing_sized : Sized
nothing_sized = record {
  name = [];
  vcpu_count = pos 0;
  memory_mib = pos 0;
  memory_pool_name = [];
  fixed_memory = false;
  rootfs_size_bytes = 0;
  seen_cpus = false;
  seen_ram = false;
  seen_pool = false;
  seen_rootfs_size = false;
}

abbrev pub named : Result Sized → Result Sized
named (refused e) = refused e
named (read s) = if is_nil s.name then refused usage else read s

-- The first argument is the command.
unfoldable pub parse_sized_instance_args : List Text → Result Sized
parse_sized_instance_args (command ∷ a ∷ rest) = named (read_sized nothing_sized (a ∷ rest))
parse_sized_instance_args args = refused usage
