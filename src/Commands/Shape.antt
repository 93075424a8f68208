-- ===== src/Commands/Shape.antt =====
-- The arguments that name a shape of a machine, printed and read back.
use srv.Commands.PoolArgs.{read, is_option}
use srv.Commands.Retry.{parse-print_size, print_size}
use srv.Base.Int.{pos}
use srv.Model.Memory.{codes}
use srv.Commands.Size.{bytes_to_mib_ceil, max_int64}
use srv.Commands.Decimal.{decimal-print_digits, print_digits-all_digits, print_number, print_digits}
use srv.Commands.SizedArgs.{
  unsigned, kept_sign, take_sized, take_instance, read_sized, is_nil, parse_int,
  parse_sized_instance_args,
}
use srv.Base.{
  nat_eq, ◌%◌, ◌+◌, ◌==◌, ap, arith, ◌/◌, inr, ◌∙◌, inl, suc, ◌<◌, ltb, true, Bool-cases, refl, [],
  false, some, ◌++◌, ◌∷◌, ◌≡◌, List, ◌≤◌, ℕ,
}
use srv.Commands.Text.{decimal, all_digits, Text}

append_filled : (cs : Text) (c : ℕ) → is_nil (cs ++ (c ∷ [])) ≡ false
append_filled [] c = refl
append_filled (d ∷ ds) c = refl

number_filled : (n : ℕ) → is_nil (print_number n) ≡ false
unfolding print_digits
number_filled n = elim (Bool-cases (ltb n 10)) [
  | inl e ↦ rw (e) refl
  | inr e ↦ rw (e) (append_filled (print_digits n (n / 10)) (48 + n % 10))
]

unsigned_lem :
    (most n : ℕ) (ds : Text)
    → is_nil ds ≡ false
    → all_digits ds ≡ true
    → decimal 0 ds ≡ n
    → n ≤ most
    → unsigned most ds ≡ some n
unsigned_lem most n ds f d e m = rw (f, d, e) ground (arith, m)

digits_lem :
    (ds : Text)
    → is_nil ds ≡ false
    → all_digits ds ≡ true
    → parse_int ds ≡ kept_sign (unsigned max_int64 ds)
unfolding parse_int
digits_lem [] f d = absurd (ground (arith, f))
digits_lem (c ∷ cs) f d = elim (Bool-cases (c == 45)) [
  | inl e ↦ absurd (ground (arith, e, d))
  | inr e ↦ elim (Bool-cases (c == 43)) [
    | inl g ↦ absurd (ground (arith, g, d))
    | inr g ↦ rw (e, g) refl
  ]
]

parse_int-print_number : (n : ℕ) → n ≤ max_int64 → parse_int (print_number n) ≡ some (pos n)
parse_int-print_number n m =
    let ds = print_digits-all_digits (suc n) n in
    digits_lem (print_number n) (number_filled n) ds
    ∙ ap kept_sign (
        unsigned_lem max_int64 n (print_number n) (number_filled n) ds
          (decimal-print_digits (suc n) n (omega arith)) m)

mib_room : (n : ℕ) → n + 1048575 ≤ max_int64 → bytes_to_mib_ceil n ≡ pos ((n + 1048575) / 1048576)
unfolding bytes_to_mib_ceil
mib_room n h = ground (arith, h)

-- the command with its name and three options
abbrev pub shape_args : Text → Text → ℕ → ℕ → ℕ → List Text
shape_args command name cpus ram rootfs =
    command
    ∷ name
    ∷ codes "--cpus"
    ∷ print_number cpus
    ∷ codes "--ram"
    ∷ print_size ram
    ∷ codes "--rootfs-size"
    ∷ print_size rootfs
    ∷ []

-- A command with a name, a number of CPUs, a size of memory and a size of the disk, both printed in
-- bytes, is read as these: the memory is rounded up to whole MiB, and no pool and no fixed memory are
-- chosen. The name is not empty and does not start with two dashes, the sizes are positive, the
-- three numbers fit 64 bits, and so does the memory with a MiB less one byte added.
pub shape_read :
    (command name : Text) (cpus ram rootfs : ℕ)
    → is_nil name ≡ false
    → is_option name ≡ false
    → cpus ≤ max_int64
    → (0 < ram) × (ram + 1048575 ≤ max_int64)
    → (0 < rootfs) × (rootfs ≤ max_int64)
    → parse_sized_instance_args (shape_args command name cpus ram rootfs)
      ≡ read (record {
        name = name;
        vcpu_count = pos cpus;
        memory_mib = pos ((ram + 1048575) / 1048576);
        memory_pool_name = [];
        fixed_memory = false;
        rootfs_size_bytes = rootfs;
        seen_cpus = true;
        seen_ram = true;
        seen_pool = false;
        seen_rootfs_size = true;
      })
unfolding parse_sized_instance_args read_sized take_instance take_sized
shape_read command name cpus ram rootfs f o c r d =
    rw
      (
        o,
        parse_int-print_number cpus c,
        parse-print_size ram 1048576 r.0 (omega (arith, r.1)),
        parse-print_size rootfs 1048576 d.0 d.1,
        f,
        mib_room ram r.1,
      )
      refl
