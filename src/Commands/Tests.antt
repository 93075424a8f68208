-- ===== src/Commands/Tests.antt =====
-- Sizes and commands that are read.
use srv.Commands.Shape.{shape_read, shape_args}
use srv.Commands.SizedArgs.{parse_sized_instance_args}
use srv.Commands.Rounding.{Rounded, mib_ceil_bounds}
use srv.Commands.Exact.{parse_size_exact}
use srv.Base.Int.{pos}
use srv.Commands.Text.{digits_of, decimal, after_digits, to_lower}
use srv.Commands.Retry.{retry_command_read, retry_args}
use srv.Commands.PoolArgs.{read, parse_pool_size_args}
use srv.Model.Memory.{codes, trim_space}
use srv.Commands.Size.{max_int64, size, multiplier, bytes_to_mib_ceil, parse_size}
use srv.Base.{leb, false, [], true, ◌+◌, ◌<◌, arith, some, ◌*◌, refl, ◌≤◌, ◌≡◌, ℕ}

reads_kib : parse_size (codes " 5KiB") 1048576 ≡ size 5120
unfolding parse_size multiplier
reads_kib = refl

parse_size_exact_example :
    let trimmed = trim_space (codes " 5KiB") in
    (m : ℕ) × (multiplier 1048576 (to_lower (trim_space (after_digits trimmed))) ≡ some m)
    × (5120 ≡ decimal 0 (digits_of trimmed) * m)
    × (0 < 5120)
    × (5120 ≤ max_int64)
parse_size_exact_example = parse_size_exact (codes " 5KiB") 1048576 5120 (omega arith) reads_kib

retry_command_read_example :
    parse_pool_size_args (retry_args (codes "pool") (codes "resize") (codes "web") 4096)
    ≡ read (codes "web", 4096)
retry_command_read_example =
    retry_command_read (codes "pool") (codes "resize") (codes "web") 4096 refl refl (omega arith)
      (omega arith)

mib_ceil_bounds_example :
    Rounded (leb (max_int64 + 1048575) max_int64) max_int64 (bytes_to_mib_ceil max_int64)
mib_ceil_bounds_example = mib_ceil_bounds max_int64 (omega arith)

shape_read_example :
    parse_sized_instance_args (shape_args (codes "resize") (codes "web") 2 5000000 4096)
    ≡ read (record {
      name = codes "web";
      vcpu_count = pos 2;
      memory_mib = pos 5;
      memory_pool_name = [];
      fixed_memory = false;
      rootfs_size_bytes = 4096;
      seen_cpus = true;
      seen_ram = true;
      seen_pool = false;
      seen_rootfs_size = true;
    })
shape_read_example =
    shape_read (codes "resize") (codes "web") 2 5000000 4096 refl refl (omega arith)
      (omega arith, omega arith) (omega arith, omega arith)
