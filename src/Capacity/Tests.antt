-- ===== src/Capacity/Tests.antt =====
-- Admissions on a host with 2 GiB.
use srv.Capacity.Admission.{
  admitted_within_budget, pools_hold, instances_hold, admitted_beyond_int64,
}
use srv.Capacity.{ensure_host_memory_reservation_capacity}
use srv.Model.{MemoryPool}
use srv.Base.Int.{pos, ℤ}
use srv.Base.{◌-◌, ◌≤◌, ◌+◌, arith, ◌↔◌, true, ◌≡◌, string_eq, ◌∷◌, [], false, ◌==◌, Bool, String}

abbrev same_name : String → String → Bool
same_name a b = a == b

abbrev none_exists : ℤ → Bool
none_exists pid = false

abbrev small_pool : MemoryPool
small_pool = record {
  id = "p";
  name = "p";
  reserved_bytes = pos 1073741824;
  created_at = 0;
  updated_at = 0;
  created_by_user = "";
  created_by_node = "";
}

admitted_within_budget_example :
    (ensure_host_memory_reservation_capacity same_name none_exists 2147483648 ""
        (pos 512)
        []
        (small_pool ∷ [])
        1048576
      ≡ true)
    ↔ (instances_hold same_name none_exists "" (pos 512) [] + pools_hold (small_pool ∷ []) + 1048576
        ≤ 2147483648 - 536870912)
admitted_within_budget_example =
    admitted_within_budget same_name none_exists 2147483648 "" (pos 512) [] (small_pool ∷ [])
      1048576 (omega arith)

-- the largest size that a command can name
admitted_beyond_int64_example :
    ensure_host_memory_reservation_capacity same_name none_exists 2147483648 ""
      (pos 512)
      []
      (small_pool ∷ [])
      9223372036854775807
    ≡ true
admitted_beyond_int64_example =
    admitted_beyond_int64 same_name none_exists 2147483648 "" (pos 512) [] (small_pool ∷ [])
      9223372036854775807 (omega arith) (omega arith)
