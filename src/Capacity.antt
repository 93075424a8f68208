-- ===== src/Capacity.antt =====
-- ensureHostMemoryReservationCapacity of internal/provision/provision.go and what it sums. An int64
-- is kept as its word of 64 bits, so that sums wrap around as in the source.
pub mod Admission
mod Tests
use srv.Model.State.{state_eq}
use srv.Model.Memory.{mode_fixed, normalize_memory_mode}
use srv.Model.State.{
  deleting, ready, awaiting_guest, stopping, awaiting_tailnet, provisioning, State,
}
use srv.Base.Int.{ltb_ℤ, negsuc, pos, ℤ}
use srv.Base.{
  string_eq, ◌&&◌, true, false, nat_eq, [], ◌*◌, ◌||◌, ◌!=◌, ◌+◌, ◌/◌, ◌∷◌, List, leb, ltb, not,
  ◌-◌, ◌==◌, Bool, if◌then◌else◌, String, ◌%◌, ℕ,
}
use srv.Model.{Instance, MemoryPool}

abbrev pub word : ℕ → ℕ
word n = n % 18446744073709551616

-- the int64 of a word
abbrev pub signed : ℕ → ℤ
signed w = if leb w 9223372036854775807 then pos w else negsuc (18446744073709551615 - w)

abbrev pub word_of : ℤ → ℕ
word_of (pos n) = word n
word_of (negsuc n) = word (18446744073709551615 - n)

-- the states in which a start that was requested holds its memory
abbrev pub is_starting : State → Bool
is_starting s = s == provisioning || (s == awaiting_tailnet || (s == awaiting_guest || s == ready))

-- FixedMemoryLimitBytes of internal/vmrunner/vmrunner.go
unfoldable pub fixed_memory_limit_bytes : ℤ → ℕ
fixed_memory_limit_bytes (negsuc n) = 0
fixed_memory_limit_bytes (pos n) =
    let overhead = if ltb (n / 16) 256 then 256 else n / 16 in
    if n == 0 then 0 else word (word (n + overhead) * 1048576)

unfoldable pub effective_memory_mib : ℤ → Instance → ℤ
effective_memory_mib config i = if ltb_ℤ (pos 0) i.memory_mib then i.memory_mib else config

unfoldable pub sum_pools : List MemoryPool → ℕ
sum_pools [] = 0
sum_pools (p ∷ ps) = word (word_of p.reserved_bytes + sum_pools ps)

-- max(total - 512 MiB, 0), for a total that is not negative
unfoldable pub budget_bytes : ℕ → ℕ
budget_bytes total = total - 536870912

-- `equal_fold` is strings.EqualFold, and `process_exists` asks the operating system.
module _ (equal_fold : String → String → Bool) (process_exists : ℤ → Bool) where
  unfoldable pub instance_has_active_runtime : Instance → Bool
  instance_has_active_runtime i =
      if ltb_ℤ (pos 0) i.firecracker_pid
      then process_exists i.firecracker_pid
      else i.state == provisioning

  unfoldable pub instance_reserves_fixed_host_memory : Instance → Bool
  instance_reserves_fixed_host_memory i =
      if normalize_memory_mode i.memory_mode != mode_fixed
      then false
      else if i.state == stopping || i.state == deleting
      then true
      else if i.start_request_id != "" && is_starting i.state
      then true
      else instance_has_active_runtime i

  -- the measure that totalReservedHostMemoryBytes gives to sumReservedCapacity
  abbrev pub measure : ℤ → Instance → ℕ
  measure config i =
      if not (instance_reserves_fixed_host_memory i)
      then 0
      else fixed_memory_limit_bytes (effective_memory_mib config i)

  unfoldable pub sum_reserved_capacity : String → ℤ → List Instance → ℕ
  sum_reserved_capacity exclude config [] = 0
  sum_reserved_capacity exclude config (i ∷ is) =
      let rest = sum_reserved_capacity exclude config is in
      if equal_fold i.name exclude then rest else word (measure config i + rest)

  unfoldable pub total_reserved_host_memory_bytes : String → ℤ → List Instance → List MemoryPool → ℕ
  total_reserved_host_memory_bytes exclude config instances pools =
      word (sum_reserved_capacity exclude config instances + sum_pools pools)

  -- whether the reservation is admitted; the reads before it succeeded
  unfoldable pub ensure_host_memory_reservation_capacity :
      ℕ → String → ℤ → List Instance → List MemoryPool → ℕ → Bool
  ensure_host_memory_reservation_capacity total exclude config instances pools requested =
      let reserved = total_reserved_host_memory_bytes exclude config instances pools in
      not (ltb_ℤ (pos (budget_bytes total)) (signed (word (reserved + requested))))
