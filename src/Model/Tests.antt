-- ===== src/Model/Tests.antt =====
-- A memory mode as a user types it.
use srv.Base.{refl, ◌≡◌}
use srv.Model.Memory.{normalize_memory_mode}

pool_with_spaces : normalize_memory_mode " Pool " ≡ "pool"
unfolding normalize_memory_mode
pool_with_spaces = refl
