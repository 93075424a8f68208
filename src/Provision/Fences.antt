-- ===== src/Provision/Fences.antt =====
-- migrationFence of internal/provision/migration.go.
use srv.Store.Cleanup.{check_cleanup_fence}
use srv.Store.Imports.{get_import_receipt, get_migration}
use srv.Store.Instances.{get_instance}
use srv.Effect.{stop_if, ask, give, ◌>>=◌, ◌>>◌}
use srv.Model.{ImportReceipt, Migration}
use srv.Base.{nat_eq, string_eq, none, ◌!=◌, ◌==◌, some, Option, String}
use srv.Provision.{upgrading, incomplete_import, migrating, or_missing, world, stored, Step}

-- upgradeFence: the journal of a kernel upgrade, which only the file system knows; 2 is a journal of
-- an upgrade that is not complete
unfoldable pub upgrade_fence : Step (Unit {0})
upgrade_fence = do n ← ask; stop_if (n == 0) world; stop_if (n == 2) upgrading

abbrev pub check_import : Option ImportReceipt → Step (Unit {0})
check_import none = give tt
check_import (some r) = stop_if (r.phase != "imported") incomplete_import

abbrev pub check_migration : Option Migration → Step (Unit {0})
check_migration none = give tt
check_migration (some m) = stop_if (m.phase != "aborted") migrating

-- MigrationStatus
unfoldable pub migration_status : String → Step Migration
migration_status name = do i ← stored (get_instance name); stored (get_migration i.id)

unfoldable pub migration_only_fence : String → Step (Unit {0})
migration_only_fence name = do
  i ← stored (get_instance name)
  stored (check_cleanup_fence i.id)
  r ← or_missing (stored (get_import_receipt i.id))
  check_import r
  m ← or_missing (migration_status name)
  check_migration m

unfoldable pub migration_fence : String → Step (Unit {0})
migration_fence name = do upgrade_fence; migration_only_fence name
