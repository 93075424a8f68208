-- ===== src/Store/Imports.antt =====
-- internal/store/migration.go: the journals of export and import.
pub mod Finalize
use srv.Base.{
  ℕ, String, Bool, none, some, List, ◌∷◌, ◌&&◌, ◌==◌, ◌!=◌, nat_eq, string_eq, if◌then◌else◌,
}
use srv.Base.Int.{pos}
use srv.Base.Lists.{update_where, count_where, find_where, exists_where}
use srv.Model.{Instance, Time, ImportReceipt, Migration}
use srv.Model.State.{provisioning, stopped, state_eq}
use srv.Store.Tables.{Tables, InstanceRow}
use srv.Store.Session.{
  Action, raise_if, exec, insert, query_row, rows_affected, transact, ◌>>=◌, ◌>>◌, exists,
  reservation_missing, receipt_missing,
}
use srv.Store.Requests.{time_string}
use srv.Store.Instances.{update_instances}

unfoldable pub get_migration : String → Action Migration
unfolding query_row
get_migration instance_id =
    query_row (λ t. find_where (λ m. m.instance_id == instance_id) t.migrations)

-- INSERT … ON CONFLICT(instance_id) DO UPDATE: the row is replaced or added.
module _ {A : Type 0} (key : A → String) where
  abbrev pub upsert : A → List A → List A
  upsert a rows =
      if exists_where (λ r. key r == key a) rows
      then update_where (λ r. key r == key a) (λ _. a) rows
      else a ∷ rows

unfoldable pub put_migration : Migration → Action (Unit {0})
unfolding insert
put_migration m =
    insert (λ t.
      some (record t { migrations = upsert (λ (r : Migration). r.instance_id) m t.migrations }))

unfoldable pub get_import_receipt : String → Action ImportReceipt
unfolding query_row
get_import_receipt instance_id =
    query_row (λ t. find_where (λ r. r.instance_id == instance_id) t.imports)

abbrev pub write_import : ImportReceipt → Tables → Tables
write_import r t = record t { imports = upsert (λ (q : ImportReceipt). q.instance_id) r t.imports }

unfoldable pub put_import_receipt : ImportReceipt → Action (Unit {0})
unfolding insert
put_import_receipt r = insert (λ t. some (write_import r t))

-- The absence check and the write are one statement.
unfoldable pub reserve_import_receipt : ImportReceipt → Action (Unit {0})
unfolding exec rows_affected ◌>>=◌
reserve_import_receipt r = do
  result ← exec λ t.
      if exists_where (λ (i : InstanceRow). i.inst.id == r.instance_id) t.instances
      then (0, t)
      else (1, write_import r t)
  n ← rows_affected result
  raise_if (n != 1) exists

abbrev pub is_importing : String → ImportReceipt → Bool
is_importing instance_id r = r.instance_id == instance_id && r.phase == "importing"

-- the instance that was reserved for the import, and how it is released
abbrev pub is_reserved : String → Instance → Bool
is_reserved instance_id i = i.id == instance_id && i.state == provisioning

abbrev pub freed_instance : Time → Instance → Instance
freed_instance updated_at i = record i {
  state = stopped;
  firecracker_pid = pos 0;
  last_error = "";
  deleted_at = none;
  updated_at = updated_at;
}

abbrev pub imported : ImportReceipt → ImportReceipt
imported r = record r { phase = "imported" }

unfoldable pub release_instance : String → Time → Action (Unit {0})
unfolding update_instances rows_affected ◌>>=◌
release_instance instance_id updated_at = do
  result ← update_instances (is_reserved instance_id) (freed_instance updated_at)
  n ← rows_affected result
  raise_if (n != 1) reservation_missing

-- UPDATE import_receipts SET phase WHERE instance_id AND phase
unfoldable pub mark_imported : String → Action ℕ
unfolding exec
mark_imported instance_id = exec (λ t. (
  count_where (is_importing instance_id) t.imports,
  record t { imports = update_where (is_importing instance_id) imported t.imports },
))

unfoldable pub commit_import : String → Action (Unit {0})
unfolding mark_imported rows_affected ◌>>=◌
commit_import instance_id = do
  result ← mark_imported instance_id
  n ← rows_affected result
  raise_if (n != 1) receipt_missing

-- The transaction of FinalizeImport.
unfoldable pub release_and_commit : String → Time → Action (Unit {0})
unfolding release_instance commit_import ◌>>=◌
release_and_commit instance_id updated_at = do
  release_instance instance_id updated_at
  commit_import instance_id

-- Releases the start fence and records the stopped instance together.
unfoldable pub finalize_import : String → Time → Time → Action (Unit {0})
unfolding release_and_commit transact time_string
finalize_import instance_id updated_at now =
    transact (release_and_commit instance_id (time_string now updated_at))
