-- ===== src/Store/Imports/Finalize.antt =====
-- What FinalizeImport of internal/store/migration.go leaves in the tables.
use srv.Store.Requests.{time_string}
use srv.Store.Session.Atomic.{transact-atomic, begun, transact-ok, is_ok}
use srv.Base.Lists.{count_where, update_where}
use srv.Store.Tables.{Tables}
use srv.Store.Session.{err, call, transact, ok, query, Result, Session, rows_affected, exec, ◌>>=◌}
use srv.Store.Instances.{retained, update_instances}
use srv.Model.{Time}
use srv.Store.Imports.{
  mark_imported, imported, freed_instance, is_importing, is_reserved, commit_import,
  finalize_import, release_and_commit, release_instance,
}
use srv.Base.{refl, arith, false, true, ◌≡◌, String}

-- the tables after an import that is finalized
abbrev pub finalized : String → Time → Tables → Tables
finalized id updated_at t = record t {
  instances =
      update_where (λ r. is_reserved id r.inst) (λ r. retained r (freed_instance updated_at r.inst))
        t.instances;
  imports = update_where (is_importing id) imported t.imports;
}

release_effect :
    (id : String) (updated_at : Time) (s : Session)
    → is_ok (release_instance id updated_at s).0 ≡ true
    → (count_where (λ r. is_reserved id r.inst) s.tables.instances ≡ 1)
      × ((release_instance id updated_at s).1.tables ≡ record s.tables {
        instances =
            update_where
              (λ r. is_reserved id r.inst)
              (λ r. retained r (freed_instance updated_at r.inst))
              s.tables.instances;
      })
unfolding release_instance update_instances exec rows_affected query call ◌>>=◌
release_effect id updated_at s h = ground arith

import_effect :
    (id : String) (s : Session)
    → is_ok (commit_import id s).0 ≡ true
    → (count_where (is_importing id) s.tables.imports ≡ 1)
      × ((commit_import id s).1.tables
          ≡ record s.tables { imports = update_where (is_importing id) imported s.tables.imports })
unfolding commit_import mark_imported exec rows_affected query call ◌>>=◌
import_effect id s h = ground arith

both_effect :
    (id : String) (updated_at : Time) (s : Session)
    → is_ok (release_and_commit id updated_at s).0 ≡ true
    → (count_where (λ r. is_reserved id r.inst) s.tables.instances ≡ 1)
      × (count_where (is_importing id) s.tables.imports ≡ 1)
      × ((release_and_commit id updated_at s).1.tables ≡ finalized id updated_at s.tables)
unfolding release_and_commit ◌>>=◌
both_effect id updated_at s h =
    ground
      (arith, release_effect id updated_at s, import_effect id (release_instance id updated_at s).1)

-- what an answer of FinalizeImport says of the tables before and after
abbrev pub Finalized : String → Time → Result (Unit {0}) → Tables → Tables → Type 0
Finalized id updated_at (ok x) t t' =
    (count_where (λ r. is_reserved id r.inst) t.instances ≡ 1)
    × (count_where (is_importing id) t.imports ≡ 1)
    × (t' ≡ finalized id updated_at t)
Finalized id updated_at (err e) t t' = t' ≡ t

answer_at :
    (id : String) (updated_at : Time) (r : Result (Unit {0})) (t t' : Tables)
    → (is_ok r ≡ true → Finalized id updated_at (ok tt) t t')
    → (is_ok r ≡ false → t' ≡ t)
    → Finalized id updated_at r t t'
answer_at id updated_at (ok x) t t' q f = q refl
answer_at id updated_at (err e) t t' q f = f refl

-- A FinalizeImport that succeeds found one provisioning instance of that ID and one receipt of an
-- import of it that was not finished; it stops the one, with the process ID, the error and the time
-- of deletion cleared and the time of the update set, marks the other as imported, and leaves every
-- other row. One that fails, at whatever call, leaves every table as it was.
pub finalize_import_effect :
    (id : String) (updated_at now : Time) (s : Session)
    → Finalized id
        (time_string now updated_at)
        (finalize_import id updated_at now s).0
        s.tables
        (finalize_import id updated_at now s).1.tables
unfolding finalize_import
finalize_import_effect id updated_at now s =
    let body = release_and_commit id (time_string now updated_at) in
    answer_at id (time_string now updated_at) (transact body s).0 s.tables
      (transact body s).1.tables
      (λ h.
        let fine = transact-ok body s h in
        rw fine.1 (both_effect id (time_string now updated_at) (begun s) fine.0))
      (transact-atomic body s)
