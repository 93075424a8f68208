-- ===== src/Provision/Migrations/Trace.antt =====
-- Calls of PrepareMigration and FinishMigration in any order: a completed migration is final.
use srv.Provision.Migrations.Final.{finish-Row, prepare-Row}
use srv.Provision.Steady.{On}
use srv.Effect.Keeps.{Keeps-state, Keeps}
use srv.Provision.Migrations.Held.{Row, row_of}
use srv.Effect.{Run}
use srv.Model.{Migration}
use srv.Provision.{Host, Step}
use srv.Base.Int.{ℤ}
use srv.Provision.Migrations.{finish_migration, prepare_migration, Options}
use srv.Base.{some, [], ◌≡◌, ◌∷◌, ℕ, Bool, List, String}

pub data Call : Type 0 where
  prepare : String → String → String → Options → ℕ → Call
  finish : String → String → Bool → Call

-- a call with the failures of the database and the answers of the world that it meets
pub record MetCall : Type 0 where
  pub call : Call
  pub faults : List Bool
  pub answers : List ℕ

-- The parameters are those of instance_has_active_runtime.
module _ (equal_fold : String → String → Bool) (process_exists : ℤ → Bool) where
  abbrev pub step_of : Call → Step Migration
  step_of (prepare name target token o now) =
      prepare_migration equal_fold process_exists name target token o now
  step_of (finish name token recover) = finish_migration name token recover

  abbrev pub met : MetCall → Host → Run Host
  met a h = record {
    state = record h { session = record h.session { faults = a.faults } };
    answers = a.answers;
  }

  abbrev pub all_of : List MetCall → Host → Host
  all_of [] h = h
  all_of (a ∷ more) h = all_of more (step_of a.call (met a h)).1.state

  -- After any calls of PrepareMigration and FinishMigration, with any names, tokens and options, each
  -- of which may fail at any call of the database or of the world, the row of a migration that was
  -- completed is what it was: its phase, token, target and options stay.
  pub completed_for_good :
      (id : String) (m : Migration) (attempts : List MetCall) (h : Host)
      → row_of id h.session.tables ≡ some m
      → m.phase ≡ "completed"
      → row_of id (all_of attempts h).session.tables ≡ some m
  completed_for_good id m [] h e c = e
  completed_for_good id m (a ∷ more) h e c =
      completed_for_good id m more _
        (Keeps-state (step_of a.call) (met a h) (step-Row a.call) (record { here = e })).here c
    where
      step-Row : (c' : Call) → Keeps (On (Row id m)) (step_of c')
      step-Row (prepare name target token o now) =
          prepare-Row id m equal_fold process_exists name target token o now c
      step-Row (finish name token recover) = finish-Row id m name token recover c
