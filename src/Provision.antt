-- ===== src/Provision.antt =====
-- internal/provision over the store and the runner: what the tables and the runner hold, the calls
-- of each, and the fences of an instance. The caller holds `admissionMu`.
pub mod Fences
pub mod Steady
pub mod Pools
pub mod PoolLife
pub mod Runtime
pub mod Migrations
mod Tests
use srv.Store.Session.{no_rows}
use srv.Effect.{Op, Run, Outcome, done, failed}
use srv.Store.Session.{optional, Session, Action, Result, ok, err}
use srv.PoolResize.{Runner}
use srv.Base.{none, some, Option, String, List}

pub record Host : Type 0 where
  pub session : Session
  pub runner : Runner

pub data Error : Type 0 where
  store : srv.Store.Session.Error → Error
  world bad_name bad_size pending_other unsettled rejected : Error
  busy_member incomplete_import migrating upgrading too_small no_memory unknown_pool members : Error
  uncertain being_deleted already_deleted already_stopped : Error  -- start_outcome.go, provision.go
  bad_migration bad_options stale_token other_migration with_integrations wrong_token : Error
  not_abortable not_prepared : Error  -- migration.go

abbrev pub Step : Type 0 → Type 0
Step A = Op Host Error A

abbrev pub as_outcome : {A : Type 0} → Result A → Outcome Error A
as_outcome (ok a) = done a
as_outcome (err e) = failed (store e)

-- a call of the store
unfoldable pub stored : {A : Type 0} → Action A → Step A
stored m run =
    let (r, s) = m run.state.session in
    (as_outcome r, record run { state = record run.state { session = s } })

abbrev pub missing : {A : Type 0} → Outcome Error A → Outcome Error (Option A)
missing (done a) = done (some a)
missing (failed (store no_rows)) = done none
missing (failed e) = failed e

-- The handle that turns sql.ErrNoRows into an answer.
unfoldable pub or_missing : {A : Type 0} → Step A → Step (Option A)
or_missing m run = let (o, run') = m run in (missing o, run')
