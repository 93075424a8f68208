-- ===== src/Provision/Migrations.antt =====
-- PrepareMigration and FinishMigration of internal/provision/migration.go.
pub mod Rows
pub mod Held
pub mod Reading
pub mod Final
pub mod Trace
pub mod Closed
use srv.Store.Instances.{get_instance}
use srv.Store.Imports.{get_migration, put_migration}
use srv.Base.Lists.{exists_where, count_where}
use srv.Provision.Fences.{migration_fence, migration_status}
use srv.Capacity.{instance_has_active_runtime}
use srv.PoolResize.{same_bool}
use srv.Store.Tables.{Binding}
use srv.Provision.Runtime.{stop_instance, is_blank, resolve_runtime}
use srv.Effect.{check, give, stop, stop_if, ◌>>=◌, ◌>>◌}
use srv.Model.Memory.{mode_pool, normalize_memory_mode}
use srv.Store.Session.{Action, query}
use srv.Model.{Integration, Migration, Instance}
use srv.Base.{
  false, none, true, nat_eq, if◌then◌else◌, some, string_eq, Option, ◌!=◌, ◌&&◌, ◌||◌, List, not, ℕ,
  ◌==◌, Bool, String,
}
use srv.Model.State.{ready, awaiting_tailnet, stopped, deleting, deleted, state_eq}
use srv.Base.Int.{ℤ, int_eq, pos}
use srv.Provision.{
  world, or_missing, stored, Step, bad_migration, bad_options, stale_token, other_migration,
  with_integrations, wrong_token, not_abortable, not_prepared,
}

-- how a memory pool of the source is replaced at the target
pub record Options : Type 0 where
  pub memory_pool_name : String
  pub fixed_memory : Bool

-- ImportOptions.Validate, which is given whether the source is in a pool
abbrev pub valid_options : Options → Bool → Bool
valid_options o pooled =
    not (o.memory_pool_name != "" && o.fixed_memory)
    && not (pooled && (o.memory_pool_name == "" && not o.fixed_memory))

unfoldable pub uses_memory_pool : Instance → Bool
uses_memory_pool i =
    normalize_memory_mode i.memory_mode == mode_pool && not (is_blank i.memory_pool_id)

-- ListInstanceIntegrations, of which the number of rows is used: an INNER JOIN
abbrev pub bound : String → List Integration → List Binding → ℕ
bound id is bs =
    count_where
      (λ b. b.instance_id == id && exists_where (λ (i : Integration). i.id == b.integration_id) is)
      bs

unfoldable pub count_instance_integrations : String → Action ℕ
unfolding query
count_instance_integrations id = query (λ t. bound id t.integrations t.bindings)

abbrev pub same_plan : Options → String → String → Migration → Bool
same_plan o target token m =
    m.token == token
    && (m.target == target
        && (m.memory_pool_name == o.memory_pool_name && same_bool m.fixed_memory o.fixed_memory))

abbrev pub runs_now : (String → String → Bool) → (ℤ → Bool) → Instance → Bool
runs_now equal_fold process_exists i =
    i.state == ready
    || (i.state == awaiting_tailnet || instance_has_active_runtime equal_fold process_exists i)

abbrev pub new_migration : Bool → Options → String → String → Instance → Migration
new_migration running o target token i = record {
  memory_pool_name = o.memory_pool_name;
  fixed_memory = o.fixed_memory;
  instance_id = i.id;
  token = token;
  target = target;
  was_running = running;
  phase = "preparing";
}

abbrev pub is_stopped : Instance → Bool
is_stopped i = i.state == stopped && i.firecracker_pid == pos 0

-- What follows the row of a migration that is being prepared.
unfoldable pub complete_preparation : String → Instance → Migration → ℕ → Step Migration
complete_preparation name i m now = do
  resolved ← resolve_runtime i now
  quiet ← if is_stopped resolved then give resolved else stop_instance name now
  check world  -- hydrateColdDisk
  stored (put_migration (record m { phase = "prepared" }))
  give (record m { phase = "prepared" })

-- The parameters are those of instance_has_active_runtime.
module _ (equal_fold : String → String → Bool) (process_exists : ℤ → Bool) where
  unfoldable pub begin_preparation :
      String → String → String → Options → Instance → ℕ → Step Migration
  begin_preparation name target token o i now = do
    migration_fence name
    n ← stored (count_instance_integrations i.id)
    stop_if (n != 0) with_integrations
    stored (put_migration (new_migration (runs_now equal_fold process_exists i) o target token i))
    complete_preparation name i
        (new_migration (runs_now equal_fold process_exists i) o target token i) now

  abbrev pub prepare_known :
      String → String → String → Options → Instance → ℕ → Option Migration → Step Migration
  prepare_known name target token o i now none = begin_preparation name target token o i now
  prepare_known name target token o i now (some m) =
      if m.phase == "aborted"
      then (do stop_if (m.token == token) stale_token; begin_preparation name target token o i now)
      else if not (same_plan o target token m)
      then stop other_migration
      else if m.phase == "prepared" || m.phase == "completed"
      then give m
      else complete_preparation name i m now

  -- PrepareMigration
  unfoldable pub prepare_migration : String → String → String → Options → ℕ → Step Migration
  prepare_migration name target token o now = do
    i ← stored (get_instance name)
    stop_if (target == "" || (token == "" || (i.state == deleted || i.state == deleting)))
        bad_migration
    stop_if (not (valid_options o (uses_memory_pool i))) bad_options
    m ← or_missing (stored (get_migration i.id))
    prepare_known name target token o i now m

abbrev pub finished_as : Bool → Migration → Step Migration
finished_as true m = do
  stop_if (m.phase == "completed") not_abortable
  stored (put_migration (record m { phase = "aborted" }))
  give (record m { phase = "aborted" })
finished_as false m = do
  stop_if (m.phase != "prepared" && m.phase != "completed") not_prepared
  stored (put_migration (record m { phase = "completed" }))
  give (record m { phase = "completed" })

-- FinishMigration
unfoldable pub finish_migration : String → String → Bool → Step Migration
finish_migration name token recover = do
  m ← migration_status name
  stop_if (m.token != token) wrong_token
  finished_as recover m
