-- ===== src/Provision/Steady.antt =====
-- What a call of the store guarantees about the tables and the runner, and that what only reads keeps
-- every predicate on them.
use srv.Store.Session.Along.{same}
use srv.Store.Session.Atomic.{is_ok}
use srv.Model.{ImportReceipt, Migration}
use srv.Store.Session.{err, Session, ok, Action, Result}
use srv.Store.Session.Along.{Along-raise_if, Along-query, Along-bind, Along-query_row, Along}
use srv.Effect.Keeps.{
  Keeps-stop_if, Triple, Keeps-give, Keeps-state, keeps_rules, Keeps-bind, Post, Keeps,
}
use srv.PoolResize.{Runner}
use srv.Store.Imports.{get_import_receipt, get_migration}
use srv.Store.Cleanup.{check_cleanup_fence}
use srv.Store.Instances.{get_instance}
use srv.Effect.{failed, done, Outcome}
use srv.Store.Tables.{Tables}
use srv.Provision.{as_outcome, missing, Error, or_missing, stored, Step, Host}
use srv.Provision.Fences.{
  check_import, check_migration, migration_only_fence, migration_status, upgrade_fence,
  migration_fence,
}
use mathlib.Core.Path.{subst}
use srv.Base.{none, refl, some, false, sym, Option, ◌≡◌, String}

-- a predicate on the tables and the runner
pub record On (P : Tables → Runner → Type 0) (h : Host) : Type 0 where
  pub here : P h.session.tables h.runner

outcome_at :
    {A : Type 0} {Q : A → Tables → Runner → Type 0} {F : Tables → Runner → Type 0} (r : Result A)
    (h : Host)
    → ((a : A) → r ≡ ok a → On (Q a) h)
    → (is_ok r ≡ false → On F h)
    → Post (λ a. On (Q a)) (On F) (as_outcome r) h
outcome_at (ok a) h q f = q a refl
outcome_at (err e) h q f = f refl

pub Triple-stored :
    {A : Type 0} {P F : Tables → Runner → Type 0} {Q : A → Tables → Runner → Type 0} (m : Action A)
    → ((s : Session) (runner : Runner) (a : A)
        → P s.tables runner
        → (m s).0 ≡ ok a
        → Q a (m s).1.tables runner)
    → ((s : Session) (runner : Runner)
        → P s.tables runner
        → is_ok (m s).0 ≡ false
        → F (m s).1.tables runner)
    → Triple (On P) (stored m) (λ a. On (Q a)) (On F)
unfolding stored
Triple-stored m q f = record {
  at = λ run p.
      let s = run.state.session in
      let runner = run.state.runner in
      outcome_at (m s).0 (record { session = (m s).1; runner = runner })
        (λ a e. record { here = q s runner a p.here e }) λ e. record { here = f s runner p.here e };
}

pub stored-Keeps :
    {P : Tables → Runner → Type 0} {A : Type 0} (m : Action A)
    → Along (λ t t'. t' ≡ t) m
    → Keeps (On P) (stored m)
stored-Keeps {P} m k =
    Triple-stored m (λ s runner a p e. subst (λ (t : Tables). P t runner) (sym (k.at s)) p)
      (λ s runner p e. subst (λ (t : Tables). P t runner) (sym (k.at s)) p)

kept_at :
    {A : Type 0} (P : Host → Type 0) (o : Outcome Error A) (h : Host) → P h → Post (λ a. P) P o h
kept_at P (done a) h p = p
kept_at P (failed e) h p = p

pub or_missing-Keeps :
    {P : Host → Type 0} {A : Type 0} (m : Step A) → Keeps P m → Keeps P (or_missing m)
unfolding or_missing
or_missing-Keeps m k = record {
  at = λ run p. kept_at _ (missing (m run).0) (m run).1.state (Keeps-state m run k p);
}

pub ruleset steady_rules = (stored-Keeps, or_missing-Keeps)

pub get_instance-Along : (name : String) → Along (λ t t'. t' ≡ t) (get_instance name)
unfolding get_instance
get_instance-Along name = Along-query_row same _

pub check_fence-Along : (id : String) → Along (λ t t'. t' ≡ t) (check_cleanup_fence id)
unfolding check_cleanup_fence
check_fence-Along id = Along-bind same _ _ (Along-query same _) λ b. Along-raise_if same b _

pub get_import-Along : (id : String) → Along (λ t t'. t' ≡ t) (get_import_receipt id)
unfolding get_import_receipt
get_import-Along id = Along-query_row same _

get_migration-Along : (id : String) → Along (λ t t'. t' ≡ t) (get_migration id)
unfolding get_migration
get_migration-Along id = Along-query_row same _

module _ {P : Tables → Runner → Type 0} where
  pub upgrade_fence-Keeps : Keeps (On P) upgrade_fence
  unfolding upgrade_fence
  upgrade_fence-Keeps = search keeps_rules depth 9

  pub check_import-Keeps : (o : Option ImportReceipt) → Keeps (On P) (check_import o)
  check_import-Keeps none = Keeps-give tt
  check_import-Keeps (some r) = Keeps-stop_if _ _

  check_migration-Keeps : (o : Option Migration) → Keeps (On P) (check_migration o)
  check_migration-Keeps none = Keeps-give tt
  check_migration-Keeps (some m) = Keeps-stop_if _ _

  migration_status-Keeps : (name : String) → Keeps (On P) (migration_status name)
  unfolding migration_status
  migration_status-Keeps name =
      search (keeps_rules, steady_rules, get_instance-Along, get_migration-Along) depth 9

  migration_only_fence-Keeps : (name : String) → Keeps (On P) (migration_only_fence name)
  unfolding migration_only_fence
  migration_only_fence-Keeps name =
      search
        (
          keeps_rules, steady_rules, get_instance-Along, check_fence-Along, get_import-Along,
          check_import-Keeps, migration_status-Keeps, check_migration-Keeps,
        )
        depth 15

  pub migration_fence-Keeps : (name : String) → Keeps (On P) (migration_fence name)
  unfolding migration_fence
  migration_fence-Keeps name =
      Keeps-bind upgrade_fence _ upgrade_fence-Keeps λ _. migration_only_fence-Keeps name
