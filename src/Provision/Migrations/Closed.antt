-- ===== src/Provision/Migrations/Closed.antt =====
-- migrationFence does not let through an instance whose migration is not aborted.
use srv.Provision.Pools.Starting.{Triple-stop_if, Triple-given}
use srv.Store.Session.{call}
use srv.Effect.{failed, done, Outcome, settled, Run, ◌>>=◌}
use srv.Provision.Migrations.Held.{row_of}
use srv.Store.Imports.{get_migration}
use srv.Provision.Steady.{
  check_import-Keeps, get_import-Along, or_missing-Keeps, check_fence-Along, get_instance-Along,
  stored-Keeps, upgrade_fence-Keeps, On,
}
use srv.Base.Lists.{find_where}
use srv.Effect.Keeps.{Triple-bind, Triple-weaken, Keeps, Post, Triple}
use srv.Provision.Fences.{migration_only_fence, migration_fence, migration_status}
use srv.PoolResize.{Runner}
use srv.Store.Instances.{get_instance, scan_instance}
use srv.Model.{Migration, Instance}
use srv.Store.Tables.{Tables}
use srv.Base.{
  ◌!=◌, arith, none, refl, false, true, Bool, string_eq, some, ◌==◌, ◌≡◌, Option, String,
}
use srv.Provision.{migrating, Error, Step, Host, stored, missing, or_missing}
use srv.Store.Session.{query_row, fails, rest}

abbrev pub instance_of : String → Tables → Option Instance
instance_of name t = scan_instance (find_where (λ r. r.inst.name == name) t.instances)

-- the instance of that name, and its migration
abbrev Away : String → Instance → Migration → Tables → Runner → Type 0
Away name i m t s = (instance_of name t ≡ some i) × (row_of i.id t ≡ some m)

module _ (name : String) (i : Instance) (m : Migration) where
  status_at :
      (b c : Bool) (run : Run Host)
      → fails run.state.session.faults ≡ b
      → fails (rest run.state.session.faults) ≡ c
      → On (Away name i m) run.state
      → Post
          (λ o h. On (Away name i m) h × (o ≡ some m))
          (On (Away name i m))
          (missing (migration_status name run).0)
          (migration_status name run).1.state
  unfolding migration_status stored get_instance get_migration query_row call ◌>>=◌
  status_at true c run e f p = rw e (record { here = p.here })
  status_at false true run e f p = rw (e, p.here.0, f) (record { here = p.here })
  status_at false false run e f p = rw (e, p.here.0, f, p.here.1) (record { here = p.here }, refl)

  read_status :
      Triple
        (On (Away name i m))
        (or_missing (migration_status name))
        (λ o h. On (Away name i m) h × (o ≡ some m))
        (On (Away name i m))
  unfolding or_missing
  read_status = record {
    at = λ run p.
        status_at (fails run.state.session.faults) (fails (rest run.state.session.faults)) run refl
          refl p;
  }

  quietly :
      {A : Type 0} (s : Step A)
      → Keeps (On (Away name i m)) s
      → Triple (On (Away name i m)) s (λ a. On (Away name i m)) (λ h. Unit {0})
  quietly s k = Triple-weaken s k (λ h p. p) (λ a h p. p) λ h p. tt

  shut_lem :
      (m.phase == "aborted") ≡ false
      → Triple (On (Away name i m)) (migration_fence name) (λ x h. false ≡ true) (λ h. Unit {0})
  unfolding migration_fence migration_only_fence
  shut_lem e = Triple-bind _ _ (quietly _ upgrade_fence-Keeps) λ u.
      Triple-bind _ _ (quietly _ (stored-Keeps _ (get_instance-Along name))) λ j.
        Triple-bind _ _ (quietly _ (stored-Keeps _ (check_fence-Along j.id))) λ v.
          Triple-bind _ _ (quietly _ (or_missing-Keeps _ (stored-Keeps _ (get_import-Along j.id))))
            λ r. Triple-bind _ _ (quietly _ (check_import-Keeps r)) λ w.
              Triple-bind _ _ (Triple-weaken _ read_status (λ h p. p) (λ o h p. p) λ h p. tt) λ o.
                Triple-given λ q. rw q (
                  Triple-weaken _
                    (Triple-stop_if {P = On (Away name i m)} {F = λ h. Unit {0}}
                      (m.phase != "aborted") migrating λ h p. tt)
                    (λ h p. p) (λ x h p. ground (arith, e, p.1)) λ h p. p)

never_at :
    {A : Type 0} (o : Outcome Error A) (h : Host)
    → Post (λ a h. false ≡ true) (λ h. Unit {0}) o h
    → settled o ≡ none
never_at (done a) h p = absurd (ground (arith, p))
never_at (failed e) h p = refl

-- At a name whose instance has a migration of any phase but "aborted", the migration fence does not
-- return, whatever calls fail, and whatever the other journals say.
pub fence_shut :
    (name : String) (i : Instance) (m : Migration) (run : Run Host)
    → instance_of name run.state.session.tables ≡ some i
    → row_of i.id run.state.session.tables ≡ some m
    → (m.phase == "aborted") ≡ false
    → settled (migration_fence name run).0 ≡ none
fence_shut name i m run e f phase =
    never_at (migration_fence name run).0 (migration_fence name run).1.state
      ((shut_lem name i m phase).at run (record { here = (e, f) }))
