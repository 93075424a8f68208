-- ===== src/Provision/Migrations/Reading.antt =====
-- Reading the row of a migration: what a call then knows of it.
use srv.Store.Session.Along.{same}
use srv.Provision.Pools.Calls.{query_row_ok}
use srv.Store.Session.Along.{Along-query_row}
use srv.PoolResize.{Runner}
use srv.Base.Keys.{has, find-holds}
use srv.Provision.Steady.{Triple-stored, On}
use srv.Provision.Migrations.Held.{Row, row_of}
use srv.Effect.Keeps.{Triple-weaken, Post, Triple}
use srv.Store.Imports.{get_migration}
use srv.Store.Tables.{Tables}
use srv.Model.{Migration}
use srv.Base.{
  false, refl, Bool, string_eq, ◌∙◌, none, sym, text_iff, true, ◌≡◌, some, ◌==◌, Option, String,
}
use srv.Provision.{stored, missing, as_outcome, or_missing}
use srv.Store.Session.{Session, call, query_row, fails}

-- what a call knows of the migration that it has read
abbrev pub Owned : String → Option Migration → Type 0
Owned i none = Unit {0}
Owned i (some x) = x.instance_id ≡ i

module _ (id : String) (m : Migration) where
  abbrev pub Fact : String → Option Migration → Type 0
  Fact i old = ((i == id) ≡ true → old ≡ some m) × Owned i old

  owned_lem : (i : String) (t : Tables) (o : Option Migration) → row_of i t ≡ o → Owned i o
  owned_lem i t none e = tt
  owned_lem i t (some x) e =
      (text_iff x.instance_id i).0 (find-holds (has Migration.instance_id i) t.migrations x e)

  fact_lem :
      (i : String) (t : Tables) (o : Option Migration)
      → row_of id t ≡ some m
      → row_of i t ≡ o
      → Fact i o
  fact_lem i t o p e = (λ q. sym e ∙ rw ((text_iff i id).0 q) p, owned_lem i t o e)

  read_at :
      (b : Bool) (i : String) (o : Option Migration) (s : Session) (runner : Runner)
      → fails s.faults ≡ b
      → row_of i s.tables ≡ o
      → row_of id s.tables ≡ some m
      → Post
          (λ old h. On (Row id m) h × Fact i old)
          (On (Row id m))
          (missing (as_outcome (get_migration i s).0))
          (record { session = (get_migration i s).1; runner = runner })
  unfolding get_migration query_row call
  read_at true i o s runner b e p = rw b (record { here = p })
  read_at false i none s runner b e p =
      rw (b, e) (record { here = p }, fact_lem i s.tables none p e)
  read_at false i (some x) s runner b e p =
      rw (b, e) (record { here = p }, fact_lem i s.tables (some x) p e)

  pub read_migration :
      (i : String)
      → Triple
          (On (Row id m))
          (or_missing (stored (get_migration i)))
          (λ old h. On (Row id m) h × Fact i old)
          (On (Row id m))
  unfolding or_missing stored
  read_migration i = record {
    at = λ run p.
        read_at (fails run.state.session.faults) i (row_of i run.state.session.tables)
          run.state.session run.state.runner refl refl p.here;
  }

  pub status_lem :
      (i : String)
      → Triple
          (On (Row id m))
          (stored (get_migration i))
          (λ x h. On (Row id m) h × Fact i (some x))
          (On (Row id m))
  unfolding get_migration
  status_lem i =
      Triple-weaken _
        (Triple-stored {P = Row id m} {F = Row id m} {Q = λ x t s. Row id m t s × Fact i (some x)}
          (query_row (row_of i))
          (λ s runner x p e.
            let here : row_of id (query_row (row_of i) s).1.tables ≡ some m =
              rw ((Along-query_row same (row_of i)).at s) p in
            (here, fact_lem i s.tables (some x) p (query_row_ok (row_of i) s x e)))
          λ s runner p e. rw ((Along-query_row same (row_of i)).at s) p)
        (λ h p. p) (λ x h p. (record { here = p.here.0 }, p.here.1)) λ h p. p
