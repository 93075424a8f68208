-- ===== src/Provision/Migrations/Held.antt =====
-- What the steps around a migration do to the row of a migration: they leave it.
use srv.Store.Integrations.{record_event}
use srv.Provision.Migrations.Rows.{upsert-find, other-find}
use mathlib.Core.Path.{subst}
use srv.Provision.Runtime.{absent, record_stop, running, unresolved}
use srv.Provision.{stored}
use srv.Provision.Steady.{Triple-stored, On}
use srv.Base.Keys.{has}
use srv.Effect.Keeps.{
  Keeps-attempt, Keeps-stop, Keeps-give, Keeps-check, Keeps-bind, Keeps-if, keeps_rules, Keeps,
}
use srv.Base.Lists.{find_where}
use srv.Store.Imports.{upsert, put_migration}
use srv.Provision.Migrations.{count_instance_integrations}
use srv.Provision.Runtime.{
  running, resolved_as, Started, resolve_runtime, start_result, stop_instance,
}
use srv.Store.Instances.{
  overwritten, get_instance, update_instance, update_instance_runtime, update_instances,
}
use srv.Store.Session.{insert, Action}
use srv.Store.Session.Along.{
  Along-raise_if, Along-rows_affected, Along-bind, Along-insert, Along-query, Along-query_row,
  Along-exec, Along, Preorder,
}
use srv.PoolResize.{Runner}
use srv.Model.{Instance, Migration}
use srv.Store.Tables.{Tables}
use srv.Base.{arith, ◌∙◌, string_eq, Bool, false, some, ℕ, ◌==◌, Option, ◌≡◌, String}

abbrev pub row_of : String → Tables → Option Migration
row_of id t = find_where (has Migration.instance_id id) t.migrations

-- the migration of that instance
abbrev pub Row : String → Migration → Tables → Runner → Type 0
Row id m t s = row_of id t ≡ some m

-- A row that is there stays as it is.
abbrev pub Holds : String → Migration → Tables → Tables → Type 0
Holds id m t t' = row_of id t ≡ some m → row_of id t' ≡ some m

overwritten_lem :
    (i : Instance) (t t' : Tables) → overwritten i t ≡ some t' → t'.migrations ≡ t.migrations
overwritten_lem i t t' e = ground (arith, e)

module _ (id : String) (m : Migration) where
  pub holds : Preorder (Holds id m)
  holds = record { stay = λ t h. h; join = λ t u v f g h. g (f h) }

  insert_all-Along :
      (g : Tables → Tables)
      → ((t : Tables) → Holds id m t (g t))
      → Along (Holds id m) (insert (λ t. some (g t)))
  insert_all-Along g k =
      Along-insert holds _ λ t t' q h. let e : g t ≡ t' = ground (arith, q) in rw (← e) (k t h)

  pub stored-Row :
      {A : Type 0} (c : Action A) → Along (Holds id m) c → Keeps (On (Row id m)) (stored c)
  stored-Row c k = Triple-stored c (λ s runner a p e. k.at s p) λ s runner p e. k.at s p

  pub get_instance-Row : (name : String) → Keeps (On (Row id m)) (stored (get_instance name))
  unfolding get_instance
  get_instance-Row name = stored-Row _ (Along-query_row holds _)

  update_instances-Along :
      (p : Instance → Bool) (f : Instance → Instance) → Along (Holds id m) (update_instances p f)
  unfolding update_instances
  update_instances-Along p f = Along-exec holds _ λ t h. h

  overwritten-Along : (i : Instance) → Along (Holds id m) (insert (overwritten i))
  overwritten-Along i = Along-insert holds _ λ t t' e h. rw (overwritten_lem i t t' e) h

  update_instance-Row :
      (i : Instance) (now : ℕ) → Keeps (On (Row id m)) (stored (update_instance i now))
  unfolding update_instance
  update_instance-Row i now = stored-Row _ (
      overwritten-Along
        (srv.Store.Instances.stored now (srv.Store.Instances.normalize_instance_memory i)))

  update_runtime-Row :
      (i j : Instance) (now : ℕ) → Keeps (On (Row id m)) (stored (update_instance_runtime i j now))
  unfolding update_instance_runtime
  update_runtime-Row i j now = stored-Row _ (
      Along-bind holds _ _ (update_instances-Along _ _)
        λ n. Along-bind holds _ _ (Along-rows_affected holds n) λ k. Along-raise_if holds _ _)

  record_stop-Row :
      (i message : String) (now : ℕ) → Keeps (On (Row id m)) (record_stop i message now)
  unfolding record_stop record_event
  record_stop-Row i message now =
      Keeps-bind _ _ (Keeps-attempt _ (stored-Row _ (insert_all-Along _ λ t h. h)))
        λ o. Keeps-give tt

  start_result-Row : Keeps (On (Row id m)) start_result
  unfolding start_result
  start_result-Row = search keeps_rules depth 8

  resolved-Row : (r : Started) (i : Instance) → Keeps (On (Row id m)) (resolved_as r i)
  resolved-Row (running pid) i = search keeps_rules depth 8
  resolved-Row absent i =
      Keeps-if _ _ _ (Keeps-bind _ _ (Keeps-check _) λ x. Keeps-give _) (Keeps-give i)
  resolved-Row unresolved i = Keeps-stop _

  pub resolve_runtime-Row : (i : Instance) (now : ℕ) → Keeps (On (Row id m)) (resolve_runtime i now)
  unfolding resolve_runtime
  resolve_runtime-Row i now =
      search (keeps_rules, start_result-Row, resolved-Row, update_runtime-Row) depth 14

  pub stop_instance-Row : (name : String) (now : ℕ) → Keeps (On (Row id m)) (stop_instance name now)
  unfolding stop_instance
  stop_instance-Row name now =
      search
        (keeps_rules, get_instance-Row, update_instance-Row, record_stop-Row, resolve_runtime-Row)
        depth 24

  pub integrations-Row :
      (i : String) → Keeps (On (Row id m)) (stored (count_instance_integrations i))
  unfolding count_instance_integrations
  integrations-Row i = stored-Row _ (Along-query holds _)

  -- the row of another instance
  pub put_other-Row :
      (x : Migration)
      → (x.instance_id == id) ≡ false
      → Keeps (On (Row id m)) (stored (put_migration x))
  unfolding put_migration
  put_other-Row x e =
      stored-Row _
        (insert_all-Along _ λ t h. other-find Migration.instance_id x id t.migrations e ∙ h)

  -- the same row again
  pub put_same-Row : m.instance_id ≡ id → Keeps (On (Row id m)) (stored (put_migration m))
  unfolding put_migration
  put_same-Row e = stored-Row _ (
      insert_all-Along _ λ t h.
        subst
          (λ k.
            find_where (has Migration.instance_id k) (upsert Migration.instance_id m t.migrations)
            ≡ some m)
          e (upsert-find Migration.instance_id m t.migrations))
