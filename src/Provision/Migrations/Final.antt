-- ===== src/Provision/Migrations/Final.antt =====
-- A migration that is completed stays so, with the row as it is.
use srv.Provision.Fences.{migration_status}
use srv.Provision.Migrations.Reading.{status_lem, Fact, read_migration}
use mathlib.Core.Path.{subst}
use srv.Provision.Pools.Starting.{Triple-stop_if, Triple-given}
use srv.Base.Int.{ℤ}
use srv.Provision.Migrations.{
  finish_migration, finished_as, prepare_migration, same_plan, is_stopped, prepare_known, Options,
  begin_preparation, complete_preparation,
}
use srv.Provision.Steady.{migration_fence-Keeps, On}
use srv.Provision.Migrations.Held.{
  put_same-Row, get_instance-Row, stop_instance-Row, put_other-Row, integrations-Row,
  resolve_runtime-Row, Row,
}
use srv.Effect.Keeps.{
  Triple, Triple-bind, Triple-weaken, Keeps-check, Keeps-stop, Keeps-give, Keeps-stop_if, Keeps-if,
  Keeps-bind, Keeps,
}
use srv.Store.Imports.{put_migration}
use srv.Model.{Instance, Migration}
use srv.Base.{
  arith, inr, inl, Bool-cases, ◌||◌, not, ℕ, false, Bool, string_eq, none, text_iff, true, ◌≡◌,
  some, ◌==◌, Option, String,
}
use srv.Provision.{not_abortable, world, stored}

module _ (id : String) (m : Migration) where
  -- `x` is a migration of another instance
  complete-Row :
      (name : String) (i : Instance) (x : Migration) (now : ℕ)
      → (x.instance_id == id) ≡ false
      → Keeps (On (Row id m)) (complete_preparation name i x now)
  unfolding complete_preparation
  complete-Row name i x now e = Keeps-bind _ _ (resolve_runtime-Row id m i now) λ resolved.
      Keeps-bind _ _
        (Keeps-if (is_stopped resolved) _ _ (Keeps-give resolved) (stop_instance-Row id m name now))
        λ quiet. Keeps-bind _ _ (Keeps-check world) λ u.
          Keeps-bind _ _ (put_other-Row id m (record x { phase = "prepared" }) e) λ v. Keeps-give _

  module _ (equal_fold : String → String → Bool) (process_exists : ℤ → Bool) where
    begin-Row :
        (name target token : String) (o : Options) (i : Instance) (now : ℕ)
        → (i.id == id) ≡ false
        → Keeps
            (On (Row id m))
            (begin_preparation equal_fold process_exists name target token o i now)
    unfolding begin_preparation
    begin-Row name target token o i now e = Keeps-bind _ _ (migration_fence-Keeps name) λ u.
        Keeps-bind _ _ (integrations-Row id m i.id) λ n.
          Keeps-bind _ _ (Keeps-stop_if _ _)
            λ v. Keeps-bind _ _ (put_other-Row id m _ e) λ w. complete-Row name i _ now e

    known-Row :
        (name target token : String) (o : Options) (i : Instance) (now : ℕ) (old : Option Migration)
        → m.phase ≡ "completed"
        → Fact id m i.id old
        → Keeps
            (On (Row id m))
            (prepare_known equal_fold process_exists name target token o i now old)
    known-Row name target token o i now old c f = elim (Bool-cases (i.id == id)) [
      | inl e ↦
          rw (f.0 e)
            (rw c (Keeps-if (not (same_plan o target token m)) _ _ (Keeps-stop _) (Keeps-give _)))
      | inr e ↦ other old f e
    ]
      where
        other :
            (old : Option Migration)
            → Fact id m i.id old
            → (i.id == id) ≡ false
            → Keeps
                (On (Row id m))
                (prepare_known equal_fold process_exists name target token o i now old)
        other none f e = begin-Row name target token o i now e
        other (some x) f e =
            Keeps-if (x.phase == "aborted") _ _
              (Keeps-bind _ _ (Keeps-stop_if _ _) λ u. begin-Row name target token o i now e)
              (Keeps-if (not (same_plan o target token x)) _ _ (Keeps-stop _) (
                Keeps-if (x.phase == "prepared" || x.phase == "completed") _ _ (Keeps-give x)
                  (complete-Row name i x now (rw (f.1) e))))

    pub prepare-Row :
        (name target token : String) (o : Options) (now : ℕ)
        → m.phase ≡ "completed"
        → Keeps
            (On (Row id m))
            (prepare_migration equal_fold process_exists name target token o now)
    unfolding prepare_migration
    prepare-Row name target token o now c = Keeps-bind _ _ (get_instance-Row id m name) λ i.
        Keeps-bind _ _ (Keeps-stop_if _ _) λ u. Keeps-bind _ _ (Keeps-stop_if _ _) λ v.
          Triple-bind _ _ (read_migration id m i.id)
            λ old. Triple-given λ f. known-Row name target token o i now old c f

  finished-Row :
      (recover : Bool) (i : String) (x : Migration)
      → m.phase ≡ "completed"
      → Fact id m i (some x)
      → Keeps (On (Row id m)) (finished_as recover x)
  finished-Row recover i x c f = elim (Bool-cases (i == id)) [
    | inl e ↦
        let n : m.instance_id ≡ id = ground (arith, f.0 e, f.1, (text_iff i id).0 e) in
        rw (same_row (f.0 e)) (own recover n)
    | inr e ↦ other recover (rw (f.1) e)
  ]
    where
      same_row : some x ≡ some m → x ≡ m
      same_row e = ground (arith, e)

      own : (recover : Bool) → m.instance_id ≡ id → Keeps (On (Row id m)) (finished_as recover m)
      own true n =
          Triple-bind _ _
            (Triple-stop_if {P = On (Row id m)} (m.phase == "completed") not_abortable λ h p. p)
            λ u. Triple-given λ e. absurd (ground (arith, rw c at e))
      own false n = Keeps-bind _ _ (Keeps-stop_if _ _) λ u.
          Keeps-bind _ _
            (subst (λ k. Keeps (On (Row id m)) (stored (put_migration (record m { phase = k })))) c
              (put_same-Row id m n))
            λ v. Keeps-give _

      other :
          (recover : Bool)
          → (x.instance_id == id) ≡ false
          → Keeps (On (Row id m)) (finished_as recover x)
      other true e = Keeps-bind _ _ (Keeps-stop_if _ _) λ u.
          Keeps-bind _ _ (put_other-Row id m (record x { phase = "aborted" }) e) λ v. Keeps-give _
      other false e = Keeps-bind _ _ (Keeps-stop_if _ _) λ u.
          Keeps-bind _ _ (put_other-Row id m (record x { phase = "completed" }) e) λ v. Keeps-give _

  status-Row :
      (name : String)
      → Triple
          (On (Row id m))
          (migration_status name)
          (λ x h. On (Row id m) h × ((i : String) × Fact id m i (some x)))
          (On (Row id m))
  unfolding migration_status
  status-Row name =
      Triple-bind _ _ (get_instance-Row id m name) λ i.
        Triple-weaken _ (status_lem id m i.id) (λ h p. p) (λ x h p. (p.0, (i.id, p.1))) λ h p. p

  pub finish-Row :
      (name token : String) (recover : Bool)
      → m.phase ≡ "completed"
      → Keeps (On (Row id m)) (finish_migration name token recover)
  unfolding finish_migration
  finish-Row name token recover c = Triple-bind _ _ (status-Row name) λ x.
      Triple-given λ f. Keeps-bind _ _ (Keeps-stop_if _ _) λ u. finished-Row recover f.0 x c f.1
