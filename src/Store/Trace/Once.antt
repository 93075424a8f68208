-- ===== src/Store/Trace/Once.antt =====
-- A request is admitted at most once and started at most once, over every sequence of operations.
use mathlib.Core.Path.{subst}
use srv.Base.{
  ℕ, String, Bool, true, false, Option, none, some, List, [], ◌∷◌, ◌+◌, ◌≤◌, ◌≡◌, refl, ◌==◌,
  nat_eq, string_eq, arith, if◌then◌else◌, text_iff,
}
use srv.Base.Lists.{exists_where}
use srv.Base.Keys.{has, exists-find}
use srv.Model.{RequestRow}
use srv.Model.Phase.{admitted, executing, phase_eq}
use srv.Store.Tables.{Tables}
use srv.Store.Session.{Session}
use srv.Store.Requests.{
  begin_lifecycle_request, admit_bootstrap, admit_lifecycle_request, request_row,
}
use srv.Store.Requests.Phases.{RowMoves, is_delete, is_final, final_Leads, SameBinding}
use srv.Store.Requests.Moves.{Evolves, evolves, row_of, HasUniqueIds}
use srv.Store.Requests.Steps.{
  admit-Evolves, begin-Evolves, finish-Evolves, reject-Evolves, interrupt-Evolves, cancel-Evolves,
  bootstrap-Evolves,
}
use srv.Store.Cleanup.Steps.{begin_cleanup-Evolves, commit_cleanup-Evolves}
use srv.Store.Session.Atomic.{is_ok}
use srv.Store.Trace.Effects.{chances, RowMoves-chances, begin_uses, bootstrap_effect, admit_effect}
use srv.Store.Trace.{Op, apply, run, started, starts, accepted, admissions, is_true, one_if}

pub apply-Evolves : (op : Op) (s : Session) → Evolves s.tables (apply op s).tables
unfolding apply
apply-Evolves (Op.admit r now) s = (admit-Evolves r now).at s
apply-Evolves (Op.begin id actor) s = (begin-Evolves id actor).at s
apply-Evolves (Op.finish id actor code) s = (finish-Evolves id actor code).at s
apply-Evolves (Op.reject id actor) s = (reject-Evolves id actor).at s
apply-Evolves Op.interrupt s = interrupt-Evolves.at s
apply-Evolves (Op.cancel r now) s = (cancel-Evolves r now).at s
apply-Evolves (Op.bootstrap r id created generation now) s =
    (bootstrap-Evolves r id created generation now).at s
apply-Evolves (Op.clean id actor inst now) s = (begin_cleanup-Evolves id actor inst now).at s
apply-Evolves (Op.commit r) s = (commit_cleanup-Evolves r).at s

-- Over any sequence of operations each request keeps its row and its binding, and follows the
-- diagram of phases.
pub run-Evolves : (ops : List Op) (s : Session) → Evolves s.tables (run ops s).tables
unfolding run
run-Evolves [] s = evolves.stay s.tables
run-Evolves (op ∷ ops) s =
    evolves.join s.tables (apply op s).tables _ (apply-Evolves op s) (run-Evolves ops (apply op s))

-- An operation that counts takes the last chance; any other leaves the chances or lowers them.
spend :
    (same done : Bool) (before after : ℕ)
    → after ≤ before
    → (same ≡ true → done ≡ true → (before ≡ 1) × (after ≡ 0))
    → (if same then one_if done else 0) + after ≤ before
spend true true before after le last = let u = last refl refl in omega arith
spend true false before after le last = omega arith
spend false done before after le last = omega arith

-- how often a request may still be admitted
abbrev pub is_known : Option RequestRow → Bool
is_known none = false
is_known (some r) = true

abbrev vacancies : Option RequestRow → ℕ
vacancies none = 1
vacancies (some r) = 0

RowMoves-vacancies : (o o' : Option RequestRow) → RowMoves o o' → vacancies o' ≤ vacancies o
RowMoves-vacancies none none m = omega arith
RowMoves-vacancies none (some r) m = omega arith
RowMoves-vacancies (some r) none m = elim m [ ]
RowMoves-vacancies (some r) (some r') m = omega arith

module _ (id : String) where
  -- a new row takes the place of none
  new_row :
      (row : RequestRow) (t t' : Tables)
      → exists_where (has (λ (q : RequestRow). q.id) row.id) t.requests ≡ false
      → t'.requests ≡ row ∷ t.requests
      → (row.id == id) ≡ true
      → (row_of id t ≡ none) × (row_of id t' ≡ some row)
  new_row row t t' absent e k =
      (rw (← (text_iff row.id id).0 k) (exists-find _ t.requests absent), rw e (rw k refl))

  started-le :
      (op : Op) (s : Session)
      → HasUniqueIds s.tables
      → started id op s + chances (row_of id (apply op s).tables) ≤ chances (row_of id s.tables)
  unfolding started apply
  started-le (Op.begin k actor) s u =
      spend (k == id) (is_ok (begin_lifecycle_request k actor s).0) _ _
        (RowMoves-chances _ _ ((apply-Evolves (Op.begin k actor) s).row id))
        λ same done.
          subst
            (λ j.
              (chances (row_of j s.tables) ≡ 1)
              × (chances (row_of j (begin_lifecycle_request k actor s).1.tables) ≡ 0))
            ((text_iff k id).0 same) (begin_uses k actor s u done)
  started-le (Op.bootstrap r inst created generation now) s u =
      spend (r.id == id) (is_ok (admit_bootstrap r inst created generation now s).0) _ _
        (RowMoves-chances _ _
          ((apply-Evolves (Op.bootstrap r inst created generation now) s).row id))
        λ same done.
          let e = bootstrap_effect r inst created generation now s done in
          let n =
            new_row (request_row r executing now) s.tables
              (admit_bootstrap r inst created generation now s).1.tables e.0 e.1 same in
          (rw n.0 refl, rw n.1 refl)
  started-le op s u = omega (arith, RowMoves-chances _ _ ((apply-Evolves op s).row id))

  accepted-le :
      (op : Op) (s : Session)
      → accepted id op s + vacancies (row_of id (apply op s).tables)
        ≤ vacancies (row_of id s.tables)
  unfolding accepted apply
  accepted-le (Op.admit r now) s =
      spend (r.id == id) (is_true (admit_lifecycle_request r now s).0) _ _
        (RowMoves-vacancies _ _ ((apply-Evolves (Op.admit r now) s).row id))
        λ same done.
          let e = admit_effect r now s done in
          let n =
            new_row (request_row r admitted now) s.tables (admit_lifecycle_request r now s).1.tables
              e.0 e.1 same in
          (rw n.0 refl, rw n.1 refl)
  accepted-le op s = omega (arith, RowMoves-vacancies _ _ ((apply-Evolves op s).row id))

  starts_bound :
      (ops : List Op) (s : Session)
      → HasUniqueIds s.tables
      → starts id ops s + chances (row_of id (run ops s).tables) ≤ chances (row_of id s.tables)
  unfolding starts run
  starts_bound [] s u = omega arith
  starts_bound (op ∷ ops) s u =
      omega
        (arith, started-le op s u, starts_bound ops (apply op s) ((apply-Evolves op s).unique u))

  admissions_bound :
      (ops : List Op) (s : Session)
      → admissions id ops s + vacancies (row_of id (run ops s).tables)
        ≤ vacancies (row_of id s.tables)
  unfolding admissions run
  admissions_bound [] s = omega arith
  admissions_bound (op ∷ ops) s = omega (arith, accepted-le op s, admissions_bound ops (apply op s))

  chances-le-one : (o : Option RequestRow) → chances o ≤ 1
  chances-le-one none = omega arith
  chances-le-one (some r) = ground arith

  -- Over any sequence of operations, and whatever calls fail, an ID is started at most once by
  -- BeginLifecycleRequest and AdmitBootstrap together, when the IDs of the table were unique.
  pub starts-le-one : (ops : List Op) (s : Session) → HasUniqueIds s.tables → starts id ops s ≤ 1
  starts-le-one ops s u = omega (arith, starts_bound ops s u, chances-le-one (row_of id s.tables))

  -- Over any sequence of operations AdmitLifecycleRequest answers `true` at most once for an ID, and
  -- never for an ID that the table already has.
  pub admissions_once :
      (ops : List Op) (s : Session)
      → admissions id ops s ≤ (if is_known (row_of id s.tables) then 0 else 1)
  admissions_once ops s = omega (arith, admissions_bound ops s, vacant (row_of id s.tables))
    where
      vacant : (o : Option RequestRow) → vacancies o ≤ (if is_known o then 0 else 1)
      vacant none = omega arith
      vacant (some r) = omega arith

-- A final phase of a request that is no deletion is kept by every sequence of operations, with the
-- actor, command, name and arguments that the ID was bound to.
pub final_kept :
    (id : String) (ops : List Op) (s : Session) (r : RequestRow)
    → row_of id s.tables ≡ some r
    → is_delete r.command ≡ false
    → is_final r.phase ≡ true
    → (r' : RequestRow) × (row_of id (run ops s).tables ≡ some r')
      × (r'.phase ≡ r.phase)
      × SameBinding r r'
final_kept id ops s r e d f =
    go (row_of id (run ops s).tables) refl (rw e at ((run-Evolves ops s).row id))
  where
    go :
        (o : Option RequestRow)
        → row_of id (run ops s).tables ≡ o
        → RowMoves (some r) (row_of id (run ops s).tables)
        → (r' : RequestRow) × (row_of id (run ops s).tables ≡ some r')
          × (r'.phase ≡ r.phase)
          × SameBinding r r'
    go none q m = elim (rw q at m) [ ]
    go (some r') q m =
        let n : RowMoves (some r) (some r') = rw q at m in (r', q, final_Leads d f n.1, n.0)

-- Over any sequence of operations, whatever calls fail in it, the row that a request ID has is kept
-- with its binding, and its phase moves along the diagram of phases.
pub run-RowMoves :
    (id : String) (ops : List Op) (s : Session)
    → RowMoves (row_of id s.tables) (row_of id (run ops s).tables)
run-RowMoves id ops s = (run-Evolves ops s).row id
