-- ===== src/Store/Requests/Generations.antt =====
-- AdmitBootstrap of internal/store/requests.go: a generation is admitted once.
use srv.Store.Session.Along.{same, Along-raise_if}
use srv.Model.Phase.{executing}
use srv.Store.Session.Atomic.{transact-ok, raise_if-session, bind-ok, begun, is_ok}
use srv.Base.Lists.{update_where, count_where}
use srv.Store.Session.{
  transact, bad_generation, raise_if, query, Session, exec, call, rows_affected, insert, ◌>>=◌,
}
use srv.Store.Tables.{Tables, Bootstrap}
use srv.Model.{RequestRow, LifecycleRequest, Time}
use srv.Store.Requests.{
  time_string, admit_bootstrap, request_row, of_incarnation, raise_generation, admit_generation,
  insert_request, raise_once,
}
use srv.Base.{
  nat_eq, ap, ◌∙◌, ◌==◌, refl, not, List, [], ◌∷◌, inr, inl, Bool-cases, true, ◌∷◌, arith, ◌&&◌,
  false, Bool, List, ◌≡◌, String,
}
use srv.Base.Int.{pos, ltb_ℤ, ℤ}

ltb_self : (n : ℤ) → ltb_ℤ n n ≡ false
ltb_self (pos n) = ground arith
ltb_self (ℤ.negsuc n) = ground arith

-- the rows that a generation may raise
abbrev pub below : String → Time → ℤ → Bootstrap → Bool
below inst created g b = of_incarnation inst created b && ltb_ℤ b.generation g

abbrev pub raised : ℤ → Bootstrap → Bootstrap
raised g b = record b { generation = g }

raised-count :
    (inst : String) (created : Time) (g : ℤ) (rows : List Bootstrap)
    → count_where (below inst created g) (update_where (below inst created g) (raised g) rows) ≡ 0
raised-count inst created g [] = refl
raised-count inst created g (b ∷ rows) = elim (Bool-cases (below inst created g b)) [
  | inl e ↦ rw (e, ltb_self g) (ground (arith, raised-count inst created g rows))
  | inr e ↦ rw (e, e) (omega (arith, raised-count inst created g rows))
]

raise_effect :
    (inst : String) (created : Time) (g : ℤ) (s : Session)
    → is_ok (raise_once inst created g s).0 ≡ true
    → (count_where (below inst created g) s.tables.bootstraps ≡ 1)
      × ((raise_once inst created g s).1.tables.bootstraps
          ≡ update_where (below inst created g) (raised g) s.tables.bootstraps)
unfolding raise_once raise_generation rows_affected ◌>>=◌ exec query call
raise_effect inst created g s h = ground arith

insert_effect :
    (row : RequestRow) (s : Session)
    → (insert_request row s).1.tables.bootstraps ≡ s.tables.bootstraps
unfolding insert_request insert call
insert_effect row s = ground arith

statements_effect :
    (r : LifecycleRequest) (inst : String) (created : Time) (g : ℤ) (now : Time) (s : Session)
    → is_ok (admit_generation r inst created g now s).0 ≡ true
    → (count_where (below inst created g) s.tables.bootstraps ≡ 1)
      × ((admit_generation r inst created g now s).1.tables.bootstraps
          ≡ update_where (below inst created g) (raised g) s.tables.bootstraps)
unfolding admit_generation ◌>>=◌
statements_effect r inst created g now s h =
    ground (arith, raise_effect inst created g, insert_effect (request_row r executing now))

refused :
    (inst : String) (created : Time) (g : ℤ) (s : Session)
    → count_where (below inst created g) s.tables.bootstraps ≡ 0
    → is_ok (raise_once inst created g s).0 ≡ false
refused inst created g s none_below = elim (Bool-cases (is_ok (raise_once inst created g s).0)) [
  | inl e ↦ absurd (ground (arith, none_below, raise_effect inst created g s e))
  | inr e ↦ e
]

statements-refused :
    (r : LifecycleRequest) (inst : String) (created : Time) (g : ℤ) (now : Time) (s : Session)
    → count_where (below inst created g) s.tables.bootstraps ≡ 0
    → is_ok (admit_generation r inst created g now s).0 ≡ false
statements-refused r inst created g now s none_below =
    elim (Bool-cases (is_ok (admit_generation r inst created g now s).0)) [
      | inl e ↦ absurd (ground (arith, none_below, statements_effect r inst created g now s e))
      | inr e ↦ e
    ]

passed :
    (r : LifecycleRequest) (inst : String) (created : Time) (g : ℤ) (now : Time) (s : Session)
    → is_ok (admit_bootstrap r inst created g now s).0 ≡ true
    → let m = admit_generation r inst (time_string now created) g now in
      (is_ok (m (begun s)).0 ≡ true)
      × ((admit_bootstrap r inst created g now s).1.tables ≡ (m (begun s)).1.tables)
unfolding admit_bootstrap
passed r inst created g now s h =
    let m = admit_generation r inst (time_string now created) g now in
    let tested =
      bind-ok (raise_if (not (ltb_ℤ (pos 0) g)) bad_generation) (λ _. transact m) s
        (Along-raise_if same _ _) h in
    ground (
      arith,
      tested.reached,
      raise_if-session (not (ltb_ℤ (pos 0) g)) bad_generation s,
      transact-ok m s,
    )

written : (now created : Time) → (created == 0) ≡ false → time_string now created ≡ created
unfolding time_string
written now created h = rw h refl

again :
    (r : LifecycleRequest) (inst : String) (created : Time) (g : ℤ) (now : Time) (s : Session)
    (rows : List Bootstrap)
    → s.tables.bootstraps ≡ update_where (below inst created g) (raised g) rows
    → is_ok (admit_generation r inst created g now s).0 ≡ false
again r inst created g now s rows left =
    statements-refused r inst created g now s (rw left (raised-count inst created g rows))

passed_at :
    (r : LifecycleRequest) (inst : String) (created : Time) (g : ℤ) (now : Time) (s : Session)
    → (created == 0) ≡ false
    → is_ok (admit_bootstrap r inst created g now s).0 ≡ true
    → (is_ok (admit_generation r inst created g now (begun s)).0 ≡ true)
      × ((admit_bootstrap r inst created g now s).1.tables
          ≡ (admit_generation r inst created g now (begun s)).1.tables)
passed_at r inst created g now s nonzero h =
    rw (written now created nonzero) at (passed r inst created g now s h)

-- When AdmitBootstrap has admitted a generation for an incarnation, whose time of creation is not
-- zero, AdmitBootstrap refuses that generation for that incarnation whatever the request, as long
-- as the high-water marks are what the first call left, whatever calls fail.
pub generation_once :
    (r r' : LifecycleRequest) (inst : String) (created : Time) (g : ℤ) (now now' : Time)
    (s s' : Session)
    → (created == 0) ≡ false
    → is_ok (admit_bootstrap r inst created g now s).0 ≡ true
    → s'.tables.bootstraps ≡ (admit_bootstrap r inst created g now s).1.tables.bootstraps
    → is_ok (admit_bootstrap r' inst created g now' s').0 ≡ false
generation_once r r' inst created g now now' s s' nonzero h marks =
    let first = passed_at r inst created g now s nonzero h in
    let left =
      marks
      ∙ ap (λ (t : Tables). t.bootstraps) first.1
      ∙ (statements_effect r inst created g now (begun s) first.0).1 in
    elim (Bool-cases (is_ok (admit_bootstrap r' inst created g now' s').0)) [
      | inl e ↦ absurd (
          ground (
            arith,
            (passed_at r' inst created g now' s' nonzero e).0,
            again r' inst created g now' (begun s') s.tables.bootstraps left,
          ))
      | inr e ↦ e
    ]
