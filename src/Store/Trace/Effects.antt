-- ===== src/Store/Trace/Effects.antt =====
-- What the operations that admit and start a request do to its row.
use srv.Base.{
  ℕ, String, Bool, true, false, Option, none, some, ◌∷◌, ◌≤◌, ◌≡◌, refl, inl, inr, ◌&&◌, ◌==◌,
  nat_eq, string_eq, arith, if◌then◌else◌, Bool-cases, text_iff, and_left, and_right,
}
use srv.Base.Lists.{count_where, update_where, exists_where}
use srv.Base.Keys.{has, count-hits, find-update, hits, adjust}
use srv.Model.{Time, RequestRow, LifecycleRequest}
use srv.Base.Int.{ℤ}
use srv.Model.Phase.{admitted, executing, phase_eq, same_phase_iff}
use srv.Store.Session.{Session}
use srv.Store.Requests.{
  begin_lifecycle_request, admit_bootstrap, admit_generation, raise_once, admit_lifecycle_request,
  of_actor, request_row,
}
use srv.Store.Requests.Phases.{RowMoves, Leads-admitted}
use srv.Store.Requests.Moves.{row_of, HasUniqueIds}
use srv.Store.Session.Atomic.{is_ok}
use srv.Store.Trace.{is_true}

-- how often a request may still be started
abbrev pub chances : Option RequestRow → ℕ
chances none = 1
chances (some r) = if r.phase == admitted then 1 else 0

pub RowMoves-chances : (o o' : Option RequestRow) → RowMoves o o' → chances o' ≤ chances o
RowMoves-chances none none m = omega arith
RowMoves-chances none (some r) m = ground arith
RowMoves-chances (some r) none m = elim m [ ]
RowMoves-chances (some r) (some r') m = elim (Bool-cases (r'.phase == admitted)) [
  | inl e ↦
      rw
        (
          e,
          (same_phase_iff r.phase admitted).1
              (Leads-admitted m.1 ((same_phase_iff r'.phase admitted).0 e)),
        )
        (omega arith)
  | inr e ↦ rw e (omega arith)
]

abbrev begin_where : String → String → RequestRow → Bool
begin_where id actor r = of_actor id actor r && r.phase == admitted

abbrev begun : RequestRow → RequestRow
begun r = record r { phase = executing }

-- A begin that returns has updated one row.
begin_effect :
    (id actor : String) (s : Session)
    → is_ok (begin_lifecycle_request id actor s).0 ≡ true
    → (count_where (begin_where id actor) s.tables.requests ≡ 1)
      × ((begin_lifecycle_request id actor s).1.tables.requests
          ≡ update_where (begin_where id actor) begun s.tables.requests)
unfolding begin_lifecycle_request
begin_effect id actor s h = ground arith

used :
    (p : RequestRow → Bool) (o : Option RequestRow)
    → ((r : RequestRow) → p r ≡ true → r.phase ≡ admitted)
    → hits p o ≡ 1
    → (chances o ≡ 1) × (chances (adjust p begun o) ≡ 0)
used p none only h = absurd (omega arith)
used p (some r) only h = elim (Bool-cases (p r)) [
  | inl e ↦ rw (e, only r e) (refl, refl)
  | inr e ↦ absurd (ground arith)
]

pub begin_uses :
    (id actor : String) (s : Session)
    → HasUniqueIds s.tables
    → is_ok (begin_lifecycle_request id actor s).0 ≡ true
    → (chances (row_of id s.tables) ≡ 1)
      × (chances (row_of id (begin_lifecycle_request id actor s).1.tables) ≡ 0)
begin_uses id actor s u h =
    let e = begin_effect id actor s h in
    let key = λ (r : RequestRow). r.id in
    rw (e.1, find-update key (begin_where id actor) begun (λ r. refl) id s.tables.requests)
      (used (begin_where id actor) (row_of id s.tables)
        (λ r q. (same_phase_iff r.phase admitted).0 (and_right (of_actor id actor r) _ q))
        (rw
          (← count-hits key (begin_where id actor) id
            (λ r q. (text_iff r.id id).0 (and_left _ _ (and_left _ _ q))) s.tables.requests u)
          e.0))

pub bootstrap_effect :
    (r : LifecycleRequest) (inst : String) (created : Time) (generation : ℤ) (now : Time)
    (s : Session)
    → is_ok (admit_bootstrap r inst created generation now s).0 ≡ true
    → (exists_where (has (λ (q : RequestRow). q.id) r.id) s.tables.requests ≡ false)
      × ((admit_bootstrap r inst created generation now s).1.tables.requests
          ≡ request_row r executing now ∷ s.tables.requests)
unfolding admit_bootstrap admit_generation raise_once
bootstrap_effect r inst created generation now s h = ground arith

pub admit_effect :
    (r : LifecycleRequest) (now : Time) (s : Session)
    → is_true (admit_lifecycle_request r now s).0 ≡ true
    → (exists_where (has (λ (q : RequestRow). q.id) r.id) s.tables.requests ≡ false)
      × ((admit_lifecycle_request r now s).1.tables.requests
          ≡ request_row r admitted now ∷ s.tables.requests)
unfolding admit_lifecycle_request
admit_effect r now s h = ground arith
