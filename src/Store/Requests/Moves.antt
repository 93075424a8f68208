-- ===== src/Store/Requests/Moves.antt =====
-- Every operation of requests.go follows the diagram of phases, whatever fails on the way.
use mathlib.Core.Path.{subst}
use srv.Base.{
  String, Bool, true, false, Option, none, some, ◌≡◌, inl, inr, ◌==◌, nat_eq, string_eq,
  if◌then◌else◌, Bool-cases, text_iff,
}
use srv.Base.Lists.{update_where, find_where, exists_where}
use srv.Base.Keys.{Unique, has, adjust, find-update, update-Unique, exists-find}
use srv.Model.{RequestRow}
use srv.Model.Phase.{phase_eq}
use srv.Store.Tables.{Tables}
use srv.Store.Session.Along.{Along, Preorder, Along-exec, Along-insert}
use srv.Store.Requests.{update_requests, add_request, insert_request_once, insert_request}
use srv.Store.Requests.Phases.{
  SameBinding, SameBinding-refl, Leads, here, RowMoves, RowMoves-refl, RowMoves-trans,
}

abbrev pub row_of : String → Tables → Option RequestRow
row_of k t = find_where (has (λ (r : RequestRow). r.id) k) t.requests

-- PRIMARY KEY(id) of lifecycle_requests
abbrev pub HasUniqueIds : Tables → Type 0
HasUniqueIds t = Unique (λ (r : RequestRow). r.id) t.requests

pub record Evolves (t t' : Tables) : Type 0 where
  pub unique : HasUniqueIds t → HasUniqueIds t'
  pub row : (k : String) → RowMoves (row_of k t) (row_of k t')

pub evolves : Preorder Evolves
evolves = record {
  stay = λ t. record { unique = λ u. u; row = λ k. RowMoves-refl (row_of k t) };
  join = λ t u v a b. record {
    unique = λ h. b.unique (a.unique h);
    row = λ k. RowMoves-trans (row_of k t) (row_of k u) (row_of k v) (a.row k) (b.row k);
  };
}

pub Evolves-of_same : (t t' : Tables) → t'.requests ≡ t.requests → Evolves t t'
Evolves-of_same t t' e = record {
  unique = λ u. rw e u;
  row = λ k. rw e (RowMoves-refl (row_of k t));
}

-- A change of one row that the diagram allows.
abbrev pub StepsTo : RequestRow → RequestRow → Type 0
StepsTo r r' = SameBinding r r' × Leads r.command r.phase r'.phase

adjust-RowMoves :
    (p : RequestRow → Bool) (f : RequestRow → RequestRow) (o : Option RequestRow)
    → ((r : RequestRow) → p r ≡ true → StepsTo r (f r))
    → RowMoves o (adjust p f o)
adjust-RowMoves p f none h = tt
adjust-RowMoves p f (some r) h = elim (Bool-cases (p r)) [
  | inl e ↦ rw e (h r e)
  | inr e ↦ rw e (SameBinding-refl r, here)
]

module _ (p : RequestRow → Bool) (f : RequestRow → RequestRow)
    (keeps : (r : RequestRow) → (f r).id ≡ r.id)
    (steps : (r : RequestRow) → p r ≡ true → StepsTo r (f r)) where
  pub update-Evolves :
      (t : Tables) → Evolves t (record t { requests = update_where p f t.requests })
  update-Evolves t = record {
    unique = update-Unique (λ (r : RequestRow). r.id) p f keeps t.requests;
    row = λ k.
        rw (find-update (λ (r : RequestRow). r.id) p f keeps k t.requests)
          (adjust-RowMoves p f (row_of k t) steps);
  }

  pub update_requests-Evolves : Along Evolves (update_requests p f)
  unfolding update_requests
  update_requests-Evolves = Along-exec evolves _ update-Evolves

add-RowMoves :
    (row : RequestRow) (k : String) (o : Option RequestRow)
    → (row.id ≡ k → o ≡ none)
    → RowMoves o (if row.id == k then some row else o)
add-RowMoves row k o fresh = elim (Bool-cases (row.id == k)) [
  | inl e ↦ rw (e, fresh ((text_iff row.id k).0 e)) tt
  | inr e ↦ rw e (RowMoves-refl o)
]

pub add-Evolves :
    (row : RequestRow) (t : Tables)
    → exists_where (λ (r : RequestRow). r.id == row.id) t.requests ≡ false
    → Evolves t (add_request row t)
add-Evolves row t h = record {
  unique = λ u. (exists-find (has (λ (r : RequestRow). r.id) row.id) t.requests h, u);
  row = λ k. add-RowMoves row k (row_of k t) (λ e.
      subst (λ j. row_of j t ≡ none) e
        (exists-find (has (λ (r : RequestRow). r.id) row.id) t.requests h));
}

pub insert_request_once-Evolves : (row : RequestRow) → Along Evolves (insert_request_once row)
unfolding insert_request_once
insert_request_once-Evolves row = Along-exec evolves _ λ t.
    elim (Bool-cases (exists_where (λ (r : RequestRow). r.id == row.id) t.requests)) [
      | inl e ↦ rw e (evolves.stay t)
      | inr e ↦ rw e (add-Evolves row t e)
    ]

pub insert_request-Evolves : (row : RequestRow) → Along Evolves (insert_request row)
unfolding insert_request
insert_request-Evolves row = Along-insert evolves _ λ t t' e.
    elim (Bool-cases (exists_where (λ (r : RequestRow). r.id == row.id) t.requests)) [
      | inl known ↦ absurd (let h : none ≡ some t' = rw known at e in cc)
      | inr new ↦
          (let h : some (add_request row t) ≡ some t' = rw new at e in
            let q : add_request row t ≡ t' = cc in
            subst (λ u. Evolves t u) q (add-Evolves row t new))
    ]
