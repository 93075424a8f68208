-- ===== src/Store/Requests/Phases.antt =====
-- The diagram of request phases, and the order that it puts on the rows of lifecycle_requests.
use srv.Base.{String, Bool, true, false, Option, none, some, ◌≡◌, refl, ◌||◌, ◌==◌, string_eq}
use mathlib.Core.Path.{subst}
use srv.Base.Int.{ℤ}
use srv.Model.{RequestRow}
use srv.Model.Phase.{Phase, admitted, executing, done, failed, rejected, cancelled, interrupted}

-- command IN ('delete','delete-proof')
abbrev pub is_delete : String → Bool
is_delete command = command == "delete" || command == "delete-proof"

-- Where a cleanup may take a deletion up again.
pub data Resumable : Phase → Type 0 where
  after_failure : Resumable failed
  after_cancel : Resumable cancelled
  after_crash : Resumable interrupted

pub data Edge (command : String) : Phase → Phase → Type 0 where
  begin : Edge command admitted executing
  refuse : Edge command admitted failed
  drop : Edge command admitted cancelled
  succeed : Edge command executing done
  fail : Edge command executing failed
  reject : command ≡ "start" → Edge command executing rejected
  cut : Edge command executing interrupted
  resume : {p : Phase} → is_delete command ≡ true → Resumable p → Edge command p executing

-- Edges in a row, in no step or in several.
pub data Leads (command : String) : Phase → Phase → Type 0 where
  here : {p : Phase} → Leads command p p
  then : {p q r : Phase} → Edge command p q → Leads command q r → Leads command p r

pub Leads-trans :
    {command : String} {p q r : Phase} → Leads command p q → Leads command q r → Leads command p r
Leads-trans here w = w
Leads-trans (then e v) w = then e (Leads-trans v w)

pub Edge-Leads : {command : String} {p q : Phase} → Edge command p q → Leads command p q
Edge-Leads e = then e here

-- Phases that a request leaves only when it is a deletion that a cleanup resumes.
abbrev pub is_final : Phase → Bool
is_final admitted = false
is_final executing = false
is_final _ = true

final_Edge :
    {command : String} {p q : Phase}
    → is_delete command ≡ false
    → is_final p ≡ true
    → Edge command p q
    → ⊥
final_Edge d f begin = cc
final_Edge d f refuse = cc
final_Edge d f drop = cc
final_Edge d f succeed = cc
final_Edge d f fail = cc
final_Edge d f (reject s) = cc
final_Edge d f cut = cc
final_Edge d f (resume e r) = cc

pub final_Leads :
    {command : String} {p q : Phase}
    → is_delete command ≡ false
    → is_final p ≡ true
    → Leads command p q
    → q ≡ p
final_Leads d f here = refl
final_Leads d f (then e w) = absurd (final_Edge d f e)

-- Nothing leads back to `admitted`.
Edge-admitted : {command : String} {p q : Phase} → Edge command p q → q ≡ admitted → ⊥
Edge-admitted begin h = cc
Edge-admitted refuse h = cc
Edge-admitted drop h = cc
Edge-admitted succeed h = cc
Edge-admitted fail h = cc
Edge-admitted (reject s) h = cc
Edge-admitted cut h = cc
Edge-admitted (resume e r) h = cc

pub Leads-admitted :
    {command : String} {p q : Phase} → Leads command p q → q ≡ admitted → p ≡ admitted
Leads-admitted here h = h
Leads-admitted (then e w) h = absurd (Edge-admitted e (Leads-admitted w h))

-- What identifies a request: it never changes.
pub record SameBinding (r r' : RequestRow) : Type 0 where
  pub same_id : r'.id ≡ r.id
  pub same_actor : r'.actor ≡ r.actor
  pub same_command : r'.command ≡ r.command
  pub same_name : r'.name ≡ r.name
  pub same_arguments : r'.arguments ≡ r.arguments

pub SameBinding-refl : (r : RequestRow) → SameBinding r r
SameBinding-refl r = record {
  same_id = refl;
  same_actor = refl;
  same_command = refl;
  same_name = refl;
  same_arguments = refl;
}

pub SameBinding-set :
    (r : RequestRow) (phase : Phase) (code : ℤ)
    → SameBinding r (record r { phase = phase; exit_code = code })
SameBinding-set r phase code = record {
  same_id = refl;
  same_actor = refl;
  same_command = refl;
  same_name = refl;
  same_arguments = refl;
}

pub SameBinding-trans : {r s t : RequestRow} → SameBinding r s → SameBinding s t → SameBinding r t
SameBinding-trans a b = record {
  same_id = cc (a.same_id, b.same_id);
  same_actor = cc (a.same_actor, b.same_actor);
  same_command = cc (a.same_command, b.same_command);
  same_name = cc (a.same_name, b.same_name);
  same_arguments = cc (a.same_arguments, b.same_arguments);
}

-- How the row of an ID may change: it is never removed, keeps its binding, and follows the diagram.
abbrev pub RowMoves : Option RequestRow → Option RequestRow → Type 0
RowMoves none o = Unit
RowMoves (some r) none = ⊥
RowMoves (some r) (some r') = SameBinding r r' × Leads r.command r.phase r'.phase

pub RowMoves-refl : (o : Option RequestRow) → RowMoves o o
RowMoves-refl none = tt
RowMoves-refl (some r) = (SameBinding-refl r, here)

pub RowMoves-trans : (o p q : Option RequestRow) → RowMoves o p → RowMoves p q → RowMoves o q
RowMoves-trans none p q a b = tt
RowMoves-trans (some r) none q a b = elim a [ ]
RowMoves-trans (some r) (some s) none a b = b
RowMoves-trans (some r) (some s) (some t) a b = (
  SameBinding-trans a.0 b.0,
  Leads-trans a.1 (subst (λ c. Leads c s.phase t.phase) a.0.same_command b.1),
)
