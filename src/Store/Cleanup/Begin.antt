-- ===== src/Store/Cleanup/Begin.antt =====
-- BeginCleanup of internal/store/cleanup.go: what a success says, and who is refused.
use srv.Store.Tables.{Fence, Tables}
use srv.Store.Session.Along.{
  Along-optional, Along-query_row, Along, Along-raise_if, Along-query, same, Along-bind,
}
use srv.Base.Lists.{find_where, update_where, count_where, exists_where}
use srv.Model.{Time, Instance}
use srv.Store.Session.Atomic.{begun, raise_if-ok, transact-ok, bind-ok, is_ok}
use srv.Base.{
  ◌∙◌, not, inr, inl, some, Option-cases, Option, if◌then◌else◌, refl, string_eq, ◌∷◌, false, ◌||◌,
  ◌==◌, arith, true, ◌≡◌, Bool, String,
}
use srv.Store.Session.{
  owned_elsewhere, pure, ok, optional, query_row, owner_missing, raise_if, Session, exec, ◌>>=◌,
  call, rows_affected, insert, query,
}
use srv.Store.Instances.{retained, update_instances}
use srv.Store.Requests.{of_actor, update_requests}
use srv.Store.Cleanup.{
  begin_cleanup, is_some, claim, owned_by, raise_fence, occupy, command_of, owner_of, fence_owner,
  request_command, unresolved, to_deleting, restart, may_delete, may_start, check_unresolved,
  insert_fence, mark_deleting, start_owner,
}

start_effect :
    (id actor : String) (resume : Bool) (name : String) (s : Session)
    → is_ok (start_owner id actor resume name s).0 ≡ true
    → let t = (start_owner id actor resume name s).1.tables in
      (count_where (may_start id actor resume name) s.tables.requests ≡ 1)
      × (t ≡ record s.tables {
        requests = update_where (may_start id actor resume name) restart s.tables.requests;
      })
unfolding start_owner update_requests rows_affected ◌>>=◌ exec query call
start_effect id actor resume name s h = ground arith

mark_effect :
    (i : Instance) (resume ordinary : Bool) (now : Time) (s : Session)
    → is_ok (mark_deleting i resume ordinary now s).0 ≡ true
    → let t = (mark_deleting i resume ordinary now s).1.tables in
      (count_where (λ r. may_delete now i resume ordinary r.inst) s.tables.instances ≡ 1)
      × (t ≡ record s.tables {
        instances =
            update_where
              (λ r. may_delete now i resume ordinary r.inst)
              (λ r. retained r (to_deleting now r.inst))
              s.tables.instances;
      })
unfolding mark_deleting update_instances rows_affected ◌>>=◌ exec query call
mark_effect i resume ordinary now s h = ground arith

fence_effect :
    (inst id : String) (s : Session)
    → is_ok (insert_fence inst id s).0 ≡ true
    → let t = (insert_fence inst id s).1.tables in
      (exists_where (λ f. f.instance_id == inst || f.request_id == id) s.tables.fences ≡ false)
      × (t ≡ record s.tables {
        fences = (record { instance_id = inst; request_id = id }) ∷ s.tables.fences;
      })
unfolding insert_fence insert call
fence_effect inst id s h = ground arith

unresolved_effect :
    (resume : Bool) (name : String) (s : Session)
    → (check_unresolved resume name s).1.tables ≡ s.tables
unfolding check_unresolved
unresolved_effect true name s = refl
unresolved_effect false name s =
    (Along-bind same (query (λ t. exists_where (unresolved name) t.requests))
        (λ found. raise_if found owner_missing) (Along-query same _)
        λ _. Along-raise_if same _ _).at
      s

abbrev pub fence_of : String → Fence → Bool
fence_of inst f = f.instance_id == inst

-- the tables that a successful BeginCleanup leaves
abbrev pub begun_cleanup : String → String → Instance → Bool → Bool → Time → Tables → Tables
begun_cleanup id actor i resume ordinary now t = record t {
  requests = update_where (may_start id actor resume i.name) restart t.requests;
  instances =
      update_where (λ r. may_delete now i resume ordinary r.inst)
        (λ r. retained r (to_deleting now r.inst)) t.instances;
  fences = if resume then t.fences else (record { instance_id = i.id; request_id = id }) ∷ t.fences;
}

occupy_effect :
    (id actor : String) (i : Instance) (resume ordinary : Bool) (now : Time) (s : Session)
    → is_ok (occupy id actor i resume ordinary now s).0 ≡ true
    → ((occupy id actor i resume ordinary now s).1.tables
        ≡ begun_cleanup id actor i resume ordinary now s.tables)
      × ((count_where (may_start id actor resume i.name) s.tables.requests ≡ 1)
          × (count_where (λ r. may_delete now i resume ordinary r.inst) s.tables.instances ≡ 1))
unfolding occupy ◌>>=◌
occupy_effect id actor i true ordinary now s h =
    ground (arith, start_effect id actor true i.name, mark_effect i true ordinary now)
occupy_effect id actor i false ordinary now s h = ground (
  arith,
  start_effect id actor false i.name,
  mark_effect i false ordinary now,
  fence_effect i.id id,
)

owner_answer :
    (inst : String) (s : Session) (o : Option String)
    → (fence_owner inst s).0 ≡ ok o
    → o ≡ owner_of (find_where (fence_of inst) s.tables.fences)
unfolding fence_owner optional query_row call
owner_answer inst s o h = elim (Option-cases (find_where (fence_of inst) s.tables.fences)) [
  | inl e ↦ ground arith
  | inr e ↦ ground arith
]

command_answer :
    (id actor : String) (s : Session) (c : String)
    → (request_command id actor s).0 ≡ ok c
    → command_of (find_where (of_actor id actor) s.tables.requests) ≡ some c
unfolding request_command query_row call
command_answer id actor s c h =
    elim (Option-cases (find_where (of_actor id actor) s.tables.requests)) [
      | inl e ↦ ground arith
      | inr e ↦ ground arith
    ]

check-reads :
    (resume ordinary : Bool) (name : String)
    → Along (λ t t'. t' ≡ t) (if ordinary then check_unresolved resume name else pure tt)
check-reads resume true name = record { at = λ s. unresolved_effect resume name s }
check-reads resume false name = record { at = λ s. refl }

owner-reads : (inst : String) → Along (λ t t'. t' ≡ t) (fence_owner inst)
unfolding fence_owner
owner-reads inst = Along-optional same _ (Along-query_row same _)

command-reads : (id actor : String) → Along (λ t t'. t' ≡ t) (request_command id actor)
unfolding request_command
command-reads id actor = Along-query_row same _

-- the owner of the fence that an instance has
abbrev pub owner : String → Tables → Option String
owner inst t = owner_of (find_where (fence_of inst) t.fences)

-- what a BeginCleanup that succeeds has found and left
pub record Began (id actor : String) (i : Instance) (now : Time) (t t' : Tables) : Type 0 where
  pub command : String
  pub commanded : command_of (find_where (of_actor id actor) t.requests) ≡ some command
  pub owned : owned_by id (owner i.id t) ≡ true
  pub tables : t' ≡ begun_cleanup id actor i (is_some (owner i.id t)) (command == "delete") now t
  pub one_request : count_where (may_start id actor (is_some (owner i.id t)) i.name) t.requests ≡ 1
  pub one_instance :
      count_where
        (λ r. may_delete now i (is_some (owner i.id t)) (command == "delete") r.inst)
        t.instances
      ≡ 1

claim_effect :
    (id actor : String) (i : Instance) (resume ordinary : Bool) (now : Time) (s : Session)
    → is_ok (claim id actor i resume ordinary now s).0 ≡ true
    → ((claim id actor i resume ordinary now s).1.tables
        ≡ begun_cleanup id actor i resume ordinary now s.tables)
      × ((count_where (may_start id actor resume i.name) s.tables.requests ≡ 1)
          × (count_where (λ r. may_delete now i resume ordinary r.inst) s.tables.instances ≡ 1))
unfolding claim
claim_effect id actor i resume ordinary now s h =
    let checked =
      bind-ok (if ordinary then check_unresolved resume i.name else pure tt)
        (λ _. occupy id actor i resume ordinary now) s (check-reads resume ordinary i.name) h in
    rw (checked.reached, ← checked.unmoved)
      (occupy_effect id actor i resume ordinary now checked.session (rw checked.reached at h))

began :
    (id actor : String) (i : Instance) (now : Time) (t t1 t2 t' : Tables) (o : Option String)
    (c : String)
    → t1 ≡ t
    → t2 ≡ t
    → o ≡ owner i.id t
    → command_of (find_where (of_actor id actor) t1.requests) ≡ some c
    → owned_by id o ≡ true
    → (t' ≡ begun_cleanup id actor i (is_some o) (c == "delete") now t2)
      × ((count_where (may_start id actor (is_some o) i.name) t2.requests ≡ 1)
          × (count_where (λ r. may_delete now i (is_some o) (c == "delete") r.inst) t2.instances
              ≡ 1))
    → Began id actor i now t t'
began id actor i now t t1 t2 t' o c e1 e2 e3 asked owned effect = record {
  command = c;
  commanded = rw (← e1) asked;
  owned = rw (← e3) owned;
  tables = rw (← e3, ← e2) effect.0;
  one_request = rw (← e3, ← e2) effect.1.0;
  one_instance = rw (← e3, ← e2) effect.1.1;
}

raise_effect :
    (id actor : String) (i : Instance) (now : Time) (s : Session)
    → is_ok (raise_fence id actor i now s).0 ≡ true
    → Began id actor i now s.tables (raise_fence id actor i now s).1.tables
unfolding raise_fence
raise_effect id actor i now s h =
    let owned =
      bind-ok (fence_owner i.id)
        (λ o. raise_if (not (owned_by id o)) owned_elsewhere >>= λ _.
          request_command id actor >>= λ c. claim id actor i (is_some o) (c == "delete") now)
        s (owner-reads i.id) h in
    let passed =
      bind-ok (raise_if (not (owned_by id owned.answer)) owned_elsewhere)
        (λ _. request_command id actor >>= λ c.
          claim id actor i (is_some owned.answer) (c == "delete") now)
        owned.session (Along-raise_if same _ _) (rw owned.reached at h) in
    let asked =
      bind-ok (request_command id actor)
        (λ c. claim id actor i (is_some owned.answer) (c == "delete") now) passed.session
        (command-reads id actor) (rw (owned.reached, passed.reached) at h) in
    began id actor i now s.tables passed.session.tables asked.session.tables
      (raise_fence id actor i now s).1.tables owned.answer asked.answer
      (passed.unmoved ∙ owned.unmoved) (asked.unmoved ∙ passed.unmoved ∙ owned.unmoved)
      (owner_answer i.id s owned.answer owned.answered)
      (command_answer id actor passed.session asked.answer asked.answered)
      (raise_if-ok (owned_by id owned.answer) owned_elsewhere owned.session passed.answer
        passed.answered)
      (rw (owned.reached, passed.reached, asked.reached)
        (claim_effect id actor i (is_some owned.answer) (asked.answer == "delete") now asked.session
          (rw (owned.reached, passed.reached, asked.reached) at h)))

-- A BeginCleanup that succeeds found the request and no fence of another request on the instance,
-- exactly one deletion of that ID and actor that may start and exactly one instance of that
-- incarnation that may be deleted; it leaves that request executing, that instance in `deleting`,
-- and, when there was no fence, a fence of this request, and changes no other table.
pub begin_cleanup_effect :
    (id actor : String) (i : Instance) (now : Time) (s : Session)
    → is_ok (begin_cleanup id actor i now s).0 ≡ true
    → Began id actor i now s.tables (begin_cleanup id actor i now s).1.tables
unfolding begin_cleanup
begin_cleanup_effect id actor i now s h =
    let fine = transact-ok (raise_fence id actor i now) s h in
    rw fine.1 (raise_effect id actor i now (begun s) fine.0)
