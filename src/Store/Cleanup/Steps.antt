-- ===== src/Store/Cleanup/Steps.antt =====
-- The operations of cleanup.go follow the diagram of request phases; only a deletion is resumed.
use srv.Base.{
  and_left, and_right, ℕ, String, Bool, true, false, none, some, ◌≡◌, refl, ◌==◌, nat_eq, string_eq,
  if◌then◌else◌,
}
use srv.Model.{Time, Instance, CleanupReceipt}
use srv.Model.Phase.{Phase, admitted, executing, done, failed, cancelled, interrupted, phase_eq}
use srv.Store.Tables.{Tables}
use srv.Store.Session.{insert, exec, pure}
use srv.Store.Session.Along.{
  Along, Along-pure, Along-if, Along-raise_if, Along-refuse, Along-exec, Along-insert, Along-bind,
  Along-query, Along-query_row, Along-optional, Along-rows_affected, Along-transact,
}
use srv.Store.Requests.{of_actor}
use srv.Store.Requests.Phases.{
  SameBinding-set, Leads, begin, succeed, resume, after_failure, after_cancel, after_crash, here,
  Edge-Leads, is_delete,
}
use srv.Store.Requests.Moves.{Evolves, evolves, Evolves-of_same, update_requests-Evolves}
use srv.Store.Instances.{update_instances}
use srv.Store.Cleanup.{
  insert_fence, start_owner, mark_deleting, check_unresolved, fence_owner, request_command, claim,
  occupy, begin_cleanup, raise_fence, can_start, is_some, check_receipt, finish_owner,
  write_tombstone, insert_receipt, delete_fence, commit_cleanup, commit_receipt,
}

start_Leads :
    (c : String) (again : Bool) (p : Phase)
    → is_delete c ≡ true
    → can_start again p ≡ true
    → Leads c p executing
start_Leads c true executing d h = here
start_Leads c true interrupted d h = Edge-Leads (resume d after_crash)
start_Leads c true _ d h = cc
start_Leads c false admitted d h = Edge-Leads begin
start_Leads c false failed d h = Edge-Leads (resume d after_failure)
start_Leads c false cancelled d h = Edge-Leads (resume d after_cancel)
start_Leads c false _ d h = cc

done_Leads : (c : String) (p : Phase) → (p == executing) ≡ true → Leads c p done
done_Leads c executing h = Edge-Leads succeed
done_Leads c _ h = cc

start_owner-Evolves :
    (request_id actor : String) (again : Bool) (name : String)
    → Along Evolves (start_owner request_id actor again name)
unfolding start_owner
start_owner-Evolves request_id actor again name =
    Along-bind evolves _ _
      (update_requests-Evolves _ _ (λ r. refl)
        λ r h.
          let t = and_right (of_actor request_id actor r) _ h in
          (
            SameBinding-set r _ _,
            start_Leads r.command again r.phase (and_left _ _ t)
                (and_right (r.name == name) _ (and_right (is_delete r.command) _ t)),
          ))
      λ result.
        Along-bind evolves _ _ (Along-rows_affected evolves result) λ n. Along-raise_if evolves _ _

finish_owner-Evolves : (r : CleanupReceipt) → Along Evolves (finish_owner r)
unfolding finish_owner
finish_owner-Evolves r =
    Along-bind evolves _ _
      (update_requests-Evolves _ _ (λ q. refl)
        λ q h.
          let t = and_right (of_actor r.request_id r.actor q) _ h in
          (
            SameBinding-set q _ _,
            done_Leads q.command q.phase
                (and_right (q.name == r.name) _ (and_right (is_delete q.command) _ t)),
          ))
      λ result.
        Along-bind evolves _ _ (Along-rows_affected evolves result) λ n. Along-raise_if evolves _ _

-- What leaves lifecycle_requests alone.
exec-Evolves :
    (f : Tables → ℕ × Tables)
    → ((t : Tables) → (f t).1.requests ≡ t.requests)
    → Along Evolves (exec f)
exec-Evolves f same = Along-exec evolves f (λ t. Evolves-of_same t (f t).1 (same t))

update_instances-Evolves :
    (p : Instance → Bool) (f : Instance → Instance) → Along Evolves (update_instances p f)
unfolding update_instances
update_instances-Evolves p f = exec-Evolves _ (λ t. refl)

mark_deleting-Evolves :
    (inst : Instance) (again ordinary : Bool) (now : Time)
    → Along Evolves (mark_deleting inst again ordinary now)
unfolding mark_deleting
mark_deleting-Evolves inst again ordinary now =
    Along-bind evolves _ _ (update_instances-Evolves _ _) λ result.
      Along-bind evolves _ _ (Along-rows_affected evolves result) λ n. Along-raise_if evolves _ _

write_tombstone-Evolves : (r : CleanupReceipt) → Along Evolves (write_tombstone r)
unfolding write_tombstone
write_tombstone-Evolves r = record {
  at = λ s.
      (Along-bind evolves _ _ (update_instances-Evolves _ _) λ result.
          Along-bind evolves _ _ (Along-rows_affected evolves result)
            λ n. Along-raise_if evolves _ _).at
        s;
}

-- An INSERT into another table, under a test for its constraint.
guarded_insert-Evolves :
    (clash : Tables → Bool) (f : Tables → Tables)
    → ((t : Tables) → (f t).requests ≡ t.requests)
    → Along Evolves (insert (λ t. if clash t then none else some (f t)))
guarded_insert-Evolves clash f same =
    Along-insert evolves _ λ t t' e. Evolves-of_same t t' (go (clash t) t t' e)
  where
    go :
        (b : Bool) (t t' : Tables)
        → (if b then none else some (f t)) ≡ some t'
        → t'.requests ≡ t.requests
    go true t t' e = cc
    go false t t' e = let q : f t ≡ t' = cc in rw (← q) (same t)

insert_fence-Evolves :
    (instance_id request_id : String) → Along Evolves (insert_fence instance_id request_id)
unfolding insert_fence
insert_fence-Evolves instance_id request_id = guarded_insert-Evolves _ _ (λ t. refl)

insert_receipt-Evolves : (r : CleanupReceipt) → Along Evolves (insert_receipt r)
unfolding insert_receipt
insert_receipt-Evolves r = guarded_insert-Evolves _ _ (λ t. refl)

delete_fence-Evolves : (r : CleanupReceipt) → Along Evolves (delete_fence r)
unfolding delete_fence
delete_fence-Evolves r = Along-bind evolves _ _ (exec-Evolves _ (λ t. refl)) λ result.
    Along-bind evolves _ _ (Along-rows_affected evolves result) λ n. Along-raise_if evolves _ _

check_unresolved-Evolves :
    (again : Bool) (name : String) → Along Evolves (check_unresolved again name)
unfolding check_unresolved
check_unresolved-Evolves true name = Along-pure evolves tt
check_unresolved-Evolves false name =
    Along-bind evolves _ _ (Along-query evolves _) λ found. Along-raise_if evolves _ _

fence_owner-Evolves : (instance_id : String) → Along Evolves (fence_owner instance_id)
unfolding fence_owner
fence_owner-Evolves instance_id = Along-optional evolves _ (Along-query_row evolves _)

request_command-Evolves : (id actor : String) → Along Evolves (request_command id actor)
unfolding request_command
request_command-Evolves id actor = Along-query_row evolves _

claim-Evolves :
    (id actor : String) (inst : Instance) (again ordinary : Bool) (now : Time)
    → Along Evolves (claim id actor inst again ordinary now)
unfolding claim occupy
claim-Evolves id actor inst again ordinary now =
    Along-bind evolves _ _
      (Along-if evolves ordinary (check_unresolved again inst.name) (pure tt)
        (λ _. check_unresolved-Evolves again inst.name) (λ _. Along-pure evolves tt))
      λ _. Along-bind evolves _ _ (start_owner-Evolves id actor again inst.name) λ _.
        Along-bind evolves _ _ (mark_deleting-Evolves inst again ordinary now) λ _.
          Along-if evolves again (pure tt) (insert_fence inst.id id) (λ _. Along-pure evolves tt)
            (λ _. insert_fence-Evolves inst.id id)

pub begin_cleanup-Evolves :
    (request_id actor : String) (inst : Instance) (now : Time)
    → Along Evolves (begin_cleanup request_id actor inst now)
unfolding begin_cleanup raise_fence
begin_cleanup-Evolves request_id actor inst now = Along-transact evolves _ (
    Along-bind evolves _ _ (fence_owner-Evolves inst.id) λ owner.
      Along-bind evolves _ _ (Along-raise_if evolves _ _) λ _.
        Along-bind evolves _ _ (request_command-Evolves request_id actor)
          λ command. claim-Evolves request_id actor inst (is_some owner) (command == "delete") now)

pub commit_cleanup-Evolves : (r : CleanupReceipt) → Along Evolves (commit_cleanup r)
unfolding commit_cleanup commit_receipt
commit_cleanup-Evolves r = Along-bind evolves _ _ (Along-refuse evolves (check_receipt r)) λ _.
    Along-bind evolves _ _ (Along-query evolves _) λ _. Along-transact evolves _ (
      Along-bind evolves _ _ (finish_owner-Evolves r) λ _.
        Along-bind evolves _ _ (write_tombstone-Evolves r)
          λ _. Along-bind evolves _ _ (insert_receipt-Evolves r) λ _. delete_fence-Evolves r)
