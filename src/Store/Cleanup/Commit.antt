-- ===== src/Store/Cleanup/Commit.antt =====
-- CommitCleanup of internal/store/cleanup.go: what a success says.
use srv.Store.Session.Along.{Along-query, same, Along-refuse}
use srv.Store.Tables.{Tables}
use srv.Base.Lists.{update_where, delete_where, count_where}
use srv.Base.{◌∙◌, none, arith, ◌∷◌, true, ◌≡◌}
use srv.Store.Session.Atomic.{refuse-ok, bind-ok, begun, transact-ok, is_ok}
use srv.Model.{CleanupReceipt}
use srv.Store.Session.{refuse, transact, Session, query, exec, call, ◌>>=◌, insert, rows_affected}
use srv.Store.Instances.{retained, update_instances}
use srv.Store.Requests.{update_requests}
use srv.Store.Cleanup.{
  check_receipt, commit_cleanup, commit_receipt, delete_fences, entomb, succeed, enrolled, owns,
  proves, receipt_row, delete_fence, finish_owner, insert_receipt, write_tombstone, of_fence,
}

finish_effect :
    (r : CleanupReceipt) (s : Session)
    → is_ok (finish_owner r s).0 ≡ true
    → let t = (finish_owner r s).1.tables in
      (count_where (owns r) s.tables.requests ≡ 1)
      × (t ≡ record s.tables { requests = update_where (owns r) succeed s.tables.requests })
unfolding finish_owner update_requests rows_affected ◌>>=◌ exec query call
finish_effect r s h = ground arith

tombstone_effect :
    (r : CleanupReceipt) (s : Session)
    → is_ok (write_tombstone r s).0 ≡ true
    → let t = (write_tombstone r s).1.tables in
      (count_where (λ i. proves r (enrolled r s.tables) i.inst) s.tables.instances ≡ 1)
      × (t ≡ record s.tables {
        instances =
            update_where
              (λ i. proves r (enrolled r s.tables) i.inst)
              (λ i. retained i (entomb r.deleted_at i.inst))
              s.tables.instances;
      })
unfolding write_tombstone update_instances rows_affected ◌>>=◌ exec query call
tombstone_effect r s h = ground arith

receipt_effect :
    (r : CleanupReceipt) (s : Session)
    → is_ok (insert_receipt r s).0 ≡ true
    → let t = (insert_receipt r s).1.tables in
      (t ≡ record s.tables { receipts = receipt_row r ∷ s.tables.receipts })
unfolding insert_receipt insert call
receipt_effect r s h = ground arith

fence_effect :
    (r : CleanupReceipt) (s : Session)
    → is_ok (delete_fence r s).0 ≡ true
    → let t = (delete_fence r s).1.tables in
      (count_where (of_fence r) s.tables.fences ≡ 1)
      × (t ≡ record s.tables { fences = delete_where (of_fence r) s.tables.fences })
unfolding delete_fence delete_fences rows_affected ◌>>=◌ exec query call
fence_effect r s h = ground arith

-- the tables that a successful CommitCleanup leaves
abbrev pub committed : CleanupReceipt → Tables → Tables
committed r t = record t {
  requests = update_where (owns r) succeed t.requests;
  instances =
      update_where (λ i. proves r (enrolled r t) i.inst)
        (λ i. retained i (entomb r.deleted_at i.inst)) t.instances;
  receipts = receipt_row r ∷ t.receipts;
  fences = delete_where (of_fence r) t.fences;
}

statements_effect :
    (r : CleanupReceipt) (s : Session)
    → is_ok (commit_receipt r s).0 ≡ true
    → let t = (commit_receipt r s).1.tables in
      (t ≡ committed r s.tables)
      × ((count_where (owns r) s.tables.requests ≡ 1)
          × ((count_where (λ i. proves r (enrolled r s.tables) i.inst) s.tables.instances ≡ 1)
              × (count_where (of_fence r) s.tables.fences ≡ 1)))
unfolding commit_receipt ◌>>=◌
statements_effect r s h =
    ground (arith, finish_effect r s, tombstone_effect r, receipt_effect r, fence_effect r)

transaction_effect :
    (r : CleanupReceipt) (s : Session)
    → is_ok (transact (commit_receipt r) s).0 ≡ true
    → ((transact (commit_receipt r) s).1.tables ≡ committed r s.tables)
      × ((count_where (owns r) s.tables.requests ≡ 1)
          × ((count_where (λ i. proves r (enrolled r s.tables) i.inst) s.tables.instances ≡ 1)
              × (count_where (of_fence r) s.tables.fences ≡ 1)))
transaction_effect r s h =
    let fine = transact-ok (commit_receipt r) s h in
    let effect = statements_effect r (begun s) fine.0 in (fine.1 ∙ effect.0, effect.1)

-- A CommitCleanup that succeeds had a receipt that passes every check; exactly one executing
-- deletion of that ID, actor and name, exactly one instance that the receipt describes, still in
-- `deleting`, and exactly one fence of that request; and it leaves the request done, the instance
-- a tombstone, the receipt stored and the fence gone, and every other table as it was.
pub commit_cleanup_effect :
    (r : CleanupReceipt) (s : Session)
    → is_ok (commit_cleanup r s).0 ≡ true
    → ((commit_cleanup r s).1.tables ≡ committed r s.tables)
      × ((check_receipt r ≡ none)
          × ((count_where (owns r) s.tables.requests ≡ 1)
              × ((count_where (λ i. proves r (enrolled r s.tables) i.inst) s.tables.instances ≡ 1)
                  × (count_where (of_fence r) s.tables.fences ≡ 1))))
unfolding commit_cleanup
commit_cleanup_effect r s h =
    let checked =
      bind-ok (refuse (check_receipt r)) (λ _. query (λ t. tt) >>= λ _. transact (commit_receipt r))
        s (Along-refuse same (check_receipt r)) h in
    let encoded =
      bind-ok (query (λ t. tt)) (λ _. transact (commit_receipt r)) checked.session
        (Along-query same _) (rw checked.reached at h) in
    let effect =
      transaction_effect r encoded.session (rw (checked.reached, encoded.reached) at h) in
    let unmoved = encoded.unmoved ∙ checked.unmoved in
    rw (checked.reached, encoded.reached, ← unmoved)
      (effect.0, (refuse-ok (check_receipt r) s checked.answer checked.answered, effect.1))
