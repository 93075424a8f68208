-- ===== src/Store/Cleanup.antt =====
-- internal/store/cleanup.go: enrollment keys, fences around an authoritative deletion, and receipts.
pub mod Steps
pub mod Commit
pub mod Begin
use srv.Base.{
  ℕ, String, Bool, true, false, Option, none, some, List, ◌∷◌, not, ◌&&◌, ◌||◌, ◌==◌, ◌!=◌, nat_eq,
  string_eq, if◌then◌else◌,
}
use srv.Base.Int.{ℤ, pos}
use srv.Base.Lists.{count_where, find_where, exists_where, delete_where}
use srv.Model.{
  Time, Instance, RequestRow, LifecycleRequest, CleanupReceipt, kind_vm, kind_orb, image_name,
}
use srv.Model.Phase.{Phase, admitted, executing, done, failed, cancelled, interrupted, phase_eq}
use srv.Model.State
use srv.Model.State.{State, deleting, deleted, state_eq}
use srv.Store.Tables.{Tables, EnrollmentKey, Fence, ReceiptRow}
use srv.Store.Session.{
  Action, Error, refuse, pure, raise_if, exec, insert, query, query_row, optional, rows_affected,
  transact, ◌>>=◌, ◌>>◌, enrollment_identity, fenced, owned_elsewhere, owner_missing, cannot_begin,
  incarnation, incomplete_proof, auth_key, vm_identity, tailnet_disposition, no_longer_executing,
  identity_changed, fence_changed,
}
use srv.Store.Requests.{of_actor, update_requests, get_lifecycle_request, time_string}
use srv.Store.Requests.Phases.{is_delete}
use srv.Store.Instances.{update_instances}

unfoldable pub record_enrollment_key : String → String → Action (Unit {0})
unfolding insert ◌>>=◌
record_enrollment_key instance_id key_id = do
  raise_if (instance_id == "" || key_id == "") enrollment_identity
  insert λ t.
      if exists_where (λ (e : EnrollmentKey). e.instance_id == instance_id) t.enrollment_keys
      then none
      else some (record t {
        enrollment_keys =
            (record { instance_id = instance_id; key_id = key_id }) ∷ t.enrollment_keys;
      })

abbrev key_of : Option EnrollmentKey → Option String
key_of none = none
key_of (some e) = some e.key_id

unfoldable pub enrollment_key : String → Action String
unfolding query_row
enrollment_key instance_id =
    query_row (λ t. key_of (find_where (λ e. e.instance_id == instance_id) t.enrollment_keys))

unfoldable pub check_cleanup_fence : String → Action (Unit {0})
unfolding query ◌>>=◌
check_cleanup_fence instance_id = do
  fence ← query (λ t. exists_where (λ f. f.instance_id == instance_id) t.fences)
  raise_if fence fenced

abbrev owner_row : List RequestRow → Option Fence → Option RequestRow
owner_row requests none = none
owner_row requests (some f) = find_where (λ r. r.id == f.request_id) requests

abbrev id_actor : Option RequestRow → Option (String × String)
id_actor none = none
id_actor (some r) = some (r.id, r.actor)

unfoldable pub cleanup_request : String → Action LifecycleRequest
unfolding query_row get_lifecycle_request ◌>>=◌
cleanup_request instance_id = do
  owner ←
      query_row λ t.
        id_actor (owner_row t.requests (find_where (λ f. f.instance_id == instance_id) t.fences))
  get_lifecycle_request owner.0 owner.1

abbrev pub owner_of : Option Fence → Option String
owner_of none = none
owner_of (some f) = some f.request_id

abbrev pub command_of : Option RequestRow → Option String
command_of none = none
command_of (some r) = some r.command

-- the phases that a first attempt and a resumed one may start from
abbrev pub can_start : Bool → Phase → Bool
can_start true p = p == executing || p == interrupted
can_start false p = p == admitted || (p == failed || p == cancelled)

abbrev pub live : State → Bool
live deleting = false
live deleted = false
live _ = true

-- the states that the instance may be in; only `delete` adopts legacy rows in `deleting`
abbrev pub can_delete : Bool → Bool → State → Bool
can_delete true ordinary s = s == deleting
can_delete false true s = live s || s == deleting
can_delete false false s = live s

abbrev pub unresolved : String → RequestRow → Bool
unresolved name r =
    r.name == name && (is_delete r.command && (r.phase == executing || r.phase == interrupted))

abbrev same_incarnation : Time → Instance → Instance → Bool
same_incarnation now inst i =
    i.id == inst.id
    && (i.name == inst.name
        && (i.created_at == time_string now inst.created_at
            && (i.created_by_user == inst.created_by_user
                && (i.created_by_node == inst.created_by_node
                    && i.tailnet_node_id == inst.tailnet_node_id))))

-- INSERT INTO cleanup_fences: PRIMARY KEY(instance_id), UNIQUE(request_id)
unfoldable pub insert_fence : String → String → Action (Unit {0})
unfolding insert
insert_fence instance_id request_id = insert λ t.
    if exists_where (λ (f : Fence). f.instance_id == instance_id || f.request_id == request_id)
      t.fences
    then none
    else some (record t {
      fences = (record { instance_id = instance_id; request_id = request_id }) ∷ t.fences;
    })

abbrev pub is_some {ℓ} : {A : Type ℓ} → Option A → Bool
is_some none = false
is_some (some _) = true

-- A fence may be resumed by its owner alone.
abbrev pub owned_by : String → Option String → Bool
owned_by request_id none = true
owned_by request_id (some owner) = owner == request_id

abbrev pub may_start : String → String → Bool → String → RequestRow → Bool
may_start request_id actor resume name r =
    of_actor request_id actor r
    && (is_delete r.command && (r.name == name && can_start resume r.phase))

abbrev pub restart : RequestRow → RequestRow
restart r = record r { phase = executing; exit_code = pos 0 }

unfoldable pub start_owner : String → String → Bool → String → Action (Unit {0})
unfolding update_requests rows_affected ◌>>=◌
start_owner request_id actor resume name = do
  result ← update_requests (may_start request_id actor resume name) restart
  n ← rows_affected result
  raise_if (n != 1) cannot_begin

abbrev pub may_delete : Time → Instance → Bool → Bool → Instance → Bool
may_delete now inst resume ordinary i =
    same_incarnation now inst i && can_delete resume ordinary i.state

abbrev pub to_deleting : Time → Instance → Instance
to_deleting now i = record i { state = deleting; updated_at = time_string now now }

unfoldable pub mark_deleting : Instance → Bool → Bool → Time → Action (Unit {0})
unfolding update_instances rows_affected ◌>>=◌ time_string
mark_deleting inst resume ordinary now = do
  result ← update_instances (may_delete now inst resume ordinary) (to_deleting now)
  n ← rows_affected result
  raise_if (n != 1) incarnation

unfoldable pub check_unresolved : Bool → String → Action (Unit {0})
unfolding query ◌>>=◌
check_unresolved true name = pure tt
check_unresolved false name = do
  found ← query (λ t. exists_where (unresolved name) t.requests)
  raise_if found owner_missing

unfoldable pub fence_owner : String → Action (Option String)
unfolding query_row optional
fence_owner instance_id =
    optional (query_row (λ t. owner_of (find_where (λ f. f.instance_id == instance_id) t.fences)))

unfoldable pub request_command : String → String → Action String
unfolding query_row
request_command request_id actor =
    query_row (λ t. command_of (find_where (of_actor request_id actor) t.requests))

-- the three writes
unfoldable pub occupy : String → String → Instance → Bool → Bool → Time → Action (Unit {0})
unfolding start_owner mark_deleting insert_fence ◌>>=◌
occupy request_id actor inst resume ordinary now = do
  start_owner request_id actor resume inst.name
  mark_deleting inst resume ordinary now
  if resume then pure tt else insert_fence inst.id request_id

-- what follows the check of the command
unfoldable pub claim : String → String → Instance → Bool → Bool → Time → Action (Unit {0})
unfolding check_unresolved occupy ◌>>=◌
claim request_id actor inst resume ordinary now = do
  if ordinary then check_unresolved resume inst.name else pure tt
  occupy request_id actor inst resume ordinary now

-- The transaction of BeginCleanup.
unfoldable pub raise_fence : String → String → Instance → Time → Action (Unit {0})
unfolding fence_owner request_command claim ◌>>=◌
raise_fence request_id actor inst now = do
  owner ← fence_owner inst.id
  raise_if (not (owned_by request_id owner)) owned_elsewhere
  command ← request_command request_id actor
  claim request_id actor inst (is_some owner) (command == "delete") now

abbrev is_version : ℕ → ℤ → Bool
is_version n (pos m) = m == n
is_version n (ℤ.negsuc m) = false

unfoldable pub begin_cleanup : String → String → Instance → Time → Action (Unit {0})
unfolding raise_fence transact
begin_cleanup request_id actor inst now = transact (raise_fence request_id actor inst now)

-- CleanupReceipt.ValidCopyScope of internal/model/cleanup.go
unfoldable pub valid_copy_scope : CleanupReceipt → Bool
valid_copy_scope r =
    is_version 3 r.version
      && (r.backups_absent && (r.snapshots_absent && is_some r.retained_templates))
    || (is_version 4 r.version
          && (r.backups_absent && (not r.snapshots_absent && not (is_some r.retained_templates)))
        || is_version 5 r.version
          && (not r.snapshots_absent
              && (not (is_some r.retained_templates)
                  && ((r.kind == kind_orb || r.kind == kind_vm) && not r.backups_absent))))

-- What a receipt must say before anything is written.
unfoldable pub complete : CleanupReceipt → Bool
unfolding valid_copy_scope
complete r =
    valid_copy_scope r
    && (r.gateways_absent
        && ((r.kind == kind_orb || r.kind == kind_vm)
            && (r.backend_id != ""
                && (r.image != ""
                    && (r.request_id != ""
                        && (r.actor != ""
                            && (r.instance_id != ""
                                && (r.name != ""
                                    && (r.created_at != 0
                                        && (r.created_by_user != ""
                                            && (r.created_by_node != ""
                                                && (r.deleted_at != 0
                                                    && (r.ingress_closed
                                                        && (r.runtime_absent
                                                            && (r.jailer_absent
                                                            && (r.cgroup_absent
                                                            && (r.network_absent
                                                            && (r.storage_absent
                                                            && (r.rootfs_path != ""
                                                            && (r.instance_dir != ""
                                                            && (r.backups_dir != ""
                                                            && (r.tap_device != ""
                                                            && r.network_cidr
                                                            != ""))))))))))))))))))))))

abbrev pub tailnet_known : CleanupReceipt → Bool
tailnet_known r =
    r.tailnet_node_id == "" && r.tailnet_disposition == "absent"
    || r.tailnet_node_id != ""
      && (r.tailnet_disposition == "removed" || r.tailnet_disposition == "retained")

-- The first check that a receipt does not pass.
unfoldable pub check_receipt : CleanupReceipt → Option Error
unfolding complete
check_receipt r =
    if not (complete r)
    then some incomplete_proof
    else if r.kind == kind_orb
        && (r.auth_key_disposition != "never-minted" || r.tailnet_node_id != "")
    then some auth_key
    else if r.kind == kind_vm
        && (not (is_version 5 r.version) || r.auth_key_disposition != "not-asserted")
    then some vm_identity
    else if is_version 5 r.version && not (tailnet_known r)
    then some tailnet_disposition
    else none

abbrev pub owns : CleanupReceipt → RequestRow → Bool
owns r q =
    of_actor r.request_id r.actor q
    && (is_delete q.command && (q.name == r.name && q.phase == executing))

abbrev pub succeed : RequestRow → RequestRow
succeed q = record q { phase = done; exit_code = pos 0 }

unfoldable pub finish_owner : CleanupReceipt → Action (Unit {0})
unfolding update_requests rows_affected ◌>>=◌
finish_owner r = do
  result ← update_requests (owns r) succeed
  n ← rows_affected result
  raise_if (n != 1) no_longer_executing

-- COALESCE(NULLIF(image,''),'arch') is `image_name`.
unfoldable pub proves : CleanupReceipt → Bool → Instance → Bool
unfolding image_name
proves r enrolled i =
    i.id == r.instance_id
    && (i.name == r.name
        && (i.created_at == r.created_at
            && (i.created_by_user == r.created_by_user
                && (i.created_by_node == r.created_by_node
                    && (i.kind == r.kind
                        && (image_name i.image == r.image
                            && (i.tailnet_node_id == r.tailnet_node_id
                                && (i.rootfs_path == r.rootfs_path
                                    && (i.tap_device == r.tap_device
                                        && (i.network_cidr == r.network_cidr
                                            && (i.state == deleting
                                                && (i.kind == kind_vm || not enrolled))))))))))))

abbrev pub entomb : Time → Instance → Instance
entomb at i = record i {
  state = deleted;
  updated_at = at;
  deleted_at = some at;
  firecracker_pid = pos 0;
  last_error = "";
  tailscale_name = "";
  tailscale_ip = "";
  tailnet_node_id = "";
}

-- EXISTS (SELECT 1 FROM enrollment_keys WHERE instance_id=?)
abbrev pub enrolled : CleanupReceipt → Tables → Bool
enrolled r t =
    exists_where (λ (e : EnrollmentKey). e.instance_id == r.instance_id) t.enrollment_keys

unfoldable pub write_tombstone : CleanupReceipt → Action (Unit {0})
unfolding update_instances rows_affected proves ◌>>=◌
write_tombstone r s =
    (do
      result ← update_instances (proves r (enrolled r s.tables)) (entomb r.deleted_at)
      n ← rows_affected result
      raise_if (n != 1) identity_changed)
      s

abbrev pub receipt_row : CleanupReceipt → ReceiptRow
receipt_row r = record { request_id = r.request_id; actor = r.actor; receipt = r }

-- INSERT INTO cleanup_receipts: PRIMARY KEY(request_id)
unfoldable pub insert_receipt : CleanupReceipt → Action (Unit {0})
unfolding insert
insert_receipt r = insert λ t.
    if exists_where (λ (q : ReceiptRow). q.request_id == r.request_id) t.receipts
    then none
    else some (record t { receipts = receipt_row r ∷ t.receipts })

abbrev pub of_fence : CleanupReceipt → Fence → Bool
of_fence r f = f.instance_id == r.instance_id && f.request_id == r.request_id

-- DELETE FROM cleanup_fences WHERE instance_id=? AND request_id=?
unfoldable pub delete_fences : CleanupReceipt → Action ℕ
unfolding exec
delete_fences r = exec λ t.
    (count_where (of_fence r) t.fences, record t { fences = delete_where (of_fence r) t.fences })

unfoldable pub delete_fence : CleanupReceipt → Action (Unit {0})
unfolding delete_fences rows_affected ◌>>=◌
delete_fence r = do
  result ← delete_fences r
  n ← rows_affected result
  raise_if (n != 1) fence_changed

-- The transaction of CommitCleanup.
unfoldable pub commit_receipt : CleanupReceipt → Action (Unit {0})
unfolding finish_owner write_tombstone insert_receipt delete_fence ◌>>=◌
commit_receipt r = do finish_owner r; write_tombstone r; insert_receipt r; delete_fence r

-- json.Marshal may fail before the transaction: a query that answers nothing.
unfoldable pub commit_cleanup : CleanupReceipt → Action (Unit {0})
unfolding check_receipt query commit_receipt transact ◌>>=◌
commit_cleanup r = do refuse (check_receipt r); query (λ t. tt); transact (commit_receipt r)

abbrev receipt_of : Option ReceiptRow → Option CleanupReceipt
receipt_of none = none
receipt_of (some q) = some q.receipt

unfoldable pub cleanup_receipt : String → String → Action CleanupReceipt
unfolding query_row
cleanup_receipt request_id actor =
    query_row (λ t.
      receipt_of (find_where (λ q. q.request_id == request_id && q.actor == actor) t.receipts))

unfoldable pub cleanup_receipt_for_instance : String → Action CleanupReceipt
unfolding query_row
cleanup_receipt_for_instance instance_id =
    query_row (λ t. receipt_of (find_where (λ q. q.receipt.instance_id == instance_id) t.receipts))
