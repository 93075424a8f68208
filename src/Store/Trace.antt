-- ===== src/Store/Trace.antt =====
-- Sequences of the operations that touch lifecycle_requests, each with whatever calls fail in it.
mod Effects
pub mod Once
use srv.Base.{ℕ, String, Bool, true, false, ◌+◌, List, [], ◌∷◌, ◌==◌, string_eq, if◌then◌else◌}
use srv.Base.Int.{ℤ}
use srv.Model.{Time, Instance, LifecycleRequest, CleanupReceipt}
use srv.Store.Session.{Session, Result, ok, err}
use srv.Store.Session.Atomic.{is_ok}
use srv.Store.Requests.{
  admit_lifecycle_request, finish_lifecycle_request, reject_lifecycle_start,
  interrupt_lifecycle_requests, begin_lifecycle_request, cancel_lifecycle_request, admit_bootstrap,
}
use srv.Store.Cleanup.{begin_cleanup, commit_cleanup}

pub data Op : Type 0 where
  admit : LifecycleRequest → Time → Op
  begin : String → String → Op
  finish : String → String → ℤ → Op
  reject : String → String → Op
  interrupt : Op
  cancel : LifecycleRequest → Time → Op
  bootstrap : LifecycleRequest → String → Time → ℤ → Time → Op
  clean : String → String → Instance → Time → Op
  commit : CleanupReceipt → Op

pub apply : Op → Session → Session
apply (admit r now) s = (admit_lifecycle_request r now s).1
apply (begin id actor) s = (begin_lifecycle_request id actor s).1
apply (finish id actor code) s = (finish_lifecycle_request id actor code s).1
apply (reject id actor) s = (reject_lifecycle_start id actor s).1
apply interrupt s = (interrupt_lifecycle_requests s).1
apply (cancel r now) s = (cancel_lifecycle_request r now s).1
apply (bootstrap r id created generation now) s = (admit_bootstrap r id created generation now s).1
apply (clean id actor inst now) s = (begin_cleanup id actor inst now s).1
apply (commit r) s = (commit_cleanup r s).1

pub run : List Op → Session → Session
run [] s = s
run (op ∷ ops) s = run ops (apply op s)

abbrev pub is_true : Result Bool → Bool
is_true (ok b) = b
is_true (err e) = false

abbrev pub one_if : Bool → ℕ
one_if b = if b then 1 else 0

-- whether an operation told its caller to execute the request `id`
pub started : String → Op → Session → ℕ
started id (begin k actor) s =
    if k == id then one_if (is_ok (begin_lifecycle_request k actor s).0) else 0
started id (bootstrap r inst created generation now) s =
    if r.id == id then one_if (is_ok (admit_bootstrap r inst created generation now s).0) else 0
started id _ s = 0

pub starts : String → List Op → Session → ℕ
starts id [] s = 0
starts id (op ∷ ops) s = started id op s + starts id ops (apply op s)

-- whether an operation told its caller that it admitted the request `id`
pub accepted : String → Op → Session → ℕ
accepted id (admit r now) s =
    if r.id == id then one_if (is_true (admit_lifecycle_request r now s).0) else 0
accepted id _ s = 0

pub admissions : String → List Op → Session → ℕ
admissions id [] s = 0
admissions id (op ∷ ops) s = accepted id op s + admissions id ops (apply op s)
