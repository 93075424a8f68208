-- ===== src/Launch/Stop.antt =====
-- internal/vmrunner/receipts.go: receiptStop with a request ID, and stopReceiptLocked.
use srv.Launch.Start.{owns, is_gone, finish_dead, close_dead, no_live_runtime}
use srv.Effect.{stop_if, attempt, stop, ◌>>=◌, ◌>>◌, give, read, ◌>>=◌, ask, check}
use srv.Launch.{
  absent, unknown, running, cannot_save, stage_eq, quarantined, several, started, incomplete,
  closed, running, live, not_found, world, Receipt, StopRequest, Step, active_receipt, read_receipt,
  write_receipt, Response, is_complete,
}
use srv.Base.{
  string_eq, true, ◌||◌, none, ◌!=◌, nat_eq, not, some, ◌&&◌, ◌==◌, Option, if◌then◌else◌, ℕ,
  String,
}

module _ (key : String → String) where
  -- `finish_dead` must have found the machine gone
  abbrev pub must_be_absent : Response → Step (Unit {0})
  must_be_absent absent = give tt
  must_be_absent unknown = stop live
  must_be_absent (running pid) = stop live

  -- waitPidfd: 2 is a timeout
  abbrev pub wait_or_kill : ℕ → Step (Unit {0})
  wait_or_kill n = if n == 2 then (do check world; check world) else give tt

  -- ask the guest, or capture its memory, then wait and kill
  unfoldable pub end_process : Receipt → Step (Unit {0})
  end_process r = do
    check world
    check world
    if r.save_state then check world else give tt
    n ← ask
    stop_if (n == 0) world
    wait_or_kill n

  unfoldable pub end_owned : Receipt → Step (Unit {0})
  end_owned r = do end_process r; no_live_runtime key; closed_now ← close_dead key r; give tt

  unfoldable pub stop_running : Receipt → Step (Unit {0})
  stop_running r = do
    n ← ask
    stop_if (n == 0) world
    if is_gone key r n then (do found ← finish_dead key r; must_be_absent found) else (do
      a ← attempt (active_receipt key r.attempted.name)
      stop_if (not (owns key r a)) several
      end_owned r)

  unfoldable pub stop_receipt_locked : Receipt → Step (Unit {0})
  stop_receipt_locked r = do
    check world
    boot ← read (λ s. s.boot)
    if r.stage == closed
        then give tt
        else if r.attempted.host_boot_id != boot
        then (do found ← finish_dead key r; must_be_absent found)
        else if r.stage != started
        then stop quarantined
        else stop_running r

  -- the choice to save memory is recorded before the machine is stopped
  unfoldable pub stop_known : StopRequest → Receipt → Step (Unit {0})
  stop_known q r =
      if q.save_state && not r.save_state
      then (do
        stop_if (r.stage != started || r.resume_config == "") cannot_save
        check world
        write_receipt key (record r { save_state = true })
        stop_receipt_locked (record r { save_state = true }))
      else stop_receipt_locked r

  abbrev pub stop_found : StopRequest → Option Receipt → Step (Unit {0})
  stop_found q none = stop not_found
  stop_found q (some r) = do
    stop_known q r
    if q.save_state then (do check world; check world) else give tt

  unfoldable pub receipt_stop : StopRequest → Step (Unit {0})
  receipt_stop q = do
    check world
    stop_if (not (is_complete q.attempted)) incomplete
    r ← read_receipt key q.attempted
    stop_found q r
