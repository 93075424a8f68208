-- ===== src/Launch/Start.antt =====
-- internal/vmrunner/receipts.go: starting, resolving and stopping attempts. `attempt_start` is a
-- managed start; a request without an ID takes the legacy path, which uses no receipt.
use srv.Store.Cleanup.{is_some}
use srv.Launch.{
  incomplete, mismatch, occupied, accepted, live, world, stage_eq, started, absent, running,
  same_attempt, unknown, Response, Stage, Step, closed, read_receipt, Attempt, Receipt,
  StartRequest, active_receipt, is_complete, write_receipt,
}
use srv.Effect.{stop_if, ◌>>=◌, ◌>>◌, give, attempt, read, ask, check, write, ◌>>=◌}
use srv.Base.{
  not, string_eq, ◌&&◌, ◌∷◌, ◌-◌, nat_eq, leb, none, ◌+◌, ◌!=◌, some, ◌||◌, false, if◌then◌else◌,
  ◌==◌, Bool, ℕ, Option, String,
}

module _ (key : String → String) where
  -- nothing of the name runs: cgroups, then the socket
  unfoldable pub no_live_runtime : Step (Unit {0})
  no_live_runtime = do check live; check live

  unfoldable pub name_vacant : String → Step (Unit {0})
  name_vacant name = do
    a ← active_receipt key name
    stop_if (is_some a) occupied
    no_live_runtime
    check world
    check occupied
    check occupied

  -- what the code does with the receipt that is active, or not known
  abbrev pub owns : Receipt → Option (Option Receipt) → Bool
  owns r none = false
  owns r (some none) = false
  owns r (some (some a)) = same_attempt a.attempted r.attempted

  -- cleanups of the cgroup and of the runtime, and the receipt
  unfoldable pub close_dead : Receipt → Step Response
  close_dead r = do
    check world
    check world
    write_receipt key (record r { stage = closed })
    give absent

  abbrev pub if_gone : Receipt → Option (Unit {0}) → Step Response
  if_gone r none = give unknown
  if_gone r (some u) = close_dead r

  unfoldable pub finish_dead : Receipt → Step Response
  finish_dead r = do
    a ← attempt (active_receipt key r.attempted.name)
    if owns r a then (do gone ← attempt no_live_runtime; if_gone r gone) else give unknown

  abbrev pub if_vacant : Option (Unit {0}) → Step Response
  if_vacant none = give unknown
  if_vacant (some u) = give absent

  abbrev pub if_valid : Receipt → Option (Unit {0}) → Step Response
  if_valid r none = give unknown
  if_valid r (some u) = give (running r.pid)

  -- processTicks: 1 is a process that is gone, n + 2 the start time n
  abbrev pub is_gone : Receipt → ℕ → Bool
  is_gone r n = n == 1 || n != r.ticks + 2

  -- a started attempt on this boot
  unfoldable pub probe : Receipt → Step Response
  probe r = do
    a ← attempt (active_receipt key r.attempted.name)
    if owns r a
        then (do
          n ← ask
          stop_if (n == 0) world
          if is_gone r n
              then finish_dead r
              else (do valid ← attempt (check world); if_valid r valid))
        else give unknown

  unfoldable pub result_locked : Receipt → Step Response
  result_locked r = do
    check world
    boot ← read (λ s. s.boot)
    if r.stage == closed
        then (do vacant ← attempt (name_vacant r.attempted.name); if_vacant vacant)
        else if r.attempted.host_boot_id != boot
        then finish_dead r
        else if r.stage == accepted
        then give unknown
        else probe r

  -- the call of `start`: it may fail after it has launched
  unfoldable pub launch : Attempt → Step ℕ
  launch a = do
    write λ s. record s { launches = a ∷ s.launches }
    pid ← ask
    stop_if (pid == 0) live
    give pid

  abbrev pub fresh : StartRequest → Stage → Receipt
  fresh q stage = record {
    attempted = q.attempted;
    digest = key q.payload;
    stage = stage;
    pid = 0;
    ticks = 0;
    resume_config = if stage == closed then "" else key q.config;
    save_state = false;
  }

  abbrev pub if_launched : StartRequest → Option ℕ → Step Response
  if_launched q none = give unknown
  if_launched q (some pid) = do
    n ← ask
    if leb n 1
        then give unknown
        else (let r = record (fresh q started) { pid = pid; ticks = n - 2 } in
            do write_receipt key r; result_locked r)

  -- accepted, launched, and recorded
  unfoldable pub accept : StartRequest → Step Response
  accept q = do
    write_receipt key (fresh q accepted)
    launched ← attempt (launch q.attempted)
    if_launched q launched

  abbrev pub if_ram : StartRequest → Option (Unit {0}) → Step Response
  if_ram q none = do write_receipt key (fresh q closed); give absent
  if_ram q (some u) = accept q

  -- no runtime is there, then the saved memory fits
  unfoldable pub prepare : StartRequest → Step Response
  prepare q = do
    check world
    n ← ask
    stop_if (n == 0) world
    if n == 2 then give unknown else (do ram ← attempt (check world); if_ram q ram)

  abbrev pub if_free : StartRequest → Option Receipt → Step Response
  if_free q (some a) = give unknown
  if_free q none = do n ← ask; stop_if (n == 0) world; if n == 2 then give unknown else prepare q

  -- an attempt that has no receipt yet
  unfoldable pub start_new : StartRequest → Step Response
  start_new q = do
    check world
    check world
    boot ← read (λ s. s.boot)
    if boot != q.attempted.host_boot_id
        then (do write_receipt key (fresh q closed); result_locked (fresh q closed))
        else (do a ← active_receipt key q.attempted.name; if_free q a)

  abbrev pub known_or_new : StartRequest → Option Receipt → Step Response
  known_or_new q none = start_new q
  known_or_new q (some r) = do
    stop_if (r.digest != "" && r.digest != key q.payload) mismatch
    result_locked r

  -- receiptStart with a request ID; the first call takes the lock
  unfoldable pub receipt_start : StartRequest → Step Response
  receipt_start q = do
    check world
    stop_if (not (is_complete q.attempted)) incomplete
    r ← read_receipt key q.attempted
    known_or_new q r

  abbrev pub tombstone : Attempt → Receipt
  tombstone a = record {
    attempted = a;
    digest = "";
    stage = closed;
    pid = 0;
    ticks = 0;
    resume_config = "";
    save_state = false;
  }

  abbrev pub known_or_fenced : Attempt → Option Receipt → Step Response
  known_or_fenced a none = do write_receipt key (tombstone a); result_locked (tombstone a)
  known_or_fenced a (some r) = result_locked r

  -- handleStartResult and resolveStartContext
  unfoldable pub resolve_start : Attempt → Step Response
  resolve_start a = do
    stop_if (not (is_complete a)) incomplete
    check world
    r ← read_receipt key a
    known_or_fenced a r
