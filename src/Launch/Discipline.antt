-- ===== src/Launch/Discipline.antt =====
-- What every operation on receipts keeps, from what it must know at its few writes.
use srv.Launch.Stop.{must_be_absent, end_owned, end_process, stop_receipt_locked, stop_running}
use srv.Effect.{read, ask, give, check, stop_if, attempt}
use srv.Effect.Keeps.{
  Reads-attempt, Keeps-stop_if, Reads-read, Reads-stop_if, Triple-if, Keeps-check, Reads-ask,
  Reads-check, Triple-attempt, Triple-reads, Keeps-give, Triple-bind, Triple-give, Triple-weaken,
  Keeps-bind, keeps_rules, Keeps-Reads, Keeps, reads_rules, Triple, Reads-give, Reads-stop, Reads,
}
use srv.Launch.Start.{
  accept, if_free, if_launched, if_ram, known_or_new, prepare, receipt_start, start_new, tombstone,
  close_dead, finish_dead, if_gone, if_vacant, if_valid, known_or_fenced, probe, resolve_start,
  result_locked, launch, fresh, name_vacant, no_live_runtime,
}
use srv.Launch.{
  incomplete, is_complete, mismatch, world, Step, absent, unknown, running, running, Response,
  started, accepted, write_receipt, corrupt, closed, choose_active, decode, refuse, Error, File,
  Receipt, Runner, Attempt, StartRequest, active_receipt, read_receipt, scan,
}
use srv.Base.{
  nat_eq, string_eq, ◌-◌, leb, not, ◌==◌, ◌&&◌, ◌!=◌, refl, ℕ, [], none, some, ◌∷◌, List, ◌≡◌,
  Option, String,
}

-- one predicate after `none`, another after `some`
abbrev pub Either : (Runner → Type 0) → (Runner → Type 0) → Option Receipt → Runner → Type 0
Either P Q none = P
Either P Q (some r) = Q

module _ (key : String → String) where
  -- `Kept` holds between operations; `Absent` when the attempt has no receipt, `Free` when no other
  -- attempt is open either, `Accepted` and `Launched` after those steps.
  pub record Discipline (q : StartRequest) : Type 1 where
    pub Kept : Runner → Type 0
    pub Absent : Runner → Type 0
    pub Free : Runner → Type 0
    pub Accepted : Runner → Type 0
    pub Launched : Runner → Type 0
    pub absent_kept : (s : Runner) → Absent s → Kept s
    pub free_kept : (s : Runner) → Free s → Kept s
    pub launched_kept : (s : Runner) → Launched s → Kept s
    pub closing :
        (r : Receipt) → r.stage ≡ closed → Triple Kept (write_receipt key r) (λ _. Kept) Kept
    pub reading : Triple Kept (read_receipt key q.attempted) (Either Absent Kept) Kept
    pub scanning : Triple Absent (active_receipt key q.attempted.name) (Either Free Kept) Kept
    pub accepting : Triple Free (write_receipt key (fresh key q accepted)) (λ _. Accepted) Kept
    pub launching : Triple Accepted (launch key q.attempted) (λ _. Launched) Launched
    pub starting :
        (pid ticks : ℕ)
        → Triple Launched
            (write_receipt key (record (fresh key q started) { pid = pid; ticks = ticks }))
            (λ _. Kept)
            Kept

-- Operations that only read.
module _ (key : String → String) where
  pub refuse-Reads : (o : Option Error) → Reads (refuse o)
  refuse-Reads none = Reads-give tt
  refuse-Reads (some e) = Reads-stop e

  decode-Reads : (q : Attempt) (o : Option File) → Reads (decode key q o)
  decode-Reads q none = Reads-give none
  decode-Reads q (some f) = search (reads_rules, refuse-Reads)

  pub read_receipt-Reads : (q : Attempt) → Reads (read_receipt key q)
  unfolding read_receipt
  read_receipt-Reads q = search (reads_rules, decode-Reads)

  choose-Reads : (active checked : Option Receipt) → Reads (choose_active active checked)
  choose-Reads active none = Reads-stop corrupt
  choose-Reads none (some r) = search reads_rules
  choose-Reads (some a) (some r) = search reads_rules

  pub scan-Reads :
      (name : String) (active : Option Receipt) (fs : List File) → Reads (scan key name active fs)
  unfolding scan
  scan-Reads name active [] = Reads-give active
  scan-Reads name active (f ∷ fs) =
      search (
        reads_rules,
        read_receipt-Reads,
        choose-Reads,
        λ (a : Option Receipt). scan-Reads name a fs,
      )

  pub active_receipt-Reads : (name : String) → Reads (active_receipt key name)
  unfolding active_receipt
  active_receipt-Reads name = search (reads_rules, scan-Reads)

  pub no_live_runtime-Reads : Reads (no_live_runtime key)
  unfolding no_live_runtime
  no_live_runtime-Reads = search reads_rules

  pub name_vacant-Reads : (name : String) → Reads (name_vacant key name)
  unfolding name_vacant
  name_vacant-Reads name =
      search (reads_rules, active_receipt-Reads, no_live_runtime-Reads) depth 12

-- Whatever closing writes keep is kept by every operation that only closes.
module _ (key : String → String) {P : Runner → Type 0}
    (closing : (r : Receipt) → r.stage ≡ closed → Keeps P (write_receipt key r)) where
  closed-Keeps : (r : Receipt) → Keeps P (write_receipt key (record r { stage = closed }))
  closed-Keeps r = closing (record r { stage = closed }) refl

  close_dead-Keeps : (r : Receipt) → Keeps P (close_dead key r)
  unfolding close_dead
  close_dead-Keeps r = Keeps-bind (check world) _ (Keeps-check world) λ _.
      Keeps-bind (check world) _ (Keeps-check world) λ _.
        Keeps-bind (write_receipt key (record r { stage = closed })) (λ _. give absent)
          (closed-Keeps r) λ _. Keeps-give absent

  if_gone-Keeps : (r : Receipt) (o : Option (Unit {0})) → Keeps P (if_gone key r o)
  if_gone-Keeps r none = search keeps_rules
  if_gone-Keeps r (some u) = close_dead-Keeps r

  gone-Keeps : Keeps P (attempt (no_live_runtime key))
  gone-Keeps = Keeps-Reads _ (search (reads_rules, no_live_runtime-Reads key))

  active-Keeps : (name : String) → Keeps P (active_receipt key name)
  active-Keeps name = Keeps-Reads (active_receipt key name) (active_receipt-Reads key name)

  pub finish_dead-Keeps : (r : Receipt) → Keeps P (finish_dead key r)
  unfolding finish_dead
  finish_dead-Keeps r = search (keeps_rules, if_gone-Keeps, gone-Keeps, active-Keeps) depth 9

  if_valid-Keeps : (r : Receipt) (o : Option (Unit {0})) → Keeps P (if_valid key r o)
  if_valid-Keeps r none = search keeps_rules
  if_valid-Keeps r (some u) = search keeps_rules

  probe-Keeps : (r : Receipt) → Keeps P (probe key r)
  unfolding probe
  probe-Keeps r = search (keeps_rules, if_valid-Keeps, finish_dead-Keeps, active-Keeps) depth 12

  if_vacant-Keeps : (o : Option (Unit {0})) → Keeps P (if_vacant key o)
  if_vacant-Keeps none = search keeps_rules
  if_vacant-Keeps (some u) = search keeps_rules

  vacant-Keeps : (name : String) → Keeps P (attempt (name_vacant key name))
  vacant-Keeps name = Keeps-Reads _ (search (reads_rules, name_vacant-Reads key))

  pub result_locked-Keeps : (r : Receipt) → Keeps P (result_locked key r)
  unfolding result_locked
  result_locked-Keeps r =
      search (keeps_rules, if_vacant-Keeps, vacant-Keeps, finish_dead-Keeps, probe-Keeps) depth 12

  read_receipt-Keeps : (q : Attempt) → Keeps P (read_receipt key q)
  read_receipt-Keeps q = Keeps-Reads (read_receipt key q) (read_receipt-Reads key q)

  known_or_fenced-Keeps : (a : Attempt) (o : Option Receipt) → Keeps P (known_or_fenced key a o)
  known_or_fenced-Keeps a none =
      search (keeps_rules, closing (tombstone key a) refl, result_locked-Keeps) depth 9
  known_or_fenced-Keeps a (some r) = result_locked-Keeps r

  pub resolve_start-Keeps : (a : Attempt) → Keeps P (resolve_start key a)
  unfolding resolve_start
  resolve_start-Keeps a = search (keeps_rules, known_or_fenced-Keeps, read_receipt-Keeps) depth 12

  must_be_absent-Keeps : (o : Response) → Keeps P (must_be_absent key o)
  must_be_absent-Keeps absent = search keeps_rules
  must_be_absent-Keeps unknown = search keeps_rules
  must_be_absent-Keeps (running pid) = search keeps_rules

  end_process-Keeps : (r : Receipt) → Keeps P (end_process key r)
  unfolding end_process
  end_process-Keeps r = search keeps_rules depth 15

  live-Keeps : Keeps P (no_live_runtime key)
  live-Keeps = Keeps-Reads (no_live_runtime key) (no_live_runtime-Reads key)

  end_owned-Keeps : (r : Receipt) → Keeps P (end_owned key r)
  unfolding end_owned
  end_owned-Keeps r = search (keeps_rules, end_process-Keeps, live-Keeps, close_dead-Keeps) depth 9

  stop_running-Keeps : (r : Receipt) → Keeps P (stop_running key r)
  unfolding stop_running
  stop_running-Keeps r =
      search (keeps_rules, finish_dead-Keeps, must_be_absent-Keeps, active-Keeps, end_owned-Keeps)
        depth 12

  pub stop_receipt_locked-Keeps : (r : Receipt) → Keeps P (stop_receipt_locked key r)
  unfolding stop_receipt_locked
  stop_receipt_locked-Keeps r =
      search (keeps_rules, finish_dead-Keeps, must_be_absent-Keeps, stop_running-Keeps) depth 12

-- A start keeps what its discipline keeps.
module _ (key : String → String) (q : StartRequest) (d : Discipline key q) where
  open d use {
    Kept, Absent, Free, Accepted, Launched, absent_kept, free_kept, launched_kept, closing, reading,
    scanning, accepting, launching, starting,
  }

  result-Kept : (r : Receipt) → Keeps Kept (result_locked key r)
  result-Kept r = result_locked-Keeps key closing r

  if_launched-Kept : (o : Option ℕ) → Triple Launched (if_launched key q o) (λ _. Kept) Kept
  if_launched-Kept none = Triple-give unknown launched_kept
  if_launched-Kept (some pid) =
      Triple-bind ask _
        (Triple-weaken ask (Triple-reads ask Reads-ask) (λ s p. p) (λ n s p. p) launched_kept)
        λ n.
          Triple-if (leb n 1) (give unknown) _ (λ _. Triple-give unknown launched_kept)
            λ _.
              Triple-bind
                (write_receipt key (record (fresh key q started) { pid = pid; ticks = n - 2 })) _
                (starting pid (n - 2)) λ _. result-Kept _

  accept-Kept : Triple Free (accept key q) (λ _. Kept) Kept
  unfolding accept
  accept-Kept = Triple-bind (write_receipt key (fresh key q accepted)) _ accepting λ _.
      Triple-bind (attempt (launch key q.attempted)) _
        (Triple-attempt (launch key q.attempted) launching) if_launched-Kept

  start_closed-Kept : Keeps Kept (write_receipt key (fresh key q closed))
  start_closed-Kept = closing (fresh key q closed) refl

  if_ram-Kept : (o : Option (Unit {0})) → Triple Free (if_ram key q o) (λ _. Kept) Kept
  if_ram-Kept none =
      Triple-weaken (if_ram key q none)
        (Keeps-bind (write_receipt key (fresh key q closed)) (λ _. give absent) start_closed-Kept
          λ _. Keeps-give absent)
        free_kept (λ _ s p. p) (λ s p. p)
  if_ram-Kept (some u) = accept-Kept

  -- steps before the acceptance
  free_read : {A : Type 0} (m : Step A) → Reads m → Triple Free m (λ _. Free) Kept
  free_read m r = Triple-weaken m (Triple-reads m r) (λ s p. p) (λ _ s p. p) free_kept

  absent_read : {A : Type 0} (m : Step A) → Reads m → Triple Absent m (λ _. Absent) Kept
  absent_read m r = Triple-weaken m (Triple-reads m r) (λ s p. p) (λ _ s p. p) absent_kept

  prepare-Kept : Triple Free (prepare key q) (λ _. Kept) Kept
  unfolding prepare
  prepare-Kept = Triple-bind (check world) _ (free_read (check world) (Reads-check world)) λ _.
      Triple-bind ask _ (free_read ask Reads-ask) λ n.
        Triple-bind (stop_if (n == 0) world) _
          (free_read (stop_if (n == 0) world) (Reads-stop_if _ _))
          λ _.
            Triple-if (n == 2) (give unknown) _ (λ _. Triple-give unknown free_kept)
              λ _.
                Triple-bind (attempt (check world)) _
                  (free_read (attempt (check world))
                    (Reads-attempt (check world) (Reads-check world)))
                  if_ram-Kept

  if_free-Kept :
      (o : Option Receipt) → Triple (Either Free Kept o) (if_free key q o) (λ _. Kept) Kept
  if_free-Kept (some a) = Keeps-give unknown
  if_free-Kept none = Triple-bind ask _ (free_read ask Reads-ask) λ n.
      Triple-bind (stop_if (n == 0) world) _
        (free_read (stop_if (n == 0) world) (Reads-stop_if _ _))
        λ _.
          Triple-if (n == 2) (give unknown) (prepare key q) (λ _. Triple-give unknown free_kept)
            λ _. prepare-Kept

  start_new-Kept : Triple Absent (start_new key q) (λ _. Kept) Kept
  unfolding start_new
  start_new-Kept = Triple-bind (check world) _ (absent_read (check world) (Reads-check world)) λ _.
      Triple-bind (check world) _ (absent_read (check world) (Reads-check world)) λ _.
        Triple-bind (read (λ s. s.boot)) _ (absent_read (read (λ s. s.boot)) (Reads-read _)) λ boot.
          Triple-if (boot != q.attempted.host_boot_id) _ _
            (λ _.
              Triple-weaken _
                (Keeps-bind (write_receipt key (fresh key q closed)) _ start_closed-Kept
                  λ _. result-Kept (fresh key q closed))
                absent_kept (λ _ s p. p) (λ s p. p))
            λ _. Triple-bind (active_receipt key q.attempted.name) _ scanning if_free-Kept

  known_or_new-Kept :
      (o : Option Receipt) → Triple (Either Absent Kept o) (known_or_new key q o) (λ _. Kept) Kept
  known_or_new-Kept none = start_new-Kept
  known_or_new-Kept (some r) =
      Keeps-bind (stop_if (r.digest != "" && r.digest != key q.payload) mismatch) _
        (Keeps-stop_if _ _) λ _. result-Kept r

  pub receipt_start-Kept : Keeps Kept (receipt_start key q)
  unfolding receipt_start
  receipt_start-Kept = Keeps-bind (check world) _ (Keeps-check world) λ _.
      Keeps-bind (stop_if (not (is_complete q.attempted)) incomplete) _ (Keeps-stop_if _ _)
        λ _. Triple-bind (read_receipt key q.attempted) _ reading known_or_new-Kept
