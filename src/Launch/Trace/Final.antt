-- ===== src/Launch/Trace/Final.antt =====
-- A receipt that is closed stays closed.
use srv.Launch.Trace.{reboot, halt, resolve, start, Call, apply, perform}
use srv.Base.Keys.{exists-find}
use srv.Effect.{Run, ask, check, write, stop_if}
use srv.Effect.Keeps.{
  Keeps-state, keeps_rules, Keeps-check, Keeps-bind, Keeps-stop, Keeps-give, Reads-check, Reads-ask,
  Triple-stop, Keeps-stop_if, Triple-reads, Triple-write, Triple-bind, Triple-if, Triple-weaken,
  Keeps, Triple,
}
use srv.Launch.Discipline.{
  resolve_start-Keeps, receipt_start-Kept, active_receipt-Reads, stop_receipt_locked-Keeps,
  Discipline, Either,
}
use srv.Launch.Files.{
  lookup-put, read_receipt-Triple, file_of, write_receipt-Triple, written, Found, stored,
}
use srv.Launch.Stop.{receipt_stop, stop_found, stop_receipt_locked, stop_known}
use srv.Launch.Start.{resolve_start, receipt_start, fresh, launch}
use srv.Launch.{
  place_eq, place_iff, Place, place_for, incomplete, is_complete, not_found, accepted, live,
  in_file, world, same_stage_iff, active_receipt, cannot_save, stage_eq, read_receipt, closed,
  started, write_receipt, StopRequest, lookup, Attempt, File, Receipt, Runner, StartRequest,
}
use mathlib.Core.Path.{subst}
use srv.Base.{
  sym, [], List, nat_eq, arith, inr, inl, not, ◌||◌, ◌∷◌, Bool-cases, none, string_eq, ◌!=◌, ◌&&◌,
  false, some, true, Bool, ◌==◌, ◌≡◌, Option, String,
}

abbrev pub is_closed : Option File → Bool
is_closed none = false
is_closed (some f) = f.receipt.stage == closed

module _ (key : String → String) (k : Place) where
  abbrev pub Closed : Runner → Type 0
  Closed s = is_closed (lookup k s.files) ≡ true

  -- writes of closed receipts, and of other files
  close-Closed : (r : Receipt) (s : Runner) → r.stage ≡ closed → Closed s → Closed (written key r s)
  close-Closed r s c h =
      rw (lookup-put (file_of key r) k s.files)
        (ground (arith, c, h, same_stage_iff r.stage closed))

  other-Closed :
      (r : Receipt) (s : Runner)
      → (place_for key r.attempted == k) ≡ false
      → Closed s
      → Closed (written key r s)
  other-Closed r s ne h = rw (lookup-put (file_of key r) k s.files) (rw ne h)

  closing-Closed : (r : Receipt) → r.stage ≡ closed → Keeps Closed (write_receipt key r)
  closing-Closed r c =
      write_receipt-Triple key r (λ s p. p) (λ s p. close-Closed r s c p) (λ s p. p)

  abbrev Other : Attempt → Runner → Type 0
  Other a s = Closed s × ((place_for key a == k) ≡ false)

  pub Closed-stored : (s : Runner) → Closed s → stored k s.files ≡ true
  Closed-stored s h = elim (Bool-cases (stored k s.files)) [
    | inl e ↦ e
    | inr e ↦ absurd (ground (arith, h, exists-find (in_file k) s.files e))
  ]

  absent-Other :
      (a : Attempt) (s : Runner)
      → Closed s
      → stored (place_for key a) s.files ≡ false
      → (place_for key a == k) ≡ false
  absent-Other a s h e = elim (Bool-cases (place_for key a == k)) [
    | inl same ↦
        absurd (ground (arith, rw ((place_iff (place_for key a) k).0 same) at e, Closed-stored s h))
    | inr ne ↦ ne
  ]

  split :
      (a : Attempt) (o : Option Receipt) (s : Runner)
      → Closed s × Found key a o s
      → Either (Other a) Closed o s
  split a none s p = (p.0, absent-Other a s p.0 p.1)
  split a (some r) s p = p.0

  scanned :
      (a : Attempt) (o : Option Receipt) (s : Runner) → Other a s → Either (Other a) Closed o s
  scanned a none s p = p
  scanned a (some r) s p = p.0

  write-Other :
      (r : Receipt)
      → Triple (Other r.attempted) (write_receipt key r) (λ _. Other r.attempted) Closed
  write-Other r =
      write_receipt-Triple key r (λ s p. p.0) (λ s p. (other-Closed r s p.1 p.0, p.1)) (λ s p. p.0)

  launch-Other : (a : Attempt) → Keeps (Other a) (launch key a)
  unfolding launch
  launch-Other a =
      Triple-bind (write (λ s. record s { launches = a ∷ s.launches })) _ (Triple-write _ λ s h. h)
        λ _.
          Triple-bind ask _ (Triple-reads ask Reads-ask)
            λ pid. Triple-bind (stop_if (pid == 0) live) _ (Keeps-stop_if _ _) λ _. Keeps-give pid

  closed_discipline : (q : StartRequest) → Discipline key q
  closed_discipline q = record {
    Kept = Closed;
    Absent = Other q.attempted;
    Free = Other q.attempted;
    Accepted = Other q.attempted;
    Launched = Other q.attempted;
    absent_kept = λ s p. p.0;
    free_kept = λ s p. p.0;
    launched_kept = λ s p. p.0;
    closing = closing-Closed;
    reading =
        Triple-weaken (read_receipt key q.attempted) (read_receipt-Triple key q.attempted)
          (λ s p. p) (split q.attempted) (λ s p. p);
    scanning =
        Triple-weaken (active_receipt key q.attempted.name)
          (Triple-reads (active_receipt key q.attempted.name)
            (active_receipt-Reads key q.attempted.name))
          (λ s p. p) (scanned q.attempted) (λ s p. p.0);
    accepting = write-Other (fresh key q accepted);
    launching = launch-Other q.attempted;
    starting = λ pid ticks.
        Triple-weaken _ (write-Other (record (fresh key q started) { pid = pid; ticks = ticks }))
          (λ s p. p) (λ _ s p. p.0) (λ s p. p);
  }

  -- a receipt that was read
  abbrev Read : Receipt → Runner → Type 0
  Read r s = Closed s × (lookup (place_for key r.attempted) s.files ≡ some (file_of key r))

  started-Other :
      (r : Receipt) (s : Runner) → Read r s → (r.stage == started) ≡ true → Other r.attempted s
  started-Other r s p e = elim (Bool-cases (place_for key r.attempted == k)) [
    | inl same ↦
        absurd
          (ground (arith, rw ((place_iff (place_for key r.attempted) k).0 same) at p.1, p.0, e))
    | inr ne ↦ (p.0, ne)
  ]

  stop_locked-Closed : (r : Receipt) → Keeps Closed (stop_receipt_locked key r)
  stop_locked-Closed = stop_receipt_locked-Keeps key closing-Closed

  may_save :
      (r : Receipt)
      → Triple
          (Read r)
          (stop_if (r.stage != started || r.resume_config == "") cannot_save)
          (λ _. Other r.attempted)
          Closed
  may_save r = elim (Bool-cases (r.stage == started)) [
    | inl e ↦ rw e (
        Triple-weaken _ (Keeps-stop_if (r.resume_config == "") cannot_save)
          (λ s p. started-Other r s p e) (λ _ s p. p) (λ s p. p.0))
    | inr e ↦ rw e (Triple-stop cannot_save λ s p. p.0)
  ]

  stop_known-Closed :
      (q : StopRequest) (r : Receipt) → Triple (Read r) (stop_known key q r) (λ _. Closed) Closed
  unfolding stop_known
  stop_known-Closed q r =
      Triple-if (q.save_state && not r.save_state) _ (stop_receipt_locked key r)
        (λ _.
          Triple-bind (stop_if (r.stage != started || r.resume_config == "") cannot_save) _
            (may_save r)
            λ _.
              Triple-bind (check world) _
                (Triple-weaken (check world) (Triple-reads (check world) (Reads-check world))
                  (λ s p. p) (λ _ s p. p) (λ s p. p.0))
                λ _.
                  Triple-bind (write_receipt key (record r { save_state = true })) _
                    (write-Other (record r { save_state = true }))
                    λ _.
                      Triple-weaken _ (stop_locked-Closed (record r { save_state = true }))
                        (λ s p. p.0) (λ _ s p. p) (λ s p. p))
        λ _. Triple-weaken _ (stop_locked-Closed r) (λ s p. p.0) (λ _ s p. p) (λ s p. p)

  found :
      (q : StopRequest) (o : Option Receipt) (s : Runner)
      → Closed s × Found key q.attempted o s
      → elim o as (λ _. Runner → Type 0) [ none ↦ Closed | some r ↦ Read r ] s
  found q none s p = p.0
  found q (some r) s p = (
    p.0,
    subst (λ (a : Attempt). lookup (place_for key a) s.files ≡ some (file_of key r)) (sym p.1.1)
        p.1.0,
  )

  stop_found-Closed :
      (q : StopRequest) (o : Option Receipt)
      → Triple
          (elim o as (λ _. Runner → Type 0) [ none ↦ Closed | some r ↦ Read r ])
          (stop_found key q o)
          (λ _. Closed)
          Closed
  stop_found-Closed q none = Keeps-stop not_found
  stop_found-Closed q (some r) =
      Triple-bind (stop_known key q r) _ (stop_known-Closed q r) λ _. search keeps_rules

  receipt_stop-Closed : (q : StopRequest) → Keeps Closed (receipt_stop key q)
  unfolding receipt_stop
  receipt_stop-Closed q = Keeps-bind (check world) _ (Keeps-check world) λ _.
      Keeps-bind (stop_if (not (is_complete q.attempted)) incomplete) _ (Keeps-stop_if _ _) λ _.
        Triple-bind (read_receipt key q.attempted) _
          (Triple-weaken (read_receipt key q.attempted) (read_receipt-Triple key q.attempted)
            (λ s p. p) (found q) (λ s p. p))
          (stop_found-Closed q)

  apply-Closed : (c : Call) (run : Run Runner) → Closed run.state → Closed (apply key c run).state
  unfolding apply closed_discipline
  apply-Closed (start q) run h =
      Keeps-state (receipt_start key q) run (receipt_start-Kept key q (closed_discipline q)) h
  apply-Closed (resolve a) run h =
      Keeps-state (resolve_start key a) run (resolve_start-Keeps key closing-Closed a) h
  apply-Closed (halt q) run h = Keeps-state (receipt_stop key q) run (receipt_stop-Closed q) h
  apply-Closed (reboot boot) run h = h

  pub perform-Closed :
      (cs : List Call) (run : Run Runner) → Closed run.state → Closed (perform key cs run).state
  unfolding perform
  perform-Closed [] run h = h
  perform-Closed (c ∷ cs) run h = perform-Closed cs (apply key c run) (apply-Closed c run h)
