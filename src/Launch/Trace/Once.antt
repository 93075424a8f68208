-- ===== src/Launch/Trace/Once.antt =====
-- An attempt launches at most one machine, over every sequence of operations.
use srv.Launch.Trace.{reboot, halt, resolve, start, Call, apply, perform}
use srv.Launch.Stop.{stop_found, receipt_stop, stop_known, stop_receipt_locked}
use srv.Launch.Discipline.{
  resolve_start-Keeps, active_receipt-Reads, receipt_start-Kept, read_receipt-Reads, Either,
  stop_receipt_locked-Keeps, Discipline,
}
use srv.Effect.{Run, stop_if, ask, write}
use srv.Effect.Keeps.{
  Keeps-state, Keeps-Reads, Triple-weaken, keeps_rules, Keeps-give, Keeps-stop_if, Reads-ask,
  Triple-reads, Triple-write, Triple-bind, Keeps, Triple,
}
use srv.Launch.Files.{
  read_receipt-Triple, Found, put-stored_self, file_of, write_receipt-Triple, put-stored, stored,
  written,
}
use srv.Launch.Start.{resolve_start, receipt_start, fresh, launch}
use srv.Base.Lists.{count_where}
use srv.Launch.{
  place_for, place_of, place_eq, active_receipt, Attempt, StopRequest, live, accepted, read_receipt,
  write_receipt, Receipt, StartRequest, Runner,
}
use srv.Base.{
  Bool, true, and_left, and_right, refl, ◌&&◌, [], ◌⊎◌, List, Option, none, some, nat_eq, inr,
  text_iff, inl, Bool-cases, ◌∷◌, false, string_eq, ◌≡◌, arith, ◌==◌, ◌≤◌, if◌then◌else◌, ◌+◌, ℕ,
  String,
}

-- the attempts of that name and request ID
abbrev pub is_for : String → String → Attempt → Bool
is_for name id a = a.name == name && a.request_id == id

-- how often a request ID has been launched under a name
abbrev pub launched : String → String → Runner → ℕ
launched name id s = count_where (is_for name id) s.launches

module _ (key : String → String) (name id : String) (n : ℕ) where
  -- how often it still may be
  abbrev pub chance : Runner → ℕ
  chance s = if stored (place_of key name id) s.files then 0 else 1

  abbrev pub Spent : Runner → Type 0
  Spent s = launched name id s + chance s ≤ n

  abbrev due : StartRequest → ℕ
  due q = if is_for name id q.attempted then 1 else 0

  -- an accepted attempt that has not been launched
  abbrev Due : StartRequest → Runner → Type 0
  Due q s = due q + (launched name id s + chance s) ≤ n

  written-Spent : (r : Receipt) (s : Runner) → Spent s → Spent (written key r s)
  written-Spent r s h = ground (arith, put-stored (file_of key r) (place_of key name id) s.files)

  write-Spent : (r : Receipt) → Keeps Spent (write_receipt key r)
  write-Spent r = write_receipt-Triple key r (λ s p. p) (written-Spent r) (λ s p. p)

  is_for_lem : (a : Attempt) → is_for name id a ≡ true → place_for key a ≡ place_of key name id
  is_for_lem a e =
      let same_name = (text_iff a.name name).0 (and_left (a.name == name) _ e) in
      let same_id = (text_iff a.request_id id).0 (and_right (a.name == name) _ e) in
      rw (same_name, same_id) refl

  accepted-Due :
      (q : StartRequest) (s : Runner)
      → Spent s × (stored (place_for key q.attempted) s.files ≡ false)
      → Due q (written key (fresh key q accepted) s)
  accepted-Due q s p = elim (Bool-cases (is_for name id q.attempted)) [
    | inl e ↦
        let same = is_for_lem q.attempted e in
        let here = put-stored_self (file_of key (fresh key q accepted)) s.files in
        ground (arith, rw same at here, rw same at p.1, p.0, e)
    | inr e ↦ ground (arith, e, written-Spent (fresh key q accepted) s p.0)
  ]

  Due-Spent : (q : StartRequest) (s : Runner) → Due q s → Spent s
  Due-Spent q s h = omega (arith, h)

  launch-Spent : (q : StartRequest) → Triple (Due q) (launch key q.attempted) (λ _. Spent) Spent
  unfolding launch
  launch-Spent q =
      Triple-bind (write (λ s. record s { launches = q.attempted ∷ s.launches })) _
        (Triple-write _ λ s h. ground (arith, h))
        λ _.
          Triple-bind ask _ (Triple-reads ask Reads-ask)
            λ pid. Triple-bind (stop_if (pid == 0) live) _ (Keeps-stop_if _ _) λ _. Keeps-give pid

  abbrev Unused : StartRequest → Runner → Type 0
  Unused q s = Spent s × (stored (place_for key q.attempted) s.files ≡ false)

  split :
      (q : StartRequest) (o : Option Receipt) (s : Runner)
      → Spent s × Found key q.attempted o s
      → Either (Unused q) Spent o s
  split q none s p = p
  split q (some r) s p = p.0

  scanned :
      (q : StartRequest) (o : Option Receipt) (s : Runner)
      → Unused q s
      → Either (Unused q) Spent o s
  scanned q none s p = p
  scanned q (some r) s p = p.0

  spent_discipline : (q : StartRequest) → Discipline key q
  spent_discipline q = record {
    Kept = Spent;
    Absent = Unused q;
    Free = Unused q;
    Accepted = Due q;
    Launched = Spent;
    absent_kept = λ s p. p.0;
    free_kept = λ s p. p.0;
    launched_kept = λ s p. p;
    closing = λ r _. write-Spent r;
    reading =
        Triple-weaken (read_receipt key q.attempted) (read_receipt-Triple key q.attempted)
          (λ s p. p) (split q) (λ s p. p);
    scanning =
        Triple-weaken (active_receipt key q.attempted.name)
          (Triple-reads (active_receipt key q.attempted.name)
            (active_receipt-Reads key q.attempted.name))
          (λ s p. p) (scanned q) (λ s p. p.0);
    accepting =
        write_receipt-Triple key (fresh key q accepted) (λ s p. p.0) (accepted-Due q) (Due-Spent q);
    launching = launch-Spent q;
    starting = λ pid ticks. write-Spent _;
  }

  stop_locked-Spent : (r : Receipt) → Keeps Spent (stop_receipt_locked key r)
  stop_locked-Spent = stop_receipt_locked-Keeps key (λ r _. write-Spent r)

  stop_known-Spent : (q : StopRequest) (r : Receipt) → Keeps Spent (stop_known key q r)
  unfolding stop_known
  stop_known-Spent q r = search (keeps_rules, write-Spent, stop_locked-Spent) depth 12

  stop_found-Spent : (q : StopRequest) (o : Option Receipt) → Keeps Spent (stop_found key q o)
  stop_found-Spent q none = search keeps_rules
  stop_found-Spent q (some r) = search (keeps_rules, stop_known-Spent) depth 12

  read-Spent : (q : Attempt) → Keeps Spent (read_receipt key q)
  read-Spent q = Keeps-Reads (read_receipt key q) (read_receipt-Reads key q)

  receipt_stop-Spent : (q : StopRequest) → Keeps Spent (receipt_stop key q)
  unfolding receipt_stop
  receipt_stop-Spent q = search (keeps_rules, stop_found-Spent, read-Spent) depth 12

  apply-Spent : (c : Call) (run : Run Runner) → Spent run.state → Spent (apply key c run).state
  unfolding apply spent_discipline
  apply-Spent (start q) run h =
      Keeps-state (receipt_start key q) run (receipt_start-Kept key q (spent_discipline q)) h
  apply-Spent (resolve a) run h =
      Keeps-state (resolve_start key a) run (resolve_start-Keeps key (λ r _. write-Spent r) a) h
  apply-Spent (halt q) run h = Keeps-state (receipt_stop key q) run (receipt_stop-Spent q) h
  apply-Spent (reboot boot) run h = h

  perform-Spent :
      (cs : List Call) (run : Run Runner) → Spent run.state → Spent (perform key cs run).state
  unfolding perform
  perform-Spent [] run h = h
  perform-Spent (c ∷ cs) run h = perform-Spent cs (apply key c run) (apply-Spent c run h)

-- Over every sequence of starts, resolutions, stops and reboots, of any names, whatever the world
-- answers, a request ID is launched at most once under each name, and never under a name in whose
-- directory its receipt was at the beginning.
pub launched_once :
    (key : String → String) (name id : String) (cs : List Call) (run : Run Runner)
    → (launched name id (perform key cs run).state ≤ launched name id run.state + 1)
      × ((stored (place_of key name id) run.state.files ≡ false)
          ⊎ (launched name id (perform key cs run).state ≤ launched name id run.state))
launched_once key name id cs run =
    let spent =
      perform-Spent key name id (launched name id run.state + chance key name id 0 run.state) cs run
        (omega arith) in
    ground (arith, spent)
