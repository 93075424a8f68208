-- ===== src/Launch/Trace/Absent.antt =====
-- An attempt that is answered absent stays so.
use srv.Launch.Trace.Once.{launched_once, launched}
use srv.Launch.Trace.{Call, perform}
use srv.Effect.{read, done, give, Run, attempt, ask, check, stop_if}
use srv.Effect.Keeps.{
  Triple-answer, Post, Reads-read, Reads-stop_if, Keeps-check, Reads-attempt, Reads, Triple-give,
  Reads-check, Reads-ask, Keeps-stop_if, Triple-reads, Triple-bind, Triple-if, Triple-weaken,
  Triple,
}
use srv.Launch.Discipline.{name_vacant-Reads, no_live_runtime-Reads, active_receipt-Reads}
use srv.Launch.Files.{
  place_refl, lookup-put, read_receipt-Triple, file_of, write_receipt-Triple, written, Found,
}
use srv.Launch.Start.{
  name_vacant, is_gone, tombstone, if_vacant, if_valid, known_or_fenced, probe, result_locked,
  resolve_start, no_live_runtime, owns, close_dead, finish_dead, if_gone,
}
use srv.Launch.{
  place_eq, place_for, incomplete, is_complete, absent, unknown, running, Response, Step, accepted,
  world, same_stage_iff, active_receipt, stage_eq, read_receipt, closed, write_receipt, lookup,
  Attempt, Receipt, Runner,
}
use mathlib.Core.Path.{subst}
use srv.Base.{
  ◌≤◌, sym, refl, List, nat_eq, arith, not, none, string_eq, ◌!=◌, some, true, ◌==◌, ◌≡◌, Option,
  String,
}
use srv.Launch.Trace.Final.{is_closed, Closed, Closed-stored, perform-Closed}

-- What an answer of ResolveInstanceStart says: `absent` that the receipt of the attempt is closed.
abbrev Said : (String → String) → Attempt → Response → Runner → Type 0
Said key a absent s = Closed key (place_for key a) s
Said key a unknown s = Unit
Said key a (running pid) s = Unit

module _ (key : String → String) where
  abbrev Holds : Receipt → Runner → Type 0
  Holds r s = lookup (place_for key r.attempted) s.files ≡ some (file_of key r)

  abbrev Nothing : Runner → Type 0
  Nothing s = Unit

  holds_read :
      {A : Type 0} {P : Runner → Type 0} (m : Step A) → Reads m → Triple P m (λ _. P) Nothing
  holds_read m h = Triple-weaken m (Triple-reads m h) (λ s p. p) (λ _ s p. p) (λ s p. tt)

  written-Holds : (r : Receipt) (s : Runner) → Holds r (written key r s)
  written-Holds r s = rw (
    lookup-put (file_of key r) (place_for key r.attempted) s.files,
    place_refl (place_for key r.attempted),
  )

  write-Holds :
      {P : Runner → Type 0} (r : Receipt) → Triple P (write_receipt key r) (λ _. Holds r) Nothing
  write-Holds r = write_receipt-Triple key r (λ s p. tt) (λ s p. written-Holds r s) (λ s p. tt)

  Holds-Closed :
      (r : Receipt) (s : Runner)
      → r.stage ≡ closed
      → Holds r s
      → Closed key (place_for key r.attempted) s
  Holds-Closed r s c h = ground (arith, c, h)

  close_dead-Said :
      (r : Receipt) → Triple (Holds r) (close_dead key r) (Said key r.attempted) Nothing
  unfolding close_dead
  close_dead-Said r =
      Triple-bind (check world) _ (holds_read (check world) (Reads-check world)) λ _.
        Triple-bind (check world) _ (holds_read (check world) (Reads-check world)) λ _.
          Triple-bind (write_receipt key (record r { stage = closed })) _
            (write-Holds (record r { stage = closed }))
            λ _. Triple-give absent λ s h. Holds-Closed (record r { stage = closed }) s refl h

  if_gone-Said :
      (r : Receipt) (o : Option (Unit {0}))
      → Triple (Holds r) (if_gone key r o) (Said key r.attempted) Nothing
  if_gone-Said r none = Triple-give unknown λ s p. tt
  if_gone-Said r (some u) = close_dead-Said r

  finish_dead-Said :
      (r : Receipt) → Triple (Holds r) (finish_dead key r) (Said key r.attempted) Nothing
  unfolding finish_dead
  finish_dead-Said r =
      Triple-bind (attempt (active_receipt key r.attempted.name)) _
        (holds_read (attempt (active_receipt key r.attempted.name))
          (Reads-attempt (active_receipt key r.attempted.name) (active_receipt-Reads key _)))
        λ a.
          Triple-if (owns key r a) _ (give unknown)
            (λ _.
              Triple-bind (attempt (no_live_runtime key)) _
                (holds_read (attempt (no_live_runtime key))
                  (Reads-attempt (no_live_runtime key) (no_live_runtime-Reads key)))
                (if_gone-Said r))
            λ _. Triple-give unknown λ s p. tt

  if_valid-Said :
      (r : Receipt) (o : Option (Unit {0}))
      → Triple (Holds r) (if_valid key r o) (Said key r.attempted) Nothing
  if_valid-Said r none = Triple-give unknown λ s p. tt
  if_valid-Said r (some u) = Triple-give (running r.pid) λ s p. tt

  probe-Said : (r : Receipt) → Triple (Holds r) (probe key r) (Said key r.attempted) Nothing
  unfolding probe
  probe-Said r =
      Triple-bind (attempt (active_receipt key r.attempted.name)) _
        (holds_read (attempt (active_receipt key r.attempted.name))
          (Reads-attempt (active_receipt key r.attempted.name) (active_receipt-Reads key _)))
        λ a.
          Triple-if (owns key r a) _ (give unknown)
            (λ _. Triple-bind ask _ (holds_read ask Reads-ask) λ n.
              Triple-bind (stop_if (n == 0) world) _
                (holds_read (stop_if (n == 0) world) (Reads-stop_if _ _))
                λ _.
                  Triple-if (is_gone key r n) (finish_dead key r) _ (λ _. finish_dead-Said r)
                    λ _.
                      Triple-bind (attempt (check world)) _
                        (holds_read (attempt (check world))
                          (Reads-attempt (check world) (Reads-check world)))
                        (if_valid-Said r))
            λ _. Triple-give unknown λ s p. tt

  if_vacant-Said :
      (r : Receipt) (o : Option (Unit {0}))
      → r.stage ≡ closed
      → Triple (Holds r) (if_vacant key o) (Said key r.attempted) Nothing
  if_vacant-Said r none c = Triple-give unknown λ s p. tt
  if_vacant-Said r (some u) c = Triple-give absent λ s p. Holds-Closed r s c p

  result_locked-Said :
      (r : Receipt) → Triple (Holds r) (result_locked key r) (Said key r.attempted) Nothing
  unfolding result_locked
  result_locked-Said r =
      Triple-bind (check world) _ (holds_read (check world) (Reads-check world)) λ _.
        Triple-bind (read (λ s. s.boot)) _ (holds_read (read (λ s. s.boot)) (Reads-read _)) λ boot.
          Triple-if (r.stage == closed) _ _
            (λ c.
              Triple-bind (attempt (name_vacant key r.attempted.name)) _
                (holds_read (attempt (name_vacant key r.attempted.name))
                  (Reads-attempt (name_vacant key r.attempted.name) (name_vacant-Reads key _)))
                λ o. if_vacant-Said r o ((same_stage_iff r.stage closed).0 c))
            λ _.
              Triple-if (r.attempted.host_boot_id != boot) (finish_dead key r) _
                (λ _. finish_dead-Said r)
                λ _.
                  Triple-if (r.stage == accepted) (give unknown) (probe key r)
                    (λ _. Triple-give unknown λ s p. tt) λ _. probe-Said r

  abbrev Answered : Attempt → Option Receipt → Runner → Type 0
  Answered a none s = Unit
  Answered a (some r) s = Holds r s × (r.attempted ≡ a)

  known_or_fenced-Said :
      (a : Attempt) (o : Option Receipt)
      → Triple (Answered a o) (known_or_fenced key a o) (Said key a) Nothing
  known_or_fenced-Said a none =
      Triple-bind (write_receipt key (tombstone key a)) _ (write-Holds (tombstone key a))
        λ _. result_locked-Said (tombstone key a)
  known_or_fenced-Said a (some r) = record {
    at = λ run p.
        let t = result_locked-Said r in
        subst
          (λ (a : Attempt).
            Post (Said key a) Nothing (result_locked key r run).0 (result_locked key r run).1.state)
          p.1 (t.at run p.0);
  }

  answered :
      (a : Attempt) (o : Option Receipt) (s : Runner) → Unit {0} × Found key a o s → Answered a o s
  answered a none s p = tt
  answered a (some r) s p = (
    subst (λ (a : Attempt). lookup (place_for key a) s.files ≡ some (file_of key r)) (sym p.1.1)
        p.1.0,
    p.1.1,
  )

  resolve_start-Said : (a : Attempt) → Triple Nothing (resolve_start key a) (Said key a) Nothing
  unfolding resolve_start
  resolve_start-Said a =
      Triple-bind (stop_if (not (is_complete a)) incomplete) _ (Keeps-stop_if _ _) λ _.
        Triple-bind (check world) _ (Keeps-check world) λ _.
          Triple-bind (read_receipt key a) _
            (Triple-weaken (read_receipt key a) (read_receipt-Triple key a) (λ s p. p) (answered a)
              (λ s p. p))
            (known_or_fenced-Said a)

-- When ResolveInstanceStart answers that an attempt is absent, then after every sequence of starts,
-- resolutions, stops and reboots, of any names, whatever the world answers, its receipt still is
-- closed and its request ID has not been launched again under its name.
pub absent_for_good :
    (key : String → String) (a : Attempt) (cs : List Call) (run : Run Runner)
    → (resolve_start key a run).0 ≡ done absent
    → let end = (perform key cs (resolve_start key a run).1).state in
      (is_closed (lookup (place_for key a) end.files) ≡ true)
      × (launched a.name a.request_id end
          ≤ launched a.name a.request_id (resolve_start key a run).1.state)
absent_for_good key a cs run h =
    let run' = (resolve_start key a run).1 in
    let closed_now =
      Triple-answer (resolve_start key a) run absent (resolve_start-Said key a) tt h in
    let here = Closed-stored key (place_for key a) run'.state closed_now in
    (
      perform-Closed key (place_for key a) cs run' closed_now,
      ground (arith, here, (launched_once key a.name a.request_id cs run').1),
    )
