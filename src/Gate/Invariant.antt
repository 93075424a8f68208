-- ===== src/Gate/Invariant.antt =====
-- What holds of the gate between any two steps.
use srv.Base.{ℕ, ◌+◌, ◌≤◌, ◌≡◌, ◌⊎◌, Bool, true, false, List, [], ◌∷◌, arith, if◌then◌else◌}
use srv.Gate.{Gate, Lease, granted, new_lease, begin_command, await, promote_to_snapshot, release}
use srv.Gate.System.{
  System, initial, Changes, Step, begin, promote, wake, finish, Reach, start, next, running,
  snapping, count, count-append,
}

-- a lease that holds the snapshot
abbrev pub holding : Lease → Bool
holding l = if l.released then false else l.snapshot

-- a lease whose goroutine waits for a snapshot that it cannot get
abbrev pub lost : Lease → Bool
lost l = if l.waiting then (if l.released then true else l.snapshot) else false

pub record Inv (s : System) : Type 0 where
  pub counted : s.gate.in_flight ≡ count running s.leases
  pub one_snapshot : count snapping s.leases ≡ (if s.gate.snapshot_on then 1 else 0)
  pub alone : (count holding s.leases ≡ 0) ⊎ (s.gate.in_flight ≡ 0)
  pub none_lost : count lost s.leases ≡ 0

abbrev bit : (Lease → Bool) → Lease → ℕ
bit p l = if p l then 1 else 0

-- One lease changes, so a count changes by what that lease contributes.
Changes-count :
    (p : Lease → Bool) {l l' : Lease} {s t : System}
    → Changes l l' s t
    → (count p t.leases + bit p l ≡ count p s.leases + bit p l') × (bit p l ≤ count p s.leases)
Changes-count p {l} {l'} c =
    rw (c.old, c.new)
      (
        omega
            (arith, count-append p c.before (l ∷ c.after), count-append p c.before (l' ∷ c.after)),
        omega (arith, count-append p c.before (l ∷ c.after)),
      )

pub initial-Inv : Inv initial
initial-Inv = ground arith

pub holding-le-snapping : (ls : List Lease) → count holding ls ≤ count snapping ls
holding-le-snapping [] = omega arith
holding-le-snapping (l ∷ ls) = ground (arith, holding-le-snapping ls)

-- What a step may do to one lease and the gate.
record Local (l l' : Lease) (g g' : Gate) : Type 0 where
  flight : g'.in_flight + bit running l ≡ g.in_flight + bit running l'
  snap :
      (if g'.snapshot_on then 1 else 0) + bit snapping l
      ≡ (if g.snapshot_on then 1 else 0) + bit snapping l'
  hold :
      ((bit holding l ≡ bit holding l') × (g'.in_flight ≤ g.in_flight))
      ⊎ (g'.in_flight ≡ 0)
      ⊎ (g'.snapshot_on ≡ false)
  found : bit lost l' ≡ 0

-- What the invariant says of one lease.
record Fits (l : Lease) (g : Gate) : Type 0 where
  flight : bit running l ≤ g.in_flight
  snap : bit snapping l ≤ (if g.snapshot_on then 1 else 0)
  found : bit lost l ≡ 0

module _ (ended : Bool) (l : Lease) (g : Gate) (f : Fits l g) where
  promote-Local :
      l.waiting ≡ false
      → Local l (promote_to_snapshot ended l g).1 g (promote_to_snapshot ended l g).2
  unfolding promote_to_snapshot
  promote-Local w = ground (arith, f.flight, f.snap, f.found)

  wake-Local : l.waiting ≡ true → Local l (await ended l g).1 g (await ended l g).2
  unfolding await
  wake-Local w = ground (arith, f.flight, f.snap, f.found)

  release-Local : l.waiting ≡ false → Local l (release l g).0 g (release l g).1
  unfolding release
  release-Local w = ground (arith, f.flight, f.snap, f.found)

module _ {s t : System} (i : Inv s) where
  begin-Inv :
      (begin_command s.gate).0 ≡ granted
      → t.gate ≡ (begin_command s.gate).1
      → t.leases ≡ new_lease ∷ s.leases
      → Inv t
  unfolding begin_command
  begin-Inv ok g l = record {
    counted = rw (g, l) (ground (arith, i.counted));
    one_snapshot = rw (g, l) (ground (arith, i.one_snapshot));
    alone = rw (g, l) (ground (arith, i.alone, i.one_snapshot, holding-le-snapping s.leases));
    none_lost = rw l (ground (arith, i.none_lost));
  }

  fits : {l l' : Lease} → Changes l l' s t → Fits l s.gate
  fits c = record {
    flight = omega (arith, i.counted, Changes-count running c);
    snap = rw (← i.one_snapshot) (Changes-count snapping c).1;
    found = omega (arith, i.none_lost, Changes-count lost c);
  }

  change-Inv :
      {l l' : Lease} {g' : Gate} → Changes l l' s t → t.gate ≡ g' → Local l l' s.gate g' → Inv t
  change-Inv {l} {l'} c e d =
      let d' : Local l l' s.gate t.gate = rw e d in
      record {
        counted = omega (arith, i.counted, Changes-count running c, d'.flight);
        one_snapshot = omega (arith, i.one_snapshot, Changes-count snapping c, d'.snap);
        alone = ground (
          arith,
          i.alone,
          d'.hold,
          d'.snap,
          Changes-count holding c,
          Changes-count snapping c,
          i.one_snapshot,
          holding-le-snapping t.leases,
        );
        none_lost = omega (arith, i.none_lost, Changes-count lost c, d'.found);
      }

step-Inv : {s t : System} → Step s t → Inv s → Inv t
step-Inv (begin ok g l) i = begin-Inv i ok g l
step-Inv (promote ended l w c g) i = change-Inv i c g (promote-Local ended l _ (fits i c) w)
step-Inv (wake ended l w c g) i = change-Inv i c g (wake-Local ended l _ (fits i c) w)
step-Inv (finish l w c g) i = change-Inv i c g (release-Local false l _ (fits i c) w)

-- In every reachable state the gate counts the running commands, it is closed exactly while one
-- lease holds or awaits the snapshot, and no command runs while a lease holds it.
pub Reach-Inv : {s : System} → Reach s → Inv s
Reach-Inv start = initial-Inv
Reach-Inv (next r st) = step-Inv st (Reach-Inv r)
