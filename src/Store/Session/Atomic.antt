-- ===== src/Store/Session/Atomic.antt =====
-- A transaction that does not return leaves every table as it was.
use srv.Store.Session.Along.{Along}
use srv.Base.{not, some, none, Option, Bool, true, false, ◌≡◌, refl, arith, inl, inr, Bool-cases}
use srv.Store.Tables.{Tables}
use srv.Store.Session.{
  raise_if, refuse, Error, ◌>>=◌, Session, Action, Result, ok, err, fails, settle, transact, rest,
}

abbrev pub is_ok : {A : Type 0} → Result A → Bool
is_ok (ok a) = true
is_ok (err e) = false

settle-atomic :
    {A : Type 0} (t : Tables) (r : Result A) (s : Session)
    → is_ok (settle t r s).0 ≡ false
    → (settle t r s).1.tables ≡ t
unfolding settle
settle-atomic t (err e) s h = refl
settle-atomic t (ok a) s h = ground arith

pub transact-atomic :
    {A : Type 0} (m : Action A) (s : Session)
    → is_ok (transact m s).0 ≡ false
    → (transact m s).1.tables ≡ s.tables
unfolding transact
transact-atomic m s h = elim (Bool-cases (fails s.faults)) [
  | inl e ↦ rw e refl
  | inr e ↦ rw e (settle-atomic s.tables (m _).0 (m _).1 (rw e at h))
]

settle-ok :
    {A : Type 0} (t : Tables) (r : Result A) (s : Session)
    → is_ok (settle t r s).0 ≡ true
    → (is_ok r ≡ true) × ((settle t r s).1.tables ≡ s.tables)
unfolding settle
settle-ok t (err e) s h = absurd (ground arith)
settle-ok t (ok a) s h = ground arith

-- the session in which the statements of a transaction run
abbrev pub begun : Session → Session
begun s = record s { faults = rest s.faults }

-- A transaction that returns did all its statements.
pub transact-ok :
    {A : Type 0} (m : Action A) (s : Session)
    → is_ok (transact m s).0 ≡ true
    → (is_ok (m (begun s)).0 ≡ true) × ((transact m s).1.tables ≡ (m (begun s)).1.tables)
unfolding transact
transact-ok m s h = elim (Bool-cases (fails s.faults)) [
  | inl e ↦ absurd (ground (arith, e))
  | inr e ↦ rw e (settle-ok s.tables (m (begun s)).0 (m (begun s)).1 (rw e at h))
]

-- where an action that follows a reading one is run, with the same tables
pub record Reached {A B : Type 0} (m : Action A) (f : A → Action B) (s : Session) : Type 0 where
  pub answer : A
  pub session : Session
  pub answered : (m s).0 ≡ ok answer
  pub unmoved : session.tables ≡ s.tables
  pub reached : (m >>= f) s ≡ f answer session

reach :
    {A B : Type 0} (f : A → Action B) (t : Tables) (r : Result A) (s' : Session)
    → s'.tables ≡ t
    → let y : Result B × Session = elim r [ ok a ↦ f a s' | err e ↦ (err e, s') ] in
      is_ok y.0 ≡ true → (a : A) × ((r ≡ ok a) × ((s'.tables ≡ t) × (y ≡ f a s')))
reach f t (ok a) s' e h = (a, (refl, (e, refl)))
reach f t (err x) s' e h = absurd (ground arith)

pub bind-ok :
    {A B : Type 0} (m : Action A) (f : A → Action B) (s : Session)
    → Along (λ t t'. t' ≡ t) m
    → is_ok ((m >>= f) s).0 ≡ true
    → Reached m f s
unfolding ◌>>=◌
bind-ok m f s reads h =
    let r = reach f s.tables (m s).0 (m s).1 (reads.at s) h in
    record {
      answer = r.0;
      session = (m s).1;
      answered = r.1.0;
      unmoved = r.1.1.0;
      reached = r.1.1.1;
    }

pub refuse-ok : (o : Option Error) (s : Session) (a : Unit {0}) → (refuse o s).0 ≡ ok a → o ≡ none
refuse-ok none s a h = refl
refuse-ok (some e) s a h = absurd (ground arith)

pub raise_if-ok :
    (c : Bool) (e : Error) (s : Session) (a : Unit {0}) → (raise_if (not c) e s).0 ≡ ok a → c ≡ true
raise_if-ok true e s a h = refl
raise_if-ok false e s a h = absurd (ground arith)

pub raise_if-session : (c : Bool) (e : Error) (s : Session) → (raise_if c e s).1 ≡ s
raise_if-session true e s = refl
raise_if-session false e s = refl
