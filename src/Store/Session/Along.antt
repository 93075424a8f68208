-- ===== src/Store/Session/Along.antt =====
-- Relations between the tables before and after an action, one rule for each way to build an action.
-- The relation holds whether the action returns or raises, and whatever calls fail.
use srv.Base.{
  ◌∙◌, ℕ, Bool, true, false, Option, none, some, ◌≡◌, refl, if◌then◌else◌, Bool-cases, inl, inr,
}
use srv.Store.Tables.{Tables}
use srv.Store.Session.{
  Session, Action, Result, Error, ok, err, pure, raise, raise_if, refuse, call, fails, exec, insert,
  query, query_row, rows_affected, optional, settle, transact, ◌>>=◌,
}

pub record Along {A : Type 0} (R : Tables → Tables → Type 0) (m : Action A) : Type 0 where
  pub at : (s : Session) → R s.tables (m s).1.tables

-- A relation that an action may follow in no step or in several.
pub record Preorder (R : Tables → Tables → Type 0) : Type 0 where
  pub stay : (t : Tables) → R t t
  pub join : (t u v : Tables) → R t u → R u v → R t v

module _ {R : Tables → Tables → Type 0} (o : Preorder R) where
  pub Along-pure : {A : Type 0} (a : A) → Along R (pure a)
  Along-pure a = record { at = λ s. o.stay s.tables }

  pub Along-raise : {A : Type 0} (e : Error) → Along R (raise {A = A} e)
  Along-raise e = record { at = λ s. o.stay s.tables }

  pub Along-if :
      {A : Type 0} (b : Bool) (m n : Action A)
      → (b ≡ true → Along R m)
      → (b ≡ false → Along R n)
      → Along R (if b then m else n)
  Along-if true m n km kn = km refl
  Along-if false m n km kn = kn refl

  pub Along-raise_if : (b : Bool) (e : Error) → Along R (raise_if b e)
  Along-raise_if true e = Along-raise e
  Along-raise_if false e = Along-pure tt

  pub Along-refuse : (o' : Option Error) → Along R (refuse o')
  Along-refuse none = Along-pure tt
  Along-refuse (some e) = Along-raise e

  call_at :
      {A : Type 0} (b : Bool) (f : Tables → Result A × Tables) (s : Session)
      → fails s.faults ≡ b
      → R s.tables (f s.tables).1
      → R s.tables (call f s).1.tables
  unfolding call
  call_at true f s e h = rw e (o.stay s.tables)
  call_at false f s e h = rw e h

  pub Along-call :
      {A : Type 0} (f : Tables → Result A × Tables)
      → ((t : Tables) → R t (f t).1)
      → Along R (call f)
  Along-call f h = record { at = λ s. call_at (fails s.faults) f s refl (h s.tables) }

  pub Along-query : {A : Type 0} (f : Tables → A) → Along R (query f)
  unfolding query
  Along-query f = Along-call _ o.stay

  pub Along-query_row : {A : Type 0} (f : Tables → Option A) → Along R (query_row f)
  unfolding query_row
  Along-query_row f = Along-call _ o.stay

  pub Along-rows_affected : (n : ℕ) → Along R (rows_affected n)
  unfolding rows_affected
  Along-rows_affected n = Along-query _

  pub Along-exec : (f : Tables → ℕ × Tables) → ((t : Tables) → R t (f t).1) → Along R (exec f)
  unfolding exec
  Along-exec f h = Along-call _ h

  after_insert :
      (t : Tables) (o' : Option Tables)
      → ((t' : Tables) → o' ≡ some t' → R t t')
      → R t
          (let y : Result (Unit {0}) × Tables = elim o' [
            | none ↦ (err Error.constraint, t)
            | some t' ↦ (ok tt, t')
          ] in
            y).1
  after_insert t none h = o.stay t
  after_insert t (some t') h = h t' refl

  pub Along-insert :
      (f : Tables → Option Tables) → ((t t' : Tables) → f t ≡ some t' → R t t') → Along R (insert f)
  unfolding insert
  Along-insert f h = Along-call _ (λ t. after_insert t (f t) (h t))

  continue_at :
      {A B : Type 0} (t : Tables) (f : A → Action B) (r : Result A) (s' : Session)
      → ((a : A) → Along R (f a))
      → R t s'.tables
      → R t
          (let y : Result B × Session = elim r [ ok a ↦ f a s' | err e ↦ (err e, s') ] in
            y).1.tables
  continue_at t f (ok a) s' kf h = o.join t s'.tables _ h ((kf a).at s')
  continue_at t f (err e) s' kf h = h

  pub Along-bind :
      {A B : Type 0} (m : Action A) (f : A → Action B)
      → Along R m
      → ((a : A) → Along R (f a))
      → Along R (m >>= f)
  unfolding ◌>>=◌
  Along-bind m f km kf = record { at = λ s. continue_at s.tables f (m s).0 (m s).1 kf (km.at s) }

  pub Along-optional : {A : Type 0} (m : Action A) → Along R m → Along R (optional m)
  unfolding optional
  Along-optional m km = record { at = km.at }

  settle_at :
      {A : Type 0} (t : Tables) (r : Result A) (s : Session)
      → R t s.tables
      → R t (settle t r s).1.tables
  unfolding settle
  settle_at t (err e) s h = o.stay t
  settle_at t (ok a) s h = elim (Bool-cases (fails s.faults)) [
    | inl e ↦ rw e (o.stay t)
    | inr e ↦ rw e h
  ]

  pub Along-transact : {A : Type 0} (m : Action A) → Along R m → Along R (transact m)
  unfolding transact
  Along-transact m km = record {
    at = λ s. elim (Bool-cases (fails s.faults)) [
      | inl e ↦ rw e (o.stay s.tables)
      | inr e ↦ rw e (settle_at s.tables (m _).0 (m _).1 (km.at _))
    ];
  }

-- An action that only reads.
pub same : Preorder (λ t t'. t' ≡ t)
same = record { stay = λ t. refl; join = λ t u v a b. b ∙ a }
