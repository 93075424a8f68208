-- ===== src/Effect/Keeps.antt =====
-- What an operation guarantees, with a rule for each way to build one.
use srv.Base.{ℕ, Bool, true, false, Option, none, some, ◌≡◌, refl, ◌∙◌, if◌then◌else◌, ◌==◌, nat_eq}
use mathlib.Core.Path.{subst}
use srv.Effect.{
  Run, Outcome, done, failed, Op, give, stop, stop_if, ask, read, write, after, check, attempt,
  settled, answer, ◌>>=◌,
}

-- the state after a return, with its answer, or after a failure
abbrev pub Post : {S E A : Type 0} → (A → S → Type 0) → (S → Type 0) → Outcome E A → S → Type 0
Post Q F (done a) s = Q a s
Post Q F (failed e) s = F s

-- From `P` before, `Q` of the answer and the state after a return, and `F` after a failure.
pub record Triple {S E A : Type 0} (P : S → Type 0) (m : Op S E A) (Q : A → S → Type 0)
    (F : S → Type 0) : Type 0 where
  pub at : (run : Run S) → P run.state → Post Q F (m run).0 (m run).1.state

-- The state is what it was.
pub record Reads {S E A : Type 0} (m : Op S E A) : Type 0 where
  pub same : (run : Run S) → (m run).1.state ≡ run.state

module _ {S E : Type 0} where
  after_at :
      {A B : Type 0} {F : S → Type 0} {Q : A → S → Type 0} {R : B → S → Type 0} (f : A → Op S E B)
      (o : Outcome E A) (run : Run S)
      → Post Q F o run.state
      → ((a : A) → Triple (Q a) (f a) R F)
      → Post R F (after o f run).0 (after o f run).1.state
  unfolding after
  after_at f (done a) run p k = (k a).at run p
  after_at f (failed e) run p k = p

  attempt_at :
      {A : Type 0} (Q : Option A → S → Type 0) (o : Outcome E A) (s : S)
      → Post (λ a. Q (some a)) (Q none) o s
      → Q (settled o) s
  attempt_at Q (done a) s p = p
  attempt_at Q (failed e) s p = p

  module _ {P F : S → Type 0} where
    pub Triple-give :
        {A : Type 0} {Q : A → S → Type 0} (a : A)
        → ((s : S) → P s → Q a s)
        → Triple {E = E} P (give a) Q F
    Triple-give a h = record { at = λ run p. h run.state p }

    pub Triple-stop :
        {A : Type 0} {Q : A → S → Type 0} (e : E) → ((s : S) → P s → F s) → Triple P (stop e) Q F
    Triple-stop e h = record { at = λ run p. h run.state p }

    pub Triple-ask :
        {Q : ℕ → S → Type 0} → ((n : ℕ) (s : S) → P s → Q n s) → Triple {E = E} P ask Q F
    unfolding ask
    Triple-ask h = record { at = λ run p. h (answer run.answers) run.state p }

    pub Triple-read :
        {A : Type 0} {Q : A → S → Type 0} (f : S → A)
        → ((s : S) → P s → Q (f s) s)
        → Triple {E = E} P (read f) Q F
    unfolding read
    Triple-read f h = record { at = λ run p. h run.state p }

    pub Triple-write :
        {Q : Unit {0} → S → Type 0} (f : S → S)
        → ((s : S) → P s → Q tt (f s))
        → Triple {E = E} P (write f) Q F
    unfolding write
    Triple-write f h = record { at = λ run p. h run.state p }

    pub Triple-bind :
        {A B : Type 0} {Q : A → S → Type 0} {R : B → S → Type 0} (m : Op S E A) (f : A → Op S E B)
        → Triple P m Q F
        → ((a : A) → Triple (Q a) (f a) R F)
        → Triple P (m >>= f) R F
    unfolding ◌>>=◌
    Triple-bind m f h k = record { at = λ run p. after_at f (m run).0 (m run).1 (h.at run p) k }

    pub Triple-if :
        {A : Type 0} {Q : A → S → Type 0} (b : Bool) (m n : Op S E A)
        → (b ≡ true → Triple P m Q F)
        → (b ≡ false → Triple P n Q F)
        → Triple P (if b then m else n) Q F
    Triple-if true m n h k = h refl
    Triple-if false m n h k = k refl

    pub Triple-attempt :
        {A : Type 0} {Q : Option A → S → Type 0} (m : Op S E A)
        → Triple P m (λ a. Q (some a)) (Q none)
        → Triple {E = E} P (attempt m) Q F
    unfolding attempt
    Triple-attempt {Q} m h = record {
      at = λ run p. attempt_at Q (m run).0 (m run).1.state (h.at run p);
    }

    pub Triple-weaken :
        {A : Type 0} {P' : S → Type 0} {Q Q' : A → S → Type 0} {F' : S → Type 0} (m : Op S E A)
        → Triple P' m Q' F'
        → ((s : S) → P s → P' s)
        → ((a : A) (s : S) → Q' a s → Q a s)
        → ((s : S) → F' s → F s)
        → Triple P m Q F
    Triple-weaken m t p q f = record {
      at = λ run x. weaken_at (m run).0 (m run).1.state q f (t.at run (p run.state x));
    }
      where
        weaken_at :
            {A : Type 0} {Q Q' : A → S → Type 0} {F F' : S → Type 0} (o : Outcome E A) (s : S)
            → ((a : A) (s : S) → Q' a s → Q a s)
            → ((s : S) → F' s → F s)
            → Post Q' F' o s
            → Post Q F o s
        weaken_at (done a) s q f x = q a s x
        weaken_at (failed e) s q f x = f s x

  -- What only reads keeps every predicate.
  pub Triple-reads : {A : Type 0} {P : S → Type 0} (m : Op S E A) → Reads m → Triple P m (λ _. P) P
  Triple-reads {P} m r = record {
    at = λ run p. reads_at (m run).0 (m run).1.state (rw (r.same run) p);
  }
    where
      reads_at : {A : Type 0} (o : Outcome E A) (s : S) → P s → Post (λ _. P) P o s
      reads_at (done a) s p = p
      reads_at (failed e) s p = p

  pub Reads-give : {A : Type 0} (a : A) → Reads {S = S} {E = E} (give a)
  Reads-give a = record { same = λ run. refl }

  pub Reads-stop : {A : Type 0} (e : E) → Reads {S = S} {A = A} (stop e)
  Reads-stop e = record { same = λ run. refl }

  pub Reads-stop_if : (b : Bool) (e : E) → Reads {S = S} (stop_if b e)
  Reads-stop_if true e = Reads-stop e
  Reads-stop_if false e = Reads-give tt

  pub Reads-ask : Reads {S = S} {E = E} ask
  unfolding ask
  Reads-ask = record { same = λ run. refl }

  pub Reads-read : {A : Type 0} (f : S → A) → Reads {E = E} (read f)
  unfolding read
  Reads-read f = record { same = λ run. refl }

  after_same :
      {A B : Type 0} (f : A → Op S E B) (o : Outcome E A) (run : Run S)
      → ((a : A) → Reads (f a))
      → (after o f run).1.state ≡ run.state
  unfolding after
  after_same f (done a) run k = (k a).same run
  after_same f (failed e) run k = refl

  pub Reads-bind :
      {A B : Type 0} (m : Op S E A) (f : A → Op S E B)
      → Reads m
      → ((a : A) → Reads (f a))
      → Reads (m >>= f)
  unfolding ◌>>=◌
  Reads-bind m f h k = record { same = λ run. after_same f (m run).0 (m run).1 k ∙ h.same run }

  pub Reads-if :
      {A : Type 0} (b : Bool) (m n : Op S E A) → Reads m → Reads n → Reads (if b then m else n)
  Reads-if true m n h k = h
  Reads-if false m n h k = k

  pub Reads-check : (e : E) → Reads {S = S} (check e)
  unfolding check
  Reads-check e = Reads-bind ask (λ n. stop_if (n == 0) e) Reads-ask λ n. Reads-stop_if _ _

  pub Reads-attempt : {A : Type 0} (m : Op S E A) → Reads m → Reads {E = E} (attempt m)
  unfolding attempt
  Reads-attempt m h = record { same = h.same }

pub ruleset reads_rules = (
  Reads-bind, Reads-if, Reads-check, Reads-ask, Reads-read, Reads-give, Reads-stop, Reads-stop_if,
  Reads-attempt,
)

-- `P` is kept, whether the operation returns or fails.
abbrev pub Keeps : {S E A : Type 0} → (S → Type 0) → Op S E A → Type 0
Keeps P m = Triple P m (λ _. P) P

module _ {S E : Type 0} {P : S → Type 0} where
  pub Keeps-Reads : {A : Type 0} (m : Op S E A) → Reads m → Keeps P m
  Keeps-Reads m r = Triple-reads m r

  pub Keeps-bind :
      {A B : Type 0} (m : Op S E A) (f : A → Op S E B)
      → Keeps P m
      → ((a : A) → Keeps P (f a))
      → Keeps P (m >>= f)
  Keeps-bind m f h k = Triple-bind m f h k

  pub Keeps-if :
      {A : Type 0} (b : Bool) (m n : Op S E A)
      → Keeps P m
      → Keeps P n
      → Keeps P (if b then m else n)
  Keeps-if true m n h k = h
  Keeps-if false m n h k = k

  pub Keeps-attempt : {A : Type 0} (m : Op S E A) → Keeps P m → Keeps {E = E} P (attempt m)
  Keeps-attempt m h = Triple-attempt m h

  pub Keeps-give : {A : Type 0} (a : A) → Keeps {E = E} P (give a)
  Keeps-give a = Triple-reads (give a) (Reads-give a)

  pub Keeps-stop : {A : Type 0} (e : E) → Keeps P (stop {A = A} e)
  Keeps-stop e = Triple-reads (stop e) (Reads-stop e)

  pub Keeps-stop_if : (b : Bool) (e : E) → Keeps P (stop_if b e)
  Keeps-stop_if b e = Triple-reads (stop_if b e) (Reads-stop_if b e)

  pub Keeps-ask : Keeps {E = E} P ask
  Keeps-ask = Triple-reads ask Reads-ask

  pub Keeps-check : (e : E) → Keeps P (check e)
  Keeps-check e = Triple-reads (check e) (Reads-check e)

  pub Keeps-read : {A : Type 0} (f : S → A) → Keeps {E = E} P (read f)
  Keeps-read f = Triple-reads (read f) (Reads-read f)

pub ruleset keeps_rules = (
  Keeps-bind, Keeps-if, Keeps-attempt, Keeps-give, Keeps-stop, Keeps-stop_if, Keeps-ask,
  Keeps-check, Keeps-read,
)

either_post :
    {S E A : Type 0} (P : S → Type 0) (o : Outcome E A) (s : S) → Post (λ (_ : A). P) P o s → P s
either_post P (done a) s p = p
either_post P (failed e) s p = p

-- the state after an operation that leads to `F` in any case
pub Triple-state :
    {S E A : Type 0} {P F : S → Type 0} (m : Op S E A) (run : Run S)
    → Triple P m (λ _. F) F
    → P run.state
    → F (m run).1.state
Triple-state {F} m run k p = either_post F (m run).0 (m run).1.state (k.at run p)

-- the state after an operation that keeps `P`
pub Keeps-state :
    {S E A : Type 0} {P : S → Type 0} (m : Op S E A) (run : Run S)
    → Keeps P m
    → P run.state
    → P (m run).1.state
Keeps-state {P} m run k p = either_post P (m run).0 (m run).1.state (k.at run p)

answer_post :
    {S E A : Type 0} (Q : A → S → Type 0) (F : S → Type 0) (o : Outcome E A) (s : S) (a : A)
    → o ≡ done a
    → Post Q F o s
    → Q a s
answer_post {E = E} {A = A} Q F o s a e p = subst (λ (x : Outcome E A). Post Q F x s) e p

-- the state after an operation that returned
pub Triple-answer :
    {S E A : Type 0} {P : S → Type 0} {Q : A → S → Type 0} {F : S → Type 0} (m : Op S E A)
    (run : Run S) (a : A)
    → Triple P m Q F
    → P run.state
    → (m run).0 ≡ done a
    → Q a (m run).1.state
Triple-answer {Q} {F} m run a t p e = answer_post Q F (m run).0 (m run).1.state a e (t.at run p)
