-- ===== src/Effect.antt =====
-- Operations that change a state and call the world: a file system, processes, other programs. The
-- world is a schedule of answers, one for each call: 0 is a failure, any other number is what the
-- call returned, and past its end the schedule answers 1. A caller that holds a lock runs alone.
pub mod Keeps
use srv.Base.{ℕ, Bool, true, false, Option, none, some, List, [], ◌∷◌, ◌==◌, nat_eq, if◌then◌else◌}

pub record Run (S : Type 0) : Type 0 where
  pub state : S
  pub answers : List ℕ

pub data Outcome (E A : Type 0) : Type 0 where
  done : A → Outcome E A
  failed : E → Outcome E A

abbrev pub Op : Type 0 → Type 0 → Type 0 → Type 0
Op S E A = Run S → Outcome E A × Run S

abbrev pub answer : List ℕ → ℕ
answer [] = 1
answer (n ∷ ns) = n

abbrev pub later : List ℕ → List ℕ
later [] = []
later (n ∷ ns) = ns

abbrev pub settled : {E A : Type 0} → Outcome E A → Option A
settled (done a) = some a
settled (failed e) = none

module _ {S E : Type 0} where
  abbrev pub give : {A : Type 0} → A → Op S E A
  give a run = (done a, run)

  abbrev pub stop : {A : Type 0} → E → Op S E A
  stop e run = (failed e, run)

  -- the answer of the next call
  unfoldable pub ask : Op S E ℕ
  ask run = (done (answer run.answers), record run { answers = later run.answers })

  unfoldable pub read : {A : Type 0} → (S → A) → Op S E A
  read f run = (done (f run.state), run)

  unfoldable pub write : (S → S) → Op S E (Unit {0})
  write f run = (done tt, record run { state = f run.state })

  after : {A B : Type 0} → Outcome E A → (A → Op S E B) → Op S E B
  after (done a) f run = f a run
  after (failed e) f run = (failed e, run)

  infixl 5 ◌>>=◌ ◌>>◌
  unfoldable pub ◌>>=◌ : {A B : Type 0} → Op S E A → (A → Op S E B) → Op S E B
  unfolding after
  ◌>>=◌ m f run = let (o, run') = m run in after o f run'

  abbrev pub ◌>>◌ : {B : Type 0} → Op S E (Unit {0}) → Op S E B → Op S E B
  m >> k = m >>= λ _. k

  abbrev pub stop_if : Bool → E → Op S E (Unit {0})
  stop_if c e = if c then stop e else give tt

  -- a call that only succeeds or fails
  unfoldable pub check : E → Op S E (Unit {0})
  unfolding ask ◌>>=◌
  check e = do n ← ask; stop_if (n == 0) e

  -- an error that is handled: `none`
  unfoldable pub attempt : {A : Type 0} → Op S E A → Op S E (Option A)
  attempt m run = let (o, run') = m run in (done (settled o), run')
