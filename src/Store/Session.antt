-- ===== src/Store/Session.antt =====
-- database/sql over one connection. Each call that can return an error (Begin, Exec, Query, Scan,
-- RowsAffected, Commit, a context that ends) takes the next answer of the schedule `faults`: `true`
-- is a failure, which changes no table, and an empty schedule means that nothing more fails.
pub mod Along
pub mod Atomic
use srv.Base.{ℕ, Bool, false, Option, none, some, List, [], ◌∷◌, if◌then◌else◌}
use srv.Store.Tables.{Tables}

pub data Error : Type 0 where
  db no_rows constraint : Error  -- from database/sql
  rebound not_executing not_admitted bad_generation generation_order : Error  -- requests.go
  enrollment_identity fenced owned_elsewhere owner_missing cannot_begin incarnation : Error  -- cleanup.go
  incomplete_proof auth_key vm_identity tailnet_disposition no_longer_executing : Error
  identity_changed fence_changed : Error
  exists reservation_missing receipt_missing : Error  -- migration.go
  changed_during resize_pending : Error  -- sqlite.go

pub data Result (A : Type 0) : Type 0 where
  ok : A → Result A
  err : Error → Result A

pub record Session : Type 0 where
  pub tables : Tables
  pub faults : List Bool

abbrev pub Action : Type 0 → Type 0
Action A = Session → Result A × Session

-- the next answer of the schedule, and the rest
abbrev pub fails : List Bool → Bool
fails [] = false
fails (b ∷ bs) = b

abbrev pub rest : List Bool → List Bool
rest [] = []
rest (b ∷ bs) = bs

module _ {A : Type 0} where
  abbrev pub raise : Error → Action A
  raise e session = (err e, session)

  abbrev pub pure : A → Action A
  pure answer session = (ok answer, session)

  -- a call that takes one answer of the schedule
  unfoldable pub call : (Tables → Result A × Tables) → Action A
  call f s =
      if fails s.faults
      then (err db, record s { faults = rest s.faults })
      else (let (r, t) = f s.tables in (r, record { tables = t; faults = rest s.faults }))

infixl 5 ◌>>=◌ ◌>>◌
unfoldable pub ◌>>=◌ : {A B : Type 0} → Action A → (A → Action B) → Action B
◌>>=◌ m f s = let (r, s') = m s in elim r [ ok a ↦ f a s' | err e ↦ (err e, s') ]

abbrev pub ◌>>◌ : {B : Type 0} → Action (Unit {0}) → Action B → Action B
m >> k = m >>= λ _. k

abbrev pub raise_if : Bool → Error → Action (Unit {0})
raise_if c e = if c then raise e else pure tt

abbrev pub refuse : Option Error → Action (Unit {0})
refuse none = pure tt
refuse (some e) = raise e

module _ {A : Type 0} where
  -- QueryContext: no table changes
  unfoldable pub query : (Tables → A) → Action A
  unfolding call
  query f = call (λ t. (ok (f t), t))

  abbrev found : Option A → Result A
  found none = err Error.no_rows
  found (some a) = ok a

  -- QueryRowContext and Scan; sql.ErrNoRows is an error
  unfoldable pub query_row : (Tables → Option A) → Action A
  unfolding call
  query_row f = call (λ t. (found (f t), t))

  -- The handle that turns sql.ErrNoRows into an answer.
  abbrev pub or_none : Result A → Result (Option A)
  or_none (ok a) = ok (some a)
  or_none (err no_rows) = ok none
  or_none (err e) = err e

  unfoldable pub optional : Action A → Action (Option A)
  optional m s = let (r, s') = m s in (or_none r, s')

-- ExecContext of an UPDATE or DELETE: the rows affected and the new tables.
unfoldable pub exec : (Tables → ℕ × Tables) → Action ℕ
unfolding call
exec f = call (λ t. let (n, t') = f t in (ok n, t'))

-- ExecContext of an INSERT: `none` is a violated constraint, which changes nothing.
unfoldable pub insert : (Tables → Option Tables) → Action (Unit {0})
unfolding call
insert f = call (λ t. elim (f t) [ none ↦ (err constraint, t) | some t' ↦ (ok tt, t') ])

-- result.RowsAffected, which may fail after the statement has taken effect
unfoldable pub rows_affected : ℕ → Action ℕ
unfolding query
rows_affected n = query (λ _. n)

-- BeginTx, `defer tx.Rollback()` and Commit: all statements or none.
module _ {A : Type 0} where
  unfoldable pub settle : Tables → Result A → Action A
  settle before (err e) s = (err e, record s { tables = before })
  settle before (ok a) s =
      if fails s.faults
      then (err db, record { tables = before; faults = rest s.faults })
      else (ok a, record s { faults = rest s.faults })

  unfoldable pub transact : Action A → Action A
  unfolding settle
  transact body s =
      if fails s.faults
      then (err db, record s { faults = rest s.faults })
      else (let (r, s') = body (record s { faults = rest s.faults }) in settle s.tables r s')
