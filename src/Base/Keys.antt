-- ===== src/Base/Keys.antt =====
-- Tables with a primary key: what UPDATE, INSERT and DELETE do to the row of a key, and that keys
-- stay unique.
use Prim.Native.Nat.{ℕ, ◌+◌}
use Prim.Native.String.{String}
use mathlib.Core.Path.{◌≡◌, refl}
use mathlib.Core.Logic.{inl, inr}
use mathlib.Core.Bool.{Bool, true, false, ◌&&◌}
use mathlib.Core.Option.{Option, none, some}
use mathlib.Core.List.{List, [], ◌∷◌}
use native.Mathlib.Omega.{arith}
use srv.Base.Tests.{◌==◌, string_eq, text_iff, if◌then◌else◌, Bool-cases}
use srv.Base.Lists.{update_where, count_where, find_where, exists_where, delete_where}

module _ {A : Type 0} where
  -- what an UPDATE makes of the row that a key had
  abbrev pub adjust : (A → Bool) → (A → A) → Option A → Option A
  adjust p f none = none
  adjust p f (some r) = some (if p r then f r else r)

  -- how many rows of a key a WHERE clause selects
  abbrev pub hits : (A → Bool) → Option A → ℕ
  hits p none = 0
  hits p (some r) = if p r then 1 else 0

  pub exists-count :
      (p : A → Bool) (rows : List A) → exists_where p rows ≡ false → count_where p rows ≡ 0
  exists-count p [] h = refl
  exists-count p (r ∷ rs) h = ground (arith, exists-count p rs)

  pub exists-find :
      (p : A → Bool) (rows : List A) → exists_where p rows ≡ false → find_where p rows ≡ none
  exists-find p [] h = refl
  exists-find p (r ∷ rs) h = ground (arith, exists-find p rs)

  pub find-exists :
      (p : A → Bool) (rows : List A) → find_where p rows ≡ none → exists_where p rows ≡ false
  find-exists p [] h = refl
  find-exists p (r ∷ rs) h = ground (arith, find-exists p rs)

  pub find-holds : (p : A → Bool) (rows : List A) (r : A) → find_where p rows ≡ some r → p r ≡ true
  find-holds p [] r h = absurd (ground arith)
  find-holds p (x ∷ rs) r h = elim (Bool-cases (p x)) [
    | inl e ↦ ground arith
    | inr e ↦ ground (arith, find-holds p rs r)
  ]

module _ {A : Type 0} (key : A → String) where
  abbrev pub has : String → A → Bool
  has k r = key r == k

  -- PRIMARY KEY, UNIQUE
  abbrev pub Unique : List A → Type 0
  Unique [] = Unit
  Unique (r ∷ rs) = (find_where (has (key r)) rs ≡ none) × Unique rs

  pub find-update :
      (p : A → Bool) (f : A → A)
      → ((r : A) → key (f r) ≡ key r)
      → (k : String) (rows : List A)
      → find_where (has k) (update_where p f rows) ≡ adjust p f (find_where (has k) rows)
  find-update p f keeps k [] = refl
  find-update p f keeps k (r ∷ rs) = elim (Bool-cases (p r)) [
    | inl e ↦ rw (e, keeps r) (ground (arith, find-update p f keeps k rs))
    | inr e ↦ rw e (ground (arith, find-update p f keeps k rs))
  ]

  pub update-Unique :
      (p : A → Bool) (f : A → A)
      → ((r : A) → key (f r) ≡ key r)
      → (rows : List A) → Unique rows
      → Unique (update_where p f rows)
  update-Unique p f keeps [] u = tt
  update-Unique p f keeps (r ∷ rs) u = elim (Bool-cases (p r)) [
    | inl e ↦
        rw (e, keeps r)
          (rw (find-update p f keeps (key r) rs, u.0) refl, update-Unique p f keeps rs u.1)
    | inr e ↦ rw e (rw (find-update p f keeps (key r) rs, u.0) refl, update-Unique p f keeps rs u.1)
  ]

  pub count-no_key :
      (p : A → Bool) (k : String)
      → ((r : A) → p r ≡ true → key r ≡ k)
      → (rows : List A) → find_where (has k) rows ≡ none
      → count_where p rows ≡ 0
  count-no_key p k only [] h = refl
  count-no_key p k only (r ∷ rs) h =
      ground (arith, only r, text_iff (key r) k, count-no_key p k only rs)

  -- With unique keys a WHERE clause that fixes the key selects at most the one row.
  pub count-hits :
      (p : A → Bool) (k : String)
      → ((r : A) → p r ≡ true → key r ≡ k)
      → (rows : List A) → Unique rows
      → count_where p rows ≡ hits p (find_where (has k) rows)
  count-hits p k only [] u = refl
  count-hits p k only (r ∷ rs) u = elim (Bool-cases (key r == k)) [
    | inl e ↦ rw e (here ((text_iff (key r) k).0 e))
    | inr e ↦ rw e (ground (arith, only r, text_iff (key r) k, count-hits p k only rs u.1))
  ]
    where
      here : key r ≡ k → (if p r then 1 else 0) + count_where p rs ≡ (if p r then 1 else 0)
      here e = omega (arith, count-no_key p k only rs (rw (← e) u.0))

  -- Deleting keeps a missing key missing.
  missing-delete :
      (p : A → Bool) (k : String) (rows : List A)
      → find_where (has k) rows ≡ none
      → find_where (has k) (delete_where p rows) ≡ none
  missing-delete p k [] h = refl
  missing-delete p k (r ∷ rs) h = ground (arith, missing-delete p k rs)

  pub delete-Unique : (p : A → Bool) (rows : List A) → Unique rows → Unique (delete_where p rows)
  delete-Unique p [] u = tt
  delete-Unique p (r ∷ rs) u = elim (Bool-cases (p r)) [
    | inl e ↦ rw e (delete-Unique p rs u.1)
    | inr e ↦ rw e (missing-delete p (key r) rs u.0, delete-Unique p rs u.1)
  ]

  -- Deleting the row of a key leaves none with it.
  pub find-delete :
      (q : A → Bool) (k : String) (row : A) (rows : List A)
      → Unique rows
      → find_where (has k) rows ≡ some row
      → q row ≡ true
      → find_where (has k) (delete_where (λ r. has k r && q r) rows) ≡ none
  find-delete q k row [] u h t = refl
  find-delete q k row (r ∷ rs) u h t = elim (Bool-cases (key r == k)) [
    | inl e ↦ rw (e, gone e) (missing-delete _ k rs (rw (← (text_iff (key r) k).0 e) (u.0)))
    | inr e ↦ rw e (ground (arith, find-delete q k row rs u.1 (rw e at h) t))
  ]
    where
      gone : key r == k ≡ true → q r ≡ true
      gone e = ground (arith, e, h, t)
