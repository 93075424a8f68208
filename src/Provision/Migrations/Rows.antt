-- ===== src/Provision/Migrations/Rows.antt =====
-- What an upsert does to the row of a key.
use srv.Base.Keys.{has}
use srv.Base.Lists.{update_where, exists_where, find_where}
use srv.Base.{
  text_refl, [], refl, string_eq, text_iff, inr, ◌∷◌, arith, inl, Bool-cases, some, false, true,
  ◌≡◌, ◌==◌, List, String,
}
use srv.Store.Imports.{upsert}

module _ {A : Type 0} (key : A → String) where
  replaced-find :
      (a : A) (rows : List A)
      → exists_where (λ r. key r == key a) rows ≡ true
      → find_where (has key (key a)) (update_where (λ r. key r == key a) (λ r. a) rows) ≡ some a
  replaced-find a [] h = absurd (ground (arith, h))
  replaced-find a (r ∷ rs) h = elim (Bool-cases (key r == key a)) [
    | inl q ↦ rw (q, text_refl (key a)) refl
    | inr q ↦ rw (q, q) (replaced-find a rs (rw q at h))
  ]

  pub upsert-find :
      (a : A) (rows : List A) → find_where (has key (key a)) (upsert key a rows) ≡ some a
  upsert-find a rows = elim (Bool-cases (exists_where (λ r. key r == key a) rows)) [
    | inl q ↦ rw q (replaced-find a rows q)
    | inr q ↦ rw (q, text_refl (key a)) refl
  ]

  kept-find :
      (a : A) (k : String) (rows : List A)
      → (key a == k) ≡ false
      → find_where (has key k) (update_where (λ r. key r == key a) (λ r. a) rows)
        ≡ find_where (has key k) rows
  kept-find a k [] e = refl
  kept-find a k (r ∷ rs) e = elim (Bool-cases (key r == key a)) [
    | inl q ↦ rw (q, (text_iff (key r) (key a)).0 q, e) (kept-find a k rs e)
    | inr q ↦ rw q (ground (arith, kept-find a k rs e))
  ]

  pub other-find :
      (a : A) (k : String) (rows : List A)
      → (key a == k) ≡ false
      → find_where (has key k) (upsert key a rows) ≡ find_where (has key k) rows
  other-find a k rows e = elim (Bool-cases (exists_where (λ r. key r == key a) rows)) [
    | inl q ↦ rw q (kept-find a k rows e)
    | inr q ↦ rw (q, e) refl
  ]
