-- ===== src/Base/Tests.antt =====
-- Boolean tests, one operator for the types that the code compares, and the conditional.
use Prim.Native.Nat.{ℕ, compare, Ordering}
use Prim.Native.String.{String}
use mathlib.Core.Path.{◌≡◌, refl}
use mathlib.Core.Logic.{◌↔◌, ◌⊎◌, inl, inr}
use mathlib.Core.Bool.{Bool, true, false, not, ◌&&◌}
use mathlib.Core.Option.{Option, none, some}
use native.Mathlib.Omega.{arith}
use text.Mathlib.Text.{◌==◌ as str_eq}
use text.Mathlib.TextEquality.{eq_iff}

abbrev pub ltb : ℕ → ℕ → Bool
ltb a b = elim (compare a b) [ Ordering.lt ↦ true | _ ↦ false ]

abbrev pub leb : ℕ → ℕ → Bool
leb a b = elim (compare a b) [ Ordering.gt ↦ false | _ ↦ true ]

-- the types whose values the code compares with == and in SQL
pub record Comparable {ℓ} (T : Type ℓ) : Type ℓ where
  pub agree : (x y : T) → Bool
  pub decides : (x y : T) → (agree x y ≡ true) ↔ (x ≡ y)

abbrev pub same_number : ℕ → ℕ → Bool
same_number m n = elim (compare m n) [ Ordering.eq ↦ true | _ ↦ false ]

pub same_number_iff : (m n : ℕ) → (same_number m n ≡ true) ↔ (m ≡ n)
same_number_iff m n = ground arith

instance abbrev pub string_eq : Comparable String
string_eq = record { agree = str_eq; decides = eq_iff }

instance abbrev pub nat_eq : Comparable ℕ
nat_eq = record { agree = same_number; decides = same_number_iff }

module _ {ℓ} {T : Type ℓ} ⦃c : Comparable T⦄ where
  infix 50 ◌==◌ ◌!=◌
  abbrev pub ◌==◌ : T → T → Bool
  x == y = c.agree x y

  abbrev pub ◌!=◌ : T → T → Bool
  x != y = not (c.agree x y)

-- The test on texts decides equality.
pub text_iff : (a b : String) → ((a == b) ≡ true) ↔ (a ≡ b)
text_iff = eq_iff

pub text_refl : (a : String) → (a == a) ≡ true
text_refl a = (eq_iff a a).1 refl

infix 1 if◌then◌else◌
abbrev pub if◌then◌else◌ {ℓ} : {A : Type ℓ} → Bool → A → A → A
if true then x else y = x
if false then x else y = y

pub Bool-cases : (b : Bool) → (b ≡ true) ⊎ (b ≡ false)
Bool-cases true = inl refl
Bool-cases false = inr refl

pub Option-cases {ℓ} : {A : Type ℓ} (o : Option A) → (o ≡ none) ⊎ ((a : A) × (o ≡ some a))
Option-cases none = inl refl
Option-cases (some a) = inr (a, refl)

pub and_left : (a b : Bool) → (a && b) ≡ true → a ≡ true
and_left true b h = refl
and_left false b h = cc

pub and_right : (a b : Bool) → (a && b) ≡ true → b ≡ true
and_right true b h = h
and_right false b h = cc
