-- ===== src/Commands/Text.antt =====
-- What internal/service uses of the package strings, over code points.
use srv.Model.Memory.{is_space, trim_left, trim_right, trim_space}
use srv.Base.{
  and_right, inr, nat_eq, ◌-◌, and_left, inl, refl, ◌+◌, ◌==◌, Bool-cases, [], arith, false, not,
  ◌&&◌, ◌*◌, ◌++◌, if◌then◌else◌, leb, true, ◌∷◌, ◌≡◌, List, ℕ, Bool,
}

abbrev pub Text : Type 0
Text = List ℕ

abbrev pub same_text : Text → Text → Bool
same_text [] [] = true
same_text [] (d ∷ ds) = false
same_text (c ∷ cs) [] = false
same_text (c ∷ cs) (d ∷ ds) = c == d && same_text cs ds

pub same_text_refl : (cs : Text) → same_text cs cs ≡ true
same_text_refl [] = refl
same_text_refl (c ∷ cs) = ground (arith, same_text_refl cs)

-- unicode.ToLower, where the result is an ASCII letter: U+0130 is an i and U+212A a k. No other
-- letter outside ASCII becomes one of ASCII, and those stay what they are here.
abbrev pub lower : ℕ → ℕ
lower c =
    if leb 65 c && leb c 90
    then c + 32
    else if c == 0x130
    then 105
    else if c == 0x212a
    then 107
    else c

abbrev pub to_lower : Text → Text
to_lower [] = []
to_lower (c ∷ cs) = lower c ∷ to_lower cs

abbrev pub has_prefix : Text → Text → Bool
has_prefix cs [] = true
has_prefix [] (p ∷ ps) = false
has_prefix (c ∷ cs) (p ∷ ps) = c == p && has_prefix cs ps

abbrev pub is_digit : ℕ → Bool
is_digit c = leb 48 c && leb c 57

abbrev pub all_digits : Text → Bool
all_digits [] = true
all_digits (c ∷ cs) = is_digit c && all_digits cs

-- the digits at the front, and what follows them
abbrev pub digits_of : Text → Text
digits_of [] = []
digits_of (c ∷ cs) = let ds = digits_of cs in if is_digit c then c ∷ ds else []

abbrev pub after_digits : Text → Text
after_digits [] = []
after_digits (c ∷ cs) = let rest = after_digits cs in if is_digit c then rest else c ∷ cs

-- the number that digits write in base ten
abbrev pub decimal : ℕ → Text → ℕ
decimal n [] = n
decimal n (c ∷ cs) = decimal (n * 10 + (c - 48)) cs

-- no white space
abbrev pub is_solid : Text → Bool
is_solid [] = true
is_solid (c ∷ cs) = not (is_space c) && is_solid cs

solid-trim_left : (cs : Text) → is_solid cs ≡ true → trim_left cs ≡ cs
solid-trim_left [] h = refl
solid-trim_left (c ∷ cs) h = elim (Bool-cases (is_space c)) [
  | inl e ↦ absurd (ground (arith, e, h))
  | inr e ↦ rw (e) refl
]

solid-trim_right : (cs : Text) → is_solid cs ≡ true → trim_right cs ≡ cs
solid-trim_right [] h = refl
solid-trim_right (c ∷ cs) h = elim (Bool-cases (is_space c)) [
  | inl e ↦ absurd (ground (arith, e, h))
  | inr e ↦ rw (e, solid-trim_right cs (and_right (not (is_space c)) (is_solid cs) h)) refl
]

-- Trimming leaves a text without white space.
pub solid-trim_space : (cs : Text) → is_solid cs ≡ true → trim_space cs ≡ cs
solid-trim_space cs h = rw (solid-trim_left cs h) (solid-trim_right cs h)

pub digits-append :
    (ds cs : Text) → all_digits ds ≡ true → digits_of cs ≡ [] → digits_of (ds ++ cs) ≡ ds
digits-append [] cs h k = k
digits-append (d ∷ ds) cs h k =
    rw
      (
        and_left (is_digit d) (all_digits ds) h,
        digits-append ds cs (and_right (is_digit d) (all_digits ds) h) k,
      )
      refl

pub after-append :
    (ds cs : Text) → all_digits ds ≡ true → after_digits cs ≡ cs → after_digits (ds ++ cs) ≡ cs
after-append [] cs h k = k
after-append (d ∷ ds) cs h k =
    rw
      (
        and_left (is_digit d) (all_digits ds) h,
        after-append ds cs (and_right (is_digit d) (all_digits ds) h) k,
      )
      refl

digit-space : (c : ℕ) → is_digit c ≡ true → is_space c ≡ false
digit-space c h = ground (arith, h)

pub digits-solid :
    (ds cs : Text) → all_digits ds ≡ true → is_solid cs ≡ true → is_solid (ds ++ cs) ≡ true
digits-solid [] cs h k = k
digits-solid (d ∷ ds) cs h k =
    rw
      (
        digit-space d (and_left (is_digit d) (all_digits ds) h),
        digits-solid ds cs (and_right (is_digit d) (all_digits ds) h) k,
      )
      refl
