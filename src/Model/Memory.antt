-- ===== src/Model/Memory.antt =====
-- `NormalizeMemoryMode` of internal/model/model.go over code points: strings.TrimSpace and
-- strings.EqualFold against "pool", whose letters fold with ASCII ones alone.
use Prim.Native.Char.{code}
use srv.Base.{
  ℕ, ◌+◌, String, Bool, true, false, List, [], ◌∷◌, ◌&&◌, ◌||◌, ◌==◌, nat_eq, leb, if◌then◌else◌,
  ◌≡◌, refl,
}

-- The code points of a text; `String` has its own `[]` and `∷`.
abbrev pub codes : String → List ℕ
codes String.[] = []
codes (String.◌∷◌ c s) = code c ∷ codes s

-- unicode.IsSpace
abbrev pub is_space : ℕ → Bool
is_space c =
    leb 9 c && leb c 13
    || (c == 32
        || (c == 0x85
            || (c == 0xa0
                || (c == 0x1680
                    || (leb 0x2000 c && leb c 0x200a
                        || (c == 0x2028
                            || (c == 0x2029 || (c == 0x202f || (c == 0x205f || c == 0x3000)))))))))

abbrev pub trim_left : List ℕ → List ℕ
trim_left [] = []
trim_left (c ∷ cs) = let less = trim_left cs in if is_space c then less else c ∷ cs

abbrev pub all_space : List ℕ → Bool
all_space [] = true
all_space (c ∷ cs) = is_space c && all_space cs

abbrev pub trim_right : List ℕ → List ℕ
trim_right [] = []
trim_right (c ∷ cs) = let kept = c ∷ trim_right cs in if all_space (c ∷ cs) then [] else kept

abbrev pub trim_space : List ℕ → List ℕ
trim_space cs = trim_right (trim_left cs)

abbrev fold_case : ℕ → ℕ
fold_case c = if leb b'A' c && leb c b'Z' then c + 32 else c

abbrev equal_fold : List ℕ → List ℕ → Bool
equal_fold [] [] = true
equal_fold (a ∷ s) (b ∷ t) = fold_case a == fold_case b && equal_fold s t
equal_fold _ _ = false

abbrev pub mode_fixed : String
mode_fixed = "fixed"

abbrev pub mode_pool : String
mode_pool = "pool"

unfoldable pub normalize_memory_mode : String → String
normalize_memory_mode mode =
    if equal_fold (trim_space (codes mode)) (codes mode_pool) then mode_pool else mode_fixed

-- Normalising a memory mode that is normalised already changes nothing.
pub normalize_idem :
    (mode : String)
    → normalize_memory_mode (normalize_memory_mode mode) ≡ normalize_memory_mode mode
unfolding normalize_memory_mode
normalize_idem mode = go (equal_fold (trim_space (codes mode)) (codes mode_pool))
  where
    go :
        (b : Bool)
        → normalize_memory_mode (if b then mode_pool else mode_fixed)
          ≡ (if b then mode_pool else mode_fixed)
    go true = refl
    go false = refl
