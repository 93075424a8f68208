-- ===== src/Launch/Name.antt =====
-- The pattern of an instance's name in internal/vmrunner/vmrunner.go, over the code points.
use srv.Base.Lists.{length}
use srv.Model.Memory.{codes}
use srv.Base.{nat_eq, ◌&&◌, ◌==◌, false, leb, ◌||◌, Bool, List, String, ℕ, [], ◌∷◌}

-- [a-z0-9]
abbrev pub is_alnum : ℕ → Bool
is_alnum c = (leb 97 c && leb c 122) || (leb 48 c && leb c 57)

-- [a-z0-9-]*[a-z0-9], from its first character
abbrev pub ends_well : ℕ → List ℕ → Bool
ends_well c [] = is_alnum c
ends_well c (d ∷ ds) = (is_alnum c || c == 45) && ends_well d ds

abbrev pub well_formed : List ℕ → Bool
well_formed [] = false
well_formed (c ∷ []) = is_alnum c
well_formed (c ∷ d ∷ ds) = is_alnum c && (leb (length (d ∷ ds)) 62 && ends_well d ds)

-- ^[a-z0-9](?:[a-z0-9-]{0,61}[a-z0-9])?$
unfoldable pub valid_name : String → Bool
valid_name s = well_formed (codes s)
