-- ===== src/ColdStore.antt =====
-- internal/coldstore/protocol.go: which requests the cold store accepts. `valid_id` (a canonical
-- UUID that is not nil, by github.com/google/uuid) is a parameter; the digest's 64 lower-case
-- hexadecimal digits are read as their character codes.
pub mod Shape
pub mod Server
pub mod Discipline
pub mod Discard
pub mod Permanence
pub mod Deletion
pub mod Life
mod Tests
use srv.Model.Memory.{codes}
use srv.Base.Lists.{length}
use srv.Base.Int.{pos, is_zero, ltb_ℤ, ℤ}
use srv.Base.{
  string_eq, false, nat_eq, ◌!=◌, ◌&&◌, ◌||◌, if◌then◌else◌, leb, not, true, ◌==◌, Bool, String, ℕ,
  refl, [], ◌∷◌, List,
}

pub record Object : Type 0 where
  pub id : String
  pub parent : String
  pub uuid : String
  pub size : ℤ
  pub sha256 : String

pub record Request : Type 0 where
  pub operation : String
  pub object : Object
  pub parent : String
  pub compression : String

-- 0-9 and a-f
abbrev pub is_hex : ℕ → Bool
is_hex c = (leb 48 c && leb c 57) || (leb 97 c && leb c 102)

abbrev pub all_hex : List ℕ → Bool
all_hex [] = true
all_hex (c ∷ cs) = is_hex c && all_hex cs

-- 32 bytes, in lower case
abbrev pub is_sha256 : String → Bool
is_sha256 s = length (codes s) == 64 && all_hex (codes s)

abbrev pub bare : Object → Bool
bare o = o.parent == "" && (o.uuid == "" && (is_zero o.size && o.sha256 == ""))

module _ (valid_id : String → Bool) where
  -- Object.validate
  unfoldable pub validate_object : Object → Bool
  validate_object o =
      not (
        not (valid_id o.id)
        || (not (valid_id o.uuid)
            || (not (ltb_ℤ (pos 0) o.size)
                || (o.parent != "" && (not (valid_id o.parent) || o.parent == o.id)))))
      && is_sha256 o.sha256

  -- request.validate after the compression and the ID, by operation
  unfoldable pub validate_operation : Request → Bool
  unfolding validate_object
  validate_operation r =
      if r.operation == "put"
      then r.parent == "" && validate_object r.object
      else if r.operation == "get"
      then not (r.parent != "" && (not (valid_id r.parent) || r.parent == r.object.id))
        && bare r.object
      else if r.operation == "stat" || r.operation == "delete"
      then r.parent == "" && bare r.object
      else false

  -- request.validate: `true` is the nil error
  unfoldable pub validate_request : Request → Bool
  unfolding validate_operation
  validate_request r =
      if r.compression != ""
        && (r.compression != "zstd" || (r.operation != "put" && r.operation != "get"))
      then false
      else if not (valid_id r.object.id)
      then false
      else validate_operation r
