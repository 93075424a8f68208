-- ===== src/Access.antt =====
-- internal/service/service.go: who may run a command, and which instances a user sees. `equal_fold`
-- is strings.EqualFold.
pub mod Rights
mod Tests
use srv.Base.Lists.{exists_where}
use srv.Base.{string_eq, [], not, ◌||◌, false, if◌then◌else◌, true, ◌==◌, ◌∷◌, String, List, Bool}
use srv.Model.{Instance}

-- the two lists of users of the configuration
pub record Users : Type 0 where
  pub admin_users : List String
  pub allowed_users : List String

-- the answers of authorize, each with its own reason
pub data Decision : Type 0 where
  not_admin allowed_as_admin not_allowed allowed_by_default allowed : Decision

abbrev pub permits : Decision → Bool
permits not_admin = false
permits allowed_as_admin = true
permits not_allowed = false
permits allowed_by_default = true
permits allowed = true

abbrev pub needs_admin : String → Bool
needs_admin command =
    command == "snapshot"
    || (command == "status" || (command == "integration" || command == "pool"))

abbrev pub is_empty : List String → Bool
is_empty [] = true
is_empty (u ∷ us) = false

-- what GetInstance answers: sql.ErrNoRows, another error, or the instance
pub data Found : Type 0 where
  no_rows : Found
  unread : Found
  found : Instance → Found

module _ (equal_fold : String → String → Bool) where
  abbrev pub is_listed : List String → String → Bool
  is_listed users login = exists_where (λ user. equal_fold user login) users

  unfoldable pub is_admin : Users → String → Bool
  is_admin users login = is_listed users.admin_users login

  unfoldable pub authorize : Users → String → String → Decision
  authorize users login command =
      if needs_admin command
      then (if not (is_admin users login)
          then not_admin
          else if is_empty users.allowed_users
          then allowed_as_admin
          else if is_listed users.allowed_users login
          then allowed_as_admin
          else not_allowed)
      else if is_empty users.allowed_users
      then allowed_by_default
      else if is_listed users.allowed_users login
      then allowed
      else not_allowed

  unfoldable pub can_access_instance : Users → String → Instance → Bool
  can_access_instance users login i =
      if is_admin users login then true else equal_fold i.created_by_user login

  abbrev pub visible_loop : Users → String → List Instance → List Instance
  visible_loop users login [] = []
  visible_loop users login (i ∷ is) =
      let visible = visible_loop users login is in
      if can_access_instance users login i then i ∷ visible else visible

  unfoldable pub visible_instances : Users → String → List Instance → List Instance
  visible_instances users login is =
      if is_admin users login then is else visible_loop users login is

  abbrev pub if_visible : Users → String → Found → Found
  if_visible users login no_rows = no_rows
  if_visible users login unread = unread
  if_visible users login (found i) =
      if not (can_access_instance users login i) then no_rows else found i

  -- `answer` is what the store answers for the name.
  unfoldable pub lookup_visible_instance : Users → String → Found → Found
  lookup_visible_instance users login answer = if_visible users login answer
