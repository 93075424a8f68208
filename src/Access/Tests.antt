-- ===== src/Access/Tests.antt =====
-- One administrator, and one user who is not.
use srv.Model.Sample.{machine}
use srv.Access.Rights.{authorize_exactly, visible_exactly}
use srv.Base.Lists.{select_where}
use srv.Access.{
  is_listed, is_empty, is_admin, can_access_instance, needs_admin, authorize, Users, permits,
  visible_instances,
}
use srv.Base.{◌&&◌, ◌||◌, not, ◌≡◌, [], string_eq, ◌∷◌, ◌==◌, String, Bool}

abbrev same_login : String → String → Bool
same_login a b = a == b

abbrev one_admin : Users
one_admin = record { admin_users = "root" ∷ []; allowed_users = [] }

authorize_exactly_example : permits (authorize same_login one_admin "ann" "snapshot") ≡ (
    (not (needs_admin "snapshot") || is_admin same_login one_admin "ann")
    && (is_empty one_admin.allowed_users || is_listed same_login one_admin.allowed_users "ann"))
authorize_exactly_example = authorize_exactly same_login one_admin "ann" "snapshot"

visible_exactly_example :
    visible_instances same_login one_admin "alice" (machine ∷ [])
    ≡ select_where (can_access_instance same_login one_admin "alice") (machine ∷ [])
visible_exactly_example = visible_exactly same_login one_admin "alice" (machine ∷ [])
