-- ===== src/Access/Rights.antt =====
-- What the decisions of internal/service/service.go come to.
use srv.Base.Lists.{select_where}
use srv.Access.{
  is_listed, is_empty, needs_admin, is_admin, permits, visible_loop, Users, authorize,
  can_access_instance, visible_instances,
}
use srv.Base.{
  arith, inr, refl, sym, ◌&&◌, [], ap, inl, ◌||◌, Bool-cases, ◌∷◌, not, true, ◌≡◌, String, List,
  Bool,
}
use srv.Model.{Instance}

module _ (equal_fold : String → String → Bool) where
  -- A command is allowed exactly when the user is an administrator, where the command needs one, and
  -- is among the allowed users, where any are named.
  pub authorize_exactly :
      (users : Users) (login command : String)
      → permits (authorize equal_fold users login command) ≡ (
          (not (needs_admin command) || is_admin equal_fold users login)
          && (is_empty users.allowed_users || is_listed equal_fold users.allowed_users login))
  unfolding authorize
  authorize_exactly users login command = ground arith

  loop_lem :
      (users : Users) (login : String) (is : List Instance)
      → visible_loop equal_fold users login is
        ≡ select_where (can_access_instance equal_fold users login) is
  loop_lem users login [] = refl
  loop_lem users login (i ∷ is) = rw (loop_lem users login is) refl

  admin_sees :
      (users : Users) (login : String) (is : List Instance)
      → is_admin equal_fold users login ≡ true
      → select_where (can_access_instance equal_fold users login) is ≡ is
  unfolding can_access_instance
  admin_sees users login [] h = refl
  admin_sees users login (i ∷ is) h =
      rw (h) (ap (λ (rest : List Instance). i ∷ rest) (admin_sees users login is h))

  -- The instances that a user is shown are those of the list, in its order, that the user can access.
  pub visible_exactly :
      (users : Users) (login : String) (is : List Instance)
      → visible_instances equal_fold users login is
        ≡ select_where (can_access_instance equal_fold users login) is
  unfolding visible_instances
  visible_exactly users login is = elim (Bool-cases (is_admin equal_fold users login)) [
    | inl h ↦ rw (h) (sym (admin_sees users login is h))
    | inr h ↦ rw (h) (loop_lem users login is)
  ]
