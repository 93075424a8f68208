-- ===== src/Provision/Pools/Admission.antt =====
-- The checks of ResizeMemoryPool before it begins: they change neither the store nor the runner.
use srv.Store.Session.Along.{same}
use srv.Model.{Instance}
use srv.Base.Int.{ℤ}
use srv.Provision.{Step, stored}
use srv.Provision.Steady.{migration_fence-Keeps, steady_rules, stored-Keeps, On}
use srv.Effect.Keeps.{Keeps-stop_if, Keeps-bind, Keeps-if, Keeps-give, keeps_rules, Keeps}
use srv.Base.{string_eq, ◌!=◌, [], ◌∷◌, false, List, ℕ, Bool, String, ◌≡◌}
use srv.PoolResize.{Runner}
use srv.Store.Session.Along.{Along-query, Along}
use srv.Store.Tables.{Tables}
use srv.Provision.Pools.{
  check_member, check_members, ensure_capacity, reserve_growth, list_instances, list_memory_pools,
}

instances-Along : Along (λ t t'. t' ≡ t) list_instances
unfolding list_instances
instances-Along = Along-query same _

pools-Along : Along (λ t t'. t' ≡ t) list_memory_pools
unfolding list_memory_pools
pools-Along = Along-query same _

module _ {P : Tables → Runner → Type 0} where
  pub list_instances-Keeps : Keeps (On P) (stored list_instances)
  list_instances-Keeps = stored-Keeps _ instances-Along

  module _ (equal_fold : String → String → Bool) (process_exists : ℤ → Bool) (memory : ℤ) where
    member-Keeps :
        (size : ℤ) (i : Instance) (others : Step Bool)
        → Keeps (On P) others
        → Keeps (On P) (check_member equal_fold process_exists memory size i others)
    member-Keeps size i others k = Keeps-bind _ _ (Keeps-stop_if _ _) λ x.
        Keeps-bind _ _ (migration_fence-Keeps i.name)
          λ y. Keeps-bind _ _ (Keeps-stop_if _ _) λ z. Keeps-bind others _ k λ running. Keeps-give _

    pub members-Keeps :
        (pool_id : String) (size : ℤ) (is : List Instance)
        → Keeps (On P) (check_members equal_fold process_exists memory pool_id size is)
    unfolding check_members
    members-Keeps pool_id size [] = Keeps-give false
    members-Keeps pool_id size (i ∷ is) =
        let others = members-Keeps pool_id size is in
        Keeps-if (i.memory_pool_id != pool_id) _ _ others (member-Keeps size i _ others)

    capacity-Keeps :
        (requested : ℕ) → Keeps (On P) (ensure_capacity equal_fold process_exists memory requested)
    unfolding ensure_capacity
    capacity-Keeps requested =
        search (keeps_rules, steady_rules, instances-Along, pools-Along) depth 12

    pub growth-Keeps :
        (previous size : ℤ)
        → Keeps (On P) (reserve_growth equal_fold process_exists memory previous size)
    growth-Keeps previous size = search (keeps_rules, capacity-Keeps) depth 6
