-- ===== src/PoolResize/Tests.antt =====
-- A pool that shrinks, a duplicate of its request, and a busy pool.
use srv.PoolResize.Replay.{completed_replayed, resize_cgroup_guarded}
use srv.Base.{refl, ◌≤◌, ◌+◌, if◌then◌else◌, ◌<◌, ◌⊎◌, [], ◌≡◌, false, some, true, ◌∷◌}
use srv.PoolResize.{
  reused, headroom, replied, same_request, failed, Cgroup, Receipt, Request, Runner, resize_cgroup,
  resize_memory_pool,
}

abbrev shrink : Request
shrink = record { request_id = "z1"; name = "pool"; size_bytes = 1073741824; running = true }

abbrev settled : Receipt
settled = record { request = shrink; completed = true; error = false }

abbrev runner : Runner
runner = record {
  receipts = settled ∷ [];
  cgroups = λ n. some (record { limit = 4294967296; usage = 104857600 });
}

completed_replayed_example :
    let y = resize_memory_pool false false false false shrink runner in
    (y.1.cgroups ≡ runner.cgroups)
    × ((y.0 ≡ failed)
        ⊎ (if same_request settled.request shrink then y.0 ≡ replied settled else y.0 ≡ reused))
completed_replayed_example =
    completed_replayed false false false false shrink runner settled refl refl

abbrev roomy : Cgroup
roomy = record { limit = 4294967296; usage = 104857600 }

resize_cgroup_guarded_example :
    ((resize_cgroup shrink (some roomy)).1 ≡ some roomy)
    ⊎ (((resize_cgroup shrink (some roomy)).1 ≡ some (record roomy { limit = shrink.size_bytes }))
        × (((0 < roomy.limit) × (roomy.limit < shrink.size_bytes))
            ⊎ ((roomy.usage ≡ 0) ⊎ (roomy.usage + headroom shrink.size_bytes ≤ shrink.size_bytes))))
resize_cgroup_guarded_example = resize_cgroup_guarded shrink roomy
