-- ===== src/PoolResize/Replay.antt =====
-- internal/vmrunner/pools.go: a completed request is answered from its receipt.
use srv.Base.{arith, ◌≤◌, if◌then◌else◌, ◌+◌, true, ◌⊎◌, ◌≡◌, some, ◌<◌, Bool}
use srv.PoolResize.{
  reused, replied, same_request, headroom, failed, receipt, Receipt, Cgroup, Runner, Request,
  resize_cgroup, resize_memory_pool,
}

-- A request whose receipt is complete never changes a cgroup: a duplicate is answered with the
-- receipt, a request that reuses its ID with other arguments is refused, whatever fails.
pub completed_replayed :
    (before first io broken : Bool) (req : Request) (s : Runner) (r : Receipt)
    → receipt req.request_id s.receipts ≡ some r
    → r.completed ≡ true
    → let y = resize_memory_pool before first io broken req s in
      (y.1.cgroups ≡ s.cgroups)
      × ((y.0 ≡ failed) ⊎ (if same_request r.request req then y.0 ≡ replied r else y.0 ≡ reused))
unfolding resize_memory_pool
completed_replayed before first io broken req s r e c = rw e (ground (arith, c))

-- A cgroup stays as it is, or its limit becomes the requested size; and then there was a smaller
-- limit, or nothing is in use, or the requested size covers the memory in use and the headroom.
pub resize_cgroup_guarded :
    (req : Request) (c : Cgroup)
    → ((resize_cgroup req (some c)).1 ≡ some c)
      ⊎ (((resize_cgroup req (some c)).1 ≡ some (record c { limit = req.size_bytes }))
          × (((0 < c.limit) × (c.limit < req.size_bytes))
              ⊎ ((c.usage ≡ 0) ⊎ (c.usage + headroom req.size_bytes ≤ req.size_bytes))))
unfolding resize_cgroup
resize_cgroup_guarded req c = ground arith
