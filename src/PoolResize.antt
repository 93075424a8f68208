-- ===== src/PoolResize.antt =====
-- internal/vmrunner/pools.go: the runner resizes the cgroup of a memory pool once for each request
-- ID. The file system is a schedule of answers; sizes are below 2 ^ 62.
pub mod Replay
mod Tests
use srv.Base.Lists.{find_where}
use srv.Base.{
  Option, none, some, nat_eq, ◌+◌, string_eq, true, ◌&&◌, ◌/◌, ◌||◌, ◌∷◌, if◌then◌else◌, ltb, max,
  not, some, ◌==◌, Bool, List, Option, String, false, ℕ,
}

pub record Request : Type 0 where
  pub request_id : String
  pub name : String
  pub size_bytes : ℕ
  pub running : Bool

pub record Receipt : Type 0 where
  pub request : Request
  pub completed : Bool
  pub error : Bool  -- the error text is not empty

-- the cgroup of a pool: `memory.max`, with 0 for `max`, and `memory.current`
pub record Cgroup : Type 0 where
  pub limit : ℕ
  pub usage : ℕ

pub record Runner : Type 0 where
  pub receipts : List Receipt  -- <request ID>.json, newest write first
  pub cgroups : String → Option Cgroup

abbrev pub same_bool : Bool → Bool → Bool
same_bool true b = b
same_bool false b = not b

abbrev pub same_request : Request → Request → Bool
same_request a b =
    a.request_id == b.request_id
    && (a.name == b.name && (a.size_bytes == b.size_bytes && same_bool a.running b.running))

abbrev pub receipt : String → List Receipt → Option Receipt
receipt id rs = find_where (λ r. r.request.request_id == id) rs

-- max(256 MiB, size/10)
abbrev pub headroom : ℕ → ℕ
headroom size = max 268435456 (size / 10)

-- `current > 0 && current > size-headroom`, in integers that may be negative
abbrev pub too_busy : ℕ → ℕ → Bool
too_busy size usage = ltb 0 usage && ltb size (usage + headroom size)

abbrev pub shrinks : Cgroup → ℕ → Bool
shrinks c size = c.limit == 0 || ltb size c.limit

-- `true` and the cgroup that is written, or `false` and why not
unfoldable pub resize_cgroup : Request → Option Cgroup → Bool × Option Cgroup
resize_cgroup req none = (not req.running, none)
resize_cgroup req (some c) =
    if c.limit == req.size_bytes
    then (true, some c)
    else if shrinks c req.size_bytes && too_busy req.size_bytes c.usage
    then (false, some c)
    else (true, some (record c { limit = req.size_bytes }))

abbrev pub set_cgroup : String → Option Cgroup → (String → Option Cgroup) → String → Option Cgroup
set_cgroup name c cgroups n = if n == name then c else cgroups n

pub data Answer : Type 0 where
  replied : Receipt → Answer
  reused : Answer  -- the request ID was used with other arguments
  failed : Answer  -- an I/O error

-- the last write of the receipt, which may fail
abbrev pub finish : Bool → Request → Bool → Runner → Answer × Runner
finish broken req fine s =
    if broken
    then (failed, s)
    else (let r : Receipt = record { request = req; completed = true; error = not fine } in
        (replied r, record s { receipts = r ∷ s.receipts }))

-- resizeMemoryPoolCgroup and what follows it: `io` fails its reads and its write
abbrev pub execute : Bool → Bool → Request → Runner → Answer × Runner
execute io broken req s =
    if io
    then finish broken req false s
    else (let (fine, c) = resize_cgroup req (s.cgroups req.name) in
        finish broken req fine (record s { cgroups = set_cgroup req.name c s.cgroups }))

abbrev pub pending : Request → Receipt
pending req = record { request = req; completed = false; error = false }

abbrev pub resume : Bool → Bool → Bool → Request → Receipt → Runner → Answer × Runner
resume first io broken req r s =
    if first
    then (failed, s)
    else if r.completed
    then (replied r, record s { receipts = r ∷ s.receipts })
    else execute io broken req (record s { receipts = r ∷ s.receipts })

abbrev pub answer_to : Bool → Bool → Bool → Request → Option Receipt → Runner → Answer × Runner
answer_to first io broken req none s = resume first io broken req (pending req) s
answer_to first io broken req (some r) s =
    if same_request r.request req then resume first io broken req r s else (reused, s)

-- resizeMemoryPool: `before`, `first`, `io` and `broken` say which part fails.
unfoldable pub resize_memory_pool : Bool → Bool → Bool → Bool → Request → Runner → Answer × Runner
unfolding resize_cgroup
resize_memory_pool before first io broken req s =
    if before
    then (failed, s)
    else answer_to first io broken req (receipt req.request_id s.receipts) s
