-- ===== src/Provision/Pools/Limits.antt =====
-- What resizeMemoryPool of internal/vmrunner/pools.go does to the limit of the pool that it is asked
-- about, and to the receipt.
use srv.Base.{inr, inl, ◌==◌, Bool-cases, and_left, refl, same_number_iff}
use srv.Provision.Pools.{resized, refused, unknown}
use srv.PoolResize.{
  pending, set_cgroup, answer_to, execute, resize_memory_pool, resume, same_bool, replied,
}
use srv.Provision.Pools.{reply_of, Reply}
use srv.PoolResize.{
  finish, receipt, Answer, Receipt, Runner, same_request, Cgroup, Request, resize_cgroup,
}
use srv.Base.{
  List, ◌∷◌, text_refl, arith, leb, none, ltb, ◌&&◌, ◌||◌, false, not, some, ◌≡◌, ◌≤◌, true, ◌<◌, ℕ,
  Bool, Option,
}

-- no cgroup, or one with a limit of at most `n`
abbrev pub limited : Option Cgroup → ℕ → Bool
limited none n = true
limited (some c) n = ltb 0 c.limit && leb c.limit n

-- a request that was done: no error
abbrev pub was_done : Request → Option Receipt → Bool
was_done req none = false
was_done req (some r) = r.completed && (not r.error && same_request r.request req)

-- Where the receipt says that the request was done, the limit is within its size.
abbrev pub honest : Request → Runner → Bool
honest req s =
    not (was_done req (receipt req.request_id s.receipts))
    || limited (s.cgroups req.name) req.size_bytes

abbrev pub is_resized : Reply → Bool
is_resized resized = true
is_resized refused = false
is_resized unknown = false

-- what the runner keeps for a request, with the reservation of the pool
abbrev pub Within : ℕ → Request → Runner → Type 0
Within reserved req s =
    (0 < req.size_bytes)
    × (req.size_bytes ≤ reserved)
    × (limited (s.cgroups req.name) reserved ≡ true)
    × (honest req s ≡ true)

cgroup_lem :
    (req : Request) (c : Option Cgroup) (reserved : ℕ)
    → 0 < req.size_bytes
    → req.size_bytes ≤ reserved
    → limited c reserved ≡ true
    → (limited (resize_cgroup req c).1 reserved ≡ true)
      × ((not (resize_cgroup req c).0 || limited (resize_cgroup req c).1 req.size_bytes) ≡ true)
unfolding resize_cgroup
cgroup_lem req none reserved p s l = ground arith
cgroup_lem req (some c) reserved p s l = ground (arith, p, s, l)

-- the answer, the limit and the receipt after a step of the runner
abbrev pub Kept : ℕ → Request → Answer × Runner → Type 0
Kept reserved req y =
    Within reserved req y.1
    × ((not (is_resized (reply_of y.0)) || limited (y.1.cgroups req.name) req.size_bytes) ≡ true)

finish_lem :
    (broken : Bool) (req : Request) (fine : Bool) (reserved : ℕ) (s : Runner)
    → 0 < req.size_bytes
    → req.size_bytes ≤ reserved
    → limited (s.cgroups req.name) reserved ≡ true
    → (not fine || limited (s.cgroups req.name) req.size_bytes) ≡ true
    → was_done req (receipt req.request_id s.receipts) ≡ false
    → Kept reserved req (finish broken req fine s)
finish_lem true req fine reserved s p z l f d = ground (arith, l, d)
finish_lem false req fine reserved s p z l f d = ground (arith, l, f, d, text_refl req.request_id)

execute_lem :
    (io broken : Bool) (req : Request) (reserved : ℕ) (s : Runner)
    → 0 < req.size_bytes
    → req.size_bytes ≤ reserved
    → limited (s.cgroups req.name) reserved ≡ true
    → was_done req (receipt req.request_id s.receipts) ≡ false
    → Kept reserved req (execute io broken req s)
execute_lem true broken req reserved s p z l d = finish_lem broken req false reserved s p z l refl d
execute_lem false broken req reserved s p z l d =
    let y = resize_cgroup req (s.cgroups req.name) in
    let c = cgroup_lem req (s.cgroups req.name) reserved p z l in
    finish_lem broken req y.0 reserved (record s { cgroups = set_cgroup req.name y.1 s.cgroups }) p
      z (rw (text_refl req.name) c.0) (rw (text_refl req.name) c.1) d

same_bool_self : (b : Bool) → same_bool b b ≡ true
same_bool_self true = refl
same_bool_self false = refl

-- The receipt of a request that is written is the one that is found.
written_lem :
    (req : Request) (r : Receipt) (rs : List Receipt)
    → same_request r.request req ≡ true
    → receipt req.request_id (r ∷ rs) ≡ some r
written_lem req r rs q = rw (and_left (r.request.request_id == req.request_id) _ q) refl

done_lem :
    (req : Request) (r : Receipt) (reserved : ℕ) (s : Runner)
    → Within reserved req s
    → same_request r.request req ≡ true
    → r.completed ≡ true
    → receipt req.request_id s.receipts ≡ some r
    → Kept reserved req (replied r, record s { receipts = r ∷ s.receipts })
done_lem req r reserved s w q c known =
    let head = written_lem req r s.receipts q in
    let honest_now : (not (was_done req (some r)) || limited (s.cgroups req.name) req.size_bytes)
        ≡ true =
      rw known at (w.3) in
    ((w.0, w.1, w.2, rw (head) honest_now), ground (arith, honest_now, q, c))

resume_lem :
    (first io broken : Bool) (req : Request) (r : Receipt) (reserved : ℕ) (s : Runner)
    → Within reserved req s
    → same_request r.request req ≡ true
    → (r.completed ≡ true → receipt req.request_id s.receipts ≡ some r)
    → Kept reserved req (resume first io broken req r s)
resume_lem true io broken req r reserved s w q known = (w, refl)
resume_lem false io broken req r reserved s w q known = elim (Bool-cases r.completed) [
  | inl c ↦ simp c (done_lem req r reserved s w q c (known c))
  | inr c ↦ simp c (
      execute_lem io broken req reserved (record s { receipts = r ∷ s.receipts }) w.0 w.1 w.2
        (rw (written_lem req r s.receipts q) (ground (arith, c))))
]

same_self : (req : Request) → same_request req req ≡ true
same_self req =
    rw
      (
        text_refl req.request_id,
        text_refl req.name,
        (same_number_iff req.size_bytes req.size_bytes).1 refl,
      )
      (same_bool_self req.running)

answer_lem :
    (first io broken : Bool) (req : Request) (o : Option Receipt) (reserved : ℕ) (s : Runner)
    → receipt req.request_id s.receipts ≡ o
    → Within reserved req s
    → Kept reserved req (answer_to first io broken req o s)
answer_lem first io broken req none reserved s e w =
    resume_lem first io broken req (pending req) reserved s w (same_self req)
      λ c. absurd (ground (arith, c))
answer_lem first io broken req (some r) reserved s e w =
    elim (Bool-cases (same_request r.request req)) [
      | inl q ↦ rw q (resume_lem first io broken req r reserved s w q λ _. e)
      | inr q ↦ rw q (w, refl)
    ]

-- Whatever fails in the runner, the limit stays within the reservation, the receipt stays honest,
-- and after a reply that the resize was done the limit is within the size.
pub resize-Kept :
    (before first io broken : Bool) (req : Request) (reserved : ℕ) (s : Runner)
    → Within reserved req s
    → Kept reserved req (resize_memory_pool before first io broken req s)
unfolding resize_memory_pool
resize-Kept true first io broken req reserved s w = (w, refl)
resize-Kept false first io broken req reserved s w =
    answer_lem first io broken req (receipt req.request_id s.receipts) reserved s refl w
