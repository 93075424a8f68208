-- ===== src/Provision/Pools/Calls.antt =====
-- ResizeMemoryPool call by call: each step leaves the pool of a name covered by its reservation.
use srv.Effect.{give, write, ◌>>=◌, ◌>>◌, read, ◌>>=◌}
use srv.Base.Int.{pos_part}
use srv.Provision.Pools.Limits.{limited, resize-Kept, is_resized}
use srv.Provision.Pools.{unknown, reply_of, request_of, Reply, ask_runner}
use srv.Base.Keys.{has, find-holds}
use srv.Store.Session.Along.{same}
use srv.Store.Session.Along.{Along-query, Along-query_row}
use srv.Provision.Pools.Cover.{At-row, At, Covered, Open, Fresh}
use srv.Provision.{Error, Host, stored}
use srv.Provision.Steady.{Triple-stored, On}
use srv.Effect.Keeps.{Triple-give, Triple-write, Triple-read, Keeps-ask, Triple-bind, Triple}
use srv.Store.Session.{ok, Session, call, query, query_row}
use srv.Base.{
  false, Bool, true, ◌||◌, if◌then◌else◌, not, Bool, text_iff, arith, refl, some, ◌≡◌, Option,
  String,
}
use srv.PoolResize.{resize_memory_pool, Request, Runner}
use srv.Model.{MemoryPool}
use srv.Store.Pools.{
  pending_of, MemoryPoolResize, get_memory_pool_by_name, pending_memory_pool_resize,
}
use srv.Store.Tables.{Resize, Tables}

query_ok :
    {A : Type 0} (f : Tables → A) (s : Session) (a : A) → (query f s).0 ≡ ok a → f s.tables ≡ a
unfolding query call
query_ok f s a e = ground (arith, e)

pub query_row_ok :
    {A : Type 0} (f : Tables → Option A) (s : Session) (a : A)
    → (query_row f s).0 ≡ ok a
    → f s.tables ≡ some a
unfolding query_row call
query_row_ok f s a e = ground (arith, e)

module _ {P : Tables → Runner → Type 0} {A : Type 0} {Q : A → Tables → Runner → Type 0} where
  Triple-query :
      (f : Tables → A)
      → ((t : Tables) (s : Runner) → P t s → Q (f t) t s)
      → Triple (On P) (stored (query f)) (λ a. On (Q a)) (On P)
  Triple-query f h =
      Triple-stored (query f)
        (λ s runner a p e. rw ((Along-query same f).at s, ← query_ok f s a e) (h s.tables runner p))
        λ s runner p e. rw ((Along-query same f).at s) p

  Triple-query_row :
      (f : Tables → Option A)
      → ((t : Tables) (s : Runner) (a : A) → P t s → f t ≡ some a → Q a t s)
      → Triple (On P) (stored (query_row f)) (λ a. On (Q a)) (On P)
  Triple-query_row f h =
      Triple-stored (query_row f)
        (λ s runner a p e.
          rw ((Along-query_row same f).at s) (h s.tables runner a p (query_row_ok f s a e)))
        λ s runner p e. rw ((Along-query_row same f).at s) p

-- get_memory_pool_by_name
pub read_pool :
    (name id : String)
    → Triple
        (On (Fresh id (Covered name)))
        (stored (get_memory_pool_by_name name))
        (λ pool. On (λ t s. (pool.name ≡ name) × Fresh id (Open pool) t s))
        (On (Fresh id (Covered name)))
unfolding get_memory_pool_by_name
read_pool name id = Triple-query_row _ λ t s a p e.
    let (pool, n, o, at) = p.0 in
    (
      (text_iff a.name name).0 (find-holds (has MemoryPool.name name) t.pools a e),
      ((o, At-row pool a o t s (rw n e) at), p.1),
    )

-- what PendingMemoryPoolResize answered
abbrev pub Known : MemoryPool → MemoryPoolResize → Tables → Runner → Type 0
Known pool op t s = (o : Option Resize) × (op ≡ pending_of o) × At pool o t s

pub read_pending :
    (pool : MemoryPool) (id : String)
    → Triple
        (On (Fresh id (Open pool)))
        (stored (pending_memory_pool_resize pool.id))
        (λ op. On (Fresh id (Known pool op)))
        (On (Fresh id (Open pool)))
unfolding pending_memory_pool_resize
read_pending pool id = Triple-query _ λ t s p. ((p.0.0, rw (p.0.1.held) refl, p.0.1), p.1)

abbrev pub request : MemoryPool → Resize → Request
request pool r = request_of pool.name (pending_of (some r))

-- after a reply of the runner
abbrev pub Asked : MemoryPool → Resize → Reply → Tables → Runner → Type 0
Asked pool r reply t s =
    At pool (some r) t s
    × ((not (is_resized reply) || limited (s.cgroups pool.name) (pos_part r.size_bytes)) ≡ true)

resized_at :
    (prior first io broken : Bool) (pool : MemoryPool) (r : Resize) (t : Tables) (s : Runner)
    → At pool (some r) t s
    → Asked pool r
        (reply_of (resize_memory_pool prior first io broken (request pool r) s).0)
        t
        (resize_memory_pool prior first io broken (request pool r) s).1
resized_at prior first io broken pool r t s at =
    let kept = resize-Kept prior first io broken (request pool r) _ s at.planned in
    (
      record {
        row = at.row;
        found = at.found;
        same_id = at.same_id;
        same_size = at.same_size;
        held = at.held;
        single = at.single;
        bounded = kept.0.2;
        planned = kept.0;
      },
      kept.1,
    )

lost_reply :
    (pool : MemoryPool) (r : Resize) (b : Bool) (reply : Reply) (t : Tables) (s : Runner)
    → Asked pool r reply t s
    → Asked pool r (if b then unknown else reply) t s
lost_reply pool r true reply t s p = (p.0, refl)
lost_reply pool r false reply t s p = p

-- one request to the runner, whatever part of it fails
do_it :
    (prior first io broken lost : Bool) (pool : MemoryPool) (r : Resize)
    → Triple {E = Error}
        (On (At pool (some r)))
        (do
          answer ←
              read (λ (h : Host).
                (resize_memory_pool prior first io broken (request pool r) h.runner).0)
          write (λ h. record h {
            runner = (resize_memory_pool prior first io broken (request pool r) h.runner).1;
          })
          give (if lost then unknown else reply_of answer))
        (λ reply. On (Asked pool r reply))
        (On (At pool (some r)))
do_it prior first io broken lost pool r =
    let run = λ (h : Host). resize_memory_pool prior first io broken (request pool r) h.runner in
    Triple-bind _ _
      (Triple-read {Q = λ a h. On (At pool (some r)) h × (a ≡ (run h).0)} _ λ h p. (p, refl))
      λ a.
        Triple-bind _ _
          (Triple-write {Q = λ x. On (Asked pool r (reply_of a))} _ λ h p.
            rw (p.1) (record { here = resized_at prior first io broken pool r _ _ (p.0.here) }))
          λ x. Triple-give _ λ h p. record { here = lost_reply pool r lost (reply_of a) _ _ p.here }

pub ask_lem :
    (pool : MemoryPool) (r : Resize)
    → Triple
        (On (At pool (some r)))
        (ask_runner (request pool r))
        (λ reply. On (Asked pool r reply))
        (On (At pool (some r)))
unfolding ask_runner
ask_lem pool r = Triple-bind _ _ Keeps-ask λ prior. Triple-bind _ _ Keeps-ask λ first.
    Triple-bind _ _ Keeps-ask λ io.
      Triple-bind _ _ Keeps-ask λ broken. Triple-bind _ _ Keeps-ask λ lost. do_it _ _ _ _ _ pool r
