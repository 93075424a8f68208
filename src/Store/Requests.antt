-- ===== src/Store/Requests.antt =====
-- internal/store/requests.go: the receipts of lifecycle requests. The clock's reading in each
-- operation is the argument `now`.
pub mod Phases
pub mod Moves
pub mod Steps
pub mod Generations
use srv.Base.{
  ℕ, String, Bool, true, false, Option, none, some, ◌∷◌, not, ◌&&◌, ◌||◌, ◌==◌, ◌!=◌, nat_eq,
  string_eq, if◌then◌else◌,
}
use srv.Base.Int.{ℤ, pos, is_zero, ltb_ℤ}
use srv.Base.Lists.{update_where, count_where, find_where, exists_where}
use srv.Model.{Time, LifecycleRequest, RequestRow}
use srv.Model.Phase.{
  Phase, admitted, executing, done, failed, rejected, cancelled, interrupted, phase_eq,
}
use srv.Store.Tables.{Tables, Bootstrap}
use srv.Store.Session.{
  Action, ok, err, pure, raise_if, exec, insert, query_row, rows_affected, transact, ◌>>=◌, ◌>>◌,
  rebound, not_executing, not_admitted, bad_generation, generation_order,
}

-- A zero time is written as the present.
unfoldable pub time_string : Time → Time → Time
time_string now t = if t == 0 then now else t

-- UPDATE lifecycle_requests SET f WHERE p
unfoldable pub update_requests : (RequestRow → Bool) → (RequestRow → RequestRow) → Action ℕ
unfolding exec
update_requests p f =
    exec (λ t. (count_where p t.requests, record t { requests = update_where p f t.requests }))

abbrev pub request_row : LifecycleRequest → Phase → Time → RequestRow
request_row r phase now = record {
  id = r.id;
  actor = r.actor;
  command = r.command;
  name = r.name;
  arguments = r.arguments;
  phase = phase;
  exit_code = pos 0;
  created_at = time_string now now;
}

abbrev pub add_request : RequestRow → Tables → Tables
add_request row t = record t { requests = row ∷ t.requests }

-- INSERT … ON CONFLICT(id) DO NOTHING
unfoldable pub insert_request_once : RequestRow → Action ℕ
unfolding exec
insert_request_once row =
    exec (λ t.
      if exists_where (λ r. r.id == row.id) t.requests then (0, t) else (1, add_request row t))

-- INSERT: the primary key must be new.
unfoldable pub insert_request : RequestRow → Action (Unit {0})
unfolding insert
insert_request row =
    insert (λ t.
      if exists_where (λ r. r.id == row.id) t.requests then none else some (add_request row t))

abbrev pub to_request : RequestRow → LifecycleRequest
to_request r = record {
  id = r.id;
  actor = r.actor;
  command = r.command;
  name = r.name;
  arguments = r.arguments;
  phase = r.phase;
  exit_code = r.exit_code;
}

abbrev pub read_request : Option RequestRow → Option LifecycleRequest
read_request none = none
read_request (some r) = some (to_request r)

-- id=? AND actor=?
abbrev pub of_actor : String → String → RequestRow → Bool
of_actor id actor r = r.id == id && r.actor == actor

unfoldable pub get_lifecycle_request : String → String → Action LifecycleRequest
unfolding query_row
get_lifecycle_request id actor =
    query_row (λ t. read_request (find_where (of_actor id actor) t.requests))

abbrev pub differs : LifecycleRequest → LifecycleRequest → Bool
differs old r = old.command != r.command || (old.name != r.name || old.arguments != r.arguments)

-- `true`: this call admitted the request. A known ID is never executed or rebound.
unfoldable pub admit_lifecycle_request : LifecycleRequest → Time → Action Bool
unfolding insert_request_once rows_affected get_lifecycle_request ◌>>=◌
admit_lifecycle_request r now = do
  result ← insert_request_once (request_row r admitted now)
  n ← rows_affected result
  if n == 1
      then pure true
      else do old ← get_lifecycle_request r.id r.actor; raise_if (differs old r) rebound; pure false

abbrev pub outcome : ℤ → Phase
outcome code = if is_zero code then done else failed

-- phase='executing' OR (phase='admitted' AND exit_code <> 0)
abbrev pub can_finish : ℤ → RequestRow → Bool
can_finish code r = r.phase == executing || (r.phase == admitted && not (is_zero code))

unfoldable pub finish_lifecycle_request : String → String → ℤ → Action Bool
unfolding update_requests rows_affected ◌>>=◌
finish_lifecycle_request id actor code = do
  result ←
      update_requests (λ r. of_actor id actor r && can_finish code r)
        (λ r. record r { phase = outcome code; exit_code = code })
  n ← rows_affected result
  pure (n == 1)

unfoldable pub reject_lifecycle_start : String → String → Action (Unit {0})
unfolding update_requests rows_affected ◌>>=◌
reject_lifecycle_start id actor = do
  result ←
      update_requests (λ r. of_actor id actor r && (r.command == "start" && r.phase == executing))
        (λ r. record r { phase = rejected; exit_code = pos 1 })
  n ← rows_affected result
  raise_if (n != 1) not_executing

-- phase IN ('admitted','executing')
abbrev pub unfinished : RequestRow → Bool
unfinished r = r.phase == admitted || r.phase == executing

abbrev pub interrupt : RequestRow → RequestRow
interrupt r = record r { phase = if r.phase == admitted then cancelled else interrupted }

unfoldable pub interrupt_lifecycle_requests : Action (Unit {0})
unfolding update_requests ◌>>=◌
interrupt_lifecycle_requests = do result ← update_requests unfinished interrupt; pure tt

unfoldable pub begin_lifecycle_request : String → String → Action (Unit {0})
unfolding update_requests rows_affected ◌>>=◌
begin_lifecycle_request id actor = do
  result ←
      update_requests (λ r. of_actor id actor r && r.phase == admitted)
        (λ r. record r { phase = executing })
  n ← rows_affected result
  raise_if (n != 1) not_admitted

unfoldable pub cancel_lifecycle_request : LifecycleRequest → Time → Action (Unit {0})
unfolding insert_request_once get_lifecycle_request ◌>>=◌
cancel_lifecycle_request r now = do
  result ← insert_request_once (request_row r cancelled now)
  old ← get_lifecycle_request r.id r.actor
  raise_if (differs old r) rebound

-- instance_id=? AND created_at=?
abbrev pub of_incarnation : String → Time → Bootstrap → Bool
of_incarnation instance_id created b = b.instance_id == instance_id && b.created_at == created

abbrev generation_of : Option Bootstrap → Option ℤ
generation_of none = none
generation_of (some b) = some b.generation

unfoldable pub bootstrap_generation : String → Time → Time → Action ℤ
unfolding query_row time_string
bootstrap_generation instance_id created now = query_row (λ t.
    generation_of (find_where (of_incarnation instance_id (time_string now created)) t.bootstraps))

-- UPDATE orb_bootstrap SET generation=? WHERE … AND generation<?
unfoldable pub raise_generation : String → Time → ℤ → Action ℕ
unfolding exec
raise_generation instance_id created generation = exec (λ t.
    let p =
      λ (b : Bootstrap). of_incarnation instance_id created b && ltb_ℤ b.generation generation in
    (
      count_where p t.bootstraps,
      record t {
        bootstraps = update_where p (λ b. record b { generation = generation }) t.bootstraps;
      },
    ))

unfoldable pub raise_once : String → Time → ℤ → Action (Unit {0})
unfolding raise_generation rows_affected ◌>>=◌
raise_once instance_id created generation = do
  result ← raise_generation instance_id created generation
  n ← rows_affected result
  raise_if (n != 1) generation_order

-- The transaction of AdmitBootstrap.
unfoldable pub admit_generation : LifecycleRequest → String → Time → ℤ → Time → Action (Unit {0})
unfolding raise_once insert_request ◌>>=◌
admit_generation r instance_id created generation now = do
  raise_once instance_id created generation
  insert_request (request_row r executing now)

-- Admission and the high-water mark commit together.
unfoldable pub admit_bootstrap : LifecycleRequest → String → Time → ℤ → Time → Action (Unit {0})
unfolding transact ◌>>=◌ time_string
admit_bootstrap r instance_id created generation now = do
  raise_if (not (ltb_ℤ (pos 0) generation)) bad_generation
  transact (admit_generation r instance_id (time_string now created) generation now)
