-- ===== src/Store/Requests/Steps.antt =====
-- Each operation of requests.go follows the diagram of phases, whatever calls fail.
use srv.Base.{
  and_left, and_right, String, Bool, true, false, ◌≡◌, refl, ◌&&◌, ◌||◌, ◌==◌, nat_eq, string_eq,
  if◌then◌else◌, text_iff, not,
}
use srv.Base.Int.{ℤ, is_zero}
use srv.Model.{Time, LifecycleRequest}
use srv.Model.Phase.{
  Phase, admitted, executing, done, failed, rejected, cancelled, interrupted, phase_eq,
}
use srv.Store.Session.Along.{
  Along, Along-pure, Along-if, Along-raise_if, Along-exec, Along-bind, Along-query_row,
  Along-rows_affected, Along-transact,
}
use srv.Store.Requests.{
  time_string, raise_once, get_lifecycle_request, admit_lifecycle_request, finish_lifecycle_request,
  reject_lifecycle_start, interrupt_lifecycle_requests, begin_lifecycle_request,
  cancel_lifecycle_request, raise_generation, admit_bootstrap, admit_generation, unfinished,
  interrupt, of_actor,
}
use srv.Store.Requests.Phases.{
  SameBinding-set, Leads, begin, refuse, drop, succeed, fail, reject, cut, Edge-Leads,
}
use srv.Store.Requests.Moves.{
  Evolves, evolves, Evolves-of_same, update_requests-Evolves, insert_request_once-Evolves,
  insert_request-Evolves,
}

get-Evolves : (id actor : String) → Along Evolves (get_lifecycle_request id actor)
unfolding get_lifecycle_request
get-Evolves id actor = Along-query_row evolves _

pub admit-Evolves :
    (r : LifecycleRequest) (now : Time) → Along Evolves (admit_lifecycle_request r now)
unfolding admit_lifecycle_request
admit-Evolves r now = Along-bind evolves _ _ (insert_request_once-Evolves _) λ result.
    Along-bind evolves _ _ (Along-rows_affected evolves result) λ n.
      Along-if evolves (n == 1) _ _ (λ _. Along-pure evolves true)
        λ _.
          Along-bind evolves _ _ (get-Evolves r.id r.actor)
            λ old. Along-bind evolves _ _ (Along-raise_if evolves _ _) λ _. Along-pure evolves false

-- The edges that WHERE clauses and assignments follow, phase by phase.
finish_Leads :
    (c : String) (p : Phase) (zero_code : Bool)
    → (p == executing || (p == admitted && not zero_code)) ≡ true
    → Leads c p (if zero_code then done else failed)
finish_Leads c executing true h = Edge-Leads succeed
finish_Leads c executing false h = Edge-Leads fail
finish_Leads c admitted false h = Edge-Leads refuse
finish_Leads c admitted true h = cc
finish_Leads c _ true h = cc
finish_Leads c _ false h = cc

reject_Leads : (c : String) (p : Phase) → c ≡ "start" → (p == executing) ≡ true → Leads c p rejected
reject_Leads c executing s h = Edge-Leads (reject s)
reject_Leads c _ s h = cc

begin_Leads : (c : String) (p : Phase) → (p == admitted) ≡ true → Leads c p executing
begin_Leads c admitted h = Edge-Leads begin
begin_Leads c _ h = cc

interrupt_Leads :
    (c : String) (p : Phase)
    → (p == admitted || p == executing) ≡ true
    → Leads c p (if p == admitted then cancelled else interrupted)
interrupt_Leads c admitted h = Edge-Leads drop
interrupt_Leads c executing h = Edge-Leads cut
interrupt_Leads c _ h = cc

pub finish-Evolves :
    (id actor : String) (code : ℤ) → Along Evolves (finish_lifecycle_request id actor code)
unfolding finish_lifecycle_request
finish-Evolves id actor code =
    Along-bind evolves _ _
      (update_requests-Evolves _ _ (λ r. refl)
        λ r h. (
          SameBinding-set r _ _,
          finish_Leads r.command r.phase (is_zero code) (and_right (of_actor id actor r) _ h),
        ))
      λ result.
        Along-bind evolves _ _ (Along-rows_affected evolves result) λ n. Along-pure evolves _

pub reject-Evolves : (id actor : String) → Along Evolves (reject_lifecycle_start id actor)
unfolding reject_lifecycle_start
reject-Evolves id actor =
    Along-bind evolves _ _
      (update_requests-Evolves _ _ (λ r. refl)
        λ r h.
          let t = and_right (of_actor id actor r) _ h in
          (
            SameBinding-set r _ _,
            reject_Leads r.command r.phase ((text_iff r.command "start").0 (and_left _ _ t))
                (and_right (r.command == "start") _ t),
          ))
      λ result.
        Along-bind evolves _ _ (Along-rows_affected evolves result) λ n. Along-raise_if evolves _ _

pub begin-Evolves : (id actor : String) → Along Evolves (begin_lifecycle_request id actor)
unfolding begin_lifecycle_request
begin-Evolves id actor =
    Along-bind evolves _ _
      (update_requests-Evolves _ _ (λ r. refl)
        λ r h. (
          SameBinding-set r _ _,
          begin_Leads r.command r.phase (and_right (of_actor id actor r) _ h),
        ))
      λ result.
        Along-bind evolves _ _ (Along-rows_affected evolves result) λ n. Along-raise_if evolves _ _

pub interrupt-Evolves : Along Evolves interrupt_lifecycle_requests
unfolding interrupt_lifecycle_requests
interrupt-Evolves =
    Along-bind evolves _ _
      (update_requests-Evolves unfinished interrupt (λ r. refl)
        λ r h. (SameBinding-set r _ _, interrupt_Leads r.command r.phase h))
      λ result. Along-pure evolves tt

pub cancel-Evolves :
    (r : LifecycleRequest) (now : Time) → Along Evolves (cancel_lifecycle_request r now)
unfolding cancel_lifecycle_request
cancel-Evolves r now =
    Along-bind evolves _ _ (insert_request_once-Evolves _)
      λ result. Along-bind evolves _ _ (get-Evolves r.id r.actor) λ old. Along-raise_if evolves _ _

raise_generation-Evolves :
    (id : String) (created : Time) (generation : ℤ)
    → Along Evolves (raise_generation id created generation)
unfolding raise_generation
raise_generation-Evolves id created generation = Along-exec evolves _ λ t. Evolves-of_same t _ refl

raise_once-Evolves :
    (id : String) (created : Time) (generation : ℤ)
    → Along Evolves (raise_once id created generation)
unfolding raise_once
raise_once-Evolves id created generation =
    Along-bind evolves _ _ (raise_generation-Evolves id created generation) λ result.
      Along-bind evolves _ _ (Along-rows_affected evolves result) λ n. Along-raise_if evolves _ _

pub bootstrap-Evolves :
    (r : LifecycleRequest) (id : String) (created : Time) (generation : ℤ) (now : Time)
    → Along Evolves (admit_bootstrap r id created generation now)
unfolding admit_bootstrap admit_generation
bootstrap-Evolves r id created generation now =
    Along-bind evolves _ _ (Along-raise_if evolves _ _) λ _. Along-transact evolves _ (
      Along-bind evolves (raise_once id (time_string now created) generation) _
        (raise_once-Evolves id _ generation) λ _. insert_request-Evolves _)
