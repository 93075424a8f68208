-- ===== src/Model/State.antt =====
-- The instance states of internal/model/model.go.
use srv.Base.{ℕ, ◌≡◌, ◌↔◌, Bool, true, arith, Comparable, ◌==◌, nat_eq}

pub data State : Type 0 where
  provisioning ready stopping stopped failed awaiting_tailnet awaiting_guest deleting deleted :
      State

abbrev rank : State → ℕ
rank provisioning = 0
rank ready = 1
rank stopping = 2
rank stopped = 3
rank failed = 4
rank awaiting_tailnet = 5
rank awaiting_guest = 6
rank deleting = 7
rank deleted = 8

abbrev pub same_state : State → State → Bool
same_state a b = rank a == rank b

pub same_state_iff : (a b : State) → (same_state a b ≡ true) ↔ (a ≡ b)
same_state_iff a b = ground arith

instance abbrev pub state_eq : Comparable State
state_eq = record { agree = same_state; decides = same_state_iff }
