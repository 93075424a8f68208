-- ===== src/Model/Phase.antt =====
-- The phases that internal/store writes to lifecycle_requests.phase.
use srv.Base.{ℕ, ◌≡◌, ◌↔◌, Bool, true, arith, Comparable, ◌==◌, nat_eq}

pub data Phase : Type 0 where
  admitted executing done failed rejected cancelled interrupted : Phase

abbrev rank : Phase → ℕ
rank admitted = 0
rank executing = 1
rank done = 2
rank failed = 3
rank rejected = 4
rank cancelled = 5
rank interrupted = 6

abbrev pub same_phase : Phase → Phase → Bool
same_phase a b = rank a == rank b

pub same_phase_iff : (a b : Phase) → (same_phase a b ≡ true) ↔ (a ≡ b)
same_phase_iff a b = ground arith

instance abbrev pub phase_eq : Comparable Phase
phase_eq = record { agree = same_phase; decides = same_phase_iff }
