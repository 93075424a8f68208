-- ===== src/Commands/Rounding.antt =====
-- bytesToMiBCeil of internal/service/service.go on the sizes that parseSize returns.
use srv.Commands.Size.{max_int64, bytes_to_mib_ceil}
use srv.Base.{
  Bool, refl, inr, arith, ◌/◌, inl, Bool-cases, true, false, ◌<◌, ◌*◌, ◌+◌, leb, ◌≡◌, ◌≤◌, ℕ,
}
use srv.Base.Int.{ℤ, ltb_ℤ, pos}

wraps_below :
    (n : ℕ)
    → n ≤ max_int64
    → leb (n + 1048575) max_int64 ≡ false
    → ltb_ℤ (bytes_to_mib_ceil n) (pos 0) ≡ true
unfolding bytes_to_mib_ceil
wraps_below n m e = rw (e) (ground arith)

-- The whole MiB that a size is rounded up to when there is room for the sum, else a negative number.
abbrev pub Rounded : Bool → ℕ → ℤ → Type 0
Rounded true n v = (r : ℕ) × (v ≡ pos r) × (n ≤ r * 1048576) × (r * 1048576 < n + 1048576)
Rounded false n v = ltb_ℤ v (pos 0) ≡ true

-- A size that leaves room for a MiB less one byte up to the largest int64 is rounded up to the next
-- whole MiB. Every larger size that fits an int64 becomes a negative number of MiB.
pub mib_ceil_bounds :
    (n : ℕ) → n ≤ max_int64 → Rounded (leb (n + 1048575) max_int64) n (bytes_to_mib_ceil n)
unfolding bytes_to_mib_ceil
mib_ceil_bounds n m = elim (Bool-cases (leb (n + 1048575) max_int64)) [
  | inl e ↦ rw (e) ((n + 1048575) / 1048576, refl, omega arith, omega arith)
  | inr e ↦ rw (e) (rw (e) at (wraps_below n m e))
]
