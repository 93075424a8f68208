-- ===== src/Network/FirstFree.antt =====
-- Which block allocateNetwork of internal/provision/provision.go chooses, and that its loop ends.
use Prim.Native.Nat.{◌^◌}
use srv.Base.{◌-◌, none, same_number_iff}
use srv.Model.{Instance}
use srv.Network.{
  in_prefix, Cidr, allocate_network, prefix_size, unlisted, unparsed, no_room, none_free,
  out_of_fuel, refused, subnet_at, is_used, network_at, allocated, Allocation, find_free,
}
use mathlib.Core.Path.{subst}
use srv.Base.{
  Option, ◌≢◌, refl, nat_eq, and_right, ltb, and_left, ◌||◌, some, ◌!=◌, ◌==◌, ◌∙◌, ap, sym, inl,
  inr, leb, zero, Bool-cases, false, ◌&&◌, arith, ◌/◌, suc, ◌%◌, ◌<◌, ◌≡◌, true, ◌*◌, ◌≤◌, Bool,
  ◌+◌, ℕ, List,
}

-- the address of the block of that number
abbrev pub block_at : ℕ → ℕ → ℕ
block_at base n = (base + 4 * n) % 4294967296

-- the blocks before that number
abbrev pub used_before : List Instance → ℕ → ℕ → Bool
used_before instances base zero = true
used_before instances base (suc n) =
    is_used instances (subnet_at (block_at base n)) && used_before instances base n

-- the lowest unused block of `count`, or none of them is unused
abbrev pub First : List Instance → ℕ → ℕ → Allocation → Type 0
First instances base count (allocated network) =
    (n : ℕ) × (n < count)
    × (network ≡ network_at (block_at base n))
    × (is_used instances (subnet_at (block_at base n)) ≡ false)
    × (used_before instances base n ≡ true)
First instances base count (refused unlisted) = zero ≡ suc zero
First instances base count (refused unparsed) = zero ≡ suc zero
First instances base count (refused no_room) = zero ≡ suc zero
First instances base count (refused none_free) = used_before instances base count ≡ true
First instances base count (refused out_of_fuel) = zero ≡ suc zero

room :
    (size n offset : ℕ)
    → size ≤ 2147483648
    → offset ≡ 4 * n
    → n ≤ size / 4
    → leb ((offset + 4) % 4294967296) size ≡ true
    → suc n ≤ size / 4
room size n offset s o l e = ground (arith, s, o, l, e)

moved :
    (instances : List Instance) (base n offset : ℕ) {b : Bool}
    → offset ≡ 4 * n
    → is_used instances (subnet_at ((base + offset) % 4294967296)) ≡ b
    → is_used instances (subnet_at (block_at base n)) ≡ b
moved instances base n offset o i =
    sym (ap (λ (m : ℕ). is_used instances (subnet_at ((base + m) % 4294967296))) o) ∙ i

find_free-First :
    (instances : List Instance) (base size fuel n offset : ℕ)
    → size ≤ 2147483648
    → offset ≡ 4 * n
    → n ≤ size / 4
    → size / 4 < n + fuel
    → used_before instances base n ≡ true
    → First instances base (size / 4) (find_free instances base size fuel offset)
unfolding find_free
find_free-First instances base size zero n offset s o l f u = absurd (omega arith)
find_free-First instances base size (suc fuel) n offset s o l f u =
    elim (Bool-cases (leb ((offset + 4) % 4294967296) size)) [
      | inr e ↦
          rw (e)
            (subst (λ (m : ℕ). used_before instances base m ≡ true) (ground (arith, e, s, o, l)) u)
      | inl e ↦ elim (Bool-cases (is_used instances (subnet_at ((base + offset) % 4294967296)))) [
        | inl i ↦
            rw (e, i)
              (find_free-First instances base size fuel (suc n) ((offset + 4) % 4294967296) s
                (omega arith) (room size n offset s o l e) (omega arith)
                (rw (moved instances base n offset o i) u))
        | inr i ↦
            rw (e, i)
              (
                n,
                room size n offset s o l e,
                ap (λ (m : ℕ). network_at ((base + m) % 4294967296)) o,
                moved instances base n offset o i,
                u,
              )
      ]
    ]

abbrev sizes_fit : ℕ → Bool
sizes_fit zero = true
sizes_fit (suc n) = leb (prefix_size n) 2147483648 && sizes_fit n

size_fits : (m n : ℕ) → n < m → sizes_fit m ≡ true → prefix_size n ≤ 2147483648
size_fits zero n l h = absurd (omega arith)
size_fits (suc m) n l h = elim (Bool-cases (n == m)) [
  | inl e ↦
      subst (λ (k : ℕ). prefix_size k ≤ 2147483648) (sym ((same_number_iff n m).0 e))
        (ground (arith, and_left (leb (prefix_size m) 2147483648) (sizes_fit m) h))
  | inr e ↦
      size_fits m n (ground (arith, e, l))
        (and_right (leb (prefix_size m) 2147483648) (sizes_fit m) h)
]

guard_open : (c : Cidr) → c.bits ≡ 32 → c.ones ≤ 30 → (c.bits != 32 || ltb 30 c.ones) ≡ false
guard_open c b o = ground (arith, b, o)

in_prefix-First :
    (instances : List Instance) (c : Cidr)
    → c.bits ≡ 32
    → c.ones ≤ 30
    → First instances c.address (prefix_size c.ones / 4) (in_prefix instances c)
in_prefix-First instances c b o = rw (guard_open c b o) (
    find_free-First instances c.address (prefix_size c.ones) (prefix_size c.ones / 4 + 1) 0 0
      (size_fits 31 c.ones (omega arith) refl) refl (omega arith) (omega arith) refl)

abbrev blocks_fit : ℕ → Bool
blocks_fit zero = true
blocks_fit (suc n) = prefix_size (suc n) / 4 == 2 ^ (30 - suc n) && blocks_fit n

block_count : (m n : ℕ) → 1 ≤ n → n ≤ m → blocks_fit m ≡ true → prefix_size n / 4 ≡ 2 ^ (30 - n)
block_count zero n p l h = absurd (omega arith)
block_count (suc m) n p l h =
    let rest = blocks_fit m in
    elim (Bool-cases (n == suc m)) [
      | inl e ↦
          subst (λ (k : ℕ). prefix_size k / 4 ≡ 2 ^ (30 - k))
            (sym ((same_number_iff n (suc m)).0 e))
            ((same_number_iff (prefix_size (suc m) / 4) (2 ^ (30 - suc m))).0
              (and_left (prefix_size (suc m) / 4 == 2 ^ (30 - suc m)) rest h))
      | inr e ↦
          block_count m n p (ground (arith, e, l))
            (and_right (prefix_size (suc m) / 4 == 2 ^ (30 - suc m)) rest h)
    ]

-- For an IPv4 prefix of 1 to 30 bits, with its 2 ^ (30 - bits) blocks of /30 counted from the address
-- that was parsed: an allocated network is that of the first block whose text no listed instance
-- has, and no network is free only when an instance has each block. The loop does not run out of
-- fuel.
pub allocates_lowest_free :
    (instances : List Instance) (c : Cidr)
    → c.bits ≡ 32
    → 1 ≤ c.ones
    → c.ones ≤ 30
    → First instances c.address (2 ^ (30 - c.ones)) (allocate_network (some instances) (some c))
unfolding allocate_network
allocates_lowest_free instances c b p o =
    subst (λ (n : ℕ). First instances c.address n (in_prefix instances c))
      (block_count 30 c.ones p o refl) (in_prefix-First instances c b o)

open_guard : (c : Cidr) → (c.bits != 32 || ltb 30 c.ones) ≡ false → (c.bits ≡ 32) × (c.ones ≤ 30)
open_guard c h = (ground (arith, h), ground (arith, h))

-- 0 for a search that ran out of fuel
abbrev fuel_left : Allocation → ℕ
fuel_left (refused out_of_fuel) = 0
fuel_left a = 1

closed_guard :
    (instances : List Instance) (c : Cidr)
    → (c.bits != 32 || ltb 30 c.ones) ≡ true
    → in_prefix instances c ≡ refused no_room
closed_guard instances c g = rw (g) refl

in_prefix-ends :
    (instances : List Instance) (c : Cidr) → in_prefix instances c ≢ refused out_of_fuel
in_prefix-ends instances c h = elim (Bool-cases (c.bits != 32 || ltb 30 c.ones)) [
  | inl g ↦ absurd (ground (arith, ap fuel_left (sym (closed_guard instances c g) ∙ h)))
  | inr g ↦ absurd (
      ground (
        arith,
        subst (λ (a : Allocation). First instances c.address (prefix_size c.ones / 4) a) h
            (in_prefix-First instances c (open_guard c g).0 (open_guard c g).1),
      ))
]

-- The search for a free block ends: whatever is listed and parsed, its fuel is enough.
pub allocation_ends :
    (listed : Option (List Instance)) (parsed : Option Cidr)
    → allocate_network listed parsed ≢ refused out_of_fuel
unfolding allocate_network
allocation_ends none parsed h = absurd (ground (arith, ap fuel_left h))
allocation_ends (some instances) none h = absurd (ground (arith, ap fuel_left h))
allocation_ends (some instances) (some c) h = in_prefix-ends instances c h
