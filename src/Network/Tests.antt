-- ===== src/Network/Tests.antt =====
-- Runs of the allocation of a network.
use Prim.Native.Nat.{◌^◌}
use srv.Model.Sample.{machine}
use srv.Commands.Decimal.{print_digits}
use srv.Network.Dotted.{dotted}
use srv.Network.FirstFree.{allocation_ends, allocates_lowest_free, First}
use srv.Network.{
  none_free, network_at, allocated, out_of_fuel, refused, find_free, Cidr, allocate_network,
}
use srv.Base.{◌-◌, ◌∷◌, refl, arith, ◌≡◌, ◌≢◌, [], some}

-- 172.28.0.0/16
abbrev default_prefix : Cidr
default_prefix = record { address = 2887516160; ones = 16; bits = 32 }

allocates_lowest_free_example :
    First
      (machine ∷ [])
      default_prefix.address
      (2 ^ (30 - default_prefix.ones))
      (allocate_network (some (machine ∷ [])) (some default_prefix))
allocates_lowest_free_example =
    allocates_lowest_free (machine ∷ []) default_prefix refl (omega arith) (omega arith)

allocation_ends_example : allocate_network (some []) (some default_prefix) ≢ refused out_of_fuel
allocation_ends_example = allocation_ends (some []) (some default_prefix)

-- 172.28.0.5/16 gives the network 172.28.0.5/30, which is not a block of the prefix.
host_bits_kept :
    allocate_network (some []) (some (record { address = 2887516165; ones = 16; bits = 32 }))
    ≡ allocated (network_at 2887516165)
unfolding allocate_network find_free dotted print_digits
host_bits_kept = refl

-- The size of the prefix of 0 bits wraps around to 0: nothing is free in it.
whole_space_refused :
    allocate_network (some []) (some (record { address = 0; ones = 0; bits = 32 }))
    ≡ refused none_free
unfolding allocate_network find_free
whole_space_refused = refl
