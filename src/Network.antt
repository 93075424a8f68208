-- ===== src/Network.antt =====
-- allocateNetwork of internal/provision/provision.go: the first free /30 of the prefix of the
-- machines. `parsed` is what net.ParseCIDR returns, the address as written and the length of the
-- prefix; addresses are unsigned words of 32 bits.
pub mod Dotted
pub mod FirstFree
mod Tests
use Prim.Native.Nat.{◌^◌}
use srv.Model.Memory.{codes}
use srv.Base.Lists.{exists_where}
use srv.Network.Dotted.{dotted}
use srv.Commands.Text.{same_text, Text}
use srv.Base.{
  ◌-◌, nat_eq, string_eq, ◌/◌, ltb, zero, ◌&&◌, leb, ◌==◌, ◌||◌, none, not, ◌!=◌, ◌%◌, Bool,
  if◌then◌else◌, some, suc, ◌++◌, ◌+◌, List, Option, ℕ,
}
use srv.Model.{Instance}

-- an IPv4 address and the length of its prefix; `bits` is 32 for IPv4
pub record Cidr : Type 0 where
  pub address : ℕ
  pub ones : ℕ
  pub bits : ℕ

pub record Network : Type 0 where
  pub network_cidr : Text
  pub host_addr : Text
  pub guest_addr : Text
  pub gateway : Text

pub data Error : Type 0 where
  unlisted unparsed no_room none_free out_of_fuel : Error

pub data Allocation : Type 0 where
  allocated : Network → Allocation
  refused : Error → Allocation

-- the keys of the map `used`
abbrev pub holds_network : Text → Instance → Bool
holds_network subnet i = not (i.network_cidr == "") && same_text (codes i.network_cidr) subnet

abbrev pub is_used : List Instance → Text → Bool
is_used instances subnet = exists_where (holds_network subnet) instances

abbrev pub subnet_at : ℕ → Text
subnet_at address = dotted address ++ codes "/30"

abbrev pub network_at : ℕ → Network
network_at address =
    let host = dotted ((address + 1) % 4294967296) in
    record {
      network_cidr = subnet_at address;
      host_addr = host ++ codes "/30";
      guest_addr = dotted ((address + 2) % 4294967296) ++ codes "/30";
      gateway = host;
    }

-- the loop from `offset` on
unfoldable pub find_free : List Instance → ℕ → ℕ → ℕ → ℕ → Allocation
find_free instances base size zero offset = refused out_of_fuel
find_free instances base size (suc fuel) offset =
    let later = find_free instances base size fuel ((offset + 4) % 4294967296) in
    let address = (base + offset) % 4294967296 in
    if not (leb ((offset + 4) % 4294967296) size)
    then refused none_free
    else if is_used instances (subnet_at address)
    then later
    else allocated (network_at address)

-- uint32(1) << (32 - ones)
abbrev pub prefix_size : ℕ → ℕ
prefix_size ones = 2 ^ (32 - ones) % 4294967296

abbrev pub in_prefix : List Instance → Cidr → Allocation
in_prefix instances c =
    if c.bits != 32 || ltb 30 c.ones
    then refused no_room
    else find_free instances c.address (prefix_size c.ones) (prefix_size c.ones / 4 + 1) 0

abbrev pub in_parsed : List Instance → Option Cidr → Allocation
in_parsed instances none = refused unparsed
in_parsed instances (some c) = in_prefix instances c

-- `listed` is what ListInstances returns.
unfoldable pub allocate_network : Option (List Instance) → Option Cidr → Allocation
allocate_network none parsed = refused unlisted
allocate_network (some instances) parsed = in_parsed instances parsed
