-- ===== src/Storage.antt =====
-- `ConnectionStorage` of Source/ConnectionStorage.hpp. A `std::unordered_map` is the list of its
-- entries, in the order of iteration; a new entry may stand anywhere, so it stands in front. The key
-- of a connection's entry is the connection of its data.
pub mod Laws
pub mod Backed
pub mod Enter
pub mod Closed
use conntop.Prelude.{
  ℕ, Bool, true, false, ◌||◌, List, [], ◌∷◌, Option, none, some, if◌then◌else◌, length,
}
use conntop.Connection.{
  Address, ip4, ip6, Port, Connection, ConnectionTraffic, ConnectionData, no_traffic, address_eq,
  port_eq, connection_eq,
}

pub record Storage : Type 0 where
  pub connection_map : List ConnectionData
  pub address_ip4_map : List Address
  pub address_ip6_map : List Address
  pub port_map : List Port

unfoldable pub empty : Storage
empty = record { connection_map = []; address_ip4_map = []; address_ip6_map = []; port_map = [] }

-- Whether there is an entry for the key.
unfoldable pub has_address : Address → List Address → Bool
has_address a [] = false
has_address a (b ∷ bs) = if address_eq b a then true else has_address a bs

unfoldable pub has_port : Port → List Port → Bool
has_port p [] = false
has_port p (q ∷ qs) = if port_eq q p then true else has_port p qs

unfoldable pub find_connection : Connection → List ConnectionData → Option ConnectionData
find_connection c [] = none
find_connection c (d ∷ ds) = if connection_eq d.connection c then some d else find_connection c ds

unfoldable pub erase : Connection → List ConnectionData → List ConnectionData
erase c [] = []
erase c (d ∷ ds) = let rest = erase c ds in if connection_eq d.connection c then rest else d ∷ rest

-- An assignment through a pointer to the entry of the data's connection.
unfoldable pub assign : ConnectionData → List ConnectionData → List ConnectionData
assign d [] = []
assign d (x ∷ xs) =
    let rest = assign d xs in (if connection_eq x.connection d.connection then d else x) ∷ rest

-- `addIP4Address` and `addIP6Address`: the entry, and whether it is new.
unfoldable pub add_ip4_address : Address → Storage → Bool × Storage
add_ip4_address a s =
    if has_address a s.address_ip4_map
    then (false, s)
    else (true, record s { address_ip4_map = a ∷ s.address_ip4_map })

unfoldable pub add_ip6_address : Address → Storage → Bool × Storage
add_ip6_address a s =
    if has_address a s.address_ip6_map
    then (false, s)
    else (true, record s { address_ip6_map = a ∷ s.address_ip6_map })

unfoldable pub add_port : Port → Storage → Bool × Storage
add_port p s =
    if has_port p s.port_map then (false, s) else (true, record s { port_map = p ∷ s.port_map })

-- The data of the entry for the data's connection, whether it is new, and the storage.
unfoldable pub add_connection : ConnectionData → Storage → ConnectionData × Bool × Storage
add_connection d s = elim (find_connection d.connection s.connection_map) [
  | some old ↦ (old, false, s)
  | none ↦ (d, true, record s { connection_map = d ∷ s.connection_map })
]

unfoldable pub remove_connection : Connection → Storage → Option ConnectionData × Storage
remove_connection c s = elim (find_connection c s.connection_map) [
  | none ↦ (none, s)
  | some d ↦ (some d, record s { connection_map = erase c s.connection_map })
]

unfoldable pub clear_connections : Storage → Storage
clear_connections s = record s { connection_map = [] }

unfoldable pub get_connection : Connection → Storage → Option ConnectionData
get_connection c s = find_connection c s.connection_map

unfoldable pub get_ip4_address : Address → Storage → Option Address
get_ip4_address a s = if has_address a s.address_ip4_map then some a else none

unfoldable pub get_ip6_address : Address → Storage → Option Address
get_ip6_address a s = if has_address a s.address_ip6_map then some a else none

unfoldable pub get_port : Port → Storage → Option Port
get_port p s = if has_port p s.port_map then some p else none

unfoldable pub connection_count : Storage → ℕ
connection_count s = length s.connection_map

unfoldable pub write : ConnectionData → Storage → Storage
write d s = record s { connection_map = assign d s.connection_map }
