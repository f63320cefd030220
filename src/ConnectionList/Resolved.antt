-- ===== src/ConnectionList/Resolved.antt =====
-- What an answer of the resolver does to a `ConnectionList`. Source/ConnectionList.cpp.
use conntop.Prelude.{
  ℕ, zero, suc, ◌+◌, Bool, true, false, not, ◌&&◌, ◌||◌, List, [], ◌∷◌, none, some, bit_or,
  if◌then◌else◌,
}
use conntop.Connection.{Address, Port, Connection, ConnectionData, address_eq, port_eq}
use conntop.ConnectionList.Sort.{
  SortMode, src_hostname, dst_hostname, src_asn, dst_asn, src_country, dst_country, src_service,
  dst_service, Names,
}
use conntop.ConnectionList.{
  Item, Listing, StdSort, new_item, item_less, contains_item, is_empty, before_back, sort,
  insert_item,
}

-- `EConnectionUpdateFlags`
abbrev pub src_address_flag : ℕ
src_address_flag = 4

abbrev pub dst_address_flag : ℕ
dst_address_flag = 8

abbrev pub src_port_flag : ℕ
src_port_flag = 16

abbrev pub dst_port_flag : ℕ
dst_port_flag = 32

-- Which ends of a connection have some data, and the flags for them.
pub record Ends : Type 0 where
  pub is_src : Connection → Bool
  pub is_dst : Connection → Bool
  pub src_flag : ℕ
  pub dst_flag : ℕ

abbrev pub address_ends : Address → Ends
address_ends a = record {
  is_src = λ c. address_eq c.src_addr a;
  is_dst = λ c. address_eq c.dst_addr a;
  src_flag = src_address_flag;
  dst_flag = dst_address_flag;
}

-- Every connection has ports.
abbrev pub port_ends : Port → Ends
port_ends p = record {
  is_src = λ c. port_eq c.src_port p;
  is_dst = λ c. port_eq c.dst_port p;
  src_flag = src_port_flag;
  dst_flag = dst_port_flag;
}

abbrev pub is_end : Ends → Connection → Bool
is_end e c = e.is_src c || e.is_dst c

abbrev pub flagged : Bool → ℕ → ℕ → ℕ
flagged b flag flags = if b then bit_or flags flag else flags

-- Of an item, or of the detail's flags, for both ends in turn.
abbrev pub with_ends : Ends → Connection → ℕ → ℕ
with_ends e c flags = flagged (e.is_dst c) e.dst_flag (flagged (e.is_src c) e.src_flag flags)

abbrev pub marked : Ends → Item → Item
marked e i =
    if is_end e i.connection
    then record i {
      update_flags = with_ends e i.connection i.update_flags;
      is_refresh_required = true;
    }
    else i

-- The loop over the visible items.
unfoldable pub mark_from : Ends → ℕ → List Item → List Item
mark_from e n [] = []
mark_from e zero (i ∷ is) = marked e i ∷ mark_from e zero is
mark_from e (suc n) (i ∷ is) = i ∷ mark_from e n is

-- One of the items, before the visible ones or among them, has the data at an end.
unfoldable pub any_end : Ends → List Item → Bool
any_end e [] = false
any_end e (i ∷ is) = is_end e i.connection || any_end e is

unfoldable pub any_end_from : Ends → ℕ → List Item → Bool
any_end_from e n [] = false
any_end_from e zero (i ∷ is) = any_end e (i ∷ is)
any_end_from e (suc n) (i ∷ is) = any_end_from e n is

unfoldable pub mark_detail : Ends → Listing → Listing
mark_detail e l = elim l.connection_detail [
  | none ↦ l
  | some c ↦ record l {
    connection_detail_update_flags = with_ends e c l.connection_detail_update_flags;
  }
]

unfoldable pub mark_visible_ends : Ends → Listing → Listing
mark_visible_ends e l = record l {
  list = mark_from e l.scroll_offset l.list;
  is_refresh_required =
      if any_end_from e l.scroll_offset l.list then true else l.is_refresh_required;
}

-- The loop over the storage: what has the data at an end may have to be in the list now.
unfoldable pub offer_step : Ends → Connection → Listing → Listing
offer_step e c l =
    if is_end e c && before_back (item_less l) (new_item c) l.list && not (contains_item c l.list)
    then insert_item (new_item c) l
    else l

unfoldable pub offer_loop : Ends → List ConnectionData → Listing → Listing
offer_loop e [] l = l
offer_loop e (d ∷ ds) l = offer_loop e ds (offer_step e d.connection l)

-- `mayAffectOrder` of an address, and of a port.
abbrev pub address_affects_order : SortMode → Bool
address_affects_order src_hostname = true
address_affects_order dst_hostname = true
address_affects_order src_country = true
address_affects_order dst_country = true
address_affects_order src_asn = true
address_affects_order dst_asn = true
address_affects_order _ = false

abbrev pub port_affects_order : SortMode → Bool
port_affects_order src_service = true
port_affects_order dst_service = true
port_affects_order _ = false

-- What `addressDataUpdated` and `portDataUpdated` have in common: the items before the visible ones
-- are asked only when the order may be affected, and then any item makes the list be sorted.
unfoldable pub data_updated : StdSort → Ends → Bool → Listing → Listing
data_updated S e affects_order l =
    let l₁ = mark_detail e l in
    let l₂ = mark_visible_ends e l₁ in
    let l₃ = if any_end e l₁.list then sort S l₂ else l₂ in
    if is_empty l₁.list
    then l₁
    else if affects_order
    then offer_loop e l₃.storage.connection_map l₃
    else l₂

unfoldable pub address_data_updated : StdSort → Address → Listing → Listing
address_data_updated S a l = data_updated S (address_ends a) (address_affects_order l.sort_mode) l

unfoldable pub port_data_updated : StdSort → Port → Listing → Listing
port_data_updated S p l = data_updated S (port_ends p) (port_affects_order l.sort_mode) l

pub record ResolvedAddress : Type 0 where
  pub hostname : List ℕ
  pub country : ℕ
  pub asn : ℕ

pub record ResolvedPort : Type 0 where
  pub service : List ℕ

abbrev forget_address : Address → List Address → List Address
forget_address a [] = []
forget_address a (b ∷ bs) =
    let rest = forget_address a bs in if address_eq b a then bs else b ∷ rest

abbrev forget_port : Port → List Port → List Port
forget_port p [] = []
forget_port p (q ∷ qs) = let rest = forget_port p qs in if port_eq q p then qs else q ∷ rest

unfoldable pub resolved_address_names : Address → ResolvedAddress → Names → Names
resolved_address_names a r n = record n {
  hostname_string = λ b. if address_eq b a then r.hostname else n.hostname_string b;
  country = λ b. if address_eq b a then r.country else n.country b;
  asn = λ b. if address_eq b a then r.asn else n.asn b;
}

unfoldable pub resolved_port_names : Port → ResolvedPort → Names → Names
resolved_port_names p r n = record n {
  service_string = λ q. if port_eq q p then r.service else n.service_string q;
}

unfoldable pub resolver_callback_address : StdSort → Address → ResolvedAddress → Listing → Listing
resolver_callback_address S a r l = address_data_updated S a (record l {
  names = resolved_address_names a r l.names;
  asked_addresses = forget_address a l.asked_addresses;
  data_resolved_count = l.data_resolved_count + 1;
})

unfoldable pub resolver_callback_port : StdSort → Port → ResolvedPort → Listing → Listing
resolver_callback_port S p r l = port_data_updated S p (record l {
  names = resolved_port_names p r l.names;
  asked_ports = forget_port p l.asked_ports;
  data_resolved_count = l.data_resolved_count + 1;
})
