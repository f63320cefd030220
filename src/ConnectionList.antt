-- ===== src/ConnectionList.antt =====
-- `ConnectionList`: the connections of the storage that come first in the chosen order, as many as a
-- window on them reaches. Source/ConnectionList.hpp and Source/ConnectionList.cpp. A
-- `const ConnectionData *` is the connection of its entry in the storage, an `int` of flags is its
-- 32 bits, and `std::sort` is a parameter.
pub mod Sort
pub mod Keys
pub mod Operations
pub mod Cursor
pub mod Resolved
pub mod Shown
pub mod Filled
pub mod View
pub mod Views
pub mod Moved
pub mod Sorting
pub mod Steered
pub mod Valid
pub mod Ordered
pub mod Reach
pub mod First
pub mod Drawing
pub mod Received
pub mod Callback
use conntop.Prelude.{
  ℕ, zero, suc, ◌+◌, ◌-◌, ◌^◌, Bool, true, false, not, ◌&&◌, ◌||◌, List, [], ◌∷◌, ◌++◌, Option,
  none, some, ltb, leb, if◌then◌else◌, length, take, drop,
}
use conntop.Connection.{Address, Port, Connection, ConnectionData, no_traffic, connection_eq}
use conntop.Storage.{Storage, empty, get_connection, connection_count}
use conntop.ConnectionList.Sort.{SortMode, unsorted, Names, compare_func}
use conntop.ConnectionList.Keys.{without_last}

-- Every flag: -1.
abbrev pub all_flags : ℕ
all_flags = 2 ^ 32 - 1

pub record Item : Type 0 where
  pub connection : Connection
  pub update_flags : ℕ
  pub is_refresh_required : Bool

-- The fields of the list, with what the addresses and ports of the storage are resolved to, and what
-- the resolver has been asked for and has not answered.
pub record Listing : Type 0 where
  pub storage : Storage
  pub names : Names
  pub asked_addresses : List Address
  pub asked_ports : List Port
  pub list : List Item
  pub target_size : ℕ
  pub scroll_offset : ℕ
  pub cursor_pos : ℕ
  pub data_total_count : ℕ
  pub data_resolved_count : ℕ
  pub connection_detail : Option Connection
  pub connection_detail_update_flags : ℕ
  pub sort_mode : SortMode
  pub is_sort_ascending : Bool
  pub is_refresh_required : Bool

-- `std::sort` of items, for a comparison.
pub record StdSort : Type 0 where
  pub sort : (Item → Item → Bool) → List Item → List Item

abbrev pub new_item : Connection → Item
new_item c = record { connection = c; update_flags = all_flags; is_refresh_required = true }

unfoldable pub new_list : Names → Listing
new_list n = record {
  storage = empty;
  names = n;
  asked_addresses = [];
  asked_ports = [];
  list = [];
  target_size = 0;
  scroll_offset = 0;
  cursor_pos = 0;
  data_total_count = 0;
  data_resolved_count = 0;
  connection_detail = none;
  connection_detail_update_flags = 0;
  sort_mode = unsorted;
  is_sort_ascending = false;
  is_refresh_required = true;
}

-- What a pointer points at. There is always an entry: no pointer outlives its own.
unfoldable pub data_at : Connection → Storage → ConnectionData
data_at c s = elim (get_connection c s) [
  | none ↦ record { connection = c; traffic = no_traffic; state = 0 }
  | some d ↦ d
]

-- `m_compareFunc`, of two pointers and of two items.
unfoldable pub key_less : Listing → Connection → Connection → Bool
key_less l a b =
    compare_func l.names l.sort_mode l.is_sort_ascending (data_at a l.storage) (data_at b l.storage)

abbrev pub item_less : Listing → Item → Item → Bool
item_less l a b = key_less l a.connection b.connection

abbrev pub get_size : Listing → ℕ
get_size l = if ltb l.scroll_offset (length l.list) then length l.list - l.scroll_offset else 0

abbrev pub get_cursor_max_pos : Listing → ℕ
get_cursor_max_pos l = if ltb 0 (get_size l) then get_size l - 1 else 0

abbrev pub get_list_begin_index : Listing → ℕ
get_list_begin_index l = if ltb l.scroll_offset (length l.list) then l.scroll_offset else 0

unfoldable pub contains_item : Connection → List Item → Bool
contains_item c [] = false
contains_item c (i ∷ is) = connection_eq i.connection c || contains_item c is

abbrev pub invalidated : Item → Item
invalidated i = record i { is_refresh_required = true; update_flags = all_flags }

-- The items from an index on, as after the loop that invalidates them.
unfoldable pub invalidate_from : ℕ → List Item → List Item
invalidate_from n [] = []
invalidate_from zero (i ∷ is) = invalidated i ∷ invalidate_from zero is
invalidate_from (suc n) (i ∷ is) = i ∷ invalidate_from n is

unfoldable pub is_empty : List Item → Bool
is_empty [] = true
is_empty (i ∷ is) = false

-- The place in front of the first item that the item comes before: `std::upper_bound`.
unfoldable pub upper_bound : (Item → Item → Bool) → Item → List Item → ℕ
upper_bound less x [] = 0
upper_bound less x (i ∷ is) = let rest = upper_bound less x is in if less x i then 0 else suc rest

-- `m_compareFunc(item, m_list.back())`; the list is not empty where it is asked.
unfoldable pub before_back : (Item → Item → Bool) → Item → List Item → Bool
before_back less x [] = false
before_back less x (i ∷ []) = less x i
before_back less x (i ∷ j ∷ js) = before_back less x (j ∷ js)

-- The items from the first visible one on are invalidated; from `getListBeginIt`, the end of a list
-- that does not reach the window.
unfoldable pub invalidate_all_visible : Listing → Listing
invalidate_all_visible l = record l {
  list = invalidate_from l.scroll_offset l.list;
  is_refresh_required = true;
}

unfoldable pub sort : StdSort → Listing → Listing
unfolding invalidate_all_visible
sort S l = invalidate_all_visible (record l { list = S.sort (item_less l) l.list })

abbrev inserted_at : ℕ → Item → List Item → List Item
inserted_at n x is = take n is ++ x ∷ drop n is

abbrev pub pop_over : Listing → Listing
pop_over l = if ltb l.target_size (get_size l) then record l { list = without_last l.list } else l

unfoldable pub insert_item : Item → Listing → Listing
unfolding upper_bound
insert_item x l =
    let place = upper_bound (item_less l) x l.list in
    let l' = pop_over (record l { list = inserted_at place x l.list }) in
    let first = get_list_begin_index l' in
    let index = if ltb place first then first else place in
    record l' { list = invalidate_from index l'.list; is_refresh_required = true }

abbrev pub push_back : Item → Listing → Listing
push_back x l = record l { list = l.list ++ x ∷ [] }

-- The body of the loop of `fill`.
unfoldable pub fill_step : Connection → Listing → Listing
fill_step c l =
    if before_back (item_less l) (new_item c) l.list
    then (if contains_item c l.list then l else insert_item (new_item c) l)
    else if ltb (get_size l) l.target_size
    then (if contains_item c l.list then l else push_back (new_item c) l)
    else l

unfoldable pub fill_loop : List ConnectionData → Listing → Listing
fill_loop [] l = l
fill_loop (d ∷ ds) l = fill_loop ds (fill_step d.connection l)

-- An empty list starts with the first connection of the storage.
unfoldable pub fill_start : List ConnectionData → Listing → Listing
fill_start [] l = l
fill_start (d ∷ ds) l = if is_empty l.list then push_back (new_item d.connection) l else l

unfoldable pub fill : Listing → Listing
fill l =
    let ds = l.storage.connection_map in
    if leb l.target_size (get_size l) || leb (connection_count l.storage) (length l.list)
    then l
    else record (fill_loop ds (fill_start ds l)) { is_refresh_required = true }
