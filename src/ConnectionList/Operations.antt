-- ===== src/ConnectionList/Operations.antt =====
-- The operations by which a collector or a session tells a `ConnectionList` of its connections.
-- Source/ConnectionList.cpp. What the resolver is asked for is recorded.
use conntop.Prelude.{
  ℕ, zero, suc, ◌+◌, ◌-◌, Bool, true, false, not, ◌&&◌, ◌||◌, List, [], ◌∷◌, Option, none, some,
  bit_or, ltb, leb, if◌then◌else◌, length, get_elem?,
}
use conntop.Connection.{
  Address, ip4, ip6, Port, Connection, ConnectionData, no_traffic, connection_eq,
}
use conntop.Connection.Deserialize.Apply.{UpdateCallback}
use conntop.Storage.{
  Storage, add_ip4_address, add_ip6_address, add_port, add_connection, remove_connection,
  clear_connections, get_connection, get_ip4_address, get_ip6_address, get_port, write,
}
use conntop.ConnectionList.{
  Item, Listing, StdSort, all_flags, new_item, item_less, get_size, get_cursor_max_pos,
  get_list_begin_index, invalidated, invalidate_from, is_empty, before_back, sort, insert_item,
  push_back, fill,
}

abbrev asked_for : Address → Bool × Storage → Listing → Option Address × Listing
asked_for a (is_new, s) l = (
  some a,
  if is_new
      then record l {
        storage = s;
        data_total_count = l.data_total_count + 1;
        asked_addresses = a ∷ l.asked_addresses;
      }
      else record l { storage = s },
)

unfoldable pub get_address : Address → Bool → Listing → Option Address × Listing
get_address (ip4 a) add l =
    if add
    then asked_for (ip4 a) (add_ip4_address (ip4 a) l.storage) l
    else (get_ip4_address (ip4 a) l.storage, l)
get_address (ip6 a b c d) add l =
    if add
    then asked_for (ip6 a b c d) (add_ip6_address (ip6 a b c d) l.storage) l
    else (get_ip6_address (ip6 a b c d) l.storage, l)

unfoldable pub get_port_data : Port → Bool → Listing → Option Port × Listing
get_port_data p add l =
    let (is_new, s) = add_port p l.storage in
    if add
    then (
      some p,
      if is_new
          then record l {
            storage = s;
            data_total_count = l.data_total_count + 1;
            asked_ports = p ∷ l.asked_ports;
          }
          else record l { storage = s },
    )
    else (get_port p l.storage, l)

unfoldable pub find : Connection → Listing → Option ConnectionData
find c l = get_connection c l.storage

unfoldable pub handle_new_connection : Connection → Listing → Listing
handle_new_connection c l =
    if not (is_empty l.list) && before_back (item_less l) (new_item c) l.list
    then insert_item (new_item c) l
    else if ltb (get_size l) l.target_size
    then record (push_back (new_item c) l) { is_refresh_required = true }
    else l

-- Both of the functions `add`, the one without traffic and state with those of a new entry.
unfoldable pub add_data : ConnectionData → Listing → Listing
add_data d l =
    let (kept, is_new, s) = add_connection d l.storage in
    let l' = record l { storage = s } in
    if is_new then handle_new_connection kept.connection l' else l'

-- The index of the item of a connection.
unfoldable pub position : Connection → List Item → Option ℕ
position c [] = none
position c (i ∷ is) =
    if connection_eq i.connection c
    then some 0
    else elim (position c is) [ none ↦ none | some n ↦ some (suc n) ]

unfoldable pub mark_at : ℕ → ℕ → List Item → List Item
mark_at n flags [] = []
mark_at zero flags (i ∷ is) =
    record i { is_refresh_required = true; update_flags = bit_or i.update_flags flags } ∷ is
mark_at (suc n) flags (i ∷ is) = i ∷ mark_at n flags is

-- The comparison of the items at two indices, of which there are both where it is asked.
unfoldable pub less_at : Listing → ℕ → ℕ → Bool
less_at l m n = elim (get_elem? l.list m) [
  | none ↦ false
  | some i ↦ elim (get_elem? l.list n) [ none ↦ false | some j ↦ item_less l i j ]
]

unfoldable pub mark_visible : ℕ → ℕ → Listing → Listing
mark_visible i flags l =
    if leb (get_list_begin_index l) i
    then record l { list = mark_at i flags l.list; is_refresh_required = true }
    else l

-- `isSortRequired`
unfoldable pub is_sort_required : ℕ → Listing → Bool
is_sort_required i l =
    let is_last = not (ltb (i + 1) (length l.list)) in
    ltb 0 i && less_at l i (i - 1) || not is_last && less_at l (i + 1) i

-- `isFillRequired`
unfoldable pub is_fill_required : ℕ → Listing → Bool
is_fill_required i l =
    if ltb (i + 1) (length l.list)
    then less_at l (length l.list - 1) i
    else not (is_sort_required i l)

-- The end of `update`, with the index at which the loop has found the connection.
unfoldable pub update_item : StdSort → Connection → ℕ → Option ℕ → Listing → Listing
update_item S c flags none l =
    if before_back (item_less l) (new_item c) l.list then insert_item (new_item c) l else l
update_item S c flags (some i) l =
    let l₁ = mark_visible i flags l in
    let l₂ = if is_sort_required i l₁ then sort S l₁ else l₁ in
    if is_fill_required i l₁ then fill l₂ else l₂

abbrev pub is_detail : Connection → Listing → Bool
is_detail c l = elim l.connection_detail [ none ↦ false | some k ↦ connection_eq k c ]

unfoldable pub update_data : StdSort → ConnectionData → ℕ → Listing → Listing
update_data S d flags l =
    let l' =
      if is_detail d.connection l then record l { connection_detail_update_flags = flags } else l in
    if is_empty l'.list
    then l'
    else update_item S d.connection flags (position d.connection l'.list) l'

unfoldable pub erase_item : Connection → List Item → List Item
erase_item c [] = []
erase_item c (i ∷ is) =
    let rest = erase_item c is in if connection_eq i.connection c then is else i ∷ rest

unfoldable pub invalidate_at : ℕ → List Item → List Item
invalidate_at n [] = []
invalidate_at zero (i ∷ is) = invalidated i ∷ is
invalidate_at (suc n) (i ∷ is) = i ∷ invalidate_at n is

unfoldable pub invalidate_cursor : Listing → Listing
invalidate_cursor l =
    if ltb l.scroll_offset (length l.list)
    then record l {
      list = invalidate_at (l.scroll_offset + l.cursor_pos) l.list;
      is_refresh_required = true;
    }
    else l

unfoldable pub clamp_cursor : Listing → Listing
clamp_cursor l =
    if ltb (get_cursor_max_pos l) l.cursor_pos
    then invalidate_cursor (record l { cursor_pos = get_cursor_max_pos l })
    else l

-- The loop's end, in `it`: the index of the item of the connection, or that of the end.
unfoldable pub position_or_end : Connection → List Item → ℕ
position_or_end c is = elim (position c is) [ none ↦ length is | some n ↦ n ]

unfoldable pub forget_detail : Connection → Listing → Listing
forget_detail c l =
    if is_detail c l
    then record l { connection_detail = none; connection_detail_update_flags = all_flags }
    else l

-- The item is erased, and the visible ones after it are invalidated.
unfoldable pub erase_from_list : Connection → Listing → Listing
erase_from_list c l =
    let is = erase_item c l.list in
    let begin = if ltb l.scroll_offset (length is) then l.scroll_offset else length is in
    let place = position_or_end c l.list in
    record l { list = invalidate_from (if ltb place begin then begin else place) is }

unfoldable pub handle_removed_connection : Connection → Listing → Listing
handle_removed_connection c l =
    record (clamp_cursor (fill (erase_from_list c (forget_detail c l)))) {
      is_refresh_required = true;
    }

unfoldable pub remove : Connection → Listing → Listing
remove c l =
    let (removed, s) = remove_connection c l.storage in
    let l' = record l { storage = s } in
    elim removed [ none ↦ l' | some d ↦ handle_removed_connection d.connection l' ]

unfoldable pub clear : Listing → Listing
clear l = record l {
  list = [];
  storage = clear_connections l.storage;
  cursor_pos = 0;
  connection_detail = none;
  connection_detail_update_flags = all_flags;
  is_refresh_required = true;
}

-- What `ConnectionData::Deserialize` and the collector write through the pointers that `find` gives.
abbrev pub write_data : ConnectionData → Listing → Listing
write_data d l = record l { storage = write d l.storage }

unfoldable pub callback : StdSort → UpdateCallback Listing
callback S = record {
  get_address = get_address;
  get_port = get_port_data;
  find = find;
  write = write_data;
  add = λ c t n. add_data (record { connection = c; traffic = t; state = n });
  add_new = λ c. add_data (record { connection = c; traffic = no_traffic; state = 0 });
  update = update_data S;
  remove = remove;
  clear = clear;
}
