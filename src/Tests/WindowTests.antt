-- ===== src/Tests/WindowTests.antt =====
-- A connection list with a window of one row, and its theorems at it.
use conntop.Prelude.{◌≡◌, refl, true, false, [], ◌∷◌, length, arith}
use conntop.Connection.{
  tcp, Connection, ConnectionData, connection_eq, address_eq, port_eq, connection_type_eq,
  create_type,
}
use conntop.Storage.{
  empty, add_connection, find_connection, connection_count, get_connection, write, assign,
}
use conntop.Storage.Backed.{Backed}
use conntop.ConnectionList.Sort.{rx_bytes, compare_func, ascending}
use conntop.ConnectionList.Keys.{without_last}
use conntop.ConnectionList.{
  Listing, new_list, key_less, fill, fill_loop, fill_start, fill_step, is_empty, before_back,
  insert_item, upper_bound, invalidate_from, sort, invalidate_all_visible, data_at,
}
use conntop.ConnectionList.Operations.{
  handle_new_connection, clamp_cursor, invalidate_cursor, invalidate_at, callback, update_item,
  position, mark_visible, mark_at, is_sort_required, is_fill_required, less_at, add_data,
  update_data, write_data,
}
use conntop.ConnectionList.Cursor.{pop_times, set_target_size, set_sort_mode}
use conntop.ConnectionList.Shown.{keys}
use conntop.ConnectionList.View.{IsValid}
use conntop.ConnectionList.Views.{view}
use conntop.ConnectionList.Callback.{callback-Backed, storage_of}
use conntop.ConnectionList.Drawing.{refresh_rows, pending, visible, refresh_rows-drains}
use conntop.ConnectionList.Reach.{
  Reachable, constructed, stepped, added, resized, mode_set, Reachable-IsValid,
}
use conntop.ConnectionList.Ordered.{InOrder}
use conntop.ConnectionList.Received.{storage_items-AllObjects, receive_items-IsValid}
use conntop.Client.{receive_items}
use conntop.Server.Updates.{storage_items}
use conntop.Tests.JsonModel.{json}
use conntop.Tests.ConnectionTests.{address_text, visit}
use conntop.Tests.ReplicaTests.{mistaken, later}
use conntop.Tests.ListTests.{nameless}
use conntop.Tests.ListModel.{insertion_sort, sorted_by, insertion_sort-IsSort}

-- Like the visit, from another port, and with more bytes received.
abbrev other : ConnectionData
other = record later {
  connection = record visit.connection { src_port = record { port_type = tcp; number = 81 } };
}

abbrev one_row : Listing
one_row = set_sort_mode rx_bytes true (set_target_size 1 (new_list nameless))

abbrev with_visit : Listing
with_visit = add_data visit one_row

abbrev with_both : Listing
with_both = add_data other with_visit

one_row-Reachable : Reachable insertion_sort one_row
one_row-Reachable =
    stepped (stepped (constructed nameless) (resized 1 (new_list nameless)))
      (mode_set rx_bytes true (set_target_size 1 (new_list nameless)))

with_visit-Reachable : Reachable insertion_sort with_visit
with_visit-Reachable = stepped one_row-Reachable (added visit one_row)

with_both-Reachable : Reachable insertion_sort with_both
with_both-Reachable = stepped with_visit-Reachable (added other with_visit)

Reachable-IsValid_example : IsValid (view with_both) × InOrder with_both
Reachable-IsValid_example = Reachable-IsValid insertion_sort-IsSort with_both-Reachable

callback-Backed_example : Backed (callback insertion_sort) storage_of
callback-Backed_example = callback-Backed insertion_sort

drawing : (with_both.is_refresh_required ≡ true) × (pending (visible with_both) ≡ 1)
unfolding new_list set_target_size set_sort_mode fill fill_loop fill_start fill_step add_data
    handle_new_connection add_connection find_connection connection_count is_empty before_back
    insert_item upper_bound invalidate_from key_less data_at get_connection compare_func ascending
    clamp_cursor invalidate_cursor invalidate_at pop_times without_last empty connection_eq
    address_eq port_eq connection_type_eq create_type pending
drawing = (refl, refl)

refresh_rows-drains_example :
    let l = with_both in
    (length (refresh_rows 2 l).0 ≡ pending (visible l))
    × (pending (visible (refresh_rows 2 l).1) ≡ 0)
    × ((refresh_rows 2 l).1.is_refresh_required ≡ false)
refresh_rows-drains_example = refresh_rows-drains 2 with_both drawing.0 (omega (arith, drawing.1))

abbrev grown : ConnectionData
grown = record visit { traffic = record (visit.traffic) { rx_bytes = 100000 } }

-- The only connection that is shown has received more than the other by now, and is shown all the
-- same: the window is full, so `fill` does nothing.
abbrev overtaken : Listing
overtaken = update_data insertion_sort grown 256 (write_data grown with_both)

stale :
    (keys overtaken.list ≡ visit.connection ∷ [])
    × (key_less overtaken other.connection visit.connection ≡ true)
unfolding new_list set_target_size set_sort_mode fill fill_loop fill_start fill_step add_data
    handle_new_connection add_connection find_connection connection_count is_empty before_back
    insert_item upper_bound invalidate_from key_less data_at get_connection compare_func ascending
    clamp_cursor invalidate_cursor invalidate_at pop_times without_last empty connection_eq
    address_eq port_eq connection_type_eq create_type update_data update_item position mark_visible
    mark_at is_sort_required is_fill_required less_at write assign sort invalidate_all_visible
    sorted_by
stale = (refl, refl)

-- One item is refused, and the others create what is there.
receive_items-IsValid_example :
    let items = mistaken ∷ storage_items json address_text with_both.storage.connection_map in
    let m = (receive_items json address_text (callback insertion_sort) items with_both).1 in
    IsValid (view m) × InOrder m
receive_items-IsValid_example =
    receive_items-IsValid json address_text insertion_sort-IsSort
      (mistaken ∷ storage_items json address_text with_both.storage.connection_map) with_both
      (refl, storage_items-AllObjects json address_text with_both.storage.connection_map)
      (Reachable-IsValid insertion_sort-IsSort with_both-Reachable).0
      (Reachable-IsValid insertion_sort-IsSort with_both-Reachable).1
