-- ===== src/ConnectionList/Reach.antt =====
-- Whatever a collector or a session, the resolver and the user do to a `ConnectionList`, it is valid
-- and in order. Source/ConnectionList.cpp. The data of a connection are assigned through the pointer
-- that `find` has given, and then the list is told.
use conntop.Prelude.{ℕ, ◌≡◌, refl, ap, ◌∙◌, Bool, true, some, ℤ, arith}
use conntop.Connection.{Address, ip4, ip6, Port, Connection, ConnectionData}
use conntop.Storage.{empty, add_ip4_address, add_ip6_address, add_port, get_connection}
use conntop.ConnectionList.Sort.{SortMode, Names}
use conntop.ConnectionList.Keys.{has, distinct, sorted}
use conntop.ConnectionList.{Listing, StdSort, new_list, key_less, data_at, invalidate_all_visible}
use conntop.ConnectionList.Operations.{
  get_address, get_port_data, find, add_data, update_data, write_data, remove, clear,
  invalidate_cursor,
}
use conntop.ConnectionList.Cursor.{
  get_next_update, do_scroll, move_cursor, init_connection_detail, reset_connection_detail_refresh,
  set_target_size, set_sort_mode,
}
use conntop.ConnectionList.Resolved.{
  ResolvedAddress, ResolvedPort, resolver_callback_address, resolver_callback_port,
}
use conntop.ConnectionList.Shown.{stored}
use conntop.ConnectionList.Views.{
  view, view-invalidate_cursor, view-invalidate_all_visible, stored-find,
}
use conntop.ConnectionList.Moved.{view-write_data}
use conntop.ConnectionList.View.{View, IsValid}
use conntop.ConnectionList.Sorting.{IsSort}
use conntop.ConnectionList.Valid.{
  Valid, IsValid-by, add_data-Valid, write_data-Valid, remove-Valid, clear-Valid,
}
use conntop.ConnectionList.Valid.Updating.{update_data-Valid}
use conntop.ConnectionList.Valid.Steering.{
  get_next_update-Valid, set_sort_mode-Valid, set_target_size-Valid, do_scroll-Valid,
  move_cursor-Valid, init_connection_detail-Valid,
}
use conntop.ConnectionList.Valid.Resolving.{
  resolver_callback_address-Valid, resolver_callback_port-Valid,
}
use conntop.ConnectionList.Ordered.{InOrder}
use conntop.ConnectionList.Ordered.Updating.{InOrder-same, add_data-InOrder, change_data-InOrder}
use conntop.ConnectionList.Ordered.Steering.{key_less-Kept, Kept-invalidate_cursor}
use conntop.ConnectionList.Ordered.Moves.{
  get_next_update-InOrder, set_sort_mode-InOrder, set_target_size-InOrder, do_scroll-InOrder,
  move_cursor-InOrder, remove-InOrder,
}
use conntop.ConnectionList.Ordered.Resolving.{
  resolver_callback_address-InOrder, resolver_callback_port-InOrder,
}

-- One call of a public function.
pub data Step (S : StdSort) : Listing → Listing → Type 0 where
  address_asked : (a : Address) (add : Bool) (l : Listing) → Step S l (get_address a add l).1
  port_asked : (p : Port) (add : Bool) (l : Listing) → Step S l (get_port_data p add l).1
  added : (d : ConnectionData) (l : Listing) → Step S l (add_data d l)
  changed :
      (d old : ConnectionData) (flags : ℕ) (l : Listing)
      → find d.connection l ≡ some old
      → Step S l (update_data S d flags (write_data d l))
  removed : (c : Connection) (l : Listing) → Step S l (remove c l)
  cleared : (l : Listing) → Step S l (clear l)
  address_resolved :
      (a : Address) (r : ResolvedAddress) (l : Listing)
      → Step S l (resolver_callback_address S a r l)
  port_resolved :
      (p : Port) (r : ResolvedPort) (l : Listing) → Step S l (resolver_callback_port S p r l)
  drawn : (l : Listing) → Step S l (get_next_update l).1
  all_invalidated : (l : Listing) → Step S l (invalidate_all_visible l)
  cursor_invalidated : (l : Listing) → Step S l (invalidate_cursor l)
  cursor_moved : (n : ℤ) (l : Listing) → Step S l (move_cursor n l)
  scrolled : (n : ℤ) (l : Listing) → Step S l (do_scroll n l)
  detail_opened : (l : Listing) → Step S l (init_connection_detail l)
  detail_drawn : (l : Listing) → Step S l (reset_connection_detail_refresh l)
  resized : (n : ℕ) (l : Listing) → Step S l (set_target_size n l)
  mode_set :
      (mode : SortMode) (is_ascending : Bool) (l : Listing)
      → Step S l (set_sort_mode mode is_ascending l)

pub data Reachable (S : StdSort) : Listing → Type 0 where
  constructed : (n : Names) → Reachable S (new_list n)
  stepped : {l m : Listing} → Reachable S l → Step S l m → Reachable S m

get_address-same :
    (a : Address) (add : Bool) (l : Listing)
    → (view (get_address a add l).1 ≡ view l) × (key_less (get_address a add l).1 ≡ key_less l)
unfolding get_address add_ip4_address add_ip6_address key_less data_at get_connection
get_address-same (ip4 a) add l = ground arith
get_address-same (ip6 a b c d) add l = ground arith

get_port_data-same :
    (p : Port) (add : Bool) (l : Listing)
    → (view (get_port_data p add l).1 ≡ view l) × (key_less (get_port_data p add l).1 ≡ key_less l)
unfolding get_port_data add_port key_less data_at get_connection
get_port_data-same p add l = ground arith

abbrev pub Right : Listing → Type 0
Right l = Valid l × InOrder l

Right-same : (l m : Listing) → view m ≡ view l → key_less m ≡ key_less l → Right l → Right m
Right-same l m p q h = (IsValid-by p h.0, InOrder-same l m q (ap (λ (v : View). v.shown) p) h.1)

pub Step-Right : {S : StdSort} → IsSort S → {l m : Listing} → Step S l m → Right l → Right m
unfolding key_less find get_connection clear sorted reset_connection_detail_refresh
    init_connection_detail invalidate_all_visible
Step-Right law (address_asked a add l) h =
    Right-same l (get_address a add l).1 (get_address-same a add l).0 (get_address-same a add l).1 h
Step-Right law (port_asked p add l) h =
    Right-same l (get_port_data p add l).1 (get_port_data-same p add l).0
      (get_port_data-same p add l).1 h
Step-Right law (added d l) h = (add_data-Valid d l h.0, add_data-InOrder d l h.0 h.1)
Step-Right law (changed d old flags l p) h =
    let found : has d.connection (stored (write_data d l).storage.connection_map) ≡ true =
      ap (λ (v : View). has d.connection v.stored) (view-write_data d l)
      ∙ stored-find d.connection l.storage.connection_map
      ∙ rw p refl in
    (
      update_data-Valid law d flags (write_data d l) found (write_data-Valid d l h.0),
      change_data-InOrder law d flags l h.0 h.1,
    )
Step-Right law (removed c l) h = (remove-Valid c l h.0, remove-InOrder c l h.0 h.1)
Step-Right law (cleared l) h = (clear-Valid l, refl)
Step-Right law (address_resolved a r l) h =
    (resolver_callback_address-Valid law a r l h.0, resolver_callback_address-InOrder law a r l h.1)
Step-Right law (port_resolved p r l) h =
    (resolver_callback_port-Valid law p r l h.0, resolver_callback_port-InOrder law p r l h.1)
Step-Right law (drawn l) h = (get_next_update-Valid l h.0, get_next_update-InOrder l h.1)
Step-Right law (all_invalidated l) h =
    Right-same l (invalidate_all_visible l) (view-invalidate_all_visible l) refl h
Step-Right law (cursor_invalidated l) h =
    Right-same l (invalidate_cursor l) (view-invalidate_cursor l)
      (key_less-Kept l (invalidate_cursor l) (Kept-invalidate_cursor l)) h
Step-Right law (cursor_moved n l) h = (move_cursor-Valid n l h.0, move_cursor-InOrder n l h.1)
Step-Right law (scrolled n l) h = (do_scroll-Valid n l h.0, do_scroll-InOrder n l h.1)
Step-Right law (detail_opened l) h = (init_connection_detail-Valid l h.0, h.1)
Step-Right law (detail_drawn l) h = h
Step-Right law (resized n l) h = (set_target_size-Valid n l h.0, set_target_size-InOrder n l h.1)
Step-Right law (mode_set mode is_ascending l) h =
    (set_sort_mode-Valid mode is_ascending l h.0, set_sort_mode-InOrder mode is_ascending l h.1)

new_list-Right : (n : Names) → Right (new_list n)
unfolding new_list empty sorted has distinct
new_list-Right n = (
  record {
    stored_once = refl;
    shown_once = refl;
    shown_stored = λ c i. i;
    fits = omega arith;
    complete = λ c i r. i;
    cursor = omega arith;
    detail_stored = λ c i. ground arith;
  },
  refl,
)

-- Whatever has been done to a list from its construction on, by the calls of a collector or
-- session, the answers of the resolver and the user, where the sort permutes the items and puts
-- them in order: no connection is stored or shown twice; what is shown is stored, so no pointer of
-- the list dangles; there are no more visible connections than the window has room for, and all
-- that is stored is shown if there are fewer; the cursor is on a visible connection, or at the top
-- of an empty window; the connection in detail is stored; and the items are in the chosen order.
-- Data are assigned only to a connection that is found, and the list is told then.
pub Reachable-IsValid :
    {S : StdSort} → IsSort S → {l : Listing} → Reachable S l → IsValid (view l) × InOrder l
Reachable-IsValid law (constructed n) = new_list-Right n
Reachable-IsValid law (stepped r s) = Step-Right law s (Reachable-IsValid law r)
