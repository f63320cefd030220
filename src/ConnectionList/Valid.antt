-- ===== src/ConnectionList/Valid.antt =====
-- Every operation of a `ConnectionList` keeps it valid. Source/ConnectionList.cpp.
pub mod Updating
pub mod Steering
pub mod Resolving
use conntop.Prelude.{
  ℕ, zero, suc, ◌+◌, ◌-◌, ◌≤◌, ◌<◌, ◌≡◌, refl, sym, ap, ◌∙◌, Bool, true, false, not, ◌&&◌, ◌||◌,
  List, [], ◌∷◌, ◌++◌, Option, none, some, ltb, leb, ◌==◌, if◌then◌else◌, length, get_elem?, ℤ, pos,
  negsuc, subst, arith,
}
use conntop.Connection.{Connection, ConnectionData, connection_eq}
use conntop.Storage.{add_connection, remove_connection}
use conntop.ConnectionList.Sort.{SortMode}
use conntop.ConnectionList.Keys.{has, distinct}
use conntop.ConnectionList.{
  Item, Listing, StdSort, new_item, key_less, item_less, is_empty, before_back, sort, insert_item,
  fill,
}
use conntop.ConnectionList.Operations.{
  add_data, position, mark_at, mark_visible, is_sort_required, is_fill_required, update_item,
  is_detail, update_data, remove, clear, write_data,
}
use conntop.ConnectionList.Cursor.{
  get_next_update, scroll_up, scroll_down, do_scroll, put_cursor, move_up, move_down, move_cursor,
  init_connection_detail, set_target_size, set_sort_mode,
}
use conntop.ConnectionList.Shown.{keys, stored, length-keys}
use conntop.ConnectionList.View.{
  View, IsValid, size, filled, inserted, entered, removed, scrolled_up, scrolled_down, restarted,
  retargeted,
}
use conntop.ConnectionList.View.Filling.{sound, filled-IsValid}
use conntop.ConnectionList.View.Steps.{inserted-IsValid, entered-IsValid}
use conntop.ConnectionList.View.Moves.{
  cleared-IsValid, scrolled_up-IsValid, scrolled_down-IsValid, restarted-IsValid, removed-IsValid,
  retargeted-IsValid,
}
use conntop.ConnectionList.Views.{view, view-insert_item, view-fill, view-add_data}
use conntop.ConnectionList.Moved.{view-write_data, view-clear, view-remove}
use conntop.ConnectionList.Steered.{
  view-put_cursor, view-scroll_up, view-scroll_down, view-set_target_size, view-set_sort_mode,
  view-get_next_update, get_elem?-keys,
}
use conntop.ConnectionList.Sorting.{IsSort, has-sort, distinct-sort, length-sort}

abbrev pub Valid : Listing → Type 0
Valid l = IsValid (view l)

pub IsValid-by : {v w : View} → v ≡ w → IsValid w → IsValid v
IsValid-by p h = subst IsValid (sym p) h

pub IsValid-if :
    (b : Bool) (v w : View)
    → (b ≡ true → IsValid v)
    → (b ≡ false → IsValid w)
    → IsValid (if b then v else w)
IsValid-if true v w p q = p refl
IsValid-if false v w p q = q refl

Valid-if :
    (b : Bool) (l m : Listing)
    → (b ≡ true → Valid l)
    → (b ≡ false → Valid m)
    → Valid (if b then l else m)
Valid-if true l m p q = p refl
Valid-if false l m p q = q refl

pub insert_item-Valid :
    (c : Connection) (l : Listing)
    → has c (stored l.storage.connection_map) ≡ true
    → has c (keys l.list) ≡ false
    → Valid l
    → Valid (insert_item (new_item c) l)
insert_item-Valid c l p q h =
    IsValid-by (view-insert_item (new_item c) l) (inserted-IsValid (key_less l) (view l) h c p q)

pub fill-Valid : (l : Listing) → Valid l → Valid (fill l)
fill-Valid l h =
    IsValid-by (view-fill l) (filled-IsValid (key_less l) (view l) (sound (view l) h) h.cursor)

pub sort-Valid : {S : StdSort} → IsSort S → (l : Listing) → Valid l → Valid (sort S l)
unfolding sort
sort-Valid {S} law l h =
    let counted = length-sort law l in
    record {
      stored_once = h.stored_once;
      shown_once = distinct-sort law l ∙ h.shown_once;
      shown_stored = λ c i. h.shown_stored c (sym (has-sort law l c) ∙ i);
      fits = omega (arith, counted, h.fits);
      complete = λ c i r. has-sort law l c ∙ h.complete c i (omega (arith, counted, r));
      cursor = omega (arith, counted, h.cursor);
      detail_stored = h.detail_stored;
    }

pub add_data-Valid : (d : ConnectionData) (l : Listing) → Valid l → Valid (add_data d l)
add_data-Valid d l h =
    let m = record l { storage = (add_connection d l.storage).2 } in
    IsValid-by (view-add_data d l) (
      IsValid-if _ _ _ (λ _. h)
        (λ absent. entered-IsValid (key_less m) (view l) h d.connection absent))

pub write_data-Valid : (d : ConnectionData) (l : Listing) → Valid l → Valid (write_data d l)
write_data-Valid d l h = IsValid-by (view-write_data d l) h

pub remove-Valid : (c : Connection) (l : Listing) → Valid l → Valid (remove c l)
remove-Valid c l h =
    let m = record l { storage = (remove_connection c l.storage).1 } in
    IsValid-by (view-remove c l h.shown_once)
      (IsValid-if _ _ _ (λ _. removed-IsValid (key_less m) (view l) h c) (λ _. h))

pub clear-Valid : (l : Listing) → Valid (clear l)
clear-Valid l = IsValid-by (view-clear l) (cleared-IsValid (view l))
