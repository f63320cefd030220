-- ===== src/ConnectionList/Views.antt =====
-- The view of a `ConnectionList` after each of its operations. Source/ConnectionList.cpp.
use conntop.Prelude.{
  ℕ, zero, suc, ◌+◌, ◌-◌, ◌≡◌, refl, ap, ◌∙◌, Bool, true, false, not, ◌&&◌, List, [], ◌∷◌, ◌++◌,
  none, some, ltb, if◌then◌else◌, arith,
}
use conntop.Connection.{Connection, ConnectionData}
use conntop.Storage.{find_connection, add_connection, connection_count}
use conntop.ConnectionList.Keys.{has, before_last}
use conntop.ConnectionList.{
  Item, Listing, new_item, key_less, item_less, get_size, before_back, invalidate_all_visible,
  is_empty, insert_item, fill,
}
use conntop.ConnectionList.Operations.{
  handle_new_connection, add_data, invalidate_at, invalidate_cursor, clamp_cursor,
}
use conntop.ConnectionList.Shown.{
  keys, stored, Framed, Framed-insert_item, length-keys, keys-invalidate_from, keys-push_back,
  before_last-keys, keys-insert_item,
}
use conntop.ConnectionList.Filled.{Framed-fill, keys-fill, length-stored}
use conntop.ConnectionList.View.{View, size, clamp, filled, inserted, entered}

abbrev pub view : Listing → View
view l = record {
  stored = stored l.storage.connection_map;
  shown = keys l.list;
  scroll_offset = l.scroll_offset;
  target_size = l.target_size;
  cursor_pos = l.cursor_pos;
  detail = l.connection_detail;
}

pub view-Framed : (l m : Listing) → Framed l m → view m ≡ record (view l) { shown = keys m.list }
view-Framed l m p = ap view p

pub view-insert_item :
    (x : Item) (l : Listing) → view (insert_item x l) ≡ inserted (key_less l) x.connection (view l)
view-insert_item x l =
    view-Framed l (insert_item x l) (Framed-insert_item x l)
    ∙ ap (λ ks. record (view l) { shown = ks }) (keys-insert_item x l)

pub view-fill : (l : Listing) → view (fill l) ≡ filled (key_less l) (view l)
unfolding connection_count
view-fill l =
    view-Framed l (fill l) (Framed-fill l)
    ∙ ground (arith, keys-fill l, length-keys l.list, length-stored l.storage.connection_map)

pub keys-invalidate_at : (n : ℕ) (is : List Item) → keys (invalidate_at n is) ≡ keys is
unfolding invalidate_at
keys-invalidate_at n [] = refl
keys-invalidate_at zero (i ∷ is) = refl
keys-invalidate_at (suc n) (i ∷ is) = ap (◌∷◌ i.connection) (keys-invalidate_at n is)

pub view-invalidate_cursor : (l : Listing) → view (invalidate_cursor l) ≡ view l
unfolding invalidate_cursor
view-invalidate_cursor l =
    ground (arith, keys-invalidate_at (l.scroll_offset + l.cursor_pos) l.list)

pub view-invalidate_all_visible : (l : Listing) → view (invalidate_all_visible l) ≡ view l
unfolding invalidate_all_visible
view-invalidate_all_visible l =
    ap (λ ks. record (view l) { shown = ks }) (keys-invalidate_from l.scroll_offset l.list)

pub view-clamp_cursor : (l : Listing) → view (clamp_cursor l) ≡ clamp (view l)
unfolding clamp_cursor
view-clamp_cursor l =
    ground
      (arith, length-keys l.list, view-invalidate_cursor (record l { cursor_pos = get_size l - 1 }))

pub stored-find :
    (c : Connection) (ds : List ConnectionData)
    → has c (stored ds) ≡ (elim (find_connection c ds) [ none ↦ false | some d ↦ true ])
unfolding has find_connection
stored-find c [] = refl
stored-find c (d ∷ ds) = ground (arith, stored-find c ds)

-- An empty list has no last item.
pub before_back-nonempty :
    (less : Item → Item → Bool) (x : Item) (is : List Item)
    → (not (is_empty is) && before_back less x is) ≡ before_back less x is
unfolding is_empty before_back
before_back-nonempty less x [] = refl
before_back-nonempty less x (i ∷ is) = refl

view-handle_new_connection :
    (c : Connection) (l : Listing)
    → view (handle_new_connection c l) ≡ (
        if before_last (key_less l) c (keys l.list)
        then inserted (key_less l) c (view l)
        else if ltb (size (view l)) l.target_size
        then record (view l) { shown = keys l.list ++ c ∷ [] }
        else view l)
unfolding handle_new_connection
view-handle_new_connection c l = ground (
  arith,
  before_back-nonempty (item_less l) (new_item c) l.list,
  before_last-keys (key_less l) (new_item c) l.list,
  view-insert_item (new_item c) l,
  keys-push_back (new_item c) l.list,
  length-keys l.list,
)

pub view-add_data :
    (d : ConnectionData) (l : Listing)
    → let m = record l { storage = (add_connection d l.storage).2 } in
      view (add_data d l) ≡ (
        if has d.connection (stored l.storage.connection_map)
        then view l
        else entered (key_less m) d.connection (view l))
unfolding add_data add_connection
view-add_data d l =
    let m = record l {
      storage = record l.storage { connection_map = d ∷ l.storage.connection_map };
    } in
    ground (
      arith,
      stored-find d.connection l.storage.connection_map,
      view-handle_new_connection d.connection m,
    )
