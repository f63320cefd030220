-- ===== src/ConnectionList/Moved.antt =====
-- The view of a `ConnectionList` after a connection is removed and after what the user does.
-- Source/ConnectionList.cpp.
use conntop.Prelude.{
  ◌≡◌, refl, ap, ◌∙◌, true, false, List, [], ◌∷◌, Option, none, some, if◌then◌else◌, arith,
}
use conntop.Connection.{Connection, ConnectionData}
use conntop.Connection.Names.{connection_eq_iff}
use conntop.Storage.{find_connection, erase, assign, remove_connection, clear_connections, write}
use conntop.Storage.Laws.{find-connection}
use conntop.ConnectionList.Keys.{has, distinct}
use conntop.ConnectionList.{Item, Listing, key_less, fill}
use conntop.ConnectionList.Operations.{
  erase_item, handle_removed_connection, remove, forget_detail, erase_from_list, clear, write_data,
}
use conntop.ConnectionList.Shown.{keys, stored, keys-invalidate_from}
use conntop.ConnectionList.View.{View, erase_key, without_detail, clamp, filled, removed, cleared}
use conntop.ConnectionList.Views.{view, view-fill, view-clamp_cursor, stored-find}

keys-erase_item :
    (c : Connection) (is : List Item)
    → distinct (keys is) ≡ true
    → keys (erase_item c is) ≡ erase_key c (keys is)
unfolding erase_item erase_key distinct has
keys-erase_item c [] h = refl
keys-erase_item c (i ∷ is) h =
    ground
      (arith, keys-erase_item c is, erase_key-absent c (keys is), connection_eq_iff i.connection c)
  where
    erase_key-absent :
        (c : Connection) (ks : List Connection) → has c ks ≡ false → erase_key c ks ≡ ks
    erase_key-absent c [] p = refl
    erase_key-absent c (k ∷ ks) p = ground (arith, erase_key-absent c ks)

stored-erase :
    (c : Connection) (ds : List ConnectionData) → stored (erase c ds) ≡ erase_key c (stored ds)
unfolding erase erase_key
stored-erase c [] = refl
stored-erase c (d ∷ ds) = ground (arith, stored-erase c ds)

stored-assign : (d : ConnectionData) (ds : List ConnectionData) → stored (assign d ds) ≡ stored ds
unfolding assign
stored-assign d [] = refl
stored-assign d (x ∷ xs) =
    ground (arith, stored-assign d xs, connection_eq_iff x.connection d.connection)

pub view-write_data : (d : ConnectionData) (l : Listing) → view (write_data d l) ≡ view l
unfolding write
view-write_data d l =
    ap (λ ks. record (view l) { stored = ks }) (stored-assign d l.storage.connection_map)

pub view-clear : (l : Listing) → view (clear l) ≡ cleared (view l)
unfolding clear clear_connections
view-clear l = refl

forgotten :
    (c : Connection) (l : Listing)
    → let m = forget_detail c l in
      m ≡ record l {
        connection_detail = without_detail c l.connection_detail;
        connection_detail_update_flags = m.connection_detail_update_flags;
      }
unfolding forget_detail without_detail
forgotten c l = ground arith

view-handle_removed_connection :
    (c : Connection) (l : Listing)
    → view (handle_removed_connection c l)
      ≡ clamp (
          filled (key_less l) (record (view l) {
            shown = keys (erase_item c l.list);
            detail = without_detail c l.connection_detail;
          }))
unfolding handle_removed_connection erase_from_list key_less
view-handle_removed_connection c l =
    let m = forget_detail c l in
    let e = erase_from_list c m in
    let filled_less : View → View = filled (key_less m) in
    let of_list : Listing → View =
      (λ n. clamp (filled (key_less n) (record (view n) { shown = keys (erase_item c n.list) }))) in
    let of_shown : List Connection → View =
      (λ ks. clamp (filled (key_less m) (record (view m) { shown = ks }))) in
    view-clamp_cursor (fill e)
    ∙ ap clamp (view-fill e)
    ∙ ap of_shown (keys-invalidate_from _ (erase_item c m.list))
    ∙ ap of_list (forgotten c l)

pub view-remove :
    (c : Connection) (l : Listing)
    → distinct (keys l.list) ≡ true
    → let m = record l { storage = (remove_connection c l.storage).1 } in
      view (remove c l) ≡ (
        if has c (stored l.storage.connection_map) then removed (key_less m) c (view l) else view l)
unfolding remove remove_connection
view-remove c l h = by_entry (find_connection c l.storage.connection_map) refl
  where
    ds : List ConnectionData
    ds = l.storage.connection_map

    m : Listing
    m = record l { storage = record l.storage { connection_map = erase c ds } }

    handled : view (handle_removed_connection c m) ≡ removed (key_less m) c (view l)
    handled =
        view-handle_removed_connection c m ∙ rw (keys-erase_item c l.list h, stored-erase c ds)

    by_entry :
        (o : Option ConnectionData)
        → find_connection c ds ≡ o
        → view (remove c l) ≡ (
            if has c (stored ds)
            then removed
                (key_less (record l { storage = (remove_connection c l.storage).1 }))
                c
                (view l)
            else view l)
    by_entry none p = ground (arith, p, stored-find c ds)
    by_entry (some d) p =
        let q : d.connection ≡ c = find-connection c ds d p in
        ground (arith, p, stored-find c ds, q, handled)
