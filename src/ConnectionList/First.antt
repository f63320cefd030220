-- ===== src/ConnectionList/First.antt =====
-- The connections that a `ConnectionList` shows are those that come first in its order.
-- Source/ConnectionList.cpp.
pub mod Keeps
pub mod Removal
pub mod Window
pub mod Moves
use conntop.Prelude.{
  ℕ, zero, suc, ◌+◌, ◌-◌, ◌<◌, ◌≡◌, ◌⊎◌, inl, inr, sym, ap, ◌∙◌, Bool, true, not, ◌||◌, List, ◌∷◌,
  ◌++◌, Option, none, some, ltb, leb, if◌then◌else◌, length, length-append, subst, arith,
}
use conntop.Connection.{Connection, ConnectionData, connection_eq}
use conntop.Connection.Names.{connection_eq_iff}
use conntop.Storage.{find_connection, add_connection, remove_connection}
use conntop.ConnectionList.Keys.{
  has, sorted, before_last, offer_all, started, settled, insert_bounded,
}
use conntop.ConnectionList.Keys.Insert.{StrictWeak, has-append}
use conntop.ConnectionList.Keys.Offer.{settled-offer_all, settled-insert_bounded}
use conntop.ConnectionList.{Item, Listing, key_less, fill, new_item}
use conntop.ConnectionList.Operations.{add_data, remove, handle_removed_connection}
use conntop.ConnectionList.Cursor.{set_target_size}
use conntop.ConnectionList.Shown.{keys, limit, stored, Framed, key_less-Framed, limit-Framed}
use conntop.ConnectionList.Filled.{Framed-fill}
use conntop.ConnectionList.View.{View, size, filled, erase_key}
use conntop.ConnectionList.View.Filling.{IsSound, sound, has-all, sorted-started}
use conntop.ConnectionList.Views.{view, view-fill, view-add_data}
use conntop.ConnectionList.Sorting.{key_less-StrictWeak}
use conntop.ConnectionList.Valid.{Valid}
use conntop.ConnectionList.Ordered.{InOrder, data_at-add, key_less-agree, sorted-elsewhere}
use conntop.ConnectionList.Ordered.Moves.{set_sort_mode-InOrder}

-- Every connection of the storage is shown, or as many as the window reaches are and it does not come
-- before the last of them.
abbrev pub IsFirst : Listing → Type 0
IsFirst l =
    (c : Connection)
    → has c (stored l.storage.connection_map) ≡ true
    → settled (key_less l) (limit l) c (keys l.list) ≡ true

pub settled-filled :
    (less : Connection → Connection → Bool) (v : View)
    → StrictWeak less
    → IsSound v
    → sorted less v.shown ≡ true
    → size v < v.target_size
    → (c : Connection) → has c v.stored ≡ true
    → settled less (v.scroll_offset + v.target_size) c (filled less v).shown ≡ true
unfolding settled
settled-filled less v weak h p q c i = ground (
  arith,
  i,
  q,
  settled-offer_all less weak (v.scroll_offset + v.target_size) c v.stored
      (started v.stored v.shown),
  sorted-started less v.stored v.shown p,
  has-all v.shown v.stored c h.shown_once h.shown_stored,
)

pub fill-IsFirst :
    (l : Listing) → IsSound (view l) → InOrder l → size (view l) < l.target_size → IsFirst (fill l)
fill-IsFirst l h p q c i =
    let f = Framed-fill l in
    let shown : keys (fill l).list ≡ (filled (key_less l) (view l)).shown =
      ap (λ (v : View). v.shown) (view-fill l) in
    let kept : stored (fill l).storage.connection_map ≡ stored l.storage.connection_map =
      ap (λ (v : View). v.stored) (view-fill l) in
    rw (key_less-Framed l (fill l) f, limit-Framed l (fill l) f, shown)
      (settled-filled (key_less l) (view l) (key_less-StrictWeak l) h p q c
        (sym (ap (has c) kept) ∙ i))
