-- ===== src/ConnectionList/Ordered/Steering.antt =====
-- Removal and what the user does keep the items of a list in order. Source/ConnectionList.cpp.
use conntop.Prelude.{ℕ, zero, suc, ◌+◌, ◌-◌, ◌≡◌, refl, ap, ◌∙◌, Bool, true, List, [], ◌∷◌, arith}
use conntop.Connection.{Connection}
use conntop.ConnectionList.Keys.{none_before, sorted, started}
use conntop.ConnectionList.Keys.Insert.{StrictWeak, sorted-without_last}
use conntop.ConnectionList.Keys.Offer.{sorted-offer_all}
use conntop.ConnectionList.{Listing, key_less, fill, get_cursor_max_pos}
use conntop.ConnectionList.Operations.{
  handle_removed_connection, forget_detail, erase_from_list, clamp_cursor, invalidate_cursor,
}
use conntop.ConnectionList.Shown.{keys}
use conntop.ConnectionList.Filled.{Framed-fill}
use conntop.ConnectionList.View.{View, size, erase_key, clamp, pop, filled, retargeted}
use conntop.ConnectionList.View.Filling.{sorted-started}
use conntop.ConnectionList.Views.{view}
use conntop.ConnectionList.Ordered.{InOrder}

-- Nothing has changed that the comparison depends on.
abbrev pub Kept : Listing → Listing → Type 0
Kept l m = m ≡ record l {
  list = m.list;
  target_size = m.target_size;
  scroll_offset = m.scroll_offset;
  cursor_pos = m.cursor_pos;
  connection_detail = m.connection_detail;
  connection_detail_update_flags = m.connection_detail_update_flags;
  is_refresh_required = m.is_refresh_required;
}

pub Kept-trans : (l m n : Listing) → Kept l m → Kept m n → Kept l n
Kept-trans l m n p q =
    let restored : Listing → Listing = (λ k. record k {
      list = n.list;
      target_size = n.target_size;
      scroll_offset = n.scroll_offset;
      cursor_pos = n.cursor_pos;
      connection_detail = n.connection_detail;
      connection_detail_update_flags = n.connection_detail_update_flags;
      is_refresh_required = n.is_refresh_required;
    }) in
    q ∙ ap restored p

pub key_less-Kept : (l m : Listing) → Kept l m → key_less m ≡ key_less l
unfolding key_less
key_less-Kept l m p = ap key_less p

pub Kept-fill : (l : Listing) → Kept l (fill l)
Kept-fill l = ground (arith, Framed-fill l)

pub Kept-invalidate_cursor : (l : Listing) → Kept l (invalidate_cursor l)
unfolding invalidate_cursor
Kept-invalidate_cursor l = ground arith

pub Kept-clamp_cursor : (l : Listing) → Kept l (clamp_cursor l)
unfolding clamp_cursor
Kept-clamp_cursor l =
    ground (arith, Kept-invalidate_cursor (record l { cursor_pos = get_cursor_max_pos l }))

Kept-forget_detail : (c : Connection) (l : Listing) → Kept l (forget_detail c l)
unfolding forget_detail
Kept-forget_detail c l = ground arith

Kept-erase_from_list : (c : Connection) (l : Listing) → Kept l (erase_from_list c l)
unfolding erase_from_list
Kept-erase_from_list c l = refl

pub Kept-handle_removed_connection :
    (c : Connection) (l : Listing) → Kept l (handle_removed_connection c l)
unfolding handle_removed_connection
Kept-handle_removed_connection c l =
    let l₁ = forget_detail c l in
    let l₂ = erase_from_list c l₁ in
    let l₃ = fill l₂ in
    let l₄ = clamp_cursor l₃ in
    let l₅ = record l₄ { is_refresh_required = true } in
    Kept-trans l l₁ l₅ (Kept-forget_detail c l) (
      Kept-trans l₁ l₂ l₅ (Kept-erase_from_list c l₁)
        (Kept-trans l₂ l₃ l₅ (Kept-fill l₂) (Kept-trans l₃ l₄ l₅ (Kept-clamp_cursor l₃) refl)))

module _ (less : Connection → Connection → Bool) where
  pub sorted-pop :
      (n : ℕ) (ks : List Connection) → sorted less ks ≡ true → sorted less (pop n ks) ≡ true
  sorted-pop zero ks h = h
  sorted-pop (suc n) ks h = sorted-pop n _ (sorted-without_last less ks h)

  none_before-erase_key :
      (a c : Connection) (ks : List Connection)
      → none_before less a ks ≡ true
      → none_before less a (erase_key c ks) ≡ true
  unfolding none_before erase_key
  none_before-erase_key a c [] h = h
  none_before-erase_key a c (k ∷ ks) h = ground (arith, none_before-erase_key a c ks)

  pub sorted-erase_key :
      (c : Connection) (ks : List Connection)
      → sorted less ks ≡ true
      → sorted less (erase_key c ks) ≡ true
  unfolding sorted erase_key
  sorted-erase_key c [] h = h
  sorted-erase_key c (k ∷ ks) h =
      ground (arith, sorted-erase_key c ks, none_before-erase_key k c ks)

  pub sorted-clamp : (v : View) → sorted less v.shown ≡ true → sorted less (clamp v).shown ≡ true
  sorted-clamp v h = ground (arith, h)

  module _ (weak : StrictWeak less) where
    pub sorted-filled :
        (v : View) → sorted less v.shown ≡ true → sorted less (filled less v).shown ≡ true
    sorted-filled v h = ground (
      arith,
      h,
      sorted-started less v.stored v.shown,
      sorted-offer_all less weak (v.scroll_offset + v.target_size) v.stored
          (started v.stored v.shown),
    )

    pub sorted-retargeted :
        (n : ℕ) (v : View)
        → sorted less v.shown ≡ true
        → sorted less (retargeted less n v).shown ≡ true
    sorted-retargeted n v h =
        let v' : View = record v { target_size = n } in
        ground (arith, h, sorted-pop (size v' - n) v.shown h, sorted-filled v' h)

-- A list whose view and comparison are known.
pub InOrder-view :
    (m : Listing) (v : View) (less : Connection → Connection → Bool)
    → view m ≡ v
    → key_less m ≡ less
    → sorted less v.shown ≡ true
    → InOrder m
InOrder-view m v less p q h =
    let shown : keys m.list ≡ v.shown = ap (λ (w : View). w.shown) p in rw (q, shown) h
