-- ===== src/ConnectionList/Ordered/Moves.antt =====
-- The items of a list are in order after a removal and after what the user does. Source/ConnectionList.cpp.
use conntop.Prelude.{
  ℕ, zero, suc, ◌+◌, ◌-◌, ◌≡◌, refl, sym, ap, ◌∙◌, Bool, true, false, ◌&&◌, List, [], Option, none,
  some, ltb, ◌==◌, if◌then◌else◌, length, ℤ, pos, negsuc, subst, arith,
}
use conntop.Connection.{Connection, ConnectionData}
use conntop.Connection.Names.{connection_eq_iff}
use conntop.Storage.{find_connection, remove_connection, connection_count}
use conntop.Storage.Laws.{find-connection}
use conntop.ConnectionList.Sort.{SortMode}
use conntop.ConnectionList.Keys.{has, sorted}
use conntop.ConnectionList.{
  Listing, key_less, fill, get_size, get_cursor_max_pos, invalidate_all_visible,
}
use conntop.ConnectionList.Operations.{
  remove, handle_removed_connection, clamp_cursor, invalidate_cursor,
}
use conntop.ConnectionList.Cursor.{
  get_next_update, scroll_up, scroll_down, do_scroll, put_cursor, move_up, move_down, move_cursor,
  set_target_size, set_sort_mode, pop_times, mode_rank, same_flag,
}
use conntop.ConnectionList.Shown.{keys, stored}
use conntop.ConnectionList.View.{
  View, size, erase_key, without_detail, clamp, filled, removed, scrolled_up,
}
use conntop.ConnectionList.View.Steps.{has-erase_key}
use conntop.ConnectionList.Views.{view, stored-find, view-clamp_cursor, view-invalidate_all_visible}
use conntop.ConnectionList.Moved.{view-remove}
use conntop.ConnectionList.Steered.{
  view-scroll_up, view-get_next_update, view-put_cursor, keys-pop_times,
}
use conntop.ConnectionList.Sorting.{key_less-StrictWeak}
use conntop.ConnectionList.Valid.{Valid}
use conntop.ConnectionList.Ordered.{InOrder, fill-InOrder, data_at-remove, sorted-elsewhere}
use conntop.ConnectionList.Ordered.Updating.{InOrder-same, InOrder-if}
use conntop.ConnectionList.Ordered.Steering.{
  Kept, Kept-trans, key_less-Kept, Kept-fill, Kept-invalidate_cursor, Kept-clamp_cursor,
  Kept-handle_removed_connection, sorted-pop, sorted-erase_key, sorted-clamp, sorted-filled,
  InOrder-view,
}

Kept-invalidate_all_visible : (l : Listing) → Kept l (invalidate_all_visible l)
unfolding invalidate_all_visible
Kept-invalidate_all_visible l = refl

pub Kept-put_cursor : (n : ℕ) (l : Listing) → Kept l (put_cursor n l)
Kept-put_cursor n l =
    let l₁ = invalidate_cursor l in
    let l₂ = record l₁ { cursor_pos = n } in
    Kept-trans l l₁ (invalidate_cursor l₂) (Kept-invalidate_cursor l)
      (Kept-trans l₁ l₂ (invalidate_cursor l₂) refl (Kept-invalidate_cursor l₂))

pub Kept-if : (b : Bool) (l m n : Listing) → Kept l m → Kept l n → Kept l (if b then m else n)
Kept-if true l m n p q = p
Kept-if false l m n p q = q

pub Kept-scroll_up : (n : ℕ) (l : Listing) → Kept l (scroll_up n l)
unfolding scroll_up invalidate_all_visible
Kept-scroll_up n l = Kept-if _ l _ l refl refl

pub Kept-scroll_down : (n : ℕ) (l : Listing) → Kept l (scroll_down n l)
unfolding scroll_down invalidate_all_visible
Kept-scroll_down n l =
    let rest = connection_count l.storage - length l.list in
    let by = if ltb rest n then rest else n in
    let m = invalidate_all_visible (record l { scroll_offset = l.scroll_offset + by }) in
    Kept-if (ltb 0 by) l (fill m) l (Kept-trans l m (fill m) refl (Kept-fill m)) refl

pub Kept-set_target_size : (n : ℕ) (l : Listing) → Kept l (set_target_size n l)
unfolding set_target_size
Kept-set_target_size n l =
    let l₁ = record l { target_size = n } in
    let k = get_size l₁ - n in
    let popped = record l₁ { list = pop_times k l₁.list; is_refresh_required = true } in
    let grown = if ltb (get_size l₁) n then fill l₁ else l₁ in
    let l₂ = if ltb n (get_size l₁) then popped else grown in
    let kept_grown : Kept l grown =
      Kept-if (ltb (get_size l₁) n) l (fill l₁) l₁ (Kept-trans l l₁ (fill l₁) refl (Kept-fill l₁))
        refl in
    let kept : Kept l l₂ = Kept-if (ltb n (get_size l₁)) l popped grown refl kept_grown in
    Kept-if (l.target_size == n) l l (clamp_cursor l₂) refl
      (Kept-trans l l₂ (clamp_cursor l₂) kept (Kept-clamp_cursor l₂))

pub put_cursor-InOrder : (n : ℕ) (l : Listing) → InOrder l → InOrder (put_cursor n l)
put_cursor-InOrder n l h =
    InOrder-view (put_cursor n l) (record (view l) { cursor_pos = n }) (key_less l)
      (view-put_cursor n l) (key_less-Kept l (put_cursor n l) (Kept-put_cursor n l)) h

pub clamp_cursor-InOrder : (l : Listing) → InOrder l → InOrder (clamp_cursor l)
clamp_cursor-InOrder l h =
    InOrder-view (clamp_cursor l) (clamp (view l)) (key_less l) (view-clamp_cursor l)
      (key_less-Kept l (clamp_cursor l) (Kept-clamp_cursor l))
      (sorted-clamp (key_less l) (view l) h)

scroll_up-InOrder : (n : ℕ) (l : Listing) → InOrder l → InOrder (scroll_up n l)
scroll_up-InOrder n l h =
    let by = if ltb l.scroll_offset n then l.scroll_offset else n in
    let v = if ltb 0 by then scrolled_up by (view l) else view l in
    let v' : View = record (view l) { scroll_offset = l.scroll_offset - by } in
    InOrder-view (scroll_up n l) v (key_less l) (view-scroll_up n l)
      (key_less-Kept l (scroll_up n l) (Kept-scroll_up n l))
      (ground (arith, h, sorted-pop (key_less l) (size v' - v'.target_size) (keys l.list) h))

scroll_down-InOrder : (n : ℕ) (l : Listing) → InOrder l → InOrder (scroll_down n l)
unfolding scroll_down invalidate_all_visible key_less
scroll_down-InOrder n l h =
    let rest = connection_count l.storage - length l.list in
    let by = if ltb rest n then rest else n in
    let l' = record l { scroll_offset = l.scroll_offset + by } in
    let h' : InOrder (invalidate_all_visible l') =
      InOrder-same l' (invalidate_all_visible l') refl
        (ap (λ (v : View). v.shown) (view-invalidate_all_visible l')) h in
    InOrder-if (ltb 0 by) (fill (invalidate_all_visible l')) l
      (λ _. fill-InOrder (invalidate_all_visible l') h') (λ _. h)

pub do_scroll-InOrder : (n : ℤ) (l : Listing) → InOrder l → InOrder (do_scroll n l)
unfolding do_scroll
do_scroll-InOrder (negsuc n) l h = scroll_up-InOrder (suc n) l h
do_scroll-InOrder (pos zero) l h = h
do_scroll-InOrder (pos (suc n)) l h = scroll_down-InOrder (suc n) l h

move_up-InOrder : (n : ℕ) (l : Listing) → InOrder l → InOrder (move_up n l)
unfolding move_up key_less
move_up-InOrder n l h =
    let top = record l { cursor_pos = 0 } in
    let row = l.cursor_pos - (if ltb l.cursor_pos n then l.cursor_pos else n) in
    let higher = if ltb 0 l.cursor_pos then put_cursor row l else l in
    let h' : InOrder higher =
      InOrder-if (ltb 0 l.cursor_pos) (put_cursor row l) l (λ _. put_cursor-InOrder row l h)
        (λ _. h) in
    InOrder-if (ltb l.cursor_pos n && ltb 0 l.scroll_offset) (scroll_up (n - l.cursor_pos) top)
      higher (λ _. scroll_up-InOrder (n - l.cursor_pos) top h) (λ _. h')

move_down-InOrder : (n : ℕ) (l : Listing) → InOrder l → InOrder (move_down n l)
unfolding move_down key_less
move_down-InOrder n l h =
    let max_pos = get_cursor_max_pos l in
    let max_amount = max_pos - l.cursor_pos in
    let bottom = record l { cursor_pos = max_pos } in
    let row = l.cursor_pos + (if ltb max_amount n then max_amount else n) in
    let lower = if ltb l.cursor_pos max_pos then put_cursor row l else l in
    let h' : InOrder lower =
      InOrder-if (ltb l.cursor_pos max_pos) (put_cursor row l) l (λ _. put_cursor-InOrder row l h)
        (λ _. h) in
    InOrder-if (ltb max_amount n && ltb (length l.list) (connection_count l.storage))
      (scroll_down (n - max_amount) bottom) lower
      (λ _. scroll_down-InOrder (n - max_amount) bottom h) (λ _. h')

pub move_cursor-InOrder : (n : ℤ) (l : Listing) → InOrder l → InOrder (move_cursor n l)
unfolding move_cursor
move_cursor-InOrder (negsuc n) l h = move_up-InOrder (suc n) l h
move_cursor-InOrder (pos zero) l h = h
move_cursor-InOrder (pos (suc n)) l h = move_down-InOrder (suc n) l h

pub set_target_size-InOrder : (n : ℕ) (l : Listing) → InOrder l → InOrder (set_target_size n l)
unfolding set_target_size key_less
set_target_size-InOrder n l h =
    let l₁ = record l { target_size = n } in
    let k = get_size l₁ - n in
    let popped = record l₁ { list = pop_times k l₁.list; is_refresh_required = true } in
    let grown = if ltb (get_size l₁) n then fill l₁ else l₁ in
    let l₂ = if ltb n (get_size l₁) then popped else grown in
    let shown : InOrder popped =
      ap (sorted (key_less l)) (keys-pop_times k l.list)
      ∙ sorted-pop (key_less l) k (keys l.list) h in
    let h₂ : InOrder l₂ =
      InOrder-if (ltb n (get_size l₁)) popped grown (λ _. shown)
        (λ _. InOrder-if (ltb (get_size l₁) n) (fill l₁) l₁ (λ _. fill-InOrder l₁ h) (λ _. h)) in
    InOrder-if (l.target_size == n) l (clamp_cursor l₂) (λ _. h) (λ _. clamp_cursor-InOrder l₂ h₂)

pub set_sort_mode-InOrder :
    (mode : SortMode) (is_ascending : Bool) (l : Listing)
    → InOrder l
    → InOrder (set_sort_mode mode is_ascending l)
unfolding set_sort_mode sorted key_less
set_sort_mode-InOrder mode is_ascending l h =
    let l' = record l { sort_mode = mode; is_sort_ascending = is_ascending; list = [] } in
    let is_same =
      mode_rank l.sort_mode == mode_rank mode && same_flag l.is_sort_ascending is_ascending in
    InOrder-if is_same l (record (fill l') { is_refresh_required = true }) (λ _. h)
      (λ _. fill-InOrder l' refl)

pub get_next_update-InOrder : (l : Listing) → InOrder l → InOrder (get_next_update l).1
unfolding get_next_update
get_next_update-InOrder l h =
    InOrder-view (get_next_update l).1 (view l) (key_less l) (view-get_next_update l)
      (key_less-Kept l (get_next_update l).1 (ground arith)) h

pub remove-unknown :
    (c : Connection) (l : Listing)
    → find_connection c l.storage.connection_map ≡ none
    → remove c l ≡ l
unfolding remove remove_connection
remove-unknown c l p = ground (arith, p)

abbrev pub without_entry : Connection → Listing → Listing
without_entry c l = record l { storage = (remove_connection c l.storage).1 }

pub remove-known :
    (c : Connection) (d : ConnectionData) (l : Listing)
    → find_connection c l.storage.connection_map ≡ some d
    → remove c l ≡ handle_removed_connection c (without_entry c l)
unfolding remove remove_connection
remove-known c d l p = ground (arith, p, find-connection c l.storage.connection_map d p)

pub remove-InOrder : (c : Connection) (l : Listing) → Valid l → InOrder l → InOrder (remove c l)
remove-InOrder c l v h = by_entry (find_connection c l.storage.connection_map) refl
  where
    m : Listing
    m = without_entry c l

    ks : List Connection
    ks = erase_key c (keys l.list)

    gone : has c ks ≡ false
    gone = ground (arith, has-erase_key c c (keys l.list), connection_eq_iff c c)

    rest : sorted (key_less m) ks ≡ true
    rest =
        sorted-elsewhere l m.storage c ks (λ a i. data_at-remove c a l.storage i) gone
        ∙ sorted-erase_key (key_less l) c (keys l.list) h

    by_entry :
        (o : Option ConnectionData)
        → find_connection c l.storage.connection_map ≡ o
        → InOrder (remove c l)
    by_entry none p = subst InOrder (sym (remove-unknown c l p)) h
    by_entry (some d) p =
        let kept : key_less (remove c l) ≡ key_less m =
          ap key_less (remove-known c d l p)
          ∙ key_less-Kept m (handle_removed_connection c m) (Kept-handle_removed_connection c m) in
        let stored_one : has c (stored l.storage.connection_map) ≡ true =
          ground (arith, p, stored-find c l.storage.connection_map) in
        let v' : View = record (view l) {
          stored = erase_key c (stored l.storage.connection_map);
          shown = ks;
          detail = without_detail c l.connection_detail;
        } in
        let left : view (remove c l) ≡ removed (key_less m) c (view l) =
          ground (arith, stored_one, view-remove c l v.shown_once) in
        InOrder-view (remove c l) (removed (key_less m) c (view l)) (key_less m) left kept (
          sorted-clamp (key_less m) (filled (key_less m) v')
            (sorted-filled (key_less m) (key_less-StrictWeak m) v' rest))
