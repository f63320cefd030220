-- ===== src/ConnectionList/Steered.antt =====
-- The view of a `ConnectionList` after what the user does to its window, cursor and order.
-- Source/ConnectionList.cpp.
use conntop.Prelude.{
  ℕ, zero, suc, ◌+◌, ◌-◌, ◌≡◌, refl, ap, ◌∙◌, Bool, true, ◌&&◌, List, [], ◌∷◌, none, some, ltb,
  ◌==◌, if◌then◌else◌, length, get_elem?, arith,
}
use conntop.Storage.{connection_count}
use conntop.ConnectionList.Sort.{SortMode}
use conntop.ConnectionList.Keys.{without_last}
use conntop.ConnectionList.{Item, Listing, key_less, get_size, invalidate_all_visible, fill}
use conntop.ConnectionList.Operations.{invalidate_cursor}
use conntop.ConnectionList.Cursor.{
  pop_times, next_update, get_next_update, scroll_up, scroll_down, put_cursor, set_target_size,
  set_sort_mode, same_flag, mode_rank,
}
use conntop.ConnectionList.Shown.{keys, stored, length-keys, keys-without_last}
use conntop.ConnectionList.Filled.{length-stored}
use conntop.ConnectionList.View.{
  View, pop, filled, scrolled_up, scrolled_down, restarted, retargeted,
}
use conntop.ConnectionList.Views.{
  view, view-fill, view-invalidate_cursor, view-invalidate_all_visible, view-clamp_cursor,
}

pub keys-pop_times : (n : ℕ) (is : List Item) → keys (pop_times n is) ≡ pop n (keys is)
unfolding pop_times
keys-pop_times zero is = refl
keys-pop_times (suc n) is = keys-pop_times n (without_last is) ∙ ap (pop n) (keys-without_last is)

pub view-put_cursor :
    (n : ℕ) (l : Listing) → view (put_cursor n l) ≡ record (view l) { cursor_pos = n }
view-put_cursor n l =
    view-invalidate_cursor (record (invalidate_cursor l) { cursor_pos = n })
    ∙ ap (λ (v : View). record v { cursor_pos = n }) (view-invalidate_cursor l)

-- Up, by no more than the window is down.
pub view-scroll_up :
    (n : ℕ) (l : Listing)
    → view (scroll_up n l) ≡ (
        let by = if ltb l.scroll_offset n then l.scroll_offset else n in
        if ltb 0 by then scrolled_up by (view l) else view l)
unfolding scroll_up
view-scroll_up n l =
    let by = if ltb l.scroll_offset n then l.scroll_offset else n in
    let l' = record l { scroll_offset = l.scroll_offset - by } in
    let k = get_size l' - l'.target_size in
    let popped = record l' { list = pop_times k l'.list } in
    ground (arith, view-invalidate_all_visible popped, keys-pop_times k l.list, length-keys l.list)

-- Down, by no more than there are connections outside the list.
pub view-scroll_down :
    (n : ℕ) (l : Listing)
    → view (scroll_down n l) ≡ (
        let rest = length (stored l.storage.connection_map) - length (keys l.list) in
        let by = if ltb rest n then rest else n in
        if ltb 0 by then scrolled_down (key_less l) by (view l) else view l)
unfolding scroll_down invalidate_all_visible connection_count key_less
view-scroll_down n l =
    let rest = length l.storage.connection_map - length l.list in
    let by = if ltb rest n then rest else n in
    let l' = record l { scroll_offset = l.scroll_offset + by } in
    let of_view : View → View = filled (key_less l) in
    let moved : view (fill (invalidate_all_visible l')) ≡ scrolled_down (key_less l) by (view l) =
      view-fill (invalidate_all_visible l') ∙ ap of_view (view-invalidate_all_visible l') in
    ground (arith, moved, length-keys l.list, length-stored l.storage.connection_map)

pub view-set_target_size :
    (n : ℕ) (l : Listing)
    → view (set_target_size n l)
      ≡ (if l.target_size == n then view l else retargeted (key_less l) n (view l))
unfolding set_target_size key_less
view-set_target_size n l =
    let l₁ = record l { target_size = n } in
    let k = get_size l₁ - n in
    let popped = record l₁ { list = pop_times k l₁.list; is_refresh_required = true } in
    ground (
      arith,
      view-clamp_cursor popped,
      view-clamp_cursor (fill l₁),
      view-clamp_cursor l₁,
      view-fill l₁,
      keys-pop_times k l.list,
      length-keys l.list,
    )

pub view-set_sort_mode :
    (mode : SortMode) (is_ascending : Bool) (l : Listing)
    → let l' = record l { sort_mode = mode; is_sort_ascending = is_ascending } in
      view (set_sort_mode mode is_ascending l) ≡ (
        if mode_rank l.sort_mode == mode_rank mode && same_flag l.is_sort_ascending is_ascending
        then view l
        else restarted (key_less l') (view l))
unfolding set_sort_mode key_less
view-set_sort_mode mode is_ascending l =
    let l' = record l { sort_mode = mode; is_sort_ascending = is_ascending; list = [] } in
    ground (arith, view-fill l')

keys-next_update :
    (skipped row : ℕ) (is : List Item) → keys (next_update skipped row is).1 ≡ keys is
unfolding next_update
keys-next_update skipped row [] = refl
keys-next_update (suc n) row (i ∷ is) = ap (◌∷◌ i.connection) (keys-next_update n row is)
keys-next_update zero row (i ∷ is) = ground (arith, keys-next_update zero (row + 1) is)

pub view-get_next_update : (l : Listing) → view (get_next_update l).1 ≡ view l
unfolding get_next_update
view-get_next_update l = ground (arith, keys-next_update l.scroll_offset 0 l.list)

pub get_elem?-keys :
    (n : ℕ) (is : List Item)
    → (elim (get_elem? is n) [ none ↦ none | some i ↦ some i.connection ]) ≡ get_elem? (keys is) n
get_elem?-keys n [] = refl
get_elem?-keys zero (i ∷ is) = refl
get_elem?-keys (suc n) (i ∷ is) = get_elem?-keys n is
