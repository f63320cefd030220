-- ===== src/ConnectionList/Valid/Steering.antt =====
-- What the user does keeps a list valid. Source/ConnectionList.cpp.
use conntop.Prelude.{
  ℕ, zero, suc, ◌+◌, ◌-◌, ◌≤◌, ◌≡◌, sym, ◌∙◌, Bool, true, ◌&&◌, List, [], ◌∷◌, some, ltb,
  if◌then◌else◌, length, get_elem?, ℤ, pos, negsuc, arith,
}
use conntop.Connection.{Connection}
use conntop.Connection.Names.{connection_eq_iff}
use conntop.Storage.{connection_count}
use conntop.ConnectionList.Sort.{SortMode}
use conntop.ConnectionList.Keys.{has}
use conntop.ConnectionList.{Listing, key_less, get_cursor_max_pos}
use conntop.ConnectionList.Cursor.{
  get_next_update, scroll_up, scroll_down, do_scroll, put_cursor, move_up, move_down, move_cursor,
  init_connection_detail, set_target_size, set_sort_mode,
}
use conntop.ConnectionList.Shown.{keys, stored, length-keys}
use conntop.ConnectionList.View.{View, IsValid, size}
use conntop.ConnectionList.View.Moves.{
  scrolled_up-IsValid, scrolled_down-IsValid, restarted-IsValid, retargeted-IsValid,
}
use conntop.ConnectionList.Views.{view}
use conntop.ConnectionList.Steered.{
  view-put_cursor, view-scroll_up, view-scroll_down, view-set_target_size, view-set_sort_mode,
  view-get_next_update, get_elem?-keys,
}
use conntop.ConnectionList.Valid.{Valid, IsValid-by, IsValid-if, Valid-if}

pub get_next_update-Valid : (l : Listing) → Valid l → Valid (get_next_update l).1
get_next_update-Valid l h = IsValid-by (view-get_next_update l) h

pub set_sort_mode-Valid :
    (mode : SortMode) (is_ascending : Bool) (l : Listing)
    → Valid l
    → Valid (set_sort_mode mode is_ascending l)
set_sort_mode-Valid mode is_ascending l h =
    let l' = record l { sort_mode = mode; is_sort_ascending = is_ascending } in
    IsValid-by (view-set_sort_mode mode is_ascending l)
      (IsValid-if _ _ _ (λ _. h) (λ _. restarted-IsValid (key_less l') (view l) h))

pub set_target_size-Valid : (n : ℕ) (l : Listing) → Valid l → Valid (set_target_size n l)
set_target_size-Valid n l h =
    IsValid-by (view-set_target_size n l)
      (IsValid-if _ _ _ (λ _. h) (λ _. retargeted-IsValid (key_less l) (view l) h n))

-- The cursor may stand on any row of the window.
pub put_cursor-IsValid :
    (n : ℕ) (v : View) → n ≤ size v - 1 → IsValid v → IsValid (record v { cursor_pos = n })
put_cursor-IsValid n v p h = record {
  stored_once = h.stored_once;
  shown_once = h.shown_once;
  shown_stored = h.shown_stored;
  fits = h.fits;
  complete = h.complete;
  cursor = p;
  detail_stored = h.detail_stored;
}

put_cursor-Valid : (n : ℕ) (l : Listing) → n ≤ size (view l) - 1 → Valid l → Valid (put_cursor n l)
put_cursor-Valid n l p h = IsValid-by (view-put_cursor n l) (put_cursor-IsValid n (view l) p h)

scroll_up-Valid : (n : ℕ) (l : Listing) → Valid l → Valid (scroll_up n l)
scroll_up-Valid n l h =
    let by = if ltb l.scroll_offset n then l.scroll_offset else n in
    IsValid-by (view-scroll_up n l)
      (IsValid-if _ _ _ (λ _. scrolled_up-IsValid by (view l) (ground arith) h) (λ _. h))

scroll_down-Valid : (n : ℕ) (l : Listing) → Valid l → Valid (scroll_down n l)
scroll_down-Valid n l h =
    let rest = length (stored l.storage.connection_map) - length (keys l.list) in
    let by = if ltb rest n then rest else n in
    IsValid-by (view-scroll_down n l) (
      IsValid-if _ _ _ (λ _. scrolled_down-IsValid (key_less l) (view l) h by (ground arith))
        (λ _. h))

pub do_scroll-Valid : (n : ℤ) (l : Listing) → Valid l → Valid (do_scroll n l)
unfolding do_scroll
do_scroll-Valid (negsuc n) l h = scroll_up-Valid (suc n) l h
do_scroll-Valid (pos zero) l h = h
do_scroll-Valid (pos (suc n)) l h = scroll_down-Valid (suc n) l h

move_up-Valid : (n : ℕ) (l : Listing) → Valid l → Valid (move_up n l)
unfolding move_up
move_up-Valid n l h =
    let top = record l { cursor_pos = 0 } in
    let row = l.cursor_pos - (if ltb l.cursor_pos n then l.cursor_pos else n) in
    let higher = if ltb 0 l.cursor_pos then put_cursor row l else l in
    let h' : Valid higher =
      Valid-if (ltb 0 l.cursor_pos) (put_cursor row l) l
        (λ _. put_cursor-Valid row l (ground (arith, h.cursor)) h) (λ _. h) in
    Valid-if (ltb l.cursor_pos n && ltb 0 l.scroll_offset) (scroll_up (n - l.cursor_pos) top) higher
      (λ _. scroll_up-Valid (n - l.cursor_pos) top (put_cursor-IsValid 0 (view l) (omega arith) h))
      (λ _. h')

move_down-Valid : (n : ℕ) (l : Listing) → Valid l → Valid (move_down n l)
unfolding move_down
move_down-Valid n l h =
    let max_pos = get_cursor_max_pos l in
    let max_amount = max_pos - l.cursor_pos in
    let bottom = record l { cursor_pos = max_pos } in
    let row = l.cursor_pos + (if ltb max_amount n then max_amount else n) in
    let lower = if ltb l.cursor_pos max_pos then put_cursor row l else l in
    let counted = length-keys l.list in
    let h' : Valid lower =
      Valid-if (ltb l.cursor_pos max_pos) (put_cursor row l) l
        (λ _. put_cursor-Valid row l (ground (arith, h.cursor, counted)) h) (λ _. h) in
    Valid-if (ltb max_amount n && ltb (length l.list) (connection_count l.storage))
      (scroll_down (n - max_amount) bottom) lower
      (λ _.
        scroll_down-Valid (n - max_amount) bottom
          (put_cursor-IsValid max_pos (view l) (ground (arith, counted)) h))
      (λ _. h')

pub move_cursor-Valid : (n : ℤ) (l : Listing) → Valid l → Valid (move_cursor n l)
unfolding move_cursor
move_cursor-Valid (negsuc n) l h = move_up-Valid (suc n) l h
move_cursor-Valid (pos zero) l h = h
move_cursor-Valid (pos (suc n)) l h = move_down-Valid (suc n) l h

has-get_elem? :
    (n : ℕ) (c : Connection) (ks : List Connection) → get_elem? ks n ≡ some c → has c ks ≡ true
unfolding has
has-get_elem? n c [] p = ground arith
has-get_elem? zero c (k ∷ ks) p = ground (arith, connection_eq_iff k c)
has-get_elem? (suc n) c (k ∷ ks) p = ground (arith, has-get_elem? n c ks)

pub init_connection_detail-Valid : (l : Listing) → Valid l → Valid (init_connection_detail l)
unfolding init_connection_detail
init_connection_detail-Valid l h = record {
  stored_once = h.stored_once;
  shown_once = h.shown_once;
  shown_stored = h.shown_stored;
  fits = h.fits;
  complete = h.complete;
  cursor = h.cursor;
  detail_stored = λ c p. h.shown_stored c (
      has-get_elem? (l.scroll_offset + l.cursor_pos) c (keys l.list)
        (sym (get_elem?-keys (l.scroll_offset + l.cursor_pos) l.list) ∙ p));
}
