-- ===== src/ConnectionList/Cursor.antt =====
-- What the terminal user interface does with a `ConnectionList`: its window, its cursor, its order,
-- and the items to be redrawn. Source/ConnectionList.hpp and Source/ConnectionList.cpp. The amounts
-- and sizes are taken to fit an `int`, and the negative of the least one is not taken.
use conntop.Prelude.{
  ℕ, zero, suc, ◌+◌, ◌-◌, ◌*◌, ◌/◌, ℤ, pos, negsuc, Bool, true, false, not, ◌&&◌, List, [], ◌∷◌,
  Option, none, some, ltb, ◌==◌, if◌then◌else◌, length, get_elem?,
}
use conntop.Connection.{Connection}
use conntop.Storage.{connection_count}
use conntop.ConnectionList.Sort.{
  SortMode, unsorted, proto, proto_state, src_address, dst_address, src_hostname, dst_hostname,
  src_asn, dst_asn, src_country, dst_country, src_port, dst_port, src_service, dst_service,
  rx_packets, tx_packets, rx_bytes, tx_bytes, rx_speed, tx_speed,
}
use conntop.ConnectionList.Keys.{without_last}
use conntop.ConnectionList.{
  Item, Listing, all_flags, get_size, get_cursor_max_pos, invalidate_all_visible, fill,
}
use conntop.ConnectionList.Operations.{invalidate_cursor, clamp_cursor}

-- A `ConnectionListUpdate` that is not empty.
pub record ListUpdate : Type 0 where
  pub connection : Connection
  pub update_flags : ℕ
  pub row_number : ℕ
  pub is_cursor : Bool

-- The loop of `getNextUpdate`: the first of the items from an index on that is to be redrawn, with
-- its row, and the items after that.
unfoldable pub next_update : ℕ → ℕ → List Item → Option (Item × ℕ) × List Item
next_update skipped row [] = (none, [])
next_update (suc n) row (i ∷ is) = let rest = next_update n row is in (rest.0, i ∷ rest.1)
next_update zero row (i ∷ is) =
    let rest = next_update zero (row + 1) is in
    if i.is_refresh_required
    then (some (i, row), record i { is_refresh_required = false; update_flags = 0 } ∷ is)
    else (rest.0, i ∷ rest.1)

unfoldable pub get_next_update : Listing → Option ListUpdate × Listing
get_next_update l =
    let (found, items) = next_update l.scroll_offset 0 l.list in
    if l.is_refresh_required
    then elim found [
      | none ↦ (none, record l { is_refresh_required = false })
      | some p ↦ (
        some (record {
          connection = (p.0).connection;
          update_flags = (p.0).update_flags;
          row_number = p.1;
          is_cursor = p.1 == l.cursor_pos;
        }),
        record l { list = items },
      )
    ]
    else (none, l)

-- As many times `pop_back`.
unfoldable pub pop_times : ℕ → List Item → List Item
pop_times zero is = is
pop_times (suc n) is = pop_times n (without_last is)

unfoldable pub scroll_up : ℕ → Listing → Listing
scroll_up amount l =
    let amount' = if ltb l.scroll_offset amount then l.scroll_offset else amount in
    let l' = record l { scroll_offset = l.scroll_offset - amount' } in
    if ltb 0 amount'
    then invalidate_all_visible
        (record l' { list = pop_times (get_size l' - l'.target_size) l'.list })
    else l

unfoldable pub scroll_down : ℕ → Listing → Listing
scroll_down amount l =
    let max_amount = connection_count l.storage - length l.list in
    let amount' = if ltb max_amount amount then max_amount else amount in
    if ltb 0 amount'
    then fill (invalidate_all_visible (record l { scroll_offset = l.scroll_offset + amount' }))
    else l

unfoldable pub do_scroll : ℤ → Listing → Listing
do_scroll (negsuc n) l = scroll_up (suc n) l
do_scroll (pos zero) l = l
do_scroll (pos (suc n)) l = scroll_down (suc n) l

-- The cursor moves between two invalidations.
abbrev pub put_cursor : ℕ → Listing → Listing
put_cursor n l = invalidate_cursor (record (invalidate_cursor l) { cursor_pos = n })

unfoldable pub move_up : ℕ → Listing → Listing
move_up amount l =
    if ltb l.cursor_pos amount && ltb 0 l.scroll_offset
    then scroll_up (amount - l.cursor_pos) (record l { cursor_pos = 0 })
    else if ltb 0 l.cursor_pos
    then put_cursor (l.cursor_pos - (if ltb l.cursor_pos amount then l.cursor_pos else amount)) l
    else l

-- The cursor is never beyond its last position, so `maxAmount` is not negative.
unfoldable pub move_down : ℕ → Listing → Listing
move_down amount l =
    let max_pos = get_cursor_max_pos l in
    let max_amount = max_pos - l.cursor_pos in
    if ltb max_amount amount && ltb (length l.list) (connection_count l.storage)
    then scroll_down (amount - max_amount) (record l { cursor_pos = max_pos })
    else if ltb l.cursor_pos max_pos
    then put_cursor (l.cursor_pos + (if ltb max_amount amount then max_amount else amount)) l
    else l

unfoldable pub move_cursor : ℤ → Listing → Listing
move_cursor (negsuc n) l = move_up (suc n) l
move_cursor (pos zero) l = l
move_cursor (pos (suc n)) l = move_down (suc n) l

unfoldable pub init_connection_detail : Listing → Listing
init_connection_detail l = record l {
  connection_detail = elim (get_elem? l.list (l.scroll_offset + l.cursor_pos)) [
    | none ↦ none
    | some i ↦ some i.connection
  ];
  connection_detail_update_flags = all_flags;
}

unfoldable pub reset_connection_detail_refresh : Listing → Listing
reset_connection_detail_refresh l = record l { connection_detail_update_flags = 0 }

unfoldable pub set_target_size : ℕ → Listing → Listing
set_target_size size l =
    let l₁ = record l { target_size = size } in
    let l₂ =
      if ltb size (get_size l₁)
      then record l₁ { list = pop_times (get_size l₁ - size) l₁.list; is_refresh_required = true }
      else if ltb (get_size l₁) size
      then fill l₁
      else l₁ in
    if l.target_size == size then l else clamp_cursor l₂

-- The places of the enumerators in `EConnectionSortMode`.
abbrev pub mode_rank : SortMode → ℕ
mode_rank unsorted = 0
mode_rank proto = 1
mode_rank proto_state = 2
mode_rank src_address = 3
mode_rank src_hostname = 4
mode_rank src_asn = 5
mode_rank src_country = 6
mode_rank src_port = 7
mode_rank src_service = 8
mode_rank dst_address = 9
mode_rank dst_hostname = 10
mode_rank dst_asn = 11
mode_rank dst_country = 12
mode_rank dst_port = 13
mode_rank dst_service = 14
mode_rank rx_packets = 15
mode_rank tx_packets = 16
mode_rank rx_bytes = 17
mode_rank tx_bytes = 18
mode_rank rx_speed = 19
mode_rank tx_speed = 20

abbrev pub same_flag : Bool → Bool → Bool
same_flag true b = b
same_flag false b = not b

unfoldable pub set_sort_mode : SortMode → Bool → Listing → Listing
set_sort_mode mode is_ascending l =
    let l' = record l { sort_mode = mode; is_sort_ascending = is_ascending; list = [] } in
    if mode_rank l.sort_mode == mode_rank mode && same_flag l.is_sort_ascending is_ascending
    then l
    else record (fill l') { is_refresh_required = true }

-- In tenths of a percent; -1 when nothing has been asked for.
unfoldable pub get_resolved_percentage : Listing → ℤ
get_resolved_percentage l =
    if ltb 0 l.data_total_count
    then pos ((l.data_resolved_count * 1000) / l.data_total_count)
    else negsuc 0
