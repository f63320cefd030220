-- ===== src/ConnectionList/Ordered/Updating.antt =====
-- Adding, changing and removing a connection keeps the items of a list in order.
-- Source/ConnectionList.cpp.
use conntop.Prelude.{
  ℕ, ◌+◌, ◌-◌, ◌≡◌, refl, sym, ap, ◌∙◌, Bool, true, false, not, ◌&&◌, List, [], ◌∷◌, Option, none,
  some, ltb, leb, if◌then◌else◌, subst, arith,
}
use conntop.Connection.{Connection, ConnectionData}
use conntop.Storage.{find_connection, add_connection}
use conntop.ConnectionList.Keys.{has, sorted}
use conntop.ConnectionList.Keys.Insert.{sorted-append}
use conntop.ConnectionList.Keys.Agree.{place, misplaced, sorted-placed}
use conntop.ConnectionList.{
  Item, Listing, StdSort, new_item, key_less, item_less, is_empty, before_back, sort, insert_item,
  push_back, fill, get_size, get_list_begin_index,
}
use conntop.ConnectionList.Operations.{
  add_data, handle_new_connection, position, mark_at, mark_visible, less_at, is_sort_required,
  is_fill_required, update_item, update_data, is_detail, write_data,
}
use conntop.ConnectionList.Shown.{keys, length-keys, keys-push_back, before_last-keys}
use conntop.ConnectionList.View.{View}
use conntop.ConnectionList.Views.{before_back-nonempty, stored-find}
use conntop.ConnectionList.Steered.{get_elem?-keys}
use conntop.ConnectionList.Sorting.{IsSort, key_less-StrictWeak}
use conntop.ConnectionList.Valid.{Valid}
use conntop.ConnectionList.Valid.Updating.{view-mark_visible, position-absent}
use conntop.ConnectionList.Ordered.{
  InOrder, insert_item-InOrder, fill-InOrder, sort-InOrder, data_at-write, data_at-add,
  key_less-agree, sorted-elsewhere,
}

pub InOrder-if :
    (b : Bool) (l m : Listing)
    → (b ≡ true → InOrder l)
    → (b ≡ false → InOrder m)
    → InOrder (if b then l else m)
InOrder-if true l m p q = p refl
InOrder-if false l m p q = q refl

pub InOrder-same :
    (l m : Listing) → key_less m ≡ key_less l → keys m.list ≡ keys l.list → InOrder l → InOrder m
InOrder-same l m p q h = rw (p, q) h

push_back-InOrder :
    (c : Connection) (l : Listing)
    → before_back (item_less l) (new_item c) l.list ≡ false
    → InOrder l
    → InOrder (record (push_back (new_item c) l) { is_refresh_required = true })
unfolding key_less
push_back-InOrder c l p h =
    ap (sorted (key_less l)) (keys-push_back (new_item c) l.list)
    ∙ sorted-append (key_less l) (key_less-StrictWeak l) c (keys l.list) h
        (sym (before_last-keys (key_less l) (new_item c) l.list) ∙ p)

handle_new_connection-InOrder :
    (c : Connection) (l : Listing) → InOrder l → InOrder (handle_new_connection c l)
unfolding handle_new_connection
handle_new_connection-InOrder c l h =
    let pushed = record (push_back (new_item c) l) { is_refresh_required = true } in
    let before = before_back (item_less l) (new_item c) l.list in
    let room = ltb (get_size l) l.target_size in
    let last : before ≡ false → InOrder (if room then pushed else l) =
      (λ p. InOrder-if room pushed l (λ _. push_back-InOrder c l p h) (λ _. h)) in
    InOrder-if (not (is_empty l.list) && before) (insert_item (new_item c) l)
      (if room then pushed else l) (λ _. insert_item-InOrder (new_item c) l h)
      (λ p. last (sym (before_back-nonempty (item_less l) (new_item c) l.list) ∙ p))

-- A new connection is entered, and one that is known is left alone.
abbrev pub with_added : ConnectionData → Listing → Listing
with_added d l = record l { storage = (add_connection d l.storage).2 }

pub add_data-new :
    (d : ConnectionData) (l : Listing)
    → find_connection d.connection l.storage.connection_map ≡ none
    → add_data d l ≡ handle_new_connection d.connection (with_added d l)
unfolding add_data add_connection
add_data-new d l p = ground (arith, p)

pub add_data-known :
    (d x : ConnectionData) (l : Listing)
    → find_connection d.connection l.storage.connection_map ≡ some x
    → add_data d l ≡ l
unfolding add_data add_connection
add_data-known d x l p = ground (arith, p)

pub add_data-InOrder :
    (d : ConnectionData) (l : Listing) → Valid l → InOrder l → InOrder (add_data d l)
add_data-InOrder d l v h = by_entry (find_connection d.connection l.storage.connection_map) refl
  where
    c : Connection
    c = d.connection

    by_entry :
        (o : Option ConnectionData)
        → find_connection c l.storage.connection_map ≡ o
        → InOrder (add_data d l)
    by_entry none p =
        let absent : has c (keys l.list) ≡ false =
          ground (arith, v.shown_stored c, stored-find c l.storage.connection_map, p) in
        let h' : InOrder (with_added d l) =
          sorted-elsewhere l (add_connection d l.storage).2 c (keys l.list)
            (λ a i. data_at-add d a l.storage i) absent
          ∙ h in
        subst InOrder (sym (add_data-new d l p))
          (handle_new_connection-InOrder c (with_added d l) h')
    by_entry (some x) p = subst InOrder (sym (add_data-known d x l p)) h

-- The places of an item in the list and of its connection among those shown.
position-keys : (c : Connection) (is : List Item) → position c is ≡ place c (keys is)
unfolding position place
position-keys c [] = refl
position-keys c (i ∷ is) = ground (arith, position-keys c is)

is_sort_required-misplaced :
    (i : ℕ) (l : Listing) → is_sort_required i l ≡ misplaced (key_less l) i (keys l.list)
unfolding is_sort_required less_at
is_sort_required-misplaced i l = ground (
  arith,
  length-keys l.list,
  get_elem?-keys i l.list,
  get_elem?-keys (i - 1) l.list,
  get_elem?-keys (i + 1) l.list,
)

key_less-mark_visible : (i flags : ℕ) (l : Listing) → key_less (mark_visible i flags l) ≡ key_less l
unfolding mark_visible key_less
key_less-mark_visible i flags l =
    elim (leb (get_list_begin_index l) i)
      as (λ b.
        key_less
          (if b then record l { list = mark_at i flags l.list; is_refresh_required = true } else l)
        ≡ key_less l) [ true ↦ refl | false ↦ refl ]

-- What is known of a list in which the data of one connection have changed.
abbrev pub InOrderBut : Connection → Listing → Type 0
InOrderBut c l =
    (has c (keys l.list) ≡ false → InOrder l)
    × ((i : ℕ) → position c l.list ≡ some i → is_sort_required i l ≡ false → InOrder l)

update_item-InOrder :
    {S : StdSort}
    → IsSort S
    → (c : Connection) (flags : ℕ) (o : Option ℕ) (l : Listing) → InOrderBut c l
    → position c l.list ≡ o
    → InOrder (update_item S c flags o l)
unfolding update_item
update_item-InOrder law c flags none l h q =
    let h' : InOrder l = h.0 (position-absent c l.list q) in
    InOrder-if (before_back (item_less l) (new_item c) l.list) (insert_item (new_item c) l) l
      (λ _. insert_item-InOrder (new_item c) l h') (λ _. h')
update_item-InOrder {S} law c flags (some i) l h q =
    let l₁ = mark_visible i flags l in
    let less : key_less l₁ ≡ key_less l = key_less-mark_visible i flags l in
    let shown : keys l₁.list ≡ keys l.list =
      ap (λ (v : View). v.shown) (view-mark_visible i flags l) in
    let l₂ = if is_sort_required i l₁ then sort S l₁ else l₁ in
    let asked : is_sort_required i l₁ ≡ is_sort_required i l =
      is_sort_required-misplaced i l₁ ∙ (rw (less, shown) (sym (is_sort_required-misplaced i l))) in
    let h₂ : InOrder l₂ =
      InOrder-if (is_sort_required i l₁) (sort S l₁) l₁ (λ _. sort-InOrder law l₁)
        (λ p. InOrder-same l l₁ less shown (h.1 i q (sym asked ∙ p))) in
    InOrder-if (is_fill_required i l₁) (fill l₂) l₂ (λ _. fill-InOrder l₂ h₂) (λ _. h₂)

-- Writing the data of a connection leaves the order of all others.
write_data-InOrderBut :
    (d : ConnectionData) (l : Listing)
    → Valid l
    → InOrder l
    → InOrderBut d.connection (write_data d l)
write_data-InOrderBut d l v h =
    let c = d.connection in
    let m = write_data d l in
    (
      (λ p.
          sorted-elsewhere l m.storage c (keys l.list) (λ a i. data_at-write d a l.storage i) p
          ∙ h),
      (λ i p q.
          sorted-placed (key_less l) (key_less m) (key_less-StrictWeak m) c i (keys l.list)
            (λ a b j k.
              key_less-agree l m.storage a b (data_at-write d a l.storage j)
                (data_at-write d b l.storage k))
            v.shown_once (sym (position-keys c l.list) ∙ p)
            (sym (is_sort_required-misplaced i m) ∙ q) h),
    )

-- The detail's flags have no part in the order.
flagged : Connection → ℕ → Listing → Listing
flagged c flags l = if is_detail c l then record l { connection_detail_update_flags = flags } else l

InOrderBut-flagged :
    (c : Connection) (flags : ℕ) (l : Listing) → InOrderBut c l → InOrderBut c (flagged c flags l)
unfolding flagged is_sort_required less_at key_less
InOrderBut-flagged c flags l h = by_test (is_detail c l)
  where
    by_test :
        (b : Bool)
        → InOrderBut c (if b then record l { connection_detail_update_flags = flags } else l)
    by_test true = h
    by_test false = h

absent-empty : (c : Connection) (is : List Item) → is_empty is ≡ true → has c (keys is) ≡ false
unfolding is_empty has
absent-empty c [] p = refl
absent-empty c (i ∷ is) p = ground arith

-- A list is in order again after the data of one of its connections have been assigned and it has
-- been told.
pub change_data-InOrder :
    {S : StdSort}
    → IsSort S
    → (d : ConnectionData) (flags : ℕ) (l : Listing) → Valid l
    → InOrder l
    → InOrder (update_data S d flags (write_data d l))
unfolding update_data flagged
change_data-InOrder {S} law d flags l v h =
    let c = d.connection in
    let m = flagged c flags (write_data d l) in
    let but : InOrderBut c m =
      InOrderBut-flagged c flags (write_data d l) (write_data-InOrderBut d l v h) in
    InOrder-if (is_empty m.list) m (update_item S c flags (position c m.list) m)
      (λ p. but.0 (absent-empty c m.list p))
      (λ _. update_item-InOrder law c flags (position c m.list) m but refl)
