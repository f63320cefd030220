-- ===== src/ConnectionList/Valid/Updating.antt =====
-- `ConnectionList::update` keeps a list valid. Source/ConnectionList.cpp.
use conntop.Prelude.{
  ℕ, zero, suc, ◌≡◌, refl, ap, true, false, List, [], ◌∷◌, Option, none, some, if◌then◌else◌, arith,
}
use conntop.Connection.{Connection, ConnectionData}
use conntop.ConnectionList.Keys.{has}
use conntop.ConnectionList.{Item, Listing, StdSort, sort}
use conntop.ConnectionList.Operations.{
  position, mark_at, mark_visible, is_sort_required, update_item, is_detail, update_data,
}
use conntop.ConnectionList.Shown.{keys, stored}
use conntop.ConnectionList.Views.{view}
use conntop.ConnectionList.Sorting.{IsSort}
use conntop.ConnectionList.Valid.{
  Valid, IsValid-by, Valid-if, insert_item-Valid, fill-Valid, sort-Valid,
}

keys-mark_at : (n flags : ℕ) (is : List Item) → keys (mark_at n flags is) ≡ keys is
unfolding mark_at
keys-mark_at n flags [] = refl
keys-mark_at zero flags (i ∷ is) = refl
keys-mark_at (suc n) flags (i ∷ is) = ap (◌∷◌ i.connection) (keys-mark_at n flags is)

pub view-mark_visible : (i flags : ℕ) (l : Listing) → view (mark_visible i flags l) ≡ view l
unfolding mark_visible
view-mark_visible i flags l = ground (arith, keys-mark_at i flags l.list)

pub position-absent :
    (c : Connection) (is : List Item) → position c is ≡ none → has c (keys is) ≡ false
unfolding position has
position-absent c [] h = refl
position-absent c (i ∷ is) h = ground (arith, position-absent c is)

update_item-Valid :
    {S : StdSort}
    → IsSort S
    → (c : Connection) (flags : ℕ) (o : Option ℕ) (l : Listing)
    → has c (stored l.storage.connection_map) ≡ true
    → position c l.list ≡ o
    → Valid l
    → Valid (update_item S c flags o l)
unfolding update_item
update_item-Valid law c flags none l p q h =
    Valid-if _ _ _ (λ _. insert_item-Valid c l p (position-absent c l.list q) h) (λ _. h)
update_item-Valid {S} law c flags (some i) l p q h =
    let l₁ = mark_visible i flags l in
    let h₁ : Valid l₁ = IsValid-by (view-mark_visible i flags l) h in
    let l₂ = if is_sort_required i l₁ then sort S l₁ else l₁ in
    let h₂ : Valid l₂ = Valid-if _ _ _ (λ _. sort-Valid law l₁ h₁) (λ _. h₁) in
    Valid-if _ _ _ (λ _. fill-Valid l₂ h₂) (λ _. h₂)

-- The flags of the detail change, if anything does.
detailed : (c : Connection) (flags : ℕ) → Listing → Listing
detailed c flags l =
    if is_detail c l then record l { connection_detail_update_flags = flags } else l

pub update_data-Valid :
    {S : StdSort}
    → IsSort S
    → (d : ConnectionData) (flags : ℕ) (l : Listing)
    → has d.connection (stored l.storage.connection_map) ≡ true
    → Valid l
    → Valid (update_data S d flags l)
unfolding update_data detailed
update_data-Valid law d flags l p h =
    let l' = detailed d.connection flags l in
    let same : view l' ≡ view l = ground arith in
    let h' : Valid l' = IsValid-by same h in
    Valid-if _ _ _ (λ _. h')
      (λ _.
        update_item-Valid law d.connection flags (position d.connection l'.list) l'
          (ground (arith, p)) refl h')
