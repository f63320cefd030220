-- ===== src/ConnectionList/Valid/Resolving.antt =====
-- An answer of the resolver keeps a list valid. Source/ConnectionList.cpp.
use conntop.Prelude.{
  ℕ, zero, suc, ◌≡◌, refl, ap, Bool, true, not, ◌&&◌, List, [], ◌∷◌, if◌then◌else◌, arith,
}
use conntop.Connection.{Address, Port, Connection, ConnectionData}
use conntop.Storage.Laws.{connection_eq_refl}
use conntop.ConnectionList.Keys.{has}
use conntop.ConnectionList.{
  Item, Listing, StdSort, new_item, item_less, is_empty, before_back, contains_item, sort,
  insert_item,
}
use conntop.ConnectionList.Resolved.{
  Ends, mark_from, any_end, mark_detail, mark_visible_ends, is_end, offer_step, offer_loop,
  data_updated, ResolvedAddress, ResolvedPort, address_data_updated, port_data_updated,
  resolver_callback_address, resolver_callback_port,
}
use conntop.ConnectionList.Shown.{keys, stored, Framed, Framed-insert_item, has-keys}
use conntop.ConnectionList.Views.{view}
use conntop.ConnectionList.Sorting.{IsSort}
use conntop.ConnectionList.Valid.{Valid, IsValid-by, Valid-if, insert_item-Valid, sort-Valid}

keys-mark_from : (e : Ends) (n : ℕ) (is : List Item) → keys (mark_from e n is) ≡ keys is
unfolding mark_from
keys-mark_from e n [] = refl
keys-mark_from e zero (i ∷ is) = ground (arith, keys-mark_from e zero is)
keys-mark_from e (suc n) (i ∷ is) = ap (◌∷◌ i.connection) (keys-mark_from e n is)

pub view-mark_detail : (e : Ends) (l : Listing) → view (mark_detail e l) ≡ view l
unfolding mark_detail
view-mark_detail e l = ground arith

pub view-mark_visible_ends : (e : Ends) (l : Listing) → view (mark_visible_ends e l) ≡ view l
unfolding mark_visible_ends
view-mark_visible_ends e l =
    ap (λ ks. record (view l) { shown = ks }) (keys-mark_from e l.scroll_offset l.list)

pub Framed-offer_step : (e : Ends) (c : Connection) (l : Listing) → Framed l (offer_step e c l)
unfolding offer_step
Framed-offer_step e c l = ground (arith, Framed-insert_item (new_item c) l)

offer_step-Valid :
    (e : Ends) (c : Connection) (l : Listing)
    → has c (stored l.storage.connection_map) ≡ true
    → Valid l
    → Valid (offer_step e c l)
unfolding offer_step
offer_step-Valid e c l p h =
    Valid-if
      (is_end e c && before_back (item_less l) (new_item c) l.list && not (contains_item c l.list))
      (insert_item (new_item c) l) l
      (λ q. insert_item-Valid c l p (ground (arith, q, has-keys c l.list)) h) (λ _. h)

offer_loop-Valid :
    (e : Ends) (ds : List ConnectionData) (l : Listing)
    → ((c : Connection) → has c (stored ds) ≡ true → has c (stored l.storage.connection_map) ≡ true)
    → Valid l
    → Valid (offer_loop e ds l)
unfolding offer_loop has
offer_loop-Valid e [] l p h = h
offer_loop-Valid e (d ∷ ds) l p h =
    let m = offer_step e d.connection l in
    let kept : m.storage ≡ l.storage =
      ap (λ (n : Listing). n.storage) (Framed-offer_step e d.connection l) in
    let first : has d.connection (stored l.storage.connection_map) ≡ true =
      p d.connection (ground (arith, connection_eq_refl d.connection)) in
    offer_loop-Valid e ds m (λ c q. ground (arith, kept, p c, q))
      (offer_step-Valid e d.connection l first h)

data_updated-Valid :
    {S : StdSort}
    → IsSort S
    → (e : Ends) (affects_order : Bool) (l : Listing) → Valid l
    → Valid (data_updated S e affects_order l)
unfolding data_updated
data_updated-Valid {S} law e affects_order l h =
    let l₁ = mark_detail e l in
    let l₂ = mark_visible_ends e l₁ in
    let l₃ = if any_end e l₁.list then sort S l₂ else l₂ in
    let h₁ : Valid l₁ = IsValid-by (view-mark_detail e l) h in
    let h₂ : Valid l₂ = IsValid-by (view-mark_visible_ends e l₁) h₁ in
    let h₃ : Valid l₃ = Valid-if _ _ _ (λ _. sort-Valid law l₂ h₂) (λ _. h₂) in
    let done = offer_loop e l₃.storage.connection_map l₃ in
    let ordered = if affects_order then done else l₂ in
    let h₄ : Valid ordered =
      Valid-if affects_order done l₂
        (λ _. offer_loop-Valid e l₃.storage.connection_map l₃ (λ c q. q) h₃) (λ _. h₂) in
    Valid-if (is_empty l₁.list) l₁ ordered (λ _. h₁) (λ _. h₄)

module _ {S : StdSort} (law : IsSort S) where
  pub resolver_callback_address-Valid :
      (a : Address) (r : ResolvedAddress) (l : Listing)
      → Valid l
      → Valid (resolver_callback_address S a r l)
  unfolding resolver_callback_address address_data_updated
  resolver_callback_address-Valid a r l h = data_updated-Valid law _ _ _ h

  pub resolver_callback_port-Valid :
      (p : Port) (r : ResolvedPort) (l : Listing) → Valid l → Valid (resolver_callback_port S p r l)
  unfolding resolver_callback_port port_data_updated
  resolver_callback_port-Valid p r l h = data_updated-Valid law _ _ _ h
