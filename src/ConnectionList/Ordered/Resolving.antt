-- ===== src/ConnectionList/Ordered/Resolving.antt =====
-- An answer of the resolver keeps the items of a list in order. Source/ConnectionList.cpp.
use conntop.Prelude.{
  ◌≡◌, refl, ap, ◌∙◌, Bool, true, false, not, ◌&&◌, ◌||◌, List, [], ◌∷◌, Option, none, some,
  if◌then◌else◌, arith,
}
use conntop.Connection.{Address, Port, Connection, ConnectionData}
use conntop.Connection.Names.{connection_eq_iff}
use conntop.Storage.{Storage, find_connection, get_connection}
use conntop.Storage.Laws.{find-connection}
use conntop.ConnectionList.Sort.{
  SortMode, unsorted, proto, proto_state, src_address, dst_address, src_hostname, dst_hostname,
  src_asn, dst_asn, src_country, dst_country, src_port, dst_port, src_service, dst_service,
  rx_packets, tx_packets, rx_bytes, tx_bytes, rx_speed, tx_speed, Names, address_less, ascending,
  compare_func,
}
use conntop.ConnectionList.Keys.{has}
use conntop.ConnectionList.Keys.Agree.{sorted-agree}
use conntop.ConnectionList.{
  Item, Listing, StdSort, new_item, item_less, key_less, data_at, is_empty, before_back,
  contains_item, sort, insert_item,
}
use conntop.ConnectionList.Resolved.{
  Ends, is_end, address_ends, port_ends, any_end, mark_detail, mark_visible_ends, offer_step,
  offer_loop, data_updated, address_affects_order, port_affects_order, ResolvedAddress,
  ResolvedPort, resolved_address_names, resolved_port_names, address_data_updated,
  port_data_updated, resolver_callback_address, resolver_callback_port,
}
use conntop.ConnectionList.Shown.{keys}
use conntop.ConnectionList.View.{View}
use conntop.ConnectionList.Sorting.{IsSort}
use conntop.ConnectionList.Valid.Resolving.{view-mark_detail, view-mark_visible_ends}
use conntop.ConnectionList.Ordered.{InOrder, insert_item-InOrder, sort-InOrder}
use conntop.ConnectionList.Ordered.Updating.{InOrder-same, InOrder-if}
use conntop.ConnectionList.Ordered.Steering.{Kept, key_less-Kept}

data_at-connection : (c : Connection) (s : Storage) → (data_at c s).connection ≡ c
unfolding data_at get_connection
data_at-connection c s = by_entry (find_connection c s.connection_map) refl
  where
    by_entry :
        (o : Option ConnectionData)
        → find_connection c s.connection_map ≡ o
        → (data_at c s).connection ≡ c
    by_entry none p = ground (arith, p)
    by_entry (some d) p = ground (arith, p, find-connection c s.connection_map d p)

-- With other names two connections compare as before, where the mode does not ask for them or they
-- are those of no end of either.
abbrev Agrees : Ends → Bool → Names → Names → SortMode → Type 0
Agrees e affects_order n m mode =
    (x y : ConnectionData)
    → (affects_order && (is_end e x.connection || is_end e y.connection)) ≡ false
    → ascending m mode x y ≡ ascending n mode x y

address-Agrees :
    (a : Address) (r : ResolvedAddress) (n : Names) (mode : SortMode)
    → Agrees (address_ends a) (address_affects_order mode) n (resolved_address_names a r n) mode
unfolding ascending resolved_address_names address_less
address-Agrees a r n unsorted x y p = refl
address-Agrees a r n proto x y p = refl
address-Agrees a r n proto_state x y p = refl
address-Agrees a r n src_address x y p = refl
address-Agrees a r n dst_address x y p = refl
address-Agrees a r n src_hostname x y p = ground (arith, p)
address-Agrees a r n dst_hostname x y p = ground (arith, p)
address-Agrees a r n src_asn x y p = ground (arith, p)
address-Agrees a r n dst_asn x y p = ground (arith, p)
address-Agrees a r n src_country x y p = ground (arith, p)
address-Agrees a r n dst_country x y p = ground (arith, p)
address-Agrees a r n src_port x y p = refl
address-Agrees a r n dst_port x y p = refl
address-Agrees a r n src_service x y p = refl
address-Agrees a r n dst_service x y p = refl
address-Agrees a r n rx_packets x y p = refl
address-Agrees a r n tx_packets x y p = refl
address-Agrees a r n rx_bytes x y p = refl
address-Agrees a r n tx_bytes x y p = refl
address-Agrees a r n rx_speed x y p = refl
address-Agrees a r n tx_speed x y p = refl

port-Agrees :
    (q : Port) (r : ResolvedPort) (n : Names) (mode : SortMode)
    → Agrees (port_ends q) (port_affects_order mode) n (resolved_port_names q r n) mode
unfolding ascending resolved_port_names address_less
port-Agrees q r n unsorted x y p = refl
port-Agrees q r n proto x y p = refl
port-Agrees q r n proto_state x y p = refl
port-Agrees q r n src_address x y p = refl
port-Agrees q r n dst_address x y p = refl
port-Agrees q r n src_hostname x y p = refl
port-Agrees q r n dst_hostname x y p = refl
port-Agrees q r n src_asn x y p = refl
port-Agrees q r n dst_asn x y p = refl
port-Agrees q r n src_country x y p = refl
port-Agrees q r n dst_country x y p = refl
port-Agrees q r n src_port x y p = refl
port-Agrees q r n dst_port x y p = refl
port-Agrees q r n src_service x y p = ground (arith, p)
port-Agrees q r n dst_service x y p = ground (arith, p)
port-Agrees q r n rx_packets x y p = refl
port-Agrees q r n tx_packets x y p = refl
port-Agrees q r n rx_bytes x y p = refl
port-Agrees q r n tx_bytes x y p = refl
port-Agrees q r n rx_speed x y p = refl
port-Agrees q r n tx_speed x y p = refl

compare_func-Agrees :
    (e : Ends) (affects_order : Bool) (n m : Names) (mode : SortMode) (is_ascending : Bool)
    → Agrees e affects_order n m mode
    → (x y : ConnectionData)
    → (affects_order && (is_end e x.connection || is_end e y.connection)) ≡ false
    → compare_func m mode is_ascending x y ≡ compare_func n mode is_ascending x y
unfolding compare_func
compare_func-Agrees e affects_order n m mode true h x y p = h x y p
compare_func-Agrees e affects_order n m mode false h x y p = h y x (ground (arith, p))

absent-end :
    (e : Ends) (c : Connection) (is : List Item)
    → any_end e is ≡ false
    → has c (keys is) ≡ true
    → is_end e c ≡ false
unfolding any_end has
absent-end e c [] p q = ground arith
absent-end e c (i ∷ is) p q =
    ground (arith, p, q, absent-end e c is, connection_eq_iff i.connection c)

-- The list is in order unless the mode asks for the names and an item has one of their ends.
abbrev InOrderUnless : Ends → Bool → Listing → Type 0
InOrderUnless e affects_order l = (affects_order && any_end e l.list) ≡ false → InOrder l

abbrev renamed : Names → Listing → Listing
renamed n l = record l { names = n }

renamed-InOrderUnless :
    (e : Ends) (affects_order : Bool) (n : Names) (l : Listing)
    → Agrees e affects_order l.names n l.sort_mode
    → InOrder l
    → InOrderUnless e affects_order (renamed n l)
unfolding key_less
renamed-InOrderUnless e affects_order n l agrees h p =
    sorted-agree (key_less l) (key_less (renamed n l)) (keys l.list) (λ a b i j.
      compare_func-Agrees e affects_order l.names n l.sort_mode l.is_sort_ascending agrees
        (data_at a l.storage) (data_at b l.storage)
        (ground (
          arith,
          p,
          absent-end e a l.list,
          absent-end e b l.list,
          i,
          j,
          data_at-connection a l.storage,
          data_at-connection b l.storage,
        )))
    ∙ h

offer_step-InOrder :
    (e : Ends) (c : Connection) (l : Listing) → InOrder l → InOrder (offer_step e c l)
unfolding offer_step
offer_step-InOrder e c l h =
    InOrder-if
      (is_end e c && before_back (item_less l) (new_item c) l.list && not (contains_item c l.list))
      (insert_item (new_item c) l) l (λ _. insert_item-InOrder (new_item c) l h) (λ _. h)

offer_loop-InOrder :
    (e : Ends) (ds : List ConnectionData) (l : Listing) → InOrder l → InOrder (offer_loop e ds l)
unfolding offer_loop
offer_loop-InOrder e [] l h = h
offer_loop-InOrder e (d ∷ ds) l h =
    offer_loop-InOrder e ds (offer_step e d.connection l) (offer_step-InOrder e d.connection l h)

Kept-mark_detail : (e : Ends) (l : Listing) → Kept l (mark_detail e l)
unfolding mark_detail
Kept-mark_detail e l = ground arith

list-mark_detail : (e : Ends) (l : Listing) → (mark_detail e l).list ≡ l.list
unfolding mark_detail
list-mark_detail e l = ground arith

data_updated-InOrder :
    {S : StdSort}
    → IsSort S
    → (e : Ends) (affects_order : Bool) (l : Listing) → InOrderUnless e affects_order l
    → InOrder (data_updated S e affects_order l)
unfolding data_updated mark_visible_ends key_less any_end is_empty
data_updated-InOrder {S} law e affects_order l h =
    let l₁ = mark_detail e l in
    let l₂ = mark_visible_ends e l₁ in
    let marked : InOrder l → InOrder l₁ =
      InOrder-same l l₁ (key_less-Kept l l₁ (Kept-mark_detail e l))
        (ap (λ (v : View). v.shown) (view-mark_detail e l)) in
    let visible : InOrder l → InOrder l₂ = (λ p.
      InOrder-same l₁ l₂ refl (ap (λ (v : View). v.shown) (view-mark_visible_ends e l₁))
        (marked p)) in
    let has_end = any_end e l₁.list in
    let same : has_end ≡ any_end e l.list = ap (any_end e) (list-mark_detail e l) in
    let l₃ = if has_end then sort S l₂ else l₂ in
    let h₃ : InOrder l₃ =
      InOrder-if has_end (sort S l₂) l₂ (λ _. sort-InOrder law l₂)
        (λ p. visible (h (ground (arith, p, same)))) in
    let done = offer_loop e l₃.storage.connection_map l₃ in
    let ordered = if affects_order then done else l₂ in
    let h₄ : InOrder ordered =
      InOrder-if affects_order done l₂ (λ _. offer_loop-InOrder e l₃.storage.connection_map l₃ h₃)
        (λ p. visible (h (ground (arith, p)))) in
    InOrder-if (is_empty l₁.list) l₁ ordered
      (λ p. marked (h (ground (arith, no_end e l₁.list p, same)))) (λ _. h₄)
  where
    no_end : (e : Ends) (is : List Item) → is_empty is ≡ true → any_end e is ≡ false
    no_end e [] p = refl
    no_end e (i ∷ is) p = ground (arith, p)

module _ {S : StdSort} (law : IsSort S) where
  pub resolver_callback_address-InOrder :
      (a : Address) (r : ResolvedAddress) (l : Listing)
      → InOrder l
      → InOrder (resolver_callback_address S a r l)
  unfolding resolver_callback_address address_data_updated key_less
  resolver_callback_address-InOrder a r l h =
      data_updated-InOrder law (address_ends a) (address_affects_order l.sort_mode) _ (
        renamed-InOrderUnless (address_ends a) (address_affects_order l.sort_mode) _ l
          (address-Agrees a r l.names l.sort_mode) h)

  pub resolver_callback_port-InOrder :
      (q : Port) (r : ResolvedPort) (l : Listing)
      → InOrder l
      → InOrder (resolver_callback_port S q r l)
  unfolding resolver_callback_port port_data_updated key_less
  resolver_callback_port-InOrder q r l h =
      data_updated-InOrder law (port_ends q) (port_affects_order l.sort_mode) _ (
        renamed-InOrderUnless (port_ends q) (port_affects_order l.sort_mode) _ l
          (port-Agrees q r l.names l.sort_mode) h)
