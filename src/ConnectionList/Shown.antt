-- ===== src/ConnectionList/Shown.antt =====
-- The connections that a `ConnectionList` shows after each step of it. Source/ConnectionList.cpp.
use conntop.Prelude.{
  ℕ, zero, suc, ◌+◌, ◌≤◌, ◌≡◌, refl, ap, ◌∙◌, Bool, ◌||◌, List, [], ◌∷◌, ◌++◌, length, take, drop,
  arith,
}
use conntop.Connection.{Connection, ConnectionData, connection_eq}
use conntop.ConnectionList.Keys.{
  has, without_last, before_last, insert, insert_bounded, offer, offer_all,
}
use conntop.ConnectionList.{
  Item, Listing, new_item, key_less, item_less, contains_item, invalidate_from, upper_bound,
  before_back, insert_item, fill_step, fill_loop,
}

-- The connections of items, and of a list.
abbrev pub keys : List Item → List Connection
keys [] = []
keys (i ∷ is) = i.connection ∷ keys is

abbrev pub limit : Listing → ℕ
limit l = l.scroll_offset + l.target_size

-- Nothing has changed but the items, and whether some are to be redrawn.
abbrev pub Framed : Listing → Listing → Type 0
Framed l l' = l' ≡ record l { list = l'.list; is_refresh_required = l'.is_refresh_required }

pub Framed-insert_item : (x : Item) (l : Listing) → Framed l (insert_item x l)
unfolding insert_item
Framed-insert_item x l = ground arith

pub Framed-fill_step : (c : Connection) (l : Listing) → Framed l (fill_step c l)
unfolding fill_step
Framed-fill_step c l = ground (arith, Framed-insert_item (new_item c) l)

pub Framed-trans : (l m n : Listing) → Framed l m → Framed m n → Framed l n
Framed-trans l m n p q =
    let restored : Listing → Listing =
      (λ k. record k { list = n.list; is_refresh_required = n.is_refresh_required }) in
    q ∙ ap restored p

pub keys-invalidate_from : (n : ℕ) (is : List Item) → keys (invalidate_from n is) ≡ keys is
unfolding invalidate_from
keys-invalidate_from n [] = refl
keys-invalidate_from zero (i ∷ is) = ap (◌∷◌ i.connection) (keys-invalidate_from zero is)
keys-invalidate_from (suc n) (i ∷ is) = ap (◌∷◌ i.connection) (keys-invalidate_from n is)

pub length-keys : (is : List Item) → length (keys is) ≡ length is
length-keys [] = refl
length-keys (i ∷ is) = ap suc (length-keys is)

pub has-keys : (c : Connection) (is : List Item) → contains_item c is ≡ has c (keys is)
unfolding contains_item has
has-keys c [] = refl
has-keys c (i ∷ is) = ap (λ b. connection_eq i.connection c || b) (has-keys c is)

pub keys-without_last : (is : List Item) → keys (without_last is) ≡ without_last (keys is)
unfolding without_last
keys-without_last [] = refl
keys-without_last (i ∷ []) = refl
keys-without_last (i ∷ j ∷ js) = ap (◌∷◌ i.connection) (keys-without_last (j ∷ js))

pub keys-push_back :
    (x : Item) (is : List Item) → keys (is ++ x ∷ []) ≡ keys is ++ x.connection ∷ []
keys-push_back x [] = refl
keys-push_back x (i ∷ is) = ap (◌∷◌ i.connection) (keys-push_back x is)

module _ (less : Connection → Connection → Bool) where
  abbrev pub of_items : Item → Item → Bool
  of_items a b = less a.connection b.connection

  pub before_last-keys :
      (x : Item) (is : List Item)
      → before_back of_items x is ≡ before_last less x.connection (keys is)
  unfolding before_back before_last
  before_last-keys x [] = refl
  before_last-keys x (i ∷ []) = refl
  before_last-keys x (i ∷ j ∷ js) = before_last-keys x (j ∷ js)

  pub keys-inserted :
      (x : Item) (is : List Item)
      → let n = upper_bound of_items x is in
        keys (take n is ++ x ∷ drop n is) ≡ insert less x.connection (keys is)
  unfolding upper_bound insert
  keys-inserted x [] = refl
  keys-inserted x (i ∷ is) = ground (arith, keys-inserted x is)

-- The order of the list, and its window, after a step that leaves them alone.
pub key_less-Framed : (l m : Listing) → Framed l m → key_less m ≡ key_less l
unfolding key_less
key_less-Framed l m p = ap key_less p

pub limit-Framed : (l m : Listing) → Framed l m → limit m ≡ limit l
limit-Framed l m p = ap limit p

pub keys-insert_item :
    (x : Item) (l : Listing)
    → keys (insert_item x l).list ≡ insert_bounded (key_less l) (limit l) x.connection (keys l.list)
unfolding insert_item insert_bounded
keys-insert_item x l =
    let n = upper_bound (item_less l) x l.list in
    let items = take n l.list ++ x ∷ drop n l.list in
    keys-invalidate_from _ _
    ∙ ground
        (arith, keys-inserted (key_less l) x l.list, length-keys items, keys-without_last items)

pub keys-fill_step :
    (c : Connection) (l : Listing)
    → 1 ≤ l.target_size
    → keys (fill_step c l).list ≡ offer (key_less l) (limit l) c (keys l.list)
unfolding fill_step offer
keys-fill_step c l h = ground (
  arith,
  before_last-keys (key_less l) (new_item c) l.list,
  has-keys c l.list,
  length-keys l.list,
  keys-insert_item (new_item c) l,
  keys-push_back (new_item c) l.list,
)

abbrev pub stored : List ConnectionData → List Connection
stored [] = []
stored (d ∷ ds) = d.connection ∷ stored ds

pub Framed-fill_loop : (ds : List ConnectionData) (l : Listing) → Framed l (fill_loop ds l)
unfolding fill_loop
Framed-fill_loop [] l = refl
Framed-fill_loop (d ∷ ds) l =
    Framed-trans l (fill_step d.connection l) _ (Framed-fill_step d.connection l)
      (Framed-fill_loop ds (fill_step d.connection l))

pub keys-fill_loop :
    (ds : List ConnectionData) (l : Listing)
    → 1 ≤ l.target_size
    → keys (fill_loop ds l).list ≡ offer_all (key_less l) (limit l) (stored ds) (keys l.list)
unfolding fill_loop offer_all
keys-fill_loop [] l h = refl
keys-fill_loop (d ∷ ds) l h =
    let p = Framed-fill_step d.connection l in
    let m = fill_step d.connection l in
    let target : m.target_size ≡ l.target_size = ap (λ (k : Listing). k.target_size) p in
    ground (
      arith,
      keys-fill_loop ds m,
      key_less-Framed l m p,
      limit-Framed l m p,
      keys-fill_step d.connection l h,
      target,
    )
