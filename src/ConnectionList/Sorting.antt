-- ===== src/ConnectionList/Sorting.antt =====
-- What a `ConnectionList` relies on of `std::sort`: the items are permuted, and are in order for a
-- strict weak order. Source/ConnectionList.cpp.
use conntop.Prelude.{suc, ◌≡◌, refl, sym, ap, ◌∙◌, Bool, true, List, [], ◌∷◌, length, arith}
use mathlib.Core.List.{Perm, Permᴰ}
use mathlib.Core.Logic.{∥∥₁_elim}
use conntop.Connection.{Connection}
use conntop.Connection.Names.{connection_eq_iff}
use conntop.ConnectionList.Sort.Order.{compare_func-StrictWeak}
use conntop.ConnectionList.Keys.Insert.{StrictWeak}
use conntop.ConnectionList.Keys.{has, distinct, none_before, sorted}
use conntop.ConnectionList.{Item, Listing, StdSort, key_less, item_less, sort}
use conntop.ConnectionList.Shown.{keys, keys-invalidate_from}

pub record IsSort (S : StdSort) : Type 0 where
  pub perm : (less : Item → Item → Bool) (is : List Item) → Perm (S.sort less is) is
  pub in_order :
      (less : Item → Item → Bool) (is : List Item)
      → StrictWeak less
      → sorted less (S.sort less is) ≡ true

has-permuted :
    (c : Connection) {is js : List Item} → Permᴰ is js → has c (keys is) ≡ has c (keys js)
unfolding has
has-permuted c Permᴰ.nil = refl
has-permuted c (Permᴰ.cons p q) = ground (arith, p, has-permuted c q)
has-permuted c (Permᴰ.swap p q) = ground (arith, p, q)
has-permuted c (Permᴰ.trans p q) = has-permuted c p ∙ has-permuted c q

distinct-permuted : {is js : List Item} → Permᴰ is js → distinct (keys is) ≡ distinct (keys js)
unfolding distinct has
distinct-permuted Permᴰ.nil = refl
distinct-permuted (Permᴰ.cons {a = a} p q) =
    ground (arith, p, distinct-permuted q, has-permuted a.connection q)
distinct-permuted (Permᴰ.swap {a = a} {b = b} p q) = ground (
  arith,
  p,
  q,
  connection_eq_iff a.connection b.connection,
  connection_eq_iff b.connection a.connection,
)
distinct-permuted (Permᴰ.trans p q) = distinct-permuted p ∙ distinct-permuted q

length-permuted : {is js : List Item} → Permᴰ is js → length (keys is) ≡ length (keys js)
length-permuted Permᴰ.nil = refl
length-permuted (Permᴰ.cons p q) = ap suc (length-permuted q)
length-permuted (Permᴰ.swap p q) = refl
length-permuted (Permᴰ.trans p q) = length-permuted p ∙ length-permuted q

module _ {S : StdSort} (law : IsSort S) (l : Listing) where
  pub has-sort : (c : Connection) → has c (keys (sort S l).list) ≡ has c (keys l.list)
  unfolding sort
  has-sort c =
      ap (has c) (keys-invalidate_from _ _)
      ∙ ∥∥₁_elim (law.perm (item_less l) l.list) (hlevel) (has-permuted c)

  pub distinct-sort : distinct (keys (sort S l).list) ≡ distinct (keys l.list)
  unfolding sort
  distinct-sort =
      ap distinct (keys-invalidate_from _ _)
      ∙ ∥∥₁_elim (law.perm (item_less l) l.list) (hlevel) distinct-permuted

  pub length-sort : length (keys (sort S l).list) ≡ length (keys l.list)
  unfolding sort
  length-sort =
      ap length (keys-invalidate_from _ _)
      ∙ ∥∥₁_elim (law.perm (item_less l) l.list) (hlevel) length-permuted

-- The order of the items is that of their connections.
none_before-keys :
    (less : Connection → Connection → Bool) (i : Item) (is : List Item)
    → none_before (λ a b. less a.connection b.connection) i is
      ≡ none_before less i.connection (keys is)
unfolding none_before
none_before-keys less i [] = refl
none_before-keys less i (j ∷ js) = ground (arith, none_before-keys less i js)

sorted-keys :
    (less : Connection → Connection → Bool) (is : List Item)
    → sorted (λ a b. less a.connection b.connection) is ≡ sorted less (keys is)
unfolding sorted
sorted-keys less [] = refl
sorted-keys less (i ∷ is) = ground (arith, sorted-keys less is, none_before-keys less i is)

pub key_less-StrictWeak : (l : Listing) → StrictWeak (key_less l)
unfolding key_less
key_less-StrictWeak l a b c h =
    compare_func-StrictWeak l.names l.sort_mode l.is_sort_ascending _ _ _ h

pub sorted-sort :
    {S : StdSort} → IsSort S → (l : Listing) → sorted (key_less l) (keys (sort S l).list) ≡ true
unfolding sort
sorted-sort {S} law l =
    ap (sorted (key_less l)) (keys-invalidate_from _ _)
    ∙ sym (sorted-keys (key_less l) (S.sort (item_less l) l.list))
    ∙ law.in_order (item_less l) l.list
        (λ a b c. key_less-StrictWeak l a.connection b.connection c.connection)
