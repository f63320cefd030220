-- ===== src/Tests/ListModel.antt =====
-- An insertion sort as the `std::sort` of a connection list.
use conntop.Prelude.{◌≡◌, refl, Bool, true, false, List, [], ◌∷◌, if◌then◌else◌}
use mathlib.Core.List.{Perm}
use mathlib.Core.List.Perm
use conntop.ConnectionList.{Item, StdSort}
use conntop.ConnectionList.Keys.{sorted, insert}
use conntop.ConnectionList.Keys.Insert.{StrictWeak, sorted-insert}
use conntop.ConnectionList.Sorting.{IsSort}

unfoldable pub sorted_by : (Item → Item → Bool) → List Item → List Item
sorted_by less [] = []
sorted_by less (i ∷ is) = insert less i (sorted_by less is)

abbrev pub insertion_sort : StdSort
insertion_sort = record { sort = sorted_by }

Perm-if :
    (b : Bool) {is js ks : List Item} → Perm is ks → Perm js ks → Perm (if b then is else js) ks
Perm-if true p q = p
Perm-if false p q = q

insert-perm :
    (less : Item → Item → Bool) (x : Item) (is : List Item) → Perm (insert less x is) (x ∷ is)
unfolding insert
insert-perm less x [] = Perm.rfl
insert-perm less x (i ∷ is) =
    Perm-if (less x i) Perm.rfl
      (Perm.trans (Perm.cons i (insert-perm less x is)) (Perm.swap x i is))

sorted_by-perm : (less : Item → Item → Bool) (is : List Item) → Perm (sorted_by less is) is
unfolding sorted_by
sorted_by-perm less [] = Perm.rfl
sorted_by-perm less (i ∷ is) =
    Perm.trans (insert-perm less i (sorted_by less is)) (Perm.cons i (sorted_by-perm less is))

sorted_by-sorted :
    (less : Item → Item → Bool) (is : List Item)
    → StrictWeak less
    → sorted less (sorted_by less is) ≡ true
unfolding sorted_by sorted
sorted_by-sorted less [] weak = refl
sorted_by-sorted less (i ∷ is) weak =
    sorted-insert less weak i (sorted_by less is) (sorted_by-sorted less is weak)

pub insertion_sort-IsSort : IsSort insertion_sort
insertion_sort-IsSort = record { perm = sorted_by-perm; in_order = sorted_by-sorted }
