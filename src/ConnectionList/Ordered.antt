-- ===== src/ConnectionList/Ordered.antt =====
-- The items of a `ConnectionList` stay in order. Source/ConnectionList.cpp.
pub mod Updating
pub mod Steering
pub mod Moves
pub mod Resolving
use conntop.Prelude.{
  ℕ, zero, suc, ◌+◌, ◌-◌, ◌≤◌, ◌≡◌, refl, sym, ap, ◌∙◌, Bool, true, false, not, ◌&&◌, ◌||◌, List,
  [], ◌∷◌, ◌++◌, Option, none, some, ltb, leb, if◌then◌else◌, length, subst, arith,
}
use conntop.Connection.{Connection, ConnectionData, connection_eq}
use conntop.Connection.Names.{connection_eq_iff}
use conntop.Storage.{
  Storage, find_connection, erase, get_connection, add_connection, remove_connection, write,
}
use conntop.Storage.Laws.{find-erase, find-assign, connection_eq_refl}
use conntop.ConnectionList.Keys.{
  has, distinct, none_before, sorted, before_last, offer_all, started, insert_bounded, settled,
}
use conntop.ConnectionList.Keys.Insert.{StrictWeak, sorted-append, sorted-without_last}
use conntop.ConnectionList.Keys.Offer.{sorted-insert_bounded, sorted-offer_all, settled-offer_all}
use conntop.ConnectionList.Keys.Agree.{sorted-agree}
use conntop.ConnectionList.{
  Item, Listing, StdSort, new_item, key_less, data_at, sort, insert_item, fill, get_size,
}
use conntop.ConnectionList.Operations.{write_data, add_data}
use conntop.ConnectionList.Shown.{
  keys, limit, stored, Framed, Framed-insert_item, keys-insert_item, key_less-Framed,
}
use conntop.ConnectionList.Filled.{is_fillable, Framed-fill, keys-fill}
use conntop.ConnectionList.View.{View, IsValid, size, erase_key, pop, filled, entered}
use conntop.ConnectionList.View.Filling.{sorted-started}
use conntop.ConnectionList.Views.{view}
use conntop.ConnectionList.Sorting.{IsSort, key_less-StrictWeak, sorted-sort}
use conntop.ConnectionList.Valid.{Valid}

abbrev pub InOrder : Listing → Type 0
InOrder l = sorted (key_less l) (keys l.list) ≡ true

pub InOrder-Framed :
    (l m : Listing) → Framed l m → sorted (key_less l) (keys m.list) ≡ true → InOrder m
InOrder-Framed l m p h =
    subst (λ less. sorted less (keys m.list) ≡ true) (sym (key_less-Framed l m p)) h

pub insert_item-InOrder : (x : Item) (l : Listing) → InOrder l → InOrder (insert_item x l)
insert_item-InOrder x l h = InOrder-Framed l (insert_item x l) (Framed-insert_item x l) (
    ap (sorted (key_less l)) (keys-insert_item x l)
    ∙ sorted-insert_bounded (key_less l) (key_less-StrictWeak l) (limit l) x.connection
        (keys l.list) h)

pub sorted-fill : (l : Listing) → InOrder l → sorted (key_less l) (keys (fill l).list) ≡ true
sorted-fill l h =
    let cs = stored l.storage.connection_map in
    ground (
      arith,
      h,
      keys-fill l,
      sorted-started (key_less l) cs (keys l.list),
      sorted-offer_all (key_less l) (key_less-StrictWeak l) (limit l) cs (started cs (keys l.list)),
    )

pub fill-InOrder : (l : Listing) → InOrder l → InOrder (fill l)
fill-InOrder l h = InOrder-Framed l (fill l) (Framed-fill l) (sorted-fill l h)

pub sort-InOrder : {S : StdSort} → IsSort S → (l : Listing) → InOrder (sort S l)
unfolding sort key_less
sort-InOrder law l = sorted-sort law l

-- The data of other connections are not touched by an assignment.
pub data_at-write :
    (d : ConnectionData) (c : Connection) (s : Storage)
    → connection_eq c d.connection ≡ false
    → data_at c (write d s) ≡ data_at c s
unfolding data_at get_connection write
data_at-write d c s h = ground (
  arith,
  find-assign d c s.connection_map,
  connection_eq_iff d.connection c,
  connection_eq_iff c d.connection,
)

pub data_at-add :
    (d : ConnectionData) (c : Connection) (s : Storage)
    → connection_eq c d.connection ≡ false
    → data_at c (add_connection d s).2 ≡ data_at c s
unfolding data_at get_connection add_connection find_connection
data_at-add d c s h =
    ground (arith, connection_eq_iff d.connection c, connection_eq_iff c d.connection)

pub data_at-remove :
    (k c : Connection) (s : Storage)
    → connection_eq c k ≡ false
    → data_at c (remove_connection k s).1 ≡ data_at c s
unfolding data_at get_connection remove_connection
data_at-remove k c s h =
    ground (arith, find-erase k c s.connection_map, connection_eq_iff k c, connection_eq_iff c k)

-- Two connections compare as before when their data are as before.
pub key_less-agree :
    (l : Listing) (s : Storage) (a b : Connection)
    → data_at a s ≡ data_at a l.storage
    → data_at b s ≡ data_at b l.storage
    → key_less (record l { storage = s }) a b ≡ key_less l a b
unfolding key_less
key_less-agree l s a b p q = rw (p, q)

-- What is not the connection of some data is in a list that does not have it.
differs :
    (a c : Connection) (ks : List Connection)
    → has a ks ≡ true
    → has c ks ≡ false
    → connection_eq a c ≡ false
differs a c ks p q = ground (arith, p, q, connection_eq_iff a c)

pub sorted-elsewhere :
    (l : Listing) (s : Storage) (c : Connection) (ks : List Connection)
    → ((a : Connection) → connection_eq a c ≡ false → data_at a s ≡ data_at a l.storage)
    → has c ks ≡ false
    → sorted (key_less (record l { storage = s })) ks ≡ sorted (key_less l) ks
sorted-elsewhere l s c ks p q =
    sorted-agree (key_less l) (key_less (record l { storage = s })) ks
      (λ a b i j. key_less-agree l s a b (p a (differs a c ks i q)) (p b (differs b c ks j q)))
