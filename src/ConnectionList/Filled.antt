-- ===== src/ConnectionList/Filled.antt =====
-- The connections that a `ConnectionList` shows after `fill`. Source/ConnectionList.cpp.
use conntop.Prelude.{
  suc, ◌≡◌, refl, ap, Bool, not, ◌||◌, List, [], ◌∷◌, leb, if◌then◌else◌, length, arith,
}
use conntop.Connection.{ConnectionData}
use conntop.Storage.{connection_count}
use conntop.ConnectionList.Keys.{offer_all, started}
use conntop.ConnectionList.{
  Item, Listing, key_less, get_size, fill_loop, fill_start, fill, is_empty,
}
use conntop.ConnectionList.Shown.{
  keys, limit, stored, Framed, Framed-trans, Framed-fill_loop, keys-fill_loop, key_less-Framed,
  limit-Framed,
}

Framed-fill_start : (ds : List ConnectionData) (l : Listing) → Framed l (fill_start ds l)
unfolding fill_start
Framed-fill_start [] l = refl
Framed-fill_start (d ∷ ds) l = ground arith

keys-fill_start :
    (ds : List ConnectionData) (l : Listing)
    → keys (fill_start ds l).list ≡ started (stored ds) (keys l.list)
unfolding fill_start started is_empty
keys-fill_start [] l = refl
keys-fill_start (d ∷ ds) l = by_items l.list refl
  where
    by_items :
        (is : List Item)
        → l.list ≡ is
        → keys (fill_start (d ∷ ds) l).list ≡ started (stored (d ∷ ds)) (keys l.list)
    by_items [] p = ground arith
    by_items (i ∷ is) p = ground arith

pub length-stored : (ds : List ConnectionData) → length (stored ds) ≡ length ds
length-stored [] = refl
length-stored (d ∷ ds) = ap suc (length-stored ds)

pub Framed-fill : (l : Listing) → Framed l (fill l)
unfolding fill
Framed-fill l =
    let ds = l.storage.connection_map in
    let l' = fill_start ds l in
    ground
      (arith, Framed-trans l l' (fill_loop ds l') (Framed-fill_start ds l) (Framed-fill_loop ds l'))

-- The list is filled when it is to have more than it has, and the storage has more.
abbrev pub is_fillable : Listing → Bool
is_fillable l =
    not (leb l.target_size (get_size l) || leb (connection_count l.storage) (length l.list))

pub keys-fill :
    (l : Listing)
    → let cs = stored l.storage.connection_map in
      keys (fill l).list ≡ (
        if is_fillable l
        then offer_all (key_less l) (limit l) cs (started cs (keys l.list))
        else keys l.list)
unfolding fill
keys-fill l =
    let ds = l.storage.connection_map in
    let m = fill_start ds l in
    let p = Framed-fill_start ds l in
    let target : m.target_size ≡ l.target_size = ap (λ (k : Listing). k.target_size) p in
    ground (
      arith,
      keys-fill_loop ds m,
      keys-fill_start ds l,
      key_less-Framed l m p,
      limit-Framed l m p,
      target,
    )
