-- ===== src/ConnectionList/Received.antt =====
-- The items of a server's messages, told to the `ConnectionList` of a client. Source/Client.cpp,
-- `Client::onSessionData`, Source/Connection.cpp and Source/ConnectionList.cpp.
use conntop.Prelude.{◌≡◌, ◌∙◌, Bool, true, List, [], ◌∷◌, some, arith}
use conntop.Json.{JsonLib, Result, ok, err}
use conntop.Connection.{Connection, ConnectionData}
use conntop.Connection.Names.{connection_eq_iff}
use conntop.Connection.Serialize.{AddressText, serialize}
use conntop.Connection.Deserialize.Apply.{deserialize}
use conntop.Connection.Deserialize.Apply.Preserved.{Preserves, deserialize-Preserves}
use conntop.Client.{receive_items}
use conntop.Server.Updates.{storage_items}
use conntop.Storage.{Storage, get_connection, write}
use conntop.Storage.Laws.{find-connection, find-assign}
use conntop.ConnectionList.{Listing, StdSort, key_less, data_at}
use conntop.ConnectionList.Keys.Agree.{sorted-agree}
use conntop.ConnectionList.Operations.{callback, find, write_data}
use conntop.ConnectionList.Shown.{keys}
use conntop.ConnectionList.Views.{view}
use conntop.ConnectionList.View.{IsValid}
use conntop.ConnectionList.Valid.{write_data-Valid}
use conntop.ConnectionList.Ordered.{InOrder, key_less-agree}
use conntop.ConnectionList.Sorting.{IsSort}
use conntop.ConnectionList.Reach.{
  Right, Step-Right, address_asked, port_asked, added, changed, removed,
}

-- Writing what is there already changes no look-up.
data_at-rewrite :
    (c k : Connection) (d : ConnectionData) (s : Storage)
    → get_connection c s ≡ some d
    → data_at k (write d s) ≡ data_at k s
unfolding data_at get_connection write
data_at-rewrite c k d s p = ground (
  arith,
  p,
  find-connection c s.connection_map d p,
  find-assign d k s.connection_map,
  connection_eq_iff d.connection k,
)

rewrite-Right :
    (c : Connection) (d : ConnectionData) (l : Listing)
    → find c l ≡ some d
    → Right l
    → Right (write_data d l)
unfolding find
rewrite-Right c d l p h = (
  write_data-Valid d l h.0,
  sorted-agree (key_less l) (key_less (write_data d l)) (keys l.list) (λ a b i j.
        key_less-agree l (write d l.storage) a b (data_at-rewrite c a d l.storage p)
          (data_at-rewrite c b d l.storage p))
      ∙ h.1,
)

find-same :
    (c : Connection) (d d' : ConnectionData) (l : Listing)
    → find c l ≡ some d
    → d'.connection ≡ d.connection
    → find d'.connection l ≡ some d
unfolding find get_connection
find-same c d d' l p q =
    let r : d.connection ≡ c = find-connection c l.storage.connection_map d p in
    ground (arith, p, q, r)

pub callback-Preserves : {S : StdSort} → IsSort S → Preserves (callback S) Right
unfolding callback
callback-Preserves {S} law = record {
  address = λ a b l h. Step-Right law (address_asked a b l) h;
  port = λ p b l h. Step-Right law (port_asked p b l) h;
  add = λ c t n l h. Step-Right law (added _ l) h;
  remove = λ c l h. Step-Right law (removed c l) h;
  change_found =
      λ c d d' flags l p q h. Step-Right law (changed d' d flags l (find-same c d d' l p q)) h;
  rewrite_found = λ c d l p h. rewrite-Right c d l p h;
}

Right-either :
    (result : Result Bool) (rest : Result (Unit {0}) × Listing) (l : Listing)
    → Right l
    → Right rest.1
    → Right
        (elim result as (λ _. Result (Unit {0}) × Listing) [
          | err text ↦ (err text, l)
          | ok b ↦ rest
        ]).1
Right-either (err text) rest l p q = p
Right-either (ok b) rest l p q = q

-- What `FindMember` asks of the items.
abbrev pub AllObjects : (L : JsonLib) → List (L.Value) → Type 0
AllObjects L [] = Unit
AllObjects L (v ∷ vs) = (L.is_object v ≡ true) × AllObjects L vs

-- The items that the program's own server sends are objects.
pub storage_items-AllObjects :
    (L : JsonLib) (T : AddressText) (ds : List ConnectionData) → AllObjects L (storage_items L T ds)
unfolding storage_items serialize
storage_items-AllObjects L T [] = tt
storage_items-AllObjects L T (d ∷ ds) = (L.object_lem _, storage_items-AllObjects L T ds)

-- Whatever objects a server's message has as items, with whatever members, also when one of them
-- ends the loop with an exception, and where the sort permutes and orders: a connection list that
-- is valid and in order is so after the client has deserialized them. In particular none of its
-- pointers dangles, and no more is visible than the window has room for.
pub receive_items-IsValid :
    (L : JsonLib) (T : AddressText) {S : StdSort}
    → IsSort S
    → (items : List (L.Value)) (l : Listing) → AllObjects L items
    → IsValid (view l)
    → InOrder l
    → let m = (receive_items L T (callback S) items l).1 in IsValid (view m) × InOrder m
unfolding receive_items
receive_items-IsValid L T law [] l o h p = (h, p)
receive_items-IsValid L T {S} law (v ∷ vs) l o h p =
    let d = deserialize T (callback S) L v l in
    let q : Right d.1 =
      deserialize-Preserves T (callback S) Right (callback-Preserves law) L v l (h, p) in
    let rest = receive_items-IsValid L T law vs d.1 o.1 q.0 q.1 in
    Right-either d.0 (receive_items L T (callback S) vs d.1) d.1 q rest
