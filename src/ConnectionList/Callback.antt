-- ===== src/ConnectionList/Callback.antt =====
-- A `ConnectionList` as what a session or a collector tells of connections, and the storage in it.
-- Source/ConnectionList.cpp.
use conntop.Prelude.{
  ℕ, ◌≡◌, refl, ap, ◌∙◌, Bool, true, false, Option, none, some, if◌then◌else◌, arith,
}
use conntop.Connection.{Address, ip4, ip6, Port, Connection, ConnectionData}
use conntop.Storage.{
  Storage, add_ip4_address, add_ip6_address, add_port, add_connection, remove_connection,
  clear_connections,
}
use conntop.Storage.Backed.{Backed, address_step, port_step}
use conntop.ConnectionList.{Listing, StdSort, new_item, sort, insert_item, fill, is_empty}
use conntop.ConnectionList.Operations.{
  get_address, get_port_data, find, handle_new_connection, add_data, position, mark_visible,
  is_sort_required, is_fill_required, is_detail, update_item, update_data,
  handle_removed_connection, remove, clear, callback,
}
use conntop.ConnectionList.Shown.{Framed-insert_item}
use conntop.ConnectionList.Filled.{Framed-fill}
use conntop.ConnectionList.Ordered.Steering.{Kept-handle_removed_connection}

abbrev pub storage_of : Listing → Storage
storage_of l = l.storage

storage-if :
    (b : Bool) (l m : Listing) (s : Storage)
    → l.storage ≡ s
    → m.storage ≡ s
    → (if b then l else m).storage ≡ s
storage-if true l m s p q = p
storage-if false l m s p q = q

handle_new_connection-storage :
    (c : Connection) (l : Listing) → (handle_new_connection c l).storage ≡ l.storage
unfolding handle_new_connection
handle_new_connection-storage c l =
    ground (arith, ap storage_of (Framed-insert_item (new_item c) l))

add_data-storage :
    (d : ConnectionData) (l : Listing) → (add_data d l).storage ≡ (add_connection d l.storage).2
unfolding add_data
add_data-storage d l =
    let (kept, is_new, s) = add_connection d l.storage in
    let m = record l { storage = s } in
    storage-if is_new (handle_new_connection kept.connection m) m s
      (handle_new_connection-storage kept.connection m) refl

fill-storage : (l : Listing) → (fill l).storage ≡ l.storage
fill-storage l = ap storage_of (Framed-fill l)

mark_visible-storage : (i flags : ℕ) (l : Listing) → (mark_visible i flags l).storage ≡ l.storage
unfolding mark_visible
mark_visible-storage i flags l = storage-if _ _ l l.storage refl refl

update_item-storage :
    (S : StdSort) (c : Connection) (flags : ℕ) (o : Option ℕ) (l : Listing)
    → (update_item S c flags o l).storage ≡ l.storage
unfolding update_item sort
update_item-storage S c flags none l =
    storage-if _ (insert_item (new_item c) l) l l.storage
      (ap storage_of (Framed-insert_item (new_item c) l)) refl
update_item-storage S c flags (some i) l =
    let l₁ = mark_visible i flags l in
    let p : l₁.storage ≡ l.storage = mark_visible-storage i flags l in
    let required = is_sort_required i l₁ in
    let l₂ = if required then sort S l₁ else l₁ in
    let q : l₂.storage ≡ l.storage = storage-if required (sort S l₁) l₁ l.storage p p in
    storage-if (is_fill_required i l₁) (fill l₂) l₂ l.storage (fill-storage l₂ ∙ q) q

update_data-storage :
    (S : StdSort) (d : ConnectionData) (flags : ℕ) (l : Listing)
    → (update_data S d flags l).storage ≡ l.storage
unfolding update_data
update_data-storage S d flags l =
    let flagged = record l { connection_detail_update_flags = flags } in
    let m = if is_detail d.connection l then flagged else l in
    let p : m.storage ≡ l.storage =
      storage-if (is_detail d.connection l) flagged l l.storage refl refl in
    let o = position d.connection m.list in
    storage-if (is_empty m.list) m (update_item S d.connection flags o m) l.storage p
      (update_item-storage S d.connection flags o m ∙ p)

handled :
    (o : Option ConnectionData) (l : Listing)
    → (elim o as (λ _. Listing) [
      | none ↦ l
      | some d ↦ handle_removed_connection d.connection l
    ]).storage
      ≡ l.storage
handled none l = refl
handled (some d) l = ap storage_of (Kept-handle_removed_connection d.connection l)

remove-storage :
    (c : Connection) (l : Listing) → (remove c l).storage ≡ (remove_connection c l.storage).1
unfolding remove
remove-storage c l =
    let (removed, s) = remove_connection c l.storage in handled removed (record l { storage = s })

address-storage :
    (a : Address) (add : Bool) (l : Listing)
    → ((get_address a add l).0 ≡ (address_step a add l.storage).0)
      × ((get_address a add l).1.storage ≡ (address_step a add l.storage).1)
unfolding get_address
address-storage (ip4 a) true l =
    (refl, storage-if (add_ip4_address (ip4 a) l.storage).0 _ _ _ refl refl)
address-storage (ip6 a b c d) true l =
    (refl, storage-if (add_ip6_address (ip6 a b c d) l.storage).0 _ _ _ refl refl)
address-storage (ip4 a) false l = (refl, refl)
address-storage (ip6 a b c d) false l = (refl, refl)

port-storage :
    (p : Port) (add : Bool) (l : Listing)
    → ((get_port_data p add l).0 ≡ (port_step p add l.storage).0)
      × ((get_port_data p add l).1.storage ≡ (port_step p add l.storage).1)
unfolding get_port_data
port-storage p true l = (refl, storage-if (add_port p l.storage).0 _ _ _ refl refl)
port-storage p false l = (refl, refl)

-- The connection list keeps a connection storage, as far as whoever tells it of connections can
-- see, whatever the sort does: each function of the callback does to the storage what the
-- storage's own does and gives the same answer, whatever becomes of the items. So the connection
-- list is a callback as the theorems on clients and collectors ask for.
pub callback-Backed : (S : StdSort) → Backed (callback S) storage_of
unfolding callback find clear clear_connections
callback-Backed S = record {
  address = address-storage;
  port = port-storage;
  find = λ c l. refl;
  write = λ d l. refl;
  add = λ c t n l. add_data-storage _ l;
  add_new = λ c l. add_data-storage _ l;
  update = update_data-storage S;
  remove = remove-storage;
  clear = λ l. refl;
}
