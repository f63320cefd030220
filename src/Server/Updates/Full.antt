-- ===== src/Server/Updates/Full.antt =====
-- A client that clears its connections and deserializes all those of the server.
-- Source/Server.hpp, Source/Client.cpp.
use conntop.Prelude.{◌≡◌, refl, List, [], ◌∷◌, Option, none, some, arith}
use conntop.Json.{JsonLib, ok}
use conntop.Connection.{create, Connection, ConnectionData}
use conntop.Connection.Serialize.{AddressText, serialize}
use conntop.Connection.Deserialize.Apply.{UpdateCallback, deserialize}
use conntop.Connection.Deserialize.Apply.Stored.{deserialize-create}
use conntop.Client.{receive_items}
use conntop.Client.Items.{receive-cons}
use conntop.Storage.{Storage, find_connection, get_connection, add_connection, clear_connections}
use conntop.Storage.Backed.{Backed, Closed, enter}
use conntop.Storage.Enter.{get-add_connection}
use conntop.Storage.Closed.{get-enter, Closed-add_connection}
use conntop.Server.Updates.{all_flags, storage_items}
use conntop.Server.Updates.Changes.{IsFit, SameConnections}

-- Every entry can be carried by an item.
abbrev pub EachFit : List ConnectionData → Type 0
EachFit [] = Unit
EachFit (d ∷ ds) = IsFit d × EachFit ds

-- The entry that stands there, or else the one that is to come.
abbrev merged : Option ConnectionData → Option ConnectionData → Option ConnectionData
merged none y = y
merged (some x) y = some x

module _ (J : JsonLib) (T : AddressText) {W : Type 0} (cb : UpdateCallback W)
    (storage : W → Storage) (b : Backed cb storage) where
  record Received (ds : List ConnectionData) (w w' : W) : Type 0 where
    found :
        (k : Connection)
        → get_connection k (storage w')
          ≡ merged (get_connection k (storage w)) (find_connection k ds)
    closed : Closed (storage w')

  received_one :
      (d : ConnectionData) (ds : List ConnectionData) (w v w' : W)
      → storage v ≡ (add_connection d (enter d.connection (storage w))).2
      → Received ds v w'
      → Received (d ∷ ds) w w'
  unfolding find_connection
  received_one d ds w v w' e r = record {
    found = λ k. ground (
      arith,
      r.found k,
      e,
      get-add_connection d k (enter d.connection (storage w)),
      get-enter k d.connection (storage w),
    );
    closed = r.closed;
  }

  receive_all :
      (ds : List ConnectionData) (w : W)
      → EachFit ds
      → Closed (storage w)
      → ((receive_items J T cb (storage_items J T ds) w).0 ≡ ok tt)
        × Received ds w (receive_items J T cb (storage_items J T ds) w).1
  unfolding receive_items storage_items find_connection
  receive_all [] w f c = (refl, record { found = λ k. ground arith; closed = c })
  receive_all (d ∷ ds) w (fit, f) c =
      let one =
        deserialize-create J T cb storage b d all_flags w fit.wide fit.uniform (omega arith) in
      let v = (deserialize T cb J (serialize J T d create all_flags) w).1 in
      let rest = receive_all ds v f (rw one.1 (Closed-add_connection d (storage w) c)) in
      rw (receive-cons J T cb (serialize J T d create all_flags) (storage_items J T ds) w one.0)
        (rest.0, received_one d ds w v _ one.1 rest.1)

  Closed-clear : (w : W) → Closed (storage (cb.clear w))
  unfolding get_connection find_connection clear_connections
  Closed-clear w k d e = ground (arith, b.clear w)

  -- A client, over any callback that keeps its connections in a storage, that clears its
  -- connections and then deserializes the items of all connections of a server, each of which an
  -- item can carry: no item is refused, and the client has the server's connections with the
  -- server's data, whatever it had before, and an entry for both ends of each.
  pub full_copy :
      (s : Storage) (w : W)
      → EachFit s.connection_map
      → let (result, w') = receive_items J T cb (storage_items J T s.connection_map) (cb.clear w) in
        (result ≡ ok tt) × SameConnections s (storage w') × Closed (storage w')
  unfolding get_connection find_connection clear_connections
  full_copy s w f =
      let (done, r) = receive_all s.connection_map (cb.clear w) f (Closed-clear w) in
      (done, (λ k. ground (arith, r.found k, b.clear w)), r.closed)
