-- ===== src/Server/Updates/Changes.antt =====
-- What a collector does to the server's connections through `ConnectionUpdateSerializer`.
-- Source/Server.hpp.
use conntop.Prelude.{ℕ, ◌<◌, ◌^◌, ◌≡◌, refl, true, [], ◌∷◌, ◌++◌, none, some, arith}
use conntop.Json.{JsonLib}
use conntop.Connection.{Address, ip4, ip6, Port, create, update, remove, Connection, ConnectionData}
use conntop.Connection.Serialize.{AddressText, serialize}
use conntop.Connection.Deserialize.RoundTrip.{IsWide}
use conntop.Connection.Deserialize.Apply.Items.{IsUniform}
use conntop.Connection.Deserialize.Apply.Stored.{Covers}
use conntop.Storage.{
  Storage, add_ip4_address, add_ip6_address, add_port, get_connection, add_connection,
  remove_connection, write,
}
use conntop.Storage.Enter.{
  add_connection-new, add_connection-old, get-add_connection, get-remove_connection, get-write,
}
use conntop.Server.Updates.{
  Serializer, get_address, port, all_flags, note, add_with, change, drop, added, removed, find,
}

-- What a collector does to the server's connections: it adds one, it assigns new data to one and
-- reports it with flags, or it removes one; or it looks up an address or a port, which then has an
-- entry.
pub data Change : Type 0 where
  opened : ConnectionData → Change
  changed : ConnectionData → ℕ → Change
  closed : Connection → Change
  met : Address → Change
  met_port : Port → Change

-- Data that an item can carry.
pub record IsFit (d : ConnectionData) : Type 0 where
  pub wide : IsWide d
  pub uniform : IsUniform d.connection

abbrev pub AllFit : Storage → Type 0
AllFit s = (c : Connection) (d : ConnectionData) → get_connection c s ≡ some d → IsFit d

-- The same connections with the same data, wherever they stand.
abbrev pub SameConnections : Storage → Storage → Type 0
SameConnections s t = (c : Connection) → get_connection c s ≡ get_connection c t

pub fit_opened :
    (d : ConnectionData) (s : Storage) → IsFit d → AllFit s → AllFit (add_connection d s).2
fit_opened d s h f k x e = ground (arith, get-add_connection d k s, f k x)

pub fit_changed : (d : ConnectionData) (s : Storage) → IsFit d → AllFit s → AllFit (write d s)
fit_changed d s h f k x e = ground (arith, get-write d k s, f k x)

pub fit_closed : (c : Connection) (s : Storage) → AllFit s → AllFit (remove_connection c s).1
fit_closed c s f k x e = ground (arith, get-remove_connection c k s, f k x)

module _ (J : JsonLib) (T : AddressText) where
  unfoldable pub perform : Change → Serializer J T → Serializer J T
  perform (opened d) z = add_with J T d.connection d.traffic d.state z
  perform (changed d flags) z = change J T d flags (record z { storage = write d z.storage })
  perform (closed c) z = drop J T c z
  perform (met a) z = (get_address J T a true z).1
  perform (met_port p) z = (port J T p true z).1

  -- The serializer when it has noted an item, or none.
  abbrev pub noting : Serializer J T → Storage → J.Value → Serializer J T
  noting z s v = record {
    storage = s;
    items = z.items ++ (v ∷ []);
    is_serialization_enabled = true;
  }

  pub add_with-new :
      (d : ConnectionData) (z : Serializer J T)
      → z.is_serialization_enabled ≡ true
      → get_connection d.connection z.storage ≡ none
      → add_with J T d.connection d.traffic d.state z
        ≡ noting z (add_connection d z.storage).2 (serialize J T d create all_flags)
  unfolding add_with added note
  add_with-new d z e q = rw (add_connection-new d z.storage q, e) refl

  pub add_with-old :
      (d old : ConnectionData) (z : Serializer J T)
      → get_connection d.connection z.storage ≡ some old
      → add_with J T d.connection d.traffic d.state z
        ≡ record z { storage = (add_connection d z.storage).2 }
  unfolding add_with added
  add_with-old d old z q = rw (add_connection-old d old z.storage q) refl

  pub change_lem :
      (d : ConnectionData) (flags : ℕ) (z : Serializer J T)
      → z.is_serialization_enabled ≡ true
      → change J T d flags (record z { storage = write d z.storage })
        ≡ noting z (write d z.storage) (serialize J T d update flags)
  unfolding change note
  change_lem d flags z e = rw e refl

  pub drop-found :
      (c : Connection) (d : ConnectionData) (z : Serializer J T)
      → z.is_serialization_enabled ≡ true
      → get_connection c z.storage ≡ some d
      → drop J T c z ≡ noting z (remove_connection c z.storage).1 (serialize J T d remove all_flags)
  unfolding drop find removed note
  drop-found c d z e q = rw (q, e) refl

  pub drop-missing :
      (c : Connection) (z : Serializer J T) → get_connection c z.storage ≡ none → drop J T c z ≡ z
  unfolding drop find removed
  drop-missing c z q = rw q refl

  -- The same items and connections.
  pub record Untouched (z z' : Serializer J T) : Type 0 where
    pub items : z'.items ≡ z.items
    pub enabled : z'.is_serialization_enabled ≡ z.is_serialization_enabled
    pub connections : SameConnections z'.storage z.storage

  pub get_address-Untouched :
      (a : Address) (z : Serializer J T) → Untouched z (get_address J T a true z).1
  unfolding get_address add_ip4_address add_ip6_address get_connection
  get_address-Untouched (ip4 a) z = record {
    items = refl;
    enabled = refl;
    connections = λ k. ground arith;
  }
  get_address-Untouched (ip6 a b c d) z = record {
    items = refl;
    enabled = refl;
    connections = λ k. ground arith;
  }

  pub port-Untouched : (p : Port) (z : Serializer J T) → Untouched z (port J T p true z).1
  unfolding port add_port get_connection
  port-Untouched p z = record { items = refl; enabled = refl; connections = λ k. ground arith }

  -- The reported flags name every field that differs.
  abbrev pub Allowed : Change → Serializer J T → Type 0
  Allowed (opened d) z = IsFit d
  Allowed (changed d flags) z =
      IsFit d
      × (flags < 2 ^ 32)
      × ((old : ConnectionData) × (get_connection d.connection z.storage ≡ some old)
          × Covers flags old d)
  Allowed (closed c) z = Unit {0}
  Allowed (met a) z = Unit {0}
  Allowed (met_port p) z = Unit {0}

  pub data Runs (z : Serializer J T) : Serializer J T → Type 0 where
    here : Runs z z
    next : {y : Serializer J T} → Runs z y → (c : Change) → Allowed c y → Runs z (perform c y)
