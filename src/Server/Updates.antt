-- ===== src/Server/Updates.antt =====
-- `ConnectionUpdateSerializer` of Source/Server.hpp: the storage of the server, and the changes
-- since the last message that was built, as items (`ServerDataSerializer` of
-- Source/ClientServerProtocol.hpp).
pub mod Keeps
pub mod Changes
pub mod Steps
pub mod Replica
pub mod Full
use conntop.Prelude.{
  ℕ, ◌-◌, ◌^◌, Bool, true, false, ◌&&◌, not, List, [], ◌∷◌, ◌++◌, Option, none, some, if◌then◌else◌,
}
use conntop.Json.{JsonLib}
use conntop.Protocol.Message.{SerializedMessage}
use conntop.Connection.{
  Address, ip4, ip6, Port, ConnectionAction, create, update, remove, Connection, ConnectionTraffic,
  ConnectionData, no_traffic,
}
use conntop.Connection.Serialize.{AddressText, serialize}
use conntop.Connection.Deserialize.Apply.{UpdateCallback}
use conntop.Storage
use conntop.Storage.{
  Storage, add_ip4_address, add_ip6_address, add_port, add_connection, remove_connection,
  clear_connections, get_connection, get_ip4_address, get_ip6_address, get_port, write,
}

-- `-1` as an `int`
abbrev pub all_flags : ℕ
all_flags = 2 ^ 32 - 1

module _ (J : JsonLib) (T : AddressText) where
  open J use {Value}

  pub record Serializer : Type 0 where
    pub storage : Storage
    pub items : List Value
    pub is_serialization_enabled : Bool

  unfoldable pub new_serializer : Storage → Serializer
  new_serializer s = record { storage = s; items = []; is_serialization_enabled = true }

  -- `UpdateSerializer::add`, where serialization is enabled.
  unfoldable pub note : ConnectionData → ConnectionAction → ℕ → Serializer → Serializer
  note d action flags z =
      if z.is_serialization_enabled
      then record z { items = z.items ++ (serialize J T d action flags ∷ []) }
      else z

  unfoldable pub set_serialization_enabled : Bool → Serializer → Serializer
  set_serialization_enabled enable z = record z {
    items = if z.is_serialization_enabled && not enable then [] else z.items;
    is_serialization_enabled = enable;
  }

  -- `build`: the items of the message, which are then forgotten.
  unfoldable pub build : Serializer → List Value × Serializer
  build z = (z.items, record z { items = [] })

  -- `ConnectionStorageSerializer`: an item for every connection of a storage.
  unfoldable pub storage_items : List ConnectionData → List Value
  storage_items [] = []
  storage_items (d ∷ ds) = serialize J T d create all_flags ∷ storage_items ds

  unfoldable pub get_address : Address → Bool → Serializer → Option Address × Serializer
  get_address (ip4 a) add z =
      if add
      then (some (ip4 a), record z { storage = (add_ip4_address (ip4 a) z.storage).1 })
      else (get_ip4_address (ip4 a) z.storage, z)
  get_address (ip6 a b c d) add z =
      if add
      then (some (ip6 a b c d), record z { storage = (add_ip6_address (ip6 a b c d) z.storage).1 })
      else (get_ip6_address (ip6 a b c d) z.storage, z)

  unfoldable pub port : Port → Bool → Serializer → Option Port × Serializer
  port p add z =
      if add
      then (some p, record z { storage = (add_port p z.storage).1 })
      else (get_port p z.storage, z)

  unfoldable pub find : Connection → Serializer → Option ConnectionData
  find c z = get_connection c z.storage

  added : ConnectionData × Bool × Storage → Serializer → Serializer
  added (d, is_new, s) z =
      if is_new
      then note d create all_flags (record z { storage = s })
      else record z { storage = s }

  unfoldable pub add_with : Connection → ConnectionTraffic → ℕ → Serializer → Serializer
  unfolding added
  add_with c t state z =
      added (add_connection (record { connection = c; traffic = t; state = state }) z.storage) z

  unfoldable pub add : Connection → Serializer → Serializer
  unfolding added
  add c z =
      added (add_connection (record { connection = c; traffic = no_traffic; state = 0 }) z.storage)
        z

  unfoldable pub change : ConnectionData → ℕ → Serializer → Serializer
  change d flags z = note d update flags z

  removed : Connection → Option ConnectionData → Serializer → Serializer
  removed c none z = z
  removed c (some d) z =
      let z' = note d remove all_flags z in
      record z' { storage = (remove_connection c z'.storage).1 }

  unfoldable pub drop : Connection → Serializer → Serializer
  unfolding removed
  drop c z = removed c (find c z) z

  unfoldable pub clear : Serializer → Serializer
  clear z = set_serialization_enabled false (record z { storage = clear_connections z.storage })

  -- The callback that the collector is given.
  unfoldable pub callback : UpdateCallback Serializer
  callback = record {
    get_address = get_address;
    get_port = port;
    find = find;
    write = λ d z. record z { storage = write d z.storage };
    add = add_with;
    add_new = add;
    update = change;
    remove = drop;
    clear = clear;
  }
