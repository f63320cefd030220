-- ===== src/Server/Updates/Keeps.antt =====
-- `ConnectionUpdateSerializer` as a callback that keeps a storage. Source/Server.hpp.
use conntop.Prelude.{ℕ, ◌≡◌, refl, Bool, true, false, arith}
use conntop.Json.{JsonLib}
use conntop.Connection.{Address, ip4, ip6, Port, ConnectionData, Connection}
use conntop.Connection.Serialize.{AddressText}
use conntop.Storage.{Storage, get_connection, remove_connection}
use conntop.Storage.Backed.{Backed, address_step, port_step}
use conntop.Server.Updates.{
  add, clear, set_serialization_enabled, Serializer, note, get_address, port, find, added, add_with,
  change, removed, drop, callback,
}

module _ (J : JsonLib) (T : AddressText) where
  drop_lem :
      (c : Connection) (z : Serializer J T)
      → (drop J T c z).storage ≡ (remove_connection c z.storage).1
  unfolding drop removed find note remove_connection get_connection
  drop_lem c z = ground arith

  add_with_lem :
      (r : ConnectionData × Bool × Storage) (z : Serializer J T) → (added J T r z).storage ≡ r.2
  unfolding added note
  add_with_lem r z = ground arith

  change_lem :
      (d : ConnectionData) (flags : ℕ) (z : Serializer J T)
      → (change J T d flags z).storage ≡ z.storage
  unfolding change note
  change_lem d flags z = ground arith

  address_lem :
      (a : Address) (add : Bool) (z : Serializer J T)
      → ((get_address J T a add z).0 ≡ (address_step a add z.storage).0)
        × ((get_address J T a add z).1.storage ≡ (address_step a add z.storage).1)
  unfolding get_address
  address_lem (ip4 a) true z = (refl, refl)
  address_lem (ip4 a) false z = (refl, refl)
  address_lem (ip6 a b c d) true z = (refl, refl)
  address_lem (ip6 a b c d) false z = (refl, refl)

  port_lem :
      (p : Port) (add : Bool) (z : Serializer J T)
      → ((port J T p add z).0 ≡ (port_step p add z.storage).0)
        × ((port J T p add z).1.storage ≡ (port_step p add z.storage).1)
  unfolding port
  port_lem p true z = (refl, refl)
  port_lem p false z = (refl, refl)

  pub callback-Backed : Backed (callback J T) (λ z. z.storage)
  unfolding callback get_address port find add_with add clear set_serialization_enabled
  callback-Backed = record {
    address = address_lem;
    port = port_lem;
    find = λ c z. refl;
    write = λ d z. refl;
    add = λ c t n z. add_with_lem _ z;
    add_new = λ c z. add_with_lem _ z;
    update = change_lem;
    remove = drop_lem;
    clear = λ z. refl;
  }
