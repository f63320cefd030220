-- ===== src/Storage/Backed.antt =====
-- What it is for an `IConnectionUpdateCallback` to keep its connections in a `ConnectionStorage`.
use conntop.Prelude.{ℕ, ◌≡◌, refl, Bool, true, false, Option, some, if◌then◌else◌, arith}
use conntop.Connection.{
  Address, ip4, ip6, Port, Connection, ConnectionTraffic, ConnectionData, no_traffic,
}
use conntop.Connection.Names.{address_eq_iff, port_eq_iff}
use conntop.Connection.Deserialize.Apply.{UpdateCallback}
use conntop.Storage.{
  Storage, has_address, has_port, add_ip4_address, add_ip6_address, add_port, add_connection,
  remove_connection, clear_connections, get_connection, get_ip4_address, get_ip6_address, get_port,
  write,
}

-- `getAddress` and `getPort` of every such callback.
abbrev pub address_step : Address → Bool → Storage → Option Address × Storage
address_step (ip4 a) add s =
    if add then (some (ip4 a), (add_ip4_address (ip4 a) s).1) else (get_ip4_address (ip4 a) s, s)
address_step (ip6 a b c d) add s =
    if add
    then (some (ip6 a b c d), (add_ip6_address (ip6 a b c d) s).1)
    else (get_ip6_address (ip6 a b c d) s, s)

abbrev pub port_step : Port → Bool → Storage → Option Port × Storage
port_step p add s = if add then (some p, (add_port p s).1) else (get_port p s, s)

pub record Backed {W : Type 0} (cb : UpdateCallback W) (storage : W → Storage) : Type 0 where
  pub address :
      (a : Address) (add : Bool) (w : W)
      → ((cb.get_address a add w).0 ≡ (address_step a add (storage w)).0)
        × (storage (cb.get_address a add w).1 ≡ (address_step a add (storage w)).1)
  pub port :
      (p : Port) (add : Bool) (w : W)
      → ((cb.get_port p add w).0 ≡ (port_step p add (storage w)).0)
        × (storage (cb.get_port p add w).1 ≡ (port_step p add (storage w)).1)
  pub find : (c : Connection) (w : W) → cb.find c w ≡ get_connection c (storage w)
  pub write : (d : ConnectionData) (w : W) → storage (cb.write d w) ≡ write d (storage w)
  pub add :
      (c : Connection) (t : ConnectionTraffic) (n : ℕ) (w : W)
      → storage (cb.add c t n w)
        ≡ (add_connection (record { connection = c; traffic = t; state = n }) (storage w)).2
  pub add_new :
      (c : Connection) (w : W)
      → storage (cb.add_new c w)
        ≡ (add_connection
            (record { connection = c; traffic = no_traffic; state = 0 })
            (storage w)).2
  pub update : (d : ConnectionData) (flags : ℕ) (w : W) → storage (cb.update d flags w) ≡ storage w
  pub remove :
      (c : Connection) (w : W) → storage (cb.remove c w) ≡ (remove_connection c (storage w)).1
  pub clear : (w : W) → storage (cb.clear w) ≡ clear_connections (storage w)

-- The storage has an entry for the address.
abbrev pub knows : Address → Storage → Bool
knows (ip4 a) s = has_address (ip4 a) s.address_ip4_map
knows (ip6 a b c d) s = has_address (ip6 a b c d) s.address_ip6_map

-- The storage has entries for both ends of the connection.
pub record Ends (c : Connection) (s : Storage) : Type 0 where
  pub src_addr : knows c.src_addr s ≡ true
  pub dst_addr : knows c.dst_addr s ≡ true
  pub src_port : has_port c.src_port s.port_map ≡ true
  pub dst_port : has_port c.dst_port s.port_map ≡ true

-- Both ends of every connection have entries of their own.
abbrev pub Closed : Storage → Type 0
Closed s = (c : Connection) (d : ConnectionData) → get_connection c s ≡ some d → Ends c s

-- The storage with entries for both ends of the connection.
abbrev pub enter : Connection → Storage → Storage
enter c s =
    (port_step c.dst_port true
      (port_step c.src_port true
        (address_step c.dst_addr true (address_step c.src_addr true s).1).1).1).1

pub address_step-known :
    (a : Address) (s : Storage) → knows a s ≡ true → address_step a false s ≡ (some a, s)
unfolding get_ip4_address get_ip6_address
address_step-known (ip4 a) s h = ground arith
address_step-known (ip6 a b c d) s h = ground arith

pub port_step-known :
    (p : Port) (s : Storage) → has_port p s.port_map ≡ true → port_step p false s ≡ (some p, s)
unfolding get_port
port_step-known p s h = ground arith

pub address_step-added : (a : Address) (s : Storage) → (address_step a true s).0 ≡ some a
address_step-added (ip4 a) s = refl
address_step-added (ip6 a b c d) s = refl

-- Entries are only added: what is known stays known, and the new address is.
pub knows-address_step :
    (a b : Address) (s : Storage)
    → (knows b s ≡ true → knows b (address_step a true s).1 ≡ true)
      × (knows a (address_step a true s).1 ≡ true)
      × ((address_step a true s).1.port_map ≡ s.port_map)
      × ((address_step a true s).1.connection_map ≡ s.connection_map)
unfolding add_ip4_address add_ip6_address has_address
knows-address_step (ip4 a) (ip4 b) s = ground (arith, address_eq_iff (ip4 a) (ip4 a))
knows-address_step (ip4 a) (ip6 b c d e) s = ground (arith, address_eq_iff (ip4 a) (ip4 a))
knows-address_step (ip6 a b c d) (ip4 e) s =
    ground (arith, address_eq_iff (ip6 a b c d) (ip6 a b c d))
knows-address_step (ip6 a b c d) (ip6 e f g h) s =
    ground (arith, address_eq_iff (ip6 a b c d) (ip6 a b c d))

pub has_port-port_step :
    (p q : Port) (s : Storage)
    → (has_port q s.port_map ≡ true → has_port q (port_step p true s).1.port_map ≡ true)
      × (has_port p (port_step p true s).1.port_map ≡ true)
      × ((port_step p true s).1.address_ip4_map ≡ s.address_ip4_map)
      × ((port_step p true s).1.address_ip6_map ≡ s.address_ip6_map)
      × ((port_step p true s).1.connection_map ≡ s.connection_map)
unfolding add_port has_port
has_port-port_step p q s = ground (arith, port_eq_iff p p)
