-- ===== src/Connection/Deserialize/Apply/Items.antt =====
-- One item that the server wrote, deserialized by an `IConnectionUpdateCallback` that keeps a
-- storage. Source/Connection.cpp.
use conntop.Prelude.{ℕ, ◌<◌, ◌^◌, ◌≡◌, refl, ap, ◌∙◌, sym, some}
use conntop.Json.{JsonLib, ok}
use conntop.Connection.{
  Address, ip4, ip6, PortType, udp, tcp, ConnectionAction, Connection, ConnectionData, create_type,
  type_of, port_type_of,
}
use conntop.Connection.Serialize.{AddressText, serialize}
use conntop.Connection.Deserialize.{Item, is_create}
use conntop.Connection.Deserialize.RoundTrip.{
  IsWide, carried, carried_flags, carried_state, read_item-serialize,
}
use conntop.Connection.Deserialize.Apply.{
  UpdateCallback, address_of, act, apply_item, deserialize, with_ports, with_addresses,
  second_address, first_address, applied,
}

-- Both ends are of one family and one protocol.
abbrev pub IsUniform : Connection → Type 0
IsUniform c =
    create_type c.dst_addr (c.dst_port).port_type ≡ create_type c.src_addr (c.src_port).port_type

port_type_of-create_type : (a : Address) (p : PortType) → port_type_of (create_type a p) ≡ p
unfolding port_type_of create_type
port_type_of-create_type (ip4 a) udp = refl
port_type_of-create_type (ip4 a) tcp = refl
port_type_of-create_type (ip6 a b c d) udp = refl
port_type_of-create_type (ip6 a b c d) tcp = refl

address_of-to_string :
    (T : AddressText) (a : Address) (p : PortType)
    → address_of T (create_type a p) (T.to_string a) ≡ ok a
unfolding address_of create_type
address_of-to_string T (ip4 a) udp = T.ip4_lem a
address_of-to_string T (ip4 a) tcp = T.ip4_lem a
address_of-to_string T (ip6 a b c d) udp = T.ip6_lem a b c d
address_of-to_string T (ip6 a b c d) tcp = T.ip6_lem a b c d

-- The ends that an item of the connection names.
src_port_lem :
    (c : Connection)
    → (record { port_type = port_type_of (type_of c); number = (c.src_port).number }) ≡ c.src_port
src_port_lem c =
    ap (λ t. record { port_type = t; number = (c.src_port).number })
      (port_type_of-create_type c.src_addr (c.src_port).port_type)

dst_port_lem :
    (c : Connection)
    → IsUniform c
    → (record { port_type = port_type_of (type_of c); number = (c.dst_port).number }) ≡ c.dst_port
dst_port_lem c u =
    ap (λ t. record { port_type = t; number = (c.dst_port).number })
      (ap port_type_of (sym u) ∙ port_type_of-create_type c.dst_addr (c.dst_port).port_type)

dst_addr_lem :
    (T : AddressText) (c : Connection)
    → IsUniform c
    → address_of T (type_of c) (T.to_string c.dst_addr) ≡ ok c.dst_addr
dst_addr_lem T c u =
    ap (λ t. address_of T t (T.to_string c.dst_addr)) (sym u)
    ∙ address_of-to_string T c.dst_addr (c.dst_port).port_type

module _ (J : JsonLib) (T : AddressText) (d : ConnectionData) (action : ConnectionAction)
    (flags : ℕ) where
  -- The item that is read.
  abbrev pub item : Item
  item = record {
    action = action;
    connection_type = type_of d.connection;
    src_address = T.to_string (d.connection).src_addr;
    dst_address = T.to_string (d.connection).dst_addr;
    src_port = ((d.connection).src_port).number;
    dst_port = ((d.connection).dst_port).number;
    update_flags = carried_flags action flags;
    state = carried_state J T d flags action;
    traffic = carried action flags d.traffic;
  }

  module _ {W : Type 0} (cb : UpdateCallback W) where
    -- The callback's object after the ends of the connection have been asked for.
    abbrev pub asked : W → W
    asked w =
        let c = d.connection in
        let add = is_create action in
        (cb.get_port c.dst_port add
          (cb.get_port c.src_port add
            (cb.get_address c.dst_addr add (cb.get_address c.src_addr add w).1).1).1).1

    -- The callback gives the ends of the connection.
    pub record Gives (w : W) : Type 0 where
      pub src_addr :
          (cb.get_address (d.connection).src_addr (is_create action) w).0
          ≡ some (d.connection).src_addr
      pub dst_addr :
          (cb.get_address
            (d.connection).dst_addr
            (is_create action)
            (cb.get_address (d.connection).src_addr (is_create action) w).1).0
          ≡ some (d.connection).dst_addr
      pub src_port :
          (cb.get_port
            (d.connection).src_port
            (is_create action)
            (cb.get_address
              (d.connection).dst_addr
              (is_create action)
              (cb.get_address (d.connection).src_addr (is_create action) w).1).1).0
          ≡ some (d.connection).src_port
      pub dst_port :
          (cb.get_port
            (d.connection).dst_port
            (is_create action)
            (cb.get_port
              (d.connection).src_port
              (is_create action)
              (cb.get_address
                (d.connection).dst_addr
                (is_create action)
                (cb.get_address (d.connection).src_addr (is_create action) w).1).1).1).0
          ≡ some (d.connection).dst_port

    with_addresses-Gives :
        (w : W)
        → IsUniform d.connection
        → Gives w
        → with_addresses T cb item
            (some (d.connection).src_addr)
            (some (d.connection).dst_addr)
            (cb.get_address
              (d.connection).dst_addr
              (is_create action)
              (cb.get_address (d.connection).src_addr (is_create action) w).1).1
          ≡ act T cb action item d.connection (asked w)
    unfolding with_addresses with_ports
    with_addresses-Gives w u g =
        rw (src_port_lem d.connection, dst_port_lem d.connection u, g.src_port, g.dst_port) refl

    apply_item-Gives :
        (w : W)
        → IsUniform d.connection
        → Gives w
        → apply_item T cb item w ≡ act T cb action item d.connection (asked w)
    unfolding apply_item first_address second_address
    apply_item-Gives w u g =
        rw
          (
            address_of-to_string T (d.connection).src_addr ((d.connection).src_port).port_type,
            g.src_addr,
            dst_addr_lem T d.connection u,
            g.dst_addr,
          )
          (with_addresses-Gives w u g)

    pub deserialize-Gives :
        (w : W)
        → IsWide d
        → IsUniform d.connection
        → flags < 2 ^ 32
        → Gives w
        → deserialize T cb J (serialize J T d action flags) w
          ≡ act T cb action item d.connection (asked w)
    unfolding deserialize applied
    deserialize-Gives w wide u h g =
        rw (read_item-serialize J T d flags action wide h) (apply_item-Gives w u g)
