-- ===== src/Connection/Deserialize/Apply.antt =====
-- The half of `ConnectionData::Deserialize` that tells an `IConnectionUpdateCallback`.
-- Source/Connection.cpp. What the callback's `find` points at is written through `write`.
pub mod Items
pub mod Stored
pub mod Refused
pub mod Preserved
use conntop.Prelude.{
  ℕ, Bool, true, false, String, Option, none, some, bit_or, not, ◌==◌, if◌then◌else◌, has_flag,
}
use conntop.Json.{JsonLib, Result, ok, err, ◌>>=◌}
use conntop.Connection.{
  Address, Port, ConnectionType, udp4, udp6, tcp4, tcp6, ConnectionAction, create, update, remove,
  Connection, ConnectionTraffic, ConnectionData, port_type_of,
}
use conntop.Connection.Serialize.{
  AddressText, proto_state_flag, rx_packets_flag, tx_packets_flag, rx_bytes_flag, tx_bytes_flag,
  rx_speed_flag, tx_speed_flag,
}
use conntop.Connection.Deserialize.{Item, is_create, read_item}

-- `IConnectionUpdateCallback`, on the state `W` of the object behind it.
pub record UpdateCallback (W : Type 0) : Type 0 where
  pub get_address : Address → Bool → W → Option Address × W
  pub get_port : Port → Bool → W → Option Port × W
  pub find : Connection → W → Option ConnectionData
  pub write : ConnectionData → W → W
  pub add : Connection → ConnectionTraffic → ℕ → W → W
  pub add_new : Connection → W → W
  pub update : ConnectionData → ℕ → W → W
  pub remove : Connection → W → W
  pub clear : W → W

-- The flags of `updateFlags` that stand for a field of an item.
unfoldable pub seen_flags : ℕ → ℕ
seen_flags flags =
    let at : ℕ → ℕ = (λ flag. if has_flag flags flag then flag else 0) in
    bit_or (at proto_state_flag) (
      bit_or (at rx_packets_flag) (
        bit_or (at tx_packets_flag) (
          bit_or (at rx_bytes_flag)
            (bit_or (at tx_bytes_flag) (bit_or (at rx_speed_flag) (at tx_speed_flag))))))

-- The data after the fields that the flags name have been set.
unfoldable pub updated : ℕ → ℕ → ConnectionTraffic → ConnectionData → ConnectionData
updated flags state t d = record d {
  state = if has_flag flags proto_state_flag then state else d.state;
  traffic = record {
    rx_packets = if has_flag flags rx_packets_flag then t.rx_packets else (d.traffic).rx_packets;
    tx_packets = if has_flag flags tx_packets_flag then t.tx_packets else (d.traffic).tx_packets;
    rx_bytes = if has_flag flags rx_bytes_flag then t.rx_bytes else (d.traffic).rx_bytes;
    tx_bytes = if has_flag flags tx_bytes_flag then t.tx_bytes else (d.traffic).tx_bytes;
    rx_speed = if has_flag flags rx_speed_flag then t.rx_speed else (d.traffic).rx_speed;
    tx_speed = if has_flag flags tx_speed_flag then t.tx_speed else (d.traffic).tx_speed;
  };
}

module _ (T : AddressText) where
  unfoldable pub address_of : ConnectionType → String → Result Address
  address_of udp4 text = T.ip4_from_string text
  address_of tcp4 text = T.ip4_from_string text
  address_of udp6 text = T.ip6_from_string text
  address_of tcp6 text = T.ip6_from_string text

  module _ {W : Type 0} (cb : UpdateCallback W) where
    apply_update : Item → Option ConnectionData → W → Result Bool × W
    apply_update i none w = (ok false, w)
    apply_update i (some d) w =
        let d' = updated i.update_flags i.state i.traffic d in
        let flags = seen_flags i.update_flags in
        (ok true, if not (flags == 0) then cb.update d' flags (cb.write d' w) else cb.write d' w)

    unfoldable pub act : ConnectionAction → Item → Connection → W → Result Bool × W
    unfolding apply_update
    act create i c w = (ok true, cb.add c i.traffic i.state w)
    act update i c w = apply_update i (cb.find c w) w
    act remove i c w = (ok true, cb.remove c w)

    with_ports : Item → Address → Address → Option Port → Option Port → W → Result Bool × W
    with_ports i src dst (some p) (some q) w =
        act i.action i (record { src_addr = src; src_port = p; dst_addr = dst; dst_port = q }) w
    with_ports i src dst _ _ w = (ok false, w)

    with_addresses : Item → Option Address → Option Address → W → Result Bool × W
    unfolding with_ports
    with_addresses i (some src) (some dst) w =
        let add = is_create i.action in
        let type = port_type_of i.connection_type in
        let (p, w₁) = cb.get_port (record { port_type = type; number = i.src_port }) add w in
        let (q, w₂) = cb.get_port (record { port_type = type; number = i.dst_port }) add w₁ in
        with_ports i src dst p q w₂
    with_addresses i _ _ w = (ok false, w)

    -- The addresses are looked up one after the other; the second one's text may be refused when the
    -- first one has been added.
    second_address : Item → Option Address → Result Address → W → Result Bool × W
    unfolding with_addresses
    second_address i src (err e) w = (err e, w)
    second_address i src (ok b) w =
        let (dst, w') = cb.get_address b (is_create i.action) w in with_addresses i src dst w'

    first_address : Item → Result Address → W → Result Bool × W
    unfolding second_address
    first_address i (err e) w = (err e, w)
    first_address i (ok a) w =
        let (src, w') = cb.get_address a (is_create i.action) w in
        second_address i src (address_of i.connection_type i.dst_address) w'

    unfoldable pub apply_item : Item → W → Result Bool × W
    unfolding first_address
    apply_item i w = first_address i (address_of i.connection_type i.src_address) w

    applied : Result Item → W → Result Bool × W
    applied (err e) w = (err e, w)
    applied (ok i) w = apply_item i w

    unfoldable pub deserialize : (J : JsonLib) → J.Value → W → Result Bool × W
    unfolding applied
    deserialize J document w = applied (read_item J document) w
