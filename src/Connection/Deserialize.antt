-- ===== src/Connection/Deserialize.antt =====
-- `ConnectionData::Deserialize` of Source/Connection.cpp: reading an item, up to the
-- point where the callback is told.
pub mod Head
pub mod RoundTrip
pub mod Apply
use conntop.Prelude.{
  ℕ, ◌%◌, ◌^◌, Bool, true, false, not, ◌&&◌, ◌||◌, String, List, [], ◌∷◌, Option, none, some,
  bit_or, ◌==◌, if◌then◌else◌, has_flag,
}
use conntop.Json.{JsonLib, Result, ok, err, ◌>>=◌, require}
use conntop.Connection.{
  Address, Port, PortType, ConnectionType, udp4, udp6, tcp4, tcp6, ConnectionAction, create, update,
  remove, Connection, ConnectionTraffic, ConnectionData, no_traffic, type_to_enum, action_to_enum,
  port_type_of, state_to_enum,
}
use conntop.Connection.Serialize.{
  AddressText, proto_state_flag, rx_packets_flag, tx_packets_flag, rx_bytes_flag, tx_bytes_flag,
  rx_speed_flag, tx_speed_flag,
}

-- The fields of an item, before any of them is used.
pub record Item : Type 0 where
  pub action : ConnectionAction
  pub connection_type : ConnectionType
  pub src_address : String
  pub dst_address : String
  pub src_port : ℕ
  pub dst_port : ℕ
  pub update_flags : ℕ
  pub state : ℕ
  pub traffic : ConnectionTraffic

abbrev pub is_create : ConnectionAction → Bool
is_create create = true
is_create _ = false

abbrev pub is_update : ConnectionAction → Bool
is_update update = true
is_update _ = false

-- `action == CREATE || updateFlags & flag`
abbrev pub wanted : ConnectionAction → ℕ → ℕ → Bool
wanted action flags flag = if is_create action then true else has_flag flags flag

module _ (J : JsonLib) where
  open J use {
    Value, is_string, is_int, is_uint, is_uint64, find_member, get_string, get_int, get_uint,
    get_uint64,
  }

  -- `FindMember` asks for an object, and nothing sees to that here: what is read of an item that is
  -- none says nothing of the program.
  unfoldable pub read_action : Value → Result ConnectionAction
  read_action document =
      require is_string get_string "Missing connection action"
        "Invalid connection action value type" (find_member "action" document)
      >>= action_to_enum

  unfoldable pub read_type : Value → Result ConnectionType
  read_type document =
      require is_string get_string "Missing connection type" "Invalid connection type value type"
        (find_member "type" document)
      >>= type_to_enum

  unfoldable pub read_addresses : Value → Result (String × String)
  read_addresses document = do
    src ←
        require is_string get_string "Missing source address" "Invalid source address value type"
          (find_member "srcAddress" document)
    dst ←
        require is_string get_string "Missing destination address"
          "Invalid destination address value type" (find_member "dstAddress" document)
    ok (src, dst)

  -- `const uint16_t srcPortNumber = srcPortIt->value.GetUint();`
  unfoldable pub read_ports : Value → Result (ℕ × ℕ)
  read_ports document = do
    src ←
        require is_uint get_uint "Missing source port" "Invalid source port value type"
          (find_member "srcPort" document)
    dst ←
        require is_uint get_uint "Missing destination port" "Invalid destination port value type"
          (find_member "dstPort" document)
    ok (src % 2 ^ 16, dst % 2 ^ 16)

  unfoldable pub read_flags : ConnectionAction → Value → Result ℕ
  read_flags action document =
      if is_update action
      then require is_int get_int "Missing update flags" "Invalid update flags value type"
          (find_member "updateFlags" document)
      else ok 0

  unfoldable pub read_state : ConnectionAction → ℕ → PortType → Value → Result ℕ
  read_state action flags port_type document =
      if wanted action flags proto_state_flag
      then require is_string get_string "Missing connection state"
          "Invalid connection state value type" (find_member "state" document)
        >>= (λ text. ok (state_to_enum port_type text))
      else ok 0

  -- One counter: read if the action or its flag wants it, 0 otherwise.
  unfoldable pub read_counter : Bool → String → String → String → Value → Result ℕ
  read_counter want name missing invalid document =
      if want
      then require is_uint64 get_uint64 missing invalid (find_member name document)
      else ok 0

  unfoldable pub read_counters : ConnectionAction → ℕ → Value → Result ConnectionTraffic
  read_counters action flags document = do
    rx_packets ←
        read_counter (wanted action flags rx_packets_flag) "rxPackets"
          "Missing received packets count" "Invalid received packets count value type" document
    tx_packets ←
        read_counter (wanted action flags tx_packets_flag) "txPackets" "Missing sent packets count"
          "Invalid sent packets count value type" document
    rx_bytes ←
        read_counter (wanted action flags rx_bytes_flag) "rxBytes" "Missing received bytes count"
          "Invalid received bytes count value type" document
    tx_bytes ←
        read_counter (wanted action flags tx_bytes_flag) "txBytes" "Missing sent bytes count"
          "Invalid sent bytes count value type" document
    rx_speed ←
        read_counter (wanted action flags rx_speed_flag) "rxSpeed" "Missing receive speed"
          "Invalid receive speed value type" document
    tx_speed ←
        read_counter (wanted action flags tx_speed_flag) "txSpeed" "Missing send speed"
          "Invalid send speed value type" document
    ok (record {
      rx_packets = rx_packets;
      tx_packets = tx_packets;
      rx_bytes = rx_bytes;
      tx_bytes = tx_bytes;
      rx_speed = rx_speed;
      tx_speed = tx_speed;
    })

  unfoldable pub read_traffic : ConnectionAction → ℕ → Value → Result ConnectionTraffic
  read_traffic remove flags document = ok no_traffic
  read_traffic action flags document = read_counters action flags document

  unfoldable pub read_item : Value → Result Item
  read_item document = do
    action ← read_action document
    connection_type ← read_type document
    addresses ← read_addresses document
    ports ← read_ports document
    flags ← read_flags action document
    state ← read_state action flags (port_type_of connection_type) document
    traffic ← read_traffic action flags document
    ok (record {
      action = action;
      connection_type = connection_type;
      src_address = addresses.0;
      dst_address = addresses.1;
      src_port = ports.0;
      dst_port = ports.1;
      update_flags = flags;
      state = state;
      traffic = traffic;
    })
