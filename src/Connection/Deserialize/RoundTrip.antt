-- ===== src/Connection/Deserialize/RoundTrip.antt =====
-- Writing an item and reading it back: `serialize` and `Deserialize` of Source/Connection.cpp.
use conntop.Prelude.{
  ℕ, ◌<◌, ◌^◌, ◌≡◌, refl, Bool, true, false, String, List, none, some, find, text_eq, if◌then◌else◌,
  arith,
}
use conntop.Json.{JsonLib, ok}
use conntop.Connection.{
  ConnectionAction, create, update, remove, ConnectionData, ConnectionTraffic, no_traffic, type_of,
  port_type_of,
}
use conntop.Connection.Names.{IsState, state_to_enum-to_string, state_to_string-IsPlain}
use conntop.Connection.Serialize.{
  AddressText, member_if, create_members, update_members, action_members, serialize, state_text,
  proto_state_flag, rx_packets_flag, tx_packets_flag, rx_bytes_flag, tx_bytes_flag, rx_speed_flag,
  tx_speed_flag,
}
use conntop.Connection.Deserialize.{
  wanted, is_update, read_flags, read_state, read_counter, read_counters, read_traffic, read_item,
}
use conntop.Connection.Deserialize.Head.{
  read_action-serialize, read_type-serialize, read_addresses-serialize, read_ports-serialize,
  find-serialize,
}

-- A conditional member is found under its name if the condition holds.
find-member_if {ℓ} :
    {V : Type ℓ} (k j : String) (b : Bool) (v : V) (ms : List (String × V))
    → find k (member_if b j v ms)
      ≡ (if text_eq j k then if b then some v else find k ms else find k ms)
unfolding member_if
find-member_if k j true v ms = refl
find-member_if k j false v ms = ground arith

-- What a well-formed connection's data satisfy: the widths of the fields, a state of the protocol.
pub record IsWide (d : ConnectionData) : Type 0 where
  pub src_port : ((d.connection).src_port).number < 2 ^ 16
  pub dst_port : ((d.connection).dst_port).number < 2 ^ 16
  pub state : IsState (port_type_of (type_of d.connection)) d.state
  pub rx_packets : (d.traffic).rx_packets < 2 ^ 64
  pub tx_packets : (d.traffic).tx_packets < 2 ^ 64
  pub rx_bytes : (d.traffic).rx_bytes < 2 ^ 64
  pub tx_bytes : (d.traffic).tx_bytes < 2 ^ 64
  pub rx_speed : (d.traffic).rx_speed < 2 ^ 64
  pub tx_speed : (d.traffic).tx_speed < 2 ^ 64

-- The flags that an item carries.
abbrev pub carried_flags : ConnectionAction → ℕ → ℕ
carried_flags action flags = if is_update action then flags else 0

-- The counters that an item carries; the others arrive as 0.
abbrev pub carried : ConnectionAction → ℕ → ConnectionTraffic → ConnectionTraffic
carried action flags t = record {
  rx_packets =
      if wanted action (carried_flags action flags) rx_packets_flag then t.rx_packets else 0;
  tx_packets =
      if wanted action (carried_flags action flags) tx_packets_flag then t.tx_packets else 0;
  rx_bytes = if wanted action (carried_flags action flags) rx_bytes_flag then t.rx_bytes else 0;
  tx_bytes = if wanted action (carried_flags action flags) tx_bytes_flag then t.tx_bytes else 0;
  rx_speed = if wanted action (carried_flags action flags) rx_speed_flag then t.rx_speed else 0;
  tx_speed = if wanted action (carried_flags action flags) tx_speed_flag then t.tx_speed else 0;
}

module _ (J : JsonLib) (T : AddressText) (d : ConnectionData) (flags : ℕ) where
  open J use {Value, string_lem, int_lem, uint64_lem}

  -- The counter of this name stands in the item if it is wanted.
  abbrev Has : ConnectionAction → String → ℕ → ℕ → Type 0
  Has action name flag n =
      find name (action_members J T action d flags)
      ≡ (if wanted action (carried_flags action flags) flag then some (J.set_uint64 n) else none)

  rx_packets-Has :
      (action : ConnectionAction) → Has action "rxPackets" rx_packets_flag (d.traffic).rx_packets
  unfolding action_members update_members create_members
  rx_packets-Has create = refl
  rx_packets-Has update = simp find-member_if
  rx_packets-Has remove = refl

  tx_packets-Has :
      (action : ConnectionAction) → Has action "txPackets" tx_packets_flag (d.traffic).tx_packets
  unfolding action_members update_members create_members
  tx_packets-Has create = refl
  tx_packets-Has update = simp find-member_if
  tx_packets-Has remove = refl

  rx_bytes-Has :
      (action : ConnectionAction) → Has action "rxBytes" rx_bytes_flag (d.traffic).rx_bytes
  unfolding action_members update_members create_members
  rx_bytes-Has create = refl
  rx_bytes-Has update = simp find-member_if
  rx_bytes-Has remove = refl

  tx_bytes-Has :
      (action : ConnectionAction) → Has action "txBytes" tx_bytes_flag (d.traffic).tx_bytes
  unfolding action_members update_members create_members
  tx_bytes-Has create = refl
  tx_bytes-Has update = simp find-member_if
  tx_bytes-Has remove = refl

  rx_speed-Has :
      (action : ConnectionAction) → Has action "rxSpeed" rx_speed_flag (d.traffic).rx_speed
  unfolding action_members update_members create_members
  rx_speed-Has create = refl
  rx_speed-Has update = simp find-member_if
  rx_speed-Has remove = refl

  tx_speed-Has :
      (action : ConnectionAction) → Has action "txSpeed" tx_speed_flag (d.traffic).tx_speed
  unfolding action_members update_members create_members
  tx_speed-Has create = refl
  tx_speed-Has update = simp find-member_if
  tx_speed-Has remove = refl

  read_flags-serialize :
      (action : ConnectionAction)
      → flags < 2 ^ 32
      → read_flags J action (serialize J T d action flags) ≡ ok (carried_flags action flags)
  unfolding read_flags action_members update_members
  read_flags-serialize create h = refl
  read_flags-serialize update h =
      rw (find-serialize J T d update flags "updateFlags" (refl, refl, refl, refl, refl, refl))
        (ground (arith, int_lem flags h))
  read_flags-serialize remove h = refl

  -- A counter is read back if it is wanted.
  read_counter-serialize :
      (action : ConnectionAction) (name missing invalid : String) (flag n : ℕ)
      → J.find_member name (serialize J T d action flags)
        ≡ find name (action_members J T action d flags)
      → Has action name flag n
      → n < 2 ^ 64
      → read_counter J
          (wanted action (carried_flags action flags) flag)
          name
          missing
          invalid
          (serialize J T d action flags)
        ≡ ok (if wanted action (carried_flags action flags) flag then n else 0)
  unfolding read_counter
  read_counter-serialize action name missing invalid flag n p q h = ground (arith, uint64_lem n h)

  abbrev HasState : ConnectionAction → Type 0
  HasState action = find "state" (action_members J T action d flags) ≡ (
      if wanted action (carried_flags action flags) proto_state_flag
      then some (J.set_string (state_text J T d))
      else none)

  state-Has : (action : ConnectionAction) → HasState action
  unfolding action_members update_members create_members
  state-Has create = refl
  state-Has update = simp find-member_if
  state-Has remove = refl

  -- The state arrives if the item carries it.
  abbrev pub carried_state : ConnectionAction → ℕ
  carried_state action =
      if wanted action (carried_flags action flags) proto_state_flag then d.state else 0

  read_state-serialize :
      (action : ConnectionAction)
      → IsState (port_type_of (type_of d.connection)) d.state
      → J.find_member "state" (serialize J T d action flags)
        ≡ find "state" (action_members J T action d flags)
      → HasState action
      → read_state J action
          (carried_flags action flags)
          (port_type_of (type_of d.connection))
          (serialize J T d action flags)
        ≡ ok (carried_state action)
  unfolding read_state
  read_state-serialize action h p q = ground (
    arith,
    string_lem (state_text J T d) (state_to_string-IsPlain (type_of d.connection) d.state),
    state_to_enum-to_string (type_of d.connection) d.state h,
  )

  read_counters-serialize :
      (action : ConnectionAction)
      → IsWide d
      → read_counters J action (carried_flags action flags) (serialize J T d action flags)
        ≡ ok (carried action flags d.traffic)
  unfolding read_counters
  read_counters-serialize action w = ground (
    arith,
    read_counter-serialize action "rxPackets" "Missing received packets count"
        "Invalid received packets count value type" rx_packets_flag (d.traffic).rx_packets
        (find-serialize J T d action flags "rxPackets" (refl, refl, refl, refl, refl, refl))
        (rx_packets-Has action) w.rx_packets,
    read_counter-serialize action "txPackets" "Missing sent packets count"
        "Invalid sent packets count value type" tx_packets_flag (d.traffic).tx_packets
        (find-serialize J T d action flags "txPackets" (refl, refl, refl, refl, refl, refl))
        (tx_packets-Has action) w.tx_packets,
    read_counter-serialize action "rxBytes" "Missing received bytes count"
        "Invalid received bytes count value type" rx_bytes_flag (d.traffic).rx_bytes
        (find-serialize J T d action flags "rxBytes" (refl, refl, refl, refl, refl, refl))
        (rx_bytes-Has action) w.rx_bytes,
    read_counter-serialize action "txBytes" "Missing sent bytes count"
        "Invalid sent bytes count value type" tx_bytes_flag (d.traffic).tx_bytes
        (find-serialize J T d action flags "txBytes" (refl, refl, refl, refl, refl, refl))
        (tx_bytes-Has action) w.tx_bytes,
    read_counter-serialize action "rxSpeed" "Missing receive speed"
        "Invalid receive speed value type" rx_speed_flag (d.traffic).rx_speed
        (find-serialize J T d action flags "rxSpeed" (refl, refl, refl, refl, refl, refl))
        (rx_speed-Has action) w.rx_speed,
    read_counter-serialize action "txSpeed" "Missing send speed" "Invalid send speed value type"
        tx_speed_flag (d.traffic).tx_speed
        (find-serialize J T d action flags "txSpeed" (refl, refl, refl, refl, refl, refl))
        (tx_speed-Has action) w.tx_speed,
  )

  read_traffic-serialize :
      (action : ConnectionAction)
      → IsWide d
      → read_traffic J action (carried_flags action flags) (serialize J T d action flags)
        ≡ ok (carried action flags d.traffic)
  unfolding read_traffic no_traffic
  read_traffic-serialize create w = read_counters-serialize create w
  read_traffic-serialize update w = read_counters-serialize update w
  read_traffic-serialize remove w = refl

  -- For a connection whose ports and counters fit their widths and whose state is one of its
  -- protocol, and flags below 2^32, the serialized item is read back as it was written: the
  -- action, the type, the texts of the addresses, the ports, the update flags of an UPDATE (0
  -- otherwise), and of the state and the counters those that the item carries (all for CREATE, the
  -- flagged ones for UPDATE, none for REMOVE), the others as 0.
  pub read_item-serialize :
      (action : ConnectionAction)
      → IsWide d
      → flags < 2 ^ 32
      → read_item J (serialize J T d action flags)
        ≡ ok (record {
          action = action;
          connection_type = type_of d.connection;
          src_address = T.to_string (d.connection).src_addr;
          dst_address = T.to_string (d.connection).dst_addr;
          src_port = ((d.connection).src_port).number;
          dst_port = ((d.connection).dst_port).number;
          update_flags = carried_flags action flags;
          state = carried_state action;
          traffic = carried action flags d.traffic;
        })
  unfolding read_item
  read_item-serialize action w h = ground (
    arith,
    read_action-serialize J T d action flags,
    read_type-serialize J T d action flags,
    read_addresses-serialize J T d action flags,
    read_ports-serialize J T d action flags w.src_port w.dst_port,
    read_flags-serialize action h,
    read_state-serialize action w.state
        (find-serialize J T d action flags "state" (refl, refl, refl, refl, refl, refl))
        (state-Has action),
    read_traffic-serialize action w,
  )
