-- ===== src/Connection/Serialize.antt =====
-- `ConnectionData::serialize` of Source/Connection.cpp, and the flags of an update.
use conntop.Prelude.{ℕ, Bool, String, List, [], ◌∷◌, if◌then◌else◌, has_flag}
use conntop.Json.{JsonLib, Result, has_nul, ok}
use conntop.Prelude.{◌≡◌, false}
use conntop.Connection.{
  Address, ip4, ip6, ConnectionAction, create, update, remove, ConnectionData, type_of,
  type_to_string, action_to_string, state_to_string,
}

-- `EConnectionUpdateFlags`
abbrev pub proto_state_flag : ℕ
proto_state_flag = 2

abbrev pub rx_packets_flag : ℕ
rx_packets_flag = 64

abbrev pub tx_packets_flag : ℕ
tx_packets_flag = 128

abbrev pub rx_bytes_flag : ℕ
rx_bytes_flag = 256

abbrev pub tx_bytes_flag : ℕ
tx_bytes_flag = 512

abbrev pub rx_speed_flag : ℕ
rx_speed_flag = 1024

abbrev pub tx_speed_flag : ℕ
tx_speed_flag = 2048

-- `toString` and `CreateFromString` of both kinds of address (Source/Platform/Unix/Address.cpp),
-- which stand on the platform's `inet_ntop` and `inet_pton`: the texts are read back.
pub record AddressText : Type 0 where
  pub to_string : Address → String
  pub ip4_from_string : String → Result Address
  pub ip6_from_string : String → Result Address
  pub plain : (a : Address) → has_nul (to_string a) ≡ false
  pub ip4_lem : (a : ℕ) → ip4_from_string (to_string (ip4 a)) ≡ ok (ip4 a)
  pub ip6_lem : (a b c d : ℕ) → ip6_from_string (to_string (ip6 a b c d)) ≡ ok (ip6 a b c d)

-- A member that is added under a condition.
unfoldable pub member_if {ℓ} :
    {V : Type ℓ} → Bool → String → V → List (String × V) → List (String × V)
member_if b k v ms = if b then (k, v) ∷ ms else ms

module _ (J : JsonLib) (T : AddressText) where
  open J use {Value, object, set_string, set_int, set_uint, set_uint64}
  open T use {to_string}

  abbrev pub state_text : ConnectionData → String
  state_text d = state_to_string d.state (type_of d.connection)

  unfoldable pub create_members : ConnectionData → List (String × Value)
  create_members d =
      ("state", set_string (state_text d))
      ∷ ("rxPackets", set_uint64 (d.traffic).rx_packets)
      ∷ ("txPackets", set_uint64 (d.traffic).tx_packets)
      ∷ ("rxBytes", set_uint64 (d.traffic).rx_bytes)
      ∷ ("txBytes", set_uint64 (d.traffic).tx_bytes)
      ∷ ("rxSpeed", set_uint64 (d.traffic).rx_speed)
      ∷ ("txSpeed", set_uint64 (d.traffic).tx_speed)
      ∷ []

  unfoldable pub update_members : ConnectionData → ℕ → List (String × Value)
  update_members d flags =
      ("updateFlags", set_int flags)
      ∷ member_if (has_flag flags proto_state_flag) "state" (set_string (state_text d)) (
          member_if (has_flag flags rx_packets_flag) "rxPackets" (set_uint64 (d.traffic).rx_packets)
            (member_if (has_flag flags tx_packets_flag) "txPackets"
              (set_uint64 (d.traffic).tx_packets)
              (member_if (has_flag flags rx_bytes_flag) "rxBytes" (set_uint64 (d.traffic).rx_bytes)
                (member_if (has_flag flags tx_bytes_flag) "txBytes"
                  (set_uint64 (d.traffic).tx_bytes)
                  (member_if (has_flag flags rx_speed_flag) "rxSpeed"
                    (set_uint64 (d.traffic).rx_speed)
                    (member_if (has_flag flags tx_speed_flag) "txSpeed"
                      (set_uint64 (d.traffic).tx_speed) []))))))

  unfoldable pub action_members : ConnectionAction → ConnectionData → ℕ → List (String × Value)
  action_members create d flags = create_members d
  action_members update d flags = update_members d flags
  action_members remove d flags = []

  -- Every connection has ports.
  unfoldable pub serialize_members : ConnectionData → ConnectionAction → ℕ → List (String × Value)
  serialize_members d action flags =
      ("action", set_string (action_to_string action))
      ∷ ("type", set_string (type_to_string (type_of d.connection)))
      ∷ ("srcAddress", set_string (to_string (d.connection).src_addr))
      ∷ ("dstAddress", set_string (to_string (d.connection).dst_addr))
      ∷ ("srcPort", set_uint ((d.connection).src_port).number)
      ∷ ("dstPort", set_uint ((d.connection).dst_port).number)
      ∷ action_members action d flags

  unfoldable pub serialize : ConnectionData → ConnectionAction → ℕ → Value
  unfolding serialize_members
  serialize d action flags = object (serialize_members d action flags)
