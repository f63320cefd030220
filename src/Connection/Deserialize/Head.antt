-- ===== src/Connection/Deserialize/Head.antt =====
-- Reading back the members that every item has. Source/Connection.cpp.
use conntop.Prelude.{ℕ, ◌<◌, ◌^◌, ◌≡◌, refl, false, String, find, text_eq, arith}
use conntop.Json.{JsonLib, has_nul, ok}
use conntop.Connection.{
  ConnectionAction, create, ConnectionData, ConnectionType, type_of, type_to_string,
  action_to_string, udp4,
}
use conntop.Connection.Names.{type_to_enum-to_string, action_to_enum-to_string}
use conntop.Connection.Serialize.{AddressText, action_members, serialize}
use conntop.Connection.Deserialize.{read_action, read_type, read_addresses, read_ports}

action_IsPlain : (a : ConnectionAction) → has_nul (action_to_string a) ≡ false
unfolding action_to_string
action_IsPlain create = refl
action_IsPlain a = refl

type_IsPlain : (t : ConnectionType) → has_nul (type_to_string t) ≡ false
unfolding type_to_string
type_IsPlain udp4 = refl
type_IsPlain a = refl

module _ (J : JsonLib) (T : AddressText) (d : ConnectionData) (action : ConnectionAction)
    (flags : ℕ) where
  open J use {find_member-object, string_lem, uint_lem}
  open T use {to_string, plain}

  pub read_action-serialize : read_action J (serialize J T d action flags) ≡ ok action
  unfolding read_action serialize
  read_action-serialize = simp find_member-object (
      ground (
        arith,
        string_lem (action_to_string action) (action_IsPlain action),
        action_to_enum-to_string action,
      ))

  pub read_type-serialize : read_type J (serialize J T d action flags) ≡ ok (type_of d.connection)
  unfolding read_type serialize
  read_type-serialize = simp find_member-object (
      ground (
        arith,
        string_lem (type_to_string (type_of d.connection)) (type_IsPlain (type_of d.connection)),
        type_to_enum-to_string (type_of d.connection),
      ))

  pub read_addresses-serialize :
      read_addresses J (serialize J T d action flags)
      ≡ ok (to_string (d.connection).src_addr, to_string (d.connection).dst_addr)
  unfolding read_addresses serialize
  read_addresses-serialize = simp find_member-object (
      ground (
        arith,
        string_lem (to_string (d.connection).src_addr) (plain (d.connection).src_addr),
        string_lem (to_string (d.connection).dst_addr) (plain (d.connection).dst_addr),
      ))

  pub read_ports-serialize :
      ((d.connection).src_port).number < 2 ^ 16
      → ((d.connection).dst_port).number < 2 ^ 16
      → read_ports J (serialize J T d action flags)
        ≡ ok (((d.connection).src_port).number, ((d.connection).dst_port).number)
  unfolding read_ports serialize
  read_ports-serialize hs hd = simp find_member-object (
      ground (
        arith,
        uint_lem ((d.connection).src_port).number (omega arith),
        uint_lem ((d.connection).dst_port).number (omega arith),
      ))

  -- A name that none of the first six members has.
  abbrev pub Later : String → Type 0
  Later k =
      (text_eq "action" k ≡ false)
      × (text_eq "type" k ≡ false)
      × (text_eq "srcAddress" k ≡ false)
      × (text_eq "dstAddress" k ≡ false)
      × (text_eq "srcPort" k ≡ false)
      × (text_eq "dstPort" k ≡ false)

  pub find-serialize :
      (k : String)
      → Later k
      → J.find_member k (serialize J T d action flags) ≡ find k (action_members J T action d flags)
  unfolding serialize
  find-serialize k h = simp find_member-object (ground arith)
