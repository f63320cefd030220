-- ===== src/Connection.antt =====
-- Connections, their kinds and states, and their traffic: Source/Connection.hpp,
-- Source/Connection.cpp, Source/Address.hpp and Source/Port.hpp. An `AddressData *` is modelled by
-- the address that it belongs to, and a `PortData *` by its port: the storage keeps one object for
-- each, so the pointers are equal exactly when these are.
pub mod Names
pub mod Serialize
pub mod Deserialize
use conntop.Prelude.{
  ℕ, ◌^◌, ◌-◌, Bool, true, false, ◌&&◌, String, List, [], ◌∷◌, Option, none, some, find, ◌==◌,
  text_eq, if◌then◌else◌,
}
use conntop.Json.{Result, ok, err}

-- `EAddressType`, with the raw address: 32 bits, or four blocks of them.
pub data Address : Type 0 where
  ip4 : ℕ → Address
  ip6 : ℕ → ℕ → ℕ → ℕ → Address

pub data PortType : Type 0 where
  udp tcp : PortType

pub record Port : Type 0 where
  pub port_type : PortType
  pub number : ℕ

pub data ConnectionType : Type 0 where
  udp4 udp6 tcp4 tcp6 : ConnectionType

pub data ConnectionAction : Type 0 where
  create update remove : ConnectionAction

-- `Connection`: its type follows from the source address and the source port.
pub record Connection : Type 0 where
  pub src_addr : Address
  pub src_port : Port
  pub dst_addr : Address
  pub dst_port : Port

pub record ConnectionTraffic : Type 0 where
  pub rx_packets : ℕ
  pub tx_packets : ℕ
  pub rx_bytes : ℕ
  pub tx_bytes : ℕ
  pub rx_speed : ℕ
  pub tx_speed : ℕ

-- `ConnectionData`; the state is an `int`.
pub record ConnectionData : Type 0 where
  pub connection : Connection
  pub traffic : ConnectionTraffic
  pub state : ℕ

unfoldable pub no_traffic : ConnectionTraffic
no_traffic = record {
  rx_packets = 0;
  tx_packets = 0;
  rx_bytes = 0;
  tx_bytes = 0;
  rx_speed = 0;
  tx_speed = 0;
}

unfoldable pub create_type : Address → PortType → ConnectionType
create_type (ip4 a) udp = udp4
create_type (ip4 a) tcp = tcp4
create_type (ip6 a b c d) udp = udp6
create_type (ip6 a b c d) tcp = tcp6

abbrev pub type_of : Connection → ConnectionType
type_of c = create_type c.src_addr (c.src_port).port_type

unfoldable pub type_to_string : ConnectionType → String
type_to_string udp4 = "udp4"
type_to_string udp6 = "udp6"
type_to_string tcp4 = "tcp4"
type_to_string tcp6 = "tcp6"

unfoldable pub action_to_string : ConnectionAction → String
action_to_string create = "CREATE"
action_to_string update = "UPDATE"
action_to_string remove = "REMOVE"

abbrev connection_type_map : List (String × ConnectionType)
connection_type_map = ("udp4", udp4) ∷ ("udp6", udp6) ∷ ("tcp4", tcp4) ∷ ("tcp6", tcp6) ∷ []

abbrev connection_action_map : List (String × ConnectionAction)
connection_action_map = ("CREATE", create) ∷ ("UPDATE", update) ∷ ("REMOVE", remove) ∷ []

-- A name that is not in the map throws.
abbrev or_throw {ℓ} : {A : Type ℓ} → Option A → String → Result A
or_throw none text = err (text ∷ [])
or_throw (some a) text = ok a

unfoldable pub type_to_enum : String → Result ConnectionType
type_to_enum s = or_throw (find s connection_type_map) "Unknown connection type"

unfoldable pub action_to_enum : String → Result ConnectionAction
action_to_enum s = or_throw (find s connection_action_map) "Unknown connection action"

-- `UDP::EState` and `TCP::EState`: `LISTEN` is -1.
abbrev pub listen : ℕ
listen = 2 ^ 32 - 1

-- The name of a state, by the table of the enumerators that have one.
unfoldable pub name_in : List (ℕ × String) → ℕ → String
name_in [] state = "?"
name_in ((n, name) ∷ rest) state = if n == state then name else name_in rest state

abbrev pub tcp_names : List (ℕ × String)
tcp_names =
    (listen, "LISTEN")
    ∷ (1, "SYN_SENT")
    ∷ (2, "SYN_RECEIVED")
    ∷ (3, "ESTABLISHED")
    ∷ (4, "FIN_WAIT")
    ∷ (5, "FIN_WAIT_1")
    ∷ (6, "FIN_WAIT_2")
    ∷ (7, "CLOSE_WAIT")
    ∷ (8, "CLOSING")
    ∷ (9, "LAST_ACK")
    ∷ (10, "TIME_WAIT")
    ∷ (11, "CLOSED")
    ∷ []

unfoldable pub udp_state_to_string : ℕ → String
udp_state_to_string state = if state == 0 then "" else if state == listen then "LISTEN" else "?"

unfoldable pub tcp_state_to_string : ℕ → String
unfolding name_in
tcp_state_to_string state = name_in tcp_names state

abbrev udp_state_map : List (String × ℕ)
udp_state_map = ("LISTEN", listen) ∷ []

abbrev tcp_state_map : List (String × ℕ)
tcp_state_map =
    ("LISTEN", listen)
    ∷ ("SYN_SENT", 1)
    ∷ ("SYN_RECEIVED", 2)
    ∷ ("ESTABLISHED", 3)
    ∷ ("FIN_WAIT", 4)
    ∷ ("FIN_WAIT_1", 5)
    ∷ ("FIN_WAIT_2", 6)
    ∷ ("CLOSE_WAIT", 7)
    ∷ ("CLOSING", 8)
    ∷ ("LAST_ACK", 9)
    ∷ ("TIME_WAIT", 10)
    ∷ ("CLOSED", 11)
    ∷ []

abbrev or_unknown : Option ℕ → ℕ
or_unknown none = 0
or_unknown (some n) = n

unfoldable pub udp_state_to_enum : String → ℕ
udp_state_to_enum s =
    if text_eq s "" then 0 else if text_eq s "?" then 0 else or_unknown (find s udp_state_map)

unfoldable pub tcp_state_to_enum : String → ℕ
tcp_state_to_enum s =
    if text_eq s "" then 0 else if text_eq s "?" then 0 else or_unknown (find s tcp_state_map)

unfoldable pub state_to_string : ℕ → ConnectionType → String
state_to_string state udp4 = udp_state_to_string state
state_to_string state udp6 = udp_state_to_string state
state_to_string state tcp4 = tcp_state_to_string state
state_to_string state tcp6 = tcp_state_to_string state

-- The port type of a connection type, as `Deserialize` switches on it.
unfoldable pub port_type_of : ConnectionType → PortType
port_type_of udp4 = udp
port_type_of udp6 = udp
port_type_of tcp4 = tcp
port_type_of tcp6 = tcp

unfoldable pub state_to_enum : PortType → String → ℕ
state_to_enum udp s = udp_state_to_enum s
state_to_enum tcp s = tcp_state_to_enum s

unfoldable pub is_proto_equal : ConnectionType → ConnectionType → Bool
is_proto_equal udp4 udp4 = true
is_proto_equal udp4 udp6 = true
is_proto_equal udp6 udp4 = true
is_proto_equal udp6 udp6 = true
is_proto_equal tcp4 tcp4 = true
is_proto_equal tcp4 tcp6 = true
is_proto_equal tcp6 tcp4 = true
is_proto_equal tcp6 tcp6 = true
is_proto_equal _ _ = false

-- Equality of addresses, of ports and of connections (`operator==`, `isEqual`).
unfoldable pub address_eq : Address → Address → Bool
address_eq (ip4 a) (ip4 b) = a == b
address_eq (ip6 a b c d) (ip6 a' b' c' d') = d == d' && (c == c' && (b == b' && a == a'))
address_eq _ _ = false

unfoldable pub port_type_eq : PortType → PortType → Bool
port_type_eq udp udp = true
port_type_eq tcp tcp = true
port_type_eq _ _ = false

unfoldable pub port_eq : Port → Port → Bool
unfolding port_type_eq
port_eq a b = port_type_eq a.port_type b.port_type && a.number == b.number

unfoldable pub connection_type_eq : ConnectionType → ConnectionType → Bool
connection_type_eq udp4 udp4 = true
connection_type_eq udp6 udp6 = true
connection_type_eq tcp4 tcp4 = true
connection_type_eq tcp6 tcp6 = true
connection_type_eq _ _ = false

unfoldable pub connection_eq : Connection → Connection → Bool
connection_eq a b =
    address_eq a.src_addr b.src_addr
    && (address_eq a.dst_addr b.dst_addr
        && (connection_type_eq (type_of a) (type_of b)
            && (port_eq a.src_port b.src_port && port_eq a.dst_port b.dst_port)))
