-- ===== src/ConnectionList/Sort.antt =====
-- The orders that `ConnectionList::updateCompareFunc` chooses from. Source/ConnectionList.cpp.
pub mod Order
use conntop.Prelude.{ℕ, ◌+◌, ◌%◌, ◌^◌, Bool, true, false, List, [], ◌∷◌, ltb, ◌==◌, if◌then◌else◌}
use conntop.Connection.{
  Address, ip4, ip6, Port, ConnectionType, udp4, udp6, tcp4, tcp6, ConnectionData,
  ConnectionTraffic, type_of, is_proto_equal,
}

-- `EConnectionSortMode`
pub data SortMode : Type 0 where
  unsorted proto proto_state src_address dst_address src_hostname dst_hostname : SortMode
  src_asn dst_asn src_country dst_country src_port dst_port src_service dst_service : SortMode
  rx_packets tx_packets rx_bytes tx_bytes rx_speed tx_speed : SortMode

-- What is known of addresses and ports at the time, with a text as its characters' numbers, a
-- system's number, and the number of a country's code.
pub record Names : Type 0 where
  pub numeric_string : Address → List ℕ
  pub hostname_string : Address → List ℕ
  pub asn : Address → ℕ
  pub country : Address → ℕ
  pub service_string : Port → List ℕ

-- `operator<` of `std::string`.
unfoldable pub text_less : List ℕ → List ℕ → Bool
text_less xs [] = false
text_less [] (y ∷ ys) = true
text_less (x ∷ xs) (y ∷ ys) =
    let rest = text_less xs ys in if ltb x y then true else if ltb y x then false else rest

-- `a < b` for two `int`s.
abbrev pub int_less : ℕ → ℕ → Bool
int_less a b = ltb ((a + 2 ^ 31) % 2 ^ 32) ((b + 2 ^ 31) % 2 ^ 32)

-- The places of the enumerators in `EConnectionType` and `EAddressType`.
abbrev pub type_rank : ConnectionType → ℕ
type_rank udp4 = 0
type_rank udp6 = 1
type_rank tcp4 = 2
type_rank tcp6 = 3

abbrev pub address_rank : Address → ℕ
address_rank (ip4 a) = 0
address_rank (ip6 a b c d) = 1

unfoldable pub proto_less : ConnectionData → ConnectionData → Bool
proto_less a b = ltb (type_rank (type_of a.connection)) (type_rank (type_of b.connection))

unfoldable pub proto_state_less : ConnectionData → ConnectionData → Bool
proto_state_less a b =
    let p = type_of a.connection in
    let q = type_of b.connection in
    if is_proto_equal p q then int_less a.state b.state else ltb (type_rank p) (type_rank q)

unfoldable pub address_less : Names → Address → Address → Bool
address_less n a b =
    if address_rank a == address_rank b
    then text_less (n.numeric_string a) (n.numeric_string b)
    else ltb (address_rank a) (address_rank b)

abbrev pub hostname_less : Names → Address → Address → Bool
hostname_less n a b = text_less (n.hostname_string a) (n.hostname_string b)

abbrev pub asn_less : Names → Address → Address → Bool
asn_less n a b = ltb (n.asn a) (n.asn b)

abbrev pub country_less : Names → Address → Address → Bool
country_less n a b = ltb (n.country a) (n.country b)

-- Every connection has ports.
abbrev pub port_less : Port → Port → Bool
port_less p q = ltb p.number q.number

abbrev pub service_less : Names → Port → Port → Bool
service_less n p q = text_less (n.service_string p) (n.service_string q)

-- The order of a packet or byte counter, or of a speed.
abbrev pub counter_less : (ConnectionTraffic → ℕ) → ConnectionData → ConnectionData → Bool
counter_less of a b = ltb (of a.traffic) (of b.traffic)

-- The order of a mode, ascending.
unfoldable pub ascending : Names → SortMode → ConnectionData → ConnectionData → Bool
ascending n mode a b =
    let c = a.connection in
    let d = b.connection in
    elim mode [
      | unsorted ↦ false
      | proto ↦ proto_less a b
      | proto_state ↦ proto_state_less a b
      | src_address ↦ address_less n c.src_addr d.src_addr
      | dst_address ↦ address_less n c.dst_addr d.dst_addr
      | src_hostname ↦ hostname_less n c.src_addr d.src_addr
      | dst_hostname ↦ hostname_less n c.dst_addr d.dst_addr
      | src_asn ↦ asn_less n c.src_addr d.src_addr
      | dst_asn ↦ asn_less n c.dst_addr d.dst_addr
      | src_country ↦ country_less n c.src_addr d.src_addr
      | dst_country ↦ country_less n c.dst_addr d.dst_addr
      | src_port ↦ port_less c.src_port d.src_port
      | dst_port ↦ port_less c.dst_port d.dst_port
      | src_service ↦ service_less n c.src_port d.src_port
      | dst_service ↦ service_less n c.dst_port d.dst_port
      | rx_packets ↦ counter_less (λ t. t.rx_packets) a b
      | tx_packets ↦ counter_less (λ t. t.tx_packets) a b
      | rx_bytes ↦ counter_less (λ t. t.rx_bytes) a b
      | tx_bytes ↦ counter_less (λ t. t.tx_bytes) a b
      | rx_speed ↦ counter_less (λ t. t.rx_speed) a b
      | tx_speed ↦ counter_less (λ t. t.tx_speed) a b
    ]

-- `m_compareFunc`; a descending order has its arguments the other way round.
unfoldable pub compare_func : Names → SortMode → Bool → ConnectionData → ConnectionData → Bool
compare_func n mode is_ascending a b =
    if is_ascending then ascending n mode a b else ascending n mode b a
