-- ===== src/Conntrack.antt =====
-- What Source/Collector_Netfilter/Conntrack.cpp reads of a tracked connection, and what it makes of
-- its counters. An `nf_conntrack` is a record of the attributes that the program asks
-- libnetfilter_conntrack for.
pub mod Measure
pub mod Collector
use conntop.Prelude.{
  ℕ, ◌+◌, ◌-◌, ◌%◌, ◌^◌, Bool, true, false, not, ◌||◌, String, List, [], ◌∷◌, ◌++◌, Option, none,
  some, ◌==◌, bit_or, if◌then◌else◌,
}
use conntop.Session.{Outcome, done, thrown, PollFlags}
use conntop.Connection.{
  Address, ip4, ip6, Port, PortType, udp, tcp, udp4, udp6, tcp4, tcp6, ConnectionType, Connection,
  ConnectionTraffic, ConnectionData, type_of,
}
use conntop.Connection.Serialize.{
  proto_state_flag, rx_packets_flag, tx_packets_flag, rx_bytes_flag, tx_bytes_flag, rx_speed_flag,
  tx_speed_flag,
}
use conntop.Connection.Deserialize.Apply.{UpdateCallback}

-- The values of the attributes, by the names that the kernel's headers have for them.
pub data L3Proto : Type 0 where
  af_inet af_inet6 other_family : L3Proto

pub data L4Proto : Type 0 where
  ipproto_udp ipproto_tcp other_proto : L4Proto

pub data RawState : Type 0 where
  conntrack_none conntrack_syn_sent conntrack_syn_sent2 conntrack_syn_recv : RawState
  conntrack_established conntrack_fin_wait conntrack_close_wait conntrack_last_ack : RawState
  conntrack_time_wait conntrack_close other_state : RawState

pub record NfConntrack : Type 0 where
  pub l3_proto : L3Proto
  pub l4_proto : L4Proto
  pub ipv4_src : ℕ
  pub ipv4_dst : ℕ
  pub ipv6_src : ℕ × ℕ × ℕ × ℕ
  pub ipv6_dst : ℕ × ℕ × ℕ × ℕ
  pub port_src : ℕ
  pub port_dst : ℕ
  pub tcp_state : RawState
  pub repl_counter_packets : ℕ
  pub orig_counter_packets : ℕ
  pub repl_counter_bytes : ℕ
  pub orig_counter_bytes : ℕ

unfoldable pub tcp_state_to_enum : RawState → ℕ
tcp_state_to_enum conntrack_none = 0
tcp_state_to_enum conntrack_syn_sent = 1
tcp_state_to_enum conntrack_syn_sent2 = 1
tcp_state_to_enum conntrack_syn_recv = 2
tcp_state_to_enum conntrack_established = 3
tcp_state_to_enum conntrack_fin_wait = 4
tcp_state_to_enum conntrack_close_wait = 7
tcp_state_to_enum conntrack_last_ack = 9
tcp_state_to_enum conntrack_time_wait = 10
tcp_state_to_enum conntrack_close = 8
tcp_state_to_enum other_state = 0

unfoldable pub tcp_state_is_equal : ℕ → RawState → Bool
tcp_state_is_equal state conntrack_none = state == 0
tcp_state_is_equal state conntrack_syn_sent = state == 1
tcp_state_is_equal state conntrack_syn_sent2 = state == 1
tcp_state_is_equal state conntrack_syn_recv = state == 2
tcp_state_is_equal state conntrack_established = state == 3
tcp_state_is_equal state conntrack_fin_wait = state == 4
tcp_state_is_equal state conntrack_close_wait = state == 7
tcp_state_is_equal state conntrack_last_ack = state == 9
tcp_state_is_equal state conntrack_time_wait = state == 10
tcp_state_is_equal state conntrack_close = state == 8
tcp_state_is_equal state other_state = false

-- `a - b` for a `uint64_t`.
abbrev pub sub64 : ℕ → ℕ → ℕ
sub64 a b = (a + (2 ^ 64 - b)) % 2 ^ 64

unfoldable pub port_type_in : NfConntrack → Option PortType
port_type_in ct = elim ct.l4_proto [
  | ipproto_udp ↦ some udp
  | ipproto_tcp ↦ some tcp
  | other_proto ↦ none
]

-- The addresses of a family that the program knows.
unfoldable pub addresses_in : NfConntrack → Option (Address × Address)
addresses_in ct = elim ct.l3_proto [
  | af_inet ↦ some (ip4 ct.ipv4_src, ip4 ct.ipv4_dst)
  | af_inet6 ↦
      let (a, b, c, d) = ct.ipv6_src in
      let (e, f, g, h) = ct.ipv6_dst in some (ip6 a b c d, ip6 e f g h)
  | other_family ↦ none
]

-- `traffic` of a connection that is added.
unfoldable pub first_traffic : NfConntrack → ConnectionTraffic
first_traffic ct = record {
  rx_packets = ct.repl_counter_packets;
  tx_packets = ct.orig_counter_packets;
  rx_bytes = ct.repl_counter_bytes;
  tx_bytes = ct.orig_counter_bytes;
  rx_speed = 0;
  tx_speed = 0;
}

abbrev pub is_tcp : ConnectionType → Bool
is_tcp tcp4 = true
is_tcp tcp6 = true
is_tcp udp4 = false
is_tcp udp6 = false

unfoldable pub first_state : NfConntrack → ConnectionType → ℕ
first_state ct type = if is_tcp type then tcp_state_to_enum ct.tcp_state else 0

-- A byte counter's new value, and the speed: the bytes, whether they have changed, the speed, and
-- whether it has changed.
unfoldable pub metered : ℕ → ℕ → ℕ → ℕ × Bool × ℕ × Bool
metered value bytes speed =
    let now = sub64 value bytes in
    if not (now == 0)
    then (if not (now == speed) then (value, true, now, true) else (value, true, speed, false))
    else (if not (speed == 0) then (bytes, false, 0, true) else (bytes, false, speed, false))

-- `updateFlags`, by what has changed.
abbrev pub update_flags_of : Bool → Bool → Bool → Bool → Bool → Bool → Bool → ℕ
update_flags_of state rx_packets tx_packets rx_bytes rx_speed tx_bytes tx_speed =
    let at : Bool → ℕ → ℕ = (λ b flag. if b then flag else 0) in
    bit_or (at state proto_state_flag) (
      bit_or (at rx_packets rx_packets_flag) (
        bit_or (at tx_packets tx_packets_flag) (
          bit_or (at rx_bytes rx_bytes_flag) (
            bit_or (at rx_speed rx_speed_flag)
              (bit_or (at tx_bytes tx_bytes_flag) (at tx_speed tx_speed_flag))))))

unfoldable pub is_state_changed : NfConntrack → ConnectionData → Bool
is_state_changed ct d =
    if is_tcp (type_of d.connection) then not (tcp_state_is_equal d.state ct.tcp_state) else false

-- The data of a known connection after a look at its counters, and `updateFlags`.
unfoldable pub measured : NfConntrack → ConnectionData → ConnectionData × ℕ
measured ct d =
    let t = d.traffic in
    let state = is_state_changed ct d in
    let rx_packets = not (t.rx_packets == ct.repl_counter_packets) in
    let tx_packets = not (t.tx_packets == ct.orig_counter_packets) in
    let (rx, rx_bytes, rx_rate, rx_speed) = metered ct.repl_counter_bytes t.rx_bytes t.rx_speed in
    let (tx, tx_bytes, tx_rate, tx_speed) = metered ct.orig_counter_bytes t.tx_bytes t.tx_speed in
    (
      record d {
        state = if state then tcp_state_to_enum ct.tcp_state else d.state;
        traffic = record {
          rx_packets = if rx_packets then ct.repl_counter_packets else t.rx_packets;
          tx_packets = if tx_packets then ct.orig_counter_packets else t.tx_packets;
          rx_bytes = rx;
          tx_bytes = tx;
          rx_speed = rx_rate;
          tx_speed = tx_rate;
        };
      },
      update_flags_of state rx_packets tx_packets rx_bytes rx_speed tx_bytes tx_speed,
    )
