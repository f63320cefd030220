-- ===== src/Conntrack/Measure.antt =====
-- What `Conntrack::handleQuery` writes to a known connection, and what it reports.
-- Source/Collector_Netfilter/Conntrack.cpp.
use conntop.Prelude.{
  ℕ, ◌<◌, ◌≤◌, inl, ◌^◌, ◌≡◌, refl, sym, ◌∙◌, Bool, true, false, has_flag, arith, if◌then◌else◌,
}
use conntop.Connection.{
  PortType, udp, tcp, udp4, udp6, tcp4, tcp6, ConnectionType, port_type_of, ConnectionData, type_of,
}
use conntop.Connection.Serialize.{
  proto_state_flag, rx_packets_flag, tx_packets_flag, rx_bytes_flag, tx_bytes_flag, rx_speed_flag,
  tx_speed_flag,
}
use conntop.Connection.Deserialize.Apply.Stored.{Covers}
use conntop.Connection.Names.{IsState}
use conntop.Server.Updates.Changes.{IsFit}
use conntop.Conntrack.{
  NfConntrack, measured, metered, update_flags_of, is_state_changed, tcp_state_is_equal,
  tcp_state_to_enum, sub64, is_tcp, RawState,
}

flags_lem :
    (a b c d e f g : Bool)
    → let flags = update_flags_of a b c d e f g in
      (has_flag flags proto_state_flag ≡ a)
      × (has_flag flags rx_packets_flag ≡ b)
      × (has_flag flags tx_packets_flag ≡ c)
      × (has_flag flags rx_bytes_flag ≡ d)
      × (has_flag flags rx_speed_flag ≡ e)
      × (has_flag flags tx_bytes_flag ≡ f)
      × (has_flag flags tx_speed_flag ≡ g)
      × (flags < 2 ^ 32)
flags_lem a b c d e f g = ground arith

metered_lem :
    (value bytes speed : ℕ)
    → value < 2 ^ 64
    → bytes < 2 ^ 64
    → let (bytes', changed, speed', speed_changed) = metered value bytes speed in
      (bytes' ≡ value)
      × (speed' ≡ sub64 value bytes)
      × (changed ≡ false → bytes' ≡ bytes)
      × (speed_changed ≡ false → speed' ≡ speed)
unfolding metered
metered_lem value bytes speed h k = ground arith

tcp_state_is_equal_lem :
    (state : ℕ) (raw : RawState)
    → tcp_state_is_equal state raw ≡ true
    → state ≡ tcp_state_to_enum raw
unfolding tcp_state_is_equal tcp_state_to_enum
tcp_state_is_equal_lem state raw h = ground arith

-- The counters that the kernel gives are `uint64_t`.
pub record IsCounted (ct : NfConntrack) : Type 0 where
  pub repl_counter_packets : ct.repl_counter_packets < 2 ^ 64
  pub orig_counter_packets : ct.orig_counter_packets < 2 ^ 64
  pub repl_counter_bytes : ct.repl_counter_bytes < 2 ^ 64
  pub orig_counter_bytes : ct.orig_counter_bytes < 2 ^ 64

-- Flags that name nothing leave nothing to change.
Covers-none : (old new : ConnectionData) → Covers 0 old new → new ≡ old
Covers-none old new c = ground (
  arith,
  c.connection,
  c.state refl,
  c.rx_packets refl,
  c.tx_packets refl,
  c.rx_bytes refl,
  c.tx_bytes refl,
  c.rx_speed refl,
  c.tx_speed refl,
)

module _ (ct : NfConntrack) (d : ConnectionData) (c : IsCounted ct)
    (rx : (d.traffic).rx_bytes < 2 ^ 64) (tx : (d.traffic).tx_bytes < 2 ^ 64) where
  abbrev new : ConnectionData
  new = (measured ct d).0

  abbrev flags : ℕ
  flags = (measured ct d).1

  -- The update flags that a look at a known connection reports, with the kernel's counters and the
  -- connection's byte counters below 2^64, name every field that it changed, and are below 2^32.
  pub measured-Covers : Covers flags d new × (flags < 2 ^ 32)
  unfolding measured
  measured-Covers =
      let r =
        metered_lem ct.repl_counter_bytes (d.traffic).rx_bytes (d.traffic).rx_speed
          c.repl_counter_bytes rx in
      let t =
        metered_lem ct.orig_counter_bytes (d.traffic).tx_bytes (d.traffic).tx_speed
          c.orig_counter_bytes tx in
      let f = flags_lem _ _ _ _ _ _ _ in
      (
        record {
          connection = refl;
          state = λ h. ground (arith, sym f.0 ∙ h);
          rx_packets = λ h. ground (arith, sym f.1 ∙ h);
          tx_packets = λ h. ground (arith, sym f.2 ∙ h);
          rx_bytes = λ h. r.2 (sym f.3 ∙ h);
          rx_speed = λ h. r.3 (sym f.4 ∙ h);
          tx_bytes = λ h. t.2 (sym f.5 ∙ h);
          tx_speed = λ h. t.3 (sym f.6 ∙ h);
        },
        f.7,
      )

  -- After a look at a known connection, whose byte counters are below 2^64 like the kernel's
  -- counters, the packet and byte counters are the kernel's, each speed is the difference of the
  -- byte counters mod 2^64, and the state is the kernel's for TCP, the same as before for UDP.
  pub measured_lem :
      ((new.traffic).rx_packets ≡ ct.repl_counter_packets)
      × ((new.traffic).tx_packets ≡ ct.orig_counter_packets)
      × ((new.traffic).rx_bytes ≡ ct.repl_counter_bytes)
      × ((new.traffic).tx_bytes ≡ ct.orig_counter_bytes)
      × ((new.traffic).rx_speed ≡ sub64 ct.repl_counter_bytes (d.traffic).rx_bytes)
      × ((new.traffic).tx_speed ≡ sub64 ct.orig_counter_bytes (d.traffic).tx_bytes)
      × (new.state
          ≡ (if is_tcp (type_of d.connection) then tcp_state_to_enum ct.tcp_state else d.state))
  unfolding measured is_state_changed
  measured_lem =
      let r =
        metered_lem ct.repl_counter_bytes (d.traffic).rx_bytes (d.traffic).rx_speed
          c.repl_counter_bytes rx in
      let t =
        metered_lem ct.orig_counter_bytes (d.traffic).tx_bytes (d.traffic).tx_speed
          c.orig_counter_bytes tx in
      (
        ground arith,
        ground arith,
        r.0,
        t.0,
        r.1,
        t.1,
        ground (arith, tcp_state_is_equal_lem d.state ct.tcp_state),
      )

  pub measured-still : flags ≡ 0 → new ≡ d
  measured-still h = Covers-none d new (rw (← h) measured-Covers.0)

pub unknown-IsState : (t : PortType) → IsState t 0
unknown-IsState udp = inl refl
unknown-IsState tcp = inl (omega arith)

tcp_state_to_enum_bound : (raw : RawState) → tcp_state_to_enum raw ≤ 11
unfolding tcp_state_to_enum
tcp_state_to_enum_bound raw = ground arith

-- A state that was one of the connection's protocol, or the kernel's.
seen-IsState :
    (type : ConnectionType) (raw : RawState) (state : ℕ)
    → IsState (port_type_of type) state
    → IsState (port_type_of type) (if is_tcp type then tcp_state_to_enum raw else state)
unfolding port_type_of
seen-IsState udp4 raw state h = h
seen-IsState udp6 raw state h = h
seen-IsState tcp4 raw state h = inl (tcp_state_to_enum_bound raw)
seen-IsState tcp6 raw state h = inl (tcp_state_to_enum_bound raw)

-- A look at a known connection that an item can carry, with the kernel's counters below 2^64,
-- leaves data that an item can carry: ports below 2^16, counters and speeds below 2^64, a state of
-- the connection's protocol, and both ends of one family and protocol.
pub measured-IsFit :
    (ct : NfConntrack) (d : ConnectionData) → IsCounted ct → IsFit d → IsFit (measured ct d).0
measured-IsFit ct d c f =
    let (rp, tp, rb, tb, rs, ts, st) = measured_lem ct d c f.wide.rx_bytes f.wide.tx_bytes in
    let (k, _) = measured-Covers ct d c f.wide.rx_bytes f.wide.tx_bytes in
    record {
      wide = record {
        src_port = rw k.connection f.wide.src_port;
        dst_port = rw k.connection f.wide.dst_port;
        state =
            rw (k.connection, st)
              (seen-IsState (type_of d.connection) ct.tcp_state d.state f.wide.state);
        rx_packets = rw rp c.repl_counter_packets;
        tx_packets = rw tp c.orig_counter_packets;
        rx_bytes = rw rb c.repl_counter_bytes;
        tx_bytes = rw tb c.orig_counter_bytes;
        rx_speed = rw rs (omega arith);
        tx_speed = rw ts (omega arith);
      };
      uniform = rw k.connection f.uniform;
    }
