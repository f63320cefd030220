-- ===== src/Conntrack/Collector.antt =====
-- `Conntrack` of Source/Collector_Netfilter/Conntrack.hpp and Conntrack.cpp: its state, the kernel's
-- events and the dumps of its table. What the library calls back with, and what it returns, are
-- arguments. A run of `EventPollHandler` that does not throw renews its registration with the poll
-- system, which is not kept here.
pub mod Extract
pub mod Serves
pub mod Life
use conntop.Prelude.{
  ℕ, ◌+◌, ◌-◌, ◌%◌, ◌^◌, Bool, true, false, not, ◌||◌, String, List, [], ◌∷◌, ◌++◌, Option, none,
  some, ◌==◌, bit_or, if◌then◌else◌,
}
use conntop.Session.{Outcome, done, thrown, PollFlags}
use conntop.Connection.{
  Address, ip4, ip6, Port, PortType, udp, tcp, udp4, udp6, tcp4, tcp6, ConnectionType, Connection,
  ConnectionTraffic, ConnectionData, type_of,
}
use conntop.Connection.Serialize.{
  proto_state_flag, rx_packets_flag, tx_packets_flag, rx_bytes_flag, tx_bytes_flag, rx_speed_flag,
  tx_speed_flag,
}
use conntop.Connection.Deserialize.Apply.{UpdateCallback}
use conntop.Conntrack.{
  L3Proto, L4Proto, RawState, NfConntrack, tcp_state_to_enum, tcp_state_is_equal, sub64,
  port_type_in, addresses_in, first_traffic, is_tcp, first_state, metered, update_flags_of,
  is_state_changed, measured,
}

-- `ConntrackEvent`
pub data EventType : Type 0 where
  new_connection removed_connection : EventType

pub record ConntrackEvent : Type 0 where
  pub type : EventType
  pub connection : Connection

-- `nf_conntrack_msg_type`, of which two are handled.
pub data MsgType : Type 0 where
  nfct_t_new nfct_t_destroy other_msg : MsgType

pub record Conntrack : Type 0 where
  pub event_queue : List ConntrackEvent
  pub is_initialized : Bool
  pub is_refill_required : Bool
  pub is_paused : Bool

unfoldable pub new_conntrack : Conntrack
new_conntrack = record {
  event_queue = [];
  is_initialized = false;
  is_refill_required = true;
  is_paused = false;
}

unfoldable pub set_paused : Bool → Conntrack → Conntrack
set_paused paused k =
    let changed = record k { is_paused = paused; is_refill_required = true } in
    if k.is_paused then (if paused then k else changed) else (if paused then changed else k)

unfoldable pub is_new : EventType → Bool
is_new new_connection = true
is_new removed_connection = false

queued : EventType → Option Connection → Conntrack → Conntrack
queued type none k = k
queued type (some c) k = record k {
  event_queue = k.event_queue ++ (record { type = type; connection = c } ∷ []);
}

-- What `nfct_catch` returns when it has called back, by its error number.
pub data Caught : Type 0 where
  caught no_buffers would_block : Caught
  catch_failed : String → Caught

module _ {W : Type 0} (cb : UpdateCallback W) where
  with_ports : Address → Address → Option Port → Option Port → Option Connection
  with_ports src dst (some p) (some q) =
      some (record { src_addr = src; src_port = p; dst_addr = dst; dst_port = q })
  with_ports src dst _ _ = none

  with_addresses :
      NfConntrack → PortType → Bool → Option Address → Option Address → W → Option Connection × W
  unfolding with_ports
  with_addresses ct type add (some src) (some dst) w =
      let (p, w₁) = cb.get_port (record { port_type = type; number = ct.port_src }) add w in
      let (q, w₂) = cb.get_port (record { port_type = type; number = ct.port_dst }) add w₁ in
      (with_ports src dst p q, w₂)
  with_addresses ct type add _ _ w = (none, w)

  -- The connection between the ends that the callback has, and what looking them up made of it.
  extract_at :
      NfConntrack → Option (Address × Address) → Option PortType → Bool → W → Option Connection × W
  unfolding with_addresses
  extract_at ct (some (a, b)) (some type) add w =
      let (src, w₁) = cb.get_address a add w in
      let (dst, w₂) = cb.get_address b add w₁ in with_addresses ct type add src dst w₂
  extract_at ct _ _ add w = (none, w)

  unfoldable pub extract_address_port : NfConntrack → Bool → W → Option Connection × W
  unfolding extract_at
  extract_address_port ct add w = extract_at ct (addresses_in ct) (port_type_in ct) add w

  -- `handleQuery`, when the connection has been extracted.
  refill_with : NfConntrack → Option Connection → W → W
  refill_with ct none w = w
  refill_with ct (some c) w = cb.add c (first_traffic ct) (first_state ct (type_of c)) w

  tell : ConnectionData × ℕ → W → W
  tell (d, flags) w = if not (flags == 0) then cb.update d flags (cb.write d w) else w

  update_found : NfConntrack → Option ConnectionData → W → W
  unfolding tell
  update_found ct none w = w
  update_found ct (some d) w = tell (measured ct d) w

  update_with : NfConntrack → Option Connection → W → W
  unfolding update_found
  update_with ct none w = w
  update_with ct (some c) w = update_found ct (cb.find c w) w

  unfoldable pub handle_query : NfConntrack → Conntrack → W → W
  unfolding refill_with update_with
  handle_query ct k w =
      let (c, w') = extract_address_port ct k.is_refill_required w in
      if k.is_refill_required then refill_with ct c w' else update_with ct c w'

  unfoldable pub handle_event : NfConntrack → EventType → Conntrack × W → Conntrack × W
  unfolding queued
  handle_event ct type (k, w) =
      let (c, w') = extract_address_port ct (is_new type) w in (queued type c k, w')

  unfoldable pub event_callback : MsgType → NfConntrack → Conntrack × W → Conntrack × W
  event_callback type ct (k, w) =
      if not k.is_refill_required
      then elim type [
        | nfct_t_new ↦ handle_event ct new_connection (k, w)
        | nfct_t_destroy ↦ handle_event ct removed_connection (k, w)
        | other_msg ↦ (k, w)
      ]
      else (k, w)

  unfoldable pub event_callbacks : List (MsgType × NfConntrack) → Conntrack × W → Conntrack × W
  event_callbacks [] kw = kw
  event_callbacks ((type, ct) ∷ es) kw = event_callbacks es (event_callback type ct kw)

  unfoldable pub caught_up : Caught → Conntrack × W → Outcome (Conntrack × W)
  caught_up caught kw = done kw
  caught_up no_buffers (k, w) = done (record k { is_refill_required = true }, w)
  caught_up would_block kw = done kw
  caught_up (catch_failed text) kw = thrown ("Unable to receive conntrack events: " ∷ text ∷ []) kw

  unfoldable pub checked : Bool → Outcome (Conntrack × W) → Outcome (Conntrack × W)
  checked error (thrown text kw) = thrown text kw
  checked error (done kw) =
      if error then thrown ("Conntrack event socket poll failed" ∷ []) kw else done kw

  -- `EventPollHandler`: the events that `nfct_catch` calls back with, and what it returns.
  unfoldable pub event_poll_handler :
      PollFlags → List (MsgType × NfConntrack) → Caught → Conntrack × W → Outcome (Conntrack × W)
  unfolding caught_up checked
  event_poll_handler flags events end kw =
      checked flags.error
        (if flags.input then caught_up end (event_callbacks events kw) else done kw)

  unfoldable pub process : ConntrackEvent → W → W
  process e w = elim e.type [
    | new_connection ↦ cb.add_new e.connection w
    | removed_connection ↦ cb.remove e.connection w
  ]

  unfoldable pub process_events : List ConntrackEvent → W → W
  process_events [] w = w
  process_events (e ∷ es) w = process_events es (process e w)

  unfoldable pub handle_queries : List NfConntrack → Conntrack → W → W
  handle_queries [] k w = w
  handle_queries (ct ∷ cts) k w = handle_queries cts k (handle_query ct k w)

  -- `onUpdate`: the entries that the dump calls back with, and the error's text if it fails.
  unfoldable pub on_update :
      List NfConntrack → Option String → Conntrack × W → Outcome (Conntrack × W)
  on_update dump failure (k, w) =
      if not k.is_initialized || k.is_paused
      then done (k, w)
      else let w₁ = if k.is_refill_required then cb.clear w else process_events k.event_queue w in
        let k₁ = record k { event_queue = [] } in
        let w₂ = handle_queries dump k₁ w₁ in
        elim failure [
          | some text ↦ thrown ("Unable to dump content of conntrack table: " ∷ text ∷ []) (k₁, w₂)
          | none ↦ done (record k₁ { is_refill_required = false }, w₂)
        ]

-- `init` with a callback.
unfoldable pub init : Conntrack → Conntrack
init k = record k { is_initialized = true; is_refill_required = true; is_paused = false }
