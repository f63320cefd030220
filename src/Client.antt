-- ===== src/Client.antt =====
-- `Client` of Source/Client.hpp and Source/Client.cpp: the owner of the client session. The host's
-- name and the log's lines are not kept; an exception of the connector is kept in `failure`, since
-- what it goes up through has nothing left to do.
pub mod Items
pub mod Connect
pub mod Keeps
pub mod Synced
use conntop.Prelude.{
  ℕ, ◌-◌, ◌^◌, Bool, true, false, not, ◌&&◌, ◌||◌, String, List, [], ◌∷◌, ◌++◌, Option, none, some,
  has_flag, bit_and, ◌==◌, if◌then◌else◌,
}
use conntop.Json.{JsonLib, Result, ok, err}
use conntop.Protocol.{DisconnectReason}
use conntop.Session.{Outcome, done, thrown}
use conntop.Session.Client as Session
use conntop.Session.Client.{ClientSession, ClientCallback, ExpectedMsg, server_data_status}
use conntop.Connection.{Address}
use conntop.Connection.Serialize.{AddressText}
use conntop.Connection.Deserialize.Apply.{UpdateCallback, deserialize}
use conntop.Client.Connect.{Connector, Attempted, connected_to, try_next}

pub data ClientEvent : Type 0 where
  connect_started connection_established disconnect_started disconnected : ClientEvent
  session_established server_update_tick new_data_available sync_state_changed : ClientEvent

-- `EDataFlags::CONNECTION`, and its complement as an `int`.
abbrev pub connection_data : ℕ
connection_data = 1

abbrev pub other_data : ℕ
other_data = 2 ^ 32 - 2

pub record Client (L : Type 0) : Type 0 where
  pub connector : Option Connector
  pub requested_data_flags : ℕ
  pub requested_data_update_flags : ℕ
  pub remaining_data_flags : ℕ
  pub is_data_requested : Bool
  pub is_synchronized : Bool
  pub is_paused : Bool
  -- The connection list, the events that were dispatched, and the end of the program.
  pub connections : L
  pub events : List ClientEvent
  pub has_quit : Bool
  pub failure : Option String

abbrev both_or_neither : Bool → Bool → Bool
both_or_neither true b = b
both_or_neither false b = not b

unfoldable pub set_synchronized : {L : Type 0} → Bool → Client L → Client L
set_synchronized b c =
    if both_or_neither c.is_synchronized b
    then c
    else record c { is_synchronized = b; events = c.events ++ (sync_state_changed ∷ []) }

unfoldable pub dispatch : {L : Type 0} → ClientEvent → Client L → Client L
dispatch event c = record c { events = c.events ++ (event ∷ []) }

-- `ClientSession::isDataRequestInProgress`
abbrev pub is_request_in_progress : ExpectedMsg → Bool
is_request_in_progress server_data_status = true
is_request_in_progress _ = false

-- The loop of `onSessionData` over the items of a message; an exception ends it.
module _ (J : JsonLib) (T : AddressText) {L : Type 0} (cb : UpdateCallback L) where
  unfoldable pub receive_items : List (J.Value) → L → Result (Unit {0}) × L
  receive_items [] l = (ok tt, l)
  receive_items (v ∷ vs) l =
      let (result, l') = deserialize T cb J v l in
      let rest = receive_items vs l' in elim result [ err text ↦ (err text, l') | ok b ↦ rest ]

  unfoldable pub request_data : Client L × ClientSession → Client L × ClientSession
  request_data (c, s) = (
    record c { is_data_requested = true },
    Session.request_data J c.requested_data_flags c.requested_data_update_flags s,
  )

  unfoldable pub on_session_connection_established :
      Client L × ClientSession → Client L × ClientSession
  on_session_connection_established (c, s) =
      (dispatch connection_established (record c { connector = none }), s)

  unfoldable pub on_session_established : Client L × ClientSession → Client L × ClientSession
  on_session_established (c, s) =
      let (c₁, s₁) = request_data (
        record c {
          requested_data_flags = connection_data;
          requested_data_update_flags = 0;
          remaining_data_flags = 0;
        },
        s,
      ) in
      (dispatch session_established (record c₁ { is_synchronized = false }), s₁)

  unfoldable pub on_session_server_tick : Client L × ClientSession → Client L × ClientSession
  on_session_server_tick (c, s) =
      let c₀ = dispatch server_update_tick c in
      let missed =
        set_synchronized false
          (record c₀ { remaining_data_flags = 0; requested_data_update_flags = 0 }) in
      let (c₁, s₁) : Client L × ClientSession =
        if not (c₀.remaining_data_flags == 0)
        then (if not c₀.is_paused then request_data (missed, s) else (missed, s))
        else if is_request_in_progress s.expected_msg || c₀.is_paused
        then (set_synchronized false c₀, s)
        else (record c₀ { remaining_data_flags = c₀.requested_data_flags }, s) in
      (record c₁ { is_data_requested = false }, s₁)

  unfoldable pub on_session_data_status : Bool → Client L × ClientSession → Client L × ClientSession
  on_session_data_status is_different (c, s) =
      let c₀ = record c {
        requested_data_flags = bit_and c.requested_data_flags s.data_flags;
        requested_data_update_flags = bit_and c.requested_data_update_flags s.data_update_flags;
      } in
      let (c₁, s₁) : Client L × ClientSession =
        if not (c₀.requested_data_update_flags == 0) && not c₀.is_synchronized
        then request_data (record c₀ { requested_data_update_flags = 0 }, s)
        else (c₀, s) in
      (if is_different then dispatch new_data_available c₁ else c₁, s₁)

  -- When the items of a message are in.
  unfoldable pub finish_data : Client L × ClientSession → Client L × ClientSession
  finish_data (c, s) =
      let c₁ =
        if not c.is_synchronized
        then record (set_synchronized true c) {
          requested_data_update_flags = c.requested_data_flags;
        }
        else c in
      if c.remaining_data_flags == 0 then request_data (c₁, s) else (c, s)

  stored : Client L → ClientSession → Result (Unit {0}) × L → Outcome (Client L × ClientSession)
  stored c s (err text, l) = thrown text (record c { connections = l }, s)
  stored c s (ok _, l) = done (
      finish_data (
        record c {
          connections = l;
          remaining_data_flags = bit_and c.remaining_data_flags other_data;
        },
        s,
      ))

  unfoldable pub on_session_data :
      ℕ → Bool → J.Value → Client L × ClientSession → Outcome (Client L × ClientSession)
  unfolding stored
  on_session_data type is_update items (c, s) =
      if (is_update && not c.is_synchronized)
        || (not (has_flag type c.remaining_data_flags) || c.is_paused)
      then done (c, s)
      else if has_flag type connection_data
      then if J.is_array items
        then stored c s (
            receive_items (J.elements items)
              (if is_update then c.connections else cb.clear c.connections))
        else thrown ("Data is not an array" ∷ []) (c, s)
      else done (c, s)

  unfoldable pub set_paused : Bool → Client L × ClientSession → Client L × ClientSession
  set_paused paused (c, s) =
      if both_or_neither c.is_paused paused
      then (c, s)
      else let c₁ = record c { is_paused = paused } in
        if not paused && (c.remaining_data_flags == 0 && not c.is_data_requested)
        then request_data (c₁, s)
        else (c₁, s)

  -- `socket.connect`, by address and port, as `tryNext` calls it.
  module _ (attempt : Address → ℕ → Option ℕ) where
    connected_at :
        Option Attempted × Connector → Client L × ClientSession → Client L × ClientSession
    connected_at (some (connected_to fd), k) (c, s) =
        (record c { connector = some k }, Session.connect (some fd) s)
    connected_at (some _, k) (c, s) =
        (record c { connector = some k; failure = some "Unable to connect" }, s)
    connected_at (none, k) (c, s) = (record c { connector = some k }, s)

    disconnected_at : Option Connector → Client L × ClientSession → Client L × ClientSession
    unfolding connected_at
    disconnected_at (some k) cs = connected_at (try_next attempt k) cs
    disconnected_at none (c, s) =
        (dispatch disconnected (record c { is_synchronized = false; is_data_requested = false }), s)

    quit_at : DisconnectReason → Client L → Client L
    quit_at DisconnectReason.user_decision c = record c { has_quit = true }
    quit_at _ c = c

    -- An exception of the connector leaves no time to quit.
    unfoldable pub on_session_disconnect : Client L × ClientSession → Client L × ClientSession
    unfolding disconnected_at quit_at
    on_session_disconnect (c, s) =
        let (c₁, s₁) = disconnected_at c.connector (c, s) in
        (elim c₁.failure [ some _ ↦ c₁ | none ↦ quit_at s₁.disconnect_reason c₁ ], s₁)

    unfoldable pub callback : ClientCallback (J.Value) (Client L)
    callback = record {
      on_connection_established = on_session_connection_established;
      on_session_established = on_session_established;
      on_session_disconnect = on_session_disconnect;
      on_session_server_tick = on_session_server_tick;
      on_session_data_status = on_session_data_status;
      on_session_data = on_session_data;
    }
