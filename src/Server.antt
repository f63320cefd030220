-- ===== src/Server.antt =====
-- `Server` of Source/Server.hpp and Source/Server.cpp: the owner of the server's sessions, the
-- connections and the data messages. What it writes to the log is not kept. The collector is a
-- function on its own state and the update serializer, which is its callback.
pub mod Updates
pub mod Transit
pub mod Ticks
pub mod Request
use conntop.Prelude.{
  ℕ, Bool, true, false, not, ◌&&◌, ◌||◌, List, [], ◌∷◌, ◌++◌, Option, none, some, has_flag, bit_and,
  if◌then◌else◌,
}
use conntop.Json.{JsonLib}
use conntop.Protocol.{ServerMsg, SessionState, disconnected, connected}
use conntop.Protocol.Message.{SerializedMessage, create_server_msg, server_data}
use conntop.Connection.Serialize.{AddressText}
use conntop.Session.{Outcome, done, thrown, PollFlags}
use conntop.Session.Ticks.{shared_messages}
use conntop.Session.Server as Session
use conntop.Session.Server.{
  ServerSession, ServerContext, ServerCallback, Shared, connections_slot, connection_updates_slot,
  context_on_update, send_data_status, send_data, stop_sending_data, new_session,
}
use conntop.Server.Updates.{Serializer, set_serialization_enabled, build, storage_items}

-- `SerializedMessage::clear`
abbrev pub cleared : SerializedMessage ServerMsg
cleared = record { msg = []; msg_type = ServerMsg.unknown }

abbrev pub connection_data : ℕ
connection_data = 1

is_disconnected : SessionState → Bool
is_disconnected disconnected = true
is_disconnected _ = false

is_connected : SessionState → Bool
is_connected connected = true
is_connected _ = false

-- The first loop of `onUpdate`: the sessions that are left, whether one wants all connections, and
-- whether one wants updates.
unfoldable pub look_over : Shared → List ServerSession → List ServerSession × Bool × Bool
unfolding is_disconnected
look_over m [] = ([], false, false)
look_over m (s ∷ ss) =
    let (rest, all, updates) = look_over m ss in
    if is_disconnected s.state
    then (rest, all, updates)
    else if s.is_sending_data
    then ((stop_sending_data m s).0 ∷ rest, all, updates)
    else if has_flag s.data_flags connection_data
    then if has_flag s.data_update_flags connection_data
      then (s ∷ rest, all, true)
      else (s ∷ rest, true, updates)
    else (s ∷ rest, all, updates)

module _ (J : JsonLib) (T : AddressText) where
  -- What the sessions share.
  pub record Host : Type 0 where
    pub context : ServerContext
    pub available_data_flags : ℕ
    pub serialized_connections : SerializedMessage ServerMsg
    pub serialized_connection_updates : SerializedMessage ServerMsg
    pub connection_updates : Serializer J T

  unfoldable pub shared_of : Host → Shared
  shared_of h = shared_messages h.context h.serialized_connections h.serialized_connection_updates

  unfoldable pub on_session_data_request : ℕ → ℕ → Host × ServerSession → Host × ServerSession
  on_session_data_request flags update_flags (h, s) =
      let f = bit_and flags h.available_data_flags in
      let u = bit_and update_flags h.available_data_flags in
      (
        if has_flag f connection_data && has_flag u connection_data
            then record h {
              connection_updates = set_serialization_enabled J T true h.connection_updates;
            }
            else h,
        send_data_status J f u s,
      )

  -- The other two callbacks only write to the log.
  unfoldable pub callback : ServerCallback Host
  callback = record {
    on_session_established = λ hs. hs;
    on_session_disconnect = λ hs. hs;
    on_session_data_request = on_session_data_request;
  }

  -- The messages of this update, and which of them may be sent.
  unfoldable pub make_messages : Bool → Bool → Host → Host × Bool × Bool
  make_messages all updates h =
      let z = h.connection_updates in
      let (items, built) = build J T z in
      let stored = storage_items J T (z.storage).connection_map in
      (
        record h {
          connection_updates = if z.is_serialization_enabled then built else z;
          serialized_connection_updates =
              if z.is_serialization_enabled
              then create_server_msg J ServerMsg.data_msg
                  (server_data J connection_data true (J.array items))
              else cleared;
          serialized_connections =
              if all
              then create_server_msg J ServerMsg.data_msg
                  (server_data J connection_data false (J.array stored))
              else cleared;
        },
        all,
        z.is_serialization_enabled && updates,
      )

  -- The second loop of `onUpdate`.
  unfoldable pub serve : Bool → Bool → Host × ServerSession → Host × ServerSession
  unfolding is_connected
  serve all updates (h, s) =
      let (h', s') = Session.on_update J callback (h, s) in
      if is_connected s'.state && has_flag s.data_flags connection_data
      then if updates && has_flag s.data_update_flags connection_data
        then (h', send_data J connection_updates_slot s')
        else if all
        then (h', send_data J connections_slot s')
        else (h', s')
      else (h', s')

  unfoldable pub serve_all : Bool → Bool → Host → List ServerSession → Host × List ServerSession
  serve_all all updates h [] = (h, [])
  serve_all all updates h (s ∷ ss) =
      let (h₁, s₁) = serve all updates (h, s) in
      let (h₂, rest) = serve_all all updates h₁ ss in (h₂, s₁ ∷ rest)

  module _ {K : Type 0} (collect : K × Serializer J T → K × Serializer J T) where
    -- The collector's update, and the messages; nothing without a collector.
    unfoldable pub collect_data : Bool → Bool → K × Host → (K × Host) × Bool × Bool
    collect_data all updates (k, h) =
        if has_flag h.available_data_flags connection_data
        then (let (k', z) = collect (k, h.connection_updates) in
            let (h', a, u) = make_messages all updates (record h { connection_updates = z }) in
            ((k', h'), a, u))
        else ((k, h), false, false)

    unfoldable pub on_update : K × Host × List ServerSession → K × Host × List ServerSession
    on_update (k, h, clients) =
        let (left, all, updates) = look_over (shared_of h) clients in
        let ((k', h'), a, u) =
          collect_data all updates (k, record h { context = context_on_update J h.context }) in
        let (h'', served) = serve_all a u h' left in (k', h'', served)

-- `pollHandler`: what `accept` answers, the socket's number and the other end, or nothing when it
-- throws.
unfoldable pub poll_handler :
    PollFlags → Option (ℕ × Option ℕ) → List ServerSession → Outcome (List ServerSession)
poll_handler flags answer clients =
    let clients' =
      if flags.input
      then elim answer [
        | some (fd, endpoint) ↦ clients ++ (new_session (some fd) endpoint ∷ [])
        | none ↦ clients
      ]
      else clients in
    if flags.error then thrown ("Server socket poll failed" ∷ []) clients' else done clients'
