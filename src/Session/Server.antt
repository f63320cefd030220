-- ===== src/Session/Server.antt =====
-- `ServerSession` and `ServerContext` of Source/ClientServerProtocol.hpp and
-- Source/ClientServerProtocol.cpp. A message that sessions share is named by its place; `Shared`
-- gives the message that stands there now.
pub mod Poll
use conntop.Prelude.{
  ℕ, ◌+◌, ◌-◌, ◌%◌, ◌^◌, Bool, true, false, not, ◌&&◌, String, List, [], ◌∷◌, ◌++◌, Option, none,
  some, if◌then◌else◌, add32, is_positive,
}
use conntop.Json.{JsonLib, Result, ok, err, ◌>>=◌, require}
use conntop.Protocol.{
  ClientMsg, ServerMsg, DisconnectReason, SessionState, disconnected, closing, opening, connected,
  get_client_msg_enum, get_disconnect_reason_enum,
}
use conntop.Protocol.Message.{
  SerializedMessage, Surroundings, server_banner, server_hello, server_disconnect,
  server_update_tick, server_data_status, create_server_msg,
}
use conntop.Wire.Writer.{Writer, Store, initial, stop}
use conntop.Session.{ErrorText, text_or_empty, Outcome, done, thrown, PollFlags}

-- The messages that a queue entry or a writer may point at.
abbrev pub Shared : Type 0
Shared = ℕ → SerializedMessage ServerMsg

-- The places of `m_cachedMsgBanner`, `m_cachedMsgHello`, `m_cachedMsgUpdateTick`,
-- `m_serializedConnections` and `m_serializedConnectionUpdates`.
abbrev pub banner_slot : ℕ
banner_slot = 0

abbrev pub hello_slot : ℕ
hello_slot = 1

abbrev pub tick_slot : ℕ
tick_slot = 2

abbrev pub connections_slot : ℕ
connections_slot = 3

abbrev pub connection_updates_slot : ℕ
connection_updates_slot = 4

abbrev pub store : Shared → Store
store m slot = (m slot).msg

-- `std::unique_ptr<SerializedServerMessage, SendQueueMsgDeleter>`: owned, or shared.
pub data QueuedMsg : Type 0 where
  own_msg : SerializedMessage ServerMsg → QueuedMsg
  shared_msg : ℕ → QueuedMsg

-- The message that the pointer leads to.
abbrev pub message_at : Shared → QueuedMsg → SerializedMessage ServerMsg
message_at m (own_msg x) = x
message_at m (shared_msg slot) = m slot

abbrev pub is_data : ServerMsg → Bool
is_data ServerMsg.data_msg = true
is_data _ = false

pub record ServerContext : Type 0 where
  pub timestamp : ℕ
  pub cached_msg_banner : SerializedMessage ServerMsg
  pub cached_msg_hello : SerializedMessage ServerMsg
  pub cached_msg_update_tick : SerializedMessage ServerMsg

pub record ServerSession : Type 0 where
  pub socket : Option ℕ
  pub poll : Option PollFlags
  pub writer : Writer
  pub send_queue : List QueuedMsg
  pub state : SessionState
  pub is_sending_data : Bool
  pub session_ttl : ℕ
  pub data_flags : ℕ
  pub data_update_flags : ℕ
  pub client_name : String
  pub client_version : String
  pub client_platform_name : String
  pub client_endpoint : Option ℕ
  pub disconnect_reason : DisconnectReason
  pub disconnect_error : ErrorText

-- `IServerSessionCallback`
pub record ServerCallback (W : Type 0) : Type 0 where
  pub on_session_established : W × ServerSession → W × ServerSession
  pub on_session_disconnect : W × ServerSession → W × ServerSession
  pub on_session_data_request : ℕ → ℕ → W × ServerSession → W × ServerSession

abbrev pub input_output : PollFlags
input_output = record { input = true; output = true; error = false }

queue_message : QueuedMsg → ServerSession → ServerSession
queue_message msg s = record s {
  poll = elim s.send_queue [ [] ↦ some input_output | _ ∷ _ ↦ s.poll ];
  send_queue = s.send_queue ++ msg ∷ [];
}

unfoldable pub send_message : SerializedMessage ServerMsg → ServerSession → ServerSession
unfolding queue_message
send_message msg s = queue_message (own_msg msg) s

unfoldable pub send_shared_message : ℕ → ServerSession → ServerSession
unfolding queue_message
send_shared_message slot s = queue_message (shared_msg slot) s

close_socket : Option ℕ → ServerSession → ServerSession
close_socket none s = s
close_socket (some fd) s = record s { socket = none; poll = none }

unknown_text : String → DisconnectReason → Option ErrorText
unknown_text name DisconnectReason.unknown = some (name ∷ [])
unknown_text name _ = none

-- The queue without its `DATA` messages, and whether there was one.
unfoldable pub drop_data : Shared → List QueuedMsg → List QueuedMsg × Bool
drop_data m [] = ([], false)
drop_data m (x ∷ q) =
    let (kept, found) = drop_data m q in
    if is_data (message_at m x).msg_type then (kept, true) else (x ∷ kept, found)

-- `wasSendingData` clears the flags.
clear_flags : Bool → ServerSession → ServerSession
clear_flags true s = record s { data_flags = 0; data_update_flags = 0 }
clear_flags false s = s

unfoldable pub stop_sending_data : Shared → ServerSession → ServerSession × Bool
unfolding clear_flags drop_data
stop_sending_data m s =
    let (kept, found) = drop_data m s.send_queue in
    let (stopped, status) = stop (store m) s.writer in
    if s.is_sending_data
    then (
      clear_flags true (record s { send_queue = kept; writer = stopped; is_sending_data = false }),
      status,
    )
    else (clear_flags found (record s { send_queue = kept }), true)

module _ (J : JsonLib) where
  open J use {Value, is_object, is_string, is_int, find_member, get_string, get_int}

  unfoldable pub new_context : Surroundings → ServerContext
  new_context e = record {
    timestamp = 0;
    cached_msg_banner = create_server_msg J ServerMsg.banner (server_banner J);
    cached_msg_hello = create_server_msg J ServerMsg.hello (server_hello J e);
    cached_msg_update_tick = create_server_msg J ServerMsg.update_tick (server_update_tick J 0);
  }

  unfoldable pub context_on_update : ServerContext → ServerContext
  context_on_update c =
      let t = add32 c.timestamp 1 in
      record c {
        timestamp = t;
        cached_msg_update_tick = create_server_msg J ServerMsg.update_tick (server_update_tick J t);
      }

  msg_name : Value → Result String
  msg_name message =
      require is_string get_string "Missing message type" "Invalid message type value type"
        (find_member "message" message)

  -- The message's type, with the name that it was read from.
  unfoldable pub client_msg_type : Value → Result (ClientMsg × String)
  unfolding msg_name
  client_msg_type message =
      if is_object message
      then msg_name message >>= (λ name. ok (get_client_msg_enum name, name))
      else err ("Invalid message" ∷ [])

  unfoldable pub client_hello_fields : Value → Result (String × String × String)
  client_hello_fields message = do
    name ←
        require is_string get_string "Missing client name" "Invalid client name value type"
          (find_member "name" message)
    version ←
        require is_string get_string "Missing client version" "Invalid client version value type"
          (find_member "version" message)
    platform ←
        require is_string get_string "Missing client platform name"
          "Invalid client platform name value type" (find_member "platform" message)
    ok (name, version, platform)

  unfoldable pub client_disconnect_fields : Value → Result String
  client_disconnect_fields message =
      require is_string get_string "Missing disconnect reason"
        "Invalid disconnect reason value type" (find_member "reason" message)

  unfoldable pub request_fields : Value → Result (ℕ × ℕ)
  request_fields message = do
    data_flags ←
        require is_int get_int "Missing data status type" "Invalid data status type value type"
          (find_member "dataFlags" message)
    data_update_flags ←
        require is_int get_int "Missing data status update" "Invalid data status update value type"
          (find_member "dataUpdateFlags" message)
    ok (data_flags, data_update_flags)

  unfoldable pub send_data_status : ℕ → ℕ → ServerSession → ServerSession
  send_data_status flags update_flags s = elim s.state [
    | connected ↦
        send_message
          (create_server_msg J ServerMsg.data_status (server_data_status J flags update_flags))
          (record s { data_flags = flags; data_update_flags = update_flags })
    | _ ↦ s
  ]

  unfoldable pub send_data : ℕ → ServerSession → ServerSession
  send_data slot s = elim s.state [ connected ↦ send_shared_message slot s | _ ↦ s ]

  module _ {W : Type 0} (cb : ServerCallback W) where
    unfoldable pub quick_disconnect :
        DisconnectReason → Option ErrorText → W × ServerSession → W × ServerSession
    unfolding close_socket
    quick_disconnect reason error (w, s) = cb.on_session_disconnect (
      w,
      record (close_socket s.socket s) {
        state = disconnected;
        is_sending_data = false;
        send_queue = [];
        disconnect_reason = reason;
        disconnect_error = text_or_empty error;
      },
    )

    on_hello : SessionState → Value → W × ServerSession → Outcome (W × ServerSession)
    on_hello opening message (w, s) = elim (client_hello_fields message) [
      | err text ↦ thrown text (w, s)
      | ok (name, version, platform) ↦
          let greeted = send_shared_message hello_slot (record s {
            client_name = name;
            client_version = version;
            client_platform_name = platform;
          }) in
          done (cb.on_session_established (w, record greeted { state = connected }))
    ]
    on_hello _ message ws = thrown ("Unexpected HELLO message" ∷ []) ws

    on_disconnect : Value → W × ServerSession → Outcome (W × ServerSession)
    unfolding unknown_text
    on_disconnect message ws = elim (client_disconnect_fields message) [
      | err text ↦ thrown text ws
      | ok name ↦
          let reason = get_disconnect_reason_enum name in
          done (quick_disconnect reason (unknown_text name reason) ws)
    ]

    on_request_data : SessionState → Value → W × ServerSession → Outcome (W × ServerSession)
    on_request_data closing message ws = done ws
    on_request_data connected message ws = elim (request_fields message) [
      | err text ↦ thrown text ws
      | ok (flags, update_flags) ↦ done (cb.on_session_data_request flags update_flags ws)
    ]
    on_request_data _ message ws = thrown ("Unexpected REQUEST_DATA message" ∷ []) ws

    dispatch : ClientMsg → String → Value → W × ServerSession → Outcome (W × ServerSession)
    unfolding on_hello on_disconnect on_request_data
    dispatch ClientMsg.unknown name message ws = thrown ("Unknown message '" ∷ name ∷ "'" ∷ []) ws
    dispatch ClientMsg.hello name message (w, s) = on_hello s.state message (w, s)
    dispatch ClientMsg.disconnect name message ws = on_disconnect message ws
    dispatch ClientMsg.request_data name message (w, s) = on_request_data s.state message (w, s)

    unfoldable pub on_message : Value → W × ServerSession → Outcome (W × ServerSession)
    unfolding dispatch
    on_message message ws = elim (client_msg_type message) [
      | err text ↦ thrown text ws
      | ok (type, name) ↦ dispatch type name message ws
    ]

    update_at : SessionState → W × ServerSession → W × ServerSession
    update_at connected (w, s) = (w, send_shared_message tick_slot s)
    update_at closing (w, s) =
        if is_positive s.session_ttl
        then (w, record s { session_ttl = s.session_ttl - 1 })
        else quick_disconnect DisconnectReason.timeout none (w, s)
    update_at _ ws = ws

    unfoldable pub on_update : W × ServerSession → W × ServerSession
    unfolding update_at
    on_update (w, s) = update_at s.state (w, record s { data_flags = 0; data_update_flags = 0 })

    disconnect_at : SessionState → W × ServerSession → W × ServerSession
    disconnect_at connected (w, s) = (
      w,
      send_message
          (create_server_msg J ServerMsg.disconnect
            (server_disconnect J DisconnectReason.server_quit))
          (record s {
            state = closing;
            session_ttl = 4;
            disconnect_reason = DisconnectReason.server_quit;
            disconnect_error = [];
          }),
    )
    disconnect_at opening ws = quick_disconnect DisconnectReason.server_quit none ws
    disconnect_at _ ws = ws

    unfoldable pub disconnect : W × ServerSession → W × ServerSession
    unfolding disconnect_at
    disconnect (w, s) = disconnect_at s.state (w, s)

-- The constructor: a session over the socket that `accept` returned, and what `getRemoteEndpoint`
-- answered.
blank : Option ℕ → ServerSession
blank socket = record {
  socket = socket;
  poll = none;
  writer = initial;
  send_queue = [];
  state = disconnected;
  is_sending_data = false;
  session_ttl = 0;
  data_flags = 0;
  data_update_flags = 0;
  client_name = "";
  client_version = "";
  client_platform_name = "";
  client_endpoint = none;
  disconnect_reason = DisconnectReason.unknown;
  disconnect_error = [];
}

unfoldable pub new_session : Option ℕ → Option ℕ → ServerSession
unfolding blank
new_session none endpoint = blank none
new_session (some fd) endpoint = send_shared_message banner_slot (record (blank (some fd)) {
  client_endpoint = endpoint;
  state = opening;
  poll = some (record { input = true; output = false; error = false });
})
