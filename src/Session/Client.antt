-- ===== src/Session/Client.antt =====
-- `ClientSession` of Source/ClientServerProtocol.cpp.
pub mod Poll
pub mod Stream
pub mod Invariant
pub mod Reach
use conntop.Prelude.{
  ℕ, ◌+◌, ◌-◌, ◌^◌, ◌≡◌, Bool, true, false, not, ◌&&◌, ◌||◌, String, List, [], ◌∷◌, ◌++◌, Option,
  none, some, ◌==◌, if◌then◌else◌, add32, is_positive, has_flag,
}
use conntop.Json.{JsonLib, Result, ok, err, ◌>>=◌, require}
use conntop.Protocol.{
  ClientMsg, ServerMsg, DisconnectReason, SessionState, disconnected, closing, opening, connected,
  get_server_msg_enum, get_disconnect_reason_enum,
}
use conntop.Protocol.Message.{
  SerializedMessage, Surroundings, protocol_version, client_hello, client_disconnect,
  client_request_data, create_client_msg,
}
use conntop.Wire.Writer.{Writer, Bytes, initial}
use conntop.Session.{ErrorText, text_or_empty, Outcome, done, thrown, PollFlags}

-- `EExpectedMsg`
pub data ExpectedMsg : Type 0 where
  nothing server_banner server_hello server_data_status : ExpectedMsg

pub record ClientSession : Type 0 where
  pub socket : Option ℕ
  pub poll : Option PollFlags
  pub writer : Writer
  pub send_queue : List (SerializedMessage ClientMsg)
  pub state : SessionState
  pub expected_msg : ExpectedMsg
  pub is_connection_established : Bool
  pub session_ttl : ℕ
  pub data_flags : ℕ
  pub data_update_flags : ℕ
  pub current_timestamp : ℕ
  pub server_name : String
  pub server_version : String
  pub server_platform_name : String
  pub server_endpoint : Option ℕ
  pub disconnect_reason : DisconnectReason
  pub disconnect_error : ErrorText

-- `IClientSessionCallback`: what the owner of the session does, to itself (`W`) and to the session.
pub record ClientCallback (V : Type 0) (W : Type 0) : Type 0 where
  pub on_connection_established : W × ClientSession → W × ClientSession
  pub on_session_established : W × ClientSession → W × ClientSession
  pub on_session_disconnect : W × ClientSession → W × ClientSession
  pub on_session_server_tick : W × ClientSession → W × ClientSession
  pub on_session_data_status : Bool → W × ClientSession → W × ClientSession
  pub on_session_data : ℕ → Bool → V → W × ClientSession → Outcome (W × ClientSession)

abbrev pub input_output : PollFlags
input_output = record { input = true; output = true; error = false }

unfoldable pub send_message : SerializedMessage ClientMsg → ClientSession → ClientSession
send_message msg s = record s {
  poll = elim s.send_queue [ [] ↦ some input_output | _ ∷ _ ↦ s.poll ];
  send_queue = s.send_queue ++ msg ∷ [];
}

close_socket : Option ℕ → ClientSession → ClientSession
close_socket none s = s
close_socket (some fd) s = record s { socket = none; poll = none }

-- Tests on the enumerations.
pub is_opening : SessionState → Bool
is_opening opening = true
is_opening _ = false

pub is_connected : SessionState → Bool
is_connected connected = true
is_connected _ = false

pub expects : ExpectedMsg → ExpectedMsg → Bool
expects nothing nothing = true
expects server_banner server_banner = true
expects server_hello server_hello = true
expects server_data_status server_data_status = true
expects _ _ = false

-- `reason == UNKNOWN ? reasonName : nullptr`
abbrev pub unknown_text : String → DisconnectReason → Option ErrorText
unknown_text name DisconnectReason.unknown = some (name ∷ [])
unknown_text name _ = none

module _ (J : JsonLib) where
  open J use {
    Value, is_object, is_string, is_int, is_uint, is_bool, find_member, get_string, get_int,
    get_uint, get_bool,
  }

  named : Option Value → Value → Result (ServerMsg × String)
  named none message = elim (find_member "conntop_server" message) [
    | none ↦ err ("Invalid message" ∷ [])
    | some _ ↦ ok (ServerMsg.banner, "")
  ]
  named (some v) message =
      if is_string v
      then ok (get_server_msg_enum (get_string v), get_string v)
      else elim (find_member "conntop_server" message) [
        | none ↦ err ("Invalid message" ∷ [])
        | some _ ↦ ok (ServerMsg.banner, "")
      ]

  -- The message's type, with the name that it was read from.
  unfoldable pub server_msg_type : Value → Result (ServerMsg × String)
  unfolding named
  server_msg_type message =
      if is_object message
      then named (find_member "message" message) message
      else err ("Invalid message" ∷ [])

  unfoldable pub banner_version : Value → Result ℕ
  banner_version message =
      require is_int get_int "Missing server identification"
        "Invalid server identification value type" (find_member "conntop_server" message)

  unfoldable pub hello_fields : Value → Result (String × String × String)
  hello_fields message = do
    name ←
        require is_string get_string "Missing server name" "Invalid server name value type"
          (find_member "name" message)
    version ←
        require is_string get_string "Missing server version" "Invalid server version value type"
          (find_member "version" message)
    platform ←
        require is_string get_string "Missing server platform name"
          "Invalid server platform name value type" (find_member "platform" message)
    ok (name, version, platform)

  unfoldable pub disconnect_fields : Value → Result String
  disconnect_fields message =
      require is_string get_string "Missing disconnect reason"
        "Invalid disconnect reason value type" (find_member "reason" message)

  unfoldable pub tick_fields : Value → Result ℕ
  tick_fields message =
      require is_uint get_uint "Missing update tick timestamp"
        "Invalid update tick timestamp value type" (find_member "timestamp" message)

  unfoldable pub status_fields : Value → Result (ℕ × ℕ)
  status_fields message = do
    data_flags ←
        require is_int get_int "Missing data status flags" "Invalid data status flags value type"
          (find_member "dataFlags" message)
    data_update_flags ←
        require is_int get_int "Missing data status update flags"
          "Invalid data status update flags value type" (find_member "dataUpdateFlags" message)
    ok (data_flags, data_update_flags)

  present : Option Value → Result Value
  present none = err ("Missing data" ∷ [])
  present (some v) = ok v

  unfoldable pub data_fields : Value → Result (ℕ × Bool × Value)
  unfolding present
  data_fields message = do
    type ←
        require is_int get_int "Missing data type" "Invalid data type value type"
          (find_member "type" message)
    is_update ←
        require is_bool get_bool "Missing data update flag" "Invalid data update flag value type"
          (find_member "isUpdate" message)
    items ← present (find_member "data" message)
    ok (type, is_update, items)

  module _ {W : Type 0} (cb : ClientCallback Value W) (e : Surroundings) where
    unfoldable pub quick_disconnect :
        DisconnectReason → Option ErrorText → W × ClientSession → W × ClientSession
    unfolding close_socket
    quick_disconnect reason error (w, s) = cb.on_session_disconnect (
      w,
      record (close_socket s.socket s) {
        state = disconnected;
        is_connection_established = false;
        send_queue = [];
        disconnect_reason = reason;
        disconnect_error = text_or_empty error;
      },
    )

    on_banner : Value → W × ClientSession → Outcome (W × ClientSession)
    unfolding is_opening expects
    on_banner message (w, s) =
        if is_opening s.state && expects s.expected_msg server_banner
        then elim (banner_version message) [
          | err text ↦ thrown text (w, s)
          | ok version ↦
              if version == protocol_version
              then done (
                w,
                send_message (create_client_msg J ClientMsg.hello (client_hello J e))
                    (record s { expected_msg = server_hello }),
              )
              else done (quick_disconnect DisconnectReason.version_mismatch none (w, s))
        ]
        else thrown ("Unexpected BANNER message" ∷ []) (w, s)

    on_hello : Value → W × ClientSession → Outcome (W × ClientSession)
    unfolding is_opening expects
    on_hello message (w, s) =
        if is_opening s.state && expects s.expected_msg server_hello
        then elim (hello_fields message) [
          | err text ↦ thrown text (w, s)
          | ok (name, version, platform) ↦ done (
              cb.on_session_established (
                w,
                record s {
                  server_name = name;
                  server_version = version;
                  server_platform_name = platform;
                  expected_msg = nothing;
                  state = connected;
                  session_ttl = 3;
                  current_timestamp = 0;
                  data_flags = 0;
                  data_update_flags = 0;
                },
              ))
        ]
        else thrown ("Unexpected HELLO message" ∷ []) (w, s)

    on_disconnect : Value → W × ClientSession → Outcome (W × ClientSession)
    on_disconnect message (w, s) = elim (disconnect_fields message) [
      | err text ↦ thrown text (w, s)
      | ok name ↦
          let reason = get_disconnect_reason_enum name in
          done (quick_disconnect reason (unknown_text name reason) (w, s))
    ]

    -- `timestamp != (m_currentTimestamp+1) && m_currentTimestamp != 0` is refused.
    take_tick : ℕ → W × ClientSession → Outcome (W × ClientSession)
    take_tick timestamp (w, s) =
        if not (timestamp == add32 s.current_timestamp 1) && not (s.current_timestamp == 0)
        then thrown ("Unexpected update tick timestamp" ∷ []) (w, s)
        else done (
            cb.on_session_server_tick
              (w, record s { current_timestamp = timestamp; session_ttl = add32 s.session_ttl 1 }))

    on_update_tick : SessionState → Value → W × ClientSession → Outcome (W × ClientSession)
    unfolding take_tick
    on_update_tick closing message ws = done ws
    on_update_tick connected message ws = elim (tick_fields message) [
      | err text ↦ thrown text ws
      | ok timestamp ↦ take_tick timestamp ws
    ]
    on_update_tick _ message ws = thrown ("Unexpected UPDATE_TICK message" ∷ []) ws

    take_status : Value → W × ClientSession → Outcome (W × ClientSession)
    unfolding expects
    take_status message (w, s) =
        if expects s.expected_msg server_data_status
        then elim (status_fields message) [
          | err text ↦ thrown text (w, s)
          | ok (flags, update_flags) ↦ done (
              cb.on_session_data_status (not (s.data_flags == flags)) (
                w,
                record s {
                  data_flags = flags;
                  data_update_flags = update_flags;
                  expected_msg = nothing;
                  session_ttl = 3;
                },
              ))
        ]
        else thrown ("Unexpected DATA_STATUS message" ∷ []) (w, s)

    on_data_status : SessionState → Value → W × ClientSession → Outcome (W × ClientSession)
    unfolding take_status
    on_data_status closing message ws = done ws
    on_data_status _ message ws = take_status message ws

    take_data : ℕ → Bool → Value → W × ClientSession → Outcome (W × ClientSession)
    take_data type is_update items (w, s) =
        if has_flag type s.data_flags
        then if is_update && not (has_flag type s.data_update_flags)
          then thrown ("Unexpected data update" ∷ []) (w, s)
          else cb.on_session_data type is_update items (w, s)
        else thrown ("Unexpected data" ∷ []) (w, s)

    on_data : SessionState → Value → W × ClientSession → Outcome (W × ClientSession)
    unfolding take_data
    on_data closing message ws = done ws
    on_data connected message ws = elim (data_fields message) [
      | err text ↦ thrown text ws
      | ok (type, is_update, items) ↦ take_data type is_update items ws
    ]
    on_data _ message ws = thrown ("Unexpected DATA message" ∷ []) ws

    dispatch : ServerMsg → String → Value → W × ClientSession → Outcome (W × ClientSession)
    unfolding on_banner on_hello on_disconnect on_update_tick on_data_status on_data
    dispatch ServerMsg.unknown name message ws = thrown ("Unknown message '" ∷ name ∷ "'" ∷ []) ws
    dispatch ServerMsg.banner name message ws = on_banner message ws
    dispatch ServerMsg.hello name message ws = on_hello message ws
    dispatch ServerMsg.disconnect name message ws = on_disconnect message ws
    dispatch ServerMsg.update_tick name message (w, s) = on_update_tick s.state message (w, s)
    dispatch ServerMsg.data_status name message (w, s) = on_data_status s.state message (w, s)
    dispatch ServerMsg.data_msg name message (w, s) = on_data s.state message (w, s)

    unfoldable pub on_message : Value → W × ClientSession → Outcome (W × ClientSession)
    unfolding dispatch
    on_message message ws = elim (server_msg_type message) [
      | err text ↦ thrown text ws
      | ok (type, name) ↦ dispatch type name message ws
    ]

    update_at : SessionState → W × ClientSession → W × ClientSession
    update_at disconnected ws = ws
    update_at _ (w, s) =
        if is_positive s.session_ttl
        then (w, record s { session_ttl = s.session_ttl - 1 })
        else quick_disconnect DisconnectReason.timeout none (w, s)

    unfoldable pub on_update : W × ClientSession → W × ClientSession
    unfolding update_at
    on_update (w, s) = update_at s.state (w, s)

    disconnect_at : SessionState → W × ClientSession → W × ClientSession
    disconnect_at connected (w, s) = (
      w,
      send_message
          (create_client_msg J ClientMsg.disconnect
            (client_disconnect J DisconnectReason.user_decision))
          (record s {
            state = closing;
            session_ttl = 2;
            disconnect_reason = DisconnectReason.user_decision;
            disconnect_error = [];
          }),
    )
    disconnect_at opening ws = quick_disconnect DisconnectReason.user_decision none ws
    disconnect_at _ ws = ws

    unfoldable pub disconnect : W × ClientSession → W × ClientSession
    unfolding disconnect_at
    disconnect (w, s) = disconnect_at s.state (w, s)

  request_at : SessionState → ExpectedMsg → ℕ → ℕ → ClientSession → ClientSession
  request_at connected nothing flags update_flags s =
      send_message
        (create_client_msg J ClientMsg.request_data (client_request_data J flags update_flags))
        (record s { expected_msg = server_data_status })
  request_at _ _ flags update_flags s = s

  unfoldable pub request_data : ℕ → ℕ → ClientSession → ClientSession
  unfolding request_at
  request_data flags update_flags s = request_at s.state s.expected_msg flags update_flags s

connect_at : SessionState → Option ℕ → ClientSession → ClientSession
connect_at disconnected (some fd) s = record s {
  socket = some fd;
  state = opening;
  session_ttl = 4;
  expected_msg = server_banner;
  poll = some input_output;
}
connect_at _ _ s = s

unfoldable pub connect : Option ℕ → ClientSession → ClientSession
unfolding connect_at
connect socket s = connect_at s.state socket s

unfoldable pub new_session : ClientSession
unfolding initial
new_session = record {
  socket = none;
  poll = none;
  writer = initial;
  send_queue = [];
  state = disconnected;
  expected_msg = nothing;
  is_connection_established = false;
  session_ttl = 0;
  data_flags = 0;
  data_update_flags = 0;
  current_timestamp = 0;
  server_name = "";
  server_version = "";
  server_platform_name = "";
  server_endpoint = none;
  disconnect_reason = DisconnectReason.unknown;
  disconnect_error = [];
}
