-- ===== src/Protocol.antt =====
-- The messages of the protocol and their names: `ClientServerProtocol` of
-- Source/ClientServerProtocol.hpp and Source/ClientServerProtocol.cpp.
pub mod Names
pub mod Message
use conntop.Prelude.{String, List, [], ◌∷◌, Option, none, some, find}

pub data ClientMsg : Type 0 where
  unknown hello disconnect request_data : ClientMsg

pub data ServerMsg : Type 0 where
  unknown banner hello disconnect update_tick data_status data_msg : ServerMsg

pub data DisconnectReason : Type 0 where
  unknown timeout user_decision server_quit version_mismatch : DisconnectReason
  connection_lost protocol_error socket_error : DisconnectReason

pub data SessionState : Type 0 where
  disconnected closing opening connected : SessionState

abbrev client_msg_map : List (String × ClientMsg)
client_msg_map =
    ("HELLO", ClientMsg.hello)
    ∷ ("DISCONNECT", ClientMsg.disconnect)
    ∷ ("REQUEST_DATA", ClientMsg.request_data)
    ∷ []

abbrev server_msg_map : List (String × ServerMsg)
server_msg_map =
    ("BANNER", ServerMsg.banner)
    ∷ ("HELLO", ServerMsg.hello)
    ∷ ("DISCONNECT", ServerMsg.disconnect)
    ∷ ("UPDATE_TICK", ServerMsg.update_tick)
    ∷ ("DATA_STATUS", ServerMsg.data_status)
    ∷ ("DATA", ServerMsg.data_msg)
    ∷ []

abbrev disconnect_reason_map : List (String × DisconnectReason)
disconnect_reason_map =
    ("TIMEOUT", timeout)
    ∷ ("USER_DECISION", user_decision)
    ∷ ("SERVER_QUIT", server_quit)
    ∷ ("VERSION_MISMATCH", version_mismatch)
    ∷ ("CONNECTION_LOST", connection_lost)
    ∷ ("PROTOCOL_ERROR", protocol_error)
    ∷ ("SOCKET_ERROR", socket_error)
    ∷ []

unfoldable pub get_client_msg_name : ClientMsg → String
get_client_msg_name ClientMsg.unknown = "?"
get_client_msg_name ClientMsg.hello = "HELLO"
get_client_msg_name ClientMsg.disconnect = "DISCONNECT"
get_client_msg_name ClientMsg.request_data = "REQUEST_DATA"

unfoldable pub get_server_msg_name : ServerMsg → String
get_server_msg_name ServerMsg.unknown = "?"
get_server_msg_name ServerMsg.banner = "BANNER"
get_server_msg_name ServerMsg.hello = "HELLO"
get_server_msg_name ServerMsg.disconnect = "DISCONNECT"
get_server_msg_name ServerMsg.update_tick = "UPDATE_TICK"
get_server_msg_name ServerMsg.data_status = "DATA_STATUS"
get_server_msg_name ServerMsg.data_msg = "DATA"

unfoldable pub get_disconnect_reason_name : DisconnectReason → String
get_disconnect_reason_name DisconnectReason.unknown = "?"
get_disconnect_reason_name timeout = "TIMEOUT"
get_disconnect_reason_name user_decision = "USER_DECISION"
get_disconnect_reason_name server_quit = "SERVER_QUIT"
get_disconnect_reason_name version_mismatch = "VERSION_MISMATCH"
get_disconnect_reason_name connection_lost = "CONNECTION_LOST"
get_disconnect_reason_name protocol_error = "PROTOCOL_ERROR"
get_disconnect_reason_name socket_error = "SOCKET_ERROR"

-- `it != end() ? it->second : UNKNOWN`
abbrev or_else {ℓ} : {A : Type ℓ} → Option A → A → A
or_else none d = d
or_else (some a) d = a

unfoldable pub get_client_msg_enum : String → ClientMsg
get_client_msg_enum msg = or_else (find msg client_msg_map) ClientMsg.unknown

unfoldable pub get_server_msg_enum : String → ServerMsg
get_server_msg_enum msg = or_else (find msg server_msg_map) ServerMsg.unknown

unfoldable pub get_disconnect_reason_enum : String → DisconnectReason
get_disconnect_reason_enum reason =
    or_else (find reason disconnect_reason_map) DisconnectReason.unknown
