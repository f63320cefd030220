-- ===== src/Protocol/Message.antt =====
-- Building the messages: `create…Msg_…` and `CreateMsgString` of Source/ClientServerProtocol.cpp.
use conntop.Prelude.{ℕ, Bool, String, List, [], ◌∷◌, ◌++◌, Option, none, some}
use conntop.Json.{JsonLib}
use conntop.Protocol.{
  ClientMsg, ServerMsg, DisconnectReason, get_client_msg_name, get_server_msg_name,
  get_disconnect_reason_name,
}

-- `SerializedMessage`
pub record SerializedMessage (E : Type 0) : Type 0 where
  pub msg : List ℕ
  pub msg_type : E

-- What a greeting reads of its surroundings: the command line's name argument, the host's name, the
-- system's name and `CONNTOP_VERSION_STRING`.
pub record Surroundings : Type 0 where
  pub name_arg : Option String
  pub host_name : String
  pub system_name : String
  pub version : String

abbrev name_of : Option String → String → String
name_of none host = host
name_of (some n) host = n

-- The name that both greetings send.
abbrev pub own_name : Surroundings → String
own_name e = name_of e.name_arg e.host_name

-- `ClientServerProtocol::VERSION`
abbrev pub protocol_version : ℕ
protocol_version = 1

module _ (J : JsonLib) where
  open J use {Value, object, set_string, set_int, set_uint, set_bool, write}

  unfoldable pub create_msg_string : Value → List ℕ
  create_msg_string message = write message ++ 10 ∷ []

  unfoldable pub client_hello : Surroundings → Value
  client_hello e = object (
      ("message", set_string (get_client_msg_name ClientMsg.hello))
      ∷ ("name", set_string (own_name e))
      ∷ ("version", set_string e.version)
      ∷ ("platform", set_string e.system_name)
      ∷ [])

  unfoldable pub client_disconnect : DisconnectReason → Value
  client_disconnect reason = object (
      ("message", set_string (get_client_msg_name ClientMsg.disconnect))
      ∷ ("reason", set_string (get_disconnect_reason_name reason))
      ∷ [])

  unfoldable pub client_request_data : ℕ → ℕ → Value
  client_request_data data_flags data_update_flags = object (
      ("message", set_string (get_client_msg_name ClientMsg.request_data))
      ∷ ("dataFlags", set_int data_flags)
      ∷ ("dataUpdateFlags", set_int data_update_flags)
      ∷ [])

  unfoldable pub server_banner : Value
  server_banner = object (("conntop_server", set_int protocol_version) ∷ [])

  unfoldable pub server_hello : Surroundings → Value
  server_hello e = object (
      ("message", set_string (get_server_msg_name ServerMsg.hello))
      ∷ ("name", set_string (own_name e))
      ∷ ("version", set_string e.version)
      ∷ ("platform", set_string e.system_name)
      ∷ [])

  unfoldable pub server_disconnect : DisconnectReason → Value
  server_disconnect reason = object (
      ("message", set_string (get_server_msg_name ServerMsg.disconnect))
      ∷ ("reason", set_string (get_disconnect_reason_name reason))
      ∷ [])

  unfoldable pub server_update_tick : ℕ → Value
  server_update_tick timestamp = object (
      ("message", set_string (get_server_msg_name ServerMsg.update_tick))
      ∷ ("timestamp", set_uint timestamp)
      ∷ [])

  unfoldable pub server_data_status : ℕ → ℕ → Value
  server_data_status data_flags data_update_flags = object (
      ("message", set_string (get_server_msg_name ServerMsg.data_status))
      ∷ ("dataFlags", set_int data_flags)
      ∷ ("dataUpdateFlags", set_int data_update_flags)
      ∷ [])

  unfoldable pub server_data : ℕ → Bool → Value → Value
  server_data type is_update items = object (
      ("message", set_string (get_server_msg_name ServerMsg.data_msg))
      ∷ ("type", set_int type)
      ∷ ("isUpdate", set_bool is_update)
      ∷ ("data", items)
      ∷ [])

  unfoldable pub create_client_msg : ClientMsg → Value → SerializedMessage ClientMsg
  unfolding create_msg_string
  create_client_msg type document = record { msg = create_msg_string document; msg_type = type }

  unfoldable pub create_server_msg : ServerMsg → Value → SerializedMessage ServerMsg
  unfolding create_msg_string
  create_server_msg type document = record { msg = create_msg_string document; msg_type = type }
