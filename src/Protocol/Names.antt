-- ===== src/Protocol/Names.antt =====
-- Names and enumerators of the protocol: reading a name back.
use text.Mathlib.TextEquality.{eq_iff}
use conntop.Prelude.{◌≡◌, refl, ◌≢◌, String, arith}
use conntop.Protocol.{
  ClientMsg, ServerMsg, DisconnectReason, get_client_msg_name, get_server_msg_name,
  get_disconnect_reason_name, get_client_msg_enum, get_server_msg_enum, get_disconnect_reason_enum,
}

-- Every enumerator is read back from its name, `UNKNOWN` included: its name "?" is in no map.
pub get_client_msg_enum-name : (m : ClientMsg) → get_client_msg_enum (get_client_msg_name m) ≡ m
unfolding get_client_msg_enum get_client_msg_name
get_client_msg_enum-name ClientMsg.unknown = refl
get_client_msg_enum-name m = refl

pub get_server_msg_enum-name : (m : ServerMsg) → get_server_msg_enum (get_server_msg_name m) ≡ m
unfolding get_server_msg_enum get_server_msg_name
get_server_msg_enum-name ServerMsg.unknown = refl
get_server_msg_enum-name m = refl

-- Every disconnect reason is read back from its name, UNKNOWN included.
pub get_disconnect_reason_enum-name :
    (r : DisconnectReason) → get_disconnect_reason_enum (get_disconnect_reason_name r) ≡ r
unfolding get_disconnect_reason_enum get_disconnect_reason_name
get_disconnect_reason_enum-name DisconnectReason.unknown = refl
get_disconnect_reason_enum-name r = refl

-- A text that is read as a known server message is that message's name.
pub get_server_msg_name-enum :
    (s : String)
    → get_server_msg_enum s ≢ ServerMsg.unknown
    → get_server_msg_name (get_server_msg_enum s) ≡ s
unfolding get_server_msg_enum get_server_msg_name
get_server_msg_name-enum s h = ground (
  arith,
  eq_iff "BANNER" s,
  eq_iff "HELLO" s,
  eq_iff "DISCONNECT" s,
  eq_iff "UPDATE_TICK" s,
  eq_iff "DATA_STATUS" s,
  eq_iff "DATA" s,
)
