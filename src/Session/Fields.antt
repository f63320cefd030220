-- ===== src/Session/Fields.antt =====
-- What each side reads of the messages that the other builds: Source/ClientServerProtocol.cpp.
use conntop.Prelude.{ℕ, ◌<◌, ◌^◌, ◌≡◌, refl, Bool, true, false, String, arith}
use conntop.Json.{JsonLib, has_nul, ok}
use conntop.Protocol.{
  ClientMsg, ServerMsg, DisconnectReason, get_disconnect_reason_name, get_server_msg_name,
  get_client_msg_name, get_server_msg_enum, get_client_msg_enum,
}
use conntop.Protocol.Message.{
  Surroundings, own_name, protocol_version, client_hello, client_disconnect, client_request_data,
  server_banner, server_hello, server_disconnect, server_update_tick, server_data_status,
  server_data,
}
use conntop.Session.Client.{
  server_msg_type, banner_version, hello_fields, tick_fields, status_fields, data_fields,
  disconnect_fields,
}
use conntop.Session.Server.{
  client_msg_type, client_hello_fields, client_disconnect_fields, request_fields,
}

-- The texts of a greeting hold no NUL.
pub record IsPlain (e : Surroundings) : Type 0 where
  pub name : has_nul (own_name e) ≡ false
  pub version : has_nul e.version ≡ false
  pub system_name : has_nul e.system_name ≡ false

module _ (J : JsonLib) where
  open J use {object_lem, find_member-object, string_lem, int_lem, uint_lem, bool_lem}

  pub server_msg_type-banner : server_msg_type J (server_banner J) ≡ ok (ServerMsg.banner, "")
  unfolding server_msg_type server_banner
  server_msg_type-banner = simp (object_lem, find_member-object)

  pub banner_version-banner : banner_version J (server_banner J) ≡ ok protocol_version
  unfolding banner_version server_banner
  banner_version-banner = simp (find_member-object) (
      rw ((int_lem protocol_version (omega arith)).0)
        (rw ((int_lem protocol_version (omega arith)).1)))

  -- The texts that stand in the messages themselves.
  is_text : (s : String) → has_nul s ≡ false → J.is_string (J.set_string s) ≡ true
  is_text s h = (string_lem s h).0

  get_text : (s : String) → has_nul s ≡ false → J.get_string (J.set_string s) ≡ s
  get_text s h = (string_lem s h).1

  pub server_msg_type-hello :
      (e : Surroundings) → server_msg_type J (server_hello J e) ≡ ok (ServerMsg.hello, "HELLO")
  unfolding server_msg_type server_hello get_server_msg_name get_server_msg_enum
  server_msg_type-hello e =
      simp (object_lem, find_member-object, is_text "HELLO" refl, get_text "HELLO" refl)

  pub hello_fields-hello :
      (e : Surroundings)
      → IsPlain e
      → hello_fields J (server_hello J e) ≡ ok (own_name e, e.version, e.system_name)
  unfolding hello_fields server_hello
  hello_fields-hello e p =
      simp find_member-object
        (ground (arith, string_lem (own_name e), string_lem e.version, string_lem e.system_name))

  pub server_msg_type-disconnect :
      (r : DisconnectReason)
      → server_msg_type J (server_disconnect J r) ≡ ok (ServerMsg.disconnect, "DISCONNECT")
  unfolding server_msg_type server_disconnect get_server_msg_name get_server_msg_enum
  server_msg_type-disconnect r =
      simp (object_lem, find_member-object, is_text "DISCONNECT" refl, get_text "DISCONNECT" refl)

  name_IsPlain : (r : DisconnectReason) → has_nul (get_disconnect_reason_name r) ≡ false
  unfolding get_disconnect_reason_name
  name_IsPlain DisconnectReason.unknown = refl
  name_IsPlain r = refl

  pub disconnect_fields-disconnect :
      (r : DisconnectReason)
      → disconnect_fields J (server_disconnect J r) ≡ ok (get_disconnect_reason_name r)
  unfolding disconnect_fields server_disconnect
  disconnect_fields-disconnect r =
      simp find_member-object
        (ground (arith, string_lem (get_disconnect_reason_name r) (name_IsPlain r)))

  pub server_msg_type-tick :
      (t : ℕ)
      → server_msg_type J (server_update_tick J t) ≡ ok (ServerMsg.update_tick, "UPDATE_TICK")
  unfolding server_msg_type server_update_tick get_server_msg_name get_server_msg_enum
  server_msg_type-tick t =
      simp (object_lem, find_member-object, is_text "UPDATE_TICK" refl, get_text "UPDATE_TICK" refl)

  pub tick_fields-tick : (t : ℕ) → t < 2 ^ 32 → tick_fields J (server_update_tick J t) ≡ ok t
  unfolding tick_fields server_update_tick
  tick_fields-tick t h = simp find_member-object (ground (arith, uint_lem t h))

  pub server_msg_type-status :
      (f u : ℕ)
      → server_msg_type J (server_data_status J f u) ≡ ok (ServerMsg.data_status, "DATA_STATUS")
  unfolding server_msg_type server_data_status get_server_msg_name get_server_msg_enum
  server_msg_type-status f u =
      simp (object_lem, find_member-object, is_text "DATA_STATUS" refl, get_text "DATA_STATUS" refl)

  pub status_fields-status :
      (f u : ℕ) → f < 2 ^ 32 → u < 2 ^ 32 → status_fields J (server_data_status J f u) ≡ ok (f, u)
  unfolding status_fields server_data_status
  status_fields-status f u hf hu =
      simp find_member-object (ground (arith, int_lem f hf, int_lem u hu))

  pub server_msg_type-data :
      (t : ℕ) (b : Bool) (items : J.Value)
      → server_msg_type J (server_data J t b items) ≡ ok (ServerMsg.data_msg, "DATA")
  unfolding server_msg_type server_data get_server_msg_name get_server_msg_enum
  server_msg_type-data t b items =
      simp (object_lem, find_member-object, is_text "DATA" refl, get_text "DATA" refl)

  pub data_fields-data :
      (t : ℕ) (b : Bool) (items : J.Value)
      → t < 2 ^ 32
      → data_fields J (server_data J t b items) ≡ ok (t, b, items)
  unfolding data_fields server_data
  data_fields-data t b items h = simp find_member-object (ground (arith, int_lem t h, bool_lem b))

  pub client_msg_type-hello :
      (e : Surroundings) → client_msg_type J (client_hello J e) ≡ ok (ClientMsg.hello, "HELLO")
  unfolding client_msg_type client_hello get_client_msg_name get_client_msg_enum
  client_msg_type-hello e =
      simp (object_lem, find_member-object, is_text "HELLO" refl, get_text "HELLO" refl)

  pub client_hello_fields-hello :
      (e : Surroundings)
      → IsPlain e
      → client_hello_fields J (client_hello J e) ≡ ok (own_name e, e.version, e.system_name)
  unfolding client_hello_fields client_hello
  client_hello_fields-hello e p =
      simp find_member-object
        (ground (arith, string_lem (own_name e), string_lem e.version, string_lem e.system_name))

  pub client_msg_type-disconnect :
      (r : DisconnectReason)
      → client_msg_type J (client_disconnect J r) ≡ ok (ClientMsg.disconnect, "DISCONNECT")
  unfolding client_msg_type client_disconnect get_client_msg_name get_client_msg_enum
  client_msg_type-disconnect r =
      simp (object_lem, find_member-object, is_text "DISCONNECT" refl, get_text "DISCONNECT" refl)

  pub client_disconnect_fields-disconnect :
      (r : DisconnectReason)
      → client_disconnect_fields J (client_disconnect J r) ≡ ok (get_disconnect_reason_name r)
  unfolding client_disconnect_fields client_disconnect
  client_disconnect_fields-disconnect r =
      simp find_member-object
        (ground (arith, string_lem (get_disconnect_reason_name r) (name_IsPlain r)))

  pub client_msg_type-request :
      (f u : ℕ)
      → client_msg_type J (client_request_data J f u) ≡ ok (ClientMsg.request_data, "REQUEST_DATA")
  unfolding client_msg_type client_request_data get_client_msg_name get_client_msg_enum
  client_msg_type-request f u =
      simp
        (object_lem, find_member-object, is_text "REQUEST_DATA" refl, get_text "REQUEST_DATA" refl)

  pub request_fields-request :
      (f u : ℕ) → f < 2 ^ 32 → u < 2 ^ 32 → request_fields J (client_request_data J f u) ≡ ok (f, u)
  unfolding request_fields client_request_data
  request_fields-request f u hf hu =
      simp find_member-object (ground (arith, int_lem f hf, int_lem u hu))
