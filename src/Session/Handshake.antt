-- ===== src/Session/Handshake.antt =====
-- What each side makes of the messages that the other builds.
-- Source/ClientServerProtocol.cpp.
use conntop.Prelude.{◌≡◌, [], ◌∷◌, ◌++◌, some, arith}
use conntop.Json.{JsonLib}
use conntop.Protocol.{ClientMsg, opening, connected}
use conntop.Protocol.Message.{
  Surroundings, own_name, client_hello, create_client_msg, server_banner, server_hello,
}
use conntop.Session.{done, thrown}
use conntop.Session.Fields
use conntop.Session.Fields.{IsPlain}
use conntop.Session.Client
use conntop.Session.Client.{
  ClientSession, ClientCallback, server_banner as expects_banner, server_hello as expects_hello,
  server_data_status as expects_status, nothing, unknown_text,
}
use conntop.Session.Server
use conntop.Session.Server.{ServerSession, ServerCallback, shared_msg, hello_slot}

module _ (J : JsonLib) {W : Type 0} (cb : ClientCallback (J.Value) W) (e : Surroundings) where
  -- An opening client session that waits for the banner answers the server's banner: its HELLO is
  -- put behind what is queued, the socket is registered for output if nothing was, and the session
  -- waits for the server's HELLO.
  pub banner_answered :
      (w : W) (s : ClientSession)
      → s.state ≡ opening
      → s.expected_msg ≡ expects_banner
      → Client.on_message J cb e (server_banner J) (w, s)
        ≡ done (
          w,
          record s {
            expected_msg = expects_hello;
            send_queue =
                s.send_queue ++ create_client_msg J ClientMsg.hello (client_hello J e) ∷ [];
            poll = elim s.send_queue [ [] ↦ some Client.input_output | _ ∷ _ ↦ s.poll ];
          },
        )
  unfolding Client.on_message Client.send_message
  banner_answered w s p q =
      ground (arith, Fields.server_msg_type-banner J, Fields.banner_version-banner J)

  -- For server texts without NUL, the server's HELLO connects an opening client session that waits
  -- for it: the names are the server's, the session has three updates to live, no data is asked
  -- for yet, and the owner is told.
  pub hello_connects :
      (server : Surroundings) (w : W) (s : ClientSession)
      → IsPlain server
      → s.state ≡ opening
      → s.expected_msg ≡ expects_hello
      → Client.on_message J cb e (server_hello J server) (w, s)
        ≡ done (
            cb.on_session_established (
              w,
              record s {
                server_name = own_name server;
                server_version = server.version;
                server_platform_name = server.system_name;
                expected_msg = nothing;
                state = connected;
                session_ttl = 3;
                current_timestamp = 0;
                data_flags = 0;
                data_update_flags = 0;
              },
            ))
  unfolding Client.on_message
  hello_connects server w s plain p q =
      ground
        (arith, Fields.server_msg_type-hello J server, Fields.hello_fields-hello J server plain)

module _ (J : JsonLib) {W : Type 0} (cb : ServerCallback W) where
  -- For client texts without NUL, a client's HELLO connects a server session that is opening: the
  -- names are the client's, the server's HELLO is put behind what is queued, the socket is
  -- registered for output if nothing was, and the owner is told. In any other state it is refused
  -- with an exception and nothing changes.
  pub client_hello_taken :
      (client : Surroundings) (w : W) (s : ServerSession)
      → IsPlain client
      → Server.on_message J cb (client_hello J client) (w, s) ≡ elim s.state [
        | opening ↦ done (
            cb.on_session_established (
              w,
              record s {
                client_name = own_name client;
                client_version = client.version;
                client_platform_name = client.system_name;
                send_queue = s.send_queue ++ shared_msg hello_slot ∷ [];
                poll = elim s.send_queue [ [] ↦ some Server.input_output | _ ∷ _ ↦ s.poll ];
                state = connected;
              },
            ))
        | _ ↦ thrown ("Unexpected HELLO message" ∷ []) (w, s)
      ]
  unfolding Server.on_message Server.send_shared_message
  client_hello_taken client w s plain = ground (
    arith,
    Fields.client_msg_type-hello J client,
    Fields.client_hello_fields-hello J client plain,
  )
