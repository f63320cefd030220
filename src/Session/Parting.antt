-- ===== src/Session/Parting.antt =====
-- A client that leaves: its DISCONNECT, what the server's session makes of it, and the end of the
-- client's session. Source/ClientServerProtocol.cpp.
use conntop.Prelude.{◌≡◌, refl, true, false, [], ◌∷◌, ◌++◌, none, some, arith}
use conntop.Json.{JsonLib}
use conntop.Protocol.{ClientMsg, DisconnectReason, closing, connected, disconnected}
use conntop.Protocol.Names.{get_disconnect_reason_enum-name}
use conntop.Protocol.Message.{Surroundings, client_disconnect, create_client_msg}
use conntop.Session.{done, lost}
use conntop.Session.Fields
use conntop.Session.Client
use conntop.Session.Client.{ClientSession, ClientCallback}
use conntop.Session.Client.Poll
use conntop.Session.Server
use conntop.Session.Server.{ServerSession, ServerCallback}

-- The sessions after their quickDisconnect for this reason.
abbrev server_parted : ServerSession → ServerSession
server_parted s = record s {
  socket = none;
  poll = elim s.socket [ none ↦ s.poll | some _ ↦ none ];
  state = disconnected;
  is_sending_data = false;
  send_queue = [];
  disconnect_reason = DisconnectReason.user_decision;
  disconnect_error = [];
}

abbrev client_parted : ClientSession → ClientSession
client_parted s = record s {
  socket = none;
  poll = elim s.socket [ none ↦ s.poll | some _ ↦ none ];
  state = disconnected;
  is_connection_established = false;
  send_queue = [];
  disconnect_reason = DisconnectReason.user_decision;
  disconnect_error = [];
}

module _ (J : JsonLib) {W V : Type 0} (cb : ClientCallback (J.Value) W) (e : Surroundings)
    (scb : ServerCallback V) where
  server_side :
      (v : V) (s : ServerSession)
      → Server.on_message J scb (client_disconnect J DisconnectReason.user_decision) (v, s)
        ≡ done (scb.on_session_disconnect (v, server_parted s))
  unfolding Server.on_message Server.quick_disconnect
  server_side v s = ground (
    arith,
    Fields.client_msg_type-disconnect J DisconnectReason.user_decision,
    Fields.client_disconnect_fields-disconnect J DisconnectReason.user_decision,
    get_disconnect_reason_enum-name DisconnectReason.user_decision,
  )

  lost_lem :
      (w : W) (c : ClientSession)
      → c.state ≡ closing
      → c.disconnect_reason ≡ DisconnectReason.user_decision
      → Poll.handle_input J cb e lost (w, c) ≡ cb.on_session_disconnect (w, client_parted c)
  unfolding Poll.handle_input Client.quick_disconnect
  lost_lem w c p q = ground arith

-- When a connected client session is told to disconnect, it puts DISCONNECT behind what is queued
-- and is closing, with two updates to live and the reason USER_DECISION. Given this DISCONNECT, a
-- server session in any state closes its socket, drops its queue and is disconnected with the same
-- reason and no text, and its owner is told. When the closing client's receive then finds the
-- connection closed, the client's session closes its socket, drops its queue and is disconnected,
-- still with that reason, and its owner is told.
pub client_leaves :
    (J : JsonLib) {W V : Type 0} (cb : ClientCallback (J.Value) W) (e : Surroundings)
    (scb : ServerCallback V) (w : W) (c : ClientSession) (v : V) (s : ServerSession)
    → c.state ≡ connected
    → let leaving : ClientSession = record c {
      state = closing;
      session_ttl = 2;
      disconnect_reason = DisconnectReason.user_decision;
      disconnect_error = [];
      send_queue =
          c.send_queue
          ++ create_client_msg J ClientMsg.disconnect
              (client_disconnect J DisconnectReason.user_decision)
            ∷ [];
      poll = elim c.send_queue [
        | [] ↦ some (record { input = true; output = true; error = false })
        | _ ∷ _ ↦ c.poll
      ];
    } in
      (Client.disconnect J cb e (w, c) ≡ (w, leaving))
      × (Server.on_message J scb (client_disconnect J DisconnectReason.user_decision) (v, s)
          ≡ done (
              scb.on_session_disconnect (
                v,
                record s {
                  socket = none;
                  poll = elim s.socket [ none ↦ s.poll | some _ ↦ none ];
                  state = disconnected;
                  is_sending_data = false;
                  send_queue = [];
                  disconnect_reason = DisconnectReason.user_decision;
                  disconnect_error = [];
                },
              )))
      × (Poll.handle_input J cb e lost (w, leaving)
          ≡ cb.on_session_disconnect (
            w,
            record leaving {
              socket = none;
              poll = elim leaving.socket [ none ↦ leaving.poll | some _ ↦ none ];
              state = disconnected;
              is_connection_established = false;
              send_queue = [];
            },
          ))
unfolding Client.disconnect Client.send_message
client_leaves J cb e scb w c v s p =
    (ground arith, server_side J cb e scb v s, lost_lem J cb e scb w _ refl refl)
