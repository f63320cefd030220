-- ===== src/Tests/SessionTests.antt =====
-- Sessions at concrete inputs: a client and a server that greet each other, tick and part.
use conntop.Prelude.{◌≢◌, ◌≡◌, refl, true, false, [], ◌∷◌, none, some, arith}
use conntop.Protocol.{closing, disconnected, ClientMsg, DisconnectReason, connected}
use conntop.Protocol.Message.{
  client_disconnect, client_hello, create_client_msg, server_banner, server_hello,
  server_update_tick,
}
use conntop.Wire.Writer.Stream
use conntop.Wire.Writer.Stream.{pending}
use conntop.Session.{lost, done, accepted}
use conntop.Session.Client
use conntop.Session.Client.{ClientSession, ClientCallback, ExpectedMsg, nothing, unknown_text}
use conntop.Session.Client.Invariant.{IsValid}
use conntop.Session.Client.Poll
use conntop.Session.Client.Poll.{no_shared}
use conntop.Session.Client.Poll.Invariant.{socket_poll_handler-IsValid}
use conntop.Session.Client.Stream.{Streams, client_flush-Streams}
use conntop.Session.Server
use conntop.Session.Server.{
  ServerSession, ServerCallback, ServerContext, QueuedMsg, own_msg, shared_msg, hello_slot,
  tick_slot, message_at, Shared, store, context_on_update, send_shared_message,
}
use conntop.Session.Server.Poll as ServerPoll
use conntop.Session.Server.Poll.Stream as ServerStream
use conntop.Session.Server.Poll.Stall.{rest_not_awaited}
use conntop.Session.Handshake.{banner_answered, hello_connects, client_hello_taken}
use conntop.Session.Ticks.{ticked, tick_taken}
use conntop.Session.Client.Reach.{Reaches, created, asked_to_connect, polled, reaches-IsValid}
use conntop.Session.Parting.{client_leaves}
use conntop.Session.Timeout.{times, client_times_out}
use conntop.Tests.JsonModel.{json}
use conntop.Tests.Fixtures.{
  watcher, watcher-Keeps, server_watcher, here, here-IsPlain, idle, waiting, waiting-IsValid,
  everything, answers, two_messages, idle-IsValid, queue, greetings, served-IsValid, greeted,
  joined, guest, at_five, owing, one_byte,
}

socket_poll_handler_example :
    IsValid (Poll.socket_poll_handler json watcher here everything answers (tt, waiting)).1
socket_poll_handler_example =
    socket_poll_handler-IsValid json watcher here watcher-Keeps everything answers tt waiting
      waiting-IsValid

client_flush_example : Streams idle two_messages (Poll.flush (λ k. accepted 3) 0 idle two_messages)
client_flush_example = client_flush-Streams (λ k. accepted 3) 0 idle two_messages idle-IsValid

server_flush_example :
    ServerStream.Streams greetings idle queue
      (ServerPoll.flush greetings (λ k. accepted 2) 0 false idle queue).1
server_flush_example =
    ServerStream.server_flush-Streams greetings (λ k. accepted 2) 0 false idle queue served-IsValid

banner_answered_example :
    Client.on_message json watcher here (server_banner json) (tt, waiting)
    ≡ done (
      tt,
      record waiting {
        expected_msg = ExpectedMsg.server_hello;
        send_queue = create_client_msg json ClientMsg.hello (client_hello json here) ∷ [];
      },
    )
banner_answered_example = banner_answered json watcher here tt waiting refl refl

hello_connects_example :
    Client.on_message json watcher here (server_hello json here) (tt, greeted) ≡ done (tt, joined)
hello_connects_example = hello_connects json watcher here here tt greeted here-IsPlain refl refl

client_hello_taken_example :
    Server.on_message json server_watcher (client_hello json here) (tt, guest)
    ≡ done (
      tt,
      record guest {
        client_name = "nb";
        client_version = "1.0";
        client_platform_name = "Linux";
        send_queue = shared_msg hello_slot ∷ [];
        state = connected;
      },
    )
client_hello_taken_example = client_hello_taken json server_watcher here tt guest here-IsPlain

tick_taken_example :
    Client.on_message json watcher here (server_update_tick json 6) (tt, at_five)
    ≡ done (tt, ticked 6 at_five)
tick_taken_example = tick_taken json watcher here 6 tt at_five (omega arith) refl

client_times_out_example :
    (times 3 (Client.on_update json watcher here) (tt, joined)
      ≡ (tt, record joined { session_ttl = 0 }))
    × (times 4 (Client.on_update json watcher here) (tt, joined) ≡ (
      tt,
      record joined {
        socket = none;
        poll = none;
        session_ttl = 0;
        state = disconnected;
        is_connection_established = false;
        send_queue = [];
        disconnect_reason = DisconnectReason.timeout;
        disconnect_error = [];
      },
    ))
client_times_out_example =
    client_times_out json watcher here 3 tt joined (omega arith) refl (ground arith)

rest_not_awaited_example :
    let s' =
      (ServerPoll.socket_poll_handler json server_watcher greetings
        (record { input = false; output = true; error = false })
        one_byte
        (tt, owing)).1 in
    (Stream.pending (store greetings) s'.writer ≡ 2 ∷ 3 ∷ [])
    × (Stream.pending (store greetings) s'.writer ≢ [])
    × (s'.send_queue ≡ [])
    × (s'.poll ≡ some (record { input = true; output = false; error = false }))
rest_not_awaited_example =
    rest_not_awaited json server_watcher greetings one_byte tt owing (shared_msg hello_slot) 8 1
      refl (ground arith) refl refl refl (omega arith)

client_leaves_example :
    let leaving : ClientSession = record joined {
      state = closing;
      session_ttl = 2;
      disconnect_reason = DisconnectReason.user_decision;
      disconnect_error = [];
      send_queue =
          create_client_msg json ClientMsg.disconnect
            (client_disconnect json DisconnectReason.user_decision)
          ∷ [];
    } in
    (Client.disconnect json watcher here (tt, joined) ≡ (tt, leaving))
    × (Server.on_message json server_watcher
          (client_disconnect json DisconnectReason.user_decision)
          (tt, guest)
        ≡ done (
          tt,
          record guest {
            socket = none;
            poll = none;
            state = disconnected;
            disconnect_reason = DisconnectReason.user_decision;
          },
        ))
    × (Poll.handle_input json watcher here lost (tt, leaving) ≡ (
      tt,
      record leaving {
        socket = none;
        poll = none;
        state = disconnected;
        is_connection_established = false;
        send_queue = [];
      },
    ))
client_leaves_example = client_leaves json watcher here server_watcher tt joined tt guest refl

-- A session that connects and whose socket is then ready.
greeting-Reaches :
    Reaches json watcher here tt
      (Poll.socket_poll_handler json watcher here everything answers
        (tt, Client.connect (some 7) Client.new_session)).1
greeting-Reaches = polled everything answers tt _ (asked_to_connect (some 7) tt _ (created tt))

reaches_example :
    IsValid
      (Poll.socket_poll_handler json watcher here everything answers
        (tt, Client.connect (some 7) Client.new_session)).1
reaches_example =
    reaches-IsValid json watcher here watcher-Keeps tt
      (Poll.socket_poll_handler json watcher here everything answers
        (tt, Client.connect (some 7) Client.new_session)).1
      greeting-Reaches
