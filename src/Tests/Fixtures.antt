-- ===== src/Tests/Fixtures.antt =====
-- Concrete sessions, owners and surroundings.
use conntop.Prelude.{refl, true, false, List, [], ◌∷◌, none, some}
use conntop.Protocol.{ClientMsg, ServerMsg, DisconnectReason, opening, connected}
use conntop.Protocol.Message.{
  Surroundings, SerializedMessage, create_server_msg, server_banner, server_hello,
  server_update_tick,
}
use conntop.Wire.Writer.{Writer, initial}
use conntop.Wire.Writer.Stream
use conntop.Wire.Writer.Stream.{pending}
use conntop.Session.{done, PollFlags, parsed, accepted, SocketAnswers}
use conntop.Session.Client.{ClientSession, ClientCallback, ExpectedMsg, nothing}
use conntop.Session.Client.Invariant.{IsValid, Keeps}
use conntop.Session.Client.Poll.{no_shared}
use conntop.Session.Server.{
  ServerSession, ServerCallback, ServerContext, QueuedMsg, own_msg, shared_msg, hello_slot, Shared,
  store,
}
use conntop.Session.Fields.{IsPlain}
use conntop.Tests.JsonModel.{Json, json}

-- Owners that only watch.
abbrev pub watcher : ClientCallback Json (Unit {0})
watcher = record {
  on_connection_established = λ ws. ws;
  on_session_established = λ ws. ws;
  on_session_disconnect = λ ws. ws;
  on_session_server_tick = λ ws. ws;
  on_session_data_status = λ b ws. ws;
  on_session_data = λ t b v ws. done ws;
}

pub watcher-Keeps : Keeps watcher
watcher-Keeps = record {
  connection_established = λ ws v. v;
  established = λ ws v. v;
  disconnect = λ ws v. v;
  tick = λ ws v. v;
  status = λ b ws v. v;
  data_received = λ t b v ws h. h;
}

abbrev pub server_watcher : ServerCallback (Unit {0})
server_watcher = record {
  on_session_established = λ ws. ws;
  on_session_disconnect = λ ws. ws;
  on_session_data_request = λ f u ws. ws;
}

abbrev pub here : Surroundings
here = record { name_arg = none; host_name = "nb"; system_name = "Linux"; version = "1.0" }

pub here-IsPlain : IsPlain here
here-IsPlain = record { name = refl; version = refl; system_name = refl }

abbrev pub idle : Writer
idle = record {
  msg_type = conntop.Wire.Writer.none;
  buffer = [];
  ptr = conntop.Wire.Writer.null;
  data_length = 0;
  data_pos = 0;
  msg = [];
}

abbrev pub waiting : ClientSession
waiting = record {
  socket = some 7;
  poll = some (record { input = true; output = true; error = false });
  writer = idle;
  send_queue = [];
  state = opening;
  expected_msg = ExpectedMsg.server_banner;
  is_connection_established = true;
  session_ttl = 4;
  data_flags = 0;
  data_update_flags = 0;
  current_timestamp = 0;
  server_name = "";
  server_version = "";
  server_platform_name = "";
  server_endpoint = none;
  disconnect_reason = DisconnectReason.unknown;
  disconnect_error = [];
}

pub waiting-IsValid : IsValid waiting
unfolding Stream.IsValid
waiting-IsValid = record { fits = (tt, refl); writer = tt }

abbrev pub everything : PollFlags
everything = record { input = true; output = true; error = false }

abbrev pub answers : SocketAnswers Json
answers = record {
  received = parsed (server_banner json ∷ []) none;
  sends = λ k. accepted 3;
  verify_connect = none;
  remote_endpoint = some 9;
}

abbrev pub two_messages : List (SerializedMessage ClientMsg)
two_messages =
    record { msg = 1 ∷ 2 ∷ 3 ∷ []; msg_type = ClientMsg.hello }
    ∷ record { msg = 4 ∷ 5 ∷ []; msg_type = ClientMsg.disconnect }
    ∷ []

pub idle-IsValid : Stream.IsValid no_shared idle
unfolding Stream.IsValid
idle-IsValid = tt

abbrev pub queue : List QueuedMsg
queue =
    shared_msg hello_slot
    ∷ own_msg (record { msg = 4 ∷ 5 ∷ []; msg_type = ServerMsg.data_status })
    ∷ []

abbrev pub greetings : Shared
greetings slot = record { msg = 1 ∷ 2 ∷ 3 ∷ []; msg_type = ServerMsg.hello }

pub served-IsValid : Stream.IsValid (store greetings) idle
unfolding Stream.IsValid
served-IsValid = tt

abbrev pub greeted : ClientSession
greeted = record waiting { expected_msg = ExpectedMsg.server_hello }

abbrev pub joined : ClientSession
joined = record greeted {
  server_name = "nb";
  server_version = "1.0";
  server_platform_name = "Linux";
  expected_msg = nothing;
  state = connected;
  session_ttl = 3;
  current_timestamp = 0;
  data_flags = 0;
  data_update_flags = 0;
}

abbrev pub guest : ServerSession
guest = record {
  socket = some 8;
  poll = some (record { input = true; output = true; error = false });
  writer = idle;
  send_queue = [];
  state = opening;
  is_sending_data = false;
  session_ttl = 0;
  data_flags = 0;
  data_update_flags = 0;
  client_name = "";
  client_version = "";
  client_platform_name = "";
  client_endpoint = none;
  disconnect_reason = DisconnectReason.unknown;
  disconnect_error = [];
}

abbrev pub member : ServerSession
member = record guest { state = connected }

abbrev pub at_five : ClientSession
at_five = record joined { current_timestamp = 5 }

abbrev pub some_context : ServerContext
some_context = record {
  timestamp = 4;
  cached_msg_banner = create_server_msg json ServerMsg.banner (server_banner json);
  cached_msg_hello = create_server_msg json ServerMsg.hello (server_hello json here);
  cached_msg_update_tick = create_server_msg json ServerMsg.update_tick (server_update_tick json 4);
}

abbrev pub owing : ServerSession
owing = record member { send_queue = shared_msg hello_slot ∷ [] }

-- A socket that takes one byte at a time.
abbrev pub one_byte : SocketAnswers Json
one_byte = record answers { sends = λ k. accepted 1 }
