-- ===== src/Tests/ServerTests.antt =====
-- The server at concrete inputs.
use conntop.Prelude.{◌≡◌, refl, true, false, [], ◌∷◌, ◌++◌, arith}
use conntop.Protocol.{ServerMsg}
use conntop.Protocol.Message.{create_server_msg, server_data, server_update_tick}
use conntop.Session.{thrown}
use conntop.Session.Client
use conntop.Session.Client.{ClientSession}
use conntop.Session.Server
use conntop.Session.Server.Poll.Stream.{texts}
use conntop.Session.Server.{
  ServerSession, shared_msg, message_at, connection_updates_slot, tick_slot, stop_sending_data,
  store, Shared,
}
use conntop.Wire.Writer
use conntop.Wire.Writer.Stream
use conntop.Wire.Writer.{Writer}
use conntop.Server.{Host, on_update, shared_of, cleared}
use conntop.Server.Updates.{Serializer}
use conntop.Server.Ticks.{tick_text, queued_tick_overwritten}
use conntop.Server.Transit.{queued_update_replaced, stop_sending_data-Transit, Goes, NoData}
use conntop.Tests.JsonModel.{json}
use conntop.Tests.Fixtures.{member, some_context, idle, at_five, watcher, here}
use conntop.Tests.ConnectionTests.{address_text}
use conntop.Tests.ReplicaTests.{with_later}

-- A collector that finds nothing new.
abbrev collect : Unit {0} × Serializer json address_text → Unit {0} × Serializer json address_text
collect kz = kz

abbrev host : Host json address_text
host = record {
  context = some_context;
  available_data_flags = 1;
  serialized_connections = cleared;
  serialized_connection_updates = cleared;
  connection_updates = record with_later { is_serialization_enabled = true };
}

abbrev behind : ServerSession
behind = record member {
  send_queue = shared_msg connection_updates_slot ∷ [];
  is_sending_data = false;
  data_flags = 0;
  data_update_flags = 0;
}

queued_update_replaced_example :
    let (k', h', clients) = on_update json address_text collect (tt, host, behind ∷ []) in
    (clients
      ≡ record behind {
        send_queue = shared_msg connection_updates_slot ∷ shared_msg tick_slot ∷ [];
      }
        ∷ [])
    × (message_at (shared_of json address_text h') (shared_msg connection_updates_slot)
        ≡ create_server_msg json ServerMsg.data_msg
            (server_data json 1 true (json.array with_later.items)))
queued_update_replaced_example =
    queued_update_replaced json address_text collect tt host behind refl refl refl refl refl refl
      refl

-- A client that has taken the tick of `some_context`.
abbrev at_four : ClientSession
at_four = record at_five { current_timestamp = 4 }

queued_tick_example :
    let (k₁, h₁, clients₁) = on_update json address_text collect (tt, host, member ∷ []) in
    let (k₂, h₂, clients₂) = on_update json address_text collect (k₁, h₁, clients₁) in
    let ticks = shared_msg tick_slot ∷ shared_msg tick_slot ∷ [] in
    (clients₂ ≡ record member { send_queue = ticks } ∷ [])
    × ((message_at (shared_of json address_text h₁) (shared_msg tick_slot)).msg ≡ tick_text json 5)
    × (texts (shared_of json address_text h₂) ticks ≡ tick_text json 6 ++ (tick_text json 6 ++ []))
    × (Client.on_message json watcher here (server_update_tick json 6) (tt, at_four)
        ≡ thrown ("Unexpected update tick timestamp" ∷ []) (tt, at_four))
queued_tick_example =
    queued_tick_overwritten json address_text collect watcher here tt host member tt at_four
      (record { state = refl; sending = refl; flags = refl }) refl (omega arith) (omega arith) refl
      refl

-- Three bytes, and other bytes in their place.
abbrev before : Shared
before slot = record { msg = 1 ∷ 2 ∷ 3 ∷ []; msg_type = ServerMsg.data_msg }

abbrev after : Shared
after slot = record { msg = 9 ∷ []; msg_type = ServerMsg.data_msg }

-- One of the three has gone out.
abbrev half_way : ServerSession
half_way = record member {
  writer = record idle {
    msg_type = Writer.shared;
    ptr = Writer.to_shared connection_updates_slot;
    data_length = 3;
    data_pos = 1;
  };
  is_sending_data = true;
}

half_way-IsValid : Stream.IsValid (store before) half_way.writer
unfolding Stream.IsValid
half_way-IsValid = (refl, omega arith)

stop_sending_data_example :
    let s' = (stop_sending_data before half_way).0 in
    Goes before after half_way.writer s'.writer
    × Stream.IsValid (store after) s'.writer
    × NoData before s'.send_queue
    × (s'.is_sending_data ≡ false)
    × (s'.data_flags ≡ 0)
    × (s'.data_update_flags ≡ 0)
stop_sending_data_example = stop_sending_data-Transit before after half_way half_way-IsValid refl
