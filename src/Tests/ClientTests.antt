-- ===== src/Tests/ClientTests.antt =====
-- The client at concrete inputs.
use conntop.Prelude.{
  ℕ, ◌≡◌, refl, true, false, none, some, [], ◌∷◌, Option, arith, ◌==◌, if◌then◌else◌,
}
use conntop.Protocol.Message.{server_data}
use conntop.Session.Client as Session
use conntop.Session.Client.{ClientSession}
use conntop.Session.Client.Invariant.{Keeps}
use conntop.Connection.{Address, ip4}
use conntop.Server.Updates.{Serializer, callback as keeper, storage_items, new_serializer}
use conntop.Server.Updates.Keeps.{callback-Backed}
use conntop.Client.{Client, callback}
use conntop.Client.Connect.{Connector, connected_to, try_next}
use conntop.Client.Connect.Order.{ahead, try_next_lem}
use conntop.Client.Keeps.{callback-Keeps}
use conntop.Client.Synced.{Arrived, full_data_taken, update_taken}
use conntop.Tests.JsonModel.{json}
use conntop.Tests.Fixtures.{here, joined}
use conntop.Tests.ConnectionTests.{address_text}
use conntop.Tests.ReplicaTests.{
  nothing, visited, visit-IsFit, with_later, with_later-Runs, empty-AllFit, empty-Closed,
}

abbrev connector : Connector
connector = record {
  resolved_addresses = ip4 3 ∷ ip4 5 ∷ [];
  resolved_ports = 80 ∷ 443 ∷ [];
  address_index = 0;
  port_index = 0;
  current_address = none;
  current_port = 55555;
}

-- A socket that connects to port 443 alone.
abbrev attempt : Address → ℕ → Option ℕ
attempt a p = if p == 443 then some 7 else none

try_next_example :
    ((try_next attempt connector).0 ≡ some (connected_to 7))
    × (ahead (try_next attempt connector).1 ≡ (ip4 5, 443) ∷ [])
try_next_example = try_next_lem attempt connector (ground arith)

abbrev client : Client (Serializer json address_text)
client = record {
  connector = none;
  requested_data_flags = 1;
  requested_data_update_flags = 0;
  remaining_data_flags = 1;
  is_data_requested = false;
  is_synchronized = false;
  is_paused = false;
  connections = nothing;
  events = [];
  has_quit = false;
  failure = none;
}

abbrev served : ClientSession
served = record joined { data_flags = 1; data_update_flags = 1 }

callback-Keeps_example : Keeps (callback json address_text (keeper json address_text) attempt)
callback-Keeps_example = callback-Keeps json address_text (keeper json address_text) attempt

full_data_taken_example :
    Arrived json address_text
      (keeper json address_text)
      attempt
      here
      (λ w. w.storage)
      (callback-Backed json address_text)
      visited
      1
      served
      (Session.on_message json
        (callback json address_text (keeper json address_text) attempt)
        here
        (server_data json 1 false
          (json.array (storage_items json address_text visited.connection_map)))
        (client, served))
full_data_taken_example =
    full_data_taken json address_text (keeper json address_text) attempt here (λ w. w.storage)
      (callback-Backed json address_text) visited client served (visit-IsFit, tt) refl refl refl
      refl refl

abbrev synced : Client (Serializer json address_text)
synced = record client { is_synchronized = true; requested_data_update_flags = 1 }

update_taken_example :
    Arrived json address_text
      (keeper json address_text)
      attempt
      here
      (λ w. w.storage)
      (callback-Backed json address_text)
      with_later.storage
      1
      served
      (Session.on_message json
        (callback json address_text (keeper json address_text) attempt)
        here
        (server_data json 1 true (json.array with_later.items))
        (synced, served))
unfolding new_serializer
update_taken_example =
    update_taken json address_text (keeper json address_text) attempt here (λ w. w.storage)
      (callback-Backed json address_text) nothing with_later synced served with_later-Runs refl refl
      empty-AllFit (record { same = λ c. refl; closed = empty-Closed }) refl refl refl refl refl
      refl refl
