-- ===== src/Tests/ReplicaTests.antt =====
-- A server's connections and a client's, at concrete inputs.
use conntop.Prelude.{ap, ◌∙◌, ◌≡◌, refl, some, [], ◌∷◌, arith}
use conntop.Json.{ok}
use conntop.Connection.{ConnectionData}
use conntop.Prelude.{inl}
use conntop.Connection.{create_type, port_type_of}
use conntop.Connection.Deserialize.Apply.Stored.{Covers}
use conntop.Client.{receive_items}
use conntop.Prelude.{◌≢◌, true}
use conntop.Connection.{action_to_enum}
use conntop.Connection.Deserialize.{read_item, read_action}
use conntop.Connection.Deserialize.Apply.{deserialize}
use conntop.Connection.Deserialize.Apply.Refused.{deserialize-refused}
use conntop.Storage.{Storage, empty, get_connection, find_connection}
use conntop.Storage.Enter.{get-add_connection}
use conntop.Storage.Laws.{connection_eq_refl}
use conntop.Storage.Backed.{Closed}
use conntop.Server.Updates.{Serializer, new_serializer, callback}
use conntop.Server.Updates.Keeps.{callback-Backed}
use conntop.Server.Updates.Changes.{
  opened, changed, IsFit, AllFit, perform, Allowed, Runs, here, next, add_with-new,
}
use conntop.Server.Updates.Steps.{Follows}
use conntop.Server.Updates.Replica.{replica}
use conntop.Server.Updates.Full.{full_copy}
use conntop.Server.Updates.{storage_items}
use conntop.Server.Updates.Changes.{SameConnections}
use conntop.Tests.JsonModel.{json}
use conntop.Tests.ConnectionTests.{address_text, visit, visit-IsWide}

abbrev pub nothing : Serializer json address_text
nothing = new_serializer json address_text empty

pub visit-IsFit : IsFit visit
unfolding create_type
visit-IsFit = record { wide = visit-IsWide; uniform = refl }

-- More bytes have come in, and the state is another.
abbrev pub later : ConnectionData
later = record visit { state = 4; traffic = record (visit.traffic) { rx_bytes = 1500 } }

later-IsFit : IsFit later
unfolding create_type port_type_of
later-IsFit = record {
  wide = record {
    src_port = omega arith;
    dst_port = omega arith;
    state = inl (omega arith);
    rx_packets = omega arith;
    tx_packets = omega arith;
    rx_bytes = omega arith;
    tx_bytes = omega arith;
    rx_speed = omega arith;
    tx_speed = omega arith;
  };
  uniform = refl;
}

later-Covers : Covers 258 visit later
later-Covers = record {
  connection = refl;
  state = λ h. ground (arith, h);
  rx_packets = λ h. refl;
  tx_packets = λ h. refl;
  rx_bytes = λ h. ground (arith, h);
  tx_bytes = λ h. refl;
  rx_speed = λ h. refl;
  tx_speed = λ h. refl;
}

pub empty-AllFit : AllFit empty
unfolding get_connection find_connection empty
empty-AllFit c d e = ground arith

pub empty-Closed : Closed empty
unfolding get_connection find_connection empty
empty-Closed c d e = ground arith

abbrev pub with_visit : Serializer json address_text
with_visit = perform json address_text (opened visit) nothing

abbrev pub with_later : Serializer json address_text
with_later = perform json address_text (changed later 258) with_visit

has-with_visit : get_connection visit.connection with_visit.storage ≡ some visit
unfolding perform new_serializer get_connection find_connection empty
has-with_visit =
    ap (λ z. get_connection visit.connection (z.storage))
      (add_with-new json address_text visit nothing refl refl)
    ∙ get-add_connection visit visit.connection empty
    ∙ rw (connection_eq_refl visit.connection) refl

pub later-Allowed : Allowed json address_text (changed later 258) with_visit
later-Allowed = (later-IsFit, omega arith, (visit, has-with_visit, later-Covers))

abbrev pub with_later-Runs : Runs json address_text nothing with_later
with_later-Runs = next (next here (opened visit) visit-IsFit) (changed later 258) later-Allowed

replica_example :
    ((receive_items json address_text (callback json address_text) with_later.items nothing).0
      ≡ ok tt)
    × Follows json address_text
        (callback json address_text)
        (λ w. w.storage)
        (callback-Backed json address_text)
        with_later.storage
        (receive_items json address_text (callback json address_text) with_later.items nothing).1
unfolding new_serializer
replica_example =
    replica json address_text (callback json address_text) (λ w. w.storage)
      (callback-Backed json address_text) nothing with_later nothing with_later-Runs refl refl
      empty-AllFit (record { same = λ c. refl; closed = empty-Closed })

-- The server has the visit as it was, the client as it is later.
abbrev pub visited : Storage
visited = record empty { connection_map = visit ∷ [] }

full_copy_example :
    let cb = callback json address_text in
    let (result, w) =
      receive_items json address_text cb
        (storage_items json address_text visited.connection_map)
        (cb.clear with_later) in
    (result ≡ ok tt) × SameConnections visited w.storage × Closed w.storage
full_copy_example =
    full_copy json address_text (callback json address_text) (λ w. w.storage)
      (callback-Backed json address_text) visited with_later (visit-IsFit, tt)

-- An action that there is not.
abbrev pub mistaken : json.Value
mistaken = json.object (("action", json.set_string "renew") ∷ [])

mistaken-refused :
    (deserialize address_text (callback json address_text) json mistaken nothing).0 ≢ ok true
unfolding deserialize read_item read_action action_to_enum
mistaken-refused e = ground arith

deserialize-refused_example :
    ((deserialize address_text (callback json address_text) json mistaken nothing).1.storage
    ).connection_map
    ≡ []
unfolding new_serializer empty
deserialize-refused_example =
    deserialize-refused address_text (callback json address_text) (λ w. w.storage)
      (callback-Backed json address_text) json mistaken nothing mistaken-refused
