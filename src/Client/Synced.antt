-- ===== src/Client/Synced.antt =====
-- What `Client` makes of the server's data messages. Source/Client.cpp, Source/Server.hpp,
-- Source/ClientServerProtocol.cpp.
use conntop.Prelude.{
  ℕ, ◌⊎◌, inl, inr, ◌≡◌, refl, ap, sym, subst, ◌∙◌, true, false, List, [], ◌∷◌, ◌++◌, Option, some,
  arith,
}
use conntop.Json.{JsonLib, Result, ok}
use conntop.Protocol.{ClientMsg, connected}
use conntop.Protocol.Message.{Surroundings, create_client_msg, client_request_data, server_data}
use conntop.Connection.{Address}
use conntop.Connection.Serialize.{AddressText}
use conntop.Connection.Deserialize.Apply.{UpdateCallback}
use conntop.Session.{Outcome, done}
use conntop.Session.Fields
use conntop.Session.Client as Session
use conntop.Session.Client.{ClientSession, nothing, server_data_status}
use conntop.Storage.{Storage}
use conntop.Storage.Backed.{Backed, Closed}
use conntop.Server.Updates.{Serializer, storage_items}
use conntop.Server.Updates.Changes.{AllFit, SameConnections, Runs}
use conntop.Server.Updates.Steps.{Follows}
use conntop.Server.Updates.Replica.{replica}
use conntop.Server.Updates.Full.{EachFit, full_copy}
use conntop.Client.{
  Client, callback, stored, finish_data, receive_items, on_session_data, set_synchronized,
  request_data,
}

module _ (J : JsonLib) (T : AddressText) {L : Type 0} (cb : UpdateCallback L)
    (attempt : Address → ℕ → Option ℕ) (e : Surroundings) where
  -- The session hands data that the client asked for to the client.
  full_handed_on :
      (items : J.Value) (c : Client L) (s : ClientSession)
      → s.state ≡ connected
      → s.data_flags ≡ 1
      → Session.on_message J (callback J T cb attempt) e (server_data J 1 false items) (c, s)
        ≡ on_session_data J T cb 1 false items (c, s)
  unfolding Session.on_message callback
  full_handed_on items c s h f = ground (
    arith,
    Fields.server_msg_type-data J 1 false items,
    Fields.data_fields-data J 1 false items (omega arith),
  )

  update_handed_on :
      (items : J.Value) (c : Client L) (s : ClientSession)
      → s.state ≡ connected
      → s.data_flags ≡ 1
      → s.data_update_flags ≡ 1
      → Session.on_message J (callback J T cb attempt) e (server_data J 1 true items) (c, s)
        ≡ on_session_data J T cb 1 true items (c, s)
  unfolding Session.on_message callback
  update_handed_on items c s h f u = ground (
    arith,
    Fields.server_msg_type-data J 1 true items,
    Fields.data_fields-data J 1 true items (omega arith),
  )

  -- The client when a message's items are in.
  pub record IsSynced (c : Client L) : Type 0 where
    pub synchronized : c.is_synchronized ≡ true
    pub remaining : c.remaining_data_flags ≡ 0
    pub requested : c.requested_data_update_flags ≡ c.requested_data_flags
    pub asked : c.is_data_requested ≡ true

  -- The session with the client's request for data and updates of `flags`, where no answer to an
  -- earlier one is waited for.
  abbrev pub requesting : ℕ → ClientSession → ClientSession
  requesting flags s = elim s.expected_msg [
    | nothing ↦ record s {
      expected_msg = server_data_status;
      send_queue =
          s.send_queue
          ++ create_client_msg J ClientMsg.request_data (client_request_data J flags flags) ∷ [];
      poll = elim s.send_queue [
        | [] ↦ some (record { input = true; output = true; error = false })
        | _ ∷ _ ↦ s.poll
      ];
    }
    | _ ↦ s
  ]

  stored-IsSynced :
      (c : Client L) (s : ClientSession) (l : L)
      → s.state ≡ connected
      → c.remaining_data_flags ≡ 1
      → (c.is_synchronized ≡ false) ⊎ (c.requested_data_update_flags ≡ c.requested_data_flags)
      → let o = stored J T cb c s (ok tt, l) in
        (cs : Client L × ClientSession) × (o ≡ done cs)
        × IsSynced cs.0
        × (cs.0.connections ≡ l)
        × (cs.1 ≡ requesting c.requested_data_flags s)
  unfolding stored finish_data set_synchronized request_data Session.request_data
      Session.send_message
  stored-IsSynced c s l a r h = (
    _,
    refl,
    record {
      synchronized = ground arith;
      remaining = ground arith;
      requested = ground arith;
      asked = ground arith;
    },
    ground arith,
    ground arith,
  )

  full_stored :
      (vs : List (J.Value)) (c : Client L) (s : ClientSession)
      → c.remaining_data_flags ≡ 1
      → c.is_paused ≡ false
      → on_session_data J T cb 1 false (J.array vs) (c, s)
        ≡ stored J T cb c s (receive_items J T cb vs (cb.clear c.connections))
  unfolding on_session_data
  full_stored vs c s m p = ground (arith, J.array_lem vs)

  update_stored :
      (vs : List (J.Value)) (c : Client L) (s : ClientSession)
      → c.remaining_data_flags ≡ 1
      → c.is_paused ≡ false
      → c.is_synchronized ≡ true
      → on_session_data J T cb 1 true (J.array vs) (c, s)
        ≡ stored J T cb c s (receive_items J T cb vs c.connections)
  unfolding on_session_data
  update_stored vs c s m p y = ground (arith, J.array_lem vs)

  module _ (storage : L → Storage) (b : Backed cb storage) where
    -- The server's connections have come to the client, which had asked for `flags` over `s`.
    pub record Arrived (kept : Storage) (flags : ℕ) (s : ClientSession)
        (o : Outcome (Client L × ClientSession)) : Type 0 where
      pub client : Client L
      pub session : ClientSession
      pub returned : o ≡ done (client, session)
      pub synced : IsSynced client
      pub requested : session ≡ requesting flags s
      pub same : SameConnections kept (storage client.connections)
      pub closed : Closed (storage client.connections)

    arrive :
        (kept : Storage) (c : Client L) (s : ClientSession) (r : Result (Unit {0}) × L)
        (o : Outcome (Client L × ClientSession))
        → s.state ≡ connected
        → c.remaining_data_flags ≡ 1
        → (c.is_synchronized ≡ false) ⊎ (c.requested_data_update_flags ≡ c.requested_data_flags)
        → o ≡ stored J T cb c s r
        → r.0 ≡ ok tt
        → SameConnections kept (storage r.1)
        → Closed (storage r.1)
        → Arrived kept c.requested_data_flags s o
    arrive kept c s (result, l) o a m h q ok_lem same closed =
        let (cs, done_lem, synced, kept_lem, asked_lem) = stored-IsSynced c s l a m h in
        record {
          client = cs.0;
          session = cs.1;
          returned = q ∙ ap (λ x. stored J T cb c s (x, l)) ok_lem ∙ done_lem;
          synced = synced;
          requested = asked_lem;
          same = subst (λ x. SameConnections kept (storage x)) (sym kept_lem) same;
          closed = subst (λ x. Closed (storage x)) (sym kept_lem) closed;
        }

    -- Take a client that is neither paused nor synchronized and waits for connection data, whose
    -- list keeps its connections in a storage, over a connected session with connection data. When
    -- the session receives the DATA message with the items of all of a server's connections, each
    -- of which an item can carry, it returns; the client's list has the server's connections,
    -- whatever it had before, with an entry for both ends of each, and the client is synchronized
    -- and waits for no more. A session that waited for no answer now waits for DATA_STATUS, and
    -- has queued REQUEST_DATA for data and updates of all that the client requests; any other
    -- session is as it was.
    pub full_data_taken :
        (kept : Storage) (c : Client L) (s : ClientSession)
        → EachFit kept.connection_map
        → s.state ≡ connected
        → s.data_flags ≡ 1
        → c.remaining_data_flags ≡ 1
        → c.is_paused ≡ false
        → c.is_synchronized ≡ false
        → Arrived kept c.requested_data_flags s (
            Session.on_message J
              (callback J T cb attempt)
              e
              (server_data J 1 false (J.array (storage_items J T kept.connection_map)))
              (c, s))
    full_data_taken kept c s fit h f m p y =
        let items = J.array (storage_items J T kept.connection_map) in
        let (done_lem, same, closed) = full_copy J T cb storage b kept c.connections fit in
        arrive kept c s
          (receive_items J T cb (storage_items J T kept.connection_map) (cb.clear c.connections)) _
          h m (inl y)
          (full_handed_on items c s h f
            ∙ full_stored (storage_items J T kept.connection_map) c s m p)
          done_lem same closed

    -- Take a server's update serializer, enabled and without items, whose connections can be
    -- carried by items, and a client, not paused and synchronized, whose list keeps its
    -- connections in a storage, has the server's connections and an entry for both ends of each;
    -- the client's session is connected, with connection data and updates, and the client waits
    -- for connection data and requests updates as it requests data. Let the server's connections
    -- change in any way that a collector may. When the session then receives the DATA update with
    -- the serializer's items, it returns; the client's list has the server's connections, with an
    -- entry for both ends of each, and the client is synchronized and waits for no more. A session
    -- that waited for no answer now waits for DATA_STATUS, and has queued REQUEST_DATA for data
    -- and updates of all that the client requests; any other session is as it was.
    pub update_taken :
        (z z' : Serializer J T) (c : Client L) (s : ClientSession)
        → Runs J T z z'
        → z.items ≡ []
        → z.is_serialization_enabled ≡ true
        → AllFit z.storage
        → Follows J T cb storage b z.storage c.connections
        → s.state ≡ connected
        → s.data_flags ≡ 1
        → s.data_update_flags ≡ 1
        → c.remaining_data_flags ≡ 1
        → c.is_paused ≡ false
        → c.is_synchronized ≡ true
        → c.requested_data_update_flags ≡ c.requested_data_flags
        → Arrived z'.storage c.requested_data_flags s (
            Session.on_message J
              (callback J T cb attempt)
              e
              (server_data J 1 true (J.array z'.items))
              (c, s))
    update_taken z z' c s runs i n fit h a f u m p y q =
        let items = J.array z'.items in
        let (done_lem, follows) = replica J T cb storage b z z' c.connections runs i n fit h in
        arrive z'.storage c s (receive_items J T cb z'.items c.connections) _ a m (inr q)
          (update_handed_on items c s a f u ∙ update_stored z'.items c s m p y) done_lem
          follows.same follows.closed
