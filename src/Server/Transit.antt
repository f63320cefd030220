-- ===== src/Server/Transit.antt =====
-- The data messages that are on their way when the server replaces them. Source/Server.cpp.
use conntop.Prelude.{
  ◌-◌, take-all, drop, length-drop, ◌⊎◌, ◌≡◌, refl, true, false, List, [], ◌∷◌, has_flag, arith,
}
use conntop.Json.{JsonLib}
use conntop.Protocol.{ServerMsg, connected}
use conntop.Protocol.Message.{create_server_msg, server_data}
use conntop.Connection.Serialize.{AddressText}
use conntop.Session.Server as Session
use conntop.Session.Server.{
  ServerSession, QueuedMsg, shared_msg, message_at, connection_updates_slot, tick_slot,
  context_on_update, Shared, store, is_data, drop_data, stop_sending_data,
}
use conntop.Wire.Writer.{Writer, stop, deref}
use conntop.Wire.Writer.Stream
use conntop.Wire.Writer.Stream.{stop_refused, stop_done}
use conntop.Session.Ticks.{shared_messages}
use conntop.Server.{
  Host, shared_of, look_over, on_update, collect_data, make_messages, serve, serve_all, callback,
  connection_data,
}
use conntop.Server.Updates.{Serializer, build}

-- No entry of the queue leads to a data message.
abbrev pub NoData : Shared → List QueuedMsg → Type 0
NoData m [] = Unit
NoData m (x ∷ q) = (is_data (message_at m x).msg_type ≡ false) × NoData m q

drop_data-NoData : (m : Shared) (q : List QueuedMsg) → NoData m (drop_data m q).0
unfolding drop_data
drop_data-NoData m [] = tt
drop_data-NoData m (x ∷ q) = ground (arith, drop_data-NoData m q)

-- What is on its way goes on, or nothing of its message has gone out.
abbrev pub Goes : Shared → Shared → Writer → Writer → Type 0
Goes m m' w w' =
    (Stream.pending (store m') w' ≡ Stream.pending (store m) w)
    ⊎ ((Stream.pending (store m') w' ≡ []) × (Stream.pending (store m) w ≡ deref (store m) w w.ptr))

stop_either_way :
    (m m' : Shared) (w : Writer)
    → Stream.IsValid (store m) w
    → let (w', stopped) = stop (store m) w in Goes m m' w w' × Stream.IsValid (store m') w'
unfolding stop Stream.IsValid Stream.pending
stop_either_way m m' w v = ground (
  arith,
  take-all (w.data_length - w.data_pos) (drop w.data_pos (deref (store m) w w.ptr)),
  length-drop w.data_pos (deref (store m) w w.ptr),
)

-- When a server session with a valid writer that is sending data is told to stop, then whatever
-- the shared messages become: the bytes of the message that were pending stay pending as they
-- were, or the whole message was pending and nothing is any more; the writer is valid, no entry of
-- the queue led to a data message, and the session sends no data and has no data flags.
pub stop_sending_data-Transit :
    (m m' : Shared) (s : ServerSession)
    → Stream.IsValid (store m) s.writer
    → s.is_sending_data ≡ true
    → let s' = (stop_sending_data m s).0 in
      Goes m m' s.writer s'.writer
      × Stream.IsValid (store m') s'.writer
      × NoData m s'.send_queue
      × (s'.is_sending_data ≡ false)
      × (s'.data_flags ≡ 0)
      × (s'.data_update_flags ≡ 0)
unfolding stop_sending_data
stop_sending_data-Transit m m' s v b =
    let (p, w) = stop_either_way m m' s.writer v in
    let n = drop_data-NoData m s.send_queue in rw b (p, w, n, refl, refl, refl)

module _ (J : JsonLib) (T : AddressText) {K : Type 0}
    (collect : K × Serializer J T → K × Serializer J T) where
  -- Take a server with connection data whose serializer is enabled after the collector's update,
  -- and a connected session, alone, without data flags, that is not sending data and whose queue
  -- is one entry, the server's update message. After onUpdate the session is as it was but for the
  -- tick, queued behind this entry, and the entry leads to the update with the items since the
  -- last one, whatever the message was when it was queued.
  pub queued_update_replaced :
      (k : K) (h : Host J T) (s : ServerSession)
      → has_flag h.available_data_flags connection_data ≡ true
      → (collect (k, h.connection_updates)).1.is_serialization_enabled ≡ true
      → s.state ≡ connected
      → s.is_sending_data ≡ false
      → s.data_flags ≡ 0
      → s.data_update_flags ≡ 0
      → s.send_queue ≡ shared_msg connection_updates_slot ∷ []
      → let (k', h', clients) = on_update J T collect (k, h, s ∷ []) in
        let items = (collect (k, h.connection_updates)).1.items in
        (clients
          ≡ record s { send_queue = shared_msg connection_updates_slot ∷ shared_msg tick_slot ∷ [] }
            ∷ [])
        × (message_at (shared_of J T h') (shared_msg connection_updates_slot)
            ≡ create_server_msg J ServerMsg.data_msg
                (server_data J connection_data true (J.array items)))
  unfolding on_update look_over collect_data make_messages serve serve_all callback
      Session.on_update Session.send_shared_message shared_of shared_messages build
  queued_update_replaced k h s a e c n f u q = ground arith
