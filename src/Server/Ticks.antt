-- ===== src/Server/Ticks.antt =====
-- The ticks that wait in the queue of a slow session when the server is updated again.
-- Source/Server.cpp, Source/ClientServerProtocol.hpp.
use conntop.Prelude.{
  ℕ, ◌<◌, ◌^◌, ◌≡◌, ◌≢◌, ◌∙◌, ap, true, false, List, [], ◌∷◌, ◌++◌, some, add32, arith,
}
use conntop.Json.{JsonLib}
use conntop.Protocol.{ServerMsg, connected}
use conntop.Protocol.Message.{Surroundings, create_server_msg, server_update_tick}
use conntop.Wire.Writer.{Bytes}
use conntop.Connection.Serialize.{AddressText}
use conntop.Session.{thrown}
use conntop.Session.Client
use conntop.Session.Client.{ClientSession, ClientCallback}
use conntop.Session.Server as Session
use conntop.Session.Server.{ServerSession, shared_msg, message_at, tick_slot, context_on_update}
use conntop.Session.Server.Poll.Stream.{texts}
use conntop.Session.Ticks.{shared_messages, tick_taken}
use conntop.Server.{
  Host, shared_of, look_over, on_update, collect_data, make_messages, serve, serve_all, callback,
}
use conntop.Server.Updates.{Serializer}

-- The text of a tick.
abbrev pub tick_text : JsonLib → ℕ → Bytes
tick_text J t = (create_server_msg J ServerMsg.update_tick (server_update_tick J t)).msg

-- A session that wants no data.
pub record IsListening (s : ServerSession) : Type 0 where
  pub state : s.state ≡ connected
  pub sending : s.is_sending_data ≡ false
  pub flags : s.data_flags ≡ 0

-- The session with another queue, registered for output.
abbrev queueing : List Session.QueuedMsg → ServerSession → ServerSession
queueing q s = record s {
  send_queue = q;
  poll = some Session.input_output;
  data_flags = 0;
  data_update_flags = 0;
}

module _ (J : JsonLib) (T : AddressText) {K : Type 0}
    (collect : K × Serializer J T → K × Serializer J T) where
  first_update :
      (k : K) (h : Host J T) (s : ServerSession)
      → IsListening s
      → s.send_queue ≡ []
      → let (k', h', clients) = on_update J T collect (k, h, s ∷ []) in
        (clients ≡ queueing (shared_msg tick_slot ∷ []) s ∷ [])
        × (h'.context ≡ context_on_update J h.context)
  unfolding on_update look_over collect_data make_messages serve serve_all callback
      Session.on_update Session.send_shared_message
  first_update k h s v q = ground arith

  second_update :
      (k : K) (h : Host J T) (s : ServerSession) (clients : List ServerSession)
      → IsListening s
      → clients ≡ queueing (shared_msg tick_slot ∷ []) s ∷ []
      → let (k', h', clients') = on_update J T collect (k, h, clients) in
        (clients' ≡ queueing (shared_msg tick_slot ∷ shared_msg tick_slot ∷ []) s ∷ [])
        × (h'.context ≡ context_on_update J h.context)
  unfolding on_update look_over collect_data make_messages serve serve_all callback
      Session.on_update Session.send_shared_message
  second_update k h s clients v q = ground arith

  one_tick :
      (h h' : Host J T)
      → h'.context ≡ context_on_update J h.context
      → ((message_at (shared_of J T h') (shared_msg tick_slot)).msg
          ≡ tick_text J (add32 (h.context).timestamp 1))
        × ((h'.context).timestamp ≡ add32 (h.context).timestamp 1)
  unfolding shared_of shared_messages context_on_update
  one_tick h h' e = ground arith

  two_ticks :
      (h h' : Host J T)
      → h'.context ≡ context_on_update J h.context
      → texts (shared_of J T h') (shared_msg tick_slot ∷ shared_msg tick_slot ∷ [])
        ≡ tick_text J (add32 (h.context).timestamp 1)
          ++ (tick_text J (add32 (h.context).timestamp 1) ++ [])
  unfolding shared_of shared_messages context_on_update
  two_ticks h h' e = ground arith

module _ (J : JsonLib) {W : Type 0} (cb : ClientCallback (J.Value) W) (e : Surroundings) where
  skipped :
      (t : ℕ) (w : W) (s : ClientSession)
      → t < 2 ^ 32
      → t ≢ 0
      → s.state ≡ connected
      → s.current_timestamp ≡ t
      → Client.on_message J cb e (server_update_tick J (add32 (add32 t 1) 1)) (w, s)
        ≡ thrown ("Unexpected update tick timestamp" ∷ []) (w, s)
  skipped t w s h nz p q =
      ground (arith, tick_taken J cb e (add32 (add32 t 1) 1) w s (omega arith) p)

-- Take a server whose timestamp t is below 2^32 and not 0, with one session, connected, with an
-- empty queue, that wants and is sent no data, and a connected client that has taken the tick t.
-- After two onUpdate of the server with nothing sent between them, the session's queue is two
-- ticks. The first led to the text with the timestamp after t when it was queued; now both lead to
-- the text with the second one after t, and the client refuses that tick with an exception, and
-- nothing changes.
pub queued_tick_overwritten :
    (J : JsonLib) (T : AddressText) {K W : Type 0}
    (collect : K × Serializer J T → K × Serializer J T) (cb : ClientCallback (J.Value) W)
    (e : Surroundings) (k : K) (h : Host J T) (s : ServerSession) (w : W) (c : ClientSession)
    → IsListening s
    → s.send_queue ≡ []
    → (h.context).timestamp < 2 ^ 32
    → (h.context).timestamp ≢ 0
    → c.state ≡ connected
    → c.current_timestamp ≡ (h.context).timestamp
    → let (k₁, h₁, clients₁) = on_update J T collect (k, h, s ∷ []) in
      let (k₂, h₂, clients₂) = on_update J T collect (k₁, h₁, clients₁) in
      let t = (h.context).timestamp in
      let ticks = shared_msg tick_slot ∷ shared_msg tick_slot ∷ [] in
      (clients₂
        ≡ record s {
          send_queue = ticks;
          poll = some (record { input = true; output = true; error = false });
          data_flags = 0;
          data_update_flags = 0;
        }
          ∷ [])
      × ((message_at (shared_of J T h₁) (shared_msg tick_slot)).msg ≡ tick_text J (add32 t 1))
      × (texts (shared_of J T h₂) ticks
          ≡ tick_text J (add32 (add32 t 1) 1) ++ (tick_text J (add32 (add32 t 1) 1) ++ []))
      × (Client.on_message J cb e (server_update_tick J (add32 (add32 t 1) 1)) (w, c)
          ≡ thrown ("Unexpected update tick timestamp" ∷ []) (w, c))
queued_tick_overwritten J T collect cb e k h s w c v q b nz p r =
    let o = on_update J T collect (k, h, s ∷ []) in
    let first = first_update J T collect k h s v q in
    let second = second_update J T collect o.0 o.1 s o.2 v first.0 in
    let one = one_tick J T collect h o.1 first.1 in
    let two = two_ticks J T collect o.1 (on_update J T collect (o.0, o.1, o.2)).1 second.1 in
    (
      second.0,
      one.0,
      two ∙ ap (λ t. tick_text J (add32 t 1) ++ (tick_text J (add32 t 1) ++ [])) one.1,
      skipped J cb e (h.context).timestamp w c b nz p r,
    )
