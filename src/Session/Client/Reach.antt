-- ===== src/Session/Client/Reach.antt =====
-- The states that a `ClientSession` can come to, call by call. Source/ClientServerProtocol.cpp.
use conntop.Prelude.{ℕ, refl, Option}
use conntop.Json.{JsonLib}
use conntop.Protocol.Message.{Surroundings}
use conntop.Wire.Writer.{initial}
use conntop.Wire.Writer.Stream
use conntop.Session.{PollFlags, SocketAnswers}
use conntop.Session.Client.{
  ClientSession, ClientCallback, new_session, connect, disconnect, request_data, on_update,
}
use conntop.Session.Client.Invariant.{
  IsValid, Keeps, on_update-IsValid, disconnect-IsValid, request_data-IsValid, connect-IsValid,
}
use conntop.Session.Client.Poll.{socket_poll_handler}
use conntop.Session.Client.Poll.Invariant.{socket_poll_handler-IsValid}

module _ (J : JsonLib) {W : Type 0} (cb : ClientCallback (J.Value) W) (e : Surroundings) where
  -- The constructor, then any calls of the public methods and of the poll handler, with any changes
  -- of the owner's world between them.
  pub data Reaches : W → ClientSession → Type 0 where
    created : (w : W) → Reaches w new_session
    waited : (w w' : W) (s : ClientSession) → Reaches w s → Reaches w' s
    asked_to_connect :
        (fd : Option ℕ) (w : W) (s : ClientSession) → Reaches w s → Reaches w (connect fd s)
    asked_for_data :
        (f u : ℕ) (w : W) (s : ClientSession) → Reaches w s → Reaches w (request_data J f u s)
    updated :
        (w : W) (s : ClientSession)
        → Reaches w s
        → Reaches (on_update J cb e (w, s)).0 (on_update J cb e (w, s)).1
    asked_to_disconnect :
        (w : W) (s : ClientSession)
        → Reaches w s
        → Reaches (disconnect J cb e (w, s)).0 (disconnect J cb e (w, s)).1
    polled :
        (flags : PollFlags) (a : SocketAnswers (J.Value)) (w : W) (s : ClientSession)
        → Reaches w s
        → Reaches
            (socket_poll_handler J cb e flags a (w, s)).0
            (socket_poll_handler J cb e flags a (w, s)).1

  new_session-IsValid : IsValid new_session
  unfolding new_session Stream.IsValid initial
  new_session-IsValid = record { fits = (refl, refl, refl, refl); writer = tt }

  module _ (k : Keeps cb) where
    -- If the owner's callbacks keep the client session valid, every session that the constructor
    -- and any calls of connect, requestData, onUpdate, disconnect and the poll handler lead to is
    -- valid: disconnected without socket, registration and queue, or with an open socket that
    -- waits for what it must, and with a writer that points at what it is sending.
    pub reaches-IsValid : (w : W) (s : ClientSession) → Reaches w s → IsValid s
    reaches-IsValid _ _ (created w) = new_session-IsValid
    reaches-IsValid _ _ (waited w0 w s r) = reaches-IsValid w0 s r
    reaches-IsValid _ _ (asked_to_connect fd w s0 r) =
        connect-IsValid fd s0 (reaches-IsValid w s0 r)
    reaches-IsValid _ _ (asked_for_data f u w s0 r) =
        request_data-IsValid J f u s0 (reaches-IsValid w s0 r)
    reaches-IsValid _ _ (updated w0 s0 r) =
        on_update-IsValid J cb e k w0 s0 (reaches-IsValid w0 s0 r)
    reaches-IsValid _ _ (asked_to_disconnect w0 s0 r) =
        disconnect-IsValid J cb e k w0 s0 (reaches-IsValid w0 s0 r)
    reaches-IsValid _ _ (polled flags a w0 s0 r) =
        socket_poll_handler-IsValid J cb e k flags a w0 s0 (reaches-IsValid w0 s0 r)
