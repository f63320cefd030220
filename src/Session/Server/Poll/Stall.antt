-- ===== src/Session/Server/Poll/Stall.antt =====
-- What the poll handler waits for when the socket takes only a part of the last message.
-- Source/ClientServerProtocol.cpp.
use conntop.Prelude.{
  ℕ, ◌<◌, ◌≡◌, ◌≢◌, Bool, true, false, [], ◌∷◌, none, some, length, drop, arith, length-drop,
}
use conntop.Json.{JsonLib}
use conntop.Protocol.{disconnected}
use conntop.Wire.Writer.{Writer, do_send, send, send_shared}
use conntop.Wire.Writer.Stream.{pending}
use conntop.Session.{SocketAnswers, SendResult, accepted, send_failed}
use conntop.Session.Flush.{try_send, went}
use conntop.Session.Server.{
  Shared, store, QueuedMsg, own_msg, shared_msg, message_at, ServerSession, ServerCallback,
}
use conntop.Session.Server.Poll.{flush, hand_over, handle_output, socket_poll_handler}

module _ (m : Shared) where
  -- An idle writer does not ask the socket.
  try_send-idle :
      (w : Writer) (r : SendResult)
      → w.msg_type ≡ conntop.Wire.Writer.none
      → try_send (store m) w r ≡ went w true []
  unfolding try_send do_send
  try_send-idle w (accepted k) i = ground arith
  try_send-idle w (send_failed e) i = ground arith

  -- The last message, handed to an idle writer, of which the socket takes `n` bytes.
  flush-part :
      (sends : ℕ → SendResult) (sending : Bool) (w : Writer) (x : QueuedMsg) (n : ℕ)
      → w.msg_type ≡ conntop.Wire.Writer.none
      → sends 1 ≡ accepted n
      → n < length (message_at m x).msg
      → let (b, f) = flush m sends 0 sending w (x ∷ []) in
        (f.failure ≡ none)
        × (f.send_queue ≡ [])
        × (pending (store m) f.writer ≡ drop n (message_at m x).msg)
  unfolding flush hand_over try_send do_send send send_shared pending
  flush-part sends sending w (own_msg x) n i a h = ground (arith, try_send-idle w (sends 0) i)
  flush-part sends sending w (shared_msg x) n i a h = ground (arith, try_send-idle w (sends 0) i)

-- When a connected, opening or closing server session that has a socket, an idle writer and one
-- message in its queue is told of output alone, and the socket takes n bytes of the message, fewer
-- than it has, then the message without its first n bytes, which is not empty, is pending in the
-- writer, the queue is empty, and the socket is registered for input alone.
pub rest_not_awaited :
    (J : JsonLib) {W : Type 0} (cb : ServerCallback W) (m : Shared) (a : SocketAnswers (J.Value))
    (w : W) (s : ServerSession) (x : QueuedMsg) (fd n : ℕ)
    → s.socket ≡ some fd
    → s.state ≢ disconnected
    → s.writer.msg_type ≡ conntop.Wire.Writer.none
    → s.send_queue ≡ x ∷ []
    → a.sends 1 ≡ accepted n
    → n < length (message_at m x).msg
    → let s' =
        (socket_poll_handler J cb m
          (record { input = false; output = true; error = false })
          a
          (w, s)).1 in
      (pending (store m) s'.writer ≡ drop n (message_at m x).msg)
      × (pending (store m) s'.writer ≢ [])
      × (s'.send_queue ≡ [])
      × (s'.poll ≡ some (record { input = true; output = false; error = false }))
unfolding socket_poll_handler handle_output
rest_not_awaited J cb m a w s x fd n p nd i q t h =
    let e = flush-part m a.sends s.is_sending_data s.writer x n i t h in
    ground (arith, e, length-drop n (message_at m x).msg)
