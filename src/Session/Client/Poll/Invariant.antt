-- ===== src/Session/Client/Poll/Invariant.antt =====
-- The stages of `ClientSession::SocketPollHandler` and the session's invariant. Source/ClientServerProtocol.cpp.
use conntop.Prelude.{
  ℕ, ◌≡◌, refl, ◌≢◌, ◌⊎◌, inl, inr, Bool, if◌then◌else◌, not, ◌&&◌, true, false, String, List, [],
  ◌∷◌, Option, none, some, arith,
}
use conntop.Json.{JsonLib}
use conntop.Protocol.{ClientMsg, DisconnectReason, disconnected}
use conntop.Protocol.Message.{SerializedMessage, Surroundings}
use conntop.Session.{
  Outcome, done, thrown, PollFlags, Received, lost, receive_failed, parsed, SocketAnswers,
  SendResult,
}
use conntop.Session.Client.{ClientSession, ClientCallback, on_message}
use conntop.Session.Client.Invariant.{
  IsValid, Keeps, after, on_message-IsValid, quick_disconnect-IsValid,
}
use conntop.Session.Client.Poll.{
  flush, deliver, verified, established, wait_again, input_stage, output_stage, error_stage,
  is_disconnected, handle_input, handle_output, check_connect, after_flush, socket_poll_handler,
}
use conntop.Session.Client.Stream.{Streams, client_flush-Streams}
use conntop.Session.Flush.{Flushed}
use conntop.Wire.Writer.{Writer}

module _ (J : JsonLib) {W : Type 0} (cb : ClientCallback (J.Value) W) (e : Surroundings)
    (k : Keeps cb) where
  deliver-IsValid :
      (vs : List (J.Value)) (end : Option String) (ws : W × ClientSession)
      → IsValid ws.1
      → IsValid (after (deliver J cb e vs end ws))
  unfolding deliver
  deliver-IsValid [] none ws v = v
  deliver-IsValid [] (some what) ws v = v
  deliver-IsValid (x ∷ vs) end ws v =
      next (on_message J cb e x ws) refl (on_message-IsValid J cb e k x ws.0 ws.1 v)
        (deliver-IsValid vs end)
    where
      next :
          (o : Outcome (W × ClientSession))
          → on_message J cb e x ws ≡ o
          → IsValid (after o)
          → ((ws' : W × ClientSession)
              → IsValid ws'.1
              → IsValid (after (deliver J cb e vs end ws')))
          → IsValid (after (deliver J cb e (x ∷ vs) end ws))
      next (done ws') q h rec = rw (q, deliver) (rec ws' h)
      next (thrown text ws') q h rec = rw (q, deliver) h

  handle_input-IsValid :
      (r : Received (J.Value)) (w : W) (s : ClientSession)
      → IsValid s
      → IsValid (handle_input J cb e r (w, s)).1
  unfolding handle_input
  handle_input-IsValid lost w s v = grind (arith, quick_disconnect-IsValid)
  handle_input-IsValid (receive_failed what) w s v = grind (arith, quick_disconnect-IsValid)
  handle_input-IsValid (parsed vs end) w s v =
      caught (deliver J cb e vs end (w, s)) refl (deliver-IsValid vs end (w, s) v)
    where
      caught :
          (o : Outcome (W × ClientSession))
          → deliver J cb e vs end (w, s) ≡ o
          → IsValid (after o)
          → IsValid (handle_input J cb e (parsed vs end) (w, s)).1
      caught (done ws') q h = rw (q, handle_input) h
      caught (thrown text (w', s')) q h =
          rw (q, handle_input)
            (quick_disconnect-IsValid J cb e k DisconnectReason.protocol_error (some text) w' s' h)

  -- What the loop leaves of a session that is not disconnected.
  flushed-IsValid :
      (f : Flushed (SerializedMessage ClientMsg)) (s : ClientSession)
      → IsValid s
      → Streams s.writer s.send_queue f
      → (s.send_queue ≢ []) ⊎ (f.send_queue ≡ [])
      → s.state ≢ disconnected
      → IsValid (record s { writer = f.writer; send_queue = f.send_queue })
  flushed-IsValid f s v h keeps nd = ground arith

  after_flush-IsValid :
      (f : Flushed (SerializedMessage ClientMsg)) (w : W) (s : ClientSession)
      → IsValid (record s { writer = f.writer; send_queue = f.send_queue })
      → IsValid (after_flush J cb e f (w, s)).1
  unfolding after_flush
  after_flush-IsValid f w s v = grind (arith, quick_disconnect-IsValid)

  verified-IsValid :
      (r : Option String) (w : W) (s : ClientSession)
      → IsValid s
      → s.state ≢ disconnected
      → IsValid (verified J cb e r (w, s)).1
  unfolding verified
  verified-IsValid none w s v nd = ground arith
  verified-IsValid (some what) w s v nd = quick_disconnect-IsValid J cb e k _ _ w s v

  established-IsValid :
      (r : Option ℕ) (w : W) (s : ClientSession)
      → IsValid s
      → IsValid (established J cb e r (w, s)).1
  unfolding established
  established-IsValid none w s v = k.connection_established _ v
  established-IsValid (some endpoint) w s v = k.connection_established _ (ground arith)

  check_connect-IsValid :
      (a : SocketAnswers (J.Value)) (w : W) (s : ClientSession)
      → IsValid s
      → s.state ≢ disconnected
      → IsValid (check_connect J cb e a (w, s)).1
  unfolding check_connect
  check_connect-IsValid a w s v nd = ground (
    arith,
    verified-IsValid a.verify_connect w s v nd,
    established-IsValid a.remote_endpoint (verified J cb e a.verify_connect (w, s)).0
        (verified J cb e a.verify_connect (w, s)).1,
  )

  -- The loop empties an empty queue.
  flush-nil : (sends : ℕ → SendResult) (k' : ℕ) (w : Writer) → (flush sends k' w []).send_queue ≡ []
  unfolding flush
  flush-nil sends k' w = ground arith

  queue_kept :
      (sends : ℕ → SendResult) (w : Writer) (q : List (SerializedMessage ClientMsg))
      → (q ≢ []) ⊎ ((flush sends 0 w q).send_queue ≡ [])
  queue_kept sends w [] = inr (flush-nil sends 0 w)
  queue_kept sends w (x ∷ q) = inl (λ p. cc)

  -- A conditional step keeps the session valid if each way does.
  keep_if :
      (b : Bool) (x y : W × ClientSession)
      → (b ≡ true → IsValid x.1)
      → IsValid y.1
      → IsValid (if b then x else y).1
  keep_if true x y h g = h refl
  keep_if false x y h g = g

  handle_output-IsValid :
      (a : SocketAnswers (J.Value)) (w : W) (s : ClientSession)
      → IsValid s
      → s.state ≢ disconnected
      → IsValid (handle_output J cb e a (w, s)).1
  unfolding handle_output
  handle_output-IsValid a w s v nd =
      let rest = flush a.sends 0 s.writer s.send_queue in
      keep_if s.is_connection_established _ _
        (λ _. after_flush-IsValid rest w s (
          flushed-IsValid rest s v (client_flush-Streams a.sends 0 s.writer s.send_queue v.writer)
            (queue_kept a.sends s.writer s.send_queue) nd))
        (check_connect-IsValid a w s v nd)

  wait_again-IsValid :
      (w : W) (s : ClientSession) → IsValid s → IsValid (wait_again J cb e (w, s)).1
  unfolding wait_again
  wait_again-IsValid w s v = ground arith

  input_stage-IsValid :
      (flags : PollFlags) (r : Received (J.Value)) (w : W) (s : ClientSession)
      → IsValid s
      → IsValid (input_stage J cb e flags r (w, s)).1
  unfolding input_stage
  input_stage-IsValid flags r w s v = keep_if flags.input _ _ (λ _. handle_input-IsValid r w s v) v

  still_open :
      (b : Bool) (s : ClientSession)
      → (b && not (is_disconnected s.state)) ≡ true
      → s.state ≢ disconnected
  unfolding is_disconnected
  still_open b s h p = ground arith

  output_stage-IsValid :
      (flags : PollFlags) (a : SocketAnswers (J.Value)) (w : W) (s : ClientSession)
      → IsValid s
      → IsValid (output_stage J cb e flags a (w, s)).1
  unfolding output_stage
  output_stage-IsValid flags a w s v =
      keep_if _ _ _ (λ h. handle_output-IsValid a w s v (still_open flags.output s h)) v

  error_stage-IsValid :
      (flags : PollFlags) (w : W) (s : ClientSession)
      → IsValid s
      → IsValid (error_stage J cb e flags (w, s)).1
  unfolding error_stage
  error_stage-IsValid flags w s v = ground (
    arith,
    quick_disconnect-IsValid J cb e k DisconnectReason.socket_error
        (some ("Socket poll failed" ∷ [])) w s v,
  )

  -- If the owner's callbacks keep the client session valid, its poll handler does too, whatever
  -- the poll system reports and the socket answers: a disconnected session has no socket, no
  -- registration and an empty queue; any other has an open socket that is registered for input,
  -- and for output too while a message is queued; and its writer points at what it is sending.
  pub socket_poll_handler-IsValid :
      (flags : PollFlags) (a : SocketAnswers (J.Value)) (w : W) (s : ClientSession)
      → IsValid s
      → IsValid (socket_poll_handler J cb e flags a (w, s)).1
  unfolding socket_poll_handler
  socket_poll_handler-IsValid flags a w s v = wait_again-IsValid _ _ (
      error_stage-IsValid flags _ _
        (output_stage-IsValid flags a _ _ (input_stage-IsValid flags a.received w s v)))
