-- ===== src/Session/Server/Poll.antt =====
-- `ServerSession::SocketPollHandler` of Source/ClientServerProtocol.cpp.
pub mod Stream
pub mod Stall
use conntop.Prelude.{
  ℕ, ◌+◌, Bool, true, false, ◌&&◌, not, String, List, [], ◌∷◌, ◌++◌, Option, none, some,
  if◌then◌else◌,
}
use conntop.Json.{JsonLib}
use conntop.Protocol.{DisconnectReason, SessionState, disconnected, closing}
use conntop.Wire.Writer.{Writer, Bytes, Store, send, send_shared}
use conntop.Session.{
  Outcome, done, thrown, PollFlags, Received, lost, receive_failed, parsed, SendResult,
  SocketAnswers,
}
use conntop.Session.Flush.{Tried, failed, went, try_send, Flushed}
use conntop.Session.Server.{
  Shared, store, QueuedMsg, own_msg, shared_msg, message_at, is_data, ServerSession, ServerCallback,
  on_message, quick_disconnect,
}

-- What the loop hands to the writer next.
unfoldable pub hand_over : Shared → Writer → QueuedMsg → Writer
hand_over m w (own_msg x) = (send w x.msg).0
hand_over m w (shared_msg slot) = (send_shared (store m) w slot).0

-- `while (doSend()) { … }`, with `m_isSendingData` beside what `Flushed` holds.
unfoldable pub flush :
    Shared → (ℕ → SendResult) → ℕ → Bool → Writer → List QueuedMsg → Bool × Flushed QueuedMsg
flush m sends k sending w [] = elim (try_send (store m) w (sends k)) [
  | failed what ↦ (sending, record { writer = w; send_queue = []; out = []; failure = some what })
  | went w' sent out ↦ (
    if sent then false else sending,
    record { writer = w'; send_queue = []; out = out; failure = none },
  )
]
flush m sends k sending w (x ∷ q) = elim (try_send (store m) w (sends k)) [
  | failed what ↦
      (sending, record { writer = w; send_queue = x ∷ q; out = []; failure = some what })
  | went w' sent out ↦
      let next = flush m sends (k + 1) (is_data (message_at m x).msg_type) (hand_over m w' x) q in
      if sent
      then (next.0, record (next.1) { out = out ++ (next.1).out })
      else (sending, record { writer = w'; send_queue = x ∷ q; out = out; failure = none })
]

is_disconnected : SessionState → Bool
is_disconnected disconnected = true
is_disconnected _ = false

-- The flags for which the socket goes on waiting, by what is left in the queue.
unfoldable pub wait_flags : List QueuedMsg → PollFlags
wait_flags [] = record { input = true; output = false; error = false }
wait_flags (x ∷ q) = record { input = true; output = true; error = false }

wait_at : Option ℕ → ServerSession → ServerSession
unfolding wait_flags
wait_at none s = s
wait_at (some fd) s = record s { poll = some (wait_flags s.send_queue) }

module _ (J : JsonLib) {W : Type 0} (cb : ServerCallback W) (m : Shared) where
  open J use {Value}

  pub deliver : List Value → Option String → W × ServerSession → Outcome (W × ServerSession)
  deliver [] none ws = done ws
  deliver [] (some what) ws = thrown (what ∷ []) ws
  deliver (v ∷ vs) end ws = elim (on_message J cb v ws) [
    | thrown text ws' ↦ thrown text ws'
    | done ws' ↦ deliver vs end ws'
  ]

  lost_at : SessionState → W × ServerSession → W × ServerSession
  lost_at closing (w, s) = quick_disconnect J cb s.disconnect_reason none (w, s)
  lost_at _ ws = quick_disconnect J cb DisconnectReason.connection_lost none ws

  pub handle_input : Received Value → W × ServerSession → W × ServerSession
  unfolding lost_at
  handle_input lost (w, s) = lost_at s.state (w, s)
  handle_input (receive_failed what) ws =
      quick_disconnect J cb DisconnectReason.socket_error
        (some ("Unable to receive data: " ∷ what ∷ [])) ws
  handle_input (parsed vs end) ws = elim (deliver vs end ws) [
    | done ws' ↦ ws'
    | thrown text ws' ↦ quick_disconnect J cb DisconnectReason.protocol_error (some text) ws'
  ]

  after_flush : Bool × Flushed QueuedMsg → W × ServerSession → W × ServerSession
  after_flush (sending, f) (w, s) =
      let s' : ServerSession = record s {
        writer = f.writer;
        send_queue = f.send_queue;
        is_sending_data = sending;
      } in
      elim f.failure [
        | none ↦ (w, s')
        | some what ↦
            quick_disconnect J cb DisconnectReason.socket_error
              (some ("Unable to send data: " ∷ what ∷ [])) (w, s')
      ]

  pub handle_output : (ℕ → SendResult) → W × ServerSession → W × ServerSession
  unfolding after_flush
  handle_output sends (w, s) =
      after_flush (flush m sends 0 s.is_sending_data s.writer s.send_queue) (w, s)

  pub socket_poll_handler : PollFlags → SocketAnswers Value → W × ServerSession → W × ServerSession
  unfolding wait_at is_disconnected
  socket_poll_handler flags a ws =
      let ws₁ = if flags.input then handle_input a.received ws else ws in
      let ws₂ =
        if flags.output && not (is_disconnected (ws₁.1).state)
        then handle_output a.sends ws₁
        else ws₁ in
      let ws₃ =
        if flags.error && not (is_disconnected (ws₂.1).state)
        then quick_disconnect J cb DisconnectReason.socket_error (some ("Socket poll failed" ∷ []))
            ws₂
        else ws₂ in
      (ws₃.0, wait_at (ws₃.1).socket ws₃.1)
